-- ===== src/IoQueue.antt =====
-- src/io/ioqueue.c: a ring of bytes between a producer and a consumer, counted by two semaphores.
-- `t` is the calling thread. A call that blocks in NX_SemaphoreWait is `blocks`: its thread is on
-- the wait list of that semaphore. Create and destroy only allocate, set up and free.
pub mod Ring
pub mod Refine
pub mod Blocking
mod Tests
use nxos.Base.{
  ℕ, ◌+◌, ◌%◌, ◌≡◌, Bool, true, false, ◌||◌, Option, none, some, List, [], ◌==◌, if◌then◌else◌,
  next, get_elem?, set, Error, is_eok, eok, einval, eagain,
}
use nxos.Semaphore
use nxos.Semaphore.{Semaphore}

pub record IoQueue : Type 0 where
  pub full : Semaphore
  pub empty : Semaphore
  pub mutex : Semaphore
  pub length : ℕ
  pub get_index : ℕ
  pub put_index : ℕ
  pub buf : List ℕ

pub data Answer : Type 0 where
  done : Error → Answer
  blocks : Answer

abbrev pub fresh_semaphore : ℕ → Semaphore
fresh_semaphore value = record { value = value; wait_list = []; magic = Semaphore.semaphore_magic }

-- `NX_IoQueueInit`; a buffer that is NX_NULL is none. NX_SemaphoreInit sets every field.
pub init : Option IoQueue → (buf : Option (List ℕ)) → (length : ℕ) → Option IoQueue × Error
init none buf length = (none, einval)
init (some q) none length = (some q, einval)
init (some q) (some buf) length = if length == 0 then (some q, einval) else (
  some (record {
    full = fresh_semaphore 0;
    empty = fresh_semaphore length;
    mutex = fresh_semaphore 1;
    length = length;
    get_index = 0;
    put_index = 0;
    buf = buf;
  }),
  eok,
)

-- The semaphore behind a pointer that is not null.
abbrev after : Semaphore → Option Semaphore → Semaphore
after s none = s
after s (some s') = s'

abbrev signalled : Semaphore → Semaphore
signalled s = after s (Semaphore.signal (some s)).0

-- From the write into the buffer on: the end of `NX_IoQueuePut` and of `NX_IoQueueTryPut`.
store : IoQueue → ℕ → IoQueue
store q byte = record q {
  buf = set q.buf q.put_index byte;
  put_index = next q.length q.put_index;
  mutex = signalled q.mutex;
  full = signalled q.full;
}

-- The wait for the mutex, and the rest.
lock_and_store : IoQueue → (t byte : ℕ) → IoQueue × Answer
unfolding store
lock_and_store q t byte =
    let (mutex, waited) = Semaphore.wait (some q.mutex) t in
    let q' = record q { mutex = after q.mutex mutex } in
    elim waited [ Semaphore.blocked ↦ (q', blocks) | _ ↦ (store q' byte, done eok) ]

pub try_put : Option IoQueue → (t byte : ℕ) → Option IoQueue × Answer
unfolding lock_and_store
try_put none t byte = (none, done einval)
try_put (some q) t byte =
    let (empty, err) = Semaphore.try_wait (some q.empty) in
    if is_eok err
    then (let (q', answer) = lock_and_store (record q { empty = after q.empty empty }) t byte in
        (some q', answer))
    else (some (record q { empty = after q.empty empty }), done eagain)

pub put : Option IoQueue → (t byte : ℕ) → Option IoQueue × Answer
unfolding lock_and_store
put none t byte = (none, done einval)
put (some q) t byte =
    let (empty, waited) = Semaphore.wait (some q.empty) t in
    let q' = record q { empty = after q.empty empty } in
    elim waited [
      | Semaphore.blocked ↦ (some q', blocks)
      | _ ↦ let (q'', answer) = lock_and_store q' t byte in (some q'', answer)
    ]

-- The read from the buffer; none is a read outside it. The end of `NX_IoQueueGet` and of
-- `NX_IoQueueTryGet`.
fetch : IoQueue → IoQueue × Option ℕ
fetch q = (
  record q {
    get_index = next q.length q.get_index;
    mutex = signalled q.mutex;
    empty = signalled q.empty;
  },
  get_elem? q.buf q.get_index,
)

lock_and_fetch : IoQueue → (t : ℕ) → IoQueue × Answer × Option ℕ
unfolding fetch
lock_and_fetch q t =
    let (mutex, waited) = Semaphore.wait (some q.mutex) t in
    let q' = record q { mutex = after q.mutex mutex } in
    elim waited [
      | Semaphore.blocked ↦ (q', blocks, none)
      | _ ↦ let (q'', byte) = fetch q' in (q'', done eok, byte)
    ]

-- The number is the byte that the call returns, 0 with an error.
pub try_get : Option IoQueue → (t : ℕ) → Option IoQueue × Answer × Option ℕ
unfolding lock_and_fetch
try_get none t = (none, done einval, some 0)
try_get (some q) t =
    let (full, err) = Semaphore.try_wait (some q.full) in
    if is_eok err
    then (let (q', answer, byte) = lock_and_fetch (record q { full = after q.full full }) t in
        (some q', answer, byte))
    else (some (record q { full = after q.full full }), done eagain, some 0)

pub get : Option IoQueue → (t : ℕ) → Option IoQueue × Answer × Option ℕ
unfolding lock_and_fetch
get none t = (none, done einval, some 0)
get (some q) t =
    let (full, waited) = Semaphore.wait (some q.full) t in
    let q' = record q { full = after q.full full } in
    elim waited [
      | Semaphore.blocked ↦ (some q', blocks, none)
      | _ ↦ let (q'', answer, byte) = lock_and_fetch q' t in (some q'', answer, byte)
    ]
