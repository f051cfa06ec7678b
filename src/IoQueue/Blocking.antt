-- ===== src/IoQueue/Blocking.antt =====
-- The operations of src/io/ioqueue.c that set a ring up and that block.
use nxos.Base.{ℕ, ◌<◌, ◌≡◌, refl, ◌⊎◌, inl, inr, none, some, List, [], arith, length, eok, is_eok}
use nxos.Semaphore.Laws.{try_wait-wait}
use nxos.IoQueue.{IoQueue, blocks, init, try_put, put, try_get, get, fresh_semaphore}
use nxos.IoQueue.Refine.{Represents}

-- `NX_IoQueueInit` with a buffer of the length it is given, which is not 0, sets up a ring that holds
-- no byte.
pub init-Represents :
    (q : IoQueue) (buf : List ℕ)
    → 0 < length buf
    → (q' : IoQueue) × (init (some q) (some buf) (length buf) ≡ (some q', eok)) × Represents q' []
unfolding init
init-Represents q buf pos = (
  q',
  ground arith,
  record {
    cap_pos = pos;
    buf_len = refl;
    get_in = pos;
    put_in = pos;
    put_at = inr (pos, ground arith);
    holds = tt;
    full_value = refl;
    empty_value = ground arith;
    mutex_value = refl;
    full_ready = refl;
    empty_ready = refl;
    mutex_ready = refl;
  },
)
  where
    q' : IoQueue
    q' = record {
      full = fresh_semaphore 0;
      empty = fresh_semaphore (length buf);
      mutex = fresh_semaphore 1;
      length = length buf;
      get_index = 0;
      put_index = 0;
      buf = buf;
    }

-- `NX_IoQueuePut` with a buffer that is full blocks the thread and leaves the bytes as they are;
-- otherwise it does what `NX_IoQueueTryPut` does.
pub put-try_put :
    (q : IoQueue) (xs : List ℕ) (t byte : ℕ)
    → Represents q xs
    → ((length xs ≡ q.length)
        × (q' : IoQueue) × (put (some q) t byte ≡ (some q', blocks))
        × Represents q' xs)
      ⊎ ((length xs < q.length) × (put (some q) t byte ≡ try_put (some q) t byte))
unfolding put try_put is_eok
put-try_put q xs t byte rep = elim (try_wait-wait q.empty t rep.empty_ready) [
  | inr (zero_value, _, (empty', waited, _, left, ready)) ↦ inl (
    omega (arith, rep.empty_value),
    record q { empty = empty' },
    ground (arith, waited),
    record {
      cap_pos = rep.cap_pos;
      buf_len = rep.buf_len;
      get_in = rep.get_in;
      put_in = rep.put_in;
      put_at = rep.put_at;
      holds = rep.holds;
      full_value = rep.full_value;
      empty_value = omega (arith, rep.empty_value);
      mutex_value = rep.mutex_value;
      full_ready = rep.full_ready;
      empty_ready = ready;
      mutex_ready = rep.mutex_ready;
    },
  )
  | inl (pos, tried, waited) ↦ inr (omega (arith, rep.empty_value), ground (arith, tried, waited))
]

-- `NX_IoQueueGet` with an empty buffer blocks the thread and leaves the buffer empty; otherwise it
-- does what `NX_IoQueueTryGet` does.
pub get-try_get :
    (q : IoQueue) (xs : List ℕ) (t : ℕ)
    → Represents q xs
    → ((length xs ≡ 0)
        × (q' : IoQueue) × (get (some q) t ≡ (some q', blocks, none))
        × Represents q' xs)
      ⊎ ((0 < length xs) × (get (some q) t ≡ try_get (some q) t))
unfolding get try_get is_eok
get-try_get q xs t rep = elim (try_wait-wait q.full t rep.full_ready) [
  | inr (zero_value, _, (full', waited, _, left, ready)) ↦ inl (
    omega (arith, rep.full_value),
    record q { full = full' },
    ground (arith, waited),
    record {
      cap_pos = rep.cap_pos;
      buf_len = rep.buf_len;
      get_in = rep.get_in;
      put_in = rep.put_in;
      put_at = rep.put_at;
      holds = rep.holds;
      full_value = omega (arith, rep.full_value);
      empty_value = rep.empty_value;
      mutex_value = rep.mutex_value;
      full_ready = ready;
      empty_ready = rep.empty_ready;
      mutex_ready = rep.mutex_ready;
    },
  )
  | inl (pos, tried, waited) ↦ inr (omega (arith, rep.full_value), ground (arith, tried, waited))
]
