-- ===== src/IoQueue/Refine.antt =====
-- The ring of src/io/ioqueue.c as a first-in first-out list of bytes of bounded length.
use nxos.Base.{
  ℕ, ◌+◌, ◌-◌, ◌<◌, ◌≡◌, refl, ◌⊎◌, inl, inr, some, List, [], ◌∷◌, ◌++◌, arith, length,
  length-append, length-set, next, next_lem, get_elem?, set, eok, eagain, is_eok,
}
use nxos.Semaphore
use nxos.Semaphore.{Semaphore}
use nxos.Semaphore.Laws.{IsReady, signal_lem, take_lem, try_wait-wait}
use nxos.IoQueue.{IoQueue, done, store, lock_and_store, try_put, fetch, lock_and_fetch, try_get}
use nxos.IoQueue.Ring.{Holds, distance, Holds-set}

-- No call is under way, and the buffer holds the bytes `xs`, the oldest first.
pub record Represents (q : IoQueue) (xs : List ℕ) : Type 0 where
  pub cap_pos : 0 < q.length
  pub buf_len : length q.buf ≡ q.length
  pub get_in : q.get_index < q.length
  pub put_in : q.put_index < q.length
  pub put_at :
      ((length xs ≡ q.length) × (q.put_index ≡ q.get_index))
      ⊎ ((length xs < q.length) × (distance q.length q.get_index q.put_index ≡ length xs))
  pub holds : Holds q.buf q.length q.get_index xs
  pub full_value : q.full.value ≡ length xs
  pub empty_value : q.empty.value + length xs ≡ q.length
  pub mutex_value : q.mutex.value ≡ 1
  pub full_ready : IsReady q.full
  pub empty_ready : IsReady q.empty
  pub mutex_ready : IsReady q.mutex

-- The mutex is taken and given back.
lock_and_store_lem :
    (q : IoQueue) (t byte : ℕ)
    → q.mutex.value ≡ 1
    → IsReady q.mutex
    → IsReady q.full
    → (mutex full : Semaphore) × (lock_and_store q t byte ≡ (
      record q {
        mutex = mutex;
        full = full;
        buf = set q.buf q.put_index byte;
        put_index = next q.length q.put_index;
      },
      done eok,
    ))
      × (mutex.value ≡ 1)
      × IsReady mutex
      × (full.value ≡ q.full.value + 1)
      × IsReady full
unfolding lock_and_store store
lock_and_store_lem q t byte one ready full_ready = (
  given.0,
  full.0,
  ground (arith, took, given.2, full.2),
  omega (arith, given.3),
  given.4,
  full.3,
  full.4,
)
  where
    took :
        Semaphore.wait (some q.mutex) t
        ≡ (some (record q.mutex { value = q.mutex.value - 1 }), Semaphore.taken)
    took = (take_lem q.mutex t ready (omega arith)).1

    taken_mutex : Semaphore
    taken_mutex = record q.mutex { value = q.mutex.value - 1 }

    given :
        (s' : Semaphore) × (woken : List ℕ) × (Semaphore.signal (some taken_mutex)
          ≡ (some s', eok, woken))
        × (s'.value ≡ taken_mutex.value + 1)
        × IsReady s'
    given = signal_lem taken_mutex ready

    full :
        (s' : Semaphore) × (woken : List ℕ) × (Semaphore.signal (some q.full)
          ≡ (some s', eok, woken))
        × (s'.value ≡ q.full.value + 1)
        × IsReady s'
    full = signal_lem q.full full_ready

-- `NX_IoQueueTryPut` with a buffer that is full answers NX_EAGAIN and changes nothing; otherwise it
-- succeeds and appends the byte.
pub try_put-Represents :
    (q : IoQueue) (xs : List ℕ) (t byte : ℕ)
    → Represents q xs
    → ((length xs ≡ q.length) × (try_put (some q) t byte ≡ (some q, done eagain)))
      ⊎ ((length xs < q.length)
          × (q' : IoQueue) × (try_put (some q) t byte ≡ (some q', done eok))
          × Represents q' (xs ++ byte ∷ []))
unfolding try_put is_eok
try_put-Represents q xs t byte rep = elim (try_wait-wait q.empty t rep.empty_ready) [
  | inr (zero_value, tried, _) ↦ inl (omega (arith, rep.empty_value), rw tried refl)
  | inl (pos, tried, _) ↦ inr (
    omega (arith, rep.empty_value),
    q',
    ground (arith, tried, run.2),
    after_put (omega (arith, rep.empty_value)),
  )
]
  where
    empty' : Semaphore
    empty' = record q.empty { value = q.empty.value - 1 }

    q0 : IoQueue
    q0 = record q { empty = empty' }

    run :
        (mutex full : Semaphore) × (lock_and_store q0 t byte ≡ (
          record q0 {
            mutex = mutex;
            full = full;
            buf = set q.buf q.put_index byte;
            put_index = next q.length q.put_index;
          },
          done eok,
        ))
        × (mutex.value ≡ 1)
        × IsReady mutex
        × (full.value ≡ q.full.value + 1)
        × IsReady full
    run = lock_and_store_lem q0 t byte rep.mutex_value rep.mutex_ready rep.full_ready

    q' : IoQueue
    q' = record q0 {
      mutex = run.0;
      full = run.1;
      buf = set q.buf q.put_index byte;
      put_index = next q.length q.put_index;
    }

    after_put : length xs < q.length → Represents q' (xs ++ byte ∷ [])
    after_put lt = record {
      cap_pos = rep.cap_pos;
      buf_len = ground (arith, length-set q.buf q.put_index byte, rep.buf_len);
      get_in = rep.get_in;
      put_in = ground (arith, next_lem q.length q.put_index rep.put_in);
      put_at = ground (
        arith,
        next_lem q.length q.put_index rep.put_in,
        length-append xs (byte ∷ []),
        rep.put_at,
      );
      holds =
          Holds-set q.buf q.length q.put_index byte q.get_index xs rep.get_in rep.put_in rep.buf_len
            (ground (arith, rep.put_at)) rep.holds;
      full_value = ground (arith, run.5, rep.full_value, length-append xs (byte ∷ []));
      empty_value = ground (arith, rep.empty_value, length-append xs (byte ∷ []));
      mutex_value = run.3;
      full_ready = run.6;
      empty_ready = rep.empty_ready;
      mutex_ready = run.4;
    }

-- The mutex is taken and given back, and the byte at the index for reading is returned.
lock_and_fetch_lem :
    (q : IoQueue) (t : ℕ)
    → q.mutex.value ≡ 1
    → IsReady q.mutex
    → IsReady q.empty
    → (mutex empty : Semaphore) × (lock_and_fetch q t ≡ (
      record q { mutex = mutex; empty = empty; get_index = next q.length q.get_index },
      done eok,
      get_elem? q.buf q.get_index,
    ))
      × (mutex.value ≡ 1)
      × IsReady mutex
      × (empty.value ≡ q.empty.value + 1)
      × IsReady empty
unfolding lock_and_fetch fetch
lock_and_fetch_lem q t one ready empty_ready = (
  given.0,
  empty.0,
  ground (arith, took, given.2, empty.2),
  omega (arith, given.3),
  given.4,
  empty.3,
  empty.4,
)
  where
    took :
        Semaphore.wait (some q.mutex) t
        ≡ (some (record q.mutex { value = q.mutex.value - 1 }), Semaphore.taken)
    took = (take_lem q.mutex t ready (omega arith)).1

    taken_mutex : Semaphore
    taken_mutex = record q.mutex { value = q.mutex.value - 1 }

    given :
        (s' : Semaphore) × (woken : List ℕ) × (Semaphore.signal (some taken_mutex)
          ≡ (some s', eok, woken))
        × (s'.value ≡ taken_mutex.value + 1)
        × IsReady s'
    given = signal_lem taken_mutex ready

    empty :
        (s' : Semaphore) × (woken : List ℕ) × (Semaphore.signal (some q.empty)
          ≡ (some s', eok, woken))
        × (s'.value ≡ q.empty.value + 1)
        × IsReady s'
    empty = signal_lem q.empty empty_ready

-- `NX_IoQueueTryGet` with an empty buffer answers NX_EAGAIN and changes nothing; otherwise it
-- succeeds, returns the oldest byte and removes it.
pub try_get-Represents :
    (q : IoQueue) (xs : List ℕ) (t : ℕ)
    → Represents q xs
    → ((xs ≡ []) × (try_get (some q) t ≡ (some q, done eagain, some 0)))
      ⊎ ((byte : ℕ) × (rest : List ℕ) × (xs ≡ byte ∷ rest)
          × (q' : IoQueue) × (try_get (some q) t ≡ (some q', done eok, some byte))
          × Represents q' rest)
unfolding try_get is_eok
try_get-Represents q [] t rep = elim (try_wait-wait q.full t rep.full_ready) [
  | inr (zero_value, tried, _) ↦ inl (refl, rw tried refl)
  | inl (pos, tried, _) ↦ absurd (omega (arith, rep.full_value))
]
try_get-Represents q (byte ∷ rest) t rep =
    inr (byte, rest, refl, q', ground (arith, tried, run.2, rep.holds), after_get)
  where
    full' : Semaphore
    full' = record q.full { value = q.full.value - 1 }

    tried : Semaphore.try_wait (some q.full) ≡ (some full', eok)
    tried = (take_lem q.full t rep.full_ready (omega (arith, rep.full_value))).0

    q0 : IoQueue
    q0 = record q { full = full' }

    run :
        (mutex empty : Semaphore) × (lock_and_fetch q0 t ≡ (
          record q0 { mutex = mutex; empty = empty; get_index = next q.length q.get_index },
          done eok,
          get_elem? q.buf q.get_index,
        ))
        × (mutex.value ≡ 1)
        × IsReady mutex
        × (empty.value ≡ q.empty.value + 1)
        × IsReady empty
    run = lock_and_fetch_lem q0 t rep.mutex_value rep.mutex_ready rep.empty_ready

    q' : IoQueue
    q' = record q0 { mutex = run.0; empty = run.1; get_index = next q.length q.get_index }

    after_get : Represents q' rest
    after_get = record {
      cap_pos = rep.cap_pos;
      buf_len = rep.buf_len;
      get_in = ground (arith, next_lem q.length q.get_index rep.get_in);
      put_in = rep.put_in;
      put_at = ground (arith, next_lem q.length q.get_index rep.get_in, rep.put_at);
      holds = rep.holds.1;
      full_value = ground (arith, rep.full_value);
      empty_value = ground (arith, run.5, rep.empty_value);
      mutex_value = run.3;
      full_ready = rep.full_ready;
      empty_ready = run.6;
      mutex_ready = run.4;
    }
