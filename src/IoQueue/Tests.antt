-- ===== src/IoQueue/Tests.antt =====
-- A ring for two bytes.
use nxos.Base.{ℕ, ◌<◌, ◌≡◌, refl, ◌⊎◌, inr, some, List, [], ◌∷◌, arith, length, eok, eagain}
use nxos.IoQueue.{IoQueue, done, fresh_semaphore, try_put, try_get}
use nxos.IoQueue.Refine.{Represents, try_put-Represents, try_get-Represents}

-- It holds the byte 5, at index 1.
abbrev ring : IoQueue
ring = record {
  full = fresh_semaphore 1;
  empty = fresh_semaphore 1;
  mutex = fresh_semaphore 1;
  length = 2;
  get_index = 1;
  put_index = 0;
  buf = 4 ∷ 5 ∷ [];
}

abbrev stored : List ℕ
stored = 5 ∷ []

ring-Represents : Represents ring stored
ring-Represents = record {
  cap_pos = omega arith;
  buf_len = refl;
  get_in = omega arith;
  put_in = omega arith;
  put_at = inr (omega arith, refl);
  holds = (refl, tt);
  full_value = refl;
  empty_value = refl;
  mutex_value = refl;
  full_ready = refl;
  empty_ready = refl;
  mutex_ready = refl;
}

try_put-Represents_example :
    ((length stored ≡ ring.length) × (try_put (some ring) 9 6 ≡ (some ring, done eagain)))
    ⊎ ((1 < 2)
        × (q : IoQueue) × (try_put (some ring) 9 6 ≡ (some q, done eok))
        × Represents q (5 ∷ 6 ∷ []))
try_put-Represents_example = try_put-Represents ring (5 ∷ []) 9 6 ring-Represents

try_get-Represents_example :
    ((stored ≡ []) × (try_get (some ring) 9 ≡ (some ring, done eagain, some 0)))
    ⊎ ((byte : ℕ) × (rest : List ℕ) × (stored ≡ byte ∷ rest)
        × (q : IoQueue) × (try_get (some ring) 9 ≡ (some q, done eok, some byte))
        × Represents q rest)
try_get-Represents_example = try_get-Represents ring (5 ∷ []) 9 ring-Represents
