-- ===== src/IoQueue/Ring.antt =====
-- The bytes of a ring buffer of src/io/ioqueue.c between two indices.
use nxos.Base.{
  ℕ, ◌+◌, ◌-◌, ◌<◌, ◌≡◌, some, List, [], ◌∷◌, ◌++◌, arith, leb, if◌then◌else◌, length, next,
  next_lem, get_elem?, set, get_elem?-set_self, get_elem?-set_ne,
}

-- From index `h` on, going round at `cap`, the buffer has the bytes `xs`.
abbrev pub Holds : (buf : List ℕ) (cap h : ℕ) → List ℕ → Type 0
Holds buf cap h [] = Unit {0}
Holds buf cap h (x ∷ xs) = (get_elem? buf h ≡ some x) × Holds buf cap (next cap h) xs

-- The steps from index `h` to index `i`.
abbrev pub distance : (cap h i : ℕ) → ℕ
distance cap h i = if leb h i then i - h else i + cap - h

-- A byte written just behind the bytes of a ring extends them.
pub Holds-set :
    (buf : List ℕ) (cap i byte h : ℕ) (xs : List ℕ)
    → h < cap
    → i < cap
    → length buf ≡ cap
    → distance cap h i ≡ length xs
    → Holds buf cap h xs
    → Holds (set buf i byte) cap h (xs ++ byte ∷ [])
Holds-set buf cap i byte h [] lt lti size d held =
    (ground (arith, get_elem?-set_self buf i byte), tt)
Holds-set buf cap i byte h (x ∷ xs) lt lti size d held = (
  ground (arith, held.0, get_elem?-set_ne buf i h byte),
  Holds-set buf cap i byte (next cap h) xs (ground (arith, next_lem cap h lt)) lti size
      (ground (arith, next_lem cap h lt)) held.1,
)
