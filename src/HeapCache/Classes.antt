-- ===== src/HeapCache/Classes.antt =====
-- The size classes of src/mm/heap_cache.c.
use nxos.Base.{
  ℕ, zero, suc, ◌+◌, ◌-◌, ◌/◌, ◌≤◌, ◌<◌, ◌≡◌, refl, ap, subst, ◌∙◌, Bool, true, false, ◌&&◌, some,
  List, [], ◌∷◌, leb, arith, get_elem?, length, get_elem?-lt, get_elem?-total, dec_lt,
}
use nxos.HeapCache.{class_sizes, search, size_to_cache, small_object_max, size_class_nr}

-- Each size is at most an eighth and 16 bytes above the one before, and not below it.
abbrev in_steps : List ℕ → Bool
in_steps [] = true
in_steps (v ∷ []) = true
in_steps (v ∷ w ∷ ws) = (leb v w && leb w (v + v / 8 + 16)) && in_steps (w ∷ ws)

step-next :
    (vs : List ℕ) (j v w : ℕ)
    → in_steps vs ≡ true
    → get_elem? vs j ≡ some v
    → get_elem? vs (suc j) ≡ some w
    → (v ≤ w) × (w ≤ v + v / 8 + 16)
step-next [] j v w ok a b = absurd (ground (arith, a))
step-next (x ∷ []) j v w ok a b = absurd (ground (arith, b))
step-next (x ∷ y ∷ vs) zero v w ok a b =
    let e : x ≡ v = ground (arith, a) in
    let f : y ≡ w = ground (arith, b) in
    let (first, rest) = both (leb x y && leb y (x + x / 8 + 16)) (in_steps (y ∷ vs)) ok in
    let (low, high) = both (leb x y) (leb y (x + x / 8 + 16)) first in
    subst (λ t. (t ≤ w) × (w ≤ t + t / 8 + 16)) e
      (subst (λ t. (x ≤ t) × (t ≤ x + x / 8 + 16)) f (le x y low, le y (x + x / 8 + 16) high))
  where
    both : (p q : Bool) → p && q ≡ true → (p ≡ true) × (q ≡ true)
    both true true h = (refl, refl)
    both true false h = absurd (ground (arith, h))
    both false q h = absurd (ground (arith, h))

    le : (m n : ℕ) → leb m n ≡ true → m ≤ n
    le m n h = ground (arith, h)
step-next (x ∷ y ∷ vs) (suc j) v w ok a b =
    step-next (y ∷ vs) j v w (rest (leb x y && leb y (x + x / 8 + 16)) ok) a b
  where
    rest : (p : Bool) → p && in_steps (y ∷ vs) ≡ true → in_steps (y ∷ vs) ≡ true
    rest true h = h
    rest false h = absurd (ground (arith, h))

ascending :
    (vs : List ℕ) (i n v w : ℕ)
    → in_steps vs ≡ true
    → get_elem? vs i ≡ some v
    → get_elem? vs (n + i) ≡ some w
    → v ≤ w
ascending vs i zero v w ok a b =
    let e : v ≡ w =
      ground (arith, a, ap (λ x. get_elem? vs x) {x = 0 + i} {y = i} (omega arith), b) in
    omega (arith, e)
ascending vs i (suc n) v w ok a b =
    let at : get_elem? vs (suc (n + i)) ≡ some w =
      subst (λ x. get_elem? vs x ≡ some w) {x = suc n + i} (omega arith) b in
    let (u, was) = get_elem?-total vs (n + i) (omega (arith, get_elem?-lt vs (suc (n + i)) at)) in
    omega (arith, ascending vs i n v u ok a was, (step-next vs (n + i) u w ok was at).0)

-- What `search` finds.
record IsFirst (vs : List ℕ) (size i v : ℕ) : Type 0 where
  at : get_elem? vs i ≡ some v
  enough : size ≤ v
  before : (j w : ℕ) → j < i → get_elem? vs j ≡ some w → w < size

search-IsFirst :
    (vs : List ℕ) (size index k w : ℕ)
    → get_elem? vs k ≡ some w
    → size ≤ w
    → (i : ℕ) × (v : ℕ) × (search vs size index ≡ some (index + i)) × IsFirst vs size i v
search-IsFirst [] size index k w at le = absurd (ground (arith, at))
search-IsFirst (x ∷ vs) size index k w at le = elim (dec_lt x size) [
  | no ge ↦
      let b : leb size x ≡ true = ground (arith, ge) in
      (
        0,
        x,
        rw b (ap some {x = index} (omega arith)),
        record {
          at = refl;
          enough = omega (arith, ge);
          before = λ j y lt is. absurd (omega (arith, lt));
        },
      )
  | yes lt ↦
      let b : leb size x ≡ false = ground (arith, lt) in
      let (l, there) = later k at lt in
      let (i, v, found, first) = search-IsFirst vs size (suc index) l w there le in
      (
        suc i,
        v,
        rw b (found ∙ ap some (omega arith)),
        record { at = first.at; enough = first.enough; before = skip i lt first.before },
      )
]
  where
    later : (k : ℕ) → get_elem? (x ∷ vs) k ≡ some w → x < size → (l : ℕ) × (get_elem? vs l ≡ some w)
    later zero is lt = absurd (ground (arith, is, lt, le))
    later (suc k) is lt = (k, is)

    skip :
        (i : ℕ)
        → x < size
        → ((j y : ℕ) → j < i → get_elem? vs j ≡ some y → y < size)
        → (j y : ℕ) → j < suc i
        → get_elem? (x ∷ vs) j ≡ some y
        → y < size
    skip i lt before zero y less is = ground (arith, is, lt)
    skip i lt before (suc j) y less is = before j y (omega (arith, less)) is

sizes_in_steps : in_steps class_sizes ≡ true
unfolding class_sizes
sizes_in_steps = refl

sizes_last : get_elem? class_sizes 95 ≡ some small_object_max
unfolding class_sizes
sizes_last = refl

sizes_first : get_elem? class_sizes 0 ≡ some 16
unfolding class_sizes
sizes_first = refl

-- The table has as many sizes as the array has entries.
pub sizes_nr : length class_sizes ≡ size_class_nr
unfolding class_sizes
sizes_nr = refl

-- A size of at most 256 KB: `size_to_cache` finds a class of the table that is large enough, no smaller class
-- is, and the class is at most an eighth of the size and 16 bytes larger.
pub size_to_cache-least :
    (size : ℕ)
    → size ≤ small_object_max
    → (i : ℕ) × (v : ℕ) × (size_to_cache size ≡ some i)
      × (get_elem? class_sizes i ≡ some v)
      × (size ≤ v)
      × (v ≤ size + size / 8 + 16)
      × ((j w : ℕ) → get_elem? class_sizes j ≡ some w → size ≤ w → v ≤ w)
unfolding size_to_cache
size_to_cache-least size le =
    let (i, v, found, first) =
      search-IsFirst class_sizes size 0 95 small_object_max sizes_last le in
    (
      i,
      v,
      found ∙ ap some {x = 0 + i} (omega arith),
      first.at,
      first.enough,
      waste i v first,
      λ j w at enough. elim (dec_lt j i) [
        | yes lt ↦ absurd (omega (arith, first.before j w lt at, enough))
        | no ge ↦ ascending class_sizes i (j - i) v w sizes_in_steps first.at (
            subst (λ x. get_elem? class_sizes x ≡ some w) {x = j} {y = j - i + i}
              (omega (arith, ge)) at)
      ],
    )
  where
    waste : (i v : ℕ) → IsFirst class_sizes size i v → v ≤ size + size / 8 + 16
    waste zero v first = let e : 16 ≡ v = ground (arith, sizes_first, first.at) in omega (arith, e)
    waste (suc i) v first =
        let (u, was) =
          get_elem?-total class_sizes i
            (omega (arith, get_elem?-lt class_sizes (suc i) first.at)) in
        omega (
          arith,
          first.before i u (omega arith) was,
          (step-next class_sizes i u v sizes_in_steps was first.at).1,
        )
