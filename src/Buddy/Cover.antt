-- ===== src/Buddy/Cover.antt =====
-- Blocks of pages of src/mm/buddy.c, and how often the free lists cover a page.
use nxos.Base.{
  ℕ, zero, suc, ◌+◌, ◌-◌, ◌*◌, ◌/◌, ◌%◌, ◌≤◌, ◌<◌, ◌≡◌, refl, ap, subst, ◌⊎◌, inl, inr, ◌&&◌, some,
  List, [], ◌∷◌, ◌++◌, ltb, leb, ◌==◌, arith, if◌then◌else◌, get_elem?, set, length, ℕ_discrete,
  dec_lt, Bool-cases,
}
use nxos.Buddy.{pow2, Order, without, buddy_of, bit_and_pfn}
use native.Mathlib.Nat.{mul-le-mul_left, div-add-mod}

pub pow2_pos : (k : ℕ) → 0 < pow2 k
pow2_pos zero = omega arith
pow2_pos (suc k) = omega (arith, pow2_pos k)

pub pow2_mono : (k n : ℕ) → pow2 k ≤ pow2 (k + n)
pow2_mono k zero = ground arith
pow2_mono k (suc n) =
    subst (λ x. pow2 k ≤ pow2 x) {x = suc (k + n)} (omega arith) (omega (arith, pow2_mono k n))

pub pow2_lt : (k n : ℕ) → pow2 k < pow2 n → k < n
pow2_lt k n h = elim (dec_lt k n) [
  | yes lt ↦ lt
  | no ge ↦
      let e : n + (k - n) ≡ k = omega arith in
      absurd (omega (arith, subst (λ x. pow2 n ≤ pow2 x) e (pow2_mono n (k - n))))
]

-- Whether the block of order `k` at `q` holds page `p`.
abbrev pub covers : (q k p : ℕ) → ℕ
covers q k p = if leb q p && ltb p (q + pow2 k) then 1 else 0

abbrev pub cover_list : (k : ℕ) → List ℕ → (p : ℕ) → ℕ
cover_list k [] p = 0
cover_list k (q ∷ qs) p = covers q k p + cover_list k qs p

-- How often the free lists from order `k` on hold page `p`.
abbrev pub cover_from : (k : ℕ) → List Order → (p : ℕ) → ℕ
cover_from k [] p = 0
cover_from k (o ∷ os) p = cover_list k o.pages p + cover_from (suc k) os p

abbrev pub occ : ℕ → List ℕ → ℕ
occ q [] = 0
occ q (r ∷ rs) = (if r == q then 1 else 0) + occ q rs

pub covers_halves : (q k p : ℕ) → covers q (suc k) p ≡ covers q k p + covers (q + pow2 k) k p
covers_halves q k p = ground (arith, pow2_pos k)

pub covers_self : (q k : ℕ) → covers q k q ≡ 1
covers_self q k = ground (arith, pow2_pos k)

pub buddy_of-cases : (pfn k : ℕ) → (buddy_of pfn k ≡ pfn + pow2 k) ⊎ (pfn ≡ buddy_of pfn k + pow2 k)
buddy_of-cases pfn k = elim (Bool-cases (pfn / pow2 k % 2 == 0)) [
  | inl e ↦ inl (rw e refl)
  | inr e ↦ inr (rw e (above (pfn / pow2 k) refl (ground (arith, e))))
]
  where
    above : (q : ℕ) → pfn / pow2 k ≡ q → 0 < q → pfn ≡ pfn - pow2 k + pow2 k
    above q e pos = omega (
      arith,
      div-add-mod pfn (pow2 k),
      ap (λ x. pow2 k * x) e,
      mul-le-mul_left {m = 1} {n = q} (pow2 k) pos,
    )

-- A block and its buddy are the two halves of a block.
pub covers_buddies :
    (pfn k p : ℕ)
    → covers (bit_and_pfn (buddy_of pfn k) pfn) (suc k) p
      ≡ covers pfn k p + covers (buddy_of pfn k) k p
covers_buddies pfn k p = elim (buddy_of-cases pfn k) [
  | inl e ↦ ground (arith, e, pow2_pos k)
  | inr e ↦ ground (arith, e, pow2_pos k)
]

pub cover_list-append :
    (k : ℕ) (qs : List ℕ) (q p : ℕ)
    → cover_list k (qs ++ q ∷ []) p ≡ covers q k p + cover_list k qs p
cover_list-append k [] q p = refl
cover_list-append k (r ∷ rs) q p = omega (arith, cover_list-append k rs q p)

pub cover_list-without :
    (k : ℕ) (qs : List ℕ) (q p : ℕ)
    → 0 < occ q qs
    → covers q k p + cover_list k (without q qs) p ≡ cover_list k qs p
cover_list-without k [] q p h = absurd (omega arith)
cover_list-without k (r ∷ rs) q p h = elim (ℕ_discrete r q) [
  | yes e ↦ ground (arith, e)
  | no ne ↦ ground (arith, ne, cover_list-without k rs q p (ground (arith, h, ne)))
]

pub occ-append :
    (b : ℕ) (qs : List ℕ) (q : ℕ) → occ b (qs ++ q ∷ []) ≡ (if q == b then 1 else 0) + occ b qs
occ-append b [] q = refl
occ-append b (r ∷ rs) q = omega (arith, occ-append b rs q)

pub occ-without :
    (b : ℕ) (qs : List ℕ) (q : ℕ)
    → 0 < occ q qs
    → (if q == b then 1 else 0) + occ b (without q qs) ≡ occ b qs
occ-without b [] q h = absurd (omega arith)
occ-without b (r ∷ rs) q h = elim (ℕ_discrete r q) [
  | yes e ↦ ground (arith, e)
  | no ne ↦ ground (arith, ne, occ-without b rs q (ground (arith, h, ne)))
]

pub length-without : (qs : List ℕ) (q : ℕ) → 0 < occ q qs → suc (length (without q qs)) ≡ length qs
length-without [] q h = absurd (omega arith)
length-without (r ∷ rs) q h = elim (ℕ_discrete r q) [
  | yes e ↦ ground (arith, e)
  | no ne ↦ ground (arith, ne, length-without rs q (ground (arith, h, ne)))
]

pub occ-cover : (k : ℕ) (qs : List ℕ) (q : ℕ) → occ q qs ≤ cover_list k qs q
occ-cover k [] q = omega arith
occ-cover k (r ∷ rs) q = elim (ℕ_discrete r q) [
  | yes e ↦ ground (arith, e, occ-cover k rs q, covers_self q k)
  | no ne ↦ ground (arith, ne, occ-cover k rs q)
]

pub cover_from-set :
    (k : ℕ) (os : List Order) (i : ℕ) (o o' : Order) (p : ℕ)
    → get_elem? os i ≡ some o
    → cover_from k (set os i o') p + cover_list (k + i) o.pages p
      ≡ cover_from k os p + cover_list (k + i) o'.pages p
cover_from-set k [] i o o' p at = absurd (ground arith)
cover_from-set k (a ∷ os) zero o o' p at =
    let same : a ≡ o = ground (arith, at) in
    let k0 : k + 0 ≡ k = omega arith in
    omega (
      arith,
      ap (λ x. cover_list k x.pages p) same,
      ap (λ x. cover_list x o.pages p) k0,
      ap (λ x. cover_list x o'.pages p) k0,
    )
cover_from-set k (a ∷ os) (suc i) o o' p at =
    let e : suc k + i ≡ k + suc i = omega arith in
    omega (
      arith,
      cover_from-set (suc k) os i o o' p at,
      ap (λ x. cover_list x o.pages p) e,
      ap (λ x. cover_list x o'.pages p) e,
    )

pub cover_from_le :
    (k : ℕ) (os : List Order) (i : ℕ) (o : Order) (p : ℕ)
    → get_elem? os i ≡ some o
    → cover_list (k + i) o.pages p ≤ cover_from k os p
cover_from_le k [] i o p at = absurd (ground arith)
cover_from_le k (a ∷ os) zero o p at =
    let same : a ≡ o = ground (arith, at) in
    let k0 : k + 0 ≡ k = omega arith in
    omega (arith, ap (λ x. cover_list k x.pages p) same, ap (λ x. cover_list x o.pages p) k0)
cover_from_le k (a ∷ os) (suc i) o p at =
    let e : suc k + i ≡ k + suc i = omega arith in
    omega (arith, cover_from_le (suc k) os i o p at, ap (λ x. cover_list x o.pages p) e)
