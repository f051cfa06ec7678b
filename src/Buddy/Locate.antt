-- ===== src/Buddy/Locate.antt =====
-- `BuddyLocateFree` of src/mm/buddy.c.
use nxos.Base.{
  ℕ, zero, suc, ◌≤◌, ◌<◌, ◌≡◌, refl, ap, sym, ◌∙◌, ◌⊎◌, inl, inr, Bool, true, false, not, none,
  some, List, [], ◌∷◌, ◌==◌, arith, get_elem?, length, Bool-cases, Option-cases,
}
use nxos.Buddy.{Order, Buddy, is_empty, last, first_bit, drop, locate_any, locate_free}
use nxos.Buddy.Cover.{occ}
use nxos.Buddy.Lists.{IsSound}
use nxos.Buddy.Blocks.{order_at}

last-occ : (qs : List ℕ) → is_empty qs ≡ false → (pfn : ℕ) × (last qs ≡ some pfn) × (0 < occ pfn qs)
last-occ [] h = absurd (ground (arith, h))
last-occ (q ∷ []) h = (q, refl, ground arith)
last-occ (q ∷ r ∷ rs) h =
    let (pfn, is, there) = last-occ (r ∷ rs) refl in (pfn, is, ground (arith, there))

-- The lowest order from `from` on whose bit is set.
record Lowest (os : List Order) (from : ℕ) (o : Order) (i : ℕ) : Type 0 where
  found : get_elem? os i ≡ some o
  from_there : from ≤ i
  set_bit : o.bit ≡ true
  lower : (j : ℕ) (q : Order) → from ≤ j → j < i → get_elem? os j ≡ some q → q.bit ≡ false

first_bit-some :
    (os : List Order) (n : ℕ) (o : Order)
    → first_bit (drop n os) ≡ some o
    → (i : ℕ) × Lowest os n o i
first_bit-some [] zero o h = absurd (ground (arith, h))
first_bit-some [] (suc n) o h = absurd (ground (arith, h))
first_bit-some (a ∷ os) (suc n) o h =
    let (i, low) = first_bit-some os n o h in
    (
      suc i,
      record {
        found = low.found;
        from_there = omega (arith, low.from_there);
        set_bit = low.set_bit;
        lower = shift i low.lower;
      },
    )
  where
    shift :
        (i : ℕ)
        → ((j : ℕ) (q : Order) → n ≤ j → j < i → get_elem? os j ≡ some q → q.bit ≡ false)
        → (j : ℕ) (q : Order) → suc n ≤ j
        → j < suc i
        → get_elem? (a ∷ os) j ≡ some q
        → q.bit ≡ false
    shift i lower zero q le lt is = absurd (omega arith)
    shift i lower (suc j) q le lt is = lower j q (omega (arith, le)) (omega (arith, lt)) is
first_bit-some (a ∷ os) zero o h = elim (Bool-cases a.bit) [
  | inl e ↦
      let same : a ≡ o = ground (arith, h, e) in
      (
        0,
        record {
          found = ap some same;
          from_there = omega arith;
          set_bit = sym (ap (λ x. x.bit) same) ∙ e;
          lower = λ j q le lt is. absurd (omega (arith, lt));
        },
      )
  | inr e ↦
      let (i, low) = first_bit-some os zero o (ground (arith, h, e)) in
      (
        suc i,
        record {
          found = low.found;
          from_there = omega arith;
          set_bit = low.set_bit;
          lower = skip i e low.lower;
        },
      )
]
  where
    skip :
        (i : ℕ)
        → a.bit ≡ false
        → ((j : ℕ) (q : Order) → 0 ≤ j → j < i → get_elem? os j ≡ some q → q.bit ≡ false)
        → (j : ℕ) (q : Order) → 0 ≤ j
        → j < suc i
        → get_elem? (a ∷ os) j ≡ some q
        → q.bit ≡ false
    skip i e lower zero q le lt is = ground (arith, is, e)
    skip i e lower (suc j) q le lt is = lower j q (omega arith) (omega (arith, lt)) is

first_bit-none :
    (os : List Order) (n : ℕ)
    → first_bit (drop n os) ≡ none
    → (j : ℕ) (q : Order) → n ≤ j
    → get_elem? os j ≡ some q
    → q.bit ≡ false
first_bit-none [] n h j q le is = absurd (ground (arith, is))
first_bit-none (a ∷ os) (suc n) h zero q le is = absurd (omega (arith, le))
first_bit-none (a ∷ os) (suc n) h (suc j) q le is = first_bit-none os n h j q (omega (arith, le)) is
first_bit-none (a ∷ os) zero h zero q le is = ground (arith, h, is)
first_bit-none (a ∷ os) zero h (suc j) q le is =
    first_bit-none os zero (rest (Bool-cases a.bit)) j q (omega arith) is
  where
    rest : (a.bit ≡ true) ⊎ (a.bit ≡ false) → first_bit os ≡ none
    rest (inl e) = absurd (ground (arith, h, e))
    rest (inr e) = ground (arith, h, e)

-- A page in the free list of the lowest order from `order` on that has one.
pub record Located (s : Buddy) (order pfn j : ℕ) (o : Order) : Type 0 where
  pub listed : get_elem? s.orders j ≡ some o
  pub there : 0 < occ pfn o.pages
  pub large : order ≤ j
  pub best :
      (i : ℕ) (q : Order)
      → order ≤ i
      → i < j
      → get_elem? s.orders i ≡ some q
      → is_empty q.pages ≡ true

abbrev pub NoneFree : Buddy → ℕ → Type 0
NoneFree s order =
    (j : ℕ) (q : Order) → order ≤ j → get_elem? s.orders j ≡ some q → is_empty q.pages ≡ true

counted-full : (qs : List ℕ) → is_empty qs ≡ false → 0 < length qs
counted-full [] h = absurd (ground (arith, h))
counted-full (q ∷ qs) h = ground arith

counted-empty : (qs : List ℕ) → is_empty qs ≡ true → length qs ≡ 0
counted-empty [] h = refl
counted-empty (q ∷ qs) h = absurd (ground (arith, h))

bit-is_empty : (b e : Bool) → b ≡ not e → b ≡ false → e ≡ true
bit-is_empty b e is h = ground (arith, is, h)

pub locate_free-Located :
    (s : Buddy) (order : ℕ)
    → IsSound s
    → order < 21
    → ((locate_free s order ≡ some none) × NoneFree s order)
      ⊎ ((pfn : ℕ) × (j : ℕ) × (o : Order) × (locate_free s order ≡ some (some pfn))
          × Located s order pfn j o)
unfolding locate_free
locate_free-Located s order sound lt = located (order_at s order sound lt)
  where
    Result : Type 0
    Result =
        ((locate_free s order ≡ some none) × NoneFree s order)
        ⊎ ((pfn : ℕ) × (j : ℕ) × (o : Order) × (locate_free s order ≡ some (some pfn))
            × Located s order pfn j o)

    located : ((o : Order) × (get_elem? s.orders order ≡ some o)) → Result
    located (o, is) = elim (Bool-cases (is_empty o.pages)) [
      | inr e ↦
          let (pfn, l, there) = last-occ o.pages e in
          let full : (o.count == 0) ≡ false =
            ground (arith, counted-full o.pages e, (sound.listed order o is).counted) in
          inr (
            pfn,
            order,
            o,
            rw (is, locate_free) (rw e (rw full (rw (l, locate_any) refl))),
            record {
              listed = is;
              there = there;
              large = omega arith;
              best = λ i q le less. absurd (omega arith);
            },
          )
      | inl e ↦
          let zero_count : (o.count == 0) ≡ true =
            ground (arith, counted-empty o.pages e, (sound.listed order o is).counted) in
          elim (Option-cases (first_bit (drop order s.orders))) [
            | inl h ↦ inl (
              rw (is, locate_free) (rw e (rw zero_count (rw h refl))),
              λ j q le there.
                  bit-is_empty q.bit (is_empty q.pages) (sound.listed j q there).bit_right
                    (first_bit-none s.orders order h j q le there),
            )
            | inr (a, h) ↦
                let (i, low) = first_bit-some s.orders order a h in
                let full : is_empty a.pages ≡ false =
                  ground (arith, (sound.listed i a low.found).bit_right, low.set_bit) in
                let (pfn, l, there) = last-occ a.pages full in
                inr (
                  pfn,
                  i,
                  a,
                  rw (is, locate_free) (rw e (rw zero_count (rw h (rw (l, locate_any) refl)))),
                  record {
                    listed = low.found;
                    there = there;
                    large = low.from_there;
                    best = λ k q le less was.
                        bit-is_empty q.bit (is_empty q.pages) (sound.listed k q was).bit_right
                          (low.lower k q le less was);
                  },
                )
          ]
    ]
