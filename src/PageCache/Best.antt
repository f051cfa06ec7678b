-- ===== src/PageCache/Best.antt =====
-- The large span that `__PageCacheAlloc` of src/mm/page_cache.c takes.
use nxos.Base.{
  ℕ, zero, suc, ◌≤◌, ◌<◌, ◌≡◌, refl, ap, sym, subst, ◌∙◌, inl, inr, true, some, List, [], ◌∷◌, ltb,
  ◌==◌, arith, if◌then◌else◌, get_elem?, length, Bool-cases, ℕ_discrete, ◌++◌,
}
use nxos.PageCache.{Span, best_span, without_span}

pub best_span-get :
    (best : Span) (ss : List Span) → (i : ℕ) × (get_elem? (best ∷ ss) i ≡ some (best_span best ss))
best_span-get best [] = (0, refl)
best_span-get best (s ∷ ss) = elim (Bool-cases (ltb s.page_count best.page_count)) [
  | inl e ↦
      let (i, at) = best_span-get s ss in
      let same : best_span best (s ∷ ss) ≡ best_span s ss = rw e refl in
      (suc i, at ∙ ap some (sym same))
  | inr e ↦ place (best_span-get best ss) (rw e refl)
]
  where
    place :
        ((i : ℕ) × (get_elem? (best ∷ ss) i ≡ some (best_span best ss)))
        → best_span best (s ∷ ss) ≡ best_span best ss
        → (i : ℕ) × (get_elem? (best ∷ s ∷ ss) i ≡ some (best_span best (s ∷ ss)))
    place (zero, at) same = (0, at ∙ ap some (sym same))
    place (suc i, at) same = (suc (suc i), at ∙ ap some (sym same))

-- No span of the list has fewer pages.
pub best_span-least :
    (best : Span) (ss : List Span) (i : ℕ) (s : Span)
    → get_elem? (best ∷ ss) i ≡ some s
    → (best_span best ss).page_count ≤ s.page_count
best_span-least best [] zero s at = ground (arith, at)
best_span-least best [] (suc i) s at = absurd (ground (arith, at))
best_span-least best (a ∷ ss) i s at = elim (Bool-cases (ltb a.page_count best.page_count)) [
  | inl e ↦ rw (e, best_span) (smaller (best_span-least a ss) (ground (arith, e)) i at)
  | inr e ↦ rw (e, best_span) (larger (best_span-least best ss) (ground (arith, e)) i at)
]
  where
    Least : Span → Type 0
    Least x =
        (i : ℕ) (t : Span)
        → get_elem? (x ∷ ss) i ≡ some t
        → (best_span x ss).page_count ≤ t.page_count

    smaller :
        Least a
        → a.page_count < best.page_count
        → (i : ℕ) → get_elem? (best ∷ a ∷ ss) i ≡ some s
        → (best_span a ss).page_count ≤ s.page_count
    smaller least lt zero is =
        let e : best ≡ s = ground (arith, is) in
        omega (arith, lt, least 0 a refl, ap (λ x. x.page_count) e)
    smaller least lt (suc i) is = least i s is

    larger :
        Least best
        → best.page_count ≤ a.page_count
        → (i : ℕ) → get_elem? (best ∷ a ∷ ss) i ≡ some s
        → (best_span best ss).page_count ≤ s.page_count
    larger least le zero is = least 0 s is
    larger least le (suc zero) is =
        let e : a ≡ s = ground (arith, is) in
        omega (arith, le, least 0 best refl, ap (λ x. x.page_count) e)
    larger least le (suc (suc i)) is = least (suc i) s is

pub without_span-get :
    (f : ℕ) (ss : List Span) (i : ℕ) (s : Span)
    → get_elem? (without_span f ss) i ≡ some s
    → (k : ℕ) × (get_elem? ss k ≡ some s)
without_span-get f [] i s at = absurd (ground (arith, at))
without_span-get f (a ∷ ss) i s at = elim (Bool-cases (a.first == f)) [
  | inl e ↦
      (suc i, subst (λ b. get_elem? (if b then ss else a ∷ without_span f ss) i ≡ some s) e at)
  | inr e ↦
      skip (λ j. without_span-get f ss j s) i
        (subst (λ b. get_elem? (if b then ss else a ∷ without_span f ss) i ≡ some s) e at)
]
  where
    skip :
        ((j : ℕ) → get_elem? (without_span f ss) j ≡ some s → (k : ℕ) × (get_elem? ss k ≡ some s))
        → (i : ℕ) → get_elem? (a ∷ without_span f ss) i ≡ some s
        → (k : ℕ) × (get_elem? (a ∷ ss) k ≡ some s)
    skip again zero is = (0, is)
    skip again (suc i) is = let (k, there) = again i is in (suc k, there)

pub length-without_span :
    (ss : List Span) (i : ℕ) (s : Span)
    → get_elem? ss i ≡ some s
    → suc (length (without_span s.first ss)) ≡ length ss
length-without_span [] i s at = absurd (ground (arith, at))
length-without_span (a ∷ ss) zero s at =
    let e : a ≡ s = ground (arith, at) in
    let same : (a.first == s.first) ≡ true = ground (arith, ap (λ x. x.first) e) in rw same refl
length-without_span (a ∷ ss) (suc i) s at = elim (Bool-cases (a.first == s.first)) [
  | inl e ↦ rw e refl
  | inr e ↦ rw e (ap suc (length-without_span ss i s at))
]

-- Taking a span out of a list that has one at its place removes one entry, and leaves the others in order.
pub without_span-split :
    (ss : List Span) (i first : ℕ) (s : Span)
    → get_elem? ss i ≡ some s
    → s.first ≡ first
    → (xs : List Span) × (t : Span) × (ys : List Span) × (ss ≡ xs ++ (t ∷ ys))
      × (without_span first ss ≡ xs ++ ys)
      × (t.first ≡ first)
without_span-split [] i first s at same = absurd (ground (arith, at))
without_span-split (a ∷ ss) zero first s at same =
    let e : a ≡ s = ground (arith, at) in
    let here : a.first ≡ first = ap (λ x. x.first) e ∙ same in
    ([], a, ss, refl, ground (arith, here), here)
without_span-split (a ∷ ss) (suc i) first s at same = elim (ℕ_discrete a.first first) [
  | yes e ↦ ([], a, ss, refl, ground (arith, e), e)
  | no ne ↦
      let (xs, t, ys, e, f, same') = without_span-split ss i first s at same in
      (a ∷ xs, t, ys, ap (λ l. a ∷ l) e, ground (arith, ne, f), same')
]
