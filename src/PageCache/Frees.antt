-- ===== src/PageCache/Frees.antt =====
-- `NX_PageCacheFree` of src/mm/page_cache.c.
use nxos.Base.{
  ℕ, zero, suc, ◌+◌, ◌-◌, ◌*◌, ◌≤◌, ◌<◌, ◌≡◌, ◌≢◌, refl, subst, ◌∙◌, true, false, Option, some,
  List, ◌∷◌, leb, ◌==◌, arith, if◌then◌else◌, get_elem?, set, get_elem?-total, get_elem?-lt, dec_lt,
  page_size, Error, eok,
}
use nxos.PageCache.{
  small_span_max, large_threshold, PageOps, Mark, Span, FreeList, PageCache, page_idx, drop_span,
  kept, give_small, page_cache_free,
}
use nxos.PageCache.Marks.{
  IsSpan, Written, clear_loop-Written, page_to_span-IsSpan, span_to_count-IsSpan,
}
use nxos.PageCache.Spans.{HoldsSpans, threshold_of, IsValid, set_small-IsValid}

-- A span that a client holds: marked, and in no free list.
pub record IsLent {S : Type 0} (c : PageCache S) (span n : ℕ) : Type 0 where
  pub above : c.base ≤ span
  pub some_pages : 0 < n
  pub marked : IsSpan c.marks (page_idx c.base span) n
  pub not_small :
      (k : ℕ) (l : FreeList) (i : ℕ) (s : Span)
      → get_elem? c.small k ≡ some l
      → get_elem? l.spans i ≡ some s
      → page_idx c.base s.first ≢ page_idx c.base span
  pub not_large :
      (i : ℕ) (s : Span)
      → get_elem? c.large.spans i ≡ some s
      → page_idx c.base s.first ≢ page_idx c.base span

-- Marks cleared from one span leave those of every other.
cleared-IsSpan :
    (marks out : List Mark) (idx n idx' m : ℕ)
    → Written marks (idx + 0) (idx + 0 + n) (λ p. record { count = 0; idx = 0 }) out
    → IsSpan marks idx n
    → idx' ≢ idx
    → IsSpan marks idx' m
    → IsSpan out idx' m
cleared-IsSpan marks out idx n idx' m w is ne is' j lt =
    w.outside (idx' + j) (λ below. elim (dec_lt (idx' + j) (idx + 0)) [
      | yes h ↦ h
      | no ge ↦
          let p : idx + (idx' + j - idx) ≡ idx' + j = omega (arith, ge) in
          let a : get_elem? marks (idx' + j) ≡ some (record { count = n; idx = idx' + j - idx }) =
            subst (λ x. get_elem? marks x ≡ some (record { count = n; idx = idx' + j - idx })) p
              (is (idx' + j - idx) (omega (arith, below, ge))) in
          let b = is' j lt in absurd (ne (same (idx' + j - idx) (omega (arith, ge)) a b))
    ])
    ∙ is' j lt
  where
    same :
        (x : ℕ)
        → idx + x ≡ idx' + j
        → get_elem? marks (idx' + j) ≡ some (record { count = n; idx = x })
        → get_elem? marks (idx' + j) ≡ some (record { count = m; idx = j })
        → idx' ≡ idx
    same x e a b = let f : x ≡ j = ground (arith, a, b) in omega (arith, e, f)

HoldsSpans-marks :
    (marks out : List Mark) (base t : ℕ) (l : FreeList)
    → ((i : ℕ) (s : Span)
        → get_elem? l.spans i ≡ some s
        → IsSpan marks (page_idx base s.first) s.page_count
        → IsSpan out (page_idx base s.first) s.page_count)
    → HoldsSpans marks base t l
    → HoldsSpans out base t l
HoldsSpans-marks marks out base t l keeps h = record {
  counted = h.counted;
  bounded = h.bounded;
  above = h.above;
  marked = λ i s at. keeps i s at (h.marked i s at);
}

kept-HoldsSpans :
    (marks : List Mark) (base t span n : ℕ) (l : FreeList)
    → HoldsSpans marks base t l
    → l.count < t
    → base ≤ span
    → IsSpan marks (page_idx base span) n
    → HoldsSpans marks base t (kept l span n)
kept-HoldsSpans marks base t span n l h lt above is = record {
  counted = omega (arith, h.counted);
  bounded = omega (arith, lt);
  above = add_above;
  marked = add_marked;
}
  where
    first : Span
    first = record { first = span; page_count = n }

    add_above : (i : ℕ) (s : Span) → get_elem? (first ∷ l.spans) i ≡ some s → base ≤ s.first
    add_above zero s at =
        let e : first ≡ s = ground (arith, at) in subst (λ x. base ≤ x.first) e above
    add_above (suc i) s at = h.above i s at

    add_marked :
        (i : ℕ) (s : Span)
        → get_elem? (first ∷ l.spans) i ≡ some s
        → IsSpan marks (page_idx base s.first) s.page_count
    add_marked zero s at =
        let e : first ≡ s = ground (arith, at) in
        subst (λ x. IsSpan marks (page_idx base x.first) x.page_count) e is
    add_marked (suc i) s at = h.marked i s at

module _ {S : Type 0} (ops : PageOps S) where
  abbrev FreeOutcome : PageCache S → Option (PageCache S × Error) → Type 0
  FreeOutcome c o = (c' : PageCache S) × (o ≡ some (c', eok)) × IsValid c'

  dropped :
      (c : PageCache S) (span n : ℕ)
      → IsValid c
      → IsLent c span n
      → FreeOutcome c (drop_span ops c span n)
  dropped c span n v lent =
      let idx = page_idx c.base span in
      let last : get_elem? c.marks (idx + (n - 1)) ≡ some (record { count = n; idx = n - 1 }) =
        lent.marked (n - 1) (omega (arith, lent.some_pages)) in
      let (out, run, w) =
        clear_loop-Written c.marks idx 0 n
          (omega (arith, get_elem?-lt c.marks (idx + (n - 1)) last, lent.some_pages)) in
      (
        record c { pages = ops.page_free c.pages span; marks = out },
        rw run refl,
        record {
          small_nr = v.small_nr;
          small_holds = λ k l at.
              HoldsSpans-marks c.marks out c.base (threshold_of k) l
                (λ i s is.
                  cleared-IsSpan c.marks out idx n (page_idx c.base s.first) s.page_count w
                    lent.marked (lent.not_small k l i s at is))
                (v.small_holds k l at);
          small_size = v.small_size;
          large_holds =
              HoldsSpans-marks c.marks out c.base large_threshold c.large
                (λ i s is.
                  cleared-IsSpan c.marks out idx n (page_idx c.base s.first) s.page_count w
                    lent.marked (lent.not_large i s is))
                v.large_holds;
          large_size = v.large_size;
        },
      )

  given_small :
      (c : PageCache S) (span n : ℕ) (l : FreeList)
      → IsValid c
      → IsLent c span n
      → get_elem? c.small n ≡ some l
      → FreeOutcome c (give_small ops c span n l)
  given_small c span n l v lent at = elim (dec_lt l.count (threshold_of n)) [
    | no full ↦
        let b : leb (threshold_of n) l.count ≡ true = full_there (threshold_of n) full in
        rw b (dropped c span n v lent)
    | yes room ↦
        let b : leb (threshold_of n) l.count ≡ false = room_there (threshold_of n) room in
        (
          record c { small = set c.small n (kept l span n) },
          rw b refl,
          set_small-IsValid c n l (kept l span n) v at
              (kept-HoldsSpans c.marks c.base (threshold_of n) span n l (v.small_holds n l at) room
                lent.above lent.marked)
              sizes,
        )
  ]
    where
      full_there : (t : ℕ) → (l.count < t → ⊥) → leb t l.count ≡ true
      full_there t h = ground (arith, h)

      room_there : (t : ℕ) → l.count < t → leb t l.count ≡ false
      room_there t h = ground (arith, h)

      sizes : (i : ℕ) (s : Span) → get_elem? (kept l span n).spans i ≡ some s → s.page_count ≡ n
      sizes zero s is = ground (arith, is)
      sizes (suc i) s is = v.small_size n l i s at is

  given_large :
      (c : PageCache S) (span n : ℕ)
      → IsValid c
      → IsLent c span n
      → small_span_max ≤ n
      → FreeOutcome c (
          if leb large_threshold c.large.count
          then drop_span ops c span n
          else some (record c { large = kept c.large span n }, eok))
  given_large c span n v lent le = elim (dec_lt c.large.count large_threshold) [
    | no full ↦
        let b : leb large_threshold c.large.count ≡ true = ground (arith, full) in
        rw b (dropped c span n v lent)
    | yes room ↦
        let b : leb large_threshold c.large.count ≡ false = ground (arith, room) in
        (
          record c { large = kept c.large span n },
          rw b refl,
          record {
            small_nr = v.small_nr;
            small_holds = v.small_holds;
            small_size = v.small_size;
            large_holds =
                kept-HoldsSpans c.marks c.base large_threshold span n c.large v.large_holds room
                  lent.above lent.marked;
            large_size = sizes;
          },
        )
  ]
    where
      sizes :
          (i : ℕ) (s : Span)
          → get_elem? (kept c.large span n).spans i ≡ some s
          → small_span_max ≤ s.page_count
      sizes zero s is = let e : n ≡ s.page_count = ground (arith, is) in omega (arith, le, e)
      sizes (suc i) s is = v.large_size i s is

  -- A valid cache and any page of a span that a client holds: `page_cache_free` answers eok and leaves the
  -- cache valid, with no free list above its threshold.
  pub page_cache_free-IsValid :
      (c : PageCache S) (span n j : ℕ)
      → IsValid c
      → IsLent c span n
      → j < n
      → (c' : PageCache S) × (page_cache_free ops c (span + j * page_size) ≡ some (c', eok))
        × IsValid c'
  unfolding page_cache_free
  page_cache_free-IsValid c span n j v lent lt =
      let found = page_to_span-IsSpan c.marks c.base span n j lent.above lent.marked lt in
      let count =
        span_to_count-IsSpan c.marks c.base span n lent.above lent.marked lent.some_pages in
      let b0 : (n == 0) ≡ false = ground (arith, lent.some_pages) in
      rw found (
        rw count (
          rw b0 (elim (dec_lt n small_span_max) [
            | yes small ↦
                let (l, at) = get_elem?-total c.small n (omega (arith, small, v.small_nr)) in
                let b1 : leb small_span_max n ≡ false = ground (arith, small) in
                rw b1 (rw at (given_small c span n l v lent at))
            | no large ↦
                let b1 : leb small_span_max n ≡ true = ground (arith, large) in
                rw b1 (given_large c span n v lent (omega (arith, large)))
          ])))
