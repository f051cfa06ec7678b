-- ===== src/PageCache/Allocs.antt =====
-- `NX_PageCacheAlloc` of src/mm/page_cache.c.
use nxos.Base.{
  ℕ, suc, ◌+◌, ◌-◌, ◌≤◌, ◌<◌, ◌≡◌, refl, ap, subst, ◌∙◌, ◌⊎◌, inl, inr, true, false, Option, none,
  some, List, [], ◌∷◌, ltb, leb, ◌==◌, arith, get_elem?, set, length, get_elem?-total, dec_lt,
  get_elem?-set_self, get_elem?-set_ne, get_elem?-lt, ◌>>=◌, sym, ◌≢◌, ◌++◌, if◌then◌else◌,
}
use nxos.PageCache.{
  small_span_max, cache_max_pages, PageOps, Mark, Span, FreeList, PageCache, page_idx, best_span,
  without_span, marked_span, take_large, take_small, cache_alloc, page_cache_alloc,
}
use nxos.PageCache.Marks.{IsSpan, mark_loop-Written}
use nxos.PageCache.Spans.{IsValid, Keeps, IsValid-Keeps, set_small-IsValid}
use nxos.PageCache.Best.{best_span-get, without_span-get, without_span-split, length-without_span}

-- Pages from the page allocator lie above the base, have marks, and are in no span.
pub record IsFresh {S : Type 0} (c : PageCache S) (span count : ℕ) : Type 0 where
  pub above : c.base ≤ span
  pub mapped : page_idx c.base span + count ≤ length c.marks
  pub unmarked :
      (p : ℕ) (m : Mark)
      → page_idx c.base span ≤ p
      → p < page_idx c.base span + count
      → get_elem? c.marks p ≡ some m
      → m.count ≡ 0

-- A span of `n` pages for a client: all its pages are marked, and `n` is the count asked for unless the span
-- was a large one.
pub record IsGiven {S : Type 0} (c : PageCache S) (count span n : ℕ) : Type 0 where
  pub valid : IsValid c
  pub above : c.base ≤ span
  pub marked : IsSpan c.marks (page_idx c.base span) n
  pub size : (n ≡ count) ⊎ ((small_span_max ≤ count) × (small_span_max ≤ n))

-- The spans of the free list for a count of pages, if there is one.
unfoldable pub held : {S : Type 0} → PageCache S → (count : ℕ) → Option (List Span)
held c count =
    if leb small_span_max count
    then some c.large.spans
    else (get_elem? c.small count >>= λ l. some l.spans)

-- The span is one of the free list for the count, which keeps the other ones in order; the pages, the marks
-- and the other free lists do not change.
pub record Reused {S : Type 0} (c : PageCache S) (count : ℕ) (c' : PageCache S) (span : ℕ)
    : Type 0 where
  pub before : List Span
  pub entry : Span
  pub behind : List Span
  pub was_held : held c count ≡ some (before ++ (entry ∷ behind))
  pub is_held : held c' count ≡ some (before ++ behind)
  pub is_entry : entry.first ≡ span
  pub same_pages : c'.pages ≡ c.pages
  pub same_marks : c'.marks ≡ c.marks
  pub others :
      (k : ℕ) → k ≢ count → (k < small_span_max) ⊎ (count < small_span_max) → held c' k ≡ held c k

-- The free list for the count is empty, no free list changes, and the span comes from the page allocator.
pub record Fetched {S : Type 0} (ops : PageOps S) (c : PageCache S) (count : ℕ) (c' : PageCache S)
    (span : ℕ) : Type 0 where
  pub none_held : held c count ≡ some []
  pub given : ops.page_alloc c.pages count ≡ (c'.pages, some span)
  pub same_small : c'.small ≡ c.small
  pub same_large : c'.large ≡ c.large

module _ {S : Type 0} (ops : PageOps S) where
  abbrev pub AllocOutcome : PageCache S → (count : ℕ) → Type 0
  AllocOutcome c count =
      ((s : S) × (page_cache_alloc ops c count ≡ some (record c { pages = s }, none))
        × (held c count ≡ some [])
        × (ops.page_alloc c.pages count ≡ (s, none)))
      ⊎ ((c' : PageCache S) × (span : ℕ) × (n : ℕ) × (page_cache_alloc ops c count
            ≡ some (c', some span))
          × IsGiven c' count span n
          × (Reused c count c' span ⊎ Fetched ops c count c' span))

  abbrev Outcome : PageCache S → (count : ℕ) → Option (PageCache S × Option ℕ) → Type 0
  Outcome c count o =
      ((s : S) × (o ≡ some (record c { pages = s }, none))
        × (held c count ≡ some [])
        × (ops.page_alloc c.pages count ≡ (s, none)))
      ⊎ ((c' : PageCache S) × (span : ℕ) × (n : ℕ) × (o ≡ some (c', some span))
          × IsGiven c' count span n
          × (Reused c count c' span ⊎ Fetched ops c count c' span))

  held-small :
      (c : PageCache S) (k : ℕ) {l : FreeList}
      → k < small_span_max
      → get_elem? c.small k ≡ some l
      → held c k ≡ some l.spans
  unfolding held
  held-small c k lt at =
      let b : leb small_span_max k ≡ false = ground (arith, lt) in rw b (rw at refl)

  held-large : (c : PageCache S) (k : ℕ) → small_span_max ≤ k → held c k ≡ some c.large.spans
  unfolding held
  held-large c k le = let b : leb small_span_max k ≡ true = ground (arith, le) in rw b refl

  -- Free lists of small spans that are the same hold the same spans.
  held-same :
      (c c' : PageCache S) (k : ℕ) → k < small_span_max → c'.small ≡ c.small → held c' k ≡ held c k
  unfolding held
  held-same c c' k lt same =
      let b : leb small_span_max k ≡ false = ground (arith, lt) in
      rw b (ap (λ x. get_elem? x k >>= λ l. some l.spans) same)

  held-set :
      (c : PageCache S) (i : ℕ) (l : FreeList) (k : ℕ)
      → i ≢ k
      → held (record c { small = set c.small i l }) k ≡ held c k
  unfolding held
  held-set c i l k ne =
      ap (λ o. if leb small_span_max k then some c.large.spans else (o >>= λ x. some x.spans))
        (get_elem?-set_ne c.small i k l ne)

  fresh_span :
      (c : PageCache S) (count : ℕ) (r : S × Option ℕ)
      → IsValid c
      → held c count ≡ some []
      → ops.page_alloc c.pages count ≡ r
      → ((s : S) (span : ℕ) → r ≡ (s, some span) → IsFresh c span count)
      → Outcome c count (marked_span ops c count r)
  fresh_span c count (s, none) v empty is fresh = inl (s, refl, empty, is)
  fresh_span c count (s, some span) v empty is fresh =
      let f = fresh s span refl in
      let idx = page_idx c.base span in
      let (marks, run, w) = mark_loop-Written c.marks idx 0 count count (omega (arith, f.mapped)) in
      let zero_idx : idx + 0 ≡ idx = omega arith in
      let keeps : Keeps c.marks marks = λ p m at pos.
        w.outside p (λ below. elim (dec_lt p idx) [
          | yes lt ↦ omega (arith, lt, zero_idx)
          | no ge ↦ absurd (
              omega (
                arith,
                f.unmarked p m (omega (arith, ge)) (omega (arith, below, zero_idx)) at,
                pos,
              ))
        ])
        ∙ at in
      inr (
        record c { pages = s; marks = marks },
        span,
        count,
        rw run refl,
        record {
          valid = IsValid-Keeps c s marks keeps v;
          above = f.above;
          marked = λ j lt.
              w.inside (idx + j) (omega (arith, zero_idx)) (omega (arith, lt, zero_idx))
              ∙ ap (λ x. some (record { count = count; idx = x })) {x = idx + j - idx} {y = j}
                  (omega arith);
          size = inl refl;
        },
        inr (record { none_held = empty; given = is; same_small = refl; same_large = refl }),
      )

  small_span :
      (c : PageCache S) (count : ℕ) (spans : List Span) (n : ℕ)
      → IsValid c
      → count < small_span_max
      → get_elem? c.small count ≡ some (record { spans = spans; count = n })
      → ((s : S) (span : ℕ) → ops.page_alloc c.pages count ≡ (s, some span) → IsFresh c span count)
      → Outcome c count (take_small ops c count (record { spans = spans; count = n }))
  small_span c count [] n v small at fresh =
      fresh_span c count (ops.page_alloc c.pages count) v (held-small c count small at) refl fresh
  small_span c count (s ∷ ss) n v small at fresh =
      let next : FreeList = record { spans = ss; count = n - 1 } in
      let h = v.small_holds count (record { spans = s ∷ ss; count = n }) at in
      let size = v.small_size count (record { spans = s ∷ ss; count = n }) in
      inr (
        record c { small = set c.small count (record { spans = ss; count = n - 1 }) },
        s.first,
        count,
        refl,
        record {
          valid =
              set_small-IsValid c count (record { spans = s ∷ ss; count = n })
                (record { spans = ss; count = n - 1 }) v at
                (record {
                  counted = omega (arith, h.counted);
                  bounded = omega (arith, h.bounded);
                  above = λ i t is. h.above (suc i) t is;
                  marked = λ i t is. h.marked (suc i) t is;
                })
                (λ i t is. size (suc i) t at is);
          above = h.above 0 s refl;
          marked =
              subst (λ x. IsSpan c.marks (page_idx c.base s.first) x) (size 0 s at refl)
                (h.marked 0 s refl);
          size = inl refl;
        },
        inl (record {
          before = [];
          entry = s;
          behind = ss;
          was_held = held-small c count small at;
          is_held =
              held-small (record c { small = set c.small count next }) count small
                (get_elem?-set_self c.small count next (get_elem?-lt c.small count at));
          is_entry = refl;
          same_pages = refl;
          same_marks = refl;
          others = λ k ne why. held-set c count next k (λ e. ne (sym e));
        }),
      )

  large_span :
      (c : PageCache S) (count : ℕ) (spans : List Span)
      → IsValid c
      → c.large.spans ≡ spans
      → small_span_max ≤ count
      → ((s : S) (span : ℕ) → ops.page_alloc c.pages count ≡ (s, some span) → IsFresh c span count)
      → Outcome c count (take_large ops c count spans)
  large_span c count [] v same le fresh =
      fresh_span c count (ops.page_alloc c.pages count) v (held-large c count le ∙ ap some same)
        refl fresh
  large_span c count (s ∷ ss) v same le fresh =
      let best = best_span s ss in
      let h = v.large_holds in
      let there : (i : ℕ) (t : Span)
          → get_elem? (s ∷ ss) i ≡ some t
          → get_elem? c.large.spans i ≡ some t =
        λ i t is. ap (λ x. get_elem? x i) same ∙ is in
      let (i, at) = best_span-get s ss in
      let shorter = length-without_span (s ∷ ss) i best at in
      let (xs, t, ys, was, is_now, is_best) =
        without_span-split (s ∷ ss) i best.first best at refl in
      inr (
        record c {
          large = record { spans = without_span best.first (s ∷ ss); count = c.large.count - 1 };
        },
        best.first,
        best.page_count,
        refl,
        record {
          valid = record {
            small_nr = v.small_nr;
            small_holds = v.small_holds;
            small_size = v.small_size;
            large_holds = record {
              counted = omega (arith, h.counted, ap (λ x. length x) same, shorter);
              bounded = omega (arith, h.bounded);
              above = λ j t is.
                  let (k, was) = without_span-get best.first (s ∷ ss) j t is in
                  h.above k t (there k t was);
              marked = λ j t is.
                  let (k, was) = without_span-get best.first (s ∷ ss) j t is in
                  h.marked k t (there k t was);
            };
            large_size = λ j t is.
                let (k, was) = without_span-get best.first (s ∷ ss) j t is in
                v.large_size k t (there k t was);
          };
          above = h.above i best (there i best at);
          marked = h.marked i best (there i best at);
          size = inr (le, v.large_size i best (there i best at));
        },
        inl (record {
          before = xs;
          entry = t;
          behind = ys;
          was_held = held-large c count le ∙ ap some (same ∙ was);
          is_held = held-large (without best) count le ∙ ap some is_now;
          is_entry = is_best;
          same_pages = refl;
          same_marks = refl;
          others = λ k ne why. elim why [
            | inl small ↦ held-same c (without best) k small refl
            | inr short ↦ absurd (omega (arith, short, le))
          ];
        }),
      )
    where
      without : Span → PageCache S
      without best = record c {
        large = record { spans = without_span best.first (s ∷ ss); count = c.large.count - 1 };
      }

  -- A valid cache and an allocator of pages that gives only pages above the base that have marks and are in
  -- no span: `page_cache_alloc` of a count in its range fails, and then changes no list and no mark,
  -- only when the free list for the count is empty and the page allocator gives no pages; or it returns a
  -- span, every page of which is marked with its place, and leaves the cache valid. The span has left the
  -- free list for the count, and nothing else of the cache has changed but a count; or that free list was
  -- empty and the span comes from the page allocator. The span has as many pages as asked for, or both it
  -- and the count are large.
  pub page_cache_alloc-AllocOutcome :
      (c : PageCache S) (count : ℕ)
      → IsValid c
      → 0 < count
      → count ≤ cache_max_pages
      → ((s : S) (span : ℕ) → ops.page_alloc c.pages count ≡ (s, some span) → IsFresh c span count)
      → AllocOutcome c count
  unfolding page_cache_alloc cache_alloc
  page_cache_alloc-AllocOutcome c count v pos le fresh =
      let b0 : (count == 0) ≡ false = ground (arith, pos) in
      let b1 : ltb cache_max_pages count ≡ false = ground (arith, le) in
      elim (dec_lt count small_span_max) [
        | yes small ↦
            let (l, at) = get_elem?-total c.small count (omega (arith, small, v.small_nr)) in
            let b2 : leb small_span_max count ≡ false = ground (arith, small) in
            rw b0 (rw b1 (rw b2 (rw at (small_span c count l.spans l.count v small at fresh))))
        | no large ↦
            let b2 : leb small_span_max count ≡ true = ground (arith, large) in
            rw b0
              (rw b1 (rw b2 (large_span c count c.large.spans v refl (omega (arith, large)) fresh)))
      ]
