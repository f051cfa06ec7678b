-- ===== src/PageCache/Reuse.antt =====
-- Spans of src/mm/page_cache.c given back and taken again.
use nxos.Base.{
  ℕ, zero, suc, ◌+◌, ◌-◌, ◌*◌, ◌≤◌, ◌<◌, ◌≡◌, refl, ap, subst, ◌∙◌, true, false, some, List, [],
  ◌∷◌, ltb, leb, ◌==◌, arith, get_elem?, set, set-get_elem?, get_elem?-set_self, get_elem?-lt,
  ◌>>=◌, page_size, eok,
}
use nxos.PageCache.{
  small_span_max, cache_max_pages, PageOps, Span, FreeList, PageCache, page_idx, best_span,
  without_span, kept, page_cache_free, take_large, cache_alloc, page_cache_alloc,
}
use nxos.PageCache.Marks.{IsSpan, page_to_span-IsSpan, span_to_count-IsSpan}
use nxos.PageCache.Spans.{threshold_of}
use nxos.PageCache.Best.{best_span-get, best_span-least}

set_twice : (xs : List FreeList) (i : ℕ) (a b : FreeList) → set (set xs i a) i b ≡ set xs i b
set_twice [] i a b = refl
set_twice (x ∷ xs) zero a b = refl
set_twice (x ∷ xs) (suc i) a b = ap (λ l. x ∷ l) (set_twice xs i a b)

-- The cache with a span in front of a small free list.
abbrev pub with_span : {S : Type 0} → PageCache S → (span n : ℕ) → FreeList → PageCache S
with_span c span n l = record c { small = set c.small n (kept l span n) }

module _ {S : Type 0} (ops : PageOps S) where
  free_small :
      (c : PageCache S) (span n j : ℕ) (l : FreeList)
      → c.base ≤ span
      → IsSpan c.marks (page_idx c.base span) n
      → j < n
      → n < small_span_max
      → get_elem? c.small n ≡ some l
      → l.count < threshold_of n
      → page_cache_free ops c (span + j * page_size) ≡ some (with_span c span n l, eok)
  unfolding page_cache_free
  free_small c span n j l above is lt small at room =
      let found = page_to_span-IsSpan c.marks c.base span n j above is lt in
      let count = span_to_count-IsSpan c.marks c.base span n above is (omega (arith, lt)) in
      let b0 : (n == 0) ≡ false = ground (arith, lt) in
      let b1 : leb small_span_max n ≡ false = ground (arith, small) in
      rw found (rw count (rw b0 (rw b1 (rw at (rw (under (threshold_of n) room) refl)))))
    where
      under : (t : ℕ) → l.count < t → leb t l.count ≡ false
      under t h = ground (arith, h)

  alloc_small :
      (c : PageCache S) (n span : ℕ) (l : FreeList)
      → 0 < n
      → n < small_span_max
      → get_elem? c.small n ≡ some (kept l span n)
      → page_cache_alloc ops c n ≡ some (record c { small = set c.small n l }, some span)
  unfolding page_cache_alloc cache_alloc
  alloc_small c n span l pos small at =
      let b0 : (n == 0) ≡ false = ground (arith, pos) in
      let b1 : ltb cache_max_pages n ≡ false = ground (arith, small) in
      let b2 : leb small_span_max n ≡ false = ground (arith, small) in
      let less : l.count + 1 - 1 ≡ l.count = omega arith in
      rw b0 (
        rw b1 (
          rw b2 (
            rw at (
              ap
                (λ k. some (
                  record c { small = set c.small n (record { spans = l.spans; count = k }) },
                  some span,
                ))
                less))))

  -- A marked span of less than 128 pages, whose free list is below its threshold: given back by any of its
  -- pages and asked for again it is the span returned, and the cache is as before.
  pub page_cache_alloc-page_cache_free :
      (c : PageCache S) (span n j : ℕ) (l : FreeList)
      → c.base ≤ span
      → IsSpan c.marks (page_idx c.base span) n
      → j < n
      → n < small_span_max
      → get_elem? c.small n ≡ some l
      → l.count < threshold_of n
      → (page_cache_free ops c (span + j * page_size) >>= λ r. page_cache_alloc ops r.0 n)
        ≡ some (c, some span)
  page_cache_alloc-page_cache_free c span n j l above is lt small at room =
      let freed = free_small c span n j l above is lt small at room in
      let there = get_elem?-set_self c.small n (kept l span n) (get_elem?-lt c.small n at) in
      rw freed (
        alloc_small (with_span c span n l) n span l (omega (arith, lt)) small there
        ∙ ap (λ x. some (record c { small = x }, some span))
            (set_twice c.small n (kept l span n) l ∙ set-get_elem? c.small n l at))

  -- A marked span of less than 128 pages, whose free list is two below its threshold: given back twice it is
  -- twice in the free list, so the next two requests for as many pages both return it.
  pub page_cache_free-twice :
      (c : PageCache S) (span n j : ℕ) (l : FreeList)
      → c.base ≤ span
      → IsSpan c.marks (page_idx c.base span) n
      → j < n
      → n < small_span_max
      → get_elem? c.small n ≡ some l
      → l.count + 1 < threshold_of n
      → (c' : PageCache S) × (c'' : PageCache S) × ((page_cache_free ops c (span + j * page_size)
            >>= λ r. page_cache_free ops r.0 span)
          ≡ some (c', eok))
        × (page_cache_alloc ops c' n ≡ some (c'', some span))
        × (page_cache_alloc ops c'' n ≡ some (c, some span))
  page_cache_free-twice c span n j l above is lt small at room =
      let once = with_span c span n l in
      let inside = get_elem?-lt c.small n at in
      let there = get_elem?-set_self c.small n (kept l span n) inside in
      let first = free_small c span n j l above is lt small at (omega (arith, room)) in
      let second : page_cache_free ops once span
          ≡ some (with_span once span n (kept l span n), eok) =
        subst (λ x. page_cache_free ops once x ≡ some (with_span once span n (kept l span n), eok))
          {x = span + 0 * page_size} (omega arith)
          (free_small once span n 0 (kept l span n) above is (omega (arith, lt)) small there
            room) in
      let twice = with_span c span n (kept l span n) in
      let same : with_span once span n (kept l span n) ≡ twice =
        ap (λ x. record c { small = x })
          (set_twice c.small n (kept l span n) (kept (kept l span n) span n)) in
      (
        twice,
        once,
        rw first (second ∙ ap (λ x. some (x, eok)) same),
        alloc_small twice n span (kept l span n) (omega (arith, lt)) small
              (get_elem?-set_self c.small n (kept (kept l span n) span n) inside)
            ∙ ap (λ x. some (record c { small = x }, some span))
                (set_twice c.small n (kept (kept l span n) span n) (kept l span n)),
        alloc_small once n span l (omega (arith, lt)) small there
            ∙ ap (λ x. some (record c { small = x }, some span))
                (set_twice c.small n (kept l span n) l ∙ set-get_elem? c.small n l at),
      )

  -- A count of 128 pages or more in the range of the cache, and a free list of large spans that is not empty:
  -- whatever the count, `page_cache_alloc` returns a span of the list with the fewest pages, so one with
  -- fewer pages than the count when the list has such a span.
  pub page_cache_alloc-short :
      (c : PageCache S) (count i : ℕ) (s : Span)
      → small_span_max ≤ count
      → count ≤ cache_max_pages
      → get_elem? c.large.spans i ≡ some s
      → (c' : PageCache S) × (k : ℕ) × (t : Span) × (page_cache_alloc ops c count
          ≡ some (c', some t.first))
        × (get_elem? c.large.spans k ≡ some t)
        × (t.page_count ≤ s.page_count)
        × (c'.pages ≡ c.pages)
  unfolding page_cache_alloc cache_alloc
  page_cache_alloc-short c count i s large le at =
      let b0 : (count == 0) ≡ false = ground (arith, large) in
      let b1 : ltb cache_max_pages count ≡ false = ground (arith, le) in
      let b2 : leb small_span_max count ≡ true = ground (arith, large) in
      rw b0 (rw b1 (rw b2 (from c.large.spans at)))
    where
      from :
          (spans : List Span)
          → get_elem? spans i ≡ some s
          → (c' : PageCache S) × (k : ℕ) × (t : Span) × (take_large ops c count spans
              ≡ some (c', some t.first))
            × (get_elem? spans k ≡ some t)
            × (t.page_count ≤ s.page_count)
            × (c'.pages ≡ c.pages)
      from [] is = absurd (ground (arith, is))
      from (a ∷ ss) is =
          let (k, there) = best_span-get a ss in
          (
            record c {
              large = record {
                spans = without_span (best_span a ss).first (a ∷ ss);
                count = c.large.count - 1;
              };
            },
            k,
            best_span a ss,
            refl,
            there,
            best_span-least a ss i s is,
            refl,
          )
