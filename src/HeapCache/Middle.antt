-- ===== src/HeapCache/Middle.antt =====
-- Middle objects of src/mm/heap_cache.c, of more than 256 KB and at most 1 MB.
use nxos.Base.{
  ℕ, ◌+◌, ◌-◌, ◌*◌, ◌/◌, ◌≤◌, ◌<◌, ◌≡◌, refl, ap, ◌∙◌, true, false, none, some, [], ◌∷◌, ltb, leb,
  ◌==◌, arith, if◌then◌else◌, page_size, eok, efault,
}
use nxos.HeapCache.{
  min_size_class, small_object_max, middle_object_max, middle_threshold, div_round_up,
  size_to_page_count, SpanOps, Heap, mark_size, whole_span, alloc_middle, alloc_small,
  free_small_object, alloc_aligned, heap_alloc, give_back, free_middle, free_in_span, heap_free,
}

-- A size whose objects are middle ones.
pub record IsMiddle (size : ℕ) : Type 0 where
  pub low : small_object_max < size
  pub high : size ≤ middle_object_max

pages_of-middle :
    (size : ℕ)
    → IsMiddle size
    → size_to_page_count (div_round_up size min_size_class * min_size_class)
      ≡ div_round_up size page_size
pages_of-middle size m =
    larger (div_round_up size min_size_class * min_size_class) (omega (arith, m.low)) (omega arith)
  where
    larger :
        (n : ℕ)
        → small_object_max < n
        → div_round_up n page_size ≡ div_round_up size page_size
        → size_to_page_count n ≡ div_round_up size page_size
    larger n lt e = ground (arith, lt, e)

aligned-middle :
    {S : Type 0} (ops : SpanOps S) (h : Heap S) (n : ℕ)
    → small_object_max < n
    → n ≤ middle_object_max
    → alloc_aligned ops h n ≡ alloc_middle ops h (size_to_page_count n) h.middle
aligned-middle ops h n low high =
    let b1 : ltb small_object_max n ≡ true = ground (arith, low) in
    let b2 : ltb middle_object_max n ≡ false = ground (arith, high) in
    let direct = whole_span ops h n (ops.span_alloc h.pages (div_round_up n page_size)) in
    let kept = alloc_middle ops h (size_to_page_count n) h.middle in
    ap (λ b. if b then (if ltb middle_object_max n then direct else kept) else alloc_small ops h n)
      b1
    ∙ ap (λ b. if b then direct else kept) b2

alloc-middle :
    {S : Type 0} (ops : SpanOps S) (h : Heap S) (size : ℕ)
    → IsMiddle size
    → heap_alloc ops h size ≡ alloc_middle ops h (div_round_up size page_size) h.middle
unfolding heap_alloc
alloc-middle ops h size m =
    let n = div_round_up size min_size_class * min_size_class in
    let b0 : (size == 0) ≡ false = ground (arith, m.low) in
    ap (λ b. if b then some (h, none) else alloc_aligned ops h n) b0
    ∙ aligned-middle ops h n (omega (arith, m.low)) (omega (arith, m.high))
    ∙ ap (λ k. alloc_middle ops h k h.middle) (pages_of-middle size m)

free-middle :
    {S : Type 0} (ops : SpanOps S) (h : Heap S) (span : ℕ)
    → h.class_of span ≡ middle_object_max
    → h.middle_count + 1 < middle_threshold
    → ops.page_to_span h.pages (span / page_size * page_size) ≡ some span
    → heap_free ops h span
      ≡ some (record h { middle = span ∷ h.middle; middle_count = h.middle_count + 1 }, eok)
unfolding heap_free
free-middle ops h span is room found =
    let b : leb middle_threshold (h.middle_count + 1) ≡ false = ground (arith, room) in
    let small = free_small_object ops h span span in
    ap (λ o. free_in_span ops h span o) found
    ∙ ap
        (λ c.
          if c == 0
          then some (h, efault)
          else (if ltb small_object_max c
              then (if ltb middle_object_max c
                  then give_back ops h span
                  else free_middle ops h span)
              else small))
        is
    ∙ ap
        (λ b.
          if b
          then give_back ops (record h { class_of = mark_size h.class_of span 0 }) span
          else some (record h { middle = span ∷ h.middle; middle_count = h.middle_count + 1 }, eok))
        b

-- Two middle sizes, a heap that keeps no middle span and fewer than 31 of them by its count, and caches of
-- spans that give a span for the pages of the first size and find it by its address: an object of the first
-- size is a span of just as many pages as that size needs; given back and asked for with the second size,
-- however much larger, the same span is returned and no page is added.
pub heap_alloc-reuse :
    {S : Type 0} (ops : SpanOps S) (h : Heap S) (size size' : ℕ) (pages : S) (span : ℕ)
    → IsMiddle size
    → IsMiddle size'
    → h.middle ≡ []
    → h.middle_count + 1 < middle_threshold
    → ops.span_alloc h.pages (div_round_up size page_size) ≡ (pages, some span)
    → ops.page_to_span pages (span / page_size * page_size) ≡ some span
    → (h1 : Heap S) × (h2 : Heap S) × (h3 : Heap S) × (heap_alloc ops h size ≡ some (h1, some span))
      × (heap_free ops h1 span ≡ some (h2, eok))
      × (heap_alloc ops h2 size' ≡ some (h3, some span))
      × (h3.pages ≡ pages)
heap_alloc-reuse ops h size size' pages span m m' empty room given found =
    let h1 = record h { pages = pages; class_of = mark_size h.class_of span middle_object_max } in
    let h2 = record h1 { middle = span ∷ h.middle; middle_count = h.middle_count + 1 } in
    let h3 = record h2 { middle = h.middle; middle_count = h.middle_count + 1 - 1 } in
    let self : (span == span) ≡ true = ground arith in
    let marked : h1.class_of span ≡ middle_object_max = rw self refl in
    (
      h1,
      h2,
      h3,
      alloc-middle ops h size m
          ∙ ap (λ l. alloc_middle ops h (div_round_up size page_size) l) empty
          ∙ ap (λ r. whole_span ops h middle_object_max r) given,
      free-middle ops h1 span marked room found,
      alloc-middle ops h2 size' m',
      refl,
    )
