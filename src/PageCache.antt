-- ===== src/PageCache.antt =====
-- src/mm/page_cache.c: spans of pages kept for reuse, on the interface of a page allocator. A span is the
-- address of its first page; the list node in a free span is an entry of a free list. The lock round each
-- operation makes it one step. `none` is an access outside the map of marks.
pub mod Marks
pub mod Spans
pub mod Best
pub mod Allocs
pub mod Frees
pub mod Reuse
mod Tests
use nxos.Base.{
  ℕ, zero, suc, ◌+◌, ◌-◌, ◌*◌, ◌/◌, ◌≡◌, Bool, true, false, Option, none, some, List, [], ◌∷◌, ltb,
  leb, ◌==◌, if◌then◌else◌, get_elem?, set, length, replicate, ◌>>=◌, page_size, Error, eok, einval,
  efault,
}

-- SMALL_SPAN_PAGES_MAX, NX_PAGE_CACHE_MAX_PAGES and the thresholds of the free lists.
abbrev pub small_span_max : ℕ
small_span_max = 128

abbrev pub cache_max_pages : ℕ
cache_max_pages = 2048

abbrev pub large_threshold : ℕ
large_threshold = 32

abbrev pub small_threshold : ℕ
small_threshold = 64

abbrev pub one_page_threshold : ℕ
one_page_threshold = 1024

-- `PageAllocVirtual` and `PageFreeVirtual`.
pub record PageOps (S : Type 0) : Type 0 where
  pub page_alloc : S → (count : ℕ) → S × Option ℕ
  pub page_free : S → (page : ℕ) → S

-- `SpanMark`, `NX_PageSpan` and a free list with its count.
pub record Mark : Type 0 where
  pub count : ℕ
  pub idx : ℕ

pub record Span : Type 0 where
  pub first : ℕ
  pub page_count : ℕ

pub record FreeList : Type 0 where
  pub spans : List Span
  pub count : ℕ

-- `PageCache`, with spanMarkMap and spanBaseAddr.
pub record PageCache (S : Type 0) : Type 0 where
  pub pages : S
  pub small : List FreeList
  pub large : FreeList
  pub marks : List Mark
  pub base : ℕ

abbrev pub page_idx : (base page : ℕ) → ℕ
page_idx base page = (page - base) / page_size

-- The loop of `MarkSpan` from page `i` on, with `n` rounds left, and that of `ClearSpan`.
abbrev pub put_mark : List Mark → ℕ → Mark → Option (List Mark)
put_mark marks i mark = if ltb i (length marks) then some (set marks i mark) else none

unfoldable pub mark_loop : List Mark → (idx i n count : ℕ) → Option (List Mark)
mark_loop marks idx i zero count = some marks
mark_loop marks idx i (suc n) count =
    put_mark marks (idx + i) (record { count = count; idx = i }) >>= λ next.
    mark_loop next idx (suc i) n count

unfoldable pub clear_loop : List Mark → (idx i n : ℕ) → Option (List Mark)
clear_loop marks idx i zero = some marks
clear_loop marks idx i (suc n) =
    put_mark marks (idx + i) (record { count = 0; idx = 0 }) >>= λ next.
    clear_loop next idx (suc i) n

-- `NX_PageToSpan`, whose inner `none` is NX_NULL, and `NX_SpanToCount`.
unfoldable pub page_to_span : List Mark → (base page : ℕ) → Option (Option ℕ)
page_to_span marks base page =
    if ltb page base
    then some none
    else (get_elem? marks (page_idx base page) >>= λ mark.
        some (some (page - mark.idx * page_size)))

unfoldable pub span_to_count : List Mark → (base span : ℕ) → Option ℕ
span_to_count marks base span =
    if ltb span base
    then some 0
    else (get_elem? marks (page_idx base span) >>= λ mark. some mark.count)

-- The large span that is taken, and the list without it.
abbrev pub best_span : Span → List Span → Span
best_span best [] = best
best_span best (s ∷ ss) = best_span (if ltb s.page_count best.page_count then s else best) ss

abbrev pub without_span : ℕ → List Span → List Span
without_span first [] = []
without_span first (s ∷ ss) = if s.first == first then ss else s ∷ without_span first ss

-- A free list with another span in front.
abbrev pub kept : FreeList → (span count : ℕ) → FreeList
kept l span count = record {
  spans = record { first = span; page_count = count } ∷ l.spans;
  count = l.count + 1;
}

module _ {S : Type 0} (ops : PageOps S) where
  -- A span from the page allocator.
  abbrev pub marked_span :
      PageCache S → (count : ℕ) → S × Option ℕ → Option (PageCache S × Option ℕ)
  marked_span c count (pages, none) = some (record c { pages = pages }, none)
  marked_span c count (pages, some span) =
      mark_loop c.marks (page_idx c.base span) 0 count count >>= λ marks.
      some (record c { pages = pages; marks = marks }, some span)

  -- `__PageCacheAlloc`
  abbrev pub take_large : PageCache S → (count : ℕ) → List Span → Option (PageCache S × Option ℕ)
  take_large c count [] = marked_span c count (ops.page_alloc c.pages count)
  take_large c count (s ∷ ss) =
      let best = best_span s ss in
      some (
        record c {
          large = record { spans = without_span best.first (s ∷ ss); count = c.large.count - 1 };
        },
        some best.first,
      )

  abbrev pub take_small : PageCache S → (count : ℕ) → FreeList → Option (PageCache S × Option ℕ)
  take_small c count l = elim l.spans [
    | [] ↦ marked_span c count (ops.page_alloc c.pages count)
    | s ∷ ss ↦ some (
      record c { small = set c.small count (record { spans = ss; count = l.count - 1 }) },
      some s.first,
    )
  ]

  unfoldable pub cache_alloc : PageCache S → (count : ℕ) → Option (PageCache S × Option ℕ)
  unfolding mark_loop
  cache_alloc c count =
      if leb small_span_max count
      then take_large c count c.large.spans
      else (get_elem? c.small count >>= take_small c count)

  -- `NX_PageCacheAlloc`
  unfoldable pub page_cache_alloc : PageCache S → (count : ℕ) → Option (PageCache S × Option ℕ)
  unfolding cache_alloc
  page_cache_alloc c count =
      if count == 0
      then some (c, none)
      else (if ltb cache_max_pages count then some (c, none) else cache_alloc c count)

  -- `__PageCacheFree` of a span of pages: the span freed or kept in a free list.
  abbrev pub drop_span : PageCache S → (span count : ℕ) → Option (PageCache S × Error)
  drop_span c span count = clear_loop c.marks (page_idx c.base span) 0 count >>= λ marks.
      some (record c { pages = ops.page_free c.pages span; marks = marks }, eok)

  abbrev pub give_small : PageCache S → (span count : ℕ) → FreeList → Option (PageCache S × Error)
  give_small c span count l =
      if leb (if count == 1 then one_page_threshold else small_threshold) l.count
      then drop_span c span count
      else some (record c { small = set c.small count (kept l span count) }, eok)

  abbrev pub give : PageCache S → (span count : ℕ) → Option (PageCache S × Error)
  give c span count =
      if count == 0
      then some (c, efault)
      else (if leb small_span_max count
          then (if leb large_threshold c.large.count
              then drop_span c span count
              else some (record c { large = kept c.large span count }, eok))
          else (get_elem? c.small count >>= give_small c span count))

  abbrev pub free_span : PageCache S → Option ℕ → Option (PageCache S × Error)
  free_span c none = some (c, einval)
  free_span c (some span) = span_to_count c.marks c.base span >>= give c span

  -- `NX_PageCacheFree` of a page that is not NX_NULL.
  unfoldable pub page_cache_free : PageCache S → (page : ℕ) → Option (PageCache S × Error)
  unfolding page_to_span span_to_count clear_loop
  page_cache_free c page = page_to_span c.marks c.base page >>= free_span c

-- `NX_PageCacheInit` for a zone of pages at `base`; `none` is the panic.
abbrev pub new_cache : {S : Type 0} → (base mark_pages : ℕ) → S × Option ℕ → Option (PageCache S)
new_cache base mark_pages (s, none) = none
new_cache base mark_pages (s, some map) = some (record {
  pages = s;
  small = replicate small_span_max (record { spans = []; count = 0 });
  large = record { spans = []; count = 0 };
  marks = replicate (mark_pages * page_size / 4) (record { count = 0; idx = 0 });
  base = base;
})

unfoldable pub page_cache_init :
    {S : Type 0} → PageOps S → S → (base pages : ℕ) → Option (PageCache S)
page_cache_init ops s base pages =
    let mark_pages = (pages * 4 + (page_size - 1)) / page_size in
    new_cache base mark_pages (ops.page_alloc s mark_pages)
