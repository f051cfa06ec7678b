-- ===== src/HeapCache.antt =====
-- src/mm/heap_cache.c: the heap of the kernel, on the interface of a cache of spans. Objects and spans are
-- addresses; `class_of` is the size class written in the first page of a span, 0 for none. The lock of a
-- cache makes each operation one step. `none` is a failed assertion or a use of NX_NULL.
pub mod Classes
pub mod Middle
pub mod Objects
mod Tests
use nxos.Base.{
  ℕ, zero, suc, ◌+◌, ◌-◌, ◌*◌, ◌/◌, ◌≡◌, Bool, true, false, ◌&&◌, Option, none, some, List, [], ◌∷◌,
  ◌++◌, ltb, leb, ◌==◌, if◌then◌else◌, get_elem?, set, ◌>>=◌, length, sub_word, page_size, Error,
  eok, einval, efault,
}
use nxos.Buddy.{pow2}

-- MIN_SIZE_CLASS_VALUE, MAX_SIZE_CLASS_NR, and the bounds and thresholds of small and middle objects.
abbrev pub min_size_class : ℕ
min_size_class = 16

abbrev pub size_class_nr : ℕ
size_class_nr = 96

abbrev pub small_object_max : ℕ
small_object_max = 262144

abbrev pub small_span_threshold : ℕ
small_span_threshold = 8

abbrev pub middle_object_max : ℕ
middle_object_max = 1048576

abbrev pub middle_threshold : ℕ
middle_threshold = 32

-- `AlignDownToPow2`, whose loop starts at 2 ^ 19.
abbrev pub align_down_loop : (size n : ℕ) → ℕ
align_down_loop size zero = 1
align_down_loop size (suc n) =
    let rest = align_down_loop size n in if ltb size (pow2 (suc n)) then rest else pow2 (suc n)

abbrev pub align_down_to_pow2 : ℕ → ℕ
align_down_to_pow2 size = align_down_loop size 19

-- NX_DIV_ROUND_UP and `SizeToPageCount`.
abbrev pub div_round_up : ℕ → ℕ → ℕ
div_round_up x y = (x + (y - 1)) / y

abbrev pub size_to_page_count : ℕ → ℕ
size_to_page_count size =
    if ltb 0 size && leb size 1024
    then 1
    else (if ltb 1024 size && leb size 8192
        then 4
        else (if ltb 8192 size && leb size 36864
            then 18
            else (if ltb 36864 size && leb size 104096
                then 52
                else (if ltb 104096 size && leb size 262144
                    then 256
                    else div_round_up size page_size))))

-- The sizes that `HeapSizeClassInit` writes: its two loops, with `n` rounds at most.
abbrev pub step_classes : (i n : ℕ) → List ℕ
step_classes i zero = []
step_classes i (suc n) = i ∷ step_classes (i + 16) n

abbrev pub class_loop : (i n : ℕ) → List ℕ
class_loop i zero = []
class_loop i (suc n) =
    let rest = class_loop (i + align_down_to_pow2 (i / 8)) n in
    if leb i small_object_max then i ∷ rest else []

unfoldable pub class_sizes : List ℕ
class_sizes = min_size_class ∷ step_classes 32 7 ++ class_loop (128 + 128 / 8) size_class_nr

-- `SizeToCache`: the index of the first class that is large enough.
abbrev pub search : List ℕ → (size index : ℕ) → Option ℕ
search [] size index = none
search (v ∷ vs) size index = if leb size v then some index else search vs size (suc index)

unfoldable pub size_to_cache : (size : ℕ) → Option ℕ
unfolding class_sizes
size_to_cache size = search class_sizes size 0

-- `NX_PageCacheAlloc`, `NX_PageCacheFree` and `NX_PageToSpan`.
pub record SpanOps (S : Type 0) : Type 0 where
  pub span_alloc : S → (count : ℕ) → S × Option ℕ
  pub span_free : S → (span : ℕ) → S × Error
  pub page_to_span : S → (page : ℕ) → Option ℕ

-- `NX_HeapSmallCacheSystem` at the start of a span, `NX_HeapCache` and the cache of middle objects.
pub record System : Type 0 where
  pub span : ℕ
  pub objects : List ℕ
  pub free_count : ℕ
  pub max_objects : ℕ

pub record SmallCache : Type 0 where
  pub class_size : ℕ
  pub systems : List System
  pub free_count : ℕ

pub record Heap (S : Type 0) : Type 0 where
  pub pages : S
  pub caches : List SmallCache
  pub middle : List ℕ
  pub middle_count : ℕ
  pub class_of : ℕ → ℕ

-- `PageNodeMarkSize`
abbrev pub mark_size : (ℕ → ℕ) → (span size : ℕ) → ℕ → ℕ
mark_size class_of span size p = if p == span then size else class_of p

-- `sizeof(NX_HeapSmallCacheSystem)`, and `BuildSmallCacheSystem` of a span of pages,
-- whose count of objects wraps round, and whose two assertions are at its end.
abbrev pub system_struct_size : ℕ
system_struct_size = 56

abbrev pub objects_from : (start size n : ℕ) → List ℕ
objects_from start size zero = []
objects_from start size (suc n) = start ∷ objects_from (start + size) size n

unfoldable pub build_system : (span object_count size : ℕ) → Option System
build_system span object_count size =
    let used = div_round_up system_struct_size size in
    let max = sub_word object_count used in
    let objects = objects_from (span + used * size) size max in
    let free_count = length objects in
    if leb 1 free_count && free_count == max
    then some
        (record { span = span; objects = objects; free_count = free_count; max_objects = max })
    else none

-- `GetFreeSmallCacheSystem` and `GetFreeSmallCacheObject`: the first system with a free object, and the
-- object taken from it.
abbrev pub pop_object : System → List ℕ → Option (System × ℕ)
pop_object s [] = none
pop_object s (o ∷ os) = some (record s { objects = os; free_count = s.free_count - 1 }, o)

abbrev pub take_object : List System → Option (List System × ℕ)
take_object [] = none
take_object (s ∷ ss) =
    let rest = take_object ss >>= λ r. some (s ∷ r.0, r.1) in
    elim (pop_object s s.objects) [ none ↦ rest | some p ↦ some (p.0 ∷ ss, p.1) ]

-- The system of a span given an object, and the systems without it.
abbrev pub find_system : (span : ℕ) → List System → Option System
find_system span [] = none
find_system span (s ∷ ss) = if s.span == span then some s else find_system span ss

abbrev pub put_object : (span object : ℕ) → List System → List System
put_object span object [] = []
put_object span object (s ∷ ss) =
    if s.span == span
    then record s { objects = s.objects ++ object ∷ []; free_count = s.free_count + 1 } ∷ ss
    else s ∷ put_object span object ss

abbrev pub drop_system : (span : ℕ) → List System → List System
drop_system span [] = []
drop_system span (s ∷ ss) = if s.span == span then ss else s ∷ drop_system span ss

module _ {S : Type 0} (ops : SpanOps S) where
  -- `AllocSmallObject`; the test of `NX_HeapAlloc` for an empty list is its case without a system.
  abbrev pub from_new_span :
      Heap S → (index : ℕ) → SmallCache → (count : ℕ) → S × Option ℕ → Option (Heap S × Option ℕ)
  from_new_span h index c count (pages, none) = some (record h { pages = pages }, none)
  from_new_span h index c count (pages, some span) = build_system span count c.class_size >>= λ new.
      take_object (new ∷ c.systems) >>= λ r. some (
        record h {
          pages = pages;
          caches = set h.caches index (record c { systems = r.0; free_count = c.free_count + 1 });
          class_of = mark_size h.class_of span c.class_size;
        },
        some r.1,
      )

  abbrev pub alloc_small_object :
      Heap S → (index : ℕ) → SmallCache → (page_count : ℕ) → Option (Heap S × Option ℕ)
  alloc_small_object h index c page_count = elim (take_object c.systems) [
    | none ↦
        from_new_span h index c (page_count * page_size / c.class_size)
          (ops.span_alloc h.pages page_count)
    | some r ↦
        some (record h { caches = set h.caches index (record c { systems = r.0 }) }, some r.1)
  ]

  abbrev pub alloc_small : Heap S → (size : ℕ) → Option (Heap S × Option ℕ)
  alloc_small h size = do
    index ← size_to_cache size
    c ← get_elem? h.caches index
    alloc_small_object h index c (size_to_page_count size)

  -- An object with a span of its own, marked with a size.
  abbrev pub whole_span : Heap S → (size : ℕ) → S × Option ℕ → Option (Heap S × Option ℕ)
  whole_span h size (pages, none) = some (record h { pages = pages }, none)
  whole_span h size (pages, some span) =
      some (record h { pages = pages; class_of = mark_size h.class_of span size }, some span)

  -- A middle object: the first span kept, or a new one.
  abbrev pub alloc_middle : Heap S → (page_count : ℕ) → List ℕ → Option (Heap S × Option ℕ)
  alloc_middle h page_count [] = whole_span h middle_object_max (ops.span_alloc h.pages page_count)
  alloc_middle h page_count (span ∷ spans) =
      some (record h { middle = spans; middle_count = h.middle_count - 1 }, some span)

  abbrev pub alloc_aligned : Heap S → (size : ℕ) → Option (Heap S × Option ℕ)
  alloc_aligned h size =
      if ltb small_object_max size
      then (if ltb middle_object_max size
          then whole_span h size (ops.span_alloc h.pages (div_round_up size page_size))
          else alloc_middle h (size_to_page_count size) h.middle)
      else alloc_small h size

  -- `NX_HeapAlloc`
  unfoldable pub heap_alloc : Heap S → (size : ℕ) → Option (Heap S × Option ℕ)
  unfolding size_to_cache build_system
  heap_alloc h size =
      if size == 0
      then some (h, none)
      else alloc_aligned h (div_round_up size min_size_class * min_size_class)

  -- `NX_PageCacheFree` of a span of a heap.
  abbrev pub give_back : Heap S → (span : ℕ) → Option (Heap S × Error)
  give_back h span = let r = ops.span_free h.pages span in some (record h { pages = r.0 }, r.1)

  -- `PutFreeSmallCacheObject` and `FreeSmallObject`
  abbrev pub put_free :
      Heap S → (index : ℕ) → SmallCache → (span object : ℕ) → System → Option (Heap S × Error)
  put_free h index c span object s =
      if leb s.max_objects (s.free_count + 1) && leb small_span_threshold (c.free_count + 1)
      then give_back
          (record h {
            caches =
                set h.caches index (record c {
                  systems = drop_system span c.systems;
                  free_count = c.free_count - 1;
                });
            class_of = mark_size h.class_of span 0;
          })
          span
      else some (
        record h {
          caches = set h.caches index (record c { systems = put_object span object c.systems });
        },
        eok,
      )

  abbrev pub free_small_object : Heap S → (span object : ℕ) → Option (Heap S × Error)
  free_small_object h span object = do
    index ← size_to_cache (h.class_of span)
    c ← get_elem? h.caches index
    s ← find_system span c.systems
    put_free h index c span object s

  abbrev pub free_middle : Heap S → (span : ℕ) → Option (Heap S × Error)
  free_middle h span =
      if leb middle_threshold (h.middle_count + 1)
      then give_back (record h { class_of = mark_size h.class_of span 0 }) span
      else some (record h { middle = span ∷ h.middle; middle_count = h.middle_count + 1 }, eok)

  abbrev pub free_in_span : Heap S → (object : ℕ) → Option ℕ → Option (Heap S × Error)
  free_in_span h object none = some (h, einval)
  free_in_span h object (some span) =
      if h.class_of span == 0
      then some (h, efault)
      else (if ltb small_object_max (h.class_of span)
          then (if ltb middle_object_max (h.class_of span)
              then give_back h span
              else free_middle h span)
          else free_small_object h span object)

  -- `NX_HeapFree` of an object that is not NX_NULL, and `NX_HeapGetObjectSize`.
  unfoldable pub heap_free : Heap S → (object : ℕ) → Option (Heap S × Error)
  unfolding size_to_cache
  heap_free h object =
      free_in_span h object (ops.page_to_span h.pages (object / page_size * page_size))

  abbrev pub size_in_span : Heap S → Option ℕ → ℕ
  size_in_span h none = 0
  size_in_span h (some span) = h.class_of span

  unfoldable pub heap_get_object_size : Heap S → (object : ℕ) → ℕ
  heap_get_object_size h object =
      size_in_span h (ops.page_to_span h.pages (object / page_size * page_size))

-- `NX_HeapCacheInit`
abbrev pub empty_caches : List ℕ → List SmallCache
empty_caches [] = []
empty_caches (v ∷ vs) = record { class_size = v; systems = []; free_count = 0 } ∷ empty_caches vs

unfoldable pub heap_init : {S : Type 0} → S → Heap S
unfolding class_sizes
heap_init pages = record {
  pages = pages;
  caches = empty_caches class_sizes;
  middle = [];
  middle_count = 0;
  class_of = λ p. 0;
}
