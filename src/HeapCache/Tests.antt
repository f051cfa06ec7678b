-- ===== src/HeapCache/Tests.antt =====
-- A heap over spans handed out one behind the other.
use nxos.Base.{
  ℕ, ◌+◌, ◌*◌, ◌/◌, ◌≤◌, ◌≡◌, refl, Option, some, none, [], arith, get_elem?, eok, ◌>>=◌,
}
use nxos.HeapCache.{
  class_sizes, size_to_cache, SpanOps, Heap, System, build_system, heap_alloc, heap_free,
  heap_get_object_size, heap_init,
}
use nxos.HeapCache.Classes.{size_to_cache-least}
use nxos.HeapCache.Middle.{heap_alloc-reuse}
use nxos.HeapCache.Objects.{IsSplit, build_system-IsSplit}

-- The state is the number of the next page; a page is taken for the span.
abbrev in_turn : SpanOps ℕ
in_turn = record {
  span_alloc = λ s count. (s + count, some (s * 4096));
  span_free = λ s span. (s, eok);
  page_to_span = λ s page. some page;
}

abbrev heap : Heap ℕ
heap = record { pages = 1; caches = []; middle = []; middle_count = 0; class_of = λ p. 0 }

size_to_cache-least_example :
    (i : ℕ) × (v : ℕ) × (size_to_cache 1000 ≡ some i)
    × (get_elem? class_sizes i ≡ some v)
    × (1000 ≤ v)
    × (v ≤ 1000 + 1000 / 8 + 16)
    × ((j w : ℕ) → get_elem? class_sizes j ≡ some w → 1000 ≤ w → v ≤ w)
size_to_cache-least_example = size_to_cache-least 1000 (omega arith)

-- 300 KB, and then 1 MB.
heap_alloc-reuse_example :
    (h1 : Heap ℕ) × (h2 : Heap ℕ) × (h3 : Heap ℕ) × (heap_alloc in_turn heap 307200
      ≡ some (h1, some 4096))
    × (heap_free in_turn h1 4096 ≡ some (h2, eok))
    × (heap_alloc in_turn h2 1048576 ≡ some (h3, some 4096))
    × (h3.pages ≡ 76)
heap_alloc-reuse_example =
    heap_alloc-reuse in_turn heap 307200 1048576 76 4096
      (record { low = omega arith; high = omega arith })
      (record { low = omega arith; high = omega arith }) refl (omega arith) refl refl

build_system-IsSplit_example :
    (s : System) × (build_system 4096 (1 * 4096 / 16) 16 ≡ some s) × IsSplit 4096 1 16 s
build_system-IsSplit_example =
    build_system-IsSplit 4096 1 16 (omega arith) (omega arith) (omega arith)

-- A small object, its size, and what freeing it twice answers.
abbrev heap_of : {A : Type 0} → Option (Heap ℕ × A) → Heap ℕ
heap_of none = heap
heap_of (some (h, a)) = h

small_object : (heap_alloc in_turn (heap_init 1) 100 >>= λ r. some r.1) ≡ some (some 4208)
unfolding heap_alloc heap_init size_to_cache class_sizes build_system
small_object = refl

small_object_size :
    heap_get_object_size in_turn (heap_of (heap_alloc in_turn (heap_init 1) 100)) 4208 ≡ 112
unfolding heap_alloc heap_init size_to_cache class_sizes build_system heap_get_object_size
small_object_size = refl
