-- ===== src/PageCache/Tests.antt =====
-- A cache over pages handed out one behind the other, and one with two large spans.
use nxos.Base.{
  ℕ, suc, zero, ◌+◌, ◌*◌, ◌≤◌, ◌<◌, ◌≡◌, refl, some, List, [], ◌∷◌, arith, get_elem?, replicate,
  eok, page_size, ◌>>=◌, subst,
}
use nxos.PageCache.{
  PageOps, Mark, Span, FreeList, PageCache, page_idx, page_cache_alloc, page_cache_free,
  page_cache_init,
}
use nxos.PageCache.Marks.{IsSpan}
use nxos.PageCache.Spans.{HoldsSpans, threshold_of, IsValid}
use nxos.PageCache.Allocs.{AllocOutcome, IsFresh, page_cache_alloc-AllocOutcome}
use nxos.PageCache.Frees.{IsLent, page_cache_free-IsValid}
use nxos.PageCache.Reuse.{page_cache_alloc-page_cache_free, page_cache_alloc-short}

-- The state is the number of the next page.
abbrev in_turn : PageOps ℕ
in_turn = record {
  page_alloc = λ s count. (s + count, some (4096 + s * 4096));
  page_free = λ s page. s;
}

-- A span of three pages is out; pages 3 to 7 are in none.
abbrev span_marks : List Mark
span_marks =
    record { count = 3; idx = 0 }
    ∷ record { count = 3; idx = 1 }
    ∷ record { count = 3; idx = 2 }
    ∷ replicate 5 (record { count = 0; idx = 0 })

abbrev none_kept : FreeList
none_kept = record { spans = []; count = 0 }

abbrev cache : PageCache ℕ
cache = record {
  pages = 3;
  small = replicate 128 none_kept;
  large = none_kept;
  marks = span_marks;
  base = 4096;
}

three-IsSpan : IsSpan span_marks 0 3
three-IsSpan zero lt = refl
three-IsSpan (suc zero) lt = refl
three-IsSpan (suc (suc zero)) lt = refl
three-IsSpan (suc (suc (suc j))) lt = absurd (omega (arith, lt))

none_in : (k n : ℕ) (l : FreeList) → get_elem? (replicate n none_kept) k ≡ some l → none_kept ≡ l
none_in k zero l at = absurd (ground (arith, at))
none_in zero (suc n) l at = ground (arith, at)
none_in (suc k) (suc n) l at = none_in k n l at

empty-HoldsSpans : (t : ℕ) → HoldsSpans span_marks 4096 t none_kept
empty-HoldsSpans t = record {
  counted = refl;
  bounded = omega arith;
  above = λ i s at. absurd (ground (arith, at));
  marked = λ i s at. absurd (ground (arith, at));
}

cache-IsValid : IsValid cache
cache-IsValid = record {
  small_nr = refl;
  small_holds = λ k l at.
      subst (λ x. HoldsSpans span_marks 4096 (threshold_of k) x) (none_in k 128 l at)
        (empty-HoldsSpans (threshold_of k));
  small_size = λ k l i s at is. absurd (none_there l i s (none_in k 128 l at) is);
  large_holds = empty-HoldsSpans 32;
  large_size = λ i s at. absurd (ground (arith, at));
}
  where
    none_there :
        (l : FreeList) (i : ℕ) (s : Span) → none_kept ≡ l → get_elem? l.spans i ≡ some s → ⊥
    none_there l i s e at = ground (arith, e, at)

next-IsFresh : (s span : ℕ) → in_turn.page_alloc 3 2 ≡ (s, some span) → IsFresh cache span 2
next-IsFresh s span e =
    subst (λ x. IsFresh cache x 2) (found e)
      (record { above = omega arith; mapped = omega arith; unmarked = unmarked })
  where
    found : in_turn.page_alloc 3 2 ≡ (s, some span) → 16384 ≡ span
    found h = ground (arith, h)

    unmarked :
        (p : ℕ) (m : Mark)
        → page_idx 4096 16384 ≤ p
        → p < page_idx 4096 16384 + 2
        → get_elem? span_marks p ≡ some m
        → m.count ≡ 0
    unmarked p m lo hi at = at_3 p (omega (arith, lo)) (omega (arith, hi)) at
      where
        at_3 : (p : ℕ) → 3 ≤ p → p < 5 → get_elem? span_marks p ≡ some m → m.count ≡ 0
        at_3 (suc (suc (suc zero))) lo hi at = ground (arith, at)
        at_3 (suc (suc (suc (suc zero)))) lo hi at = ground (arith, at)
        at_3 zero lo hi at = absurd (omega (arith, lo))
        at_3 (suc zero) lo hi at = absurd (omega (arith, lo))
        at_3 (suc (suc zero)) lo hi at = absurd (omega (arith, lo))
        at_3 (suc (suc (suc (suc (suc p))))) lo hi at = absurd (omega (arith, hi))

page_cache_alloc-AllocOutcome_example : AllocOutcome in_turn cache 2
page_cache_alloc-AllocOutcome_example =
    page_cache_alloc-AllocOutcome in_turn cache 2 cache-IsValid (omega arith) (omega arith)
      next-IsFresh

span-IsLent : IsLent cache 4096 3
span-IsLent = record {
  above = omega arith;
  some_pages = omega arith;
  marked = three-IsSpan;
  not_small = λ k l i s at is. absurd (none_there l i s (none_in k 128 l at) is);
  not_large = λ i s at. absurd (ground (arith, at));
}
  where
    none_there :
        (l : FreeList) (i : ℕ) (s : Span) → none_kept ≡ l → get_elem? l.spans i ≡ some s → ⊥
    none_there l i s e at = ground (arith, e, at)

page_cache_free-IsValid_example :
    (c' : PageCache ℕ) × (page_cache_free in_turn cache (4096 + 1 * page_size) ≡ some (c', eok))
    × IsValid c'
page_cache_free-IsValid_example =
    page_cache_free-IsValid in_turn cache 4096 3 1 cache-IsValid span-IsLent (omega arith)

page_cache_alloc-page_cache_free_example :
    (page_cache_free in_turn cache (4096 + 1 * page_size) >>= λ r. page_cache_alloc in_turn r.0 3)
    ≡ some (cache, some 4096)
page_cache_alloc-page_cache_free_example =
    page_cache_alloc-page_cache_free in_turn cache 4096 3 1 none_kept (omega arith) three-IsSpan
      (omega arith) (omega arith) refl (omega arith)

-- Large spans of 200 and 130 pages are kept.
abbrev kept_large : PageCache ℕ
kept_large = record cache {
  large = record {
    spans =
        record { first = 40960; page_count = 200 }
        ∷ record { first = 8192000; page_count = 130 }
        ∷ [];
    count = 2;
  };
}

page_cache_alloc-short_example :
    (c' : PageCache ℕ) × (k : ℕ) × (t : Span) × (page_cache_alloc in_turn kept_large 1000
      ≡ some (c', some t.first))
    × (get_elem? kept_large.large.spans k ≡ some t)
    × (t.page_count ≤ 130)
    × (c'.pages ≡ 3)
page_cache_alloc-short_example =
    page_cache_alloc-short in_turn kept_large 1000 1 (record { first = 8192000; page_count = 130 })
      (omega arith) (omega arith) refl

init_run :
    page_cache_init in_turn 0 4096 8
    ≡ some (record {
      pages = 1;
      small = replicate 128 none_kept;
      large = none_kept;
      marks = replicate 1024 (record { count = 0; idx = 0 });
      base = 4096;
    })
unfolding page_cache_init
init_run = refl
