-- ===== src/PageCache/Spans.antt =====
-- The free lists of src/mm/page_cache.c hold marked spans, and `NX_PageCacheAlloc` keeps them so.
use nxos.Base.{
  ℕ, ◌+◌, ◌≤◌, ◌<◌, ◌≡◌, ap, sym, subst, ◌∙◌, some, List, ◌==◌, arith, if◌then◌else◌, get_elem?,
  set, length, length-set, get_elem?-set_self, get_elem?-set_ne, get_elem?-lt, ℕ_discrete,
}
use nxos.PageCache.{
  small_span_max, large_threshold, small_threshold, one_page_threshold, Mark, Span, FreeList,
  PageCache, page_idx,
}
use nxos.PageCache.Marks.{IsSpan}

-- A free list with a right count that is at most its threshold, of spans marked with their counts of pages.
pub record HoldsSpans (marks : List Mark) (base threshold : ℕ) (l : FreeList) : Type 0 where
  pub counted : l.count ≡ length l.spans
  pub bounded : l.count ≤ threshold
  pub above : (i : ℕ) (s : Span) → get_elem? l.spans i ≡ some s → base ≤ s.first
  pub marked :
      (i : ℕ) (s : Span)
      → get_elem? l.spans i ≡ some s
      → IsSpan marks (page_idx base s.first) s.page_count

abbrev pub threshold_of : ℕ → ℕ
threshold_of k = if k == 1 then one_page_threshold else small_threshold

pub record IsValid {S : Type 0} (c : PageCache S) : Type 0 where
  pub small_nr : length c.small ≡ small_span_max
  pub small_holds :
      (k : ℕ) (l : FreeList)
      → get_elem? c.small k ≡ some l
      → HoldsSpans c.marks c.base (threshold_of k) l
  pub small_size :
      (k : ℕ) (l : FreeList) (i : ℕ) (s : Span)
      → get_elem? c.small k ≡ some l
      → get_elem? l.spans i ≡ some s
      → s.page_count ≡ k
  pub large_holds : HoldsSpans c.marks c.base large_threshold c.large
  pub large_size :
      (i : ℕ) (s : Span) → get_elem? c.large.spans i ≡ some s → small_span_max ≤ s.page_count

-- Marks that change only where no span was marked.
abbrev pub Keeps : List Mark → List Mark → Type 0
Keeps marks marks' =
    (p : ℕ) (m : Mark) → get_elem? marks p ≡ some m → 0 < m.count → get_elem? marks' p ≡ some m

pub IsSpan-Keeps :
    (marks marks' : List Mark) (idx n : ℕ)
    → Keeps marks marks'
    → IsSpan marks idx n
    → IsSpan marks' idx n
IsSpan-Keeps marks marks' idx n keeps is j lt =
    keeps (idx + j) (record { count = n; idx = j }) (is j lt) (omega (arith, lt))

pub HoldsSpans-Keeps :
    (marks marks' : List Mark) (base t : ℕ) (l : FreeList)
    → Keeps marks marks'
    → HoldsSpans marks base t l
    → HoldsSpans marks' base t l
HoldsSpans-Keeps marks marks' base t l keeps h = record {
  counted = h.counted;
  bounded = h.bounded;
  above = h.above;
  marked = λ i s at.
      IsSpan-Keeps marks marks' (page_idx base s.first) s.page_count keeps (h.marked i s at);
}

-- Spans added to no list.
pub IsValid-Keeps :
    {S : Type 0} (c : PageCache S) (pages : S) (marks : List Mark)
    → Keeps c.marks marks
    → IsValid c
    → IsValid (record c { pages = pages; marks = marks })
IsValid-Keeps c pages marks keeps v = record {
  small_nr = v.small_nr;
  small_holds = λ k l at.
      HoldsSpans-Keeps c.marks marks c.base (threshold_of k) l keeps (v.small_holds k l at);
  small_size = v.small_size;
  large_holds = HoldsSpans-Keeps c.marks marks c.base large_threshold c.large keeps v.large_holds;
  large_size = v.large_size;
}

pub set_small-IsValid :
    {S : Type 0} (c : PageCache S) (k : ℕ) (l l' : FreeList)
    → IsValid c
    → get_elem? c.small k ≡ some l
    → HoldsSpans c.marks c.base (threshold_of k) l'
    → ((i : ℕ) (s : Span) → get_elem? l'.spans i ≡ some s → s.page_count ≡ k)
    → IsValid (record c { small = set c.small k l' })
set_small-IsValid c k l l' v at holds size = record {
  small_nr = length-set c.small k l' ∙ v.small_nr;
  small_holds = λ j q is. elim (ℕ_discrete k j) [
    | no ne ↦ v.small_holds j q (sym (get_elem?-set_ne c.small k j l' ne) ∙ is)
    | yes e ↦
        subst (λ x. HoldsSpans c.marks c.base (threshold_of x) q) e
          (subst (λ x. HoldsSpans c.marks c.base (threshold_of k) x) (same j q e is) holds)
  ];
  small_size = λ j q i s is there. elim (ℕ_discrete k j) [
    | no ne ↦ v.small_size j q i s (sym (get_elem?-set_ne c.small k j l' ne) ∙ is) there
    | yes e ↦ size i s (ap (λ x. get_elem? x.spans i) (same j q e is) ∙ there) ∙ e
  ];
  large_holds = v.large_holds;
  large_size = v.large_size;
}
  where
    same : (j : ℕ) (q : FreeList) → k ≡ j → get_elem? (set c.small k l') j ≡ some q → l' ≡ q
    same j q e is = ground (
      arith,
      is,
      subst (λ x. get_elem? (set c.small k l') x ≡ some l') e
          (get_elem?-set_self c.small k l' (get_elem?-lt c.small k at)),
    )
