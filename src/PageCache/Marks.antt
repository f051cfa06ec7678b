-- ===== src/PageCache/Marks.antt =====
-- The marks of spans in src/mm/page_cache.c: `MarkSpan`, `ClearSpan`, `NX_PageToSpan` and `NX_SpanToCount`.
use nxos.Base.{
  ℕ, zero, suc, ◌+◌, ◌-◌, ◌*◌, ◌≤◌, ◌<◌, ◌≡◌, refl, ap, subst, ◌∙◌, true, false, some, List, ltb,
  arith, get_elem?, set, length, length-set, get_elem?-set_self, get_elem?-set_ne, ℕ_discrete,
  ◌>>=◌, page_size,
}
use nxos.PageCache.{Mark, page_idx, put_mark, mark_loop, clear_loop, page_to_span, span_to_count}

-- The marks of a span of `n` pages.
abbrev pub IsSpan : List Mark → (idx n : ℕ) → Type 0
IsSpan marks idx n =
    (j : ℕ) → j < n → get_elem? marks (idx + j) ≡ some (record { count = n; idx = j })

put_mark-some :
    (marks : List Mark) (i : ℕ) (mark : Mark)
    → i < length marks
    → put_mark marks i mark ≡ some (set marks i mark)
put_mark-some marks i mark lt = rw (inside lt) refl
  where
    inside : i < length marks → ltb i (length marks) ≡ true
    inside h = ground (arith, h)

-- Marks written from `lo` to `hi`, and only those.
pub record Written (marks : List Mark) (lo hi : ℕ) (mark : ℕ → Mark) (out : List Mark)
    : Type 0 where
  pub long : length out ≡ length marks
  pub inside : (p : ℕ) → lo ≤ p → p < hi → get_elem? out p ≡ some (mark p)
  pub outside : (p : ℕ) → (p < hi → p < lo) → get_elem? out p ≡ get_elem? marks p

Written-none :
    (marks : List Mark) (lo hi : ℕ) (mark : ℕ → Mark) → hi ≤ lo → Written marks lo hi mark marks
Written-none marks lo hi mark le = record {
  long = refl;
  inside = λ p a b. absurd (omega (arith, a, b, le));
  outside = λ p out. refl;
}

Written-more :
    (marks out : List Mark) (lo hi : ℕ) (mark : ℕ → Mark)
    → lo < length marks
    → lo < hi
    → Written (set marks lo (mark lo)) (suc lo) hi mark out
    → Written marks lo hi mark out
Written-more marks out lo hi mark lt below w = record {
  long = w.long ∙ length-set marks lo (mark lo);
  inside = λ p a b. elim (ℕ_discrete lo p) [
    | yes e ↦
        subst (λ x. get_elem? out x ≡ some (mark x)) e
          (w.outside lo (λ h. omega arith) ∙ get_elem?-set_self marks lo (mark lo) lt)
    | no ne ↦ w.inside p (omega (arith, a, ne)) b
  ];
  outside = λ p apart.
      w.outside p (λ h. omega (arith, apart h))
      ∙ get_elem?-set_ne marks lo p (mark lo)
          (λ e. absurd (omega (arith, e, below, apart (omega (arith, e, below)))));
}

pub mark_loop-Written :
    (marks : List Mark) (idx i n count : ℕ)
    → idx + i + n ≤ length marks
    → (out : List Mark) × (mark_loop marks idx i n count ≡ some out)
      × Written marks (idx + i) (idx + i + n) (λ p. record { count = count; idx = p - idx }) out
unfolding mark_loop
mark_loop-Written marks idx i zero count fits = (
  marks,
  refl,
  Written-none marks (idx + i) (idx + i + 0) (λ p. record { count = count; idx = p - idx })
      (omega arith),
)
mark_loop-Written marks idx i (suc n) count fits =
    let new : Mark = record { count = count; idx = i } in
    let next = set marks (idx + i) new in
    let (out, run, w) =
      mark_loop-Written next idx (suc i) n count
        (omega (arith, fits, length-set marks (idx + i) new)) in
    let f : ℕ → Mark = λ p. record { count = count; idx = p - idx } in
    let here : new ≡ f (idx + i) =
      ap (λ x. record { count = count; idx = x }) {x = i} {y = idx + i - idx} (omega arith) in
    let lo : idx + suc i ≡ suc (idx + i) = omega arith in
    let hi : idx + suc i + n ≡ idx + i + suc n = omega arith in
    (
      out,
      ap (λ o. o >>= λ m. mark_loop m idx (suc i) n count)
            (put_mark-some marks (idx + i) new (omega (arith, fits)))
          ∙ run,
      Written-more marks out (idx + i) (idx + i + suc n) f (omega (arith, fits)) (omega arith) (
          subst (λ x. Written (set marks (idx + i) x) (suc (idx + i)) (idx + i + suc n) f out) here
            (subst (λ x. Written next x (idx + i + suc n) f out) lo
              (subst (λ x. Written next (idx + suc i) x f out) hi w))),
    )

pub clear_loop-Written :
    (marks : List Mark) (idx i n : ℕ)
    → idx + i + n ≤ length marks
    → (out : List Mark) × (clear_loop marks idx i n ≡ some out)
      × Written marks (idx + i) (idx + i + n) (λ p. record { count = 0; idx = 0 }) out
unfolding clear_loop
clear_loop-Written marks idx i zero fits = (
  marks,
  refl,
  Written-none marks (idx + i) (idx + i + 0) (λ p. record { count = 0; idx = 0 }) (omega arith),
)
clear_loop-Written marks idx i (suc n) fits =
    let new : Mark = record { count = 0; idx = 0 } in
    let next = set marks (idx + i) new in
    let (out, run, w) =
      clear_loop-Written next idx (suc i) n (omega (arith, fits, length-set marks (idx + i) new)) in
    let lo : idx + suc i ≡ suc (idx + i) = omega arith in
    let hi : idx + suc i + n ≡ idx + i + suc n = omega arith in
    (
      out,
      ap (λ o. o >>= λ m. clear_loop m idx (suc i) n)
            (put_mark-some marks (idx + i) new (omega (arith, fits)))
          ∙ run,
      Written-more marks out (idx + i) (idx + i + suc n) (λ p. new) (omega (arith, fits))
          (omega arith)
          (subst (λ x. Written next x (idx + i + suc n) (λ p. new) out) lo
            (subst (λ x. Written next (idx + suc i) x (λ p. new) out) hi w)),
    )

-- A page of a span leads to the span and its count of pages.
pub page_to_span-IsSpan :
    (marks : List Mark) (base span n j : ℕ)
    → base ≤ span
    → IsSpan marks (page_idx base span) n
    → j < n
    → page_to_span marks base (span + j * page_size) ≡ some (some span)
unfolding page_to_span
page_to_span-IsSpan marks base span n j le is lt =
    let idx : page_idx base span + j ≡ page_idx base (span + j * page_size) = omega (arith, le) in
    let at : get_elem? marks (page_idx base (span + j * page_size))
        ≡ some (record { count = n; idx = j }) =
      subst (λ x. get_elem? marks x ≡ some (record { count = n; idx = j })) idx (is j lt) in
    let b : ltb (span + j * page_size) base ≡ false =
      above (span + j * page_size) (omega (arith, le)) in
    rw b (
      rw at (
        ap (λ x. some (some x)) {x = span + j * page_size - j * page_size} {y = span}
          (omega arith)))
  where
    above : (x : ℕ) → base ≤ x → ltb x base ≡ false
    above x h = ground (arith, h)

pub span_to_count-IsSpan :
    (marks : List Mark) (base span n : ℕ)
    → base ≤ span
    → IsSpan marks (page_idx base span) n
    → 0 < n
    → span_to_count marks base span ≡ some n
unfolding span_to_count
span_to_count-IsSpan marks base span n le is pos =
    let at : get_elem? marks (page_idx base span) ≡ some (record { count = n; idx = 0 }) =
      subst (λ x. get_elem? marks x ≡ some (record { count = n; idx = 0 }))
        {x = page_idx base span + 0} (omega arith) (is 0 pos) in
    let b : ltb span base ≡ false = ground (arith, le) in rw b (rw at refl)
