-- ===== src/Buddy/Split.antt =====
-- `PageSplit` of src/mm/buddy.c.
use nxos.Base.{
  ℕ, zero, suc, ◌+◌, ◌-◌, ◌≤◌, ◌<◌, ◌≡◌, refl, ap, sym, subst, ◌∙◌, false, some, arith, get_elem?,
  length, get_elem?-set_self, get_elem?-set_ne, get_elem?-lt, get_elem?-total,
}
use nxos.Buddy.{pow2, Page, Buddy, write_page, split_loop, page_split}
use nxos.Buddy.Cover.{pow2_pos, covers, covers_halves, covers_self}
use nxos.Buddy.Lists.{free_cover, IsSound}
use nxos.Buddy.Blocks.{SameZone, SameZone-trans, Added, add_page-Added, write_clear-IsSound}

-- `s'` is `s` with the upper part of the block of order `from` at `pfn` free.
pub record Splits (s : Buddy) (pfn from order : ℕ) (s' : Buddy) : Type 0 where
  pub sound : IsSound s'
  pub cover : (p : ℕ) → covers pfn order p + free_cover s' p ≡ covers pfn from p + free_cover s p
  pub zone : SameZone s s'
  pub others : (b : ℕ) → covers pfn from b ≡ 0 → get_elem? s'.map b ≡ get_elem? s.map b

-- What `split_loop` does from `s`, and that it returns.
abbrev pub SplitOutcome : Buddy → (pfn order n : ℕ) → Type 0
SplitOutcome s pfn order n =
    (s' : Buddy) × (split_loop s pfn order n ≡ some s')
    × Splits s pfn (order + n) order s'
    × (get_elem? s'.map pfn ≡ get_elem? s.map pfn)

halves :
    (pfn order n p : ℕ)
    → covers pfn (order + suc n) p
      ≡ covers pfn (order + n) p + covers (pfn + pow2 (order + n)) (order + n) p
halves pfn order n p =
    ap (λ x. covers pfn x p) {x = order + suc n} {y = suc (order + n)} (omega arith)
    ∙ covers_halves pfn (order + n) p

top : (order n : ℕ) → pow2 (order + suc n) ≡ pow2 (order + n) + pow2 (order + n)
top order n = ap pow2 {x = order + suc n} {y = suc (order + n)} (omega arith)

pub length-zone :
    (s s' : Buddy) → IsSound s → IsSound s' → SameZone s s' → length s'.map ≡ length s.map
length-zone s s' a b zone = b.size ∙ ap suc zone.max_same ∙ sym a.size

pub split_loop-Splits :
    (s : Buddy) (pfn order n : ℕ)
    → IsSound s
    → order + n < 21
    → pfn + pow2 (order + n) ≤ length s.map
    → ((p : ℕ) → covers pfn (order + n) p + free_cover s p ≤ 1)
    → SplitOutcome s pfn order n
unfolding split_loop
split_loop-Splits s pfn order zero sound lt fits apart = (
  s,
  refl,
  record {
    sound = sound;
    cover =
        λ p. ap (λ x. covers pfn x p + free_cover s p) {x = order} {y = order + 0} (omega arith);
    zone = record { max_same = refl; start_same = refl; used_same = refl };
    others = λ b clear. refl;
  },
  refl,
)
split_loop-Splits s pfn order (suc n) sound lt fits apart =
    step (λ s1. split_loop-Splits s1 pfn order n)
      (get_elem?-total s.map buddy (omega (arith, fits, size, pow2_pos (order + n))))
  where
    buddy : ℕ
    buddy = pfn + pow2 (order + n)

    size : pow2 (order + suc n) ≡ pow2 (order + n) + pow2 (order + n)
    size = top order n

    Again : Type 0
    Again =
        (s1 : Buddy)
        → IsSound s1
        → order + n < 21
        → pfn + pow2 (order + n) ≤ length s1.map
        → ((p : ℕ) → covers pfn (order + n) p + free_cover s1 p ≤ 1)
        → SplitOutcome s1 pfn order n

    Goal : Type 0
    Goal = SplitOutcome s pfn order (suc n)

    clear : free_cover s buddy ≡ 0
    clear = omega (arith, apart buddy, halves pfn order n buddy, covers_self buddy (order + n))

    rest :
        Again
        → (page : Page) → get_elem? s.map buddy ≡ some page
        → ((s1 : Buddy) × Added s buddy (order + n) page s1)
        → Goal
    rest again page at (s1, added) =
        let long = length-zone s s1 sound added.sound added.zone in
        let (s2, run, splits, head) =
          again s1 added.sound (omega (arith, lt)) (omega (arith, long, fits, size))
            (λ p. omega (arith, added.cover p, apart p, halves pfn order n p)) in
        (
          s2,
          rw at (rw added.run run),
          record {
            sound = splits.sound;
            cover = λ p. omega (arith, splits.cover p, added.cover p, halves pfn order n p);
            zone = SameZone-trans added.zone splits.zone;
            others = λ b away.
                splits.others b (omega (arith, away, halves pfn order n b))
                ∙ added.others b (λ e. absurd (
                    omega (
                      arith,
                      halves pfn order n b,
                      away,
                      ap (λ x. covers buddy (order + n) x) e,
                      covers_self buddy (order + n),
                    )));
          },
          head ∙ added.others pfn (omega (arith, pow2_pos (order + n))),
        )

    step : Again → ((page : Page) × (get_elem? s.map buddy ≡ some page)) → Goal
    step again (page, at) = rest again page at (
        add_page-Added s buddy (order + n) page sound (omega (arith, lt)) at clear
          (omega (arith, fits, size)))

-- A block that is in no free list is cut to `order`.
pub page_split-Splits :
    (s : Buddy) (pfn from order : ℕ) (page : Page)
    → IsSound s
    → order ≤ from
    → from < 21
    → pfn + pow2 from ≤ length s.map
    → ((p : ℕ) → covers pfn from p + free_cover s p ≤ 1)
    → get_elem? s.map pfn ≡ some page
    → page.free ≡ false
    → (s' : Buddy) × (page_split s pfn from order ≡ some s')
      × Splits s pfn from order s'
      × (get_elem? s'.map pfn ≡ some (record page { order = some order }))
unfolding page_split
page_split-Splits s pfn from order page sound le lt fits apart at busy =
    let whole : order + (from - order) ≡ from = omega arith in
    let (s1, run, splits, head) =
      split_loop-Splits s pfn order (from - order) sound (omega arith)
        (subst (λ x. pfn + pow2 x ≤ length s.map) (sym whole) fits)
        (λ p. subst (λ x. covers pfn x p + free_cover s p ≤ 1) (sym whole) (apart p)) in
    let split : Splits s pfn from order s1 = subst (λ x. Splits s pfn x order s1) whole splits in
    let here = head ∙ at in
    let new : Page = record page { order = some order } in
    (
      write_page s1 pfn new,
      rw run (rw here refl),
      record {
        sound =
            write_clear-IsSound s1 pfn page new split.sound here
              (omega (arith, split.cover pfn, apart pfn, covers_self pfn order))
              (λ k. ground (arith, busy));
        cover = split.cover;
        zone = record {
          max_same = split.zone.max_same;
          start_same = split.zone.start_same;
          used_same = split.zone.used_same;
        };
        others = λ b away.
            get_elem?-set_ne s1.map pfn b new (λ e.
              absurd (omega (arith, away, ap (λ x. covers pfn from x) e, covers_self pfn from)))
            ∙ split.others b away;
      },
      get_elem?-set_self s1.map pfn new (get_elem?-lt s1.map pfn here),
    )
