-- ===== src/Buddy/Alloc.antt =====
-- `PagePrepareUsed` and `NX_BuddyAllocPage` of src/mm/buddy.c.
use nxos.Base.{
  ℕ, ◌+◌, ◌-◌, ◌≤◌, ◌<◌, ◌≡◌, ◌≢◌, refl, ap, sym, subst, ◌∙◌, ◌⊎◌, inl, inr, true, false, Option,
  none, some, ltb, ◌==◌, arith, if◌then◌else◌, get_elem?, length, length-set, get_elem?-set_self,
  get_elem?-set_ne, get_elem?-lt, get_elem?-total, Bool-cases, Option-cases, ◌>>=◌, dec_lt,
}
use nxos.Buddy.{
  pow2, order_of, Page, Order, Buddy, is_order, write_page, page_split, page_prepare_used, prepare,
  alloc_page, locate_free,
}
use nxos.Buddy.Bits.{order_of-least}
use nxos.Buddy.Cover.{pow2_pos, pow2_lt, pow2_mono, covers, covers_self}
use nxos.Buddy.Lists.{marked, free_cover, IsSound}
use nxos.Buddy.Blocks.{del_page-Removed, write_clear-IsSound}
use nxos.Buddy.Split.{Splits, page_split-Splits, length-zone}
use nxos.Buddy.Locate.{Located, NoneFree, locate_free-Located}

-- The free lists hold no page twice.
abbrev pub IsApart : Buddy → Type 0
IsApart s = (p : ℕ) → free_cover s p ≤ 1

-- The page at the head of a block that is in use.
abbrev pub IsUsed : Buddy → (pfn order reference : ℕ) → Type 0
IsUsed s pfn order reference =
    get_elem? s.map pfn ≡ some (record { free = false; order = some order; reference = reference })

-- `s'` is `s` with a block of order `order` at `pfn` taken from the free blocks.
pub record Lent (s : Buddy) (pfn order : ℕ) (s' : Buddy) : Type 0 where
  pub sound : IsSound s'
  pub cover : (p : ℕ) → covers pfn order p + free_cover s' p ≡ free_cover s p
  pub max_same : s'.max_pfn ≡ s.max_pfn
  pub used_more : s'.used_page ≡ s.used_page + pow2 order
  pub others : (b : ℕ) → free_cover s b ≡ 0 → get_elem? s'.map b ≡ get_elem? s.map b
  pub used : IsUsed s' pfn order 1
  pub fits : pfn + pow2 order ≤ length s'.map

marked-pos :
    (page : Page) (k : ℕ) → 0 < marked (some page) k → (page.free ≡ true) × (page.order ≡ some k)
marked-pos page k h = elim (Bool-cases page.free) [
  | inr e ↦ absurd (ground (arith, h, e))
  | inl e ↦ (e, order page.order (ground (arith, h, e)))
]
  where
    order : (o : Option ℕ) → 0 < (if is_order o k then 1 else 0) → o ≡ some k
    order none pos = absurd (ground (arith, pos))
    order (some j) pos = ap some (ground (arith, pos))

pub used_page-IsSound : (s : Buddy) (n : ℕ) → IsSound s → IsSound (record s { used_page = n })
used_page-IsSound s n sound = record {
  orders_nr = sound.orders_nr;
  size = sound.size;
  listed = sound.listed;
}

pow2_le : (n k : ℕ) → n ≤ k → pow2 n ≤ pow2 k
pow2_le n k le =
    subst (λ x. pow2 n ≤ pow2 x) {x = n + (k - n)} {y = k} (omega arith) (pow2_mono n (k - n))

-- The block taken from a free list, cut to the order asked for.
cut :
    (s : Buddy) (pfn j order : ℕ) (page : Page)
    → IsSound s
    → order ≤ j
    → j < 21
    → pfn + pow2 j ≤ length s.map
    → ((p : ℕ) → covers pfn j p + free_cover s p ≤ 1)
    → get_elem? s.map pfn ≡ some page
    → page.free ≡ false
    → page.order ≡ some j
    → (s' : Buddy) × ((if ltb order j then page_split s pfn j order else some s) ≡ some s')
      × Splits s pfn j order s'
      × (get_elem? s'.map pfn ≡ some (record page { order = some order }))
cut s pfn j order page sound le lt fits apart at busy is = elim (dec_lt order j) [
  | yes less ↦
      let (s', run, splits, head) =
        page_split-Splits s pfn j order page sound le lt fits apart at busy in
      let b : ltb order j ≡ true = ground (arith, less) in (s', rw b run, splits, head)
  | no ge ↦
      let b : ltb order j ≡ false = ground (arith, ge) in
      let e : j ≡ order = omega (arith, ge, le) in
      (
        s,
        rw b refl,
        record {
          sound = sound;
          cover = λ p. ap (λ x. covers pfn x p + free_cover s p) (sym e);
          zone = record { max_same = refl; start_same = refl; used_same = refl };
          others = λ b away. refl;
        },
        at ∙ ap (λ o. some (record page { order = o })) (is ∙ ap some e),
      )
]

pub page_prepare_used-Lent :
    (s : Buddy) (pfn j order : ℕ) (page : Page)
    → IsSound s
    → IsApart s
    → order ≤ j
    → j < 21
    → get_elem? s.map pfn ≡ some page
    → page.free ≡ true
    → page.order ≡ some j
    → (s' : Buddy) × (page_prepare_used s pfn order ≡ some (s', some pfn)) × Lent s pfn order s'
unfolding page_prepare_used
page_prepare_used-Lent s pfn j order page sound apart le lt at free is =
    let (s1, gone) = del_page-Removed s pfn j page sound lt at free is in
    let long = length-zone s s1 sound gone.sound gone.zone in
    let (s2, run, splits, head) =
      cut s1 pfn j order (record page { free = false }) gone.sound le lt gone.inside
        (λ p. omega (arith, gone.cover p, apart p)) gone.now refl is in
    let used : Page = record { free = false; order = some order; reference = 1 } in
    let cover : (p : ℕ) → covers pfn order p + free_cover s2 p ≡ free_cover s p =
      λ p. omega (arith, splits.cover p, gone.cover p) in
    (
      record (write_page s2 pfn used) { used_page = s2.used_page + pow2 order },
      rw gone.run (rw gone.now (rw is (rw run (rw head refl)))),
      record {
        sound = used_page-IsSound (write_page s2 pfn used) (s2.used_page + pow2 order) (
            write_clear-IsSound s2 pfn
              (record { free = false; order = some order; reference = page.reference }) used
              splits.sound head (omega (arith, cover pfn, apart pfn, covers_self pfn order))
              (λ k. refl));
        cover = cover;
        max_same = splits.zone.max_same ∙ gone.zone.max_same;
        used_more = ap (λ x. x + pow2 order) (splits.zone.used_same ∙ gone.zone.used_same);
        others = λ b clear.
            let away : covers pfn j b ≡ 0 = omega (arith, gone.cover b, clear) in
            let diff : b ≢ pfn =
              λ e. absurd (omega (arith, away, ap (λ x. covers pfn j x) e, covers_self pfn j)) in
            get_elem?-set_ne s2.map pfn b used (λ e. diff (sym e))
            ∙ splits.others b away
            ∙ gone.others b diff;
        used = get_elem?-set_self s2.map pfn used (get_elem?-lt s2.map pfn head);
        fits = omega (
          arith,
          gone.inside,
          pow2_le order j le,
          length-zone s1 s2 gone.sound splits.sound splits.zone,
          length-set s2.map pfn used,
        );
      },
    )

count_pos : (n : ℕ) → 0 < n → (n == 0) ≡ false
count_pos n pos = ground (arith, pos)

-- What `alloc_page` does from `s`, and that it returns.
abbrev pub AllocOutcome : Buddy → (count : ℕ) → Type 0
AllocOutcome s count =
    ((alloc_page s count ≡ some (s, none)) × NoneFree s (order_of count))
    ⊎ ((s' : Buddy) × (pfn : ℕ) × (alloc_page s count ≡ some (s', some pfn))
        × Lent s pfn (order_of count) s')

-- A sound system with a page in no free list twice, and a count of pages that is not 0 and whose order the
-- system has: `alloc_page` finds that no order from that on has a free block and changes nothing, or it
-- returns the first page of a block of that order, whose pages were free and are the only ones that are
-- not free any more; every page that no free block held keeps its state, the count of used pages grows by
-- the block and the system is sound.
pub alloc_page-outcome :
    (s : Buddy) (count : ℕ)
    → IsSound s
    → IsApart s
    → 0 < count
    → order_of count < 21
    → AllocOutcome s count
unfolding alloc_page prepare
alloc_page-outcome s count sound apart pos lt =
    outcome (locate_free-Located s (order_of count) sound lt)
  where
    nonzero : (count == 0) ≡ false
    nonzero = count_pos count pos

    prepared :
        (pfn j : ℕ) (o : Order)
        → locate_free s (order_of count) ≡ some (some pfn)
        → Located s (order_of count) pfn j o
        → ((page : Page) × (get_elem? s.map pfn ≡ some page))
        → AllocOutcome s count
    prepared pfn j o run found (page, at) =
        let j_lt : j < 21 = omega (arith, get_elem?-lt s.orders j found.listed, sound.orders_nr) in
        let ok = sound.listed j o found.listed in
        let (free, is) =
          marked-pos page j
            (subst (λ x. 0 < marked x j) at (omega (arith, ok.linked pfn, found.there))) in
        let (s', prepare_run, lent) =
          page_prepare_used-Lent s pfn j (order_of count) page sound apart found.large j_lt at free
            is in
        inr (s', pfn, rw nonzero (rw run prepare_run), lent)

    outcome :
        ((locate_free s (order_of count) ≡ some none) × NoneFree s (order_of count))
          ⊎ ((pfn : ℕ) × (j : ℕ) × (o : Order) × (locate_free s (order_of count) ≡ some (some pfn))
              × Located s (order_of count) pfn j o)
        → AllocOutcome s count
    outcome (inl (run, nothing)) = inl (rw nonzero (rw run refl), nothing)
    outcome (inr (pfn, j, o, run, found)) = prepared pfn j o run found (
        get_elem?-total s.map pfn
          (omega (arith, (sound.listed j o found.listed).inside pfn found.there, pow2_pos j)))

order_none : (s : Buddy) (k : ℕ) → IsSound s → 21 ≤ k → get_elem? s.orders k ≡ none
order_none s k sound ge = elim (Option-cases (get_elem? s.orders k)) [
  | inl e ↦ e
  | inr (o, e) ↦ absurd (omega (arith, get_elem?-lt s.orders k e, sound.orders_nr, ge))
]

locate_none : (s : Buddy) (k : ℕ) → get_elem? s.orders k ≡ none → locate_free s k ≡ none
unfolding locate_free
locate_none s k e = rw (e, locate_free) refl

-- A sound system and a count of pages above that of the largest order: `alloc_page` reads past the free
-- lists instead of finding that it has no such block.
pub alloc_page-large :
    (s : Buddy) (count : ℕ)
    → IsSound s
    → pow2 20 < count
    → count < pow2 62
    → alloc_page s count ≡ none
unfolding alloc_page
alloc_page-large s count sound large lt =
    let (fits, least) = order_of-least count (omega (arith, large)) lt in
    let big : 21 ≤ order_of count = pow2_lt 20 (order_of count) (omega (arith, fits, large)) in
    let out : locate_free s (order_of count) ≡ none =
      locate_none s (order_of count) (order_none s (order_of count) sound big) in
    rw (count_pos count (omega (arith, large))) (ap (λ x. x >>= prepare s (order_of count)) out)
