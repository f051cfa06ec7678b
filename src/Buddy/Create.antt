-- ===== src/Buddy/Create.antt =====
-- `NX_BuddyCreate` of src/mm/buddy.c on a machine of 64 bits: `held` is what the memory has where the page
-- map is laid out, which the code only gives an order.
use nxos.Base.{
  ℕ, zero, suc, ◌+◌, ◌-◌, ◌*◌, ◌/◌, ◌%◌, ◌≤◌, ◌<◌, ◌≡◌, refl, ap, sym, subst, ◌∙◌, true, false,
  ◌||◌, ◌&&◌, leb, Option, none, some, List, [], ◌∷◌, ltb, ◌==◌, arith, if◌then◌else◌, get_elem?,
  length, replicate, get_elem?-total, ◌>>=◌, page_size, word, sub_word, dec_lt,
}
use nxos.Buddy.{pow2, fls_size, max_page_order, Page, Order, Buddy, add_page, write_page}
use nxos.Buddy.Cover.{pow2_pos, pow2_lt, cover_from}
use nxos.Buddy.Bits.{fls_size-IsHighest, IsHighest}
use nxos.Buddy.Lists.{marked, free_cover, OrderIsSound, IsSound}
use nxos.Buddy.Blocks.{SameZone, SameZone-trans, add_page-Added}
use nxos.Buddy.Split.{length-zone}
use nxos.Buddy.System.{IsTiled}

-- `sizeof(NX_BuddySystem)` and `sizeof(NX_Page)`.
abbrev pub system_size : ℕ
system_size = 536

abbrev pub page_struct_size : ℕ
page_struct_size = 40

-- `BuddyAlignUp` and `BuddyAlignPtr` by a power of 2.
abbrev pub align_up : (x align : ℕ) → ℕ
align_up x align = (x + (align - 1)) / align * align

-- Where `NX_BuddyCreate` puts the pages, how many they are and how many pages it uses.
pub record Layout : Type 0 where
  pub first : ℕ
  pub pages : ℕ
  pub used : ℕ

unfoldable pub layout : (mem size : ℕ) → Layout
layout mem size =
    let left = sub_word size system_size in
    let map_size = align_up (left / page_size * page_struct_size) page_size in
    let map_end = mem + system_size + map_size in
    let gap = align_up map_end page_size - map_end in
    let rest = sub_word (sub_word left map_size) gap in
    record {
      first = map_end + gap;
      pages = rest / page_size;
      used = sub_word size rest / page_size;
    }

-- The order of the next block for a count of pages.
abbrev pub next_order : (count : ℕ) → ℕ
next_order count = if ltb max_page_order (fls_size count) then max_page_order else fls_size count

-- The loop of `NX_BuddyCreate` from page `i` on with `count` pages left.
unfoldable pub create_loop : Buddy → (i count n : ℕ) → Option Buddy
unfolding add_page
create_loop s i count zero = if count == 0 then some s else none
create_loop s i count (suc n) =
    let rest = get_elem? s.map i >>= λ page.
    add_page (write_page s i (record page { order = some (next_order count) })) i >>= λ s'.
    create_loop s' (i + pow2 (next_order count)) (count - pow2 (next_order count)) n in
    if count == 0 then some s else rest

abbrev pub fill : (ℕ → Page) → (i n : ℕ) → List Page
fill held i zero = []
fill held i (suc n) = record (held i) { order = none } ∷ fill held (suc i) n

-- `NX_BuddyCreate`
unfoldable pub create : (held : ℕ → Page) (mem size : ℕ) → Option Buddy
unfolding layout create_loop
create held mem size =
    if mem == 0 || size == 0
    then none
    else create_loop
        (record {
          orders = replicate 21 (record { pages = []; count = 0; bit = false });
          map = fill held 0 (layout mem size).pages;
          page_start = (layout mem size).first;
          max_pfn = sub_word (layout mem size).pages 1;
          used_page = (layout mem size).used;
        })
        0 (layout mem size).pages (layout mem size).pages

-- The header, the page map and the pages lie one behind the other in the memory, the pages at an address of
-- a page, for a memory of at least four pages below the end of the addresses.
pub layout-fits :
    (mem size : ℕ)
    → 16384 ≤ size
    → mem + size < pow2 64
    → ((layout mem size).first % page_size ≡ 0)
      × (mem + system_size + (layout mem size).pages * page_struct_size ≤ (layout mem size).first)
      × ((layout mem size).first + (layout mem size).pages * page_size ≤ mem + size)
      × (0 < (layout mem size).pages)
unfolding layout
layout-fits mem size large below = (
  omega arith,
  omega (arith, large, below),
  omega (arith, large, below),
  omega (arith, large, below),
)

next_order-facts :
    (count : ℕ)
    → 0 < count
    → count < pow2 64
    → (next_order count < 21) × (pow2 (next_order count) ≤ count)
next_order-facts count pos lt = facts (fls_size count) (fls_size-IsHighest count pos lt)
  where
    facts :
        (f : ℕ)
        → IsHighest count f
        → ((if ltb max_page_order f then max_page_order else f) < 21)
          × (pow2 (if ltb max_page_order f then max_page_order else f) ≤ count)
    facts f top = elim (dec_lt max_page_order f) [
      | yes big ↦
          let b : ltb max_page_order f ≡ true = ground (arith, big) in rw b (omega arith, large big)
      | no small ↦
          let b : ltb max_page_order f ≡ false = ground (arith, small) in
          rw b (omega (arith, small), top.low)
    ]
      where
        large : max_page_order < f → pow2 max_page_order ≤ count
        large big = elim (dec_lt count (pow2 max_page_order)) [
          | no ge ↦ omega (arith, ge)
          | yes under ↦
              absurd (omega (arith, big, pow2_lt f max_page_order (omega (arith, top.low, under))))
        ]

-- The pages before `i` are free, each in one block, and the rest are in none.
abbrev FreeBelow : Buddy → ℕ → Type 0
FreeBelow s i = (p : ℕ) → free_cover s p ≡ (if ltb p i then 1 else 0)

abbrev CreateOutcome : Buddy → (i count n : ℕ) → Type 0
CreateOutcome s i count n =
    (s' : Buddy) × (create_loop s i count n ≡ some s')
    × IsSound s'
    × FreeBelow s' (i + count)
    × SameZone s s'

create_loop-FreeBelow :
    (s : Buddy) (i count n : ℕ)
    → IsSound s
    → FreeBelow s i
    → i + count ≡ length s.map
    → count ≤ n
    → count < pow2 64
    → CreateOutcome s i count n
unfolding create_loop
create_loop-FreeBelow s i count zero sound free whole few lt =
    let e : (count == 0) ≡ true = ground (arith, few) in
    (
      s,
      rw e refl,
      sound,
      (λ p.
          subst (λ x. free_cover s p ≡ (if ltb p x then 1 else 0)) {x = i} (omega (arith, few))
            (free p)),
      record { max_same = refl; start_same = refl; used_same = refl },
    )
create_loop-FreeBelow s i count (suc n) sound free whole few lt = elim (dec_lt 0 count) [
  | no none_left ↦
      let e : (count == 0) ≡ true = ground (arith, none_left) in
      (
        s,
        rw e refl,
        sound,
        (λ p.
            subst (λ x. free_cover s p ≡ (if ltb p x then 1 else 0)) {x = i}
              (omega (arith, none_left)) (free p)),
        record { max_same = refl; start_same = refl; used_same = refl },
      )
  | yes left ↦
      let (k_lt, k_le) = next_order-facts count left lt in
      let (page, at) = get_elem?-total s.map i (omega (arith, whole, left)) in
      let clear : free_cover s i ≡ 0 = free i ∙ below i in
      let (s1, added) =
        add_page-Added s i (next_order count) page sound k_lt at clear
          (omega (arith, whole, k_le)) in
      let long = length-zone s s1 sound added.sound added.zone in
      let (s2, run, sound2, free2, zone) =
        create_loop-FreeBelow s1 (i + pow2 (next_order count)) (count - pow2 (next_order count)) n
          added.sound
          (λ p. added.cover p ∙ grown p (free_cover s p) (pow2 (next_order count)) (free p))
          (omega (arith, whole, long, k_le)) (omega (arith, few, pow2_pos (next_order count)))
          (omega (arith, lt)) in
      let e : (count == 0) ≡ false = nonzero count left in
      let total : i + pow2 (next_order count) + (count - pow2 (next_order count)) ≡ i + count =
        omega (arith, k_le) in
      (
        s2,
        rw e (rw at (rw added.run run)),
        sound2,
        (λ p. subst (λ x. free_cover s2 p ≡ (if ltb p x then 1 else 0)) total (free2 p)),
        SameZone-trans added.zone zone,
      )
]
  where
    below : (a : ℕ) → ◌≡◌ {A = ℕ} (if ltb a a then 1 else 0) 0
    below a = ground arith

    grown :
        (p c w : ℕ)
        → c ≡ (if ltb p i then 1 else 0)
        → ◌≡◌ {A = ℕ}
            ((if leb i p && ltb p (i + w) then 1 else 0) + c)
            (if ltb p (i + w) then 1 else 0)
    grown p c w h = ground (arith, h)

    nonzero : (c : ℕ) → 0 < c → (c == 0) ≡ false
    nonzero c pos = ground (arith, pos)

-- A page map without orders and empty free lists.
fill_get :
    (held : ℕ → Page) (i n p : ℕ) (page : Page)
    → get_elem? (fill held i n) p ≡ some page
    → page.order ≡ none
fill_get held i zero p page at = absurd (ground (arith, at))
fill_get held i (suc n) zero page at = ground (arith, at)
fill_get held i (suc n) (suc p) page at = fill_get held (suc i) n p page at

fill_length : (held : ℕ → Page) (i n : ℕ) → length (fill held i n) ≡ n
fill_length held i zero = refl
fill_length held i (suc n) = ap suc (fill_length held (suc i) n)

abbrev bare_order : Order
bare_order = record { pages = []; count = 0; bit = false }

bare_get : (k n : ℕ) (o : Order) → get_elem? (replicate n bare_order) k ≡ some o → bare_order ≡ o
bare_get k zero o is = absurd (ground (arith, is))
bare_get zero (suc n) o is = ground (arith, is)
bare_get (suc k) (suc n) o is = bare_get k n o is

bare-IsSound :
    (held : ℕ → Page) (n start used : ℕ)
    → 0 < n
    → n < word
    → IsSound (record {
      orders = replicate 21 bare_order;
      map = fill held 0 n;
      page_start = start;
      max_pfn = sub_word n 1;
      used_page = used;
    })
bare-IsSound held n start used pos lt = record {
  orders_nr = refl;
  size = omega (arith, fill_length held 0 n, pos, lt);
  listed = λ k o is.
      subst (λ x. OrderIsSound (fill held 0 n) k x) (bare_get k 21 o is)
        (record {
          counted = refl;
          bit_right = refl;
          linked = λ pfn. sym (unmarked k (get_elem? (fill held 0 n) pfn) (fill_get held 0 n pfn));
          inside = λ pfn h. absurd (omega (arith, h));
        });
}
  where
    unmarked :
        (k : ℕ) (o : Option Page)
        → ((page : Page) → o ≡ some page → page.order ≡ none)
        → marked o k ≡ 0
    unmarked k none h = refl
    unmarked k (some page) h = ground (arith, h page refl)

-- A memory of at least four pages and less than 8 GB, not at address 0 and below the end of the addresses:
-- `create` returns a zone of the place and the count of pages that `layout` gives, which is sound and in
-- which each page is in one free block.
pub create-IsTiled :
    (held : ℕ → Page) (mem size : ℕ)
    → 0 < mem
    → 16384 ≤ size
    → size < pow2 33
    → mem + size < word
    → (s : Buddy) × (create held mem size ≡ some s)
      × IsTiled s.used_page s []
      × (suc s.max_pfn ≡ (layout mem size).pages)
      × (s.page_start ≡ (layout mem size).first)
unfolding create
create-IsTiled held mem size at large small below =
    let (aligned, before, after, some_pages) = layout-fits mem size large (omega (arith, below)) in
    made (layout mem size) some_pages (omega (arith, before, after, small))
  where
    made :
        (l : Layout)
        → 0 < l.pages
        → l.pages < pow2 21
        → (s : Buddy) × ((if mem == 0 || size == 0
              then none
              else create_loop
                  (record {
                    orders = replicate 21 (record { pages = []; count = 0; bit = false });
                    map = fill held 0 l.pages;
                    page_start = l.first;
                    max_pfn = sub_word l.pages 1;
                    used_page = l.used;
                  })
                  0
                  l.pages
                  l.pages)
            ≡ some s)
          × IsTiled s.used_page s []
          × (suc s.max_pfn ≡ l.pages)
          × (s.page_start ≡ l.first)
    made l pos few =
        let start : Buddy = record {
          orders = replicate 21 (record { pages = []; count = 0; bit = false });
          map = fill held 0 l.pages;
          page_start = l.first;
          max_pfn = sub_word l.pages 1;
          used_page = l.used;
        } in
        let sound = bare-IsSound held l.pages l.first l.used pos (omega (arith, few)) in
        let long = fill_length held 0 l.pages in
        let (s, run, ok, free, zone) =
          create_loop-FreeBelow start 0 l.pages l.pages sound (λ p. bare_cover p)
            (omega (arith, long)) (omega arith) (omega (arith, few)) in
        let guard : (mem == 0 || size == 0) ≡ false = ground (arith, at, large) in
        let max : suc s.max_pfn ≡ l.pages = omega (arith, zone.max_same, few, pos) in
        (
          s,
          rw guard run,
          record {
            sound = ok;
            small = omega (arith, ok.size, max, few);
            covered = λ p. omega (arith, free p) ∙ all_free s.max_pfn l.pages p max;
            held = λ i b is. absurd (ground (arith, is));
            counted = omega arith;
          },
          max,
          zone.start_same,
        )
      where
        bare_cover : (p : ℕ) → cover_from 0 (replicate 21 bare_order) p ≡ (if ltb p 0 then 1 else 0)
        bare_cover p = ground arith

        all_free :
            (m n p : ℕ)
            → suc m ≡ n
            → ◌≡◌ {A = ℕ} (if ltb p (0 + n) then 1 else 0) (if ltb m p then 0 else 1)
        all_free m n p e = ground (arith, e)
