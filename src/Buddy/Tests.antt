-- ===== src/Buddy/Tests.antt =====
-- A zone of six pages: a block of four and one of two.
use nxos.Base.{
  ℕ, suc, ◌%◌, eagain, ◌+◌, ◌*◌, ◌≤◌, ◌<◌, ◌≡◌, refl, subst, true, Option, none, some, [], ◌∷◌,
  arith, if◌then◌else◌, ◌==◌, eok,
}
use nxos.Buddy.{
  pow2, fls, fls_size, order_of, Page, Buddy, add_page, del_page, locate_free, split_loop,
  page_split, page_prepare_used, prepare, alloc_page, free_page,
}
use nxos.Buddy.Bits.{order_of-least}
use nxos.Buddy.Lists.{free_cover, IsSound}
use nxos.Buddy.System.{Block, IsTiled}
use nxos.Buddy.Tiling.{AllocTiled, alloc_page-IsTiled}
use nxos.Buddy.Reach.{
  given_back, free_page-IsTiled, Reach, starts, allocs, Reach-IsTiled, free_page-alloc_page,
}
use nxos.Buddy.Create.{layout, create_loop, create, layout-fits, create-IsTiled}

-- Memory that looks like free pages.
abbrev garbage : ℕ → Page
garbage i = record { free = true; order = some 1; reference = 9 }

abbrev made : Option Buddy → Buddy
made none = record { orders = []; map = []; page_start = 0; max_pfn = 0; used_page = 0 }
made (some s) = s

abbrev after : {A : Type 0} → Option (Buddy × A) → Buddy
after none = made none
after (some (s, a)) = s

abbrev zone : Buddy
zone = made (create garbage 4096 32768)

zone_run : create garbage 4096 32768 ≡ some zone
unfolding create layout create_loop add_page fls_size fls
zone_run = refl

zone_used : zone.used_page ≡ 2
unfolding create layout create_loop add_page fls_size fls
zone_used = refl

create-IsTiled_example :
    (s : Buddy) × (create garbage 4096 32768 ≡ some s)
    × IsTiled s.used_page s []
    × (suc s.max_pfn ≡ (layout 4096 32768).pages)
    × (s.page_start ≡ (layout 4096 32768).first)
create-IsTiled_example =
    create-IsTiled garbage 4096 32768 (omega arith) (omega arith) (omega arith) (omega arith)

same_zone : (o : Option Buddy) (s t : Buddy) → o ≡ some s → o ≡ some t → s ≡ t
same_zone o s t a b = ground (arith, a, b)

zone-IsTiled : IsTiled 2 zone []
zone-IsTiled =
    let (s, run, tiled, max, first) =
      create-IsTiled garbage 4096 32768 (omega arith) (omega arith) (omega arith) (omega arith) in
    let e : s ≡ zone = same_zone (create garbage 4096 32768) s zone run zone_run in
    subst (λ n. IsTiled n zone []) zone_used (subst (λ x. IsTiled x.used_page x []) e tiled)

layout-fits_example :
    ((layout 4096 32768).first % 4096 ≡ 0)
    × (4096 + 536 + (layout 4096 32768).pages * 40 ≤ (layout 4096 32768).first)
    × ((layout 4096 32768).first + (layout 4096 32768).pages * 4096 ≤ 4096 + 32768)
    × (0 < (layout 4096 32768).pages)
layout-fits_example = layout-fits 4096 32768 (omega arith) (omega arith)

order_of-least_example : (3 ≤ pow2 (order_of 3)) × ((k : ℕ) → 3 ≤ pow2 k → order_of 3 ≤ k)
order_of-least_example = order_of-least 3 (omega arith) (omega arith)

order_of_3 : order_of 3 ≡ 2
unfolding order_of fls_size fls
order_of_3 = refl

order_lt : order_of 3 < 21
order_lt = omega (arith, order_of_3)

alloc_page-IsTiled_example : AllocTiled 2 zone [] 3
alloc_page-IsTiled_example = alloc_page-IsTiled 2 zone [] 3 zone-IsTiled (omega arith) order_lt

abbrev lent : Buddy
lent = after (alloc_page zone 3)

lent_run : alloc_page zone 3 ≡ some (lent, some 0)
unfolding create layout create_loop add_page del_page order_of fls_size fls locate_free prepare
    page_prepare_used page_split split_loop alloc_page
lent_run = refl

abbrev block : Block
block = record { pfn = 0; order = order_of 3; reference = 1 }

lent_reach : Reach zone lent (block ∷ [])
lent_reach = allocs zone lent [] 3 0 starts (omega arith) order_lt lent_run

Reach-IsTiled_example : IsTiled 2 lent (block ∷ [])
Reach-IsTiled_example = Reach-IsTiled 2 zone lent (block ∷ []) zone-IsTiled lent_reach

lent-IsTiled : IsTiled 2 lent (block ∷ [])
lent-IsTiled = Reach-IsTiled 2 zone lent (block ∷ []) zone-IsTiled lent_reach

free_page-IsTiled_example :
    (s' : Buddy) × (free_page lent 0 ≡ some (s', if block.reference == 1 then eok else eagain))
    × IsTiled 2 s' (given_back (block ∷ []) 0 block)
free_page-IsTiled_example = free_page-IsTiled 2 lent (block ∷ []) 0 block lent-IsTiled refl

free_page-alloc_page_example :
    (t : Buddy) × (free_page lent 0 ≡ some (t, eok))
    × IsSound t
    × ((p : ℕ) → free_cover t p ≡ free_cover zone p)
    × (t.used_page ≡ zone.used_page)
free_page-alloc_page_example =
    free_page-alloc_page 2 zone [] 3 lent 0 zone-IsTiled (omega arith) order_lt lent_run
