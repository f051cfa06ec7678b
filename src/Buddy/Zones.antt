-- ===== src/Buddy/Zones.antt =====
-- src/mm/page.c: the zones of pages, each a buddy system. An entry is `none` until the zone is set up. The
-- addresses that the callers see are those of page numbers in a zone.
use nxos.Base.{
  ℕ, ◌+◌, ◌≡◌, ◌≢◌, refl, sym, Option, some, List, get_elem?, set, ◌>>=◌, Error, eok, eagain,
  if◌then◌else◌, ◌==◌, get_elem?-set_self, get_elem?-set_ne, get_elem?-lt,
}
use nxos.Buddy.{Page, Buddy, alloc_page, free_page, increase_page}
use nxos.Buddy.Create.{create}
use nxos.Buddy.System.{Block, IsTiled}
use nxos.Buddy.Reach.{given_back, free_page-IsTiled}

-- `buddySystemArray`
abbrev pub Zones : Type 0
Zones = List (Option Buddy)

abbrev pub zone_at : Zones → (zone : ℕ) → Option Buddy
zone_at zs zone = get_elem? zs zone >>= λ z. z

-- An operation on the system of a zone.
abbrev pub in_zone :
    {A : Type 0} → Zones → (zone : ℕ) → (Buddy → Option (Buddy × A)) → Option (Zones × A)
in_zone zs zone f = do s ← zone_at zs zone; r ← f s; some (set zs zone (some r.0), r.1)

-- `NX_PageInitZone`
unfoldable pub page_init_zone : (held : ℕ → Page) → Zones → (zone mem size : ℕ) → Option Zones
unfolding create
page_init_zone held zs zone mem size = do
  z ← get_elem? zs zone
  s ← create held mem size
  some (set zs zone (some s))

-- `NX_PageAllocInZone`, `NX_PageFreeInZone` and `NX_PageIncreaseInZone`
unfoldable pub page_alloc_in_zone : Zones → (zone count : ℕ) → Option (Zones × Option ℕ)
unfolding alloc_page
page_alloc_in_zone zs zone count = in_zone zs zone (λ s. alloc_page s count)

unfoldable pub page_free_in_zone : Zones → (zone pfn : ℕ) → Option (Zones × Error)
unfolding free_page
page_free_in_zone zs zone pfn = in_zone zs zone (λ s. free_page s pfn)

unfoldable pub page_increase_in_zone : Zones → (zone pfn : ℕ) → Option (Zones × Error)
unfolding increase_page
page_increase_in_zone zs zone pfn = in_zone zs zone (λ s. increase_page s pfn)

-- `NX_PageZoneGetBase` and `NX_PageZoneGetPages`
unfoldable pub page_zone_get_base : Zones → (zone : ℕ) → Option ℕ
page_zone_get_base zs zone = zone_at zs zone >>= λ s. some s.page_start

unfoldable pub page_zone_get_pages : Zones → (zone : ℕ) → Option ℕ
page_zone_get_pages zs zone = zone_at zs zone >>= λ s. some (s.max_pfn + 1)

-- `NX_PageGetTotal` and `NX_PageGetUsed`, of the zone NX_PAGE_ZONE_NORMAL.
unfoldable pub page_get_total : Zones → Option ℕ
page_get_total zs = zone_at zs 0 >>= λ s. some (s.max_pfn + 1)

unfoldable pub page_get_used : Zones → Option ℕ
page_get_used zs = zone_at zs 0 >>= λ s. some s.used_page

-- A block given back in a zone leaves that zone tiled and every other zone as it was.
pub page_free_in_zone-IsTiled :
    (base : ℕ) (zs : Zones) (zone : ℕ) (s : Buddy) (lent : List Block) (i : ℕ) (b : Block)
    → get_elem? zs zone ≡ some (some s)
    → IsTiled base s lent
    → get_elem? lent i ≡ some b
    → (zs' : Zones) × (s' : Buddy) × (e : Error) × (page_free_in_zone zs zone b.pfn ≡ some (zs', e))
      × (get_elem? zs' zone ≡ some (some s'))
      × IsTiled base s' (given_back lent i b)
      × ((other : ℕ) → other ≢ zone → get_elem? zs' other ≡ get_elem? zs other)
unfolding page_free_in_zone
page_free_in_zone-IsTiled base zs zone s lent i b at tiled is =
    let (s', run, ok) = free_page-IsTiled base s lent i b tiled is in
    (
      set zs zone (some s'),
      s',
      if b.reference == 1 then eok else eagain,
      rw at (rw run refl),
      get_elem?-set_self zs zone (some s') (get_elem?-lt zs zone at),
      ok,
      λ other ne. get_elem?-set_ne zs zone other (some s') (λ e. ne (sym e)),
    )
