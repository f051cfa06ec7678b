-- ===== src/Buddy/Tiling.antt =====
-- Every operation of src/mm/buddy.c keeps the zone tiled.
use nxos.Base.{
  ℕ, zero, suc, ◌+◌, ◌<◌, ◌≡◌, ◌≢◌, refl, ap, sym, subst, ◌∙◌, ◌⊎◌, inl, inr, none, some, List, [],
  ◌∷◌, ltb, arith, if◌then◌else◌, get_elem?, set, length, ℕ_discrete, get_elem?-lt,
  get_elem?-set_self, get_elem?-set_ne,
}
use nxos.Buddy.{pow2, order_of, Buddy, alloc_page}
use nxos.Buddy.Cover.{covers, covers_self, cover_from}
use nxos.Buddy.Lists.{free_cover, IsSound}
use nxos.Buddy.Locate.{NoneFree}
use nxos.Buddy.Alloc.{Lent, AllocOutcome, alloc_page-outcome}
use nxos.Buddy.Free.{Recounted}
use nxos.Buddy.System.{
  Block, lent_cover, lent_pages, IsHeld, IsTiled, cover-get, tile_le, lent_apart,
}

pub length-max :
    (s s' : Buddy) → IsSound s → IsSound s' → s'.max_pfn ≡ s.max_pfn → length s'.map ≡ length s.map
length-max s s' a b same = b.size ∙ ap suc same ∙ sym a.size

-- A page of a block lent is in no free block.
lent_clear :
    (base : ℕ) (s : Buddy) (lent : List Block) (i : ℕ) (b : Block)
    → IsTiled base s lent
    → get_elem? lent i ≡ some b
    → free_cover s b.pfn ≡ 0
lent_clear base s lent i b tiled is = omega (
  arith,
  tile_le s lent b.pfn (tiled.covered b.pfn),
  cover-get lent i b b.pfn is,
  covers_self b.pfn b.order,
)

pub zone_cover :
    (s s' : Buddy) (p n : ℕ)
    → s'.max_pfn ≡ s.max_pfn
    → n ≡ (if ltb s.max_pfn p then 0 else 1)
    → n ≡ (if ltb s'.max_pfn p then 0 else 1)
zone_cover s s' p n same h = h ∙ ap (λ x. if ltb x p then 0 else 1) (sym same)

abbrev pub AllocTiled : (base : ℕ) → Buddy → List Block → (count : ℕ) → Type 0
AllocTiled base s lent count =
    ((alloc_page s count ≡ some (s, none)) × NoneFree s (order_of count))
    ⊎ ((s' : Buddy) × (pfn : ℕ) × (alloc_page s count ≡ some (s', some pfn))
        × IsTiled base s' (record { pfn = pfn; order = order_of count; reference = 1 } ∷ lent))

-- A tiled zone and a count of pages that is not 0 and whose order the zone has: `alloc_page` either finds
-- that no order from that on has a free block and changes nothing, or it returns a block of that order,
-- which with the blocks lent before tiles the zone.
pub alloc_page-IsTiled :
    (base : ℕ) (s : Buddy) (lent : List Block) (count : ℕ)
    → IsTiled base s lent
    → 0 < count
    → order_of count < 21
    → AllocTiled base s lent count
alloc_page-IsTiled base s lent count tiled pos lt = outcome (
    alloc_page-outcome s count tiled.sound (λ p. omega (arith, tile_le s lent p (tiled.covered p)))
      pos lt)
  where
    new : ℕ → Block
    new pfn = record { pfn = pfn; order = order_of count; reference = 1 }

    holds :
        (s' : Buddy) (pfn : ℕ)
        → Lent s pfn (order_of count) s'
        → (i : ℕ) (b : Block) → get_elem? (new pfn ∷ lent) i ≡ some b
        → IsHeld s' b
    holds s' pfn l zero b is =
        let e : new pfn ≡ b = ground (arith, is) in
        subst (λ x. IsHeld s' x) e
          (record { used = l.used; fits = l.fits; referenced = omega arith })
    holds s' pfn l (suc i) b is =
        let h = tiled.held i b is in
        record {
          used = l.others b.pfn (lent_clear base s lent i b tiled is) ∙ h.used;
          fits = omega (arith, h.fits, length-max s s' tiled.sound l.sound l.max_same);
          referenced = h.referenced;
        }

    same_cover :
        (s' : Buddy) (pfn : ℕ)
        → Lent s pfn (order_of count) s'
        → (p : ℕ)
        → free_cover s' p + lent_cover (new pfn ∷ lent) p ≡ free_cover s p + lent_cover lent p
    same_cover s' pfn l p = omega (arith, l.cover p)

    outcome : AllocOutcome s count → AllocTiled base s lent count
    outcome (inl nothing) = inl nothing
    outcome (inr (s', pfn, run, l)) = inr (
      s',
      pfn,
      run,
      record {
        sound = l.sound;
        small = omega (arith, tiled.small, length-max s s' tiled.sound l.sound l.max_same);
        covered = λ p.
            zone_cover s s' p (free_cover s' p + lent_cover (new pfn ∷ lent) p) l.max_same
              (same_cover s' pfn l p ∙ tiled.covered p);
        held = holds s' pfn l;
        counted = omega (arith, l.used_more, tiled.counted);
      },
    )

set_cover :
    (lent : List Block) (i : ℕ) (b : Block) (r p : ℕ)
    → get_elem? lent i ≡ some b
    → lent_cover (set lent i (record b { reference = r })) p ≡ lent_cover lent p
set_cover [] i b r p is = refl
set_cover (a ∷ bs) zero b r p is =
    let e : b ≡ a = ground (arith, is) in ap (λ x. covers x.pfn x.order p + lent_cover bs p) e
set_cover (a ∷ bs) (suc i) b r p is = omega (arith, set_cover bs i b r p is)

set_pages :
    (lent : List Block) (i : ℕ) (b : Block) (r : ℕ)
    → get_elem? lent i ≡ some b
    → lent_pages (set lent i (record b { reference = r })) ≡ lent_pages lent
set_pages [] i b r is = refl
set_pages (a ∷ bs) zero b r is =
    let e : b ≡ a = ground (arith, is) in ap (λ x. pow2 x.order + lent_pages bs) e
set_pages (a ∷ bs) (suc i) b r is = omega (arith, set_pages bs i b r is)

-- The blocks lent with another count of references of one.
pub Recounted-IsTiled :
    (base : ℕ) (s : Buddy) (lent : List Block) (i : ℕ) (b : Block) (r : ℕ) (s' : Buddy)
    → IsTiled base s lent
    → get_elem? lent i ≡ some b
    → 0 < r
    → Recounted s b.pfn b.order r s'
    → IsTiled base s' (set lent i (record b { reference = r }))
Recounted-IsTiled base s lent i b r s' tiled is pos re = record {
  sound = re.sound;
  small = omega (arith, tiled.small, long);
  covered = λ p.
      zone_cover s s' p (free_cover s' p + lent_cover (set lent i new) p) re.max_same
        (same_cover p ∙ tiled.covered p);
  held = λ j c at. elim (ℕ_discrete i j) [
    | yes e ↦
        let same : new ≡ c = ground (
          arith,
          at,
          subst (λ x. get_elem? (set lent i new) x ≡ some new) e
              (get_elem?-set_self lent i new (get_elem?-lt lent i is)),
        ) in
        subst (λ x. IsHeld s' x) same
          (record {
            used = re.used;
            fits = omega (arith, (tiled.held i b is).fits, long);
            referenced = pos;
          })
    | no ne ↦
        let was = sym (get_elem?-set_ne lent i j new ne) ∙ at in
        let h = tiled.held j c was in
        record {
          used = re.others c.pfn (apart j c ne was) ∙ h.used;
          fits = omega (arith, h.fits, long);
          referenced = h.referenced;
        }
  ];
  counted = omega (arith, re.used_same, tiled.counted, set_pages lent i b r is);
}
  where
    new : Block
    new = record b { reference = r }

    long : length s'.map ≡ length s.map
    long = length-max s s' tiled.sound re.sound re.max_same

    same_cover :
        (p : ℕ)
        → free_cover s' p + lent_cover (set lent i new) p ≡ free_cover s p + lent_cover lent p
    same_cover p =
        omega (arith, ap (λ x. cover_from 0 x p) re.same_orders, set_cover lent i b r p is)

    apart : (j : ℕ) (c : Block) → i ≢ j → get_elem? lent j ≡ some c → b.pfn ≢ c.pfn
    apart j c ne at e = absurd (
        omega (
          arith,
          lent_apart base s lent i j b c b.pfn tiled ne is at,
          covers_self b.pfn b.order,
          covers_self c.pfn c.order,
          ap (λ x. covers c.pfn c.order x) e,
        ))
