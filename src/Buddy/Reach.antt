-- ===== src/Buddy/Reach.antt =====
-- Runs of the operations of src/mm/buddy.c.
use nxos.Base.{
  ℕ, zero, suc, ◌+◌, ◌-◌, ◌<◌, ◌≡◌, refl, ap, subst, ◌∙◌, inl, inr, true, false, Option, some, List,
  [], ◌∷◌, ◌==◌, arith, if◌then◌else◌, get_elem?, set, length, Error, eok, eagain,
}
use nxos.Buddy.{order_of, Buddy, alloc_page, free_page, increase_page}
use nxos.Buddy.Cover.{covers_self}
use nxos.Buddy.Lists.{free_cover, IsSound}
use nxos.Buddy.Alloc.{IsUsed, Lent, AllocOutcome, alloc_page-outcome}
use nxos.Buddy.Merge.{IsOut}
use nxos.Buddy.Free.{Returned, free_page-Returned, free_page-Recounted, increase_page-Recounted}
use nxos.Buddy.System.{
  Block, lent_cover, take_out, IsTiled, take_out-cover, take_out-pages, take_out-get, cover-get,
  tile_le, lent_apart,
}
use nxos.Buddy.Tiling.{length-max, zone_cover, Recounted-IsTiled, AllocTiled, alloc_page-IsTiled}

-- The blocks lent when one reference of a block is given back.
abbrev pub given_back : List Block → ℕ → Block → List Block
given_back lent i b =
    if b.reference == 1
    then take_out lent i
    else set lent i (record b { reference = b.reference - 1 })

Returned-IsTiled :
    (base : ℕ) (s : Buddy) (lent : List Block) (i : ℕ) (b : Block) (s' : Buddy)
    → IsTiled base s lent
    → get_elem? lent i ≡ some b
    → Returned s b.pfn b.order s'
    → IsTiled base s' (take_out lent i)
Returned-IsTiled base s lent i b s' tiled is back = record {
  sound = back.sound;
  small = omega (arith, tiled.small, long);
  covered = λ p.
      zone_cover s s' p (free_cover s' p + lent_cover (take_out lent i) p) back.max_same
        (same_cover p ∙ tiled.covered p);
  held = λ j c at.
      let (k, ne, was) = take_out-get lent i j c at in
      let h = tiled.held k c was in
      record {
        used =
            back.others c.pfn (
              omega (
                arith,
                lent_apart base s lent i k b c c.pfn tiled ne is was,
                covers_self c.pfn c.order,
              ))
            ∙ h.used;
        fits = omega (arith, h.fits, long);
        referenced = h.referenced;
      };
  counted = omega (arith, back.used_less, tiled.counted, take_out-pages lent i b is);
}
  where
    long : length s'.map ≡ length s.map
    long = length-max s s' tiled.sound back.sound back.max_same

    same_cover :
        (p : ℕ)
        → free_cover s' p + lent_cover (take_out lent i) p ≡ free_cover s p + lent_cover lent p
    same_cover p = omega (arith, back.cover p, take_out-cover lent i b p is)

pub lent-IsOut :
    (base : ℕ) (s : Buddy) (lent : List Block) (i : ℕ) (b : Block)
    → IsTiled base s lent
    → get_elem? lent i ≡ some b
    → IsOut s b.pfn b.order
lent-IsOut base s lent i b tiled is = record {
  sound = tiled.sound;
  apart = λ p. omega (arith, tile_le s lent p (tiled.covered p), cover-get lent i b p is);
  fits = (tiled.held i b is).fits;
  small = tiled.small;
}

-- A block lent in a tiled zone: `free_page` returns, with eok where that was the last reference and eagain
-- otherwise, and the zone is tiled by the free blocks and the blocks that stay lent.
pub free_page-IsTiled :
    (base : ℕ) (s : Buddy) (lent : List Block) (i : ℕ) (b : Block)
    → IsTiled base s lent
    → get_elem? lent i ≡ some b
    → (s' : Buddy) × (free_page s b.pfn ≡ some (s', if b.reference == 1 then eok else eagain))
      × IsTiled base s' (given_back lent i b)
free_page-IsTiled base s lent i b tiled is =
    by b.reference refl (tiled.held i b is).used (tiled.held i b is).referenced
  where
    Goal : Type 0
    Goal =
        (s' : Buddy) × (free_page s b.pfn ≡ some (s', if b.reference == 1 then eok else eagain))
        × IsTiled base s' (given_back lent i b)

    by : (r : ℕ) → b.reference ≡ r → IsUsed s b.pfn b.order r → 0 < r → Goal
    by zero e used pos = absurd (omega (arith, pos))
    by (suc zero) e used pos =
        let (s', run, back) =
          free_page-Returned s b.pfn b.order (lent-IsOut base s lent i b tiled is) used in
        let one : (b.reference == 1) ≡ true = ap (λ x. x == 1) e in
        (s', rw one run, rw one (Returned-IsTiled base s lent i b s' tiled is back))
    by (suc (suc r)) e used pos =
        let (s', run, re) = free_page-Recounted s b.pfn b.order r tiled.sound used in
        let more : (b.reference == 1) ≡ false = ap (λ x. x == 1) e ∙ ground arith in
        let less : suc r ≡ b.reference - 1 = omega (arith, e) in
        (
          s',
          rw more run,
          rw more (
              subst (λ x. IsTiled base s' (set lent i (record b { reference = x }))) less
                (Recounted-IsTiled base s lent i b (suc r) s' tiled is (omega arith) re)),
        )

-- A block lent in a tiled zone: `increase_page` returns eok, and the zone is tiled with one more reference
-- of the block.
pub increase_page-IsTiled :
    (base : ℕ) (s : Buddy) (lent : List Block) (i : ℕ) (b : Block)
    → IsTiled base s lent
    → get_elem? lent i ≡ some b
    → (s' : Buddy) × (increase_page s b.pfn ≡ some (s', eok))
      × IsTiled base s' (set lent i (record b { reference = b.reference + 1 }))
increase_page-IsTiled base s lent i b tiled is =
    let (s', run, re) =
      increase_page-Recounted s b.pfn b.order b.reference tiled.sound (tiled.held i b is).used in
    (s', run, Recounted-IsTiled base s lent i b (b.reference + 1) s' tiled is (omega arith) re)

-- The states that runs of the operations reach, with the blocks lent.
pub data Reach (start : Buddy) : Buddy → List Block → Type 0 where
  starts : Reach start start []
  allocs :
      (s s' : Buddy) (lent : List Block) (count pfn : ℕ)
      → Reach start s lent
      → 0 < count
      → order_of count < 21
      → alloc_page s count ≡ some (s', some pfn)
      → Reach start s' (record { pfn = pfn; order = order_of count; reference = 1 } ∷ lent)
  increases :
      (s s' : Buddy) (lent : List Block) (i : ℕ) (b : Block) (e : Error)
      → Reach start s lent
      → get_elem? lent i ≡ some b
      → increase_page s b.pfn ≡ some (s', e)
      → Reach start s' (set lent i (record b { reference = b.reference + 1 }))
  frees :
      (s s' : Buddy) (lent : List Block) (i : ℕ) (b : Block) (e : Error)
      → Reach start s lent
      → get_elem? lent i ≡ some b
      → free_page s b.pfn ≡ some (s', e)
      → Reach start s' (given_back lent i b)

same_run :
    {A B : Type 0}
    → (o : Option (A × B)) (a a' : A) (b b' : B) → o ≡ some (a, b)
    → o ≡ some (a', b')
    → a ≡ a'
same_run o a a' b b' x y = ground (arith, x, y)

-- From a tiled zone with no block lent, every run leaves the zone tiled by the free blocks and the blocks
-- lent.
pub Reach-IsTiled :
    (base : ℕ) (start s : Buddy) (lent : List Block)
    → IsTiled base start []
    → Reach start s lent
    → IsTiled base s lent
Reach-IsTiled base start s lent ok starts = ok
Reach-IsTiled base start s' lent' ok (allocs s s'' lent count pfn run pos lt did) =
    outcome (alloc_page-IsTiled base s lent count (Reach-IsTiled base start s lent ok run) pos lt)
  where
    outcome :
        AllocTiled base s lent count
        → IsTiled base s'' (record { pfn = pfn; order = order_of count; reference = 1 } ∷ lent)
    outcome (inl (none_run, nothing)) = absurd (ground (arith, none_run, did))
    outcome (inr (t, q, some_run, tiled)) =
        let e : t ≡ s'' = ground (arith, some_run, did) in
        let f : q ≡ pfn = ground (arith, some_run, did) in
        subst
          (λ x. IsTiled base s'' (record { pfn = x; order = order_of count; reference = 1 } ∷ lent))
          f
          (subst
            (λ x. IsTiled base x (record { pfn = q; order = order_of count; reference = 1 } ∷ lent))
            e tiled)
Reach-IsTiled base start s' lent' ok (increases s s'' lent i b e run is did) =
    let (t, t_run, tiled) =
      increase_page-IsTiled base s lent i b (Reach-IsTiled base start s lent ok run) is in
    subst (λ x. IsTiled base x (set lent i (record b { reference = b.reference + 1 })))
      (same_run (increase_page s b.pfn) t s'' eok e t_run did) tiled
Reach-IsTiled base start s' lent' ok (frees s s'' lent i b e run is did) =
    let (t, t_run, tiled) =
      free_page-IsTiled base s lent i b (Reach-IsTiled base start s lent ok run) is in
    subst (λ x. IsTiled base x (given_back lent i b))
      (same_run (free_page s b.pfn) t s'' (if b.reference == 1 then eok else eagain) e t_run did)
      tiled

-- A tiled zone and a block that `alloc_page` has just lent from it: `free_page` of it returns eok and a
-- sound system in which each page is in as many free blocks as before, and as many pages are used.
pub free_page-alloc_page :
    (base : ℕ) (s : Buddy) (lent : List Block) (count : ℕ) (s' : Buddy) (pfn : ℕ)
    → IsTiled base s lent
    → 0 < count
    → order_of count < 21
    → alloc_page s count ≡ some (s', some pfn)
    → (t : Buddy) × (free_page s' pfn ≡ some (t, eok))
      × IsSound t
      × ((p : ℕ) → free_cover t p ≡ free_cover s p)
      × (t.used_page ≡ s.used_page)
free_page-alloc_page base s lent count s' pfn tiled pos lt did = outcome (
    alloc_page-outcome s count tiled.sound (λ p. omega (arith, tile_le s lent p (tiled.covered p)))
      pos lt)
  where
    Goal : Type 0
    Goal =
        (t : Buddy) × (free_page s' pfn ≡ some (t, eok))
        × IsSound t
        × ((p : ℕ) → free_cover t p ≡ free_cover s p)
        × (t.used_page ≡ s.used_page)

    back : Lent s pfn (order_of count) s' → Goal
    back l =
        let (t, run, r) =
          free_page-Returned s' pfn (order_of count)
            (record {
              sound = l.sound;
              apart = λ p. omega (arith, l.cover p, tile_le s lent p (tiled.covered p));
              fits = l.fits;
              small = omega (arith, tiled.small, length-max s s' tiled.sound l.sound l.max_same);
            })
            l.used in
        (
          t,
          run,
          r.sound,
          (λ p. omega (arith, r.cover p, l.cover p)),
          omega (arith, r.used_less, l.used_more),
        )

    outcome : AllocOutcome s count → Goal
    outcome (inl (none_run, nothing)) = absurd (ground (arith, none_run, did))
    outcome (inr (t, q, some_run, l)) =
        let e : t ≡ s' = ground (arith, some_run, did) in
        let f : q ≡ pfn = ground (arith, some_run, did) in
        back (
          subst (λ x. Lent s x (order_of count) s') f
            (subst (λ x. Lent s q (order_of count) x) e l))
