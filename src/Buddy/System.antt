-- ===== src/Buddy/System.antt =====
-- src/mm/buddy.c as its clients see it: the blocks lent, with their references, and the free blocks tile the
-- zone.
use nxos.Base.{
  ℕ, zero, suc, ◌+◌, ◌≤◌, ◌<◌, ◌≡◌, ◌≢◌, refl, ap, subst, some, List, [], ◌∷◌, ltb, arith,
  if◌then◌else◌, get_elem?, length,
}
use nxos.Buddy.{pow2, Buddy}
use nxos.Buddy.Cover.{covers}
use nxos.Buddy.Lists.{free_cover, IsSound}
use nxos.Buddy.Alloc.{IsUsed}

-- A block that a client holds.
pub record Block : Type 0 where
  pub pfn : ℕ
  pub order : ℕ
  pub reference : ℕ

abbrev pub lent_cover : List Block → ℕ → ℕ
lent_cover [] p = 0
lent_cover (b ∷ bs) p = covers b.pfn b.order p + lent_cover bs p

abbrev pub lent_pages : List Block → ℕ
lent_pages [] = 0
lent_pages (b ∷ bs) = pow2 b.order + lent_pages bs

abbrev pub take_out : List Block → ℕ → List Block
take_out [] i = []
take_out (b ∷ bs) zero = bs
take_out (b ∷ bs) (suc i) = b ∷ take_out bs i

pub record IsHeld (s : Buddy) (b : Block) : Type 0 where
  pub used : IsUsed s b.pfn b.order b.reference
  pub fits : b.pfn + pow2 b.order ≤ length s.map
  pub referenced : 0 < b.reference

-- Every page of the zone is in one free block or in one block lent; `base` counts the pages used for the
-- zone's own data.
pub record IsTiled (base : ℕ) (s : Buddy) (lent : List Block) : Type 0 where
  pub sound : IsSound s
  pub small : length s.map < pow2 21
  pub covered : (p : ℕ) → free_cover s p + lent_cover lent p ≡ (if ltb s.max_pfn p then 0 else 1)
  pub held : (i : ℕ) (b : Block) → get_elem? lent i ≡ some b → IsHeld s b
  pub counted : s.used_page ≡ base + lent_pages lent

pub tile_le :
    (s : Buddy) (lent : List Block) (p : ℕ)
    → free_cover s p + lent_cover lent p ≡ (if ltb s.max_pfn p then 0 else 1)
    → free_cover s p + lent_cover lent p ≤ 1
tile_le s lent p h = ground (arith, h)

pub take_out-cover :
    (lent : List Block) (i : ℕ) (b : Block) (p : ℕ)
    → get_elem? lent i ≡ some b
    → covers b.pfn b.order p + lent_cover (take_out lent i) p ≡ lent_cover lent p
take_out-cover [] i b p is = absurd (ground (arith, is))
take_out-cover (a ∷ bs) zero b p is =
    let e : a ≡ b = ground (arith, is) in
    subst (λ x. covers x.pfn x.order p + lent_cover bs p ≡ covers a.pfn a.order p + lent_cover bs p)
      e refl
take_out-cover (a ∷ bs) (suc i) b p is = omega (arith, take_out-cover bs i b p is)

pub take_out-pages :
    (lent : List Block) (i : ℕ) (b : Block)
    → get_elem? lent i ≡ some b
    → pow2 b.order + lent_pages (take_out lent i) ≡ lent_pages lent
take_out-pages [] i b is = absurd (ground (arith, is))
take_out-pages (a ∷ bs) zero b is =
    let e : a ≡ b = ground (arith, is) in
    subst (λ x. pow2 x.order + lent_pages bs ≡ pow2 a.order + lent_pages bs) e refl
take_out-pages (a ∷ bs) (suc i) b is = omega (arith, take_out-pages bs i b is)

-- The blocks that stay are other entries.
pub take_out-get :
    (lent : List Block) (i j : ℕ) (c : Block)
    → get_elem? (take_out lent i) j ≡ some c
    → (k : ℕ) × (i ≢ k) × (get_elem? lent k ≡ some c)
take_out-get [] i j c is = absurd (ground (arith, is))
take_out-get (a ∷ bs) zero j c is = (suc j, (λ e. absurd (omega (arith, e))), is)
take_out-get (a ∷ bs) (suc i) zero c is = (0, (λ e. absurd (omega (arith, e))), is)
take_out-get (a ∷ bs) (suc i) (suc j) c is =
    let (k, ne, at) = take_out-get bs i j c is in (suc k, (λ e. ne (omega (arith, e))), at)

pub cover-get :
    (lent : List Block) (j : ℕ) (c : Block) (p : ℕ)
    → get_elem? lent j ≡ some c
    → covers c.pfn c.order p ≤ lent_cover lent p
cover-get lent j c p is = omega (arith, take_out-cover lent j c p is)

-- Two entries count twice.
pub covers-two :
    (lent : List Block) (i j : ℕ) (b c : Block) (p : ℕ)
    → i ≢ j
    → get_elem? lent i ≡ some b
    → get_elem? lent j ≡ some c
    → covers b.pfn b.order p + covers c.pfn c.order p ≤ lent_cover lent p
covers-two [] i j b c p ne is at = absurd (ground (arith, is))
covers-two (a ∷ bs) zero zero b c p ne is at = absurd (ne refl)
covers-two (a ∷ bs) zero (suc j) b c p ne is at =
    let e : a ≡ b = ground (arith, is) in
    subst
      (λ x.
        covers x.pfn x.order p + covers c.pfn c.order p ≤ covers a.pfn a.order p + lent_cover bs p)
      e (omega (arith, cover-get bs j c p at))
covers-two (a ∷ bs) (suc i) zero b c p ne is at =
    let e : a ≡ c = ground (arith, at) in
    subst
      (λ x.
        covers b.pfn b.order p + covers x.pfn x.order p ≤ covers a.pfn a.order p + lent_cover bs p)
      e (omega (arith, cover-get bs i b p is))
covers-two (a ∷ bs) (suc i) (suc j) b c p ne is at =
    omega (arith, covers-two bs i j b c p (λ e. ne (ap suc e)) is at)

-- Two blocks lent have no page in common.
pub lent_apart :
    (base : ℕ) (s : Buddy) (lent : List Block) (i j : ℕ) (b c : Block) (p : ℕ)
    → IsTiled base s lent
    → i ≢ j
    → get_elem? lent i ≡ some b
    → get_elem? lent j ≡ some c
    → covers b.pfn b.order p + covers c.pfn c.order p + free_cover s p ≤ 1
lent_apart base s lent i j b c p tiled ne is at =
    omega (arith, covers-two lent i j b c p ne is at, tile_le s lent p (tiled.covered p))
