-- ===== src/Buddy/Free.antt =====
-- `NX_BuddyFreePage` and `NX_BuddyIncreasePage` of src/mm/buddy.c.
use nxos.Base.{
  ℕ, suc, ◌+◌, ◌-◌, ◌<◌, ◌≡◌, ◌≢◌, refl, ap, ◌∙◌, false, some, ltb, ◌==◌, arith, get_elem?, set,
  length-set, get_elem?-set_self, get_elem?-set_ne, get_elem?-lt, eok, eagain,
}
use nxos.Buddy.{pow2, Page, Buddy, write_page, free_last, free_checked, free_page, increase_page}
use nxos.Buddy.Cover.{covers, covers_self}
use nxos.Buddy.Lists.{free_cover, IsSound, write_page-IsSound}
use nxos.Buddy.Alloc.{IsUsed, used_page-IsSound}
use nxos.Buddy.Merge.{IsOut, merge_and_add-Joined}

-- `s'` is `s` with the block of order `k` at `pfn` given back.
pub record Returned (s : Buddy) (pfn k : ℕ) (s' : Buddy) : Type 0 where
  pub sound : IsSound s'
  pub cover : (p : ℕ) → free_cover s' p ≡ covers pfn k p + free_cover s p
  pub max_same : s'.max_pfn ≡ s.max_pfn
  pub used_less : s'.used_page ≡ s.used_page - pow2 k
  pub others :
      (b : ℕ) → covers pfn k b + free_cover s b ≡ 0 → get_elem? s'.map b ≡ get_elem? s.map b

-- `s'` is `s` with another reference count in the page at the head of a used block.
pub record Recounted (s : Buddy) (pfn k reference : ℕ) (s' : Buddy) : Type 0 where
  pub sound : IsSound s'
  pub same_orders : s'.orders ≡ s.orders
  pub max_same : s'.max_pfn ≡ s.max_pfn
  pub used_same : s'.used_page ≡ s.used_page
  pub others : (b : ℕ) → pfn ≢ b → get_elem? s'.map b ≡ get_elem? s.map b
  pub used : IsUsed s' pfn k reference

recount :
    (s : Buddy) (pfn k r r' : ℕ)
    → IsSound s
    → IsUsed s pfn k r
    → Recounted s pfn k r'
        (write_page s pfn (record { free = false; order = some k; reference = r' }))
recount s pfn k r r' sound used =
    let new : Page = record { free = false; order = some k; reference = r' } in
    record {
      sound =
          write_page-IsSound s pfn (record { free = false; order = some k; reference = r }) new
            sound used (λ j o is. refl);
      same_orders = refl;
      max_same = refl;
      used_same = refl;
      others = λ b ne. get_elem?-set_ne s.map pfn b new ne;
      used = get_elem?-set_self s.map pfn new (get_elem?-lt s.map pfn used);
    }

in_zone : (s : Buddy) (pfn k r : ℕ) → IsSound s → IsUsed s pfn k r → ltb s.max_pfn pfn ≡ false
in_zone s pfn k r sound used =
    bound s.max_pfn (omega (arith, sound.size, get_elem?-lt s.map pfn used))
  where
    bound : (m : ℕ) → pfn < suc m → ltb m pfn ≡ false
    bound m lt = ground (arith, lt)

-- A used block is given back when its last reference is.
pub free_page-Returned :
    (s : Buddy) (pfn k : ℕ)
    → IsOut s pfn k
    → IsUsed s pfn k 1
    → (s' : Buddy) × (free_page s pfn ≡ some (s', eok)) × Returned s pfn k s'
unfolding free_page free_checked free_last
free_page-Returned s pfn k out used =
    let new : Page = record { free = false; order = some k; reference = 0 } in
    let start : Buddy = record s { map = set s.map pfn new; used_page = s.used_page - pow2 k } in
    let ready = recount s pfn k 1 0 out.sound used in
    let sound : IsSound start =
      used_page-IsSound (write_page s pfn new) (s.used_page - pow2 k) ready.sound in
    let long = length-set s.map pfn new in
    let (s', run, joined) = merge_and_add-Joined start pfn k (record {
      sound = sound;
      apart = out.apart;
      fits = omega (arith, out.fits, long);
      small = omega (arith, out.small, long);
    }) in
    (
      s',
      rw (in_zone s pfn k 1 out.sound used) (rw used (rw run refl)),
      record {
        sound = joined.sound;
        cover = joined.cover;
        max_same = joined.zone.max_same;
        used_less = joined.zone.used_same;
        others = λ b away.
            joined.others b away
            ∙ ready.others b
                (λ e. absurd (omega (arith, away, ap (λ x. covers pfn k x) e, covers_self pfn k)));
      },
    )

many :
    (r : ℕ)
    → ((suc (suc r) == 0) ≡ false) × ((suc (suc r) == 1) ≡ false) × (suc (suc r) - 1 ≡ suc r)
many r = (ground arith, ground arith, omega arith)

-- A used block with more references stays.
pub free_page-Recounted :
    (s : Buddy) (pfn k r : ℕ)
    → IsSound s
    → IsUsed s pfn k (suc (suc r))
    → (s' : Buddy) × (free_page s pfn ≡ some (s', eagain)) × Recounted s pfn k (suc r) s'
unfolding free_page free_checked
free_page-Recounted s pfn k r sound used = (
  write_page s pfn (record { free = false; order = some k; reference = suc r }),
  rw (in_zone s pfn k (suc (suc r)) sound used)
      (rw used (rw (many r).0 (rw (many r).1 (rw (many r).2 refl)))),
  recount s pfn k (suc (suc r)) (suc r) sound used,
)

pub increase_page-Recounted :
    (s : Buddy) (pfn k r : ℕ)
    → IsSound s
    → IsUsed s pfn k r
    → (s' : Buddy) × (increase_page s pfn ≡ some (s', eok)) × Recounted s pfn k (r + 1) s'
unfolding increase_page
increase_page-Recounted s pfn k r sound used = (
  write_page s pfn (record { free = false; order = some k; reference = r + 1 }),
  rw (in_zone s pfn k r sound used) (rw used refl),
  recount s pfn k r (r + 1) sound used,
)
