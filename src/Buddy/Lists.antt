-- ===== src/Buddy/Lists.antt =====
-- The free lists of src/mm/buddy.c and the marks of the pages in them: `BuddyAddPage` and
-- `BuddyDelPage`.
use nxos.Base.{
  ℕ, suc, ◌+◌, ◌≤◌, ◌<◌, ◌≡◌, ◌≢◌, ap, sym, subst, ◌∙◌, not, ◌&&◌, Option, none, some, List, ◌==◌,
  arith, if◌then◌else◌, get_elem?, set, length, ℕ_discrete, length-set, get_elem?-set_self,
  get_elem?-set_ne, get_elem?-lt,
}
use nxos.Buddy.{pow2, Page, Order, Buddy, is_empty, is_order, write_page}
use nxos.Buddy.Cover.{cover_from, occ}

-- Whether a page is marked as free with an order.
abbrev pub marked : Option Page → ℕ → ℕ
marked none k = 0
marked (some page) k = if page.free && is_order page.order k then 1 else 0

abbrev pub free_cover : Buddy → ℕ → ℕ
free_cover s p = cover_from 0 s.orders p

pub record OrderIsSound (map : List Page) (k : ℕ) (o : Order) : Type 0 where
  pub counted : o.count ≡ length o.pages
  pub bit_right : o.bit ≡ not (is_empty o.pages)
  pub linked : (pfn : ℕ) → occ pfn o.pages ≡ marked (get_elem? map pfn) k
  pub inside : (pfn : ℕ) → 0 < occ pfn o.pages → pfn + pow2 k ≤ length map

-- The free lists hold exactly the pages marked as free, each once and within the zone, and counts and bits
-- are right.
pub record IsSound (s : Buddy) : Type 0 where
  pub orders_nr : length s.orders ≡ 21
  pub size : length s.map ≡ suc s.max_pfn
  pub listed : (k : ℕ) (o : Order) → get_elem? s.orders k ≡ some o → OrderIsSound s.map k o

marked-set :
    (map : List Page) (pfn b k : ℕ) (new : Page)
    → pfn < length map
    → marked (get_elem? (set map pfn new) b) k
      ≡ (if pfn == b then marked (some new) k else marked (get_elem? map b) k)
marked-set map pfn b k new lt = elim (ℕ_discrete pfn b) [
  | yes e ↦
      ap (λ o. marked o k)
        (subst (λ x. get_elem? (set map pfn new) x ≡ some new) e
          (get_elem?-set_self map pfn new lt))
      ∙ ground (arith, e)
  | no ne ↦ ap (λ o. marked o k) (get_elem?-set_ne map pfn b new ne) ∙ ground (arith, ne)
]

-- A page written whose marks do not change.
pub write_page-IsSound :
    (s : Buddy) (pfn : ℕ) (old new : Page)
    → IsSound s
    → get_elem? s.map pfn ≡ some old
    → ((k : ℕ) (o : Order)
        → get_elem? s.orders k ≡ some o
        → marked (some new) k ≡ marked (some old) k)
    → IsSound (write_page s pfn new)
write_page-IsSound s pfn old new sound at same =
    let lt = get_elem?-lt s.map pfn at in
    record {
      orders_nr = sound.orders_nr;
      size = length-set s.map pfn new ∙ sound.size;
      listed = λ k o is.
          let ok = sound.listed k o is in
          record {
            counted = ok.counted;
            bit_right = ok.bit_right;
            linked = λ b. elim (ℕ_discrete pfn b) [
              | no ne ↦ ok.linked b ∙ sym (marked-set s.map pfn b k new lt ∙ ground (arith, ne))
              | yes e ↦
                  ok.linked b
                  ∙ ap (λ o. marked o k) (subst (λ x. get_elem? s.map x ≡ some old) e at)
                  ∙ sym (same k o is)
                  ∙ sym (marked-set s.map pfn b k new lt ∙ ground (arith, e))
            ];
            inside = λ b h. omega (arith, ok.inside b h, length-set s.map pfn new);
          };
    }

-- The system with another page and another free list.
abbrev pub relist : Buddy → ℕ → Page → ℕ → Order → Buddy
relist s pfn page k o = record s { map = set s.map pfn page; orders = set s.orders k o }

pub relist-IsSound :
    (s : Buddy) (pfn k : ℕ) (old new : Page) (o o' : Order)
    → IsSound s
    → get_elem? s.map pfn ≡ some old
    → get_elem? s.orders k ≡ some o
    → ((j : ℕ) (q : Order)
        → get_elem? s.orders j ≡ some q
        → j ≢ k
        → marked (some new) j ≡ marked (some old) j)
    → ((b : ℕ) → occ b o'.pages ≡ (if pfn == b then marked (some new) k else occ b o.pages))
    → o'.count ≡ length o'.pages
    → o'.bit ≡ not (is_empty o'.pages)
    → ((b : ℕ) → 0 < occ b o'.pages → b + pow2 k ≤ length s.map)
    → IsSound (relist s pfn new k o')
relist-IsSound s pfn k old new o o' sound at is same link counted bit inside =
    let lt = get_elem?-lt s.map pfn at in
    record {
      orders_nr = length-set s.orders k o' ∙ sound.orders_nr;
      size = length-set s.map pfn new ∙ sound.size;
      listed = λ j q is_q. elim (ℕ_discrete k j) [
        | no ne ↦
            let was = sym (get_elem?-set_ne s.orders k j o' ne) ∙ is_q in
            other j q ne lt was (sound.listed j q was)
        | yes e ↦
            let same_q : o' ≡ q = ground (
              arith,
              is_q,
              subst (λ x. get_elem? (set s.orders k o') x ≡ some o') e
                  (get_elem?-set_self s.orders k o' (get_elem?-lt s.orders k is)),
            ) in
            subst (λ x. OrderIsSound (set s.map pfn new) x q) e
              (subst (λ x. OrderIsSound (set s.map pfn new) k x) same_q (own lt))
      ];
    }
  where
    other :
        (j : ℕ) (q : Order)
        → k ≢ j
        → pfn < length s.map
        → get_elem? s.orders j ≡ some q
        → OrderIsSound s.map j q
        → OrderIsSound (set s.map pfn new) j q
    other j q ne lt was ok = record {
      counted = ok.counted;
      bit_right = ok.bit_right;
      linked = λ b. elim (ℕ_discrete pfn b) [
        | no diff ↦ ok.linked b ∙ sym (marked-set s.map pfn b j new lt ∙ ground (arith, diff))
        | yes e ↦
            ok.linked b
            ∙ ap (λ x. marked x j) (subst (λ x. get_elem? s.map x ≡ some old) e at)
            ∙ sym (same j q was (λ h. ne (sym h)))
            ∙ sym (marked-set s.map pfn b j new lt ∙ ground (arith, e))
      ];
      inside = λ b h. omega (arith, ok.inside b h, length-set s.map pfn new);
    }

    own : pfn < length s.map → OrderIsSound (set s.map pfn new) k o'
    own lt = record {
      counted = counted;
      bit_right = bit;
      linked = λ b. elim (ℕ_discrete pfn b) [
        | no diff ↦
            let e : occ b o'.pages ≡ occ b o.pages = ground (arith, link b, diff) in
            e
            ∙ (sound.listed k o is).linked b
            ∙ sym (marked-set s.map pfn b k new lt ∙ ground (arith, diff))
        | yes eq ↦
            let e : occ b o'.pages ≡ marked (some new) k = ground (arith, link b, eq) in
            e ∙ sym (marked-set s.map pfn b k new lt ∙ ground (arith, eq))
      ];
      inside = λ b h. omega (arith, inside b h, length-set s.map pfn new);
    }
