-- ===== src/Buddy/Blocks.antt =====
-- `BuddyAddPage` and `BuddyDelPage` of src/mm/buddy.c as changes of the blocks that the free lists hold.
use nxos.Base.{
  ℕ, zero, suc, ◌+◌, ◌-◌, ◌≤◌, ◌<◌, ◌≡◌, ◌≢◌, refl, ap, sym, subst, ◌∙◌, true, false, some, List,
  [], ◌∷◌, ◌++◌, arith, if◌then◌else◌, get_elem?, set, length, ℕ_discrete, length-set,
  length-append, get_elem?-set_self, get_elem?-set_ne, get_elem?-lt, get_elem?-total,
}
use nxos.Buddy.{pow2, Page, Order, Buddy, without, is_empty, add_page, del_page, write_page}
use nxos.Buddy.Cover.{
  covers, cover_list, occ, cover_list-append, cover_list-without, occ-append, occ-without,
  length-without, occ-cover, cover_from-set, cover_from_le,
}
use nxos.Buddy.Lists.{marked, free_cover, IsSound, relist, relist-IsSound, write_page-IsSound}

-- What no operation on the free lists changes.
pub record SameZone (s s' : Buddy) : Type 0 where
  pub max_same : s'.max_pfn ≡ s.max_pfn
  pub start_same : s'.page_start ≡ s.page_start
  pub used_same : s'.used_page ≡ s.used_page

pub SameZone-trans : {a b c : Buddy} → SameZone a b → SameZone b c → SameZone a c
SameZone-trans x y = record {
  max_same = y.max_same ∙ x.max_same;
  start_same = y.start_same ∙ x.start_same;
  used_same = y.used_same ∙ x.used_same;
}

set-set : {A : Type 0} → (xs : List A) (i : ℕ) (a b : A) → set (set xs i a) i b ≡ set xs i b
set-set [] i a b = refl
set-set (x ∷ xs) zero a b = refl
set-set (x ∷ xs) (suc i) a b = ap (λ l. x ∷ l) (set-set xs i a b)

is_empty-occ : (qs : List ℕ) (q : ℕ) → 0 < occ q qs → is_empty qs ≡ false
is_empty-occ [] q h = absurd (omega arith)
is_empty-occ (r ∷ rs) q h = refl

is_empty-append : (qs : List ℕ) (q : ℕ) → is_empty (qs ++ q ∷ []) ≡ false
is_empty-append [] q = refl
is_empty-append (r ∷ rs) q = refl

pub order_at :
    (s : Buddy) (k : ℕ) → IsSound s → k < 21 → (o : Order) × get_elem? s.orders k ≡ some o
order_at s k sound lt = get_elem?-total s.orders k (omega (arith, lt, sound.orders_nr))

-- How the free lists hold a page when one of them is replaced.
relist-cover :
    (s : Buddy) (pfn k : ℕ) (new : Page) (o o' : Order) (p : ℕ)
    → get_elem? s.orders k ≡ some o
    → free_cover (relist s pfn new k o') p + cover_list k o.pages p
      ≡ free_cover s p + cover_list k o'.pages p
relist-cover s pfn k new o o' p is =
    subst
      (λ x.
        free_cover (relist s pfn new k o') p + cover_list x o.pages p
        ≡ free_cover s p + cover_list x o'.pages p)
      {x = 0 + k} (omega arith) (cover_from-set 0 s.orders k o o' p is)

list-cover :
    (s : Buddy) (j : ℕ) (q : Order) (p : ℕ)
    → get_elem? s.orders j ≡ some q
    → cover_list j q.pages p ≤ free_cover s p
list-cover s j q p is =
    subst (λ x. cover_list x q.pages p ≤ free_cover s p) {x = 0 + j} (omega arith)
      (cover_from_le 0 s.orders j q p is)

-- A page that no free block holds is in no free list.
pub unlisted :
    (s : Buddy) (b j : ℕ) (q : Order)
    → free_cover s b ≡ 0
    → get_elem? s.orders j ≡ some q
    → occ b q.pages ≡ 0
unlisted s b j q clear is = omega (arith, clear, occ-cover j q.pages b, list-cover s j q b is)

pub unmarked :
    (s : Buddy) (b j : ℕ) (q : Order) (page : Page)
    → IsSound s
    → free_cover s b ≡ 0
    → get_elem? s.orders j ≡ some q
    → get_elem? s.map b ≡ some page
    → marked (some page) j ≡ 0
unmarked s b j q page sound clear is at =
    ap (λ x. marked x j) (sym at) ∙ sym ((sound.listed j q is).linked b) ∙ unlisted s b j q clear is

-- A page that no free block holds, written without a mark.
pub write_clear-IsSound :
    (s : Buddy) (pfn : ℕ) (old new : Page)
    → IsSound s
    → get_elem? s.map pfn ≡ some old
    → free_cover s pfn ≡ 0
    → ((k : ℕ) → marked (some new) k ≡ 0)
    → IsSound (write_page s pfn new)
write_clear-IsSound s pfn old new sound at clear bare =
    write_page-IsSound s pfn old new sound at
      (λ k o is. bare k ∙ sym (unmarked s pfn k o old sound clear is at))

-- `s'` is `s` less the free block of order `k` at `pfn`.
pub record Removed (s : Buddy) (pfn k : ℕ) (page : Page) (s' : Buddy) : Type 0 where
  pub run : del_page s pfn ≡ some s'
  pub sound : IsSound s'
  pub cover : (p : ℕ) → covers pfn k p + free_cover s' p ≡ free_cover s p
  pub zone : SameZone s s'
  pub now : get_elem? s'.map pfn ≡ some (record page { free = false })
  pub others : (b : ℕ) → b ≢ pfn → get_elem? s'.map b ≡ get_elem? s.map b
  pub inside : pfn + pow2 k ≤ length s'.map

-- `s'` is `s` with a free block of order `k` at `pfn`.
pub record Added (s : Buddy) (pfn k : ℕ) (page : Page) (s' : Buddy) : Type 0 where
  pub run : add_page (write_page s pfn (record page { order = some k })) pfn ≡ some s'
  pub sound : IsSound s'
  pub cover : (p : ℕ) → free_cover s' p ≡ covers pfn k p + free_cover s p
  pub zone : SameZone s s'
  pub others : (b : ℕ) → b ≢ pfn → get_elem? s'.map b ≡ get_elem? s.map b

abbrev unlinked : ℕ → Order → Order
unlinked pfn o = record {
  pages = without pfn o.pages;
  count = o.count - 1;
  bit = if is_empty (without pfn o.pages) then false else o.bit;
}

pub del_page-Removed :
    (s : Buddy) (pfn k : ℕ) (page : Page)
    → IsSound s
    → k < 21
    → get_elem? s.map pfn ≡ some page
    → page.free ≡ true
    → page.order ≡ some k
    → (s' : Buddy) × Removed s pfn k page s'
unfolding del_page
del_page-Removed s pfn k page sound lt at free order = removed (order_at s k sound lt)
  where
    removed : ((o : Order) × get_elem? s.orders k ≡ some o) → (s' : Buddy) × Removed s pfn k page s'
    removed (o, is) =
        let ok = sound.listed k o is in
        let one : occ pfn o.pages ≡ 1 =
          ok.linked pfn ∙ ap (λ x. marked x k) at ∙ ground (arith, free, order) in
        let some_there : 0 < occ pfn o.pages = omega (arith, one) in
        (
          relist s pfn (record page { free = false }) k (unlinked pfn o),
          record {
            run = rw at (rw order (rw is refl));
            sound =
                relist-IsSound s pfn k page (record page { free = false }) o (unlinked pfn o) sound
                  at is (λ j q _ ne. ground (arith, order, free, ne))
                  (λ b. ground (arith, one, occ-without b o.pages pfn some_there))
                  (omega (arith, ok.counted, length-without o.pages pfn some_there))
                  (ground (arith, ok.bit_right, is_empty-occ o.pages pfn some_there))
                  (λ b h. ok.inside b (omega (arith, h, occ-without b o.pages pfn some_there)));
            cover = λ p. omega (
              arith,
              relist-cover s pfn k (record page { free = false }) o (unlinked pfn o) p is,
              cover_list-without k o.pages pfn p some_there,
            );
            zone = record { max_same = refl; start_same = refl; used_same = refl };
            now =
                get_elem?-set_self s.map pfn (record page { free = false })
                  (get_elem?-lt s.map pfn at);
            others = λ b ne.
                get_elem?-set_ne s.map pfn b (record page { free = false }) (λ e. ne (sym e));
            inside = omega (
              arith,
              ok.inside pfn some_there,
              length-set s.map pfn (record page { free = false }),
            );
          },
        )

pub add_page-Added :
    (s : Buddy) (pfn k : ℕ) (page : Page)
    → IsSound s
    → k < 21
    → get_elem? s.map pfn ≡ some page
    → free_cover s pfn ≡ 0
    → pfn + pow2 k ≤ length s.map
    → (s' : Buddy) × Added s pfn k page s'
unfolding add_page
add_page-Added s pfn k page sound lt at clear fits = added (order_at s k sound lt)
  where
    new : Page
    new = record page { free = true; order = some k }

    linked_with : Order → Order
    linked_with o = record { pages = o.pages ++ pfn ∷ []; count = o.count + 1; bit = true }

    added : ((o : Order) × (get_elem? s.orders k ≡ some o)) → (s' : Buddy) × Added s pfn k page s'
    added (o, is) =
        let ok = sound.listed k o is in
        let zero_there = unlisted s pfn k o clear is in
        let written : get_elem? (set s.map pfn (record page { order = some k })) pfn
            ≡ some (record page { order = some k }) =
          get_elem?-set_self s.map pfn (record page { order = some k })
            (get_elem?-lt s.map pfn at) in
        (
          relist s pfn new k (linked_with o),
          record {
            run = rw written (
                rw is (
                  ap (λ m. some (record s { map = m; orders = set s.orders k (linked_with o) }))
                    (set-set s.map pfn (record page { order = some k }) new)));
            sound =
                relist-IsSound s pfn k page new o (linked_with o) sound at is
                  (λ j q was ne. ground (arith, unmarked s pfn j q page sound clear was at, ne))
                  (λ b. ground (arith, zero_there, occ-append b o.pages pfn))
                  (omega (arith, ok.counted, length-append o.pages (pfn ∷ [])))
                  (ground (arith, is_empty-append o.pages pfn))
                  (λ b h. elim (ℕ_discrete pfn b) [
                    | yes e ↦ omega (arith, e, fits)
                    | no ne ↦ ok.inside b (ground (arith, h, ne, occ-append b o.pages pfn))
                  ]);
            cover = λ p. omega (
              arith,
              relist-cover s pfn k new o (linked_with o) p is,
              cover_list-append k o.pages pfn p,
            );
            zone = record { max_same = refl; start_same = refl; used_same = refl };
            others = λ b ne. get_elem?-set_ne s.map pfn b new (λ e. ne (sym e));
          },
        )
