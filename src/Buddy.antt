-- ===== src/Buddy.antt =====
-- src/mm/buddy.c, src/mm/buddy_common.h and src/include/base/buddy.h: the allocator of physical pages. A
-- page is named by its page frame number, its index in `map`; `PageToPtr` and `NX_PageFromPtr` go between
-- it and the address `page_start + pfn * page_size`. Entry k of `orders` holds what the arrays pageBuddy
-- and count and the word bitmap have for order k: the free list, its count and the bit. `none` is a failed
-- assertion or an access outside an array. The size class of a page is not represented here.
pub mod Bits
pub mod Cover
pub mod Lists
pub mod Blocks
pub mod Locate
pub mod Split
pub mod Alloc
pub mod Merge
pub mod Free
pub mod System
pub mod Tiling
pub mod Reach
pub mod Create
pub mod Zones
mod Tests
use nxos.Base.{
  ℕ, zero, suc, ◌+◌, ◌-◌, ◌*◌, ◌/◌, ◌%◌, ◌^◌, ◌≡◌, Bool, true, false, not, ◌&&◌, ◌||◌, Option, none,
  some, List, [], ◌∷◌, ◌++◌, ltb, leb, ◌==◌, if◌then◌else◌, get_elem?, set, length, replicate,
  ◌>>=◌, page_size, Error, eok, einval, efault, eagain,
}

-- NX_MAX_PAGE_ORDER
abbrev pub max_page_order : ℕ
max_page_order = 20

-- `1UL << k`, and `NX_PowInt(2, k)`.
abbrev pub pow2 : ℕ → ℕ
pow2 zero = 1
pow2 (suc k) = pow2 k + pow2 k

-- `NX_FLS` of 32 bits: a mask of the highest bits is clear when the number is below a power of 2.
abbrev pub fls_step : (shift : ℕ) → ℕ × ℕ → ℕ × ℕ
fls_step shift (x, r) = if ltb x (pow2 (32 - shift)) then (x * pow2 shift, r - shift) else (x, r)

unfoldable pub fls : ℕ → ℕ
fls x =
    if x == 0
    then 0
    else (fls_step 1 (fls_step 2 (fls_step 4 (fls_step 8 (fls_step 16 (x, 32)))))).1

-- `BuddyFlsSizet` of a number that is not 0, with 64 bits.
unfoldable pub fls_size : ℕ → ℕ
unfolding fls
fls_size size =
    let high = size / pow2 32 in if high == 0 then fls (size % pow2 32) - 1 else 32 + (fls high - 1)

-- The order that `NX_BuddyAllocPage` allocates for a count of pages.
unfoldable pub order_of : (count : ℕ) → ℕ
unfolding fls_size
order_of count = fls_size (count + (pow2 (fls_size count) - 1))

-- `NX_Page`; NX_PAGE_INVALID_ORDER is `none`.
pub record Page : Type 0 where
  pub free : Bool
  pub order : Option ℕ
  pub reference : ℕ

-- A free list with its count, and its bit of the bitmap.
pub record Order : Type 0 where
  pub pages : List ℕ
  pub count : ℕ
  pub bit : Bool

-- `NX_BuddySystem`
pub record Buddy : Type 0 where
  pub orders : List Order
  pub map : List Page
  pub page_start : ℕ
  pub max_pfn : ℕ
  pub used_page : ℕ

abbrev pub write_page : Buddy → ℕ → Page → Buddy
write_page s pfn page = record s { map = set s.map pfn page }

-- `BuddyAddPage`
unfoldable pub add_page : Buddy → (pfn : ℕ) → Option Buddy
add_page s pfn = do
  page ← get_elem? s.map pfn
  k ← page.order
  o ← get_elem? s.orders k
  some (record s {
    map = set s.map pfn (record page { free = true });
    orders =
        set s.orders k (record { pages = o.pages ++ pfn ∷ []; count = o.count + 1; bit = true });
  })

-- `NX_ListDel` of a page, and `NX_ListEmpty`.
abbrev pub without : ℕ → List ℕ → List ℕ
without pfn [] = []
without pfn (q ∷ qs) = if q == pfn then qs else q ∷ without pfn qs

abbrev pub is_empty : List ℕ → Bool
is_empty [] = true
is_empty (q ∷ qs) = false

-- `BuddyDelPage`
unfoldable pub del_page : Buddy → (pfn : ℕ) → Option Buddy
del_page s pfn = do
  page ← get_elem? s.map pfn
  k ← page.order
  o ← get_elem? s.orders k
  some (record s {
    map = set s.map pfn (record page { free = false });
    orders = set s.orders k (record {
      pages = without pfn o.pages;
      count = o.count - 1;
      bit = if is_empty (without pfn o.pages) then false else o.bit;
    });
  })

abbrev pub last : List ℕ → Option ℕ
last [] = none
last (q ∷ []) = some q
last (q ∷ r ∷ rs) = last (r ∷ rs)

-- `BuddyFfsSizet` of the bits from an order on.
abbrev pub first_bit : List Order → Option Order
first_bit [] = none
first_bit (o ∷ os) = if o.bit then some o else first_bit os

abbrev pub drop : ℕ → List Order → List Order
drop zero os = os
drop (suc n) [] = []
drop (suc n) (o ∷ os) = drop n os

-- `BuddyLocateFree`; the inner `none` is NX_NULL.
abbrev pub locate_any : Option Order → Option (Option ℕ)
locate_any none = some none
locate_any (some o) = elim (last o.pages) [ none ↦ none | some pfn ↦ some (some pfn) ]

unfoldable pub locate_free : Buddy → (order : ℕ) → Option (Option ℕ)
locate_free s order = elim (get_elem? s.orders order) [
  | none ↦ none
  | some o ↦
      if is_empty o.pages
      then (if o.count == 0 then locate_any (first_bit (drop order s.orders)) else none)
      else (if o.count == 0 then none else locate_any (some o))
]

-- The loop of `PageSplit`, with `n` orders left above `order`.
unfoldable pub split_loop : Buddy → (pfn order n : ℕ) → Option Buddy
unfolding add_page
split_loop s pfn order zero = some s
split_loop s pfn order (suc n) = do
  buddy ← get_elem? s.map (pfn + pow2 (order + n))
  s' ←
      add_page (write_page s (pfn + pow2 (order + n)) (record buddy { order = some (order + n) }))
        (pfn + pow2 (order + n))
  split_loop s' pfn order n

-- `PageSplit` of a page of order `from`.
unfoldable pub page_split : Buddy → (pfn from order : ℕ) → Option Buddy
unfolding split_loop
page_split s pfn from order = do
  s' ← split_loop s pfn order (from - order)
  page ← get_elem? s'.map pfn
  some (write_page s' pfn (record page { order = some order }))

-- `PagePrepareUsed`; the page's address is that of its number.
unfoldable pub page_prepare_used : Buddy → (pfn order : ℕ) → Option (Buddy × Option ℕ)
unfolding del_page page_split
page_prepare_used s pfn order = do
  s1 ← del_page s pfn
  page ← get_elem? s1.map pfn
  from ← page.order
  s2 ← (if ltb order from then page_split s1 pfn from order else some s1)
  used ← get_elem? s2.map pfn
  some (
    record s2 {
      map = set s2.map pfn (record used { reference = 1 });
      used_page = s2.used_page + pow2 order;
    },
    some pfn,
  )

-- `NX_BuddyAllocPage` of at least one page.
unfoldable pub prepare : Buddy → (order : ℕ) → Option ℕ → Option (Buddy × Option ℕ)
unfolding page_prepare_used
prepare s order none = some (s, none)
prepare s order (some pfn) = page_prepare_used s pfn order

unfoldable pub alloc_page : Buddy → (count : ℕ) → Option (Buddy × Option ℕ)
unfolding order_of locate_free prepare
alloc_page s count =
    if count == 0 then none else (locate_free s (order_of count) >>= prepare s (order_of count))

-- `pfn ^ (1UL << order)`
abbrev pub buddy_of : (pfn order : ℕ) → ℕ
buddy_of pfn order = if pfn / pow2 order % 2 == 0 then pfn + pow2 order else pfn - pow2 order

-- The bits of two numbers that differ in one bit, joined and met.
abbrev pub bit_or_pfn : ℕ → ℕ → ℕ
bit_or_pfn a b = if ltb a b then b else a

abbrev pub bit_and_pfn : ℕ → ℕ → ℕ
bit_and_pfn a b = if ltb a b then a else b

abbrev pub is_order : Option ℕ → ℕ → Bool
is_order none k = false
is_order (some o) k = o == k

-- The loop of `PageMerge`, with `n` rounds left before the order exceeds NX_MAX_PAGE_ORDER.
abbrev pub merges : Buddy → (buddy order : ℕ) → Option Page → Bool
merges s buddy order none = false
merges s buddy order (some page) =
    not (ltb s.max_pfn buddy) && (is_order page.order order && page.free)

unfoldable pub merge_loop : Buddy → (pfn order n : ℕ) → Option (Buddy × ℕ × ℕ)
unfolding del_page
merge_loop s pfn order zero = some (s, pfn, order)
merge_loop s pfn order (suc n) =
    let buddy = buddy_of pfn order in
    let next = del_page s buddy >>= λ s1. get_elem? s1.map (bit_or_pfn buddy pfn) >>= λ private.
    merge_loop (write_page s1 (bit_or_pfn buddy pfn) (record private { order = none }))
      (bit_and_pfn buddy pfn) (suc order) n in
    if merges s buddy order (get_elem? s.map buddy) then next else some (s, pfn, order)

-- `PageMerge`, and `BuddyAddPage` of the page that it returns.
unfoldable pub merge_and_add : Buddy → (pfn order : ℕ) → Option Buddy
unfolding merge_loop add_page
merge_and_add s pfn order = do
  r ← merge_loop s pfn order (suc max_page_order - order)
  page ← get_elem? r.0.map r.1
  add_page (write_page r.0 r.1 (record page { order = some r.2 })) r.1

-- `NX_BuddyFreePage` of a page of the system: what follows when no reference is left, the checks on a
-- page, and the whole.
unfoldable pub free_last : Buddy → (pfn : ℕ) → Page → Option ℕ → Option (Buddy × Error)
unfolding merge_and_add
free_last s pfn page none = none
free_last s pfn page (some k) = do
  s' ←
      merge_and_add
        (record s {
          map = set s.map pfn (record page { reference = 0 });
          used_page = s.used_page - pow2 k;
        })
        pfn k
  some (s', eok)

unfoldable pub free_checked : Buddy → (pfn : ℕ) → Page → Option (Buddy × Error)
unfolding free_last
free_checked s pfn page =
    if page.free
    then some (s, efault)
    else (if page.reference == 0
        then none
        else (if page.reference == 1
            then free_last s pfn page page.order
            else some (write_page s pfn (record page { reference = page.reference - 1 }), eagain)))

unfoldable pub free_page : Buddy → (pfn : ℕ) → Option (Buddy × Error)
unfolding free_checked
free_page s pfn =
    if ltb s.max_pfn pfn then some (s, einval) else (get_elem? s.map pfn >>= free_checked s pfn)

-- `NX_BuddyIncreasePage` of a page of the system.
unfoldable pub increase_page : Buddy → (pfn : ℕ) → Option (Buddy × Error)
increase_page s pfn = if ltb s.max_pfn pfn then some (s, einval) else elim (get_elem? s.map pfn) [
  | none ↦ none
  | some page ↦ some (write_page s pfn (record page { reference = page.reference + 1 }), eok)
]
