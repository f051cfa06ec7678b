-- ===== src/Buddy/Merge.antt =====
-- `PageMerge` of src/mm/buddy.c, and the page that it returns put in its free list.
use nxos.Base.{
  ℕ, zero, suc, ◌+◌, ◌-◌, ◌≤◌, ◌<◌, ◌≡◌, ◌≢◌, refl, ap, sym, subst, ◌∙◌, ◌⊎◌, inl, inr, true, false,
  Option, none, some, ltb, arith, get_elem?, set, length, get_elem?-set_ne, get_elem?-total,
  Bool-cases,
}
use nxos.Buddy.{
  pow2, max_page_order, Page, Buddy, is_order, del_page, write_page, buddy_of, bit_or_pfn,
  bit_and_pfn, merges, merge_loop, merge_and_add,
}
use nxos.Buddy.Cover.{pow2_pos, pow2_lt, covers, covers_self, covers_buddies, buddy_of-cases}
use nxos.Buddy.Lists.{free_cover, IsSound}
use nxos.Buddy.Blocks.{
  SameZone, SameZone-trans, Removed, del_page-Removed, add_page-Added, write_clear-IsSound,
}
use nxos.Buddy.Split.{length-zone}

-- A block of order `k` at `pfn` that is in no free list.
pub record IsOut (s : Buddy) (pfn k : ℕ) : Type 0 where
  pub sound : IsSound s
  pub apart : (p : ℕ) → covers pfn k p + free_cover s p ≤ 1
  pub fits : pfn + pow2 k ≤ length s.map
  pub small : length s.map < pow2 21

-- `s'` is `s` with free blocks taken from it, which are with the block at `pfn` the block at `q`.
pub record Merged (s : Buddy) (pfn k : ℕ) (s' : Buddy) (q j : ℕ) : Type 0 where
  pub order_lt : j < 21
  pub out : IsOut s' q j
  pub cover : (p : ℕ) → covers q j p + free_cover s' p ≡ covers pfn k p + free_cover s p
  pub zone : SameZone s s'
  pub others :
      (b : ℕ) → covers pfn k b + free_cover s b ≡ 0 → get_elem? s'.map b ≡ get_elem? s.map b
  pub alone : merges s' (buddy_of q j) j (get_elem? s'.map (buddy_of q j)) ≡ false

abbrev pub MergeOutcome : Buddy → (pfn k n : ℕ) → Type 0
MergeOutcome s pfn k n =
    (s' : Buddy) × (q : ℕ) × (j : ℕ) × (merge_loop s pfn k n ≡ some (s', q, j))
    × Merged s pfn k s' q j

pub IsOut-order : (s : Buddy) (pfn k : ℕ) → IsOut s pfn k → k < 21
IsOut-order s pfn k out = pow2_lt k 21 (omega (arith, out.fits, out.small))

-- What `merges` tests.
merges-true :
    (s : Buddy) (buddy k : ℕ) (o : Option Page)
    → merges s buddy k o ≡ true
    → (page : Page) × (o ≡ some page) × (page.free ≡ true) × (page.order ≡ some k)
merges-true s buddy k none h = absurd (ground (arith, h))
merges-true s buddy k (some page) h =
    (page, refl, ground (arith, h), order page.order (ground (arith, h)))
  where
    order : (o : Option ℕ) → is_order o k ≡ true → o ≡ some k
    order none is = absurd (ground (arith, is))
    order (some i) is = ap some (ground (arith, is))

-- One round: the buddy leaves its free list, and the upper of the two pages loses its order.
record Round (s : Buddy) (pfn k : ℕ) (s1 : Buddy) (private : Page) : Type 0 where
  del : del_page s (buddy_of pfn k) ≡ some s1
  upper : get_elem? s1.map (bit_or_pfn (buddy_of pfn k) pfn) ≡ some private
  out :
      IsOut
        (write_page s1 (bit_or_pfn (buddy_of pfn k) pfn) (record private { order = none }))
        (bit_and_pfn (buddy_of pfn k) pfn)
        (suc k)
  cover : (p : ℕ) → covers (buddy_of pfn k) k p + free_cover s1 p ≡ free_cover s p
  zone : SameZone s s1
  others :
      (b : ℕ)
      → covers pfn k b + free_cover s b ≡ 0
      → get_elem? (set s1.map (bit_or_pfn (buddy_of pfn k) pfn) (record private { order = none })) b
        ≡ get_elem? s.map b

bit_or_pfn-cases : (a b : ℕ) → (bit_or_pfn a b ≡ a) ⊎ (bit_or_pfn a b ≡ b)
bit_or_pfn-cases a b = elim (Bool-cases (ltb a b)) [
  | inl e ↦ inr (rw e refl)
  | inr e ↦ inl (rw e refl)
]

joined_fits :
    (pfn k l : ℕ)
    → pfn + pow2 k ≤ l
    → buddy_of pfn k + pow2 k ≤ l
    → bit_and_pfn (buddy_of pfn k) pfn + pow2 (suc k) ≤ l
joined_fits pfn k l a b = elim (buddy_of-cases pfn k) [
  | inl e ↦ ground (arith, e, pow2_pos k, a, b)
  | inr e ↦ ground (arith, e, pow2_pos k, a, b)
]

round :
    (s : Buddy) (pfn k : ℕ) (page : Page)
    → IsOut s pfn k
    → get_elem? s.map (buddy_of pfn k) ≡ some page
    → page.free ≡ true
    → page.order ≡ some k
    → (s1 : Buddy) × (private : Page) × Round s pfn k s1 private
round s pfn k page out at free is =
    rest (del_page-Removed s buddy k page out.sound (IsOut-order s pfn k out) at free is)
  where
    buddy : ℕ
    buddy = buddy_of pfn k

    upper : ℕ
    upper = bit_or_pfn (buddy_of pfn k) pfn

    clear : (s1 : Buddy) → Removed s buddy k page s1 → free_cover s1 upper ≡ 0
    clear s1 gone = elim (bit_or_pfn-cases buddy pfn) [
      | inl e ↦
          subst (λ x. free_cover s1 x ≡ 0) (sym e)
            (omega (arith, gone.cover buddy, out.apart buddy, covers_self buddy k))
      | inr e ↦
          subst (λ x. free_cover s1 x ≡ 0) (sym e)
            (omega (arith, gone.cover pfn, out.apart pfn, covers_self pfn k))
    ]

    in_block :
        (b : ℕ)
        → covers pfn k b + free_cover s b ≡ 0
        → (s1 : Buddy) → Removed s buddy k page s1
        → (b ≢ buddy) × (b ≢ upper)
    in_block b away s1 gone =
        let not_buddy : b ≢ buddy = λ e.
          absurd (
            omega (arith, away, gone.cover b, ap (λ x. covers buddy k x) e, covers_self buddy k)) in
        let not_pfn : b ≢ pfn =
          λ e. absurd (omega (arith, away, ap (λ x. covers pfn k x) e, covers_self pfn k)) in
        (
          not_buddy,
          elim (bit_or_pfn-cases buddy pfn) [
            | inl e ↦ λ same. not_buddy (same ∙ e)
            | inr e ↦ λ same. not_pfn (same ∙ e)
          ],
        )

    upper_lt : (s1 : Buddy) → Removed s buddy k page s1 → upper < length s1.map
    upper_lt s1 gone = elim (bit_or_pfn-cases buddy pfn) [
      | inl e ↦ omega (arith, e, gone.inside, pow2_pos k)
      | inr e ↦
          omega (arith, e, out.fits, length-zone s s1 out.sound gone.sound gone.zone, pow2_pos k)
    ]

    rest :
        ((s1 : Buddy) × Removed s buddy k page s1)
        → (s1 : Buddy) × (private : Page) × Round s pfn k s1 private
    rest (s1, gone) =
        let (private, there) = get_elem?-total s1.map upper (upper_lt s1 gone) in
        let long = length-zone s s1 out.sound gone.sound gone.zone in
        let new : Page = record private { order = none } in
        let sound =
          write_clear-IsSound s1 upper private new gone.sound there (clear s1 gone)
            (λ j. ground arith) in
        let long' =
          length-zone s1 (write_page s1 upper new) gone.sound sound
            (record { max_same = refl; start_same = refl; used_same = refl }) in
        (
          s1,
          private,
          record {
            del = gone.run;
            upper = there;
            out = record {
              sound = sound;
              apart = λ p. omega (arith, covers_buddies pfn k p, gone.cover p, out.apart p);
              fits =
                  joined_fits pfn k (length (set s1.map upper new))
                    (omega (arith, out.fits, long, long')) (omega (arith, gone.inside, long'));
              small = omega (arith, out.small, long, long');
            };
            cover = gone.cover;
            zone = gone.zone;
            others = λ b away.
                let (not_buddy, not_upper) = in_block b away s1 gone in
                get_elem?-set_ne s1.map upper b new (λ e. not_upper (sym e))
                ∙ gone.others b not_buddy;
          },
        )

stays :
    (s : Buddy) (pfn k : ℕ)
    → IsOut s pfn k
    → merges s (buddy_of pfn k) k (get_elem? s.map (buddy_of pfn k)) ≡ false
    → Merged s pfn k s pfn k
stays s pfn k out b = record {
  order_lt = IsOut-order s pfn k out;
  out = out;
  cover = λ p. refl;
  zone = record { max_same = refl; start_same = refl; used_same = refl };
  others = λ b away. refl;
  alone = b;
}

-- A block that no free block overlaps, in a sound zone of less than 2 ^ 21 pages: the loop ends without a
-- failure, as many rounds as it may need being left, with a block of an order below 21 in the zone, whose
-- buddy is not a free block of its order. Its pages and the free ones are together the pages of the block
-- and the free ones before, and every other page keeps its state.
pub merge_loop-Merged :
    (s : Buddy) (pfn k n : ℕ) → IsOut s pfn k → k + n ≡ 21 → MergeOutcome s pfn k n
unfolding merge_loop
merge_loop-Merged s pfn k zero out total = absurd (omega (arith, IsOut-order s pfn k out, total))
merge_loop-Merged s pfn k (suc n) out total =
    case (λ s1. merge_loop-Merged s1 (bit_and_pfn (buddy_of pfn k) pfn) (suc k) n)
      (Bool-cases (merges s (buddy_of pfn k) k (get_elem? s.map (buddy_of pfn k))))
  where
    Again : Type 0
    Again =
        (s1 : Buddy)
        → IsOut s1 (bit_and_pfn (buddy_of pfn k) pfn) (suc k)
        → suc k + n ≡ 21
        → MergeOutcome s1 (bit_and_pfn (buddy_of pfn k) pfn) (suc k) n

    goes :
        Again
        → merges s (buddy_of pfn k) k (get_elem? s.map (buddy_of pfn k)) ≡ true
        → ((page : Page) × (get_elem? s.map (buddy_of pfn k) ≡ some page)
            × (page.free ≡ true)
            × (page.order ≡ some k))
        → MergeOutcome s pfn k (suc n)
    goes again b (page, at, free, is) =
        let (s1, private, r) = round s pfn k page out at free is in
        let (s2, q, j, run, merged) =
          again (write_page s1 (bit_or_pfn (buddy_of pfn k) pfn) (record private { order = none }))
            r.out (omega (arith, total)) in
        (
          s2,
          q,
          j,
          rw b (rw r.del (rw r.upper run)),
          record {
            order_lt = merged.order_lt;
            out = merged.out;
            cover = λ p. omega (arith, merged.cover p, r.cover p, covers_buddies pfn k p);
            zone = record {
              max_same = merged.zone.max_same ∙ r.zone.max_same;
              start_same = merged.zone.start_same ∙ r.zone.start_same;
              used_same = merged.zone.used_same ∙ r.zone.used_same;
            };
            others = λ p away.
                merged.others p (omega (arith, away, r.cover p, covers_buddies pfn k p))
                ∙ r.others p away;
            alone = merged.alone;
          },
        )

    case :
        Again
        → (merges s (buddy_of pfn k) k (get_elem? s.map (buddy_of pfn k)) ≡ true)
          ⊎ (merges s (buddy_of pfn k) k (get_elem? s.map (buddy_of pfn k)) ≡ false)
        → MergeOutcome s pfn k (suc n)
    case again (inl b) =
        goes again b (merges-true s (buddy_of pfn k) k (get_elem? s.map (buddy_of pfn k)) b)
    case again (inr b) = (s, pfn, k, rw b refl, stays s pfn k out b)

-- `s'` is `s` with the block at `pfn` free.
pub record Joined (s : Buddy) (pfn k : ℕ) (s' : Buddy) : Type 0 where
  pub sound : IsSound s'
  pub cover : (p : ℕ) → free_cover s' p ≡ covers pfn k p + free_cover s p
  pub zone : SameZone s s'
  pub others :
      (b : ℕ) → covers pfn k b + free_cover s b ≡ 0 → get_elem? s'.map b ≡ get_elem? s.map b

pub merge_and_add-Joined :
    (s : Buddy) (pfn k : ℕ)
    → IsOut s pfn k
    → (s' : Buddy) × (merge_and_add s pfn k ≡ some s') × Joined s pfn k s'
unfolding merge_and_add
merge_and_add-Joined s pfn k out = rest (
    merge_loop-Merged s pfn k (suc max_page_order - k) out (omega (arith, IsOut-order s pfn k out)))
  where
    rest :
        MergeOutcome s pfn k (suc max_page_order - k)
        → (s' : Buddy) × (merge_and_add s pfn k ≡ some s') × Joined s pfn k s'
    rest (s1, q, j, run, merged) =
        let o = merged.out in
        let (page, at) = get_elem?-total s1.map q (omega (arith, o.fits, pow2_pos j)) in
        let (s2, added) =
          add_page-Added s1 q j page o.sound (IsOut-order s1 q j o) at
            (omega (arith, o.apart q, covers_self q j)) o.fits in
        (
          s2,
          rw run (rw at added.run),
          record {
            sound = added.sound;
            cover = λ p. omega (arith, added.cover p, merged.cover p);
            zone = SameZone-trans merged.zone added.zone;
            others = λ b away.
                added.others b (λ e.
                  absurd (
                    omega (arith, away, merged.cover b, ap (λ x. covers q j x) e, covers_self q j)))
                ∙ merged.others b away;
          },
        )
