-- ===== src/Vmnode/Free.antt =====
-- `GetAddrFromMapArea` of src/mm/vmspace.c: the search for a gap between the nodes of the map area.
use nxos.Base.{
  ℕ, ◌+◌, ◌≤◌, ◌<◌, ◌^◌, ◌≡◌, refl, ◌⊎◌, inr, some, List, [], ◌∷◌, arith, page_size, ◌%◌,
}
use nxos.Vmnode.{Vmnode, free_scan, free_address}
use nxos.Vmnode.Order.{Ordered}

-- Every node that lies in the map area leaves `[s, e)` free.
abbrev pub ApartInArea : (map_start map_end s e : ℕ) → List Vmnode → Type 0
ApartInArea map_start map_end s e [] = Unit {0}
ApartInArea map_start map_end s e (x ∷ xs) =
    (map_start ≤ x.start → x.end ≤ map_end → (x.end ≤ s) ⊎ (e ≤ x.start))
    × ApartInArea map_start map_end s e xs

above-ApartInArea :
    (map_start map_end s e lo : ℕ) (xs : List Vmnode)
    → Ordered lo xs
    → e ≤ lo
    → ApartInArea map_start map_end s e xs
above-ApartInArea map_start map_end s e lo [] o h = tt
above-ApartInArea map_start map_end s e lo (x ∷ xs) o h =
    (λ _ _. inr (omega arith), above-ApartInArea map_start map_end s e x.end xs o.2 (omega arith))

-- The search keeps `free` at or above every node of the area that it has passed.
free_scan-ApartInArea :
    (map_start map_end size lo free r : ℕ) (xs : List Vmnode)
    → Ordered lo xs
    → free ≤ map_end
    → map_end + size < 2 ^ 64
    → (free ≤ lo) ⊎ (free ≤ map_start)
    → free_scan map_start map_end size xs free ≡ some r
    → (free ≤ r) × ApartInArea map_start map_end r (r + size) xs
unfolding free_scan
free_scan-ApartInArea map_start map_end size lo free r [] o h w p e = (ground arith, tt)
free_scan-ApartInArea map_start map_end size lo free r (x ∷ xs) o h w p e = ground (
  arith,
  free_scan-ApartInArea map_start map_end size x.end x.end r xs o.2,
  free_scan-ApartInArea map_start map_end size x.end free r xs o.2,
  above-ApartInArea map_start map_end free (free + size) x.end xs o.2,
)

-- Every area starts and ends at a page address.
abbrev pub InPages : List Vmnode → Type 0
InPages [] = Unit {0}
InPages (x ∷ xs) = (x.start % page_size ≡ 0) × (x.end % page_size ≡ 0) × InPages xs

free_scan-aligned :
    (map_start map_end size free r : ℕ) (xs : List Vmnode)
    → InPages xs
    → free % page_size ≡ 0
    → free_scan map_start map_end size xs free ≡ some r
    → r % page_size ≡ 0
unfolding free_scan
free_scan-aligned map_start map_end size free r [] p h e = ground arith
free_scan-aligned map_start map_end size free r (x ∷ xs) p h e = ground (
  arith,
  free_scan-aligned map_start map_end size free r xs p.2,
  free_scan-aligned map_start map_end size x.end r xs p.2,
)

pub free_address-aligned :
    (map_start map_end size r : ℕ) (xs : List Vmnode)
    → InPages xs
    → map_start % page_size ≡ 0
    → free_address map_start map_end size xs ≡ some r
    → r % page_size ≡ 0
unfolding free_address
free_address-aligned map_start map_end size r xs p h e =
    free_scan-aligned map_start map_end size map_start r xs p h e

-- On an ordered list `GetAddrFromMapArea` returns an address in or after the map area whose `size`
-- bytes meet no node that lies in the map area.
pub free_address-ApartInArea :
    (map_start map_end size lo r : ℕ) (xs : List Vmnode)
    → Ordered lo xs
    → map_start ≤ map_end
    → map_end + size < 2 ^ 64
    → free_address map_start map_end size xs ≡ some r
    → (map_start ≤ r) × ApartInArea map_start map_end r (r + size) xs
unfolding free_address
free_address-ApartInArea map_start map_end size lo r xs o h w e =
    free_scan-ApartInArea map_start map_end size lo map_start r xs o h w (inr (omega arith)) e

-- No node lies in the map area.
abbrev pub AreaIsEmpty : (map_start map_end : ℕ) → List Vmnode → Type 0
AreaIsEmpty map_start map_end [] = Unit {0}
AreaIsEmpty map_start map_end (x ∷ xs) =
    ((x.start < map_start) ⊎ (map_end < x.end)) × AreaIsEmpty map_start map_end xs

free_scan-empty :
    (map_start map_end size free : ℕ) (xs : List Vmnode)
    → AreaIsEmpty map_start map_end xs
    → free_scan map_start map_end size xs free ≡ some free
unfolding free_scan
free_scan-empty map_start map_end size free [] h = refl
free_scan-empty map_start map_end size free (x ∷ xs) h =
    ground (arith, free_scan-empty map_start map_end size free xs h.1)

-- While no node lies in the map area, `GetAddrFromMapArea` returns its start for every size, also
-- for a size that the map area cannot hold.
pub free_address-unbounded :
    (map_start map_end size : ℕ) (xs : List Vmnode)
    → AreaIsEmpty map_start map_end xs
    → map_end < map_start + size
    → (r : ℕ) × (free_address map_start map_end size xs ≡ some r) × (map_end < r + size)
unfolding free_address
free_address-unbounded map_start map_end size xs h big =
    (map_start, free_scan-empty map_start map_end size map_start xs h, big)
