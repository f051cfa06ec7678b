-- ===== src/Vmnode/Around.antt =====
-- The areas that the collision check of src/mm/vmspace.c does not see, and a node linked in round
-- one.
use nxos.Base.{ℕ, ◌+◌, ◌<◌, ◌^◌, ◌≡◌, refl, false, some, List, [], ◌∷◌, arith}
use nxos.Vmnode.{
  Vmnode, position, position_scan, insert_node, merge_node, merge_prev, merge_next, take_first,
  collides,
}

-- Every area lies strictly inside `[s, e)`.
abbrev pub AllInside : (s e : ℕ) → List Vmnode → Type 0
AllInside s e [] = Unit {0}
AllInside s e (x ∷ xs) = (s < x.start) × (x.start < x.end) × (x.end < e) × AllInside s e xs

-- The collision check passes an area that has nodes strictly inside it.
pub collides-inside :
    (addr size : ℕ) (xs : List Vmnode)
    → addr + size < 2 ^ 64
    → AllInside addr (addr + size) xs
    → collides xs addr size ≡ false
unfolding collides
collides-inside addr size [] w h = refl
collides-inside addr size (x ∷ xs) w h = ground (arith, collides-inside addr size xs w h.3)

-- A node round the only area is linked in before it, and merging changes nothing.
pub insert_around :
    (n x : Vmnode)
    → n.start < x.start
    → x.start < x.end
    → x.end < n.end
    → insert_node (x ∷ []) n ≡ record { before = []; node = n; after = x ∷ [] }
unfolding insert_node position position_scan
insert_around n x h p q = ground arith

pub merge_around :
    (n x : Vmnode)
    → n.start < x.start
    → x.start < x.end
    → x.end < n.end
    → merge_node (record { before = []; node = n; after = x ∷ [] })
      ≡ some (record { before = []; node = n; after = x ∷ [] })
unfolding merge_node merge_prev merge_next take_first
merge_around n x h p q = ground arith
