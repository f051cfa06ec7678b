-- ===== src/Vmnode/Insert.antt =====
-- Linking a node into the ordered list: `VmspaceInsertLinearOrder` and the collision check of
-- src/mm/vmspace.c.
use nxos.Base.{
  ℕ, suc, ◌+◌, ◌≤◌, ◌<◌, ◌≡◌, refl, ap, ◌∙◌, ◌⊎◌, false, some, List, [], ◌∷◌, ◌++◌, arith, leb,
  ◌==◌, if◌then◌else◌, take, drop, dec_le, ◌^◌,
}
use nxos.Vmnode.{Vmnode, nodes_of, position_scan, position, insert_node, collides}
use nxos.Vmnode.Order.{
  Ordered, covers, lookup, last_end, Ordered-mono, Ordered-append, lookup-append, lookup-below,
}

-- The areas that end at `start` or below, from the head of the list.
abbrev pub rank : ℕ → List Vmnode → ℕ
rank start [] = 0
rank start (x ∷ xs) = if leb x.end start then suc (rank start xs) else 0

pub rank-zero : (start lo : ℕ) (xs : List Vmnode) → Ordered lo xs → start < lo → rank start xs ≡ 0
rank-zero start lo [] o h = refl
rank-zero start lo (x ∷ xs) o h = ground arith

position_scan-rank :
    (start lo : ℕ) (xs : List Vmnode) (pos best i : ℕ)
    → Ordered lo xs
    → best ≤ lo
    → position_scan start xs pos best i ≡ (if rank start xs == 0 then pos else i + rank start xs)
unfolding position_scan
position_scan-rank start lo [] pos best i o h = refl
position_scan-rank start lo (x ∷ xs) pos best i o h = ground (
  arith,
  position_scan-rank start x.end xs (suc i) x.end (suc i) o.2,
  position_scan-rank start x.end xs pos best (suc i) o.2,
  rank-zero start x.end xs o.2,
)

-- On an ordered list the search for the nearest area below finds the one before the first area that
-- ends above.
pub position-rank :
    (start lo : ℕ) (xs : List Vmnode) → Ordered lo xs → position start xs ≡ rank start xs
unfolding position
position-rank start lo xs o = ground (arith, position_scan-rank start lo xs 0 0 0 o)

-- No area of the list meets `[s, e)`.
abbrev pub Apart : (s e : ℕ) → List Vmnode → Type 0
Apart s e [] = Unit {0}
Apart s e (x ∷ xs) = ((x.end ≤ s) ⊎ (e ≤ x.start)) × Apart s e xs

-- The list taken apart at the place of a new area.
pub record Gap (lo s e : ℕ) (xs : List Vmnode) : Type 0 where
  pub below : Ordered lo (take (rank s xs) xs)
  pub low : last_end lo (take (rank s xs) xs) ≤ s
  pub above : Ordered e (drop (rank s xs) xs)
  pub whole : take (rank s xs) xs ++ drop (rank s xs) xs ≡ xs

Apart-above :
    (s e lo : ℕ) (xs : List Vmnode) → Ordered lo xs → s < lo → Apart s e xs → s < e → Ordered e xs
Apart-above s e lo [] o h p q = tt
Apart-above s e lo (x ∷ xs) o h p q = ground arith

pub Ordered-Gap :
    (lo s e : ℕ) (xs : List Vmnode) → Ordered lo xs → lo ≤ s → s < e → Apart s e xs → Gap lo s e xs
Ordered-Gap lo s e [] o h q p = record { below = tt; low = h; above = tt; whole = refl }
Ordered-Gap lo s e (x ∷ xs) o h q p = elim (dec_le x.end s) [
  | yes le ↦
      let g = Ordered-Gap x.end s e xs o.2 le q p.1 in
      record {
        below = ground (arith, g.below);
        low = ground (arith, g.low);
        above = ground (arith, g.above);
        whole = ground (arith, g.whole);
      }
  | no gt ↦ record {
    below = ground arith;
    low = ground arith;
    above = ground (arith, Apart-above s e x.end xs o.2);
    whole = ground arith;
  }
]

pub lookup-insert_between :
    (lo a : ℕ) (xs ys : List Vmnode) (n : Vmnode)
    → Ordered lo xs
    → last_end lo xs ≤ n.start
    → n.start < n.end
    → Ordered n.end ys
    → lookup (xs ++ n ∷ ys) a ≡ (if covers n a then some (n.attr, n.flags) else lookup (xs ++ ys) a)
lookup-insert_between lo a xs ys n o h q p = ground (
  arith,
  lookup-append lo a xs (n ∷ ys) (Ordered-append lo xs (n ∷ ys) o (h, q, p)),
  lookup-append lo a xs ys
      (Ordered-append lo xs ys o (Ordered-mono (last_end lo xs) n.end ys (omega arith) p)),
  lookup-below n.end a ys p,
)

-- A node whose area meets no area of an ordered list is linked in so that the list stays ordered,
-- and maps its own area, while every other address is mapped as before.
pub insert_node_lem :
    (lo : ℕ) (xs : List Vmnode) (n : Vmnode)
    → Ordered lo xs
    → lo ≤ n.start
    → n.start < n.end
    → Apart n.start n.end xs
    → Ordered lo (nodes_of (insert_node xs n))
      × ((a : ℕ)
          → lookup (nodes_of (insert_node xs n)) a
            ≡ (if covers n a then some (n.attr, n.flags) else lookup xs a))
unfolding insert_node
insert_node_lem lo xs n o h q p =
    let g = Ordered-Gap lo n.start n.end xs o h q p in
    rw (position-rank n.start lo xs o) (
      Ordered-append lo _ _ g.below (g.low, q, g.above),
      λ a.
          lookup-insert_between lo a _ _ n g.below g.low q g.above
          ∙ ap (λ l. if covers n a then some (n.attr, n.flags) else lookup l a) g.whole,
    )

-- Without the new node the list is the old one.
pub insert_node-rest :
    (lo : ℕ) (xs : List Vmnode) (n : Vmnode)
    → Ordered lo xs
    → lo ≤ n.start
    → n.start < n.end
    → Apart n.start n.end xs
    → ((insert_node xs n).before ++ (insert_node xs n).after ≡ xs) × ((insert_node xs n).node ≡ n)
unfolding insert_node
insert_node-rest lo xs n o h q p =
    rw (position-rank n.start lo xs o) ((Ordered-Gap lo n.start n.end xs o h q p).whole, refl)

-- No area lies strictly inside `[s, e)`, with room on both sides.
abbrev pub NoneInside : (s e : ℕ) → List Vmnode → Type 0
NoneInside s e [] = Unit {0}
NoneInside s e (x ∷ xs) = ((x.start ≤ s) ⊎ (e ≤ x.end)) × NoneInside s e xs

-- The collision check misses only the areas strictly inside the new one.
pub collides-Apart :
    (lo addr size : ℕ) (xs : List Vmnode)
    → Ordered lo xs
    → addr + size < 2 ^ 64
    → 0 < size
    → NoneInside addr (addr + size) xs
    → collides xs addr size ≡ false
    → Apart addr (addr + size) xs
unfolding collides
collides-Apart lo addr size [] o w pos i h = tt
collides-Apart lo addr size (x ∷ xs) o w pos i h =
    (ground arith, collides-Apart x.end addr size xs o.2 w pos i.1 (ground arith))

pub insert_node-node : (xs : List Vmnode) (n : Vmnode) → (insert_node xs n).node ≡ n
unfolding insert_node
insert_node-node xs n = refl
