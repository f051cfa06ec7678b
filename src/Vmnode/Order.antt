-- ===== src/Vmnode/Order.antt =====
-- The list of src/mm/vmspace.c in address order, and what it maps each address to.
use nxos.Base.{
  ℕ, ◌-◌, ◌≤◌, ◌<◌, ◌≡◌, refl, Bool, ◌&&◌, Option, none, some, List, [], ◌∷◌, ◌++◌, arith, ltb, leb,
  if◌then◌else◌,
}
use nxos.Vmnode.{Vmnode}

-- The areas are not empty, do not overlap, rise along the list and start at `lo` or above.
abbrev pub Ordered : ℕ → List Vmnode → Type 0
Ordered lo [] = Unit {0}
Ordered lo (x ∷ xs) = (lo ≤ x.start) × (x.start < x.end) × Ordered x.end xs

abbrev pub covers : Vmnode → ℕ → Bool
covers x a = leb x.start a && ltb a x.end

-- The attributes and flags of the first area that holds an address.
abbrev pub lookup : List Vmnode → ℕ → Option (ℕ × ℕ)
lookup [] a = none
lookup (x ∷ xs) a = if covers x a then some (x.attr, x.flags) else lookup xs a

-- The end of the last area, `lo` of no area.
abbrev pub last_end : ℕ → List Vmnode → ℕ
last_end lo [] = lo
last_end lo (x ∷ xs) = last_end x.end xs

pub Ordered-mono : (lo hi : ℕ) (xs : List Vmnode) → lo ≤ hi → Ordered hi xs → Ordered lo xs
Ordered-mono lo hi [] h o = tt
Ordered-mono lo hi (x ∷ xs) h o = (omega arith, o.1, o.2)

pub last_end-le : (lo : ℕ) (xs : List Vmnode) → Ordered lo xs → lo ≤ last_end lo xs
last_end-le lo [] o = omega arith
last_end-le lo (x ∷ xs) o = omega (arith, last_end-le x.end xs o.2)

pub Ordered-append :
    (lo : ℕ) (xs ys : List Vmnode)
    → Ordered lo xs
    → Ordered (last_end lo xs) ys
    → Ordered lo (xs ++ ys)
Ordered-append lo [] ys o p = p
Ordered-append lo (x ∷ xs) ys o p = (o.0, o.1, Ordered-append x.end xs ys o.2 p)

pub Ordered-left : (lo : ℕ) (xs ys : List Vmnode) → Ordered lo (xs ++ ys) → Ordered lo xs
Ordered-left lo [] ys o = tt
Ordered-left lo (x ∷ xs) ys o = (o.0, o.1, Ordered-left x.end xs ys o.2)

pub Ordered-right :
    (lo : ℕ) (xs ys : List Vmnode) → Ordered lo (xs ++ ys) → Ordered (last_end lo xs) ys
Ordered-right lo [] ys o = o
Ordered-right lo (x ∷ xs) ys o = Ordered-right x.end xs ys o.2

pub lookup-below : (lo a : ℕ) (xs : List Vmnode) → Ordered lo xs → a < lo → lookup xs a ≡ none
lookup-below lo a [] o h = refl
lookup-below lo a (x ∷ xs) o h = ground (arith, lookup-below x.end a xs o.2)

pub lookup-above :
    (lo a : ℕ) (xs : List Vmnode) → Ordered lo xs → last_end lo xs ≤ a → lookup xs a ≡ none
lookup-above lo a [] o h = refl
lookup-above lo a (x ∷ xs) o h =
    ground (arith, lookup-above x.end a xs o.2, last_end-le x.end xs o.2)

-- An address before the second part is looked up in the first, any other in the second.
pub lookup-append :
    (lo a : ℕ) (xs ys : List Vmnode)
    → Ordered lo (xs ++ ys)
    → lookup (xs ++ ys) a ≡ (if ltb a (last_end lo xs) then lookup xs a else lookup ys a)
lookup-append lo a [] ys o = ground (arith, lookup-below lo a ys o)
lookup-append lo a (x ∷ xs) ys o =
    ground
      (arith, lookup-append x.end a xs ys o.2, last_end-le x.end xs (Ordered-left x.end xs ys o.2))

pub last_end-append :
    (lo : ℕ) (xs ys : List Vmnode) → last_end lo (xs ++ ys) ≡ last_end (last_end lo xs) ys
last_end-append lo [] ys = refl
last_end-append lo (x ∷ xs) ys = last_end-append x.end xs ys

-- An address range without mappings bounds the list.
pub last_end-le_of_lookup :
    (lo top : ℕ) (xs : List Vmnode)
    → Ordered lo xs
    → lo ≤ top
    → ((a : ℕ) → top ≤ a → lookup xs a ≡ none)
    → last_end lo xs ≤ top
last_end-le_of_lookup lo top [] o h none_above = h
last_end-le_of_lookup lo top (x ∷ xs) o h none_above =
    last_end-le_of_lookup x.end top xs o.2 under λ a le. ground (arith, none_above a le)
  where
    under : x.end ≤ top
    under = ground (arith, none_above (x.end - 1))

pub end-le-last_end :
    (lo : ℕ) (xs ys : List Vmnode) (n : Vmnode)
    → Ordered lo (xs ++ n ∷ ys)
    → n.end ≤ last_end lo (xs ++ n ∷ ys)
end-le-last_end lo xs ys n o =
    omega (
      arith,
      last_end-append lo xs (n ∷ ys),
      last_end-le n.end ys (Ordered-right lo xs (n ∷ ys) o).2,
    )
