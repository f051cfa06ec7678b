-- ===== src/Vmnode/Merge.antt =====
-- `VmspaceMergeNode` of src/mm/vmspace.c: joining a node with its neighbours changes the list, and
-- not what it maps.
use nxos.Base.{
  ℕ, ◌≤◌, ◌<◌, ◌≡◌, refl, ◌∙◌, inl, inr, Option, none, some, List, [], ◌∷◌, ◌++◌, arith,
  Option-cases, Bool-cases,
}
use nxos.Vmnode.{
  Vmnode, Focus, nodes_of, cons_rest, take_first, is_prev, is_next, merge_prev, merge_next,
  merge_node,
}
use nxos.Vmnode.Order.{Ordered, lookup, last_end, Ordered-right}

-- Two lists of areas that are ordered from `lo` on and map every address alike.
pub record Same (lo : ℕ) (xs ys : List Vmnode) : Type 0 where
  pub ordered : Ordered lo ys
  pub alike : (a : ℕ) → lookup ys a ≡ lookup xs a

Same-cons :
    (lo : ℕ) (x : Vmnode) (xs ys : List Vmnode)
    → Ordered lo (x ∷ xs)
    → Same x.end xs ys
    → Same lo (x ∷ xs) (x ∷ ys)
Same-cons lo x xs ys o s = record {
  ordered = (o.0, o.1, s.ordered);
  alike = λ a. ground (arith, s.alike a);
}

start-le : (lo : ℕ) (xs ys : List Vmnode) (n : Vmnode) → Ordered lo (xs ++ n ∷ ys) → lo ≤ n.start
start-le lo [] ys n o = o.0
start-le lo (x ∷ xs) ys n o = omega (arith, start-le x.end xs ys n o.2, o.0, o.1)

cons_rest-eq_some :
    (y : Vmnode) (o : Option (Vmnode × List Vmnode)) (x : Vmnode) (rest : List Vmnode)
    → cons_rest y o ≡ some (x, rest)
    → (rest' : List Vmnode) × (o ≡ some (x, rest')) × (rest ≡ y ∷ rest')
cons_rest-eq_some y none x rest e = absurd (ground arith)
cons_rest-eq_some y (some (z, zs)) x rest e = (zs, ground arith, ground arith)

-- A neighbour below is taken off, and the node grows down to its start.
absorb_prev :
    (lo : ℕ) (xs rest ys : List Vmnode) (n x : Vmnode)
    → Ordered lo (xs ++ n ∷ ys)
    → take_first (is_prev n) xs ≡ some (x, rest)
    → Same lo (xs ++ n ∷ ys) (rest ++ record n { start = x.start } ∷ ys)
unfolding take_first
absorb_prev lo [] rest ys n x o e = ground arith
absorb_prev lo (y ∷ []) rest ys n x o e = record {
  ordered = ground arith;
  alike = λ a. ground arith;
}
absorb_prev lo (y ∷ z ∷ zs) rest ys n x o e =
    let far = start-le z.end zs ys n o.2.2 in
    let (rest', found, split) =
      cons_rest-eq_some y (take_first (is_prev n) (z ∷ zs)) x rest (ground (arith, far)) in
    rw split (
      Same-cons lo y (z ∷ zs ++ n ∷ ys) (rest' ++ record n { start = x.start } ∷ ys) o
        (absorb_prev y.end (z ∷ zs) rest' ys n x o.2 found))

no_prev_above :
    (lo : ℕ) (xs : List Vmnode) (n : Vmnode)
    → Ordered lo xs
    → n.start ≤ lo
    → take_first (is_prev n) xs ≡ none
unfolding take_first
no_prev_above lo [] n o h = refl
no_prev_above lo (x ∷ xs) n o h = ground (arith, no_prev_above x.end xs n o.2)

no_next_above :
    (lo : ℕ) (xs : List Vmnode) (n : Vmnode)
    → Ordered lo xs
    → n.end < lo
    → take_first (is_next n) xs ≡ none
unfolding take_first
no_next_above lo [] n o h = refl
no_next_above lo (x ∷ xs) n o h = ground (arith, no_next_above x.end xs n o.2)

no_next_below :
    (lo : ℕ) (xs ys : List Vmnode) (n : Vmnode)
    → Ordered lo (xs ++ n ∷ ys)
    → n.start < n.end
    → take_first (is_next n) xs ≡ none
unfolding take_first
no_next_below lo [] ys n o h = refl
no_next_below lo (x ∷ xs) ys n o h =
    ground (arith, no_next_below x.end xs ys n o.2 h, start-le x.end xs ys n o.2)

pub Same-prefix :
    (lo : ℕ) (zs xs ys : List Vmnode)
    → Ordered lo (zs ++ xs)
    → Same (last_end lo zs) xs ys
    → Same lo (zs ++ xs) (zs ++ ys)
Same-prefix lo [] xs ys o s = s
Same-prefix lo (z ∷ zs) xs ys o s =
    Same-cons lo z (zs ++ xs) (zs ++ ys) o (Same-prefix z.end zs xs ys o.2 s)

-- A neighbour above is taken off, and the node grows up to its end.
absorb_next :
    (lo : ℕ) (ys rest : List Vmnode) (n x : Vmnode)
    → Ordered lo (n ∷ ys)
    → take_first (is_next n) ys ≡ some (x, rest)
    → Same lo (n ∷ ys) (record n { end = x.end } ∷ rest)
unfolding take_first
absorb_next lo [] rest n x o e = ground arith
absorb_next lo (y ∷ ys) rest n x o e = elim (Bool-cases (is_next n y)) [
  | inl hit ↦ record { ordered = ground arith; alike = λ a. ground arith }
  | inr miss ↦ absurd (ground (arith, no_next_above y.end ys n o.2.2))
]

pub Same-refl : (lo : ℕ) (xs : List Vmnode) → Ordered lo xs → Same lo xs xs
Same-refl lo xs o = record { ordered = o; alike = λ a. refl }

pub Same-trans : (lo : ℕ) (xs ys zs : List Vmnode) → Same lo xs ys → Same lo ys zs → Same lo xs zs
Same-trans lo xs ys zs s t = record { ordered = t.ordered; alike = λ a. t.alike a ∙ s.alike a }

-- A merge that ends with a focus whose list is ordered and maps what `xs` maps.
abbrev pub Merged : ℕ → List Vmnode → Option Focus → Type 0
Merged lo xs r = (g : Focus) × (r ≡ some g) × Same lo xs (nodes_of g)

pub node_not_empty :
    (lo : ℕ) (xs ys : List Vmnode) (n : Vmnode) → Ordered lo (xs ++ n ∷ ys) → n.start < n.end
node_not_empty lo [] ys n o = o.1
node_not_empty lo (x ∷ xs) ys n o = node_not_empty x.end xs ys n o.2

merge_prev-Merged :
    (lo : ℕ) (f : Focus) → Ordered lo (nodes_of f) → Merged lo (nodes_of f) (merge_prev f)
unfolding merge_prev
merge_prev-Merged lo f o = elim (Option-cases (take_first (is_prev node) before)) [
  | inl e ↦ (
    f,
    ground (
      arith,
      e,
      node_not_empty lo before after node o,
      no_prev_above node.end after node (Ordered-right lo before (node ∷ after) o).2,
    ),
    Same-refl lo (nodes_of f) o,
  )
  | inr ((x, rest), e) ↦ (
    record f { before = rest; node = record node { start = x.start } },
    ground (arith, e),
    absorb_prev lo before rest after node x o e,
  )
]
  where
    open f use {before, node, after}

merge_next-Merged :
    (lo : ℕ) (f : Focus) → Ordered lo (nodes_of f) → Merged lo (nodes_of f) (merge_next f)
unfolding merge_next
merge_next-Merged lo f o = elim (Option-cases (take_first (is_next node) after)) [
  | inl e ↦ (f, ground (arith, e, below, filled), Same-refl lo (nodes_of f) o)
  | inr ((x, rest), e) ↦ (
    record f { node = record node { end = x.end }; after = rest },
    ground (arith, e, below, filled),
    Same-prefix lo before (node ∷ after) (record node { end = x.end } ∷ rest) o (
        absorb_next (last_end lo before) after rest node x
          (Ordered-right lo before (node ∷ after) o) e),
  )
]
  where
    open f use {before, node, after}

    filled : node.start < node.end
    filled = node_not_empty lo before after node o

    below : take_first (is_next node) before ≡ none
    below = no_next_below lo before after node o filled

-- `VmspaceMergeNode` on an ordered list uses no freed node, leaves the list ordered and changes the
-- mapping of no address.
pub merge_node-Merged :
    (lo : ℕ) (f : Focus) → Ordered lo (nodes_of f) → Merged lo (nodes_of f) (merge_node f)
unfolding merge_node
merge_node-Merged lo f o =
    let (g, at_g, s) = merge_prev-Merged lo f o in
    let (h, at_h, t) = merge_next-Merged lo g s.ordered in
    (h, ground arith, Same-trans lo (nodes_of f) (nodes_of g) (nodes_of h) s t)
