-- ===== src/Vmnode/Split.antt =====
-- `VmspaceFindNode` and `VmspaceSplitNode` of src/mm/vmspace.c: cutting a node down to a part of its
-- area.
use nxos.Base.{
  ℕ, ◌+◌, ◌≤◌, ◌<◌, ◌^◌, not, ◌≡◌, ◌≢◌, refl, sym, subst, ap, ◌∙◌, ◌⊎◌, inl, inr, Bool, true, none,
  some, List, [], ◌∷◌, ◌++◌, arith, ◌==◌, if◌then◌else◌, Option-cases, Bool-cases, length, take,
  drop, add_word, sub_word, Error, eok, enomem,
}
use nxos.Vmnode.{
  Vmnode, Focus, nodes_of, insert_node, insert_beside, cut_prev, cut_next, split_node, find_node,
  vmnode_create,
}
use nxos.Vmnode.Order.{
  Ordered, Ordered-mono, covers, lookup, last_end, Ordered-right, last_end-le, Ordered-left,
  Ordered-append, lookup-append, lookup-below, lookup-above,
}
use mathlib.Core.List.{append_assoc}
use nxos.Vmnode.Insert.{
  Apart, insert_node_lem, rank, position-rank, rank-zero, lookup-insert_between,
}
use nxos.Vmnode.Merge.{Same, Same-prefix, Same-trans, Same-refl}

-- The node that `VmspaceFindNode` returns is a node of the list and holds the whole area.
pub find_node-some :
    (xs : List Vmnode) (addr size : ℕ) (f : Focus)
    → find_node xs addr size ≡ some f
    → (nodes_of f ≡ xs) × (f.node.start ≤ addr) × (add_word addr size ≤ f.node.end)
unfolding find_node
find_node-some [] addr size f e = absurd (ground arith)
find_node-some (x ∷ xs) addr size f e = elim (Option-cases (find_node xs addr size)) [
  | inl miss ↦ ground (arith, miss)
  | inr (g, hit) ↦ ground (arith, hit, find_node-some xs addr size g hit)
]

rank-append :
    (lo start : ℕ) (xs ys : List Vmnode)
    → Ordered lo xs
    → last_end lo xs ≤ start
    → rank start (xs ++ ys) ≡ length xs + rank start ys
rank-append lo start [] ys o h = omega arith
rank-append lo start (x ∷ xs) ys o h =
    ground (arith, rank-append x.end start xs ys o.2, last_end-le x.end xs o.2)

take-length {ℓ} : {A : Type ℓ} (xs : List A) → take (length xs) xs ≡ xs
take-length [] = refl
take-length (x ∷ xs) = ap (◌∷◌ x) (take-length xs)

drop-length {ℓ} : {A : Type ℓ} (xs : List A) → drop (length xs) xs ≡ []
drop-length [] = refl
drop-length (x ∷ xs) = drop-length xs

-- A node that lies between the nodes before the focus and the focus is linked in there.
insert_beside-prev :
    (lo : ℕ) (f : Focus) (n : Vmnode)
    → Ordered lo (nodes_of f)
    → last_end lo f.before ≤ n.start
    → n.start < f.node.end
    → insert_beside f n ≡ record f { before = f.before ++ n ∷ [] }
unfolding insert_beside
insert_beside-prev lo f n o h q = ground (
  arith,
  position-rank n.start lo (nodes_of f) o,
  rank-append lo n.start f.before (f.node ∷ f.after)
      (Ordered-left lo f.before (f.node ∷ f.after) o),
  take-length f.before,
  drop-length f.before,
)

-- A node that lies between the focus and the nodes after it is linked in there.
insert_beside-next :
    (lo : ℕ) (f : Focus) (n : Vmnode)
    → Ordered lo (nodes_of f)
    → f.node.end ≤ n.start
    → n.start < n.end
    → Ordered n.end f.after
    → insert_beside f n ≡ record f { after = n ∷ f.after }
unfolding insert_beside
insert_beside-next lo f n o h q p = ground (
  arith,
  position-rank n.start lo (nodes_of f) o,
  rank-append lo n.start f.before (f.node ∷ f.after)
      (Ordered-left lo f.before (f.node ∷ f.after) o),
  Ordered-right lo f.before (f.node ∷ f.after) o,
  rank-zero n.start n.end f.after p,
)

-- A focus whose list is ordered and whose area can be cut at `[addr, stop)`.
record Cuttable (lo : ℕ) (f : Focus) (addr stop : ℕ) : Type 0 where
  ordered : Ordered lo (nodes_of f)
  from : f.node.start ≤ addr
  filled : addr < stop
  upto : stop ≤ f.node.end
  small : f.node.end < 2 ^ 64

-- What a cut leaves: the same mapping, and a focus with the area given.
record Cut (lo : ℕ) (f : Focus) (start end : ℕ) (g : Focus) : Type 0 where
  same : Same lo (nodes_of f) (nodes_of g)
  start_at : g.node.start ≡ start
  end_at : g.node.end ≡ end

cut_prev-Cut :
    (lo : ℕ) (f : Focus) (addr stop : ℕ)
    → Cuttable lo f addr stop
    → f.node.start ≢ addr
    → Cut lo f addr f.node.end (cut_prev true addr f)
unfolding cut_prev
cut_prev-Cut lo f addr stop c ne = rw added cut
  where
    open f use {before, node, after}

    prev : Vmnode
    prev = vmnode_create node.start (sub_word addr node.start) node.attr node.flags

    rest : Ordered (last_end lo before) (node ∷ after)
    rest = Ordered-right lo before (node ∷ after) c.ordered

    shrunk : Ordered lo (before ++ record node { start = addr } ∷ after)
    shrunk =
        Ordered-append lo before _ (Ordered-left lo before (node ∷ after) c.ordered)
          (omega (arith, rest.0, c.from), omega (arith, c.filled, c.upto), rest.2)

    added :
        insert_beside (record f { node = record node { start = addr } }) prev
        ≡ record f { before = before ++ prev ∷ []; node = record node { start = addr } }
    added =
        insert_beside-prev lo (record f { node = record node { start = addr } }) prev shrunk rest.0
          (omega (arith, c.from, c.filled, c.upto))

    cut :
        Cut lo f addr node.end
          (record f { before = before ++ prev ∷ []; node = record node { start = addr } })
    cut = record {
      same = rw append_assoc (
          Same-prefix lo before (node ∷ after) (prev ∷ record node { start = addr } ∷ after)
            c.ordered
            (record {
              ordered = ground (arith, rest, c.from, c.filled, c.upto, c.small);
              alike = λ a. ground (arith, rest, c.from, c.filled, c.upto, c.small);
            }));
      start_at = refl;
      end_at = refl;
    }

cut_next-Cut :
    (lo : ℕ) (f : Focus) (stop : ℕ)
    → Cuttable lo f f.node.start stop
    → stop ≢ f.node.end
    → Cut lo f f.node.start stop (cut_next true stop f)
unfolding cut_next
cut_next-Cut lo f stop c ne = rw added cut
  where
    open f use {before, node, after}

    next : Vmnode
    next = vmnode_create stop (sub_word node.end stop) node.attr node.flags

    rest : Ordered (last_end lo before) (node ∷ after)
    rest = Ordered-right lo before (node ∷ after) c.ordered

    next_end : next.end ≡ node.end
    next_end = omega (arith, c.upto, c.small)

    shrunk : Ordered lo (before ++ record node { end = stop } ∷ after)
    shrunk =
        Ordered-append lo before _ (Ordered-left lo before (node ∷ after) c.ordered)
          (rest.0, c.filled, Ordered-mono stop node.end after c.upto rest.2)

    added :
        insert_beside (record f { node = record node { end = stop } }) next
        ≡ record f { node = record node { end = stop }; after = next ∷ after }
    added =
        insert_beside-next lo (record f { node = record node { end = stop } }) next shrunk
          (omega arith) (omega (arith, next_end, c.upto)) (rw next_end rest.2)

    cut :
        Cut lo f node.start stop
          (record f { node = record node { end = stop }; after = next ∷ after })
    cut = record {
      same =
          Same-prefix lo before (node ∷ after) (record node { end = stop } ∷ next ∷ after) c.ordered
            (record {
              ordered = ground (arith, rest, c.filled, c.upto, next_end);
              alike = λ a. ground (arith, rest, c.filled, c.upto, next_end);
            });
      start_at = refl;
      end_at = refl;
    }

cut_prev_if :
    (lo : ℕ) (f : Focus) (addr stop : ℕ)
    → Cuttable lo f addr stop
    → Cut lo f addr f.node.end (cut_prev (not (f.node.start == addr)) addr f)
cut_prev_if lo f addr stop c = elim (Bool-cases (f.node.start == addr)) [
  | inl e ↦ rw e (
      unfold cut_prev in
      record { same = Same-refl lo (nodes_of f) c.ordered; start_at = ground arith; end_at = refl })
  | inr e ↦ rw e (cut_prev-Cut lo f addr stop c (ground arith))
]

cut_next_if :
    (lo : ℕ) (f : Focus) (stop : ℕ)
    → Cuttable lo f f.node.start stop
    → Cut lo f f.node.start stop (cut_next (not (stop == f.node.end)) stop f)
cut_next_if lo f stop c = elim (Bool-cases (stop == f.node.end)) [
  | inl e ↦ rw e (
      unfold cut_next in
      record { same = Same-refl lo (nodes_of f) c.ordered; start_at = refl; end_at = ground arith })
  | inr e ↦ rw e (cut_next-Cut lo f stop c (ground arith))
]

cuts :
    (lo : ℕ) (f : Focus) (addr stop : ℕ)
    → Cuttable lo f addr stop
    → Cut lo f addr stop
        (cut_next (not (stop == f.node.end)) stop (cut_prev (not (f.node.start == addr)) addr f))
cuts lo f addr stop c =
    subst (λ e. Cut lo f addr stop (cut_next (not (stop == e)) stop g)) first.end_at
      (record {
        same = Same-trans lo (nodes_of f) (nodes_of g) _ first.same second.same;
        start_at = second.start_at ∙ first.start_at;
        end_at = second.end_at;
      })
  where
    g : Focus
    g = cut_prev (not (f.node.start == addr)) addr f

    first : Cut lo f addr f.node.end g
    first = cut_prev_if lo f addr stop c

    second : Cut lo g g.node.start stop (cut_next (not (stop == g.node.end)) stop g)
    second = cut_next_if lo g stop (record {
      ordered = first.same.ordered;
      from = omega arith;
      filled = omega (arith, first.start_at, c.filled);
      upto = omega (arith, first.end_at, c.upto);
      small = omega (arith, first.end_at, c.small);
    })

-- The node has exactly the area asked for and no address changed its mapping, or memory ran out.
abbrev pub SplitOutcome : ℕ → Focus → (addr size : ℕ) → Focus × Error → Type 0
SplitOutcome lo f addr size (g, err) =
    ((err ≡ eok)
      × Same lo (nodes_of f) (nodes_of g)
      × (g.node.start ≡ addr)
      × (g.node.end ≡ addr + size))
    ⊎ ((err ≡ enomem) × (g ≡ f))

-- After a successful `VmspaceSplitNode` of a node of an ordered list, at an area inside it, the node
-- has exactly the area asked for, the list is ordered and no address changed its mapping; it fails
-- only with NX_ENOMEM, and then the list is as it was.
pub split_node-SplitOutcome :
    (lo : ℕ) (got_prev got_next : Bool) (f : Focus) (addr size : ℕ)
    → Ordered lo (nodes_of f)
    → f.node.start ≤ addr
    → addr + size ≤ f.node.end
    → f.node.end < 2 ^ 64
    → 0 < size
    → SplitOutcome lo f addr size (split_node got_prev got_next f addr size)
unfolding split_node
split_node-SplitOutcome lo got_prev got_next f addr size o from upto small pos =
    ground (arith, both.same, both.start_at, both.end_at, stop_eq)
  where
    stop_eq : add_word addr size ≡ addr + size
    stop_eq = omega arith

    both : Cut lo f addr (add_word addr size) (
        cut_next
          (not (add_word addr size == f.node.end))
          (add_word addr size)
          (cut_prev (not (f.node.start == addr)) addr f))
    both = cuts lo f addr (add_word addr size) (record {
      ordered = o;
      from = from;
      filled = omega arith;
      upto = omega arith;
      small = small;
    })

-- Taking the node in focus off an ordered list leaves it ordered, and unmaps exactly its area.
pub remove_node_lem :
    (lo : ℕ) (f : Focus)
    → Ordered lo (nodes_of f)
    → Ordered lo (f.before ++ f.after)
      × ((a : ℕ)
          → lookup (f.before ++ f.after) a
            ≡ (if covers f.node a then none else lookup (nodes_of f) a))
remove_node_lem lo f o = (
  joined,
  λ a. ground (
    arith,
    lookup-insert_between lo a before after node low rest.0 rest.1 rest.2,
    lookup-append lo a before after joined,
    lookup-below node.end a after rest.2,
    lookup-above lo a before low,
    rest.0,
    rest.1,
  ),
)
  where
    open f use {before, node, after}

    low : Ordered lo before
    low = Ordered-left lo before (node ∷ after) o

    rest : Ordered (last_end lo before) (node ∷ after)
    rest = Ordered-right lo before (node ∷ after) o

    joined : Ordered lo (before ++ after)
    joined =
        Ordered-append lo before after low
          (Ordered-mono (last_end lo before) node.end after (omega (arith, rest.0, rest.1)) rest.2)

above-Apart : (s e lo : ℕ) (xs : List Vmnode) → Ordered lo xs → e ≤ lo → Apart s e xs
above-Apart s e lo [] o h = tt
above-Apart s e lo (x ∷ xs) o h = (inr (omega arith), above-Apart s e x.end xs o.2 (omega arith))

Apart-append : (s e : ℕ) (xs ys : List Vmnode) → Apart s e xs → Apart s e ys → Apart s e (xs ++ ys)
Apart-append s e [] ys p q = q
Apart-append s e (x ∷ xs) ys p q = (p.0, Apart-append s e xs ys p.1 q)

below-Apart : (s e lo : ℕ) (xs : List Vmnode) → Ordered lo xs → last_end lo xs ≤ s → Apart s e xs
below-Apart s e lo [] o h = tt
below-Apart s e lo (x ∷ xs) o h =
    (inl (omega (arith, last_end-le x.end xs o.2)), below-Apart s e x.end xs o.2 h)

-- A node taken off an ordered list and linked in again is back in its place.
pub insert_node-again :
    (lo : ℕ) (f : Focus)
    → Ordered lo (nodes_of f)
    → Same lo (nodes_of f) (nodes_of (insert_node (f.before ++ f.after) f.node))
insert_node-again lo f o = record {
  ordered = back.0;
  alike =
      λ a. back.1 a ∙ sym (lookup-insert_between lo a before after node low rest.0 rest.1 rest.2);
}
  where
    open f use {before, node, after}

    low : Ordered lo before
    low = Ordered-left lo before (node ∷ after) o

    rest : Ordered (last_end lo before) (node ∷ after)
    rest = Ordered-right lo before (node ∷ after) o

    back :
        Ordered lo (nodes_of (insert_node (before ++ after) node))
        × ((a : ℕ)
            → lookup (nodes_of (insert_node (before ++ after) node)) a ≡ (
                if covers node a then some (node.attr, node.flags) else lookup (before ++ after) a))
    back =
        insert_node_lem lo (before ++ after) node (remove_node_lem lo f o).0
          (omega (arith, last_end-le lo before low, rest.0)) rest.1
          (Apart-append node.start node.end before after
            (below-Apart node.start node.end lo before low rest.0)
            (above-Apart node.start node.end node.end after rest.2 (omega arith)))
