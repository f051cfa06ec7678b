-- ===== src/Vmnode.antt =====
-- The node list of an address space: the functions of src/mm/vmspace.c that read and change
-- `spaceNodeList`. A node that C names by a pointer is the node in focus here, with the nodes before
-- and after it in the list. `none` stands for a use of a node that was freed.
pub mod Order
pub mod Insert
pub mod Merge
pub mod Split
pub mod Free
pub mod Around
mod Tests
use nxos.Base.{
  ℕ, zero, suc, ◌+◌, ◌-◌, ◌≡◌, Bool, true, false, not, ◌&&◌, ◌||◌, Option, none, some, List, [],
  ◌∷◌, ◌++◌, ltb, leb, ◌==◌, if◌then◌else◌, length, take, drop, add_word, sub_word, Error, eok,
  enomem,
}

-- `NX_Vmnode`: the area `[start, end)`. Its `list` and `space` links are its place in a list.
pub record Vmnode : Type 0 where
  pub start : ℕ
  pub end : ℕ
  pub attr : ℕ
  pub flags : ℕ

pub record Focus : Type 0 where
  pub before : List Vmnode
  pub node : Vmnode
  pub after : List Vmnode

abbrev pub nodes_of : Focus → List Vmnode
nodes_of f = f.before ++ f.node ∷ f.after

-- `VmnodeCreate`, where NX_MemAlloc returns storage.
abbrev pub vmnode_create : (addr size attr flags : ℕ) → Vmnode
vmnode_create addr size attr flags = record {
  start = addr;
  end = add_word addr size;
  attr = attr;
  flags = flags;
}

-- The loop of `VmspaceInsertLinearOrder`: `pos` is the place after `prevNode`, 0 while that is
-- NX_NULL, `best` is `prevNode->end`, and `i` counts the nodes read.
position_scan : (start : ℕ) → List Vmnode → (pos best i : ℕ) → ℕ
position_scan start [] pos best i = pos
position_scan start (x ∷ xs) pos best i =
    let better = leb x.end start && (pos == 0 || ltb best x.end) in
    position_scan start xs (if better then suc i else pos) (if better then x.end else best) (suc i)

-- Where `VmspaceInsertLinearOrder` links the node: 0 is the head, also of an empty list.
pub position : ℕ → List Vmnode → ℕ
unfolding position_scan
position start xs = position_scan start xs 0 0 0

-- `VmspaceInsertNode`, with the new node in focus.
pub insert_node : List Vmnode → Vmnode → Focus
insert_node xs n =
    let k = position n.start xs in record { before = take k xs; node = n; after = drop k xs }

-- The same, with the focus left where it is.
pub insert_beside : Focus → Vmnode → Focus
insert_beside f n =
    let k = position n.start (nodes_of f) in
    let j = k - suc (length f.before) in
    if leb k (length f.before)
    then record f { before = take k f.before ++ n ∷ drop k f.before }
    else record f { after = take j f.after ++ n ∷ drop j f.after }

abbrev cons_rest : Vmnode → Option (Vmnode × List Vmnode) → Option (Vmnode × List Vmnode)
cons_rest x none = none
cons_rest x (some (y, ys)) = some (y, x ∷ ys)

-- The first node that passes, and the list without it.
pub take_first : (Vmnode → Bool) → List Vmnode → Option (Vmnode × List Vmnode)
take_first p [] = none
take_first p (x ∷ xs) = if p x then some (x, xs) else cons_rest x (take_first p xs)

abbrev pub same_kind : Vmnode → Vmnode → Bool
same_kind x n = x.attr == n.attr && x.flags == n.flags

-- `x` ends where `n` starts, or starts where `n` ends, and has the same attributes.
abbrev pub is_prev : Vmnode → Vmnode → Bool
is_prev n x = x.end == n.start && same_kind x n

abbrev pub is_next : Vmnode → Vmnode → Bool
is_next n x = x.start == n.end && same_kind x n

-- The first loop of `VmspaceMergeNode`. A node that ends where it starts meets itself, is taken off
-- the list and freed, and is then used.
pub merge_prev : Focus → Option Focus
unfolding take_first
merge_prev f = elim (take_first (is_prev f.node) f.before) [
  | some (x, rest) ↦ some (record f { before = rest; node = record n { start = x.start } })
  | none ↦ if is_prev n n then none else elim (take_first (is_prev n) f.after) [
    | some (x, rest) ↦ some (record f { node = record n { start = x.start }; after = rest })
    | none ↦ some f
  ]
]
  where
    open f use {node as n}

-- The second loop.
pub merge_next : Focus → Option Focus
unfolding take_first
merge_next f = elim (take_first (is_next f.node) f.before) [
  | some (x, rest) ↦ some (record f { before = rest; node = record n { end = x.end } })
  | none ↦ if is_next n n then none else elim (take_first (is_next n) f.after) [
    | some (x, rest) ↦ some (record f { node = record n { end = x.end }; after = rest })
    | none ↦ some f
  ]
]
  where
    open f use {node as n}

infixl 5 ◌>>=◌
abbrev ◌>>=◌ : Option Focus → (Focus → Option Focus) → Option Focus
none >>= k = none
some f >>= k = k f

-- `VmspaceMergeNode`
pub merge_node : Focus → Option Focus
unfolding merge_prev merge_next
merge_node f = merge_prev f >>= merge_next

-- `VmspaceSplitNode`: `got_prev` and `got_next` say whether NX_MemAlloc returns storage for the two
-- nodes cut off. `VmspaceInsertNodeLocked` fails on null pointers only, and is given none.
cut_prev : Bool → ℕ → Focus → Focus
unfolding insert_beside
cut_prev false start f = f
cut_prev true start f =
    insert_beside (record f { node = record f.node { start = start } })
      (vmnode_create f.node.start (sub_word start f.node.start) f.node.attr f.node.flags)

cut_next : Bool → ℕ → Focus → Focus
unfolding insert_beside
cut_next false end f = f
cut_next true end f =
    insert_beside (record f { node = record f.node { end = end } })
      (vmnode_create end (sub_word f.node.end end) f.node.attr f.node.flags)

pub split_node : (got_prev got_next : Bool) → Focus → (addr size : ℕ) → Focus × Error
unfolding cut_prev cut_next
split_node got_prev got_next f addr size =
    let stop = add_word addr size in
    let has_prev = not (f.node.start == addr) in
    let has_next = not (stop == f.node.end) in
    if has_prev && not got_prev
    then (f, enomem)
    else if has_next && not got_next
    then (f, enomem)
    else (cut_next has_next stop (cut_prev has_prev addr f), eok)

abbrev cons_focus : Vmnode → Option Focus → Option Focus
cons_focus x none = none
cons_focus x (some f) = some (record f { before = x ∷ f.before })

-- `VmspaceFindNode`
pub find_node : List Vmnode → (addr size : ℕ) → Option Focus
find_node [] addr size = none
find_node (x ∷ xs) addr size =
    if leb x.start addr && leb (add_word addr size) x.end
    then some (record { before = []; node = x; after = xs })
    else cons_focus x (find_node xs addr size)

-- `VmspaceCheckAddrCollisions`
pub collides : List Vmnode → (addr size : ℕ) → Bool
collides [] addr size = false
collides (x ∷ xs) addr size =
    let stop = add_word addr size in
    (leb x.start addr && ltb addr x.end)
    || (ltb x.start stop && leb stop x.end)
    || collides xs addr size

-- The loop of `GetAddrFromMapArea`, at `freeAddr`; none is NX_ENOMEM.
free_scan : (map_start map_end size : ℕ) → List Vmnode → (free : ℕ) → Option ℕ
free_scan map_start map_end size [] free = some free
free_scan map_start map_end size (x ∷ xs) free =
    let inside = leb map_start x.start && leb x.end map_end in
    let rest = free_scan map_start map_end size xs (if inside then x.end else free) in
    if inside && ltb map_end (add_word free size)
    then none
    else if inside && leb (add_word free size) x.start
    then some free
    else rest

-- `GetAddrFromMapArea`
unfoldable pub free_address : (map_start map_end size : ℕ) → List Vmnode → Option ℕ
unfolding free_scan
free_address map_start map_end size xs = free_scan map_start map_end size xs map_start
