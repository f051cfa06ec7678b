-- ===== src/Irq.antt =====
-- src/io/irq.c: the table of interrupt lines and the actions bound to each. Whether NX_MemAlloc finds storage
-- is an argument; the answers of handlers and the operations of the platform's interrupt controller are
-- parameters. `none` is the use of a controller that is NX_NULL. The name of an action is not represented.
pub mod Lines
mod Tests
use nxos.Base.{
  ℕ, zero, suc, ◌+◌, ◌-◌, ◌≡◌, Bool, true, false, Option, none, some, List, [], ◌∷◌, ◌++◌, ◌==◌,
  if◌then◌else◌, get_elem?, set, replicate, Error, eok, einval, efault, enomem, enores, enofunc,
}

-- `NX_IRQ_Action` and `NX_IRQ_Node`; `shared` is NX_IRQ_FLAG_SHARED in the flags.
pub record Action : Type 0 where
  pub handler : ℕ
  pub device : ℕ
  pub shared : Bool

pub record Node : Type 0 where
  pub shared : Bool
  pub controller : Bool
  pub reference : ℕ
  pub actions : List Action

-- `NX_IRQ_Init` of a table of lines.
abbrev pub idle_node : Node
idle_node = record { shared = false; controller = false; reference = 0; actions = [] }

abbrev pub irq_init : (nr : ℕ) → List Node
irq_init nr = replicate nr idle_node

-- An operation on the node that `IRQ_NodeGet` finds.
abbrev pub at_node : List Node → (irq : ℕ) → (Node → Node × Error) → List Node × Error
at_node t irq f = elim (get_elem? t irq) [
  | none ↦ (t, einval)
  | some n ↦ (set t irq (f n).0, (f n).1)
]

-- `NX_IRQ_Bind`
abbrev pub bind_node : (allocated : Bool) → Action → Node → Node × Error
bind_node allocated a n =
    let ready = record n { controller = true; shared = a.shared } in
    if allocated
    then (record ready { actions = n.actions ++ a ∷ []; reference = n.reference + 1 }, eok)
    else (ready, enomem)

unfoldable pub irq_bind : (allocated : Bool) → List Node → (irq : ℕ) → Action → List Node × Error
irq_bind allocated t irq a = at_node t irq (bind_node allocated a)

-- The actions without the one that `NX_IRQ_Unbind` finds.
abbrev pub without_device : (device : ℕ) → List Action → Option (List Action)
without_device device [] = none
without_device device (a ∷ rest') =
    let rest : Option (List Action) = elim (without_device device rest') [
      | none ↦ none
      | some l ↦ some (a ∷ l)
    ] in
    if a.device == device then some rest' else rest

abbrev pub without_first : List Action → Option (List Action)
without_first [] = none
without_first (a ∷ rest') = some rest'

-- `NX_IRQ_Unbind`
abbrev pub removed : Node → Option (List Action) → Node × Error
removed n none = (n, enores)
removed n (some rest) =
    let fewer = record n { actions = rest; reference = n.reference - 1 } in
    if n.reference - 1 == 0
    then (record fewer { controller = false; shared = false }, eok)
    else (fewer, eok)

abbrev pub unbind_node : (device : ℕ) → Node → Node × Error
unbind_node device n =
    if n.controller
    then removed n (if n.shared then without_device device n.actions else without_first n.actions)
    else (n, efault)

unfoldable pub irq_unbind : List Node → (irq device : ℕ) → List Node × Error
irq_unbind t irq device = at_node t irq (unbind_node device)

-- `NX_IRQ_Unmask` and `NX_IRQ_Mask`: `call` is the controller's operation, when it has one.
abbrev pub through_controller : (call : Option (ℕ → Error)) → (irq : ℕ) → Node → Error
through_controller none irq n = enofunc
through_controller (some call) irq n = if n.controller then call irq else enofunc

unfoldable pub irq_mask : (call : Option (ℕ → Error)) → List Node → (irq : ℕ) → Error
irq_mask call t irq = elim (get_elem? t irq) [
  | none ↦ einval
  | some n ↦ through_controller call irq n
]

-- The loop of `NX_IRQ_Handle`: the actions whose handlers are called; `answers` says which answer NX_EOK.
abbrev pub handle_loop : (answers : Action → Bool) → List Action → List Action
handle_loop answers [] = []
handle_loop answers (a ∷ rest') =
    let rest = handle_loop answers rest' in if answers a then a ∷ [] else a ∷ rest

-- `NX_IRQ_Handle`, with the actions called and whether the line is acknowledged.
abbrev pub handle_node :
    (answers : Action → Bool) (acks : Bool) → Node → Option (Error × List Action × Bool)
handle_node answers acks n =
    if n.controller then some (eok, handle_loop answers n.actions, acks) else none

unfoldable pub irq_handle :
    (answers : Action → Bool) (acks : Bool)
    → List Node
    → (irq : ℕ) → Option (Error × List Action × Bool)
irq_handle answers acks t irq = elim (get_elem? t irq) [
  | none ↦ some (einval, [], false)
  | some n ↦ handle_node answers acks n
]
