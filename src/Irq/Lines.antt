-- ===== src/Irq/Lines.antt =====
-- Runs of `NX_IRQ_Bind` and `NX_IRQ_Unbind` of src/io/irq.c, and `NX_IRQ_Handle` in the states they reach.
use nxos.Base.{ℕ, suc, ◌<◌, ◌≡◌, ◌⊎◌, Bool, true, false, some, List, [], ◌++◌, get_elem?, length}
use nxos.Irq.{Action, Node, irq_init, irq_bind, irq_unbind}

-- The references are the actions, and a line with an action has its controller.
pub record IsSound (n : Node) : Type 0 where
  pub counted : n.reference ≡ length n.actions
  pub bound : 0 < length n.actions → n.controller ≡ true

abbrev pub AllSound : List Node → Type 0
AllSound t = (irq : ℕ) (n : Node) → get_elem? t irq ≡ some n → IsSound n

-- The tables that binding and unbinding lead to, on success and on failure.
pub data Reach (nr : ℕ) : List Node → Type 0 where
  starts : Reach nr (irq_init nr)
  binds :
      (t : List Node) (allocated : Bool) (irq : ℕ) (a : Action)
      → Reach nr t
      → Reach nr (irq_bind allocated t irq a).0
  unbinds : (t : List Node) (irq device : ℕ) → Reach nr t → Reach nr (irq_unbind t irq device).0

-- Handlers called in the order of the actions, up to the first that answers.
pub record IsHandled (answers : Action → Bool) (actions called rest : List Action) : Type 0 where
  pub order : called ++ rest ≡ actions
  pub refused :
      (i : ℕ) (a : Action) → get_elem? called i ≡ some a → suc i < length called → answers a ≡ false
  pub ended :
      (rest ≡ [])
      ⊎ ((i : ℕ) × (a : Action) × (get_elem? called i ≡ some a)
          × (suc i ≡ length called)
          × (answers a ≡ true))
