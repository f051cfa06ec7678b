-- ===== src/Irq/Tests.antt =====
-- A table of four lines, two actions bound to line 1.
use nxos.Base.{◌≡◌, refl, Bool, true, none, List, [], ◌∷◌, eok, ◌==◌}
use nxos.Irq.{Action, Node, irq_init, irq_bind, irq_unbind, irq_handle}

abbrev first_action : Action
first_action = record { handler = 1; device = 10; shared = true }

abbrev second_action : Action
second_action = record { handler = 2; device = 20; shared = true }

abbrev table : List Node
table = (irq_bind true (irq_bind true (irq_init 4) 1 first_action).0 1 second_action).0

abbrev bound_node : Node
bound_node = record {
  shared = true;
  controller = true;
  reference = 2;
  actions = first_action ∷ second_action ∷ [];
}

abbrev second_answers : Action → Bool
second_answers a = a.handler == 2

-- The last device unbound leaves the line idle.
unbound : irq_unbind (irq_unbind table 1 20).0 1 10 ≡ (irq_init 4, eok)
unfolding irq_bind irq_unbind
unbound = refl

-- A line without an action is no line that can be handled.
handled_idle : irq_handle second_answers true table 2 ≡ none
unfolding irq_bind irq_handle
handled_idle = refl
