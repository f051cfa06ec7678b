-- ===== src/DelayIrq/Tests.antt =====
-- Two works on the second queue of src/io/delay_irq.c, one of them pending.
use nxos.Base.{ℕ, ◌≡◌, refl, true, false, [], ◌∷◌}
use nxos.DelayIrq.{Delays, Work, queue_init, queue_check, check_times, any_event}
use nxos.DelayIrq.Check.{pending_of, queue_check-clears}

abbrev new_works : ℕ → Work
new_works = λ w. record { pending = false; on_queued = false; noreenter = false; queue = 0 }

abbrev signalled : Delays
signalled =
    record (queue_init
      (λ w. record { pending = true; on_queued = true; noreenter = false; queue = 1 })) {
        queues = [] ∷ (7 ∷ 8 ∷ []) ∷ [] ∷ [] ∷ [] ∷ [];
        event = false ∷ true ∷ false ∷ false ∷ false ∷ [];
      }

queue_check-clears_example :
    (pending_of (queue_check check_times signalled) 8 ≡ false)
    × (any_event (queue_check check_times signalled).event ≡ false)
queue_check-clears_example = queue_check-clears signalled 1 (7 ∷ 8 ∷ []) 8 refl refl refl
