-- ===== src/DelayIrq/Check.antt =====
-- What `NX_IRQ_DelayQueueCheck` of src/io/delay_irq.c calls and leaves.
use nxos.Base.{
  ℕ, zero, suc, ◌≡◌, refl, ap, subst, ◌∙◌, inl, inr, Bool, true, false, some, List, [], ◌∷◌, ◌++◌,
  arith, get_elem?, replicate, ℕ_discrete, Bool-cases,
}
use nxos.DelayIrq.{
  Delays, mem, work_init, work_check, check_works, check_queues, any_event, queue_check, queue_nr,
  check_times,
}

abbrev pub pending_of : Delays → ℕ → Bool
pending_of s w = (s.works w).pending

work_check-quiet :
    (s : Delays) (w v : ℕ) → pending_of s v ≡ false → pending_of (work_check s w) v ≡ false
unfolding work_check
work_check-quiet s w v quiet = elim (Bool-cases (pending_of s w)) [
  | inl e ↦ rw e (ground arith)
  | inr e ↦ rw e quiet
]

work_check_self : (s : Delays) (w : ℕ) → pending_of (work_check s w) w ≡ false
unfolding work_check
work_check_self s w = elim (Bool-cases (pending_of s w)) [
  | inl e ↦ rw e (ground arith)
  | inr e ↦ rw e e
]

work_check-event : (s : Delays) (w : ℕ) → (work_check s w).event ≡ s.event
unfolding work_check
work_check-event s w = elim (Bool-cases (pending_of s w)) [ inl e ↦ rw e refl | inr e ↦ rw e refl ]

check_works-quiet :
    (s : Delays) (ws : List ℕ) (v : ℕ)
    → pending_of s v ≡ false
    → pending_of (check_works s ws) v ≡ false
unfolding check_works
check_works-quiet s [] v quiet = quiet
check_works-quiet s (w ∷ ws) v quiet =
    check_works-quiet (work_check s w) ws v (work_check-quiet s w v quiet)

check_works-clears :
    (s : Delays) (ws : List ℕ) (v : ℕ) → mem v ws ≡ true → pending_of (check_works s ws) v ≡ false
unfolding check_works
check_works-clears s [] v is_in = absurd (ground arith)
check_works-clears s (w ∷ ws) v is_in = elim (ℕ_discrete w v) [
  | yes e ↦
      check_works-quiet (work_check s w) ws v
        (subst (λ x. pending_of (work_check s w) x ≡ false) e (work_check_self s w))
  | no ne ↦ check_works-clears (work_check s w) ws v (ground (arith, is_in, ne))
]

check_works-event : (s : Delays) (ws : List ℕ) → (check_works s ws).event ≡ s.event
unfolding check_works
check_works-event s [] = refl
check_works-event s (w ∷ ws) = check_works-event (work_check s w) ws ∙ work_check-event s w

check_queues-quiet :
    (s : Delays) (qs : List (List ℕ)) (es : List Bool) (v : ℕ)
    → pending_of s v ≡ false
    → pending_of (check_queues s qs es) v ≡ false
unfolding check_queues
check_queues-quiet s [] es v quiet = quiet
check_queues-quiet s (q ∷ qs) [] v quiet = quiet
check_queues-quiet s (q ∷ qs) (true ∷ es) v quiet =
    check_queues-quiet (check_works s q) qs es v (check_works-quiet s q v quiet)
check_queues-quiet s (q ∷ qs) (false ∷ es) v quiet = check_queues-quiet s qs es v quiet

check_queues-clears :
    (s : Delays) (qs : List (List ℕ)) (es : List Bool) (i : ℕ) (ws : List ℕ) (v : ℕ)
    → get_elem? qs i ≡ some ws
    → get_elem? es i ≡ some true
    → mem v ws ≡ true
    → pending_of (check_queues s qs es) v ≡ false
unfolding check_queues
check_queues-clears s [] es i ws v at bit is_in = absurd (ground arith)
check_queues-clears s (q ∷ qs) [] i ws v at bit is_in = absurd (ground arith)
check_queues-clears s (q ∷ qs) (true ∷ es) zero ws v at bit is_in =
    check_queues-quiet (check_works s q) qs es v
      (check_works-clears s q v (ground (arith, at, is_in)))
check_queues-clears s (q ∷ qs) (false ∷ es) zero ws v at bit is_in = absurd (ground arith)
check_queues-clears s (q ∷ qs) (true ∷ es) (suc i) ws v at bit is_in =
    check_queues-clears (check_works s q) qs es i ws v at bit is_in
check_queues-clears s (q ∷ qs) (false ∷ es) (suc i) ws v at bit is_in =
    check_queues-clears s qs es i ws v at bit is_in

check_queues-event :
    (s : Delays) (qs : List (List ℕ)) (es : List Bool) → (check_queues s qs es).event ≡ s.event
unfolding check_queues
check_queues-event s [] es = refl
check_queues-event s (q ∷ qs) [] = refl
check_queues-event s (q ∷ qs) (true ∷ es) =
    check_queues-event (check_works s q) qs es ∙ check_works-event s q
check_queues-event s (q ∷ qs) (false ∷ es) = check_queues-event s qs es

set-any : (es : List Bool) (i : ℕ) → get_elem? es i ≡ some true → any_event es ≡ true
set-any [] i bit = absurd (ground arith)
set-any (true ∷ es) i bit = refl
set-any (false ∷ es) zero bit = absurd (ground arith)
set-any (false ∷ es) (suc i) bit = set-any es i bit

check_twice :
    (s : Delays) (t : ℕ)
    → any_event s.event ≡ false
    → (queue_check (suc t) s).works ≡ s.works
      × (queue_check (suc t) s).event ≡ replicate queue_nr false
unfolding queue_check
check_twice s t none_set = rw none_set (refl, refl)

-- One round of the loop.
round : Delays → Delays
round s =
    record (check_queues (record s { event = replicate queue_nr false; enabled = true }) s.queues
      s.event) { enabled = false }

round-event : (s : Delays) → any_event (round s).event ≡ false
unfolding round
round-event s = ap any_event (
    check_queues-event (record s { event = replicate queue_nr false; enabled = true }) s.queues
      s.event)

check-round :
    (s : Delays) (t : ℕ)
    → any_event s.event ≡ true
    → queue_check (suc t) s ≡ queue_check t (round s)
unfolding queue_check round
check-round s t some_set = rw some_set refl

-- When handlers signal no more work, `NX_IRQ_DelayQueueCheck` returns with no signal left, and no work on
-- a queue that was signalled is still pending.
pub queue_check-clears :
    (s : Delays) (i : ℕ) (ws : List ℕ) (w : ℕ)
    → get_elem? s.queues i ≡ some ws
    → get_elem? s.event i ≡ some true
    → mem w ws ≡ true
    → (pending_of (queue_check check_times s) w ≡ false)
      × (any_event (queue_check check_times s).event ≡ false)
unfolding round
queue_check-clears s i ws w at bit is_in =
    let first = check-round s 4 (set-any s.event i bit) in
    let (same_works, cleared) = check_twice (round s) 3 (round-event s) in
    (
      ap (λ o. pending_of o w) first
          ∙ ap (λ works. (works w).pending) same_works
          ∙ check_queues-clears (record s { event = replicate queue_nr false; enabled = true })
              s.queues s.event i ws w at bit is_in,
      ap (λ o. any_event o.event) first ∙ ap any_event cleared,
    )

-- Whatever flags a work is set up with, its handler is called with interrupts enabled, and they are
-- disabled behind it: NX_IRQ_WORK_NOREENTER has no effect.
pub work_check-reenters :
    (s s' : Delays) (w : ℕ) (noreenter : Bool)
    → (s'.works w).noreenter ≡ ((work_init s w noreenter).works w).noreenter
    → (s'.works w).pending ≡ true
    → ((work_check s' w).calls ≡ s'.calls ++ record { work = w; enabled = true } ∷ [])
      × ((work_check s' w).enabled ≡ false)
unfolding work_check work_init
work_check-reenters s s' w noreenter same is_pending =
    let off : (s'.works w).noreenter ≡ false = ground (arith, same) in
    rw is_pending (rw off (ground arith, ground arith))
