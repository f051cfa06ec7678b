-- ===== src/DelayIrq/Queues.antt =====
-- Entering and leaving a queue of src/io/delay_irq.c.
use nxos.Base.{
  ℕ, zero, suc, ◌≡◌, refl, ap, ◌∙◌, true, false, some, List, [], ◌∷◌, ◌++◌, arith, get_elem?, set,
  eok, eagain, get_elem?-set_self, get_elem?-lt, set-get_elem?,
}
use nxos.DelayIrq.{Delays, mem, without, put_work, queue_enter, queue_leave}

mem-last : (w : ℕ) (ws : List ℕ) → mem w (ws ++ w ∷ []) ≡ true
mem-last w [] = ground arith
mem-last w (v ∷ vs) = ground (arith, mem-last w vs)

without-last : (w : ℕ) (ws : List ℕ) → mem w ws ≡ false → without w (ws ++ w ∷ []) ≡ ws
without-last w [] e = ground arith
without-last w (v ∷ vs) e = ground (arith, without-last w vs (ground arith))

set-set : {A : Type 0} (xs : List A) (i : ℕ) (x y : A) → set (set xs i x) i y ≡ set xs i y
set-set [] i x y = refl
set-set (z ∷ zs) zero x y = refl
set-set (z ∷ zs) (suc i) x y = ap (λ l. z ∷ l) (set-set zs i x y)

-- A work that is not on a queue enters it at its end and is then marked as queued; entering it again
-- answers NX_EAGAIN and changes nothing; and leaving the queue puts the queues back as they were, with the
-- work marked as not queued.
pub enter-leave :
    (s : Delays) (queue w : ℕ) (ws : List ℕ)
    → get_elem? s.queues queue ≡ some ws
    → mem w ws ≡ false
    → (s' : Delays) × (s'' : Delays) × (queue_enter s queue w ≡ (s', eok))
      × (get_elem? s'.queues queue ≡ some (ws ++ w ∷ []))
      × ((s'.works w).on_queued ≡ true)
      × ((s'.works w).queue ≡ queue)
      × (queue_enter s' queue w ≡ (s', eagain))
      × (queue_leave s' queue w ≡ (s'', eok))
      × (s''.queues ≡ s.queues)
      × ((s''.works w).on_queued ≡ false)
unfolding queue_enter queue_leave
enter-leave s queue w ws at absent =
    let s1 : Delays =
      record (put_work s w (record (s.works w) { queue = queue; on_queued = true })) {
        queues = set s.queues queue (ws ++ w ∷ []);
      } in
    let s2 : Delays =
      record (put_work s1 w (record (s1.works w) { queue = 0; on_queued = false })) {
        queues = set s1.queues queue (without w (ws ++ w ∷ []));
      } in
    let at1 = get_elem?-set_self s.queues queue (ws ++ w ∷ []) (get_elem?-lt s.queues queue at) in
    (
      s1,
      s2,
      rw at (rw absent refl),
      at1,
      ground arith,
      ground arith,
      rw at1 (rw (mem-last w ws) refl),
      rw at1 (rw (mem-last w ws) refl),
      set-set s.queues queue (ws ++ w ∷ []) (without w (ws ++ w ∷ []))
          ∙ ap (λ l. set s.queues queue l) (without-last w ws absent)
          ∙ set-get_elem? s.queues queue ws at,
      ground arith,
    )
