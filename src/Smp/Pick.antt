-- ===== src/Smp/Pick.antt =====
-- Which thread `NX_SMP_PickThreadIrqDisabled` of src/sched/smp.c picks, and what its priority becomes.
use nxos.Base.{
  ℕ, zero, suc, ◌-◌, ◌≤◌, ◌<◌, ◌≡◌, refl, ap, ◌⊎◌, inl, inr, Option, none, some, List, [], ◌∷◌,
  arith, get_elem?, set,
}
use nxos.Smp.{Thread, Cpu, pick_loop, pick, lower_priority, priority_low, priority_high}

-- Every list is empty.
abbrev pub AllEmpty : List (List Thread) → Type 0
AllEmpty [] = Unit {0}
AllEmpty (q ∷ qs) = (q ≡ []) × AllEmpty qs

-- Entry `prio` is the last list that is not empty; its first thread is taken off.
pub record Highest (qs : List (List Thread)) (t : Thread) (qs' : List (List Thread)) : Type 0 where
  pub prio : ℕ
  pub behind : List Thread
  pub first : get_elem? qs prio ≡ some (t ∷ behind)
  pub above : (i : ℕ) (q : List Thread) → prio < i → get_elem? qs i ≡ some q → q ≡ []
  pub left : qs' ≡ set qs prio behind

AllEmpty-get :
    (qs : List (List Thread)) (i : ℕ) (q : List Thread)
    → AllEmpty qs
    → get_elem? qs i ≡ some q
    → q ≡ []
AllEmpty-get [] i q none_in e = absurd (ground arith)
AllEmpty-get (p ∷ qs) zero q none_in e = ground (arith, none_in.0)
AllEmpty-get (p ∷ qs) (suc i) q none_in e = AllEmpty-get qs i q none_in.1 e

pub pick_loop-Highest :
    (qs : List (List Thread))
    → ((pick_loop qs ≡ none) × AllEmpty qs)
      ⊎ ((t : Thread) × (qs' : List (List Thread)) × (pick_loop qs ≡ some (t, qs'))
          × Highest qs t qs')
unfolding pick_loop
pick_loop-Highest [] = inl (refl, tt)
pick_loop-Highest (q ∷ qs) = elim (pick_loop-Highest qs) [
  | inr (t, qs', e, h) ↦ inr (
    t,
    q ∷ qs',
    ground (arith, e),
    record {
      prio = suc h.prio;
      behind = h.behind;
      first = h.first;
      above = λ i p lt at. above_suc h i p lt at;
      left = ap (λ l. q ∷ l) h.left;
    },
  )
  | inl (e, none_in) ↦ split q e none_in
]
  where
    above_suc :
        {t : Thread} {qs' : List (List Thread)} (h : Highest qs t qs') (i : ℕ) (p : List Thread)
        → suc h.prio < i
        → get_elem? (q ∷ qs) i ≡ some p
        → p ≡ []
    above_suc h zero p lt at = absurd (omega arith)
    above_suc h (suc i) p lt at = h.above i p (omega arith) at

    empty_above :
        (r : List Thread) (i : ℕ) (p : List Thread)
        → AllEmpty qs
        → 0 < i
        → get_elem? (r ∷ qs) i ≡ some p
        → p ≡ []
    empty_above r zero p none_in lt at = absurd (omega arith)
    empty_above r (suc i) p none_in lt at = AllEmpty-get qs i p none_in at

    split :
        (r : List Thread)
        → pick_loop qs ≡ none
        → AllEmpty qs
        → ((pick_loop (r ∷ qs) ≡ none) × AllEmpty (r ∷ qs))
          ⊎ ((t : Thread) × (qs' : List (List Thread)) × (pick_loop (r ∷ qs) ≡ some (t, qs'))
              × Highest (r ∷ qs) t qs')
    split [] e none_in = inl (ground (arith, e), (refl, none_in))
    split (t ∷ ts) e none_in = inr (
      t,
      ts ∷ qs,
      ground (arith, e),
      record {
        prio = 0;
        behind = ts;
        first = refl;
        above = λ i p lt at. empty_above (t ∷ ts) i p none_in lt at;
        left = refl;
      },
    )

-- The highest list that is not empty gives its first thread; it fails only when no thread is ready.
abbrev pub PickOutcome : Cpu → Option (Thread × Cpu) → Type 0
PickOutcome cpu r =
    ((r ≡ none) × AllEmpty cpu.ready_list)
    ⊎ ((t : Thread) × (cpu' : Cpu) × (r ≡ some (lower_priority t, cpu'))
        × Highest cpu.ready_list t cpu'.ready_list
        × (cpu' ≡ record cpu { ready_list = cpu'.ready_list; thread_count = cpu.thread_count - 1 }))

-- `NX_SMP_PickThreadIrqDisabled` takes the first thread of the highest ready
-- list that is not empty, lowers its priority, and leaves all other lists as they are; its assertion
-- fails only when all lists are empty.
pub pick-PickOutcome : (cpu : Cpu) → PickOutcome cpu (pick cpu)
unfolding pick
pick-PickOutcome cpu = elim (pick_loop-Highest cpu.ready_list) [
  | inl (e, none_in) ↦ inl (ground (arith, e), none_in)
  | inr (t, qs', e, h) ↦ inr (
    t,
    record cpu { ready_list = qs'; thread_count = cpu.thread_count - 1 },
    ground (arith, e),
    h,
    refl,
  )
]

-- The priorities of a thread: those of time-sharing threads go between the lowest one and their own.
abbrev pub IsPrioritised : Thread → Type 0
IsPrioritised t =
    (t.fixed_priority < 16)
    × (((priority_low ≤ t.fixed_priority)
          × (t.fixed_priority ≤ priority_high)
          × (priority_low ≤ t.priority)
          × (t.priority ≤ t.fixed_priority))
        ⊎ (((t.fixed_priority < priority_low) ⊎ (priority_high < t.fixed_priority))
            × (t.priority ≡ t.fixed_priority)))

pub lower_priority-IsPrioritised : (t : Thread) → IsPrioritised t → IsPrioritised (lower_priority t)
unfolding lower_priority
lower_priority-IsPrioritised t p = ground arith
