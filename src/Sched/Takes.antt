-- ===== src/Sched/Takes.antt =====
-- What taking a thread off the ready lists does to a core in order: `NX_SMP_PickThreadIrqDisabled` and
-- `NX_SMP_DeququeNoAffinityThread` of src/sched/smp.c.
use nxos.Base.{
  ℕ, suc, ◌+◌, ◌-◌, ◌≡◌, refl, subst, ◌∙◌, ◌⊎◌, inl, inr, none, some, List, [], ◌∷◌, arith,
  Option-cases, Bool-cases, leb, ◌&&◌,
}
use nxos.Smp.{Thread, Cpu, ready, free_loop, dequeue_no_affinity, pick, lower_priority}
use nxos.Smp.Count.{is_tid, size_all, Less, Reduced, pick_loop-Reduced, free_loop-Reduced}
use nxos.Smp.Pick.{IsPrioritised, lower_priority-IsPrioritised, AllEmpty, pick_loop-Highest}
use nxos.Sched.Counts.{on_lists, IsReadyAt, CoreIsSound}

-- The core with one thread less, the one taken.
pub record Taken (core : ℕ) (c : Cpu) (t : Thread) (c' : Cpu) : Type 0 where
  pub sound : CoreIsSound core c'
  pub takes : (tid : ℕ) → is_tid tid t + on_lists tid c' ≡ on_lists tid c
  pub count_down : suc c'.thread_count ≡ c.thread_count
  pub same_runner : c'.thread_running ≡ c.thread_running
  pub ranked : IsPrioritised t
  pub was_ready : t.state ≡ ready
  pub own_core : t.on_core ≡ core

left : Cpu → List (List Thread) → Cpu
left c qs = record c { ready_list = qs; thread_count = c.thread_count - 1 }

left-Taken :
    (core : ℕ) (c : Cpu) (t : Thread) (qs : List (List Thread))
    → CoreIsSound core c
    → Less c.ready_list t qs
    → Taken core c t (left c qs)
unfolding left
left-Taken core c t qs sound l =
    let ((i, was), readies) = l.keeps (IsReadyAt core) 0 sound.readies in
    record {
      sound = record {
        counted = omega (arith, sound.counted, l.sizes);
        lists = l.lists ∙ sound.lists;
        readies = readies;
        runner = sound.runner;
      };
      takes = l.counts;
      count_down = omega (arith, sound.counted, l.sizes);
      same_runner = refl;
      ranked = was.ranked;
      was_ready = was.is_ready;
      own_core = was.own_core;
    }

pub dequeue_no_affinity-Taken :
    (core cores : ℕ) (c : Cpu)
    → CoreIsSound core c
    → (dequeue_no_affinity cores c ≡ none)
      ⊎ ((t : Thread) × (c' : Cpu) × (dequeue_no_affinity cores c ≡ some (t, c'))
          × Taken core c t c')
unfolding dequeue_no_affinity left
dequeue_no_affinity-Taken core cores c sound = elim (Option-cases (free_loop cores c.ready_list)) [
  | inl e ↦ inl (ground (arith, e))
  | inr ((t, qs), e) ↦ inr (
    t,
    left c qs,
    ground (arith, e),
    left-Taken core c t qs sound
        (subst (Reduced c.ready_list) e (free_loop-Reduced cores c.ready_list)),
  )
]

AllEmpty-size : (qs : List (List Thread)) → AllEmpty qs → size_all qs ≡ 0
AllEmpty-size [] empty = refl
AllEmpty-size (q ∷ qs) empty = ground (arith, empty.0, AllEmpty-size qs empty.1)

lower_priority-tid : (tid : ℕ) (t : Thread) → is_tid tid (lower_priority t) ≡ is_tid tid t
unfolding lower_priority
lower_priority-tid tid t = elim (Bool-cases (leb 1 t.fixed_priority && leb t.fixed_priority 6)) [
  | inl e ↦ rw e refl
  | inr e ↦ rw e refl
]

lower_priority-state : (t : Thread) → (lower_priority t).state ≡ t.state
unfolding lower_priority
lower_priority-state t = elim (Bool-cases (leb 1 t.fixed_priority && leb t.fixed_priority 6)) [
  | inl e ↦ rw e refl
  | inr e ↦ rw e refl
]

lower_priority-on_core : (t : Thread) → (lower_priority t).on_core ≡ t.on_core
unfolding lower_priority
lower_priority-on_core t = elim (Bool-cases (leb 1 t.fixed_priority && leb t.fixed_priority 6)) [
  | inl e ↦ rw e refl
  | inr e ↦ rw e refl
]

pub lower_priority-Taken :
    (core : ℕ) (c : Cpu) (t : Thread) (c' : Cpu)
    → Taken core c t c'
    → Taken core c (lower_priority t) c'
lower_priority-Taken core c t c' k = record {
  sound = k.sound;
  takes = λ tid. omega (arith, k.takes tid, lower_priority-tid tid t);
  count_down = k.count_down;
  same_runner = k.same_runner;
  ranked = lower_priority-IsPrioritised t k.ranked;
  was_ready = lower_priority-state t ∙ k.was_ready;
  own_core = lower_priority-on_core t ∙ k.own_core;
}

pub pick-Taken :
    (core : ℕ) (c : Cpu)
    → CoreIsSound core c
    → ((pick c ≡ none) × (c.thread_count ≡ 0))
      ⊎ ((t : Thread) × (c' : Cpu) × (pick c ≡ some (t, c')) × Taken core c t c')
unfolding pick left
pick-Taken core c sound = elim (pick_loop-Highest c.ready_list) [
  | inl (e, empty) ↦ inl (ground (arith, e), sound.counted ∙ AllEmpty-size c.ready_list empty)
  | inr (t, qs, e, h) ↦ inr (
    lower_priority t,
    left c qs,
    ground (arith, e),
    lower_priority-Taken core c t (left c qs) (
        left-Taken core c t qs sound
          (subst (Reduced c.ready_list) e (pick_loop-Reduced c.ready_list))),
  )
]
