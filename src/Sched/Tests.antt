-- ===== src/Sched/Tests.antt =====
-- Threads of src/sched on one core: two are started, one runs and yields, and the other one runs.
use nxos.Base.{ℕ, ◌+◌, ◌≡◌, refl, false, Option, none, some, [], ◌∷◌, arith, get_elem?}
use nxos.Smp.{Thread, Cpu, init, enqueue, pick, pick_loop, lower_priority, set_running, cpu_init}
use nxos.Smp.Count.{count}
use nxos.Smp.Pick.{IsPrioritised}
use nxos.Sched.{Machine, start, ready_run, add_pending, sched_to_first, yield}
use nxos.Sched.Counts.{count_ready, IsSound}
use nxos.Sched.Switch.{total}
use nxos.Sched.System.{System, Reach, booted, starts, boots, begin, go}
use nxos.Sched.Reach.{Reach-placed, Reach-IsSound, Reach-runs_once, Reach-yield}

abbrev thread : ℕ → Thread
thread n = record {
  tid = n;
  state = init;
  timeslice = 3;
  ticks = 3;
  elapsed_ticks = 0;
  fixed_priority = 3;
  priority = 3;
  need_sched = false;
  is_terminated = false;
  on_core = 0;
  core_affinity = 0;
}

thread-IsPrioritised : (n : ℕ) → IsPrioritised (thread n)
thread-IsPrioritised n = ground arith

abbrev made : Option Machine → Machine
made none = booted 1 1
made (some m) = m

abbrev state_0 : System
state_0 = record { machine = booted 1 1; blocks = []; started = []; reaped = [] }

abbrev state_1 : System
unfolding start ready_run add_pending enqueue
state_1 = record state_0 {
  machine = made (start state_0.machine (thread 0));
  started = thread 0 ∷ [];
}

abbrev state_2 : System
unfolding start ready_run add_pending enqueue
state_2 = record state_1 {
  machine = made (start state_1.machine (thread 1));
  started = thread 1 ∷ thread 0 ∷ [];
}

abbrev state_3 : System
unfolding sched_to_first pick pick_loop lower_priority set_running
state_3 = record state_2 { machine = made (sched_to_first state_2.machine 0) }

abbrev first_core : Machine → Cpu
first_core m = elim (get_elem? m.cpus 0) [ none ↦ cpu_init | some c ↦ c ]

reach_2 : Reach 1 1 state_2
unfolding start ready_run add_pending enqueue state_1 state_2
reach_2 =
    go (go begin (starts state_0 (thread 0) state_1.machine (thread-IsPrioritised 0) refl))
      (starts state_1 (thread 1) state_2.machine (thread-IsPrioritised 1) refl)

reach_3 : Reach 1 1 state_3
unfolding start ready_run add_pending enqueue sched_to_first pick pick_loop lower_priority
    set_running state_1 state_2 state_3
reach_3 = go reach_2 (boots state_2 0 (first_core state_2.machine) state_3.machine refl refl refl)

Reach-placed_example :
    total 1 state_3.machine + count 1 state_3.blocks + count 1 state_3.reaped
    ≡ count 1 state_3.started
unfolding state_1 state_2 state_3
Reach-placed_example = Reach-placed reach_3 1

Reach-IsSound_example : IsSound state_3.machine
Reach-IsSound_example = Reach-IsSound reach_3

abbrev runner : Cpu → Thread
runner c = elim c.thread_running [ none ↦ thread 0 | some t ↦ t ]

Reach-runs_once_example :
    ((◌≡◌ {A = ℕ} 0 0))
    × (count_ready (runner (first_core state_3.machine)).tid state_3.machine ≡ 0)
    × (count (runner (first_core state_3.machine)).tid state_3.blocks ≡ 0)
unfolding start ready_run add_pending enqueue sched_to_first pick pick_loop lower_priority
    set_running state_1 state_2 state_3
Reach-runs_once_example =
    Reach-runs_once reach_3 0 0 (first_core state_3.machine) (first_core state_3.machine)
      (runner (first_core state_3.machine)) (runner (first_core state_3.machine)) refl refl refl
      refl refl refl

Reach-yield_example :
    (m' : Machine) × (yield state_3.machine 0 ≡ some m')
    × Reach 1 1 (record state_3 { machine = m' })
unfolding start ready_run add_pending enqueue sched_to_first pick pick_loop lower_priority
    set_running state_1 state_2 state_3
Reach-yield_example =
    Reach-yield reach_3 0 (first_core state_3.machine) (runner (first_core state_3.machine)) refl
      refl
