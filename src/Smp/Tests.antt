-- ===== src/Smp/Tests.antt =====
-- Picking from the ready lists of src/sched/smp.c in a small state.
use nxos.Base.{ℕ, false, none, [], ◌∷◌, arith}
use nxos.Smp.{Thread, Cpu, ready, lower_priority}
use nxos.Smp.Pick.{IsPrioritised, lower_priority-IsPrioritised}

abbrev thread : ℕ → Thread
thread n = record {
  tid = n;
  state = ready;
  timeslice = 3;
  ticks = 3;
  elapsed_ticks = 0;
  fixed_priority = 3;
  priority = 2;
  need_sched = false;
  is_terminated = false;
  on_core = 0;
  core_affinity = 0;
}

abbrev cpu : Cpu
cpu = record {
  ready_list = [] ∷ [] ∷ (thread 5 ∷ thread 7 ∷ []) ∷ [] ∷ [];
  thread_running = none;
  idle = none;
  thread_count = 2;
}

lower_priority-IsPrioritised_example : IsPrioritised (lower_priority (thread 5))
lower_priority-IsPrioritised_example = lower_priority-IsPrioritised (thread 5) (ground arith)
