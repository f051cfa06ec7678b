-- ===== src/Clock/Tests.antt =====
-- A time slice of three ticks.
use nxos.Base.{false}
use nxos.Smp.{Thread, running}

abbrev thread : Thread
thread = record {
  tid = 4;
  state = running;
  timeslice = 3;
  ticks = 3;
  elapsed_ticks = 0;
  fixed_priority = 3;
  priority = 3;
  need_sched = false;
  is_terminated = false;
  on_core = 0;
  core_affinity = 0;
}
