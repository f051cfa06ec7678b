-- ===== src/Clock/Ticks.antt =====
-- Ticks of a thread's time slice: `NX_SchedIrqHandler`, which src/time/clock.c calls at every tick.
use nxos.Base.{ℕ, zero, suc}
use nxos.Smp.{Thread}
use nxos.Sched.{sched_irq}

-- `n` calls of `NX_SchedIrqHandler`, one for each tick.
abbrev pub ticked : ℕ → Thread → Thread
unfolding sched_irq
ticked zero t = t
ticked (suc n) t = ticked n (sched_irq t)
