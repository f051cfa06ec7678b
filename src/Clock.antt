-- ===== src/Clock.antt =====
-- src/time/clock.c: the tick of the clock, which counts time (Time) and puts off the work of timers and
-- of scheduling (DelayIrq). The delays and the system time are the state that the tick changes; the clock
-- device that NX_HalInitClock starts is an argument, as is whether this is the processor that booted.
pub mod Ticks
mod Tests
use nxos.Base.{
  ℕ, ◌+◌, ◌%◌, ◌^◌, ◌≡◌, Bool, true, false, Option, ◌>>=◌, ◌==◌, if◌then◌else◌, word, Error, eok,
  is_eok,
}
use nxos.Time.{Time, time_go}
use nxos.DelayIrq.{Delays, work_init, queue_enter, queue_leave, work_handle}

-- NX_TICKS_PER_SECOND
abbrev pub ticks_per_second : ℕ
ticks_per_second = 100

-- `systemClockTicks`, the system time and the delayed work; the time is `none` after `NX_TimeGo` left the
-- table of months.
pub record Clock : Type 0 where
  pub ticks : ℕ
  pub time : Option Time
  pub delays : Delays

-- The numbers of `timerWork` and `schedWork`.
abbrev pub timer_work : ℕ
timer_work = 1

abbrev pub sched_work : ℕ
sched_work = 2

-- NX_IRQ_FAST_QUEUE and NX_IRQ_SCHED_QUEUE
abbrev pub fast_queue : ℕ
fast_queue = 0

abbrev pub sched_queue : ℕ
sched_queue = 3

-- `NX_ClockTickGo`, with CONFIG_NX_ENABLE_SCHED.
unfoldable pub boot_tick : Clock → Clock
unfolding time_go work_handle
boot_tick c =
    let ticks = (c.ticks + 1) % word in
    record {
      ticks = ticks;
      time = if ticks % ticks_per_second == 0 then c.time >>= time_go else c.time;
      delays = (work_handle c.delays timer_work).0;
    }

unfoldable pub tick_go : (boot_core : Bool) → Clock → Clock
unfolding boot_tick work_handle
tick_go boot_core c =
    let c' = if boot_core then boot_tick c else c in
    record c' { delays = (work_handle c'.delays sched_work).0 }

-- `NX_ClockInit`; an early end keeps the error.
abbrev pub then_ok : Delays × Error → (Delays → Delays × Error) → Delays × Error
then_ok (s, err) f = if is_eok err then f s else (s, err)

-- What is undone when a later part fails.
abbrev pub or_undo : Delays × Error → (Delays → Delays) → Delays × Error
or_undo (s, err) f = if is_eok err then (s, err) else (f s, err)

unfoldable pub clock_init : Delays → (hal : Error) → Delays × Error
unfolding work_init queue_enter queue_leave is_eok
clock_init s hal =
    let s' = work_init (work_init s timer_work true) sched_work true in
    then_ok (queue_enter s' fast_queue timer_work) λ s1.
      then_ok
        (or_undo (queue_enter s1 sched_queue sched_work)
          λ s2. (queue_leave s2 fast_queue timer_work).0)
        λ s3.
          or_undo (s3, hal)
            λ s4. (queue_leave (queue_leave s4 fast_queue timer_work).0 sched_queue sched_work).0
