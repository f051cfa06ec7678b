-- ===== src/Sched.antt =====
-- src/sched/sched.c and src/sched/thread.c: the threads of all cores, the list of ready threads that
-- no core has, and the switch from one thread to the next. There are as many cores as `cpus` has
-- entries (NX_MULTI_CORES_NR); a thread whose `on_core` is no core is for any of them. Which code a
-- thread runs, its stack, page table and other resources are not represented, nor is the change of page
-- tables in `SchedSwithProcess`, with its assertions; nor are the locks.
-- `none` is a failed assertion, or a core that there is not.
pub mod Counts
pub mod Takes
pub mod Moves
pub mod Balance
pub mod Switch
pub mod System
pub mod Effects
pub mod Reach
mod Tests
use nxos.Base.{
  ℕ, zero, suc, ◌+◌, ◌-◌, ◌/◌, ◌%◌, ◌^◌, ◌≡◌, Bool, true, false, Option, none, some, List, [], ◌∷◌,
  ◌++◌, ltb, leb, ◌==◌, if◌then◌else◌, length, get_elem?, set, ◌>>=◌, Error, eok, einval, ebusy,
}
use nxos.Smp.{
  ThreadState, init, ready, running, blocked, exit, Thread, Cpu, enqueue, pick, dequeue_no_affinity,
  set_running,
}

-- `NX_ThreadManager`, the cores, and `gActivedCoreCount`.
pub record Machine : Type 0 where
  pub cpus : List Cpu
  pub pending : List Thread
  pub pending_count : ℕ
  pub active_count : ℕ
  pub exits : List Thread
  pub actived_cores : ℕ

-- `NX_ThreadAddToGlobalPendingList`
unfoldable pub add_pending : Machine → Thread → (head : Bool) → Machine
add_pending m t head = record m {
  pending = if head then t ∷ m.pending else m.pending ++ t ∷ [];
  pending_count = m.pending_count + 1;
}

-- `NX_ThreadReadyRunLocked`
unfoldable pub ready_run : Machine → Thread → (head : Bool) → Option Machine
unfolding add_pending
ready_run m t head =
    let t = record t { state = ready } in
    elim (get_elem? m.cpus t.on_core) [
      | none ↦ some (add_pending m t head)
      | some cpu ↦ do
        cpu' ← enqueue cpu t head
        some (record m { cpus = set m.cpus t.on_core cpu' })
    ]

-- `NX_ThreadStart` of a thread that is not NX_NULL.
unfoldable pub start : Machine → Thread → Option Machine
unfolding ready_run
start m t = ready_run (record m { active_count = m.active_count + 1 }) t false

-- The first half of `PullOrPushThread`, with `NX_ThreadPickPendingList`.
unfoldable pub pull : Machine → (core : ℕ) → Option Machine
unfolding ready_run
pull m core = elim m.pending [
  | [] ↦ some m
  | t ∷ ts ↦
      ready_run (record m { pending = ts; pending_count = m.pending_count - 1 })
        (record t { on_core = core }) true
]

-- The second half, with `NX_ThreadEnqueuePendingList`.
unfoldable pub push : Machine → (core : ℕ) → Option Machine
unfolding add_pending
push m core = do
  cpu ← get_elem? m.cpus core
  elim (dequeue_no_affinity (length m.cpus) cpu) [
    | none ↦ some m
    | some (t, cpu') ↦ some (
        add_pending (record m { cpus = set m.cpus core cpu' })
          (record t { on_core = length m.cpus }) true)
  ]

-- `PullOrPushThread`
unfoldable pub pull_or_push : Machine → (core : ℕ) → Option Machine
unfolding pull push
pull_or_push m core = do
  cpu ← get_elem? m.cpus core
  m' ← (if ltb cpu.thread_count (m.active_count / m.actived_cores + 1) then pull m core else some m)
  if ltb (m.active_count / m.actived_cores + 1) cpu.thread_count then push m' core else some m'

-- `NX_SchedToFirstThread`, and the end of `NX_SchedLockedIRQ`.
unfoldable pub sched_to_first : Machine → (core : ℕ) → Option Machine
sched_to_first m core = do
  cpu ← get_elem? m.cpus core
  next ← pick cpu
  some (record m { cpus = set m.cpus core (set_running next.1 next.0) })

-- `NX_SchedLockedIRQ` on a core, whose running thread has been put where it belongs before.
unfoldable pub sched : Machine → (core : ℕ) → Option Machine
unfolding pull_or_push sched_to_first
sched m core = do m' ← pull_or_push m core; sched_to_first m' core

-- The thread that a core runs, and the machine where it does not run any more.
unfoldable pub current : Machine → (core : ℕ) → Option (Thread × Machine)
current m core = do
  cpu ← get_elem? m.cpus core
  cur ← cpu.thread_running
  some (cur, record m { cpus = set m.cpus core (record cpu { thread_running = none }) })

-- `NX_SchedYield`, whose three critical sections no other core interrupts.
unfoldable pub yield : Machine → (core : ℕ) → Option Machine
unfolding current ready_run sched
yield m core = do cur ← current m core; m' ← ready_run cur.1 cur.0 false; sched m' core

-- `NX_ThreadBlockLockedIRQ` of the running thread, which is then in no list.
unfoldable pub block : Machine → (core : ℕ) → Option (Machine × Thread)
unfolding current sched
block m core = do
  cur ← current m core
  m' ← sched cur.1 core
  some (m', record cur.0 { state = blocked })

abbrev pub is_blocked : ThreadState → Bool
is_blocked blocked = true
is_blocked _ = false

abbrev pub woken : Machine → Option (Machine × Error)
woken m = some (m, eok)

-- `NX_ThreadUnblock`
unfoldable pub unblock : Machine → Thread → Option (Machine × Error)
unfolding ready_run
unblock m t = if is_blocked t.state then (ready_run m t true >>= woken) else some (m, ebusy)

-- `NX_ThreadExit` from the lists on, with `NX_SchedExit` and `NX_ThreadEnququeExitList`.
unfoldable pub exit_thread : Machine → (core : ℕ) → Option Machine
unfolding current sched
exit_thread m core = do
  cur ← current m core
  sched
      (record cur.1 {
        exits = record cur.0 { state = exit } ∷ cur.1.exits;
        active_count = cur.1.active_count - 1;
      })
      core

-- `NX_ThreadDeququeExitList`
unfoldable pub dequeue_exit : Machine → Machine × Option Thread
dequeue_exit m = elim m.exits [ [] ↦ (m, none) | t ∷ ts ↦ (record m { exits = ts }, some t) ]

-- `NX_SchedIrqHandler` of src/time/clock.c, on a running thread that is not to be terminated.
unfoldable pub sched_irq : Thread → Thread
sched_irq t =
    let ticks = (t.ticks + 2 ^ 32 - 1) % 2 ^ 32 in
    record t {
      ticks = ticks;
      elapsed_ticks = (t.elapsed_ticks + 1) % 2 ^ 64;
      need_sched = if ticks == 0 then true else t.need_sched;
    }

-- `NX_SchedIrqHandler` on the thread that a core runs.
unfoldable pub tick : Machine → (core : ℕ) → Option Machine
unfolding sched_irq
tick m core = do
  cpu ← get_elem? m.cpus core
  t ← cpu.thread_running
  some (record m { cpus = set m.cpus core (record cpu { thread_running = some (sched_irq t) }) })

-- A thread at the end of its time slice goes to the end of its list.
abbrev pub renewed : Thread → Thread
renewed t = record t { need_sched = false; ticks = t.timeslice }

unfoldable pub renew : Machine → (core : ℕ) → Thread × Machine → Option Machine
unfolding ready_run sched
renew m core cur =
    if cur.0.need_sched
    then (ready_run cur.1 (renewed cur.0) false >>= λ m'. sched m' core)
    else some m

-- The end of `NX_ReSchedCheck`, for a running thread that is not to be terminated.
unfoldable pub re_sched_check : Machine → (core : ℕ) → Option Machine
unfolding current
re_sched_check m core = current m core >>= renew m core

-- `NX_ThreadSetAffinity` of a thread that is not NX_NULL.
pub set_affinity : (cores : ℕ) → Thread → (core : ℕ) → Thread × Error
set_affinity cores t core =
    if leb cores core then (t, einval) else (record t { core_affinity = core; on_core = core }, eok)
