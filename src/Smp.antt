-- ===== src/Smp.antt =====
-- src/sched/smp.c and src/include/base/smp.h, with the threads of src/include/base/thread.h: the
-- ready lists of one processor core. A thread is in one list, or in the hands of a caller, so a list
-- holds the threads themselves. The list of priority i is entry i of `ready`, which has
-- NX_THREAD_MAX_PRIORITY_NR entries. The spin lock of a core is not represented, nor are booting of
-- other cores and the measured idle time. A removal that finds no thread is `none`.
pub mod Pick
pub mod Count
mod Tests
use nxos.Base.{
  ℕ, zero, suc, ◌+◌, ◌-◌, ◌%◌, ◌^◌, ◌≡◌, Bool, true, false, ◌&&◌, Option, none, some, List, [], ◌∷◌,
  ◌++◌, ltb, leb, ◌==◌, if◌then◌else◌, get_elem?, set, replicate,
}

-- `NX_ThreadState`
pub data ThreadState : Type 0 where
  init ready running blocked exit : ThreadState

-- `NX_Thread`, what scheduling reads of it.
pub record Thread : Type 0 where
  pub tid : ℕ
  pub state : ThreadState
  pub timeslice : ℕ
  pub ticks : ℕ
  pub elapsed_ticks : ℕ
  pub fixed_priority : ℕ
  pub priority : ℕ
  pub need_sched : Bool
  pub is_terminated : Bool
  pub on_core : ℕ
  pub core_affinity : ℕ

-- `NX_Cpu`; `idle` is the number of the idle thread.
pub record Cpu : Type 0 where
  pub ready_list : List (List Thread)
  pub thread_running : Option Thread
  pub idle : Option ℕ
  pub thread_count : ℕ

abbrev pub max_priority_nr : ℕ
max_priority_nr = 16

-- What `NX_SMP_Init` writes for each core.
abbrev pub cpu_init : Cpu
cpu_init = record {
  ready_list = replicate max_priority_nr [];
  thread_running = none;
  idle = none;
  thread_count = 0;
}

-- The list of one priority with a thread put in, and the others.
abbrev pub put_at : (prio : ℕ) (head : Bool) → Thread → List (List Thread) → List (List Thread)
put_at prio head t [] = []
put_at zero head t (q ∷ qs) = (if head then t ∷ q else q ++ t ∷ []) ∷ qs
put_at (suc prio) head t (q ∷ qs) = q ∷ put_at prio head t qs

-- `NX_SMP_EnqueueThreadIrqDisabled`; `head` says whether NX_SCHED_HEAD is set. `none` is the failed
-- assertion on the priority.
unfoldable pub enqueue : Cpu → Thread → (head : Bool) → Option Cpu
enqueue cpu t head =
    if ltb t.priority max_priority_nr
    then some (record cpu {
      ready_list = put_at t.priority head t cpu.ready_list;
      thread_count = cpu.thread_count + 1;
    })
    else none

-- `NX_ListDel` of the thread with a number, wherever it is.
abbrev pub take_tid : ℕ → List Thread → Option (List Thread)
take_tid tid [] = none
take_tid tid (t ∷ ts) =
    if t.tid == tid
    then some ts
    else elim (take_tid tid ts) [ none ↦ none | some us ↦ some (t ∷ us) ]

abbrev pub take_tid_all : ℕ → List (List Thread) → Option (List (List Thread))
take_tid_all tid [] = none
take_tid_all tid (q ∷ qs) = elim (take_tid tid q) [
  | some q' ↦ some (q' ∷ qs)
  | none ↦ elim (take_tid_all tid qs) [ none ↦ none | some qs' ↦ some (q ∷ qs') ]
]

-- `NX_SMP_DequeueThreadIrqDisabled`
unfoldable pub dequeue : Cpu → ℕ → Option Cpu
dequeue cpu tid = elim (take_tid_all tid cpu.ready_list) [
  | none ↦ none
  | some qs ↦ some (record cpu { ready_list = qs; thread_count = cpu.thread_count - 1 })
]

abbrev pub priority_low : ℕ
priority_low = 1

abbrev pub priority_high : ℕ
priority_high = 6

-- `NX_ThreadLowerPriority`
unfoldable pub lower_priority : Thread → Thread
lower_priority t =
    let lower = (t.priority + 2 ^ 32 - 1) % 2 ^ 32 in
    if leb priority_low t.fixed_priority && leb t.fixed_priority priority_high
    then record t { priority = if ltb lower priority_low then t.fixed_priority else lower }
    else t

-- The loop of `NX_SMP_PickThreadIrqDisabled`, from the highest list down: a list is looked at when
-- those above it are empty.
abbrev pub Found : Type 0
Found = Option (Thread × List (List Thread))

abbrev pub pick_next : List Thread → List (List Thread) → Found → Found
pick_next q qs (some (t, qs')) = some (t, q ∷ qs')
pick_next [] qs none = none
pick_next (t ∷ ts) qs none = some (t, ts ∷ qs)

unfoldable pub pick_loop : List (List Thread) → Found
pick_loop [] = none
pick_loop (q ∷ qs) = pick_next q qs (pick_loop qs)

-- `NX_SMP_PickThreadIrqDisabled`; `none` is the failed assertion that some thread is ready.
unfoldable pub pick : Cpu → Option (Thread × Cpu)
unfolding pick_loop lower_priority
pick cpu = elim (pick_loop cpu.ready_list) [
  | none ↦ none
  | some (t, qs) ↦
      some (lower_priority t, record cpu { ready_list = qs; thread_count = cpu.thread_count - 1 })
]

-- The first thread of a list that has no affinity to one of `cores` cores.
abbrev pub behind : Thread → Option (Thread × List Thread) → Option (Thread × List Thread)
behind t none = none
behind t (some (u, us)) = some (u, t ∷ us)

abbrev pub take_free : (cores : ℕ) → List Thread → Option (Thread × List Thread)
take_free cores [] = none
take_free cores (t ∷ ts) =
    if leb cores t.core_affinity then some (t, ts) else behind t (take_free cores ts)

-- The loops of `NX_SMP_DeququeNoAffinityThread`, from the highest list down.
abbrev pub free_next :
    List Thread → List (List Thread) → Option (Thread × List Thread) → Found → Found
free_next q qs own (some (t, qs')) = some (t, q ∷ qs')
free_next q qs none none = none
free_next q qs (some (t, q')) none = some (t, q' ∷ qs)

unfoldable pub free_loop : (cores : ℕ) → List (List Thread) → Found
free_loop cores [] = none
free_loop cores (q ∷ qs) = free_next q qs (take_free cores q) (free_loop cores qs)

-- `NX_SMP_DeququeNoAffinityThread`
unfoldable pub dequeue_no_affinity : (cores : ℕ) → Cpu → Option (Thread × Cpu)
unfolding free_loop
dequeue_no_affinity cores cpu = elim (free_loop cores cpu.ready_list) [
  | none ↦ none
  | some (t, qs) ↦ some (t, record cpu { ready_list = qs; thread_count = cpu.thread_count - 1 })
]

-- `NX_SMP_SetRunning` of a thread that is not NX_NULL, on a core that there is.
unfoldable pub set_running : Cpu → Thread → Cpu
set_running cpu t = record cpu { thread_running = some (record t { state = running }) }

-- `NX_SMP_SetIdle`, on a core that there is.
pub set_idle : Cpu → ℕ → Cpu
set_idle cpu tid = record cpu { idle = some tid }
