-- ===== src/Sched/System.antt =====
-- All threads of the machine of src/sched, from the start of a thread to its end, as steps of the cores
-- in any order. A step is a call of one operation as a whole; how calls on two cores interleave inside is
-- not represented. The threads that are blocked are in no list of the scheduler; the system counts them here.
use nxos.Base.{ℕ, ◌+◌, ◌≡◌, none, some, List, [], ◌∷◌, ◌++◌, get_elem?, eok, replicate}
use nxos.Smp.{Thread, Cpu, cpu_init}
use nxos.Smp.Count.{count, All}
use nxos.Smp.Pick.{IsPrioritised}
use nxos.Sched.{
  Machine, sched_to_first, start, yield, block, unblock, exit_thread, dequeue_exit, re_sched_check,
  tick,
}
use nxos.Sched.Counts.{IsSound}
use nxos.Sched.Switch.{total}

pub record System : Type 0 where
  pub machine : Machine
  pub blocks : List Thread
  pub started : List Thread
  pub reaped : List Thread

-- The machine before any thread is started.
abbrev pub booted : (cores active : ℕ) → Machine
booted cores active = record {
  cpus = replicate cores cpu_init;
  pending = [];
  pending_count = 0;
  active_count = 0;
  exits = [];
  actived_cores = active;
}

pub data Step : System → System → Type 0 where
  starts :
      (s : System) (t : Thread) (m' : Machine)
      → IsPrioritised t
      → start s.machine t ≡ some m'
      → Step s (record s { machine = m'; started = t ∷ s.started })
  boots :
      (s : System) (core : ℕ) (c : Cpu) (m' : Machine)
      → get_elem? s.machine.cpus core ≡ some c
      → c.thread_running ≡ none
      → sched_to_first s.machine core ≡ some m'
      → Step s (record s { machine = m' })
  yields :
      (s : System) (core : ℕ) (m' : Machine)
      → yield s.machine core ≡ some m'
      → Step s (record s { machine = m' })
  ticks :
      (s : System) (core : ℕ) (m' : Machine)
      → tick s.machine core ≡ some m'
      → Step s (record s { machine = m' })
  rescheds :
      (s : System) (core : ℕ) (m' : Machine)
      → re_sched_check s.machine core ≡ some m'
      → Step s (record s { machine = m' })
  sleeps :
      (s : System) (core : ℕ) (m' : Machine) (t : Thread)
      → block s.machine core ≡ some (m', t)
      → Step s (record s { machine = m'; blocks = t ∷ s.blocks })
  wakes :
      (s : System) (before after : List Thread) (t : Thread) (m' : Machine)
      → s.blocks ≡ before ++ t ∷ after
      → unblock s.machine t ≡ some (m', eok)
      → Step s (record s { machine = m'; blocks = before ++ after })
  exits :
      (s : System) (core : ℕ) (m' : Machine)
      → exit_thread s.machine core ≡ some m'
      → Step s (record s { machine = m' })
  reaps :
      (s : System) (t : Thread) (m' : Machine)
      → dequeue_exit s.machine ≡ (m', some t)
      → Step s (record s { machine = m'; reaped = t ∷ s.reaped })

pub data Reach (cores active : ℕ) : System → Type 0 where
  begin :
      Reach cores active
        (record { machine = booted cores active; blocks = []; started = []; reaped = [] })
  go : {s s' : System} → Reach cores active s → Step s s' → Reach cores active s'

-- The machine is in order, and each thread started is in exactly one place.
pub record Inv (s : System) : Type 0 where
  pub sound : IsSound s.machine
  pub ranked : All (λ t. IsPrioritised t) s.blocks
  pub placed :
      (tid : ℕ)
      → total tid s.machine + count tid s.blocks + count tid s.reaped ≡ count tid s.started
