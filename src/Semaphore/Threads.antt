-- ===== src/Semaphore/Threads.antt =====
-- Threads that share one semaphore of src/sched/semaphore.c, a critical section at a time.
use nxos.Base.{
  ℕ, ◌+◌, ◌≤◌, ◌≡◌, ◌≢◌, refl, ap, ◌⊎◌, inl, inr, List, [], ◌∷◌, ◌++◌, arith, if◌then◌else◌, length,
  length-append,
}
use nxos.Semaphore.Laws.{Signalled, signal_body-Signalled}
use nxos.Semaphore.{Semaphore, wait_round, signal_body, signal_all_body, semaphore_magic}

-- `woken` are the threads that NX_ThreadUnblock was called for and that have not run since; `taken`
-- and `given` count the values taken and the signals given.
pub record System : Type 0 where
  pub sem : Semaphore
  pub woken : List ℕ
  pub taken : ℕ
  pub given : ℕ

-- A round of `NX_SemaphoreWait`, after which `woken` are left.
abbrev pub after_round : System → (woken : List ℕ) → ℕ → System
after_round s woken t =
    let (sem, got) = wait_round s.sem t in
    record { sem = sem; woken = woken; taken = s.taken + (if got then 1 else 0); given = s.given }

abbrev pub after_signal : System → Semaphore × List ℕ → System
after_signal s (sem, fresh) = record {
  sem = sem;
  woken = s.woken ++ fresh;
  taken = s.taken;
  given = s.given + 1;
}

-- A thread calls `NX_SemaphoreWait`, or goes round its loop again after it was woken; some thread
-- or interrupt calls `NX_SemaphoreSignal` or `NX_SemaphoreSignalAll`.
pub data Step (s : System) : System → Type 0 where
  enter : (t : ℕ) → Step s (after_round s s.woken t)
  again : (t : ℕ) (us vs : List ℕ) → s.woken ≡ us ++ t ∷ vs → Step s (after_round s (us ++ vs) t)
  signals : Step s (after_signal s (signal_body s.sem))
  signals_all : Step s (after_signal s (signal_all_body s.sem))

abbrev pub start : ℕ → System
start value = record {
  sem = record { value = value; wait_list = []; magic = semaphore_magic };
  woken = [];
  taken = 0;
  given = 0;
}

pub data Reach (value : ℕ) : System → Type 0 where
  begin : Reach value (start value)
  next : {s t : System} → Reach value s → Step s t → Reach value t

pub record Inv (value : ℕ) (s : System) : Type 0 where
  pub conserved : s.sem.value + s.taken ≡ value + s.given
  pub wakeful : (s.sem.wait_list ≡ []) ⊎ (s.sem.value ≤ length s.woken)

signal-wakeful :
    (s : System)
    → (s.sem.wait_list ≡ []) ⊎ (s.sem.value ≤ length s.woken)
    → (r : Semaphore × List ℕ) → Signalled s.sem r
    → (r.0.wait_list ≡ []) ⊎ (r.0.value ≤ length (s.woken ++ r.1))
signal-wakeful s v r (inl (idle, e)) = inl (ground (arith, e))
signal-wakeful s v r (inr (t, rest, some_wait, e)) =
    inr (ground (arith, e, length-append s.woken (t ∷ [])))

signal-value : (s : Semaphore) (r : Semaphore × List ℕ) → Signalled s r → r.0.value ≡ s.value + 1
signal-value s r (inl (idle, e)) = ground (arith, e)
signal-value s r (inr (t, rest, some_wait, e)) = ground (arith, e)

Step-Inv : {value : ℕ} {s t : System} → Step s t → Inv value s → Inv value t
unfolding wait_round signal_all_body
Step-Inv (enter t) v = record {
  conserved = ground (arith, v.conserved);
  wakeful = ground (arith, v.wakeful);
}
Step-Inv (again t us vs e) v = record {
  conserved = ground (arith, v.conserved);
  wakeful = ground (arith, v.wakeful, length-append us vs, length-append us (t ∷ vs), ap length e);
}
Step-Inv {s} signals v = record {
  conserved =
      omega
        (arith, v.conserved, signal-value s.sem (signal_body s.sem) (signal_body-Signalled s.sem));
  wakeful = signal-wakeful s v.wakeful (signal_body s.sem) (signal_body-Signalled s.sem);
}
Step-Inv signals_all v = record { conserved = ground (arith, v.conserved); wakeful = ground arith }

Reach-Inv : {value : ℕ} {s : System} → Reach value s → Inv value s
Reach-Inv begin = record { conserved = omega arith; wakeful = inl refl }
Reach-Inv (next r st) = Step-Inv st (Reach-Inv r)

-- However threads and interrupts interleave their calls, what is not taken of the first value and
-- of the signals given is the semaphore's value, so no value is taken twice and none is lost.
pub Reach-conserved :
    {value : ℕ} {s : System} → Reach value s → s.sem.value + s.taken ≡ value + s.given
Reach-conserved r = (Reach-Inv r).conserved

-- No wake-up is lost: whenever threads are on the wait list, at least as many threads as the value
-- counts were woken and have still to try again, so a value never stays behind for waiting threads.
pub Reach-wakeful :
    {value : ℕ} {s : System} → Reach value s → s.sem.wait_list ≢ [] → s.sem.value ≤ length s.woken
Reach-wakeful r waiting = elim (Reach-Inv r).wakeful [
  | inl idle ↦ absurd (waiting idle)
  | inr awake ↦ awake
]
