-- ===== src/Semaphore/Tests.antt =====
-- A semaphore with one thread on its wait list.
use nxos.Base.{◌+◌, ◌≤◌, ◌≡◌, [], ◌∷◌, arith, length}
use nxos.Semaphore.{Semaphore, semaphore_magic, wait_round, signal_body}
use nxos.Semaphore.Threads.{
  System, enter, signals, Reach, begin, next, Reach-conserved, Reach-wakeful,
}

abbrev waited_on : Semaphore
waited_on = record { value = 0; wait_list = 4 ∷ []; magic = semaphore_magic }

-- Two threads wait in vain, and one signal wakes the first.
abbrev one_woken : System
one_woken = record {
  sem = record { value = 1; wait_list = 5 ∷ []; magic = semaphore_magic };
  woken = 4 ∷ [];
  taken = 0;
  given = 1;
}

one_woken-Reach : Reach 0 one_woken
unfolding wait_round signal_body
one_woken-Reach = next (next (next begin (enter 4)) (enter 5)) signals

Reach-conserved_example : one_woken.sem.value + one_woken.taken ≡ 0 + one_woken.given
Reach-conserved_example = Reach-conserved one_woken-Reach

Reach-wakeful_example : one_woken.sem.value ≤ length one_woken.woken
Reach-wakeful_example = Reach-wakeful one_woken-Reach (λ e. ground arith)
