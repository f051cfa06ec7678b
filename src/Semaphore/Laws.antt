-- ===== src/Semaphore/Laws.antt =====
-- The operations of src/sched/semaphore.c, one call at a time.
use nxos.Base.{
  ℕ, ◌+◌, ◌-◌, ◌<◌, ◌≡◌, refl, ◌⊎◌, inl, inr, true, some, List, [], ◌∷◌, ◌++◌, arith, if◌then◌else◌,
  eok, eagain, dec_lt,
}
use nxos.Semaphore.{
  Semaphore, semaphore_magic, mem, wait_round, wait, taken, blocked, try_wait, signal_body, signal,
  signal_all_body, signal_all,
}

-- What one signal does: it adds one to the value, and takes the thread that has waited longest off
-- the list and wakes it, if there is one.
abbrev pub Signalled : Semaphore → Semaphore × List ℕ → Type 0
Signalled s r =
    ((s.wait_list ≡ []) × (r ≡ (record s { value = s.value + 1 }, [])))
    ⊎ ((t : ℕ) × (rest : List ℕ) × (s.wait_list ≡ t ∷ rest)
        × (r ≡ (record s { value = s.value + 1; wait_list = rest }, t ∷ [])))

List-cases : (l : List ℕ) → (l ≡ []) ⊎ ((t : ℕ) × (rest : List ℕ) × (l ≡ t ∷ rest))
List-cases [] = inl refl
List-cases (t ∷ rest) = inr (t, rest, refl)

pub signal_body-Signalled : (s : Semaphore) → Signalled s (signal_body s)
unfolding signal_body
signal_body-Signalled s = elim (List-cases s.wait_list) [
  | inl e ↦ inl (e, ground (arith, e))
  | inr (t, rest, e) ↦ inr (t, rest, e, ground (arith, e))
]

-- A semaphore that was set up and that a call may use.
abbrev pub IsReady : Semaphore → Type 0
IsReady s = s.magic ≡ semaphore_magic

-- The first thread of the wait list that `NX_SemaphoreSignal` wakes finds a value to take when it
-- goes round the loop of `NX_SemaphoreWait` next, whatever the value was before; it then leaves the
-- value as it was before the signal and the other threads waiting in their order.
pub wait-signal :
    (s : Semaphore) (t : ℕ) (rest : List ℕ)
    → IsReady s
    → s.wait_list ≡ t ∷ rest
    → (s' : Semaphore) × (signal (some s) ≡ (some s', eok, t ∷ []))
      × (wait (some s') t ≡ (some (record s { wait_list = rest }), taken))
unfolding signal signal_body wait wait_round
wait-signal s t rest ready e =
    (record s { value = s.value + 1; wait_list = rest }, ground (arith, e), ground arith)

mem-append_self : (t : ℕ) (us : List ℕ) → mem t (us ++ t ∷ []) ≡ true
mem-append_self t [] = ground arith
mem-append_self t (u ∷ us) = ground (arith, mem-append_self t us)

mem-queued : (t : ℕ) (us : List ℕ) → mem t (if mem t us then us else us ++ t ∷ []) ≡ true
mem-queued t us = ground (arith, mem-append_self t us)

-- `NX_SemaphoreTryWait` and a round of `NX_SemaphoreWait` on a ready semaphore take the value in the
-- same cases and with the same result. Where there is none to take, the first answers NX_EAGAIN and
-- changes nothing, and the second blocks the thread, which then stands on the wait list.
pub try_wait-wait :
    (s : Semaphore) (t : ℕ)
    → IsReady s
    → ((0 < s.value)
        × (try_wait (some s) ≡ (some (record s { value = s.value - 1 }), eok))
        × (wait (some s) t ≡ (some (record s { value = s.value - 1 }), taken)))
      ⊎ ((s.value ≡ 0)
          × (try_wait (some s) ≡ (some s, eagain))
          × ((s' : Semaphore) × (wait (some s) t ≡ (some s', blocked))
              × (mem t s'.wait_list ≡ true)
              × (s'.value ≡ 0)
              × IsReady s'))
unfolding try_wait wait wait_round
try_wait-wait s t ready = elim (dec_lt 0 s.value) [
  | yes pos ↦ inl (pos, ground arith, ground arith)
  | no none_left ↦
      inr (
        omega arith,
        ground arith,
        (s', ground arith, mem-queued t s.wait_list, omega arith, ready),
      )
]
  where
    s' : Semaphore
    s' = record s { wait_list = if mem t s.wait_list then s.wait_list else s.wait_list ++ t ∷ [] }

-- `NX_SemaphoreSignalAll` adds one to the value, wakes every waiting thread in the order of the list,
-- and leaves no thread waiting.
pub signal_all_lem :
    (s : Semaphore)
    → IsReady s
    → signal_all (some s)
      ≡ (some (record s { value = s.value + 1; wait_list = [] }), eok, s.wait_list)
unfolding signal_all signal_all_body
signal_all_lem s ready = ground arith

-- A signal of a ready semaphore succeeds, adds one to the value and leaves the semaphore ready.
pub signal_lem :
    (s : Semaphore)
    → IsReady s
    → (s' : Semaphore) × (woken : List ℕ) × (signal (some s) ≡ (some s', eok, woken))
      × (s'.value ≡ s.value + 1)
      × IsReady s'
unfolding signal
signal_lem s ready = elim (signal_body-Signalled s) [
  | inl h ↦ (record s { value = s.value + 1 }, [], ground (arith, h.1), omega arith, ready)
  | inr (u, rest, e, h) ↦ (
    record s { value = s.value + 1; wait_list = rest },
    u ∷ [],
    ground (arith, h),
    omega arith,
    ready,
  )
]

-- A value that is not 0 is taken by `NX_SemaphoreTryWait` and by `NX_SemaphoreWait`.
pub take_lem :
    (s : Semaphore) (t : ℕ)
    → IsReady s
    → 0 < s.value
    → (try_wait (some s) ≡ (some (record s { value = s.value - 1 }), eok))
      × (wait (some s) t ≡ (some (record s { value = s.value - 1 }), taken))
unfolding try_wait wait wait_round
take_lem s t ready pos = (ground arith, ground arith)
