-- ===== src/Timer/Expiry.antt =====
-- Which timers `NX_TimerGo` of src/time/timer.c invokes.
use nxos.Base.{
  ℕ, ◌+◌, ◌≤◌, ◌<◌, ◌^◌, ◌≡◌, refl, subst, ap, Bool, true, false, List, [], ◌∷◌, ◌++◌, map, arith,
  dec_lt,
}
use nxos.Timer.{stopped, waiting, Timer, Timers, next_after, invoke, go_loop, go}
use nxos.Timer.Order.{Sorted, IsNext, IsValid}

-- Every timer runs once.
abbrev pub AllOneshot : List Timer → Type 0
AllOneshot [] = Unit {0}
AllOneshot (x ∷ xs) = (x.period ≡ false) × AllOneshot xs

-- Every timer is due at `ticks` or before.
abbrev pub AllDue : (ticks : ℕ) → List Timer → Type 0
AllDue ticks [] = Unit {0}
AllDue ticks (x ∷ xs) = (x.timeout ≤ ticks) × AllDue ticks xs

abbrev pub expired : Timer → Timer
expired t = record t { state = stopped }

-- One tick of the timers: those that are due come off the list and are invoked, the others stay, and
-- the list is valid.
abbrev pub Ticked : Timers → Timers × List Timer → Type 0
Ticked s r =
    (r.0.ticks ≡ s.ticks + 1)
    × IsValid r.0
    × ((due : List Timer) × (s.list ≡ due ++ r.0.list)
        × (r.1 ≡ map expired due)
        × AllDue r.0.ticks due)
    × Sorted (r.0.ticks + 1) r.0.list

module _ (handler : ℕ → Bool) where
  -- The due timers come first and are invoked in order; the others are left and are due later.
  abbrev Split : (ticks : ℕ) → List Timer → List Timer × List Timer → Type 0
  Split ticks xs (left, invoked) =
      (due : List Timer) × (xs ≡ due ++ left)
      × (invoked ≡ map expired due)
      × AllDue ticks due
      × Sorted (ticks + 1) left

  go_loop-Split :
      (ticks lo : ℕ) (xs : List Timer)
      → Sorted lo xs
      → AllOneshot xs
      → Split ticks xs (go_loop handler ticks xs)
  unfolding go_loop invoke
  go_loop-Split ticks lo [] o once = ([], refl, refl, tt, tt)
  go_loop-Split ticks lo (x ∷ xs) o once = elim (dec_lt ticks x.timeout) [
    | yes later ↦
        subst (Split ticks (x ∷ xs)) {x = (x ∷ xs, [])} (ground arith)
          ([], refl, refl, tt, (omega arith, o.1))
    | no now ↦
        let (due, e, e', all, rest) = go_loop-Split ticks x.timeout xs o.1 once.1 in
        let (left, invoked) = go_loop handler ticks xs in
        subst (Split ticks (x ∷ xs)) {x = (left, expired x ∷ invoked)} (ground (arith, once.0))
          (x ∷ due, ap (λ l. x ∷ l) e, ap (λ l. expired x ∷ l) e', (omega arith, all), rest)
  ]

  next_after-Sorted :
      (stray ticks : ℕ) (xs : List Timer)
      → Sorted (ticks + 1) xs
      → IsNext (next_after stray ticks xs) xs
  next_after-Sorted stray ticks [] o = tt
  next_after-Sorted stray ticks (x ∷ xs) o = ground arith

  IsNext-later :
      (ticks next lo : ℕ) (xs : List Timer)
      → Sorted lo xs
      → IsNext next xs
      → ticks < next
      → Sorted (ticks + 1) xs
  IsNext-later ticks next lo [] o right lt = tt
  IsNext-later ticks next lo (x ∷ xs) o right lt = (omega arith, o.1)

  Sorted-zero : (lo : ℕ) (xs : List Timer) → Sorted lo xs → Sorted 0 xs
  Sorted-zero lo [] o = tt
  Sorted-zero lo (x ∷ xs) o = (omega arith, o.1)

  -- `NX_TimerGo` on a list of valid timers that run once counts one tick on, invokes exactly the
  -- timers whose timeout is reached, in the order of the timeouts, takes them off the list as
  -- stopped, and leaves a valid list of timers that are all due later. The ticks do not wrap.
  pub go-Ticked :
      (stray : ℕ) (s : Timers)
      → IsValid s
      → AllOneshot s.list
      → s.ticks + 1 < 2 ^ 64
      → Ticked s (go handler stray s)
  unfolding go
  go-Ticked stray s v once small = elim (dec_lt (s.ticks + 1) s.next_timeout) [
    | yes early ↦ subst (Ticked s) {x = (record s { ticks = s.ticks + 1 }, [])} (ground arith) (
      refl,
      record { sorted = v.sorted; next_right = v.next_right },
      ([], refl, refl, tt),
      IsNext-later (s.ticks + 1) s.next_timeout 0 s.list v.sorted v.next_right early,
    )
    | no now ↦
        let (left, invoked) = go_loop handler (s.ticks + 1) s.list in
        let (due, e, e', all, rest) = go_loop-Split (s.ticks + 1) 0 s.list v.sorted once in
        subst (Ticked s)
          {x = (
            record {
              list = left;
              ticks = s.ticks + 1;
              next_timeout = next_after stray (s.ticks + 1) left;
            },
            invoked,
          )}
          (ground arith)
          (
            refl,
            record {
              sorted = Sorted-zero (s.ticks + 1 + 1) left rest;
              next_right = next_after-Sorted stray (s.ticks + 1) left rest;
            },
            (due, e, e', all),
            rest,
          )
  ]

  -- A periodic timer that goes on keeps its place at the head of the list, though its next timeout is
  -- later than that of the timer behind it: when that one is due, one tick on, `NX_TimerGo` invokes
  -- no timer.
  pub go-late :
      (stray : ℕ) (s : Timers) (p t : Timer)
      → s.list ≡ p ∷ t ∷ []
      → s.next_timeout ≡ p.timeout
      → p.timeout ≡ s.ticks + 1
      → t.timeout ≡ s.ticks + 2
      → p.period ≡ true
      → handler p.name ≡ true
      → 1 < p.time_ticks
      → s.ticks + p.time_ticks + 2 < 2 ^ 64
      → ((go handler stray (go handler stray s).0).0.ticks ≡ t.timeout)
        × ((go handler stray (go handler stray s).0).1 ≡ [])
  unfolding go go_loop invoke
  go-late stray s p t e next due later period accepts long small =
      rw (first, second) (omega arith, refl)
    where
      p1 : Timer
      p1 = record p { state = waiting; timeout = s.ticks + 1 + p.time_ticks }

      s1 : Timers
      s1 = record {
        list = p1 ∷ t ∷ [];
        ticks = s.ticks + 1;
        next_timeout = s.ticks + 1 + p.time_ticks;
      }

      first : go handler stray s ≡ (s1, p1 ∷ [])
      first = ground (arith, e, accepts)

      second : go handler stray s1 ≡ (record s1 { ticks = s.ticks + 2 }, [])
      second = ground arith
