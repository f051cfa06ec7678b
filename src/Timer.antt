-- ===== src/Timer.antt =====
-- src/time/timer.c and src/include/base/timer.h: the timers that run, in the order of
-- `timerListHead`. A timer is named by a number. The ticks are 64-bit words. A handler is code
-- outside the component: whether it answers NX_True is the parameter `handler`, and it calls no
-- timer operation. The lock `timersLock` round each body, the storage of timers, and the idle timer
-- of NX_TimersInit, whose handler shifts all ticks after 24 times 24 days, are not represented.
pub mod Order
pub mod Expiry
mod Tests
use nxos.Base.{
  ℕ, zero, suc, ◌+◌, ◌-◌, ◌*◌, ◌/◌, ◌≡◌, Bool, true, false, not, ◌&&◌, ◌||◌, Option, none, some,
  List, [], ◌∷◌, ltb, leb, ◌==◌, if◌then◌else◌, add_word, sub_word, Error, eok, einval, eagain,
}

-- `NX_TimerState`
pub data TimerState : Type 0 where
  inited waiting processing stopped : TimerState

-- `NX_Timer`; `period` says whether NX_TIMER_PERIOD is set.
pub record Timer : Type 0 where
  pub name : ℕ
  pub state : TimerState
  pub timeout : ℕ
  pub time_ticks : ℕ
  pub period : Bool

-- The list and the two counters.
pub record Timers : Type 0 where
  pub list : List Timer
  pub ticks : ℕ
  pub next_timeout : ℕ

-- `NX_TimerInit`: the flags are NX_TIMER_ONESHOT and NX_TIMER_PERIOD.
pub init :
    (name ms_per_tick milliseconds : ℕ) (has_handler oneshot period dynamic : Bool)
    → Option Timer × Error
init name ms_per_tick milliseconds has_handler oneshot period dynamic =
    if milliseconds == 0 || not has_handler || not (oneshot || period) || dynamic
    then (none, einval)
    else (
      some (record {
        name = name;
        state = inited;
        timeout = 0;
        time_ticks = milliseconds / ms_per_tick;
        period = period;
      }),
      eok,
    )

-- `NX_ListFind`
abbrev pub on_list : ℕ → List Timer → Bool
on_list name [] = false
on_list name (x ∷ xs) = x.name == name || on_list name xs

-- The loop that looks for the first timer that is not due, and the timeout read after it. When there
-- is none, that is `stray`, what memory holds at the place of the field behind the list's head.
abbrev pub next_after : (stray ticks : ℕ) → List Timer → ℕ
next_after stray ticks [] = stray
next_after stray ticks (x ∷ xs) =
    if ltb ticks x.timeout then x.timeout else next_after stray ticks xs

-- The reverse loop of `NX_TimerStart`: the timer is linked behind the last one that is due no later;
-- none is a loop that ends without it.
pub insert_behind : Timer → List Timer → Option (List Timer)
insert_behind t [] = none
insert_behind t (x ∷ xs) = elim (insert_behind t xs) [
  | some ys ↦ some (x ∷ ys)
  | none ↦ if leb x.timeout t.timeout then some (x ∷ t ∷ xs) else none
]

-- NX_IDLE_TIMER_TIMEOUT_TICKS is the argument `max_ticks`. The timer returned is the caller's.
pub insert : Timers → Timer → Timers
unfolding insert_behind
insert s t = elim s.list [
  | [] ↦ record s { list = t ∷ []; next_timeout = t.timeout }
  | first ∷ rest ↦
      if ltb t.timeout first.timeout
      then record s { list = t ∷ first ∷ rest; next_timeout = t.timeout }
      else elim (insert_behind t (first ∷ rest)) [ none ↦ s | some ys ↦ record s { list = ys } ]
]

-- The list after a write to the timeout of a timer that is on it.
abbrev pub retime : (name timeout : ℕ) → List Timer → List Timer
retime name timeout [] = []
retime name timeout (x ∷ xs) =
    if x.name == name then record x { timeout = timeout } ∷ xs else x ∷ retime name timeout xs

-- `NX_TimerStart`: the timeout is written first, also to a timer that is on the list and is then
-- refused.
pub start : (max_ticks : ℕ) → Timers → Option Timer → Timers × Option Timer × Error
unfolding insert
start max_ticks s none = (s, none, einval)
start max_ticks s (some t) =
    let t = record t { timeout = add_word t.time_ticks s.ticks } in
    if ltb (sub_word max_ticks t.time_ticks) s.ticks
    then (record s { list = retime t.name t.timeout s.list }, some t, einval)
    else if on_list t.name s.list
    then (record s { list = retime t.name t.timeout s.list }, some t, eagain)
    else (insert s (record t { state = waiting }), some (record t { state = waiting }), eok)

-- The list without a timer.
abbrev pub without : ℕ → List Timer → List Timer
without name [] = []
without name (x ∷ xs) = if x.name == name then xs else x ∷ without name xs

module _ (stray : ℕ) where
  -- `NX_TimerRemove` of a timer on the list.
  pub remove : Timers → ℕ → Timers
  remove s name =
      let list = without name s.list in
      record s { list = list; next_timeout = next_after stray s.ticks list }

  -- `NX_TimerStop`
  pub stop : Timers → Option Timer → Timers × Option Timer × Error
  unfolding remove
  stop s none = (s, none, einval)
  stop s (some t) = elim t.state [
    | waiting ↦ (remove s t.name, some (record t { state = stopped }), eok)
    | processing ↦ (s, some (record t { state = stopped }), eok)
    | _ ↦ (s, some t, eagain)
  ]

module _ (handler : ℕ → Bool) where
  -- Whether `NX_TimerInvoke` leaves a timer on the list.
  abbrev pub goes_on : Timer → Bool
  goes_on t = t.period && handler t.name

  -- `NX_TimerInvoke`, the timer as it is afterwards.
  pub invoke : (ticks : ℕ) → Timer → Timer
  invoke ticks t =
      if goes_on t
      then record t { state = waiting; timeout = add_word ticks t.time_ticks }
      else record t { state = stopped }

  -- The first loop of `NX_TimerGo`: the list that it leaves, and the timers invoked, in order. A
  -- timer that goes on stays in its place.
  pub go_loop : (ticks : ℕ) → List Timer → List Timer × List Timer
  unfolding invoke
  go_loop ticks [] = ([], [])
  go_loop ticks (x ∷ xs) =
      let (ys, invoked) = go_loop ticks xs in
      if ltb ticks x.timeout
      then (x ∷ xs, [])
      else (if goes_on x then invoke ticks x ∷ ys else ys, invoke ticks x ∷ invoked)

  -- `NX_TimerGo`
  pub go : (stray : ℕ) → Timers → Timers × List Timer
  unfolding go_loop
  go stray s =
      let ticks = add_word s.ticks 1 in
      let (list, invoked) = go_loop ticks s.list in
      if ltb ticks s.next_timeout then (record s { ticks = ticks }, []) else (
        record { list = list; ticks = ticks; next_timeout = next_after stray ticks list },
        invoked,
      )
