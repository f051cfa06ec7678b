-- ===== src/Sched/Reach.antt =====
-- What holds in every state that the steps of src/sched lead to.
use nxos.Base.{
  ℕ, zero, suc, ◌+◌, ◌≤◌, ◌≡◌, ◌≢◌, refl, ap, subst, ◌∙◌, Option, some, List, [], ◌∷◌, ◌++◌, arith,
  get_elem?, sum_by, get_elem?-map, ℕ_discrete, replicate,
}
use nxos.Smp.{Thread, Cpu, cpu_init}
use nxos.Smp.Count.{is_tid, count, All, AllAt, count-append}
use nxos.Smp.Pick.{IsPrioritised}
use nxos.Sched.{Machine, yield}
use nxos.Sched.Counts.{
  runs, on_lists, runnings, count_ready, count_running, IsReadyAt, CoreIsSound, IsSound,
}
use nxos.Sched.Switch.{total, Effect, yield-Effect}
use nxos.Sched.System.{
  System, Step, Reach, Inv, starts, boots, yields, ticks, rescheds, sleeps, wakes, exits, reaps,
  begin, go,
}
use nxos.Sched.Effects.{
  start-inv, boot-inv, yield-inv, tick-inv, resched-inv, block-inv, unblock-inv, exit-inv,
  dequeue_exit-inv,
}

All-split :
    (P : Thread → Type 0) (before after : List Thread) (t : Thread)
    → All P (before ++ t ∷ after)
    → P t × All P (before ++ after)
All-split P [] after t all = all
All-split P (u ∷ us) after t all =
    let (p, rest) = All-split P us after t all.1 in (p, (all.0, rest))

count-split :
    (tid : ℕ) (before after : List Thread) (t : Thread)
    → count tid (before ++ t ∷ after) ≡ is_tid tid t + count tid (before ++ after)
count-split tid before after t =
    omega (arith, count-append tid before (t ∷ after), count-append tid before after)

still :
    {s : System} {m' : Machine}
    → Inv s
    → Effect s.machine [] [] m'
    → Inv (record s { machine = m' })
still inv k = record {
  sound = k.sound;
  ranked = inv.ranked;
  placed = λ tid. omega (arith, inv.placed tid, k.balance tid);
}

Step-Inv : {s s' : System} → Step s s' → Inv s → Inv s'
Step-Inv (starts s t m' ranked h) inv =
    let k = start-inv s.machine m' t inv.sound ranked h in
    record {
      sound = k.sound;
      ranked = inv.ranked;
      placed = λ tid. omega (arith, inv.placed tid, k.balance tid);
    }
Step-Inv (boots s core c m' at idle h) inv =
    still inv (boot-inv s.machine m' core c inv.sound at idle h)
Step-Inv (yields s core m' h) inv = still inv (yield-inv s.machine m' core inv.sound h)
Step-Inv (ticks s core m' h) inv = still inv (tick-inv s.machine m' core inv.sound h)
Step-Inv (rescheds s core m' h) inv = still inv (resched-inv s.machine m' core inv.sound h)
Step-Inv (exits s core m' h) inv = still inv (exit-inv s.machine m' core inv.sound h)
Step-Inv (sleeps s core m' t h) inv =
    let (k, ranked) = block-inv s.machine m' core t inv.sound h in
    record {
      sound = k.sound;
      ranked = (ranked, inv.ranked);
      placed = λ tid. omega (arith, inv.placed tid, k.balance tid);
    }
Step-Inv (wakes s before after t m' e h) inv =
    let (p, rest) =
      All-split (λ u. IsPrioritised u) before after t
        (subst (All (λ u. IsPrioritised u)) e inv.ranked) in
    let k = unblock-inv s.machine m' t inv.sound p h in
    record {
      sound = k.sound;
      ranked = rest;
      placed = λ tid.
          omega (
            arith,
            inv.placed tid,
            k.balance tid,
            ap (count tid) e,
            count-split tid before after t,
          );
    }
Step-Inv (reaps s t m' h) inv =
    let k = dequeue_exit-inv s.machine m' t inv.sound h in
    record {
      sound = k.sound;
      ranked = inv.ranked;
      placed = λ tid. omega (arith, inv.placed tid, k.balance tid);
    }

booted-empty :
    (cores tid : ℕ)
    → (sum_by (on_lists tid) (replicate cores cpu_init) ≡ 0)
      × (sum_by (runs tid) (runnings (replicate cores cpu_init)) ≡ 0)
booted-empty zero tid = (refl, refl)
booted-empty (suc n) tid = let (a, b) = booted-empty n tid in (omega (arith, a), omega (arith, b))

AllAt-empty : (P : ℕ → Thread → Type 0) (i n : ℕ) → AllAt P i (replicate n [])
AllAt-empty P i zero = tt
AllAt-empty P i (suc n) = (tt, AllAt-empty P (suc i) n)

init-CoreIsSound : (core : ℕ) → CoreIsSound core cpu_init
init-CoreIsSound core = record {
  counted = refl;
  lists = refl;
  readies = AllAt-empty (IsReadyAt core) 0 16;
  runner = λ t is. absurd (ground arith);
}

replicate-get : (n i : ℕ) (c : Cpu) → get_elem? (replicate n cpu_init) i ≡ some c → cpu_init ≡ c
replicate-get zero i c at = absurd (ground arith)
replicate-get (suc n) zero c at = ground arith
replicate-get (suc n) (suc i) c at = replicate-get n i c at

pub Reach-Inv : {cores active : ℕ} {s : System} → Reach cores active s → Inv s
Reach-Inv {cores} {active} begin = record {
  sound = record {
    cores = λ i c at. subst (CoreIsSound i) (replicate-get cores i c at) (init-CoreIsSound i);
    pendings = tt;
    pending_counted = refl;
  };
  ranked = tt;
  placed = λ tid. let (a, b) = booted-empty cores tid in omega (arith, a, b);
}
Reach-Inv (go r step) = Step-Inv step (Reach-Inv r)

-- In every state that the operations lead to, in any order on any core, each thread started is in
-- exactly one place: as often as it was started, it is in a ready list, runs on a core, is pending, is
-- blocked, waits to be freed or was freed.
pub Reach-placed :
    {cores active : ℕ} {s : System}
    → Reach cores active s
    → (tid : ℕ)
    → total tid s.machine + count tid s.blocks + count tid s.reaped ≡ count tid s.started
Reach-placed r tid = (Reach-Inv r).placed tid

-- In every state that the operations lead to, each core's thread count is the number of threads in its
-- ready lists, each list of a core holds ready threads of its priority that are for this core, the thread
-- that a core runs is in the running state and for this core, and the pending count is right.
pub Reach-IsSound : {cores active : ℕ} {s : System} → Reach cores active s → IsSound s.machine
Reach-IsSound r = (Reach-Inv r).sound

sum_by-one :
    (f : Option Thread → ℕ) (xs : List (Option Thread)) (i : ℕ) (x : Option Thread)
    → get_elem? xs i ≡ some x
    → f x ≤ sum_by f xs
sum_by-one f [] i x a = absurd (ground arith)
sum_by-one f (z ∷ zs) zero x a = ground arith
sum_by-one f (z ∷ zs) (suc i) x a = omega (arith, sum_by-one f zs i x a)

sum_by-two :
    (f : Option Thread → ℕ) (xs : List (Option Thread)) (i j : ℕ) (x y : Option Thread)
    → i ≢ j
    → get_elem? xs i ≡ some x
    → get_elem? xs j ≡ some y
    → f x + f y ≤ sum_by f xs
sum_by-two f [] i j x y ne a b = absurd (ground arith)
sum_by-two f (z ∷ zs) zero zero x y ne a b = absurd (ne refl)
sum_by-two f (z ∷ zs) zero (suc j) x y ne a b = ground (arith, sum_by-one f zs j y b)
sum_by-two f (z ∷ zs) (suc i) zero x y ne a b = ground (arith, sum_by-one f zs i x a)
sum_by-two f (z ∷ zs) (suc i) (suc j) x y ne a b =
    omega (arith, sum_by-two f zs i j x y (λ e. ne (ap suc e)) a b)

-- In every state that the operations lead to, a thread started once does not run on two cores, nor is it
-- ready or blocked while it runs.
pub Reach-runs_once :
    {cores active : ℕ} {s : System}
    → Reach cores active s
    → (i j : ℕ) (c d : Cpu) (t u : Thread) → t.tid ≡ u.tid
    → count t.tid s.started ≡ 1
    → get_elem? s.machine.cpus i ≡ some c
    → get_elem? s.machine.cpus j ≡ some d
    → c.thread_running ≡ some t
    → d.thread_running ≡ some u
    → (i ≡ j) × (count_ready t.tid s.machine ≡ 0) × (count t.tid s.blocks ≡ 0)
Reach-runs_once {s = s} r i j c d t u same once at_i at_j run_i run_j = (
  elim (ℕ_discrete i j) [
    | yes e ↦ e
    | no ne ↦ absurd (
        omega (
          arith,
          placed,
          self,
          sum_by-two (runs t.tid) (runnings s.machine.cpus) i j (some t) (some u) ne first second,
          other,
        ))
  ],
  omega (arith, placed, self, one),
  omega (arith, placed, self, one),
)
  where
    first : get_elem? (runnings s.machine.cpus) i ≡ some (some t)
    first = get_elem?-map (λ o. o.thread_running) s.machine.cpus i at_i ∙ ap some run_i

    second : get_elem? (runnings s.machine.cpus) j ≡ some (some u)
    second = get_elem?-map (λ o. o.thread_running) s.machine.cpus j at_j ∙ ap some run_j

    one : runs t.tid (some t) ≤ count_running t.tid s.machine
    one = sum_by-one (runs t.tid) (runnings s.machine.cpus) i (some t) first

    self : is_tid t.tid t ≡ 1
    self = ground arith

    other : is_tid t.tid u ≡ 1
    other = ground (arith, same)

    placed : total t.tid s.machine + count t.tid s.blocks + count t.tid s.reaped ≡ 1
    placed = (Reach-Inv r).placed t.tid ∙ once

-- In every state that the operations lead to, `NX_SchedYield` on a core that runs a thread returns: no
-- assertion of the scheduler fails in it, and another state of the same threads is reached.
pub Reach-yield :
    {cores active : ℕ} {s : System}
    → Reach cores active s
    → (core : ℕ) (c : Cpu) (cur : Thread) → get_elem? s.machine.cpus core ≡ some c
    → c.thread_running ≡ some cur
    → (m' : Machine) × (yield s.machine core ≡ some m')
      × Reach cores active (record s { machine = m' })
Reach-yield {s = s} r core c cur at runs_now =
    let (m', did, k) = yield-Effect s.machine core c cur (Reach-IsSound r) at runs_now in
    (m', did, go r (yields s core m' did))
