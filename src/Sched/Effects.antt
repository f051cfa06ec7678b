-- ===== src/Sched/Effects.antt =====
-- What each operation of src/sched that succeeds does to a machine in order.
use nxos.Base.{
  ℕ, ◌+◌, ◌≡◌, refl, ap, subst, ◌∙◌, ◌⊎◌, inl, inr, Bool, true, false, Option, none, some, List, [],
  ◌∷◌, arith, get_elem?, set, sum_by, sum_by-set, map-set, get_elem?-map, Option-cases, Bool-cases,
  eok,
}
use nxos.Smp.{Thread, Cpu, running, blocked}
use nxos.Smp.Count.{count}
use nxos.Smp.Pick.{IsPrioritised}
use nxos.Sched.{
  Machine, sched_to_first, start, ready_run, current, yield, block, unblock, exit_thread,
  dequeue_exit, re_sched_check, tick, sched_irq, is_blocked,
}
use nxos.Sched.Counts.{runs, on_lists, runnings, IsSound, set-CoreIsSound}
use nxos.Sched.Moves.{ready_run-Readied}
use nxos.Sched.Switch.{
  sched_to_first-Switched, switch-total, Effect, yield-Effect, re_sched_check-Effect, block-Effect,
  exit_thread-Effect,
}

runs-cases :
    (m : Machine) (core : ℕ)
    → (current m core ≡ none)
      ⊎ ((c : Cpu) × (cur : Thread) × (get_elem? m.cpus core ≡ some c)
          × (c.thread_running ≡ some cur))
unfolding current
runs-cases m core = elim (Option-cases (get_elem? m.cpus core)) [
  | inl e ↦ inl (ground (arith, e))
  | inr (c, at) ↦ elim (Option-cases c.thread_running) [
    | inl e ↦ inl (ground (arith, at, e))
    | inr (cur, e) ↦ inr (c, cur, at, e)
  ]
]

-- What is an effect of an operation that returns a machine.
same_some :
    {m m' m'' : Machine} {came gone : List Thread} {r : Option Machine}
    → r ≡ some m'
    → r ≡ some m''
    → Effect m came gone m''
    → Effect m came gone m'
same_some {m} {m'} {m''} {came} {gone} {r} a b k =
    subst (λ o. Effect m came gone o) {x = m''} {y = m'} (ground (arith, a, b)) k

pub yield-inv : (m m' : Machine) (core : ℕ) → IsSound m → yield m core ≡ some m' → Effect m [] [] m'
unfolding yield
yield-inv m m' core sound h = elim (runs-cases m core) [
  | inl e ↦ absurd (ground (arith, h, e))
  | inr (c, cur, at, runs_now) ↦
      let (m'', did, k) = yield-Effect m core c cur sound at runs_now in same_some h did k
]

pub resched-inv :
    (m m' : Machine) (core : ℕ) → IsSound m → re_sched_check m core ≡ some m' → Effect m [] [] m'
unfolding re_sched_check
resched-inv m m' core sound h = elim (runs-cases m core) [
  | inl e ↦ absurd (ground (arith, h, e))
  | inr (c, cur, at, runs_now) ↦
      let (m'', did, k) = re_sched_check-Effect m core c cur sound at runs_now in same_some h did k
]

pub exit-inv :
    (m m' : Machine) (core : ℕ) → IsSound m → exit_thread m core ≡ some m' → Effect m [] [] m'
unfolding exit_thread
exit-inv m m' core sound h = elim (runs-cases m core) [
  | inl e ↦ absurd (ground (arith, h, e))
  | inr (c, cur, at, runs_now) ↦ elim (exit_thread-Effect m core c cur sound at runs_now) [
    | inl (e, z) ↦ absurd (ground (arith, h, e))
    | inr (m'', did, k) ↦ same_some h did k
  ]
]

ready_run-Effect :
    (m m' : Machine) (t : Thread) (head : Bool)
    → IsSound m
    → IsPrioritised t
    → ready_run m t head ≡ some m'
    → Effect m (t ∷ []) [] m'
ready_run-Effect m m' t head sound ranked h =
    let (m'', did, r) = ready_run-Readied m t head sound ranked in
    same_some h did (record {
      sound = r.sound;
      balance = λ tid. omega (
        arith,
        r.adds tid,
        ap (count tid) r.kept.same_exits,
        ap (λ l. sum_by (runs tid) l) r.kept.same_runnings,
      );
    })

pub start-inv :
    (m m' : Machine) (t : Thread)
    → IsSound m
    → IsPrioritised t
    → start m t ≡ some m'
    → Effect m (t ∷ []) [] m'
unfolding start
start-inv m m' t sound ranked h =
    let k =
      ready_run-Effect (record m { active_count = m.active_count + 1 }) m' t false
        (record {
          cores = sound.cores;
          pendings = sound.pendings;
          pending_counted = sound.pending_counted;
        })
        ranked h in
    record { sound = k.sound; balance = λ tid. k.balance tid }

pub unblock-inv :
    (m m' : Machine) (t : Thread)
    → IsSound m
    → IsPrioritised t
    → unblock m t ≡ some (m', eok)
    → Effect m (t ∷ []) [] m'
unfolding unblock
unblock-inv m m' t sound ranked h = elim (Bool-cases (is_blocked t.state)) [
  | inr e ↦ absurd (ground (arith, h, e))
  | inl e ↦
      let (m'', did, r) = ready_run-Readied m t true sound ranked in
      ready_run-Effect m m' t true sound ranked (ground (arith, h, e, did))
]

pub tick-inv : (m m' : Machine) (core : ℕ) → IsSound m → tick m core ≡ some m' → Effect m [] [] m'
unfolding tick sched_irq
tick-inv m m' core sound h = elim (Option-cases (get_elem? m.cpus core)) [
  | inl e ↦ absurd (ground (arith, h, e))
  | inr (c, at) ↦ elim (Option-cases c.thread_running) [
    | inl e ↦ absurd (ground (arith, h, at, e))
    | inr (cur, e) ↦
        let c' : Cpu = record c { thread_running = some (sched_irq cur) } in
        let ok = sound.cores core c at in
        same_some {m'' = record m { cpus = set m.cpus core c' }} h (ground (arith, at, e)) (record {
          sound = record {
            cores = set-CoreIsSound m.cpus core c' sound.cores (record {
              counted = ok.counted;
              lists = ok.lists;
              readies = ok.readies;
              runner = λ u is.
                  subst (λ v. (v.on_core ≡ core) × (v.state ≡ running) × IsPrioritised v)
                    {x = sched_irq cur} {y = u} (ground arith) (ok.runner cur e);
            });
            pendings = sound.pendings;
            pending_counted = sound.pending_counted;
          };
          balance = λ tid. omega (
            arith,
            sum_by-set (on_lists tid) m.cpus core c c' at,
            ap (λ l. sum_by (runs tid) l) (map-set (λ d. d.thread_running) m.cpus core c'),
            sum_by-set (runs tid) (runnings m.cpus) core (some cur) (some (sched_irq cur))
                (get_elem?-map (λ d. d.thread_running) m.cpus core at ∙ ap some e),
          );
        })
  ]
]

pub dequeue_exit-inv :
    (m m' : Machine) (t : Thread)
    → IsSound m
    → dequeue_exit m ≡ (m', some t)
    → Effect m [] (t ∷ []) m'
unfolding dequeue_exit
dequeue_exit-inv m m' t sound h = by_exits m.exits refl
  where
    by_exits : (ts : List Thread) → m.exits ≡ ts → Effect m [] (t ∷ []) m'
    by_exits [] e = absurd (ground (arith, h, e))
    by_exits (u ∷ us) e =
        subst (λ o. Effect m [] (t ∷ []) o) {x = record m { exits = us }} {y = m'}
          (ground (arith, h, e))
          (record {
            sound = record {
              cores = sound.cores;
              pendings = sound.pendings;
              pending_counted = sound.pending_counted;
            };
            balance = λ tid. ground (arith, h, e);
          })

pub block-inv :
    (m m' : Machine) (core : ℕ) (t : Thread)
    → IsSound m
    → block m core ≡ some (m', t)
    → Effect m [] (t ∷ []) m' × IsPrioritised t
unfolding block
block-inv m m' core t sound h = elim (runs-cases m core) [
  | inl e ↦ absurd (ground (arith, h, e))
  | inr (c, cur, at, runs_now) ↦ elim (block-Effect m core c cur sound at runs_now) [
    | inl (e, z) ↦ absurd (ground (arith, h, e))
    | inr (m'', did, k) ↦
        subst {A = Machine × Thread} (λ o. Effect m [] (o.1 ∷ []) o.0 × IsPrioritised o.1)
          {x = (m'', record cur { state = blocked })} {y = (m', t)} (ground (arith, h, did))
          (
            record { sound = k.sound; balance = k.balance },
            ((sound.cores core c at).runner cur runs_now).2,
          )
  ]
]

pub boot-inv :
    (m m' : Machine) (core : ℕ) (c : Cpu)
    → IsSound m
    → get_elem? m.cpus core ≡ some c
    → c.thread_running ≡ none
    → sched_to_first m core ≡ some m'
    → Effect m [] [] m'
boot-inv m m' core c sound at idle h = elim (sched_to_first-Switched m core c sound at) [
  | inl (e, z) ↦ absurd (ground (arith, h, e))
  | inr (m'', did, k) ↦ same_some h did (record {
    sound = k.sound;
    balance = λ tid. omega (
      arith,
      switch-total m m'' core tid
          (get_elem?-map (λ d. d.thread_running) m.cpus core at ∙ ap some idle) k,
    );
  })
]
