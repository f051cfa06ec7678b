-- ===== src/Sched/Switch.antt =====
-- `NX_SchedLockedIRQ`, `NX_SchedYield`, `NX_ReSchedCheck`, `NX_ThreadBlockLockedIRQ` and
-- `NX_ThreadExit` of src/sched on a machine whose cores and pending list are in order.
use nxos.Base.{
  ℕ, ◌+◌, ◌-◌, ◌≡◌, refl, ap, subst, ◌∙◌, ◌⊎◌, inl, inr, false, Option, none, some, List, [], ◌∷◌,
  arith, length, get_elem?, set, length-set, sum_by, sum_by-set, map-set, get_elem?-map,
  get_elem?-set_self, get_elem?-lt, Bool-cases,
}
use nxos.Smp.{Thread, Cpu, running, blocked, exit, set_running}
use nxos.Smp.Count.{is_tid, count}
use nxos.Smp.Pick.{IsPrioritised}
use nxos.Sched.{
  Machine, ready_run, sched_to_first, sched, current, yield, block, exit_thread, re_sched_check,
  renew, renewed,
}
use nxos.Sched.Counts.{
  runs, on_lists, runnings, count_ready, count_running, IsSound, set-CoreIsSound,
}
use nxos.Sched.Takes.{Taken, pick-Taken}
use nxos.Sched.Moves.{ready_run-Readied}
use nxos.Sched.Balance.{pull_or_push-Balanced}

-- How often a thread is ready, runs, or has ended and is not yet freed.
abbrev pub total : ℕ → Machine → ℕ
total tid m = count_ready tid m + count_running tid m + count tid m.exits

-- The core runs a thread that was ready, or that was pending, and no other core's runner changed.
pub record Switched (m : Machine) (core : ℕ) (m' : Machine) : Type 0 where
  pub sound : IsSound m'
  pub next : Thread
  pub running_now : runnings m'.cpus ≡ set (runnings m.cpus) core (some next)
  pub was_ready : (tid : ℕ) → is_tid tid next + count_ready tid m' ≡ count_ready tid m
  pub same_exits : m'.exits ≡ m.exits
  pub same_cores : length m'.cpus ≡ length m.cpus

-- A core with another runner.
abbrev with_runner : Cpu → Option Thread → Cpu
with_runner c r = record c { thread_running = r }

set-same :
    (f : Cpu → ℕ) (cpus : List Cpu) (i : ℕ) (c c' : Cpu)
    → get_elem? cpus i ≡ some c
    → f c' ≡ f c
    → sum_by f (set cpus i c') ≡ sum_by f cpus
set-same f cpus i c c' at same = omega (arith, sum_by-set f cpus i c c' at)

runner_of :
    {core : ℕ} {d d' : Cpu} {t : Thread}
    → Taken core d t d'
    → (u : Thread) → Option.some (record t { state = running }) ≡ some u
    → (u.on_core ≡ core) × (u.state ≡ running) × IsPrioritised u
runner_of {core} {t = t} tk u is =
    subst (λ v. (v.on_core ≡ core) × (v.state ≡ running) × IsPrioritised v)
      {x = record t { state = running }} {y = u} (ground arith) (tk.own_core, refl, tk.ranked)

-- `NX_SchedToFirstThread` on a core that there is: it makes the core run its next thread, and fails
-- only when the core has no ready thread.
pub sched_to_first-Switched :
    (m : Machine) (core : ℕ) (c : Cpu)
    → IsSound m
    → get_elem? m.cpus core ≡ some c
    → ((sched_to_first m core ≡ none) × (c.thread_count ≡ 0))
      ⊎ ((m' : Machine) × (sched_to_first m core ≡ some m') × Switched m core m')
unfolding sched_to_first set_running
sched_to_first-Switched m core c sound at = elim (pick-Taken core c (sound.cores core c at)) [
  | inl (e, z) ↦ inl (ground (arith, at, e), z)
  | inr (t, c2, e, tk) ↦
      let now : Thread = record t { state = running } in
      let c3 : Cpu = set_running c2 t in
      inr (
        record m { cpus = set m.cpus core c3 },
        ground (arith, at, e),
        record {
          sound = record {
            cores = set-CoreIsSound m.cpus core c3 sound.cores (record {
              counted = tk.sound.counted;
              lists = tk.sound.lists;
              readies = tk.sound.readies;
              runner = λ u is. runner_of tk u is;
            });
            pendings = sound.pendings;
            pending_counted = sound.pending_counted;
          };
          next = now;
          running_now = map-set (λ d. d.thread_running) m.cpus core c3;
          was_ready =
              λ tid. omega (arith, tk.takes tid, sum_by-set (on_lists tid) m.cpus core c c3 at);
          same_exits = refl;
          same_cores = length-set m.cpus core c3;
        },
      )
]

-- `NX_SchedLockedIRQ` on a core that there is: it makes the core run a thread that was ready on it or
-- pending, and counts and lists stay in order; its assertion fails only when the core has no ready
-- thread and no thread is pending.
pub sched-Switched :
    (m : Machine) (core : ℕ) (c : Cpu)
    → IsSound m
    → get_elem? m.cpus core ≡ some c
    → ((sched m core ≡ none) × (c.thread_count ≡ 0) × (m.pending ≡ []))
      ⊎ ((m' : Machine) × (sched m core ≡ some m') × Switched m core m')
unfolding sched
sched-Switched m core c sound at =
    let (m1, done, k) = pull_or_push-Balanced m core c sound at in
    elim (sched_to_first-Switched m1 core k.core' k.sound k.at) [
      | inl (e, z) ↦ let (a, b) = k.counts z in inl (ground (arith, done, e), a, b)
      | inr (m2, did, w) ↦ inr (
        m2,
        ground (arith, done, did),
        record {
          sound = w.sound;
          next = w.next;
          running_now = w.running_now ∙ ap (λ l. set l core (some w.next)) k.kept.same_runnings;
          was_ready = λ tid. w.was_ready tid ∙ k.same tid;
          same_exits = w.same_exits ∙ k.kept.same_exits;
          same_cores = w.same_cores ∙ k.kept.same_cores;
        },
      )
    ]

-- The machine when the runner of a core is taken away, and put into the hands of the caller.
pub record Vacated (m : Machine) (core : ℕ) (c : Cpu) (cur : Thread) (m' : Machine) : Type 0 where
  pub sound : IsSound m'
  pub at : get_elem? m'.cpus core ≡ some (with_runner c none)
  pub less : (tid : ℕ) → total tid m' + is_tid tid cur ≡ total tid m
  pub ranked : IsPrioritised cur
  pub own_core : cur.on_core ≡ core
  pub same_exits : m'.exits ≡ m.exits

pub current-Vacated :
    (m : Machine) (core : ℕ) (c : Cpu) (cur : Thread)
    → IsSound m
    → get_elem? m.cpus core ≡ some c
    → c.thread_running ≡ some cur
    → (m' : Machine) × (current m core ≡ some (cur, m')) × Vacated m core c cur m'
unfolding current
current-Vacated m core c cur sound at runs_now =
    let c' : Cpu = with_runner c none in
    let ok = sound.cores core c at in
    (
      record m { cpus = set m.cpus core c' },
      ground (arith, at, runs_now),
      record {
        sound = record {
          cores = set-CoreIsSound m.cpus core c' sound.cores (record {
            counted = ok.counted;
            lists = ok.lists;
            readies = ok.readies;
            runner = λ u is. absurd (ground arith);
          });
          pendings = sound.pendings;
          pending_counted = sound.pending_counted;
        };
        at = get_elem?-set_self m.cpus core c' (get_elem?-lt m.cpus core at);
        less = λ tid. omega (
          arith,
          set-same (on_lists tid) m.cpus core c c' at refl,
          ap (λ l. sum_by (runs tid) l) (map-set (λ d. d.thread_running) m.cpus core c'),
          sum_by-set (runs tid) (runnings m.cpus) core (some cur) none
              (get_elem?-map (λ d. d.thread_running) m.cpus core at ∙ ap some runs_now),
        );
        ranked = (ok.runner cur runs_now).2;
        own_core = (ok.runner cur runs_now).0;
        same_exits = refl;
      },
    )

-- Where nothing runs on the core, what it runs next is in no list any more.
pub switch-total :
    (m m' : Machine) (core tid : ℕ)
    → get_elem? (runnings m.cpus) core ≡ some none
    → Switched m core m'
    → total tid m' ≡ total tid m
switch-total m m' core tid idle k = omega (
  arith,
  k.was_ready tid,
  ap (λ l. sum_by (runs tid) l) k.running_now,
  sum_by-set (runs tid) (runnings m.cpus) core none (some k.next) idle,
  ap (count tid) k.same_exits,
)

-- A machine in order after another one: each thread is in as many places, but for the threads that
-- came and those that went.
pub record Effect (m : Machine) (came gone : List Thread) (m' : Machine) : Type 0 where
  pub sound : IsSound m'
  pub balance : (tid : ℕ) → total tid m' + count tid gone ≡ total tid m + count tid came

-- The three ways in which a thread gives its core away, once the switch has been made.
idle_at :
    {m m' : Machine} {core : ℕ} {c : Cpu} {cur : Thread}
    → Vacated m core c cur m'
    → get_elem? (runnings m'.cpus) core ≡ some none
idle_at {m' = m'} {core = core} v = get_elem?-map (λ d. d.thread_running) m'.cpus core v.at

-- The machine after the thread that a core ran was put at the end of its list, and another one runs.
pub ready_again :
    (m m1 : Machine) (core : ℕ) (c : Cpu) (cur cur' : Thread)
    → Vacated m core c cur m1
    → cur'.on_core ≡ cur.on_core
    → cur'.tid ≡ cur.tid
    → IsPrioritised cur'
    → (m2 : Machine) × (m3 : Machine) × (ready_run m1 cur' false ≡ some m2)
      × (sched m2 core ≡ some m3)
      × Effect m [] [] m3
ready_again m m1 core c cur cur' v same same_tid ranked =
    let (m2, done, r) = ready_run-Readied m1 cur' false v.sound ranked in
    let (c2, at2, runner, counted) = r.cores.grown core (with_runner c none) v.at in
    elim (sched-Switched m2 core c2 r.sound at2) [
      | inl (e, zero_of, empty) ↦ absurd (ground (arith, counted, same, v.own_core, zero_of))
      | inr (m3, did, k) ↦ (
        m2,
        m3,
        done,
        did,
        record {
          sound = k.sound;
          balance = λ tid. ground (
            arith,
            switch-total m2 m3 core tid
                (ap (λ l. get_elem? l core) r.kept.same_runnings ∙ idle_at v) k,
            v.less tid,
            r.adds tid,
            ap (count tid) r.kept.same_exits,
            ap (λ l. sum_by (runs tid) l) r.kept.same_runnings,
            same_tid,
          );
        },
      )
    ]

-- `NX_SchedYield` by a thread that runs never fails, and loses no thread.
pub yield-Effect :
    (m : Machine) (core : ℕ) (c : Cpu) (cur : Thread)
    → IsSound m
    → get_elem? m.cpus core ≡ some c
    → c.thread_running ≡ some cur
    → (m' : Machine) × (yield m core ≡ some m') × Effect m [] [] m'
unfolding yield
yield-Effect m core c cur sound at runs_now =
    let (m1, took, v) = current-Vacated m core c cur sound at runs_now in
    let (m2, m3, done, did, k) = ready_again m m1 core c cur cur v refl refl v.ranked in
    (m3, ground (arith, took, done, did), k)

-- `NX_ReSchedCheck` by a thread that runs never fails: at the end of its time slice it acts as
-- `NX_SchedYield` does, and otherwise it changes nothing.
pub re_sched_check-Effect :
    (m : Machine) (core : ℕ) (c : Cpu) (cur : Thread)
    → IsSound m
    → get_elem? m.cpus core ≡ some c
    → c.thread_running ≡ some cur
    → (m' : Machine) × (re_sched_check m core ≡ some m') × Effect m [] [] m'
unfolding re_sched_check renew
re_sched_check-Effect m core c cur sound at runs_now =
    let (m1, took, v) = current-Vacated m core c cur sound at runs_now in
    elim (Bool-cases cur.need_sched) [
      | inr early ↦
          (m, ground (arith, took, early), record { sound = sound; balance = λ tid. refl })
      | inl due ↦
          let (m2, m3, done, did, k) =
            ready_again m m1 core c cur (renewed cur) v refl refl v.ranked in
          (m3, ground (arith, took, due, done, did), k)
    ]

-- `NX_ThreadBlockLockedIRQ` of a thread that runs: the thread is in no list any more, and another one
-- runs; the scheduler's assertion fails only when no other thread is ready on the core or pending.
pub block-Effect :
    (m : Machine) (core : ℕ) (c : Cpu) (cur : Thread)
    → IsSound m
    → get_elem? m.cpus core ≡ some c
    → c.thread_running ≡ some cur
    → ((block m core ≡ none) × (c.thread_count ≡ 0))
      ⊎ ((m' : Machine) × (block m core ≡ some (m', record cur { state = blocked }))
          × Effect m [] (cur ∷ []) m')
unfolding block
block-Effect m core c cur sound at runs_now =
    let (m1, took, v) = current-Vacated m core c cur sound at runs_now in
    elim (sched-Switched m1 core (with_runner c none) v.sound v.at) [
      | inl (e, zero_of, empty) ↦ inl (ground (arith, took, e), zero_of)
      | inr (m2, did, k) ↦ inr (
        m2,
        ground (arith, took, did),
        record {
          sound = k.sound;
          balance = λ tid. omega (arith, switch-total m1 m2 core tid (idle_at v) k, v.less tid);
        },
      )
    ]

-- `NX_ThreadExit` of a thread that runs: the thread waits to be freed, and another one runs.
pub exit_thread-Effect :
    (m : Machine) (core : ℕ) (c : Cpu) (cur : Thread)
    → IsSound m
    → get_elem? m.cpus core ≡ some c
    → c.thread_running ≡ some cur
    → ((exit_thread m core ≡ none) × (c.thread_count ≡ 0))
      ⊎ ((m' : Machine) × (exit_thread m core ≡ some m') × Effect m [] [] m')
unfolding exit_thread
exit_thread-Effect m core c cur sound at runs_now =
    let (m1, took, v) = current-Vacated m core c cur sound at runs_now in
    let m2 : Machine = record m1 {
      exits = record cur { state = exit } ∷ m1.exits;
      active_count = m1.active_count - 1;
    } in
    let ok : IsSound m2 = record {
      cores = v.sound.cores;
      pendings = v.sound.pendings;
      pending_counted = v.sound.pending_counted;
    } in
    elim (sched-Switched m2 core (with_runner c none) ok v.at) [
      | inl (e, zero_of, empty) ↦ inl (ground (arith, took, e), zero_of)
      | inr (m3, did, k) ↦ inr (
        m3,
        ground (arith, took, did),
        record {
          sound = k.sound;
          balance = λ tid. omega (arith, switch-total m2 m3 core tid (idle_at v) k, v.less tid);
        },
      )
    ]
