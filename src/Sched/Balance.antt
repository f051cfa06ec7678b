-- ===== src/Sched/Balance.antt =====
-- `PullOrPushThread` of src/sched/sched.c on a machine whose cores and pending list are in order: a
-- thread moves between a core and the pending list, and no thread is lost.
use nxos.Base.{
  ℕ, suc, ◌+◌, ◌-◌, ◌/◌, ◌≡◌, refl, sym, subst, ◌∙◌, ◌⊎◌, inl, inr, true, false, some, List, [],
  ◌∷◌, arith, ltb, length, get_elem?, set, length-set, sum_by-set, get_elem?-set_self, get_elem?-lt,
  Bool-cases,
}
use nxos.Smp.{Thread, Cpu, ready}
use nxos.Smp.Count.{All}
use nxos.Smp.Pick.{IsPrioritised}
use nxos.Sched.{Machine, pull, push, pull_or_push, add_pending}
use nxos.Sched.Counts.{on_lists, count_ready, IsSound, set-CoreIsSound}
use nxos.Sched.Takes.{dequeue_no_affinity-Taken}
use nxos.Sched.Moves.{Kept, ready_run-Readied, runnings-set}

-- The machine after threads moved between `core` and the pending list; `R` says how many the core has.
pub record Moved (core : ℕ) (m : Machine) (c : Cpu) (R : ℕ → Type 0) (m' : Machine) : Type 0 where
  pub sound : IsSound m'
  pub kept : Kept m m'
  pub same : (tid : ℕ) → count_ready tid m' ≡ count_ready tid m
  pub core' : Cpu
  pub at : get_elem? m'.cpus core ≡ some core'
  pub same_runner : core'.thread_running ≡ c.thread_running
  pub counts : R core'.thread_count

abbrev Pulled : Machine → Cpu → ℕ → Type 0
Pulled m c n = ((m.pending ≡ []) × (n ≡ c.thread_count)) ⊎ (n ≡ suc c.thread_count)

abbrev Pushed : Cpu → ℕ → Type 0
Pushed c n = (n ≡ c.thread_count) ⊎ (suc n ≡ c.thread_count)

unmoved :
    (m : Machine) (core : ℕ) (c : Cpu) (R : ℕ → Type 0)
    → IsSound m
    → get_elem? m.cpus core ≡ some c
    → R c.thread_count
    → Moved core m c R m
unmoved m core c R sound at r = record {
  sound = sound;
  kept = record { same_runnings = refl; same_exits = refl; same_cores = refl };
  same = λ tid. refl;
  core' = c;
  at = at;
  same_runner = refl;
  counts = r;
}

pull-Moved :
    (m : Machine) (core : ℕ) (c : Cpu)
    → IsSound m
    → get_elem? m.cpus core ≡ some c
    → (m' : Machine) × (pull m core ≡ some m') × Moved core m c (Pulled m c) m'
unfolding pull
pull-Moved m core c sound at = by_pending m.pending refl
  where
    by_pending :
        (ts : List Thread)
        → m.pending ≡ ts
        → (m' : Machine) × (pull m core ≡ some m') × Moved core m c (Pulled m c) m'
    by_pending [] e = (m, ground (arith, e), unmoved m core c (Pulled m c) sound at (inl (e, refl)))
    by_pending (t ∷ ts) e =
        let rest : Machine = record m { pending = ts; pending_count = m.pending_count - 1 } in
        let all = subst (All (λ u. (u.state ≡ ready) × IsPrioritised u)) e sound.pendings in
        let rest_sound : IsSound rest = record {
          cores = sound.cores;
          pendings = all.1;
          pending_counted = ground (arith, e, sound.pending_counted);
        } in
        let (m', done, r) =
          ready_run-Readied rest (record t { on_core = core }) true rest_sound all.0.1 in
        let (c', at', runner, counted) = r.cores.grown core c at in
        (
          m',
          ground (arith, e, done),
          record {
            sound = r.sound;
            kept = record {
              same_runnings = r.kept.same_runnings;
              same_exits = r.kept.same_exits;
              same_cores = r.kept.same_cores;
            };
            same = λ tid. ground (arith, e, r.adds tid);
            core' = c';
            at = at';
            same_runner = runner;
            counts = inr (ground (arith, counted));
          },
        )

push-Moved :
    (m : Machine) (core : ℕ) (c : Cpu)
    → IsSound m
    → get_elem? m.cpus core ≡ some c
    → (m' : Machine) × (push m core ≡ some m') × Moved core m c (Pushed c) m'
unfolding push add_pending
push-Moved m core c sound at =
    elim (dequeue_no_affinity-Taken core (length m.cpus) c (sound.cores core c at)) [
      | inl e ↦ (m, ground (arith, e, at), unmoved m core c (Pushed c) sound at (inl refl))
      | inr (t, c', e, k) ↦
          let m' : Machine =
            add_pending (record m { cpus = set m.cpus core c' })
              (record t { on_core = length m.cpus }) true in
          (
            m',
            ground (arith, e, at),
            record {
              sound = record {
                cores = set-CoreIsSound m.cpus core c' sound.cores k.sound;
                pendings = ((k.was_ready, k.ranked), sound.pendings);
                pending_counted = omega (arith, sound.pending_counted);
              };
              kept = record {
                same_runnings = runnings-set m.cpus core c c' at k.same_runner;
                same_exits = refl;
                same_cores = length-set m.cpus core c';
              };
              same =
                  λ tid. ground (arith, k.takes tid, sum_by-set (on_lists tid) m.cpus core c c' at);
              core' = c';
              at = get_elem?-set_self m.cpus core c' (get_elem?-lt m.cpus core at);
              same_runner = k.same_runner;
              counts = inr k.count_down;
            },
          )
    ]

-- After balancing, the core has no thread only when neither it nor the pending list had one.
abbrev pub Balanced : Machine → Cpu → ℕ → Type 0
Balanced m c n = n ≡ 0 → (c.thread_count ≡ 0) × (m.pending ≡ [])

weaken :
    {core : ℕ} {m m' : Machine} {c : Cpu} {R R' : ℕ → Type 0}
    → ((n : ℕ) → R n → R' n)
    → Moved core m c R m'
    → Moved core m c R' m'
weaken f k = record {
  sound = k.sound;
  kept = k.kept;
  same = k.same;
  core' = k.core';
  at = k.at;
  same_runner = k.same_runner;
  counts = f k.core'.thread_count k.counts;
}

-- `PullOrPushThread` never fails on a core that there is: it moves at most one thread, and the core has
-- no ready thread after it only when it had none before and no thread was pending.
pub pull_or_push-Balanced :
    (m : Machine) (core : ℕ) (c : Cpu)
    → IsSound m
    → get_elem? m.cpus core ≡ some c
    → (m' : Machine) × (pull_or_push m core ≡ some m') × Moved core m c (Balanced m c) m'
unfolding pull_or_push
pull_or_push-Balanced m core c sound at =
    elim (Bool-cases (ltb c.thread_count (m.active_count / m.actived_cores + 1))) [
      | inl low ↦
          let (m', done, k) = pull-Moved m core c sound at in
          (m', ground (arith, at, low, done), weaken (λ n r z. pulled n r z) k)
      | inr high ↦ elim (Bool-cases (ltb (m.active_count / m.actived_cores + 1) c.thread_count)) [
        | inl more ↦
            let (m', done, k) = push-Moved m core c sound at in
            (m', ground (arith, at, high, more, done), weaken (λ n r z. pushed n more r z) k)
        | inr same ↦ (
          m,
          ground (arith, at, high, same),
          unmoved m core c (Balanced m c) sound at (λ z. busy high z),
        )
      ]
    ]
  where
    pulled : (n : ℕ) → Pulled m c n → n ≡ 0 → (c.thread_count ≡ 0) × (m.pending ≡ [])
    pulled n (inl (none_in, e)) z = (sym e ∙ z, none_in)
    pulled n (inr e) z = absurd (omega arith)

    pushed :
        (n : ℕ)
        → ltb (m.active_count / m.actived_cores + 1) c.thread_count ≡ true
        → Pushed c n
        → n ≡ 0
        → (c.thread_count ≡ 0) × (m.pending ≡ [])
    pushed n more r z = absurd (ground arith)

    busy :
        ltb c.thread_count (m.active_count / m.actived_cores + 1) ≡ false
        → c.thread_count ≡ 0
        → (c.thread_count ≡ 0) × (m.pending ≡ [])
    busy high z = absurd (ground arith)
