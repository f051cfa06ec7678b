-- ===== src/Sched/Moves.antt =====
-- What `NX_ThreadReadyRunLocked`, `PullOrPushThread` and `NX_SchedLockedIRQ` of src/sched/thread.c and
-- src/sched/sched.c do to a machine whose cores and pending list are in order.
use nxos.Base.{
  ℕ, suc, ◌+◌, ◌≡◌, ◌≢◌, refl, ap, subst, ◌∙◌, inl, inr, Bool, true, false, none, some, List, [],
  ◌∷◌, ◌++◌, arith, ◌==◌, if◌then◌else◌, length, get_elem?, set, length-set, sum_by-set, map-set,
  get_elem?-map, set-get_elem?, get_elem?-set_self, get_elem?-set_ne, get_elem?-lt, ℕ_discrete,
  Option-cases, length-append,
}
use nxos.Smp.{Thread, Cpu, ready}
use nxos.Smp.Count.{is_tid, count, All, count-append}
use nxos.Smp.Pick.{IsPrioritised}
use nxos.Sched.{Machine, ready_run, add_pending}
use nxos.Sched.Counts.{runnings, on_lists, count_ready, IsSound, set-CoreIsSound, enqueue-Enqueued}

-- What no move of a thread between lists changes.
pub record Kept (m m' : Machine) : Type 0 where
  pub same_runnings : runnings m'.cpus ≡ runnings m.cpus
  pub same_exits : m'.exits ≡ m.exits
  pub same_cores : length m'.cpus ≡ length m.cpus

-- The cores before and after a thread was made ready for core `on`.
pub record Grown (on : ℕ) (m m' : Machine) : Type 0 where
  pub grown :
      (i : ℕ) (c : Cpu)
      → get_elem? m.cpus i ≡ some c
      → (c' : Cpu) × (get_elem? m'.cpus i ≡ some c')
        × (c'.thread_running ≡ c.thread_running)
        × (c'.thread_count ≡ (if on == i then suc c.thread_count else c.thread_count))

pub record Readied (m : Machine) (t : Thread) (m' : Machine) : Type 0 where
  pub sound : IsSound m'
  pub kept : Kept m m'
  pub adds : (tid : ℕ) → count_ready tid m' ≡ is_tid tid t + count_ready tid m
  pub cores : Grown t.on_core m m'

-- A core with the same runner put in place of another one.
pub runnings-set :
    (cpus : List Cpu) (i : ℕ) (c c' : Cpu)
    → get_elem? cpus i ≡ some c
    → c'.thread_running ≡ c.thread_running
    → runnings (set cpus i c') ≡ runnings cpus
runnings-set cpus i c c' at same =
    map-set (λ d. d.thread_running) cpus i c'
    ∙ ap (λ r. set (runnings cpus) i r) same
    ∙ set-get_elem? (runnings cpus) i c.thread_running
        (get_elem?-map (λ d. d.thread_running) cpus i at)

All-put :
    (P : Thread → Type 0) (head : Bool) (q : List Thread) (t : Thread)
    → All P q
    → P t
    → All P (if head then t ∷ q else q ++ t ∷ [])
All-put P true q t all p = (p, all)
All-put P false [] t all p = (p, tt)
All-put P false (u ∷ us) t all p = (all.0, All-put P false us t all.1 p)

put-count :
    (tid : ℕ) (head : Bool) (q : List Thread) (t : Thread)
    → count tid (if head then t ∷ q else q ++ t ∷ []) ≡ is_tid tid t + count tid q
put-count tid true q t = refl
put-count tid false q t = ground (arith, count-append tid q (t ∷ []))

put-length :
    (head : Bool) (q : List Thread) (t : Thread)
    → length (if head then t ∷ q else q ++ t ∷ []) ≡ suc (length q)
put-length true q t = refl
put-length false q t = ground (arith, length-append q (t ∷ []))

set-grown :
    (cpus : List Cpu) (on : ℕ) (c c' : Cpu)
    → get_elem? cpus on ≡ some c
    → c'.thread_count ≡ suc c.thread_count
    → c'.thread_running ≡ c.thread_running
    → (i : ℕ) (d : Cpu) → get_elem? cpus i ≡ some d
    → (d' : Cpu) × (get_elem? (set cpus on c') i ≡ some d')
      × (d'.thread_running ≡ d.thread_running)
      × (d'.thread_count ≡ (if on == i then suc d.thread_count else d.thread_count))
set-grown cpus on c c' e up same i d at = elim (ℕ_discrete on i) [
  | no ne ↦ (d, get_elem?-set_ne cpus on i c' ne ∙ at, refl, ground (arith, ne))
  | yes eq ↦ (
    c',
    subst (λ j. get_elem? (set cpus on c') j ≡ some c') eq
        (get_elem?-set_self cpus on c' (get_elem?-lt cpus on e)),
    same ∙ ap (λ o. o.thread_running) (same_core eq),
    ground (arith, up, eq, ap (λ o. o.thread_count) (same_core eq)),
  )
]
  where
    same_core : on ≡ i → c ≡ d
    same_core eq = ground (arith, at, subst (λ j. get_elem? cpus j ≡ some c) eq e)

-- `NX_ThreadReadyRunLocked` never fails on a machine in order; the thread is then ready once more.
pub ready_run-Readied :
    (m : Machine) (t : Thread) (head : Bool)
    → IsSound m
    → IsPrioritised t
    → (m' : Machine) × (ready_run m t head ≡ some m') × Readied m t m'
unfolding ready_run add_pending
ready_run-Readied m t head sound ranked = elim (Option-cases (get_elem? m.cpus t.on_core)) [
  | inl e ↦
      let m' : Machine = add_pending m (record t { state = ready }) head in
      (
        m',
        ground (arith, e),
        record {
          sound = record {
            cores = sound.cores;
            pendings =
                All-put (λ u. (u.state ≡ ready) × IsPrioritised u) head m.pending
                  (record t { state = ready }) sound.pendings (refl, ranked);
            pending_counted = omega (
              arith,
              sound.pending_counted,
              put-length head m.pending (record t { state = ready }),
            );
          };
          kept = record { same_runnings = refl; same_exits = refl; same_cores = refl };
          adds = λ tid. omega (arith, put-count tid head m.pending (record t { state = ready }));
          cores = record { grown = λ i c at. (c, at, refl, ground (arith, ne i c at e)) };
        },
      )
  | inr (c, e) ↦ on_core c e
]
  where
    ne :
        (i : ℕ) (c : Cpu)
        → get_elem? m.cpus i ≡ some c
        → get_elem? m.cpus t.on_core ≡ none
        → t.on_core ≢ i
    ne i c at e same = ground (arith, subst (λ j. get_elem? m.cpus j ≡ none) same e)

    on_core :
        (c : Cpu)
        → get_elem? m.cpus t.on_core ≡ some c
        → (m' : Machine) × (ready_run m t head ≡ some m') × Readied m t m'
    on_core c e =
        let (c', done, put) =
          enqueue-Enqueued t.on_core c (record t { state = ready }) head (sound.cores t.on_core c e)
            (record { in_list = refl; is_ready = refl; own_core = refl; ranked = ranked }) in
        (
          record m { cpus = set m.cpus t.on_core c' },
          ground (arith, e, done),
          record {
            sound = record {
              cores = set-CoreIsSound m.cpus t.on_core c' sound.cores put.sound;
              pendings = sound.pendings;
              pending_counted = sound.pending_counted;
            };
            kept = record {
              same_runnings = runnings-set m.cpus t.on_core c c' e put.same_runner;
              same_exits = refl;
              same_cores = length-set m.cpus t.on_core c';
            };
            adds = λ tid.
                omega (arith, put.adds tid, sum_by-set (on_lists tid) m.cpus t.on_core c c' e);
            cores = record {
              grown = set-grown m.cpus t.on_core c c' e put.count_up put.same_runner;
            };
          },
        )
