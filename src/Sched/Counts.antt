-- ===== src/Sched/Counts.antt =====
-- Where the threads of src/sched/thread.c and src/sched/sched.c are: how often a thread is ready or
-- runs, and what is true of the threads of each core and of the pending list.
use nxos.Base.{
  ℕ, suc, ◌+◌, ◌≤◌, ◌<◌, ◌≡◌, refl, sym, subst, ◌∙◌, Bool, Option, none, some, List, map, arith,
  length, get_elem?, set, length-set, sum_by, get_elem?-set_self, get_elem?-set_ne, get_elem?-lt,
  ℕ_discrete,
}
use nxos.Smp.{Thread, Cpu, ready, running, enqueue, put_at}
use nxos.Smp.Count.{is_tid, count, count_all, size_all, All, AllAt, put_at-count, put_at-AllAt}
use nxos.Smp.Pick.{IsPrioritised}
use nxos.Sched.{Machine}

abbrev pub runs : ℕ → Option Thread → ℕ
runs tid none = 0
runs tid (some t) = is_tid tid t

-- The thread that each core runs.
abbrev pub runnings : List Cpu → List (Option Thread)
runnings cpus = map (λ c. c.thread_running) cpus

abbrev pub on_lists : ℕ → Cpu → ℕ
on_lists tid c = count_all tid c.ready_list

-- How often a thread waits to run, on a core or in the pending list, and how often it runs.
abbrev pub count_ready : ℕ → Machine → ℕ
count_ready tid m = sum_by (on_lists tid) m.cpus + count tid m.pending

abbrev pub count_running : ℕ → Machine → ℕ
count_running tid m = sum_by (runs tid) (runnings m.cpus)

-- A thread in list `i` of a core.
pub record IsReadyAt (core i : ℕ) (t : Thread) : Type 0 where
  pub in_list : t.priority ≡ i
  pub is_ready : t.state ≡ ready
  pub own_core : t.on_core ≡ core
  pub ranked : IsPrioritised t

pub record CoreIsSound (core : ℕ) (c : Cpu) : Type 0 where
  pub counted : c.thread_count ≡ size_all c.ready_list
  pub lists : length c.ready_list ≡ 16
  pub readies : AllAt (IsReadyAt core) 0 c.ready_list
  pub runner :
      (t : Thread)
      → c.thread_running ≡ some t
      → (t.on_core ≡ core) × (t.state ≡ running) × IsPrioritised t

-- A thread that is for any core.
abbrev pub IsPending : ℕ → Thread → Type 0
IsPending cores t = (cores ≤ t.on_core) × (t.state ≡ ready) × IsPrioritised t

pub record IsSound (m : Machine) : Type 0 where
  pub cores : (i : ℕ) (c : Cpu) → get_elem? m.cpus i ≡ some c → CoreIsSound i c
  pub pendings : All (λ t. (t.state ≡ ready) × IsPrioritised t) m.pending
  pub pending_counted : m.pending_count ≡ length m.pending

-- A core put in place of another one.
pub set-CoreIsSound :
    (cpus : List Cpu) (core : ℕ) (new : Cpu)
    → ((i : ℕ) (c : Cpu) → get_elem? cpus i ≡ some c → CoreIsSound i c)
    → CoreIsSound core new
    → (i : ℕ) (c : Cpu) → get_elem? (set cpus core new) i ≡ some c
    → CoreIsSound i c
set-CoreIsSound cpus core new sound ok i c at = elim (ℕ_discrete core i) [
  | no ne ↦ sound i c (sym (get_elem?-set_ne cpus core i new ne) ∙ at)
  | yes e ↦ subst (λ d. CoreIsSound i d) (same_of e) (subst (λ j. CoreIsSound j new) e ok)
]
  where
    lt : core ≡ i → i < length cpus
    lt e = omega (arith, get_elem?-lt (set cpus core new) i at, length-set cpus core new)

    same_of : core ≡ i → new ≡ c
    same_of e = ground (
      arith,
      at,
      subst (λ j. get_elem? (set cpus j new) i ≡ some new) (sym e)
          (get_elem?-set_self cpus i new (lt e)),
    )

-- Enqueueing succeeds on a sound core, and adds one thread to it.
pub record Enqueued (core : ℕ) (c : Cpu) (t : Thread) (c' : Cpu) : Type 0 where
  pub sound : CoreIsSound core c'
  pub adds : (tid : ℕ) → on_lists tid c' ≡ is_tid tid t + on_lists tid c
  pub count_up : c'.thread_count ≡ suc c.thread_count
  pub same_runner : c'.thread_running ≡ c.thread_running

pub enqueue-Enqueued :
    (core : ℕ) (c : Cpu) (t : Thread) (head : Bool)
    → CoreIsSound core c
    → IsReadyAt core t.priority t
    → (c' : Cpu) × (enqueue c t head ≡ some c') × Enqueued core c t c'
unfolding enqueue
enqueue-Enqueued core c t head sound ok =
    let c' : Cpu = record c {
      ready_list = put_at t.priority head t c.ready_list;
      thread_count = c.thread_count + 1;
    } in
    (
      c',
      ground (arith, in_range),
      record {
        sound = record {
          counted = omega (arith, sound.counted, (put 0).1);
          lists = omega (arith, (put 0).2, sound.lists);
          readies =
              put_at-AllAt (IsReadyAt core) 0 t.priority head t c.ready_list sound.readies
                (subst (λ j. IsReadyAt core j t) (omega arith) ok);
          runner = sound.runner;
        };
        adds = λ tid. (put tid).0;
        count_up = omega arith;
        same_runner = refl;
      },
    )
  where
    in_range : t.priority < 16
    in_range = let r = ok.ranked in ground arith

    put :
        (tid : ℕ)
        → (count_all tid (put_at t.priority head t c.ready_list)
            ≡ is_tid tid t + count_all tid c.ready_list)
          × (size_all (put_at t.priority head t c.ready_list) ≡ suc (size_all c.ready_list))
          × (length (put_at t.priority head t c.ready_list) ≡ length c.ready_list)
    put tid = put_at-count tid t.priority head t c.ready_list (omega (arith, in_range, sound.lists))
