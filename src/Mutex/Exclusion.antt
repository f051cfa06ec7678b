-- ===== src/Mutex/Exclusion.antt =====
-- Threads that share one mutex of src/sched/mutex.c, in every order of their calls.
use nxos.Base.{
  ℕ, ◌≤◌, ◌≡◌, ◌≢◌, refl, ap, ◌∙◌, ◌⊎◌, inl, inr, some, List, [], ◌∷◌, ◌++◌, arith, length,
  length-append, ℕ_discrete, subst, eok, error, is_eok,
}
use nxos.Spin.{spin_magic}
use nxos.Mutex.{Mutex, mutex_magic, try_lock, lock, taken, yields, unlock}

-- `holders` are the threads whose last call took the mutex.
pub record System : Type 0 where
  pub mutex : Mutex
  pub holders : List ℕ

-- A thread takes the mutex by `NX_MutexLock` or `NX_MutexTryLock`, goes round the loop of the first
-- or is refused by the second, and a holder gives it back by `NX_MutexUnlock`.
pub data Step (s : System) : System → Type 0 where
  locks :
      (t : ℕ) (m : Mutex)
      → lock (some s.mutex) ≡ (some m, taken)
      → Step s (record { mutex = m; holders = t ∷ s.holders })
  yields_on :
      (m : Mutex)
      → lock (some s.mutex) ≡ (some m, yields)
      → Step s (record { mutex = m; holders = s.holders })
  tries :
      (t : ℕ) (m : Mutex)
      → try_lock (some s.mutex) ≡ (some m, eok)
      → Step s (record { mutex = m; holders = t ∷ s.holders })
  refused :
      (m : Mutex)
      → try_lock (some s.mutex) ≡ (some m, error)
      → Step s (record { mutex = m; holders = s.holders })
  unlocks :
      (t : ℕ) (us vs : List ℕ) (m : Mutex)
      → s.holders ≡ us ++ t ∷ vs
      → unlock (some s.mutex) ≡ (some m, eok)
      → Step s (record { mutex = m; holders = us ++ vs })

abbrev pub free_mutex : Mutex
free_mutex = record { spin = record { value = 0; magic = spin_magic }; magic = mutex_magic }

pub data Reach : System → Type 0 where
  begin : Reach (record { mutex = free_mutex; holders = [] })
  next : {s s' : System} → Reach s → Step s s' → Reach s'

pub record Inv (s : System) : Type 0 where
  pub ready : s.mutex.magic ≡ mutex_magic
  pub spin_ready : s.mutex.spin.magic ≡ spin_magic
  pub counts : s.mutex.spin.value ≡ length s.holders
  pub exclusive : length s.holders ≤ 1

-- A call that may come to taking the mutex: it does so when the mutex is free.
try_lock-cases :
    (m : Mutex)
    → m.magic ≡ mutex_magic
    → m.spin.magic ≡ spin_magic
    → ((m.spin.value ≡ 0)
        × (try_lock (some m) ≡ (some (record m { spin = record m.spin { value = 1 } }), eok)))
      ⊎ ((m.spin.value ≢ 0) × (try_lock (some m) ≡ (some m, error)))
unfolding try_lock
try_lock-cases m ready spin_ready = elim (ℕ_discrete m.spin.value 0) [
  | yes e ↦ inl (e, ground arith)
  | no ne ↦ inr (ne, ground arith)
]

lock-cases :
    (m : Mutex)
    → m.magic ≡ mutex_magic
    → m.spin.magic ≡ spin_magic
    → ((m.spin.value ≡ 0)
        × (lock (some m) ≡ (some (record m { spin = record m.spin { value = 1 } }), taken)))
      ⊎ ((m.spin.value ≢ 0) × (lock (some m) ≡ (some m, yields)))
unfolding lock is_eok
lock-cases m ready spin_ready = elim (try_lock-cases m ready spin_ready) [
  | inl (e, tried) ↦ inl (e, ground (arith, tried))
  | inr (ne, tried) ↦ inr (ne, ground (arith, tried))
]

unlock_lem :
    (m : Mutex)
    → m.magic ≡ mutex_magic
    → m.spin.magic ≡ spin_magic
    → unlock (some m) ≡ (some (record m { spin = record m.spin { value = 0 } }), eok)
unfolding unlock
unlock_lem m ready spin_ready = ground arith

taken_once :
    (s : System) (t : ℕ)
    → Inv s
    → s.mutex.spin.value ≡ 0
    → Inv (record {
      mutex = record s.mutex { spin = record s.mutex.spin { value = 1 } };
      holders = t ∷ s.holders;
    })
taken_once s t v zero_value = record {
  ready = v.ready;
  spin_ready = v.spin_ready;
  counts = omega (arith, v.counts);
  exclusive = omega (arith, v.counts);
}

Step-Inv : {s s' : System} → Step s s' → Inv s → Inv s'
Step-Inv {s} (locks t m e) v = elim (lock-cases s.mutex v.ready v.spin_ready) [
  | inl (zero_value, ran) ↦
      subst (λ m. Inv (record { mutex = m; holders = t ∷ s.holders })) (cc)
        (taken_once s t v zero_value)
  | inr (_, ran) ↦ absurd (cc)
]
Step-Inv {s} (yields_on m e) v = elim (lock-cases s.mutex v.ready v.spin_ready) [
  | inl (_, ran) ↦ absurd cc
  | inr (_, ran) ↦ subst (λ m. Inv (record { mutex = m; holders = s.holders })) (cc) v
]
Step-Inv {s} (tries t m e) v = elim (try_lock-cases s.mutex v.ready v.spin_ready) [
  | inl (zero_value, ran) ↦
      subst (λ m. Inv (record { mutex = m; holders = t ∷ s.holders })) (cc)
        (taken_once s t v zero_value)
  | inr (_, ran) ↦ absurd cc
]
Step-Inv {s} (refused m e) v = elim (try_lock-cases s.mutex v.ready v.spin_ready) [
  | inl (_, ran) ↦ absurd cc
  | inr (_, ran) ↦ subst (λ m. Inv (record { mutex = m; holders = s.holders })) (cc) v
]
Step-Inv {s} (unlocks t us vs m e ran) v =
    subst (λ m. Inv (record { mutex = m; holders = us ++ vs })) same
      record {
        ready = v.ready;
        spin_ready = v.spin_ready;
        counts =
            omega (arith, v.exclusive, counted, length-append us vs, length-append us (t ∷ vs));
        exclusive =
            omega (arith, v.exclusive, counted, length-append us vs, length-append us (t ∷ vs));
      }
  where
    counted : length s.holders ≡ length (us ++ t ∷ vs)
    counted = ap length e

    same : record s.mutex { spin = record s.mutex.spin { value = 0 } } ≡ m
    same = cc (unlock_lem s.mutex v.ready v.spin_ready)

Reach-Inv : {s : System} → Reach s → Inv s
Reach-Inv begin = record { ready = refl; spin_ready = refl; counts = refl; exclusive = omega arith }
Reach-Inv (next r step) = Step-Inv step (Reach-Inv r)

length-nil : (l : List ℕ) → length l ≡ 0 → l ≡ []
length-nil [] e = refl
length-nil (t ∷ ts) e = ground arith

-- In every order of the calls of the threads, where only a holder gives the mutex back, at most one
-- thread holds it, and `NX_MutexLock` takes it in its next round exactly when no thread does.
pub Reach-exclusive :
    {s : System}
    → Reach s
    → (length s.holders ≤ 1)
      × (((s.holders ≡ []) × (m : Mutex) × (lock (some s.mutex) ≡ (some m, taken)))
          ⊎ ((s.holders ≢ []) × (lock (some s.mutex) ≡ (some s.mutex, yields))))
Reach-exclusive {s} r = (
  v.exclusive,
  elim (lock-cases s.mutex v.ready v.spin_ready) [
    | inl (zero_value, ran) ↦ inl (length-nil s.holders (omega (arith, v.counts)), _, ran)
    | inr (ne, ran) ↦ inr (λ e. ne (v.counts ∙ ap length e), ran)
  ],
)
  where
    v : Inv s
    v = Reach-Inv r
