-- ===== src/Mutex/Tests.antt =====
-- A thread that holds a mutex while another goes round the loop of `NX_MutexLock`.
use nxos.Base.{◌≤◌, ◌≡◌, ◌≢◌, refl, ◌⊎◌, some, [], ◌∷◌, length, is_eok}
use nxos.Spin.{spin_magic}
use nxos.Mutex.{Mutex, mutex_magic, lock, taken, yields, try_lock}
use nxos.Mutex.Exclusion.{System, locks, yields_on, Reach, begin, next, Reach-exclusive}

abbrev held : Mutex
held = record { spin = record { value = 1; magic = spin_magic }; magic = mutex_magic }

abbrev contended : System
contended = record { mutex = held; holders = 3 ∷ [] }

contended-Reach : Reach contended
unfolding lock try_lock is_eok
contended-Reach = next (next begin (locks 3 held refl)) (yields_on held refl)

Reach-exclusive_example :
    (length contended.holders ≤ 1)
    × (((contended.holders ≡ []) × (m : Mutex) × (lock (some held) ≡ (some m, taken)))
        ⊎ ((contended.holders ≢ []) × (lock (some held) ≡ (some held, yields))))
Reach-exclusive_example = Reach-exclusive contended-Reach
