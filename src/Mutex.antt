-- ===== src/Mutex.antt =====
-- src/sched/mutex.c and src/include/base/mutex.h: a mutex is a spin lock that a thread tries again
-- and again, yielding in between. A null pointer is `none`. The interrupt level that
-- NX_MutexTryLock saves and restores around the spin lock is left out.
pub mod Exclusion
mod Tests
use nxos.Base.{
  ℕ, Bool, true, false, Option, none, some, ◌==◌, if◌then◌else◌, Error, eok, eperm, einval, efault,
  is_eok,
}
use nxos.Spin
use nxos.Spin.{Spin}

-- MUTEX_MAGIC
abbrev pub mutex_magic : ℕ
mutex_magic = 0x10000002

pub record Mutex : Type 0 where
  pub spin : Spin
  pub magic : ℕ

-- The lock behind a pointer that is not null.
abbrev pub after : Spin → Option Spin → Spin
after s none = s
after s (some s') = s'

-- `NX_MutexInit`
pub init : Option Mutex → Option Mutex × Error
unfolding Spin.init is_eok
init none = (none, einval)
init (some mutex) =
    let (spin, err) = Spin.init (some mutex.spin) in
    let spin = after mutex.spin spin in
    if is_eok err
    then (some (record { spin = spin; magic = mutex_magic }), eok)
    else (some (record mutex { spin = spin }), eperm)

-- `NX_MutexInitLocked`; the lock is free when NX_SpinLock takes it.
pub init_locked : Option Mutex → Option Mutex × Error
unfolding Spin.init Spin.lock is_eok
init_locked none = (none, einval)
init_locked (some mutex) =
    let (spin, err) = Spin.init (some mutex.spin) in
    let spin = after mutex.spin spin in
    if is_eok err
    then (some (record { spin = after spin (Spin.lock (some spin)).0; magic = mutex_magic }), eok)
    else (some (record mutex { spin = spin }), eperm)

-- The check with which the other operations start.
abbrev pub checked {ℓ} : {R : Type ℓ} → Option Mutex → R → (Mutex → R) → R
checked none fail body = fail
checked (some mutex) fail body = if mutex.magic == mutex_magic then body mutex else fail

-- `NX_MutexTryLock`
pub try_lock : Option Mutex → Option Mutex × Error
unfolding Spin.try_lock
try_lock p =
    checked p (p, efault)
      λ mutex.
        let (spin, err) = Spin.try_lock (some mutex.spin) in
        (some (record mutex { spin = after mutex.spin spin }), err)

-- What a call of `NX_MutexLock` has come to: an error, the lock, or a yield before the next round.
pub data Locked : Type 0 where
  failed : Error → Locked
  taken : Locked
  yields : Locked

-- `NX_MutexLock`, one round of its loop.
pub lock : Option Mutex → Option Mutex × Locked
unfolding try_lock is_eok
lock p =
    checked p (p, failed efault)
      λ _. let (p', err) = try_lock p in (p', if is_eok err then taken else yields)

-- `NX_MutexUnlock`
pub unlock : Option Mutex → Option Mutex × Error
unfolding Spin.unlock
unlock p =
    checked p (p, efault)
      λ mutex.
        (some (record mutex { spin = after mutex.spin (Spin.unlock (some mutex.spin)).0 }), eok)

-- `NX_MutexState`
pub state : Option Mutex → Error
unfolding Spin.state
state p = checked p efault λ mutex. Spin.state (some mutex.spin)
