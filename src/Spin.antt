-- ===== src/Spin.antt =====
-- src/sched/spin.c and src/include/base/spin.h. The atomic value and the magic of a spin lock; a
-- null pointer is `none`. NX_SpinLockIRQ and NX_SpinUnlockIRQ, which also save and restore the
-- processor's interrupt level, are left out.
use nxos.Base.{
  ℕ, Option, none, some, ◌==◌, if◌then◌else◌, Error, eok, error, einval, efault, ebusy, is_eok,
}

-- NX_SPIN_MAGIC
abbrev pub spin_magic : ℕ
spin_magic = 0x10000001

pub record Spin : Type 0 where
  pub value : ℕ
  pub magic : ℕ

-- `NX_SpinInit`
unfoldable pub init : Option Spin → Option Spin × Error
init none = (none, einval)
init (some lock) =
    if lock.magic == spin_magic
    then (some lock, efault)
    else (some (record { value = 0; magic = spin_magic }), eok)

-- The check with which the other operations start.
abbrev pub checked {ℓ} : {R : Type ℓ} → Option Spin → R → (Spin → R) → R
checked none fail body = fail
checked (some lock) fail body = if lock.magic == spin_magic then body lock else fail

-- `NX_SpinTryLock`: the value goes from 0 to NX_SPIN_LOCK_VALUE at once.
unfoldable pub try_lock : Option Spin → Option Spin × Error
try_lock p =
    checked p (p, efault)
      λ lock. if lock.value == 0 then (some (record lock { value = 1 }), eok) else (p, error)

-- What a call of `NX_SpinLock` has come to: an error, the lock, or one more round of the loop.
pub data Locked : Type 0 where
  failed : Error → Locked
  taken : Locked
  again : Locked

-- `NX_SpinLock`, one round of its loop.
unfoldable pub lock : Option Spin → Option Spin × Locked
unfolding try_lock is_eok
lock p =
    checked p (p, failed efault)
      λ s. let (s', err) = try_lock p in (s', if is_eok err then taken else again)

-- `NX_SpinUnlock`
unfoldable pub unlock : Option Spin → Option Spin × Error
unlock p = checked p (p, efault) λ lock. (some (record lock { value = 0 }), eok)

-- `NX_SpinState`
unfoldable pub state : Option Spin → Error
state p = checked p efault λ lock. if lock.value == 0 then eok else ebusy
