-- ===== src/Semaphore.antt =====
-- src/sched/semaphore.c. A thread is named by its number; the wait list holds the threads linked by
-- their `blockList`. Each operation is the code between taking and giving back the spin lock `lock`,
-- which is not represented. A null pointer is `none`. A value is taken to be at least 0 and below the
-- largest NX_IArch, which the atomic counter does not check.
pub mod Laws
pub mod Threads
mod Tests
use nxos.Base.{
  ℕ, ◌+◌, ◌-◌, ◌≡◌, Bool, true, false, ◌||◌, Option, none, some, List, [], ◌∷◌, ◌++◌, ltb, ◌==◌,
  if◌then◌else◌, Error, eok, einval, efault, eagain, ebusy,
}

-- SEMPAHORE_MAGIC
abbrev pub semaphore_magic : ℕ
semaphore_magic = 0x10000003

pub record Semaphore : Type 0 where
  pub value : ℕ
  pub wait_list : List ℕ
  pub magic : ℕ

-- `NX_SemaphoreInit`
pub init : Option Semaphore → ℕ → Option Semaphore × Error
init none value = (none, einval)
init (some s) value =
    (some (record { value = value; wait_list = []; magic = semaphore_magic }), eok)

-- `NX_SemaphoreGetValue`
pub get_value : Option Semaphore → ℕ
get_value none = 0
get_value (some s) = s.value

-- The two checks with which the other operations start.
abbrev pub checked {ℓ} : {R : Type ℓ} → Option Semaphore → (Error → R) → (Semaphore → R) → R
checked none fail body = fail einval
checked (some s) fail body = if s.magic == semaphore_magic then body s else fail efault

abbrev pub mem : ℕ → List ℕ → Bool
mem t [] = false
mem t (u ∷ us) = t == u || mem t us

-- One round of the loop of `NX_SemaphoreWait` for thread `t`: the value is taken, or the thread is
-- put on the wait list, unless it is on it, and blocked.
unfoldable pub wait_round : Semaphore → ℕ → Semaphore × Bool
wait_round s t = if ltb 0 s.value then (record s { value = s.value - 1 }, true) else (
  record s { wait_list = if mem t s.wait_list then s.wait_list else s.wait_list ++ t ∷ [] },
  false,
)

-- What a call of `NX_SemaphoreWait` has come to: an error, the value taken, or a blocked thread.
pub data Waited : Type 0 where
  failed : Error → Waited
  taken : Waited
  blocked : Waited

unfoldable pub wait : Option Semaphore → ℕ → Option Semaphore × Waited
unfolding wait_round
wait p t =
    checked p (λ err. (p, failed err))
      λ s. let (s', got) = wait_round s t in (some s', if got then taken else blocked)

-- `NX_SemaphoreTryWait`
pub try_wait : Option Semaphore → Option Semaphore × Error
try_wait p =
    checked p (λ err. (p, err))
      λ s.
        if ltb 0 s.value then (some (record s { value = s.value - 1 }), eok) else (some s, eagain)

-- `NX_SemaphoreSignal`; the list holds the thread that NX_ThreadUnblock is called for.
unfoldable pub signal_body : Semaphore → Semaphore × List ℕ
signal_body s = elim s.wait_list [
  | [] ↦ (record s { value = s.value + 1 }, [])
  | t ∷ rest ↦
      if ltb 0 (s.value + 1)
      then (record s { value = s.value + 1; wait_list = rest }, t ∷ [])
      else (record s { value = s.value + 1 }, [])
]

unfoldable pub signal : Option Semaphore → Option Semaphore × Error × List ℕ
unfolding signal_body
signal p =
    checked p (λ err. (p, err, [])) λ s. let (s', woken) = signal_body s in (some s', eok, woken)

-- `NX_SemaphoreSignalAll`: one more value, and NX_ThreadUnblock for every thread of the list.
pub signal_all_body : Semaphore → Semaphore × List ℕ
signal_all_body s =
    if ltb 0 (s.value + 1)
    then (record s { value = s.value + 1; wait_list = [] }, s.wait_list)
    else (record s { value = s.value + 1 }, [])

pub signal_all : Option Semaphore → Option Semaphore × Error × List ℕ
unfolding signal_all_body
signal_all p =
    checked p (λ err. (p, err, []))
      λ s. let (s', woken) = signal_all_body s in (some s', eok, woken)

-- `NX_SemaphoreState`
pub state : Option Semaphore → Error
state p = checked p (λ err. err) λ s. if s.value == 0 then ebusy else eok
