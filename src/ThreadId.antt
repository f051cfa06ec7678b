-- ===== src/ThreadId.antt =====
-- src/sched/thread_id.c: the numbers of threads. Entry `id` of `maps` is bit `id % 32` of the word
-- `maps[id / 32]`, and the list has NX_MAX_THREAD_NR entries. The spin lock is not represented.
pub mod Alloc
mod Tests
use nxos.Base.{
  ℕ, zero, suc, ◌+◌, ◌%◌, ◌≡◌, Bool, true, false, not, Option, none, some, List, ltb, ◌==◌,
  if◌then◌else◌, length, next, get_elem?, set, replicate,
}

-- `struct NX_ThreadID`
pub record ThreadIds : Type 0 where
  pub maps : List Bool
  pub next_id : ℕ

-- `NX_ThreadsInitID`, where NX_MemAlloc returns storage.
pub init : ℕ → ThreadIds
init max_thread_nr = record { maps = replicate max_thread_nr false; next_id = 0 }

-- A bit of the map; a read beyond it is taken for a used number.
abbrev pub is_used : List Bool → ℕ → Bool
is_used maps id = elim (get_elem? maps id) [ none ↦ true | some b ↦ b ]

-- The `do … while` loop of `NX_ThreadIdAlloc` from `id` on, back to `start`. The number found is
-- returned; none says that the loop came round.
scan : (fuel max start : ℕ) → List Bool → (id : ℕ) → Option ℕ
scan zero max start maps id = none
scan (suc fuel) max start maps id =
    let rest = scan fuel max start maps (next max id) in
    if not (is_used maps id) then some id else if next max id == start then none else rest

-- `NX_ThreadIdAlloc`; none is -1. A number that is its own successor counts as none.
pub alloc : ThreadIds → ThreadIds × Option ℕ
unfolding scan
alloc t = elim (scan max max t.next_id t.maps t.next_id) [
  | none ↦ (t, none)
  | some id ↦ (
    record { maps = set t.maps id true; next_id = next max id },
    if id == next max id then none else some id,
  )
]
  where
    max : ℕ
    max = length t.maps

-- `NX_ThreadIdFree` of a number that is not negative. `none` is a failed NX_ASSERT: the number is
-- not in use.
pub free : ThreadIds → ℕ → Option ThreadIds
free t id =
    if ltb id (length t.maps)
    then if is_used t.maps id then some (record t { maps = set t.maps id false }) else none
    else some t
