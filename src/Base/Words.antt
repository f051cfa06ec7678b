-- ===== src/Base/Words.antt =====
-- Unsigned 64-bit arithmetic (`NX_Addr`, `NX_Size`, `NX_UArch` of a 64-bit platform) and the page
-- macros of src/include/base/page.h with the default NX_PAGE_SHIFT of 12.
use Prim.Native.Nat.{ℕ, suc, ◌+◌, ◌-◌, ◌*◌, ◌/◌, ◌%◌, ◌^◌, ◌<◌}
use mathlib.Core.Path.{◌≡◌}
use native.Mathlib.Nat.{mod-eq_of_lt, mod_self}
use native.Mathlib.Omega.{arith}
use native.Mathlib.Decide.{ℕ_discrete}
use nxos.Base.Tests.{◌==◌, if◌then◌else◌}

abbrev pub word : ℕ
word = 2 ^ 64

abbrev pub add_word : ℕ → ℕ → ℕ
add_word a b = (a + b) % word

abbrev pub sub_word : ℕ → ℕ → ℕ
sub_word a b = (a + word - b) % word

abbrev pub page_size : ℕ
page_size = 4096

-- `NX_PAGE_ALIGNDOWN` and `NX_PAGE_ALIGNUP`: the mask clears the low twelve bits.
abbrev pub page_align_down : ℕ → ℕ
page_align_down v = v / page_size * page_size

abbrev pub page_align_up : ℕ → ℕ
page_align_up v = page_align_down (add_word v (page_size - 1))

-- The index after `i`, going round at `cap`.
abbrev pub next : ℕ → ℕ → ℕ
next cap i = (i + 1) % cap

pub next_lem : (cap i : ℕ) → i < cap → next cap i ≡ (if suc i == cap then 0 else suc i)
next_lem cap i h = elim (ℕ_discrete (i + 1) cap) [
  | yes e ↦ rw e (ground (arith, mod_self cap))
  | no ne ↦ ground (arith, mod-eq_of_lt {n = i + 1} {m = cap} (omega arith))
]
