-- ===== src/Memory.antt =====
-- src/utils/memory.c: the loops on bytes. Memory is the byte at each address; an area that a loop walks
-- ends before the last address, so no pointer wraps.
pub mod Moves
mod Tests
use nxos.Base.{
  ℕ, zero, suc, ◌+◌, ◌-◌, ◌≡◌, Bool, true, false, Option, none, some, ◌==◌, leb, if◌then◌else◌,
}

abbrev pub Memory : Type 0
Memory = ℕ → ℕ

abbrev pub write : Memory → (addr value : ℕ) → Memory
write m addr value = λ a. if a == addr then value else m a

-- `NX_MemSet`
unfoldable pub mem_set : Memory → (dst value sz : ℕ) → Memory
mem_set m dst value zero = m
mem_set m dst value (suc sz) = mem_set (write m dst value) (dst + 1) value sz

-- `NX_MemZero`
pub mem_zero : Memory → (dst sz : ℕ) → Memory
unfolding mem_set
mem_zero m dst sz = mem_set m dst 0 sz

-- `NX_MemCopy`, and the first loop of `NX_MemMove`.
unfoldable pub mem_copy : Memory → (dst src sz : ℕ) → Memory
mem_copy m dst src zero = m
mem_copy m dst src (suc sz) = mem_copy (write m dst (m src)) (dst + 1) (src + 1) sz

-- The second loop of `NX_MemMove`, which goes down.
unfoldable pub copy_down : Memory → (dst src sz : ℕ) → Memory
copy_down m dst src zero = m
copy_down m dst src (suc sz) = copy_down (write m (dst + sz) (m (src + sz))) dst src sz

-- `NX_MemMove`
unfoldable pub mem_move : Memory → (dst src n : ℕ) → Memory
unfolding mem_copy copy_down
mem_move m dst src n = if leb dst src then mem_copy m dst src n else copy_down m dst src n

-- `NX_CompareN` of pointers that are not null: the two bytes whose difference it returns.
unfoldable pub compare_n : Memory → (s1 s2 n : ℕ) → Option (ℕ × ℕ)
compare_n m s1 s2 zero = none
compare_n m s1 s2 (suc n) =
    if m s1 == m s2 then compare_n m (s1 + 1) (s2 + 1) n else some (m s1, m s2)
