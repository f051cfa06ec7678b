-- ===== src/Memory/Tests.antt =====
-- Moving bytes over themselves with src/utils/memory.c.
use nxos.Base.{◌+◌, ◌≡◌}
use nxos.Memory.{Memory, mem_move}
use nxos.Memory.Moves.{moved, mem_move-moved}

abbrev bytes : Memory
bytes = λ a. a + 100

mem_move-moved_example : mem_move bytes 12 10 5 14 ≡ moved bytes 12 10 5 14
mem_move-moved_example = mem_move-moved bytes 12 10 5 14
