-- ===== src/ThreadId/Tests.antt =====
-- A table of four numbers, the first of them in use.
use nxos.Base.{true, false, [], ◌∷◌, arith}
use nxos.ThreadId.{ThreadIds}
use nxos.ThreadId.Alloc.{IsValid}

abbrev ids : ThreadIds
ids = record { maps = true ∷ false ∷ false ∷ false ∷ []; next_id = 0 }

abbrev ids_1 : ThreadIds
ids_1 = record { maps = true ∷ true ∷ false ∷ false ∷ []; next_id = 2 }

abbrev ids_2 : ThreadIds
ids_2 = record { maps = true ∷ true ∷ true ∷ false ∷ []; next_id = 3 }

ids-IsValid : IsValid ids
ids-IsValid = record { in_range = omega arith; several = omega arith }
