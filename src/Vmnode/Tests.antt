-- ===== src/Vmnode/Tests.antt =====
-- A list of two nodes that meet.
use nxos.Base.{[], ◌∷◌, arith}
use nxos.Vmnode.{Vmnode, Focus}
use nxos.Vmnode.Order.{Ordered}

abbrev low : Vmnode
low = record { start = 4096; end = 8192; attr = 7; flags = 0 }

abbrev high : Vmnode
high = record { start = 8192; end = 16384; attr = 7; flags = 0 }

abbrev far : Vmnode
far = record { start = 32768; end = 36864; attr = 7; flags = 0 }

abbrev focus : Focus
focus = record { before = low ∷ []; node = high; after = [] }

focus-Ordered : Ordered 0 (low ∷ high ∷ [])
focus-Ordered = (omega arith, omega arith, (omega arith, omega arith, tt))
