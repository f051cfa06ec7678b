-- ===== src/Timer/Tests.antt =====
-- Three timers at tick 10.
use nxos.Base.{ℕ, refl, Bool, true, false, [], ◌∷◌, arith}
use nxos.Timer.{inited, waiting, Timer, Timers, go}
use nxos.Timer.Order.{IsValid}
use nxos.Timer.Expiry.{Ticked, go-Ticked}

abbrev soon : Timer
soon = record { name = 1; state = waiting; timeout = 11; time_ticks = 5; period = false }

abbrev later : Timer
later = record { name = 2; state = waiting; timeout = 20; time_ticks = 15; period = false }

abbrev fresh : Timer
fresh = record { name = 3; state = inited; timeout = 0; time_ticks = 5; period = false }

abbrev periodic : Timer
periodic = record { name = 4; state = waiting; timeout = 11; time_ticks = 5; period = true }

abbrev second : Timer
second = record { name = 5; state = waiting; timeout = 12; time_ticks = 5; period = false }

abbrev timers : Timers
timers = record { list = soon ∷ later ∷ []; ticks = 10; next_timeout = 11 }

abbrev mixed : Timers
mixed = record { list = periodic ∷ second ∷ []; ticks = 10; next_timeout = 11 }

abbrev always : ℕ → Bool
always name = true

timers-IsValid : IsValid timers
timers-IsValid = record { sorted = (omega arith, (omega arith, tt)); next_right = refl }

go-Ticked_example : Ticked timers (go always 0 timers)
go-Ticked_example = go-Ticked always 0 timers timers-IsValid (refl, (refl, tt)) (omega arith)
