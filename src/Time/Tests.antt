-- ===== src/Time/Tests.antt =====
-- The last second of the 28th of February in a leap year.
use nxos.Base.{inl, ◌+◌, ◌≡◌, refl, some, arith}
use nxos.Time.{Time, make_week_day, time_go}
use nxos.Time.Calendar.{days_in}
use nxos.Time.Gregorian.{leap, IsDate, seconds, time_go-seconds}

abbrev late_february : Time
late_february = record {
  second = 59;
  minute = 59;
  hour = 23;
  week_day = 3;
  day = 28;
  month = 2;
  year = 2024;
  year_day = 60;
}

late_february-IsDate : IsDate late_february
unfolding days_in leap
late_february-IsDate = record {
  second_lt = omega arith;
  minute_lt = omega arith;
  hour_lt = omega arith;
  week_day_lt = omega arith;
  month_pos = omega arith;
  month_le = omega arith;
  day_pos = omega arith;
  day_le = omega arith;
}

week_day-right : 3 ≡ make_week_day 2024 2 28
unfolding make_week_day
week_day-right = refl

time_go-seconds_example :
    (t : Time) × (time_go late_february ≡ some t)
    × IsDate t
    × (seconds t ≡ seconds late_february + 1)
time_go-seconds_example =
    time_go-seconds late_february late_february-IsDate (omega arith) (inl (omega arith))
