-- ===== src/Time/Calendar.antt =====
-- The calendar of src/time/time.c: the lengths of months and the steps of `NX_TimeGo`.
use nxos.Base.{
  ℕ, zero, suc, ◌+◌, ◌-◌, ◌*◌, ◌/◌, ◌%◌, ◌≤◌, ◌<◌, ◌≡◌, refl, some, arith, ltb, ◌==◌, if◌then◌else◌,
}
use nxos.Time.{Time, is_leap_year, month_days, sum_months, make_year_days}

-- `IsLeapYear` holds of every fourth year.
pub is_leap_year_lem : (year : ℕ) → is_leap_year year ≡ (if year % 4 == 0 then 1 else 0)
unfolding is_leap_year
is_leap_year_lem year = ground arith

-- The number of days of a month.
unfoldable pub days_in : (leap month : ℕ) → ℕ
days_in leap month =
    if month == 2
    then 28 + leap
    else if month == 4
    then 30
    else if month == 6
    then 30
    else if month == 9
    then 30
    else if month == 11
    then 30
    else 31

-- A date of the calendar and a time of day.
pub record Valid (t : Time) : Type 0 where
  pub second_lt : t.second < 60
  pub minute_lt : t.minute < 60
  pub hour_lt : t.hour < 24
  pub week_day_lt : t.week_day < 7
  pub month_pos : 0 < t.month
  pub month_le : t.month ≤ 12
  pub day_pos : 0 < t.day
  pub day_le : t.day ≤ days_in (is_leap_year t.year) t.month

pub month_days_lem :
    (year month : ℕ)
    → 0 < month
    → month ≤ 12
    → month_days year month ≡ some (days_in (is_leap_year year) month)
unfolding days_in
month_days_lem year month pos le = ground arith

-- The days of the first `count` months of a year.
unfoldable pub days_before : (leap count : ℕ) → ℕ
unfolding days_in
days_before leap zero = 0
days_before leap (suc count) = days_before leap count + days_in leap (suc count)

-- The place of a date in its year, from 1.
unfoldable pub ordinal : Time → ℕ
unfolding days_before
ordinal t = days_before (is_leap_year t.year) (t.month - 1) + t.day

-- The seconds from the start of the year 0 with a leap day in every fourth year.
unfoldable pub stamp : Time → ℕ
unfolding ordinal
stamp t =
    t.second + 60 * (t.minute + 60 * (t.hour + 24 * (365 * t.year + (t.year + 3) / 4 + ordinal t)))

pub sum_months_lem :
    (year count : ℕ)
    → count ≤ 12
    → sum_months year count ≡ some (days_before (is_leap_year year) count)
unfolding sum_months days_before
sum_months_lem year zero le = refl
sum_months_lem year (suc count) le =
    rw (sum_months_lem year count (omega arith), month_days_lem year (suc count) (omega arith) le)
      refl

-- What `MakeYearDays` adds for the leap day a second time.
pub added_again : Time → ℕ
added_again t =
    if ltb 2 t.month
    then is_leap_year t.year
    else if t.month == 2
    then if t.day == 28 then is_leap_year t.year else 0
    else 0

-- The year day that `MakeYearDays` computes is the place of the date in its year, with the leap day
-- of a leap year added once more after February, and on the 28th of February.
pub make_year_days_lem :
    (t : Time) → 0 < t.month → t.month ≤ 12 → make_year_days t ≡ some (ordinal t + added_again t)
unfolding make_year_days ordinal added_again
make_year_days_lem t pos le = rw (sum_months_lem t.year (t.month - 1) (omega arith)) (ground arith)
