-- ===== src/Time.antt =====
-- src/time/time.c and src/include/base/time.h: the system time, a date and a time of day that one
-- call advances by one second. The first four fields have 8 bits, the others 32. A null pointer and
-- a read outside the table of the months are `none`. Years, months and days are taken to be below
-- 2^24, so that no int of NX_TimeSet overflows. Printing and the reading of the clock device are
-- left out.
pub mod Calendar
pub mod Days
pub mod Step
pub mod Gregorian
pub mod Week
mod Tests
use nxos.Base.{
  ℕ, zero, suc, ◌+◌, ◌-◌, ◌*◌, ◌/◌, ◌%◌, ◌^◌, ◌≡◌, Bool, true, false, ◌||◌, Option, none, some,
  List, [], ◌∷◌, ltb, leb, ◌==◌, if◌then◌else◌, get_elem?, ◌>>=◌, Error, eok, einval,
}

pub record Time : Type 0 where
  pub second : ℕ
  pub minute : ℕ
  pub hour : ℕ
  pub week_day : ℕ
  pub day : ℕ
  pub month : ℕ
  pub year : ℕ
  pub year_day : ℕ

-- NX_TIME_INIT_VAL
abbrev pub time_init_val : Time
time_init_val = record {
  second = 0;
  minute = 0;
  hour = 0;
  week_day = 0;
  day = 0;
  month = 1;
  year = 1980;
  year_day = 0;
}

abbrev pub month_day_table : List ℕ
month_day_table = 0 ∷ 31 ∷ 28 ∷ 31 ∷ 30 ∷ 31 ∷ 30 ∷ 31 ∷ 31 ∷ 30 ∷ 31 ∷ 30 ∷ 31 ∷ []

-- `IsLeapYear`
pub is_leap_year : ℕ → ℕ
is_leap_year year =
    if year % 4 == 0 then if year % 400 == 0 then if year % 100 == 0 then 1 else 0 else 1 else 0

-- The loop of `MakeWeekDay` on the number p - n, which is never below -n, and the last remainder;
-- each round of the fuel adds 7.
pub wrap_week : (fuel p n : ℕ) → ℕ
wrap_week zero p n = (p - n) % 7
wrap_week (suc fuel) p n =
    let rest = wrap_week fuel (p + 7) n in if ltb p n then rest else (p - n) % 7

-- `MakeWeekDay`, with what is added and what is taken away in two numbers. For January and February
-- of the year 0 the year becomes -1, whose quotients by 100 and 4 are 0.
pub make_week_day : (year month day : ℕ) → ℕ
unfolding wrap_week
make_week_day year month day =
    let early = month == 1 || month == 2 in
    let owed = if early then if year == 0 then 1 else 0 else 0 in
    let year = if early then year - 1 else year in
    let month = if early then month + 12 else month in
    let c = year / 100 in
    let y = year - c * 100 in
    let n = 2 * c + 1 + owed in
    wrap_week (n + 1) (c / 4 + (y + y / 4) + 13 * (month + 1) / 5 + day) n

-- One entry of the table, with the leap day in February.
abbrev pub month_days : (year month : ℕ) → Option ℕ
month_days year month = do
  days ← get_elem? month_day_table month
  some (if month == 2 then days + is_leap_year year else days)

-- `MakeMonthDay`
pub make_month_day : Time → Option ℕ
unfolding is_leap_year
make_month_day t = month_days t.year t.month

-- The loop of `MakeYearDays` over the months 1 to `count`.
pub sum_months : (year count : ℕ) → Option ℕ
unfolding is_leap_year
sum_months year zero = some 0
sum_months year (suc count) = do
  sum ← sum_months year count
  days ← month_days year (suc count)
  some (sum + days)

-- `MakeYearDays`
pub make_year_days : Time → Option ℕ
unfolding is_leap_year sum_months
make_year_days t = do
  sum ← sum_months t.year (t.month - 1)
  some (
      if leb 2 t.month
      then if t.month == 2
        then if t.day == 28 then sum + t.day + is_leap_year t.year else sum + t.day
        else sum + t.day + is_leap_year t.year
      else sum + t.day)

-- The steps of `NX_TimeGo` on a new day: the hour has passed 23.
pub advance_day : Time → Time
advance_day t =
    let week_day = (t.week_day + 1) % 2 ^ 8 in
    record t {
      day = (t.day + 1) % 2 ^ 32;
      hour = 0;
      week_day = if ltb 6 week_day then 0 else week_day;
    }

-- Then on a day past the month's last; `days` is the month's length.
pub turn_month : (days : ℕ) → Time → Time
turn_month days t =
    let month = (t.month + 1) % 2 ^ 32 in
    if ltb days t.day
    then if ltb 12 month
      then record t { month = 1; day = 1; year = (t.year + 1) % 2 ^ 32 }
      else record t { month = month; day = 1 }
    else t

pub next_day : Time → Option Time
unfolding make_year_days make_month_day advance_day turn_month
next_day t = do
  year_day ← make_year_days (advance_day t)
  days ← make_month_day (advance_day t)
  some (turn_month days (record (advance_day t) { year_day = year_day }))

-- `NX_TimeGo`
unfoldable pub time_go : Time → Option Time
unfolding next_day
time_go t =
    let second = (t.second + 1) % 2 ^ 8 in
    let minute = (t.minute + 1) % 2 ^ 8 in
    let hour = (t.hour + 1) % 2 ^ 8 in
    if ltb 59 second
    then if ltb 59 minute
      then if ltb 23 hour
        then next_day (record t { second = 0; minute = 0; hour = hour })
        else some (record t { second = 0; minute = 0; hour = hour })
      else some (record t { second = 0; minute = minute })
    else some (record t { second = second })

-- `NX_TimeSet`; the first time is the system's.
pub time_set : Time → Option Time → Option (Time × Error)
unfolding make_week_day make_year_days
time_set system none = some (system, einval)
time_set system (some time) = do
  year_day ← make_year_days time
  some (
    record time {
      week_day = make_week_day time.year time.month time.day;
      year_day = year_day % 2 ^ 32;
    },
    eok,
  )

-- `NX_TimeGet`; the result is what the caller's time becomes.
pub time_get : Time → Option Time → Option Time × Error
time_get system none = (none, einval)
time_get system (some time) = (some system, eok)
