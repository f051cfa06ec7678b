-- ===== src/Time/Gregorian.antt =====
-- `NX_TimeGo` of src/time/time.c by the Gregorian calendar, whose leap years are not those of `IsLeapYear`.
use nxos.Base.{
  ℕ, ◌+◌, ◌-◌, ◌*◌, ◌/◌, ◌%◌, ◌^◌, ◌≤◌, ◌<◌, ◌≡◌, ◌≢◌, refl, ap, ◌⊎◌, inl, inr, some, arith, ◌==◌,
  if◌then◌else◌,
}
use nxos.Time.{Time, is_leap_year, time_go}
use nxos.Time.Calendar.{Valid, days_in, days_before, ordinal, stamp, is_leap_year_lem}
use nxos.Time.Days.{NewDay}
use nxos.Time.Step.{Second, time_go-Second, Second-Valid, Second-stamp}

-- 1 in a leap year of the Gregorian calendar: every fourth year, but of the years that end a century only
-- every fourth one.
unfoldable pub leap : ℕ → ℕ
leap year =
    if year % 100 == 0 then (if year % 400 == 0 then 1 else 0) else (if year % 4 == 0 then 1 else 0)

-- A date of the Gregorian calendar and a time of day, and a day of the week.
pub record IsDate (t : Time) : Type 0 where
  pub second_lt : t.second < 60
  pub minute_lt : t.minute < 60
  pub hour_lt : t.hour < 24
  pub week_day_lt : t.week_day < 7
  pub month_pos : 0 < t.month
  pub month_le : t.month ≤ 12
  pub day_pos : 0 < t.day
  pub day_le : t.day ≤ days_in (leap t.year) t.month

-- The place of a date in its year, from 1, and the seconds from the start of the year 0.
unfoldable pub year_place : Time → ℕ
year_place t = days_before (leap t.year) (t.month - 1) + t.day

unfoldable pub seconds : Time → ℕ
unfolding year_place
seconds t =
    let days = 365 * t.year + (t.year + 3) / 4 + (t.year + 399) / 400 - (t.year + 99) / 100 in
    t.second + 60 * (t.minute + 60 * (t.hour + 24 * (days + year_place t)))

-- A year on which the code's rule and the Gregorian one agree.
abbrev pub IsCommonRule : ℕ → Type 0
IsCommonRule year = (year % 100 ≢ 0) ⊎ (year % 400 ≡ 0)

same_leap : (year : ℕ) → IsCommonRule year → leap year ≡ is_leap_year year
unfolding leap
same_leap year rule = ground (arith, is_leap_year_lem year, rule)

-- The year stays, or a new year starts with January.
year-cases :
    (t t' : Time) → Second t t' → (t'.year ≡ t.year) ⊎ ((t'.month ≡ 1) × (t'.year ≡ t.year + 1))
unfolding NewDay
year-cases t t' step = ground (arith, step)

-- In such a year, or in January, a date has the same place by both rules.
place_lem :
    (t : Time) → (leap t.year ≡ is_leap_year t.year) ⊎ (t.month ≡ 1) → year_place t ≡ ordinal t
unfolding year_place ordinal days_before
place_lem t (inl e) = ap (λ x. days_before x (t.month - 1) + t.day) e
place_lem t (inr e) = rw e refl

days_lem :
    (t : Time)
    → (leap t.year ≡ is_leap_year t.year) ⊎ (t.month ≡ 1)
    → days_in (leap t.year) t.month ≡ days_in (is_leap_year t.year) t.month
unfolding days_in
days_lem t (inl e) = ap (λ x. days_in x t.month) e
days_lem t (inr e) = rw e refl

seconds_lem :
    (t : Time)
    → year_place t ≡ ordinal t
    → seconds t + 24 * 3600 * ((t.year + 99) / 100) ≡ stamp t + 24 * 3600 * ((t.year + 399) / 400)
unfolding seconds stamp
seconds_lem t e = omega (arith, e)

Valid-IsDate :
    (t : Time)
    → days_in (leap t.year) t.month ≡ days_in (is_leap_year t.year) t.month
    → Valid t
    → IsDate t
Valid-IsDate t e v = record {
  second_lt = v.second_lt;
  minute_lt = v.minute_lt;
  hour_lt = v.hour_lt;
  week_day_lt = v.week_day_lt;
  month_pos = v.month_pos;
  month_le = v.month_le;
  day_pos = v.day_pos;
  day_le = omega (arith, e, v.day_le);
}

IsDate-Valid :
    (t : Time)
    → days_in (leap t.year) t.month ≡ days_in (is_leap_year t.year) t.month
    → IsDate t
    → Valid t
IsDate-Valid t e v = record {
  second_lt = v.second_lt;
  minute_lt = v.minute_lt;
  hour_lt = v.hour_lt;
  week_day_lt = v.week_day_lt;
  month_pos = v.month_pos;
  month_le = v.month_le;
  day_pos = v.day_pos;
  day_le = omega (arith, e, v.day_le);
}

-- From a date of the Gregorian calendar, in a year below 2^24 that does not end a century or that 400 divides,
-- `NX_TimeGo` comes to a date of that calendar, and the seconds from the start of the year 0 grow by one. The
-- day in the year, which is kept apart from the date, is no part of this.
pub time_go-seconds :
    (t : Time)
    → IsDate t
    → t.year < 2 ^ 24
    → IsCommonRule t.year
    → (t' : Time) × (time_go t ≡ some t') × IsDate t' × (seconds t' ≡ seconds t + 1)
time_go-seconds t d small rule =
    let now = same_leap t.year rule in
    let v = IsDate-Valid t (days_lem t (inl now)) d in
    let (t', run, step) = time_go-Second t v small in
    let then' = agrees t' (year-cases t t' step) in
    (
      t',
      run,
      Valid-IsDate t' (days_lem t' then') (Second-Valid t t' v step),
      counted t' (year-cases t t' step) (Second-stamp t t' v step)
          (seconds_lem t (place_lem t (inl now))) (seconds_lem t' (place_lem t' then')),
    )
  where
    agrees :
        (t' : Time)
        → (t'.year ≡ t.year) ⊎ ((t'.month ≡ 1) × (t'.year ≡ t.year + 1))
        → (leap t'.year ≡ is_leap_year t'.year) ⊎ (t'.month ≡ 1)
    agrees t' (inl e) = inl (rw e (same_leap t.year rule))
    agrees t' (inr (e, _)) = inr e

    counted :
        (t' : Time)
        → (t'.year ≡ t.year) ⊎ ((t'.month ≡ 1) × (t'.year ≡ t.year + 1))
        → stamp t' ≡ stamp t + 1
        → seconds t + 24 * 3600 * ((t.year + 99) / 100)
          ≡ stamp t + 24 * 3600 * ((t.year + 399) / 400)
        → seconds t' + 24 * 3600 * ((t'.year + 99) / 100)
          ≡ stamp t' + 24 * 3600 * ((t'.year + 399) / 400)
        → seconds t' ≡ seconds t + 1
    counted t' (inl e) grows a b =
        omega (arith, ap (λ y. (y + 99) / 100) e, ap (λ y. (y + 399) / 400) e, grows, a, b)
    counted t' (inr (_, e)) grows a b = elim rule [
      | inl c ↦ omega (arith, e, grows, a, b, c)
      | inr q ↦ omega (arith, e, grows, a, b, q)
    ]
