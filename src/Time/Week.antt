-- ===== src/Time/Week.antt =====
-- The week day of src/time/time.c, set from the date and then counted on.
use nxos.Base.{
  ℕ, zero, suc, ◌+◌, ◌-◌, ◌*◌, ◌/◌, ◌%◌, ◌^◌, ◌≤◌, ◌<◌, ◌≡◌, ◌≢◌, sym, ap, ◌∙◌, ◌⊎◌, inl, inr, true,
  false, ◌||◌, some, arith, ◌==◌, dec_lt, ℕ_discrete,
}
use nxos.Time.{Time, is_leap_year, make_week_day, wrap_week, time_go}
use nxos.Time.Calendar.{days_in, Valid, is_leap_year_lem}
use nxos.Time.Days.{Follows, NewDay}
use nxos.Time.Step.{at_midnight, at_midnight-Valid, Second, time_go-Second}

-- With enough fuel the loop gives the remainder of p - n by 7.
wrap_week_lem : (fuel p n : ℕ) → n < p + 7 * fuel → wrap_week fuel p n ≡ (p + 6 * n) % 7
unfolding wrap_week
wrap_week_lem zero p n lt = ground arith
wrap_week_lem (suc fuel) p n lt = elim (dec_lt p n) [
  | yes less ↦ ground (arith, wrap_week_lem fuel (p + 7) n)
  | no ge ↦ ground arith
]

-- The number behind `MakeWeekDay`, with the months from March, 3, to February, 14.
abbrev congruence : (year month day : ℕ) → ℕ
congruence year month day =
    year / 100 / 4
    + (year - year / 100 * 100 + (year - year / 100 * 100) / 4)
    + 13 * (month + 1) / 5
    + day
    + 6 * (2 * (year / 100) + 1)

make_week_day-late :
    (year month day : ℕ) → 2 < month → make_week_day year month day ≡ congruence year month day % 7
unfolding make_week_day
make_week_day-late year month day late =
    rw is_late (rw (wrap_week_lem (n + 1) p n (omega arith)) (omega arith))
  where
    is_late : (month == 1 || month == 2) ≡ false
    is_late = ground arith

    c : ℕ
    c = year / 100

    n : ℕ
    n = 2 * c + 1 + 0

    p : ℕ
    p = c / 4 + (year - c * 100 + (year - c * 100) / 4) + 13 * (month + 1) / 5 + day

make_week_day-early :
    (year month day : ℕ)
    → 0 < year
    → 0 < month
    → month ≤ 2
    → make_week_day year month day ≡ congruence (year - 1) (month + 12) day % 7
unfolding make_week_day
make_week_day-early year month day pos month_pos early =
    rw (is_early, not_zero) (rw (wrap_week_lem (n + 1) p n (omega arith)) (omega arith))
  where
    is_early : (month == 1 || month == 2) ≡ true
    is_early = ground arith

    not_zero : (year == 0) ≡ false
    not_zero = ground arith

    c : ℕ
    c = (year - 1) / 100

    n : ℕ
    n = 2 * c + 1 + 0

    p : ℕ
    p = c / 4 + (year - 1 - c * 100 + (year - 1 - c * 100) / 4) + 13 * (month + 12 + 1) / 5 + day

week_day-day :
    (year month day : ℕ)
    → 0 < year
    → 0 < month
    → make_week_day year month (day + 1) ≡ (make_week_day year month day + 1) % 7
week_day-day year month day pos month_pos = elim (dec_lt 2 month) [
  | yes late ↦
      rw (make_week_day-late year month day late, make_week_day-late year month (day + 1) late)
        (omega arith)
  | no early ↦
      rw
        (
          make_week_day-early year month day pos month_pos (omega arith),
          make_week_day-early year month (day + 1) pos month_pos (omega arith),
        )
        (omega arith)
]

week_day-year : (year : ℕ) → make_week_day (year + 1) 1 1 ≡ (make_week_day year 12 31 + 1) % 7
week_day-year year =
    rw
      (
        make_week_day-late year 12 31 (omega arith),
        make_week_day-early (year + 1) 1 1 (omega arith) (omega arith) (omega arith),
      )
      (omega arith)

week_day-January :
    (year : ℕ) → 0 < year → make_week_day year 2 1 ≡ (make_week_day year 1 31 + 1) % 7
week_day-January year pos =
    rw
      (
        make_week_day-early year 1 31 pos (omega arith) (omega arith),
        make_week_day-early year 2 1 pos (omega arith) (omega arith),
      )
      (omega arith)

week_day-February :
    (year : ℕ)
    → 0 < year
    → (year % 100 ≢ 0) ⊎ (year % 400 ≡ 0)
    → make_week_day year 3 1 ≡ (make_week_day year 2 (28 + is_leap_year year) + 1) % 7
week_day-February year pos regular =
    rw
      (
        make_week_day-early year 2 (28 + is_leap_year year) pos (omega arith) (omega arith),
        make_week_day-late year 3 1 (omega arith),
      )
      (ground (arith, is_leap_year_lem year))

week_day-month :
    (year month : ℕ)
    → 2 < month
    → month < 12
    → make_week_day year (month + 1) 1
      ≡ (make_week_day year month (days_in (is_leap_year year) month) + 1) % 7
unfolding days_in
week_day-month year month late early =
    rw
      (
        make_week_day-late year month (days_in (is_leap_year year) month) late,
        make_week_day-late year (month + 1) 1 (omega arith),
      )
      (ground arith)

-- The date that follows, in a year that has a leap day in both calendars or in none.
make_week_day-Follows :
    (t t' : Time)
    → Valid t
    → 0 < t.year
    → (t.year % 100 ≢ 0) ⊎ (t.year % 400 ≡ 0)
    → Follows t t'
    → make_week_day t'.year t'.month t'.day ≡ (make_week_day t.year t.month t.day + 1) % 7
unfolding days_in is_leap_year
make_week_day-Follows t t' v pos regular follows = elim follows [
  | inl (lt, day, month, year) ↦
      rw (day, month, year) (week_day-day t.year t.month t.day pos v.month_pos)
  | inr (last, day, inr (late, month, year)) ↦
      rw (day, month, year, last, late) (week_day-year t.year)
  | inr (last, day, inl (early, month, year)) ↦
      rw (day, month, year, last)
        (elim (dec_lt 2 t.month) [
          | yes late ↦ week_day-month t.year t.month late early
          | no not_late ↦ elim (ℕ_discrete t.month 2) [
            | yes e ↦ rw e (week_day-February t.year pos regular)
            | no ne ↦ rw (one ne not_late) (week_day-January t.year pos)
          ]
        ])
]
  where
    one : t.month ≢ 2 → ¬ 2 < t.month → t.month ≡ 1
    one ne not_late = omega (arith, v.month_pos)

Second-week_day :
    (t t' : Time)
    → Valid t
    → 0 < t.year
    → (t.year % 100 ≢ 0) ⊎ (t.year % 400 ≡ 0)
    → t.week_day ≡ make_week_day t.year t.month t.day
    → Second t t'
    → t'.week_day ≡ make_week_day t'.year t'.month t'.day
unfolding NewDay
Second-week_day t t' v pos regular right step = elim step [
  | inl (lt, e) ↦ rw e right
  | inr (inl (last, lt, e)) ↦ rw e right
  | inr (inr (inl (last, last_minute, lt, e))) ↦ rw e right
  | inr (inr (inr (last, last_minute, last_hour, (_, _, _, week_day, follows)))) ↦
      week_day
      ∙ ap (λ w. (w + 1) % 7) right
      ∙ sym (make_week_day-Follows (at_midnight t) t' (at_midnight-Valid t v) pos regular follows)
]

-- In a year that is no century, or that 400 divides, `NX_TimeGo` counts the week day as
-- `MakeWeekDay` computes it: where the time's week day is that of its date, the next time's is. The
-- year is not 0 and below 2^24.
pub time_go-week_day :
    (t : Time)
    → Valid t
    → 0 < t.year
    → t.year < 2 ^ 24
    → (t.year % 100 ≢ 0) ⊎ (t.year % 400 ≡ 0)
    → t.week_day ≡ make_week_day t.year t.month t.day
    → (t' : Time) × (time_go t ≡ some t') × (t'.week_day ≡ make_week_day t'.year t'.month t'.day)
time_go-week_day t v pos small regular right =
    (run.0, run.1, Second-week_day t run.0 v pos regular right run.2)
  where
    run : (t' : Time) × (time_go t ≡ some t') × Second t t'
    run = time_go-Second t v small
