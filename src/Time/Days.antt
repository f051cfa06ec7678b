-- ===== src/Time/Days.antt =====
-- The steps of `NX_TimeGo` of src/time/time.c from one second, and from one day, to the next.
use nxos.Base.{
  ℕ, zero, suc, ◌+◌, ◌-◌, ◌*◌, ◌/◌, ◌%◌, ◌^◌, ◌≤◌, ◌<◌, ◌≡◌, refl, ◌⊎◌, inl, inr, some, arith,
  dec_lt,
}
use nxos.Time.{Time, is_leap_year, make_month_day, advance_day, turn_month, next_day}
use nxos.Time.Calendar.{
  days_in, Valid, days_before, ordinal, stamp, month_days_lem, added_again, make_year_days_lem,
  is_leap_year_lem,
}

-- What a new day is, with the month's length and the year day given.
abbrev pub new_day : Time → ℕ → Time
new_day t n =
    turn_month (days_in (is_leap_year t.year) t.month) (record (advance_day t) { year_day = n })

pub next_day_lem :
    (t : Time) → 0 < t.month → t.month ≤ 12 → (n : ℕ) × (next_day t ≡ some (new_day t n))
unfolding next_day make_month_day advance_day
next_day_lem t pos le = (
  ordinal (advance_day t) + added_again (advance_day t),
  rw (make_year_days_lem (advance_day t) pos le, month_days_lem t.year t.month pos le) refl,
)

December : (leap : ℕ) → days_before leap 12 ≡ 365 + leap
unfolding days_before days_in
December leap = omega arith

days_in-bounds :
    (year month : ℕ)
    → (28 ≤ days_in (is_leap_year year) month) × (days_in (is_leap_year year) month ≤ 31)
unfolding days_in is_leap_year
days_in-bounds year month = (ground arith, ground arith)

-- The date that follows a date: in the month, in the year, or in the next year.
abbrev pub Follows : Time → Time → Type 0
Follows t t' =
    ((t.day < days_in (is_leap_year t.year) t.month)
      × (t'.day ≡ t.day + 1)
      × (t'.month ≡ t.month)
      × (t'.year ≡ t.year))
    ⊎ ((t.day ≡ days_in (is_leap_year t.year) t.month)
        × (t'.day ≡ 1)
        × (((t.month < 12) × (t'.month ≡ t.month + 1) × (t'.year ≡ t.year))
            ⊎ ((t.month ≡ 12) × (t'.month ≡ 1) × (t'.year ≡ t.year + 1))))

-- A new day keeps the minute and the second, starts the hour at 0 and turns the week day.
unfoldable pub NewDay : Time → Time → Type 0
NewDay t t' =
    (t'.second ≡ t.second)
    × (t'.minute ≡ t.minute)
    × (t'.hour ≡ 0)
    × (t'.week_day ≡ (t.week_day + 1) % 7)
    × Follows t t'

pub new_day-NewDay : (t : Time) (n : ℕ) → Valid t → t.year < 2 ^ 24 → NewDay t (new_day t n)
unfolding turn_month advance_day NewDay
new_day-NewDay t n v small = elim (dec_lt t.day days) [
  | yes lt ↦ (
    ground (arith, bounds),
    ground (arith, bounds),
    ground (arith, bounds),
    ground (arith, v.week_day_lt, bounds),
    inl (lt, ground (arith, bounds), ground (arith, bounds), ground (arith, bounds)),
  )
  | no ge ↦ elim (dec_lt t.month 12) [
    | yes early ↦ (
      ground (arith, bounds),
      ground (arith, bounds),
      ground (arith, bounds),
      ground (arith, v.week_day_lt, bounds),
      inr (
        omega arith,
        ground (arith, bounds),
        inl (early, ground (arith, bounds), ground (arith, bounds)),
      ),
    )
    | no late ↦ (
      ground (arith, bounds),
      ground (arith, bounds),
      ground (arith, bounds),
      ground (arith, v.week_day_lt, bounds),
      inr (
        omega arith,
        ground (arith, bounds),
        inr (omega arith, ground (arith, bounds), ground (arith, bounds)),
      ),
    )
  ]
]
  where
    days : ℕ
    days = days_in (is_leap_year t.year) t.month

    bounds : (28 ≤ days) × (days ≤ 31)
    bounds = days_in-bounds t.year t.month

pub NewDay-Valid : (t t' : Time) → Valid t → NewDay t t' → Valid t'
unfolding NewDay
NewDay-Valid t t' v (second, minute, hour, week_day, follows) = record {
  second_lt = ground (arith, v.second_lt);
  minute_lt = ground (arith, v.minute_lt);
  hour_lt = ground arith;
  week_day_lt = ground (arith, v.week_day_lt);
  month_pos = ground (arith, v.month_pos);
  month_le = ground (arith, v.month_le);
  day_pos = ground (arith, v.day_pos);
  day_le = ground (arith, follows, days_in-bounds t'.year t'.month);
}

suc-minus_one : (n : ℕ) → suc n - 1 ≡ n
suc-minus_one n = omega arith

add-minus_one : (n : ℕ) → n + 1 - 1 ≡ n
add-minus_one n = omega arith

days_before_suc :
    (leap month : ℕ)
    → 0 < month
    → days_before leap month ≡ days_before leap (month - 1) + days_in leap month
unfolding days_before
days_before_suc leap zero pos = elim pos [ ]
days_before_suc leap (suc month) pos = rw (suc-minus_one month) refl

leap_step : (year : ℕ) → (year + 1 + 3) / 4 ≡ (year + 3) / 4 + is_leap_year year
leap_step year = ground (arith, is_leap_year_lem year)

pub NewDay-stamp :
    (t t' : Time) → Valid t → NewDay t t' → stamp t' + 60 * (60 * t.hour) ≡ stamp t + 24 * (60 * 60)
unfolding NewDay stamp ordinal days_before
NewDay-stamp t t' v (second, minute, hour, week_day, follows) = elim follows [
  | inl (lt, day, month, year) ↦ rw (second, minute, hour, day, month, year) (omega arith)
  | inr (last, day, inl (early, month, year)) ↦
      rw (second, minute, hour, day, month, year, add-minus_one t.month)
        (omega (arith, days_before_suc (is_leap_year t.year) t.month v.month_pos))
  | inr (last, day, inr (late, month, year)) ↦
      rw (second, minute, hour, day, month, year, last, late)
        (omega (
          arith,
          leap_step t.year,
          December (is_leap_year t.year),
          days_before_suc (is_leap_year t.year) 12 (omega arith),
        ))
]
