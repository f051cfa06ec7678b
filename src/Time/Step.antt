-- ===== src/Time/Step.antt =====
-- One call of `NX_TimeGo` of src/time/time.c.
use nxos.Base.{ℕ, ◌+◌, ◌%◌, ◌^◌, ◌<◌, ◌≡◌, refl, sym, subst, ◌⊎◌, inl, inr, some, arith, dec_lt}
use nxos.Time.{Time, next_day, time_go}
use nxos.Time.Calendar.{Valid, ordinal, stamp}
use nxos.Time.Days.{new_day, next_day_lem, NewDay, new_day-NewDay, NewDay-Valid, NewDay-stamp}

-- The start of the hour before midnight's new day.
abbrev pub at_midnight : Time → Time
at_midnight t = record t { second = 0; minute = 0 }

-- What one second does.
abbrev pub Second : Time → Time → Type 0
Second t t' =
    ((t.second < 59) × (t' ≡ record t { second = t.second + 1 }))
    ⊎ ((t.second ≡ 59) × (t.minute < 59) × (t' ≡ record t { second = 0; minute = t.minute + 1 }))
    ⊎ ((t.second ≡ 59)
        × (t.minute ≡ 59)
        × (t.hour < 23)
        × (t' ≡ record t { second = 0; minute = 0; hour = t.hour + 1 }))
    ⊎ ((t.second ≡ 59) × (t.minute ≡ 59) × (t.hour ≡ 23) × NewDay (at_midnight t) t')

pub at_midnight-Valid : (t : Time) → Valid t → Valid (at_midnight t)
at_midnight-Valid t v = record {
  second_lt = omega arith;
  minute_lt = omega arith;
  hour_lt = v.hour_lt;
  week_day_lt = v.week_day_lt;
  month_pos = v.month_pos;
  month_le = v.month_le;
  day_pos = v.day_pos;
  day_le = v.day_le;
}

pub time_go-Second :
    (t : Time) → Valid t → t.year < 2 ^ 24 → (t' : Time) × (time_go t ≡ some t') × Second t t'
unfolding time_go
time_go-Second t v small = elim (dec_lt t.second 59) [
  | yes lt ↦ (record t { second = t.second + 1 }, ground arith, inl (lt, refl))
  | no last ↦ elim (dec_lt t.minute 59) [
    | yes lt ↦ (
      record t { second = 0; minute = t.minute + 1 },
      ground (arith, v.second_lt),
      inr (inl (omega (arith, v.second_lt), lt, refl)),
    )
    | no last_minute ↦ elim (dec_lt t.hour 23) [
      | yes lt ↦ (
        record t { second = 0; minute = 0; hour = t.hour + 1 },
        ground (arith, v.second_lt, v.minute_lt),
        inr (inr (inl (omega (arith, v.second_lt), omega (arith, v.minute_lt), lt, refl))),
      )
      | no last_hour ↦ (
        new_day (at_midnight t) started.0,
        ground (arith, started.1, v.second_lt, v.minute_lt, v.hour_lt),
        inr (
            inr (
              inr (
                omega (arith, v.second_lt),
                omega (arith, v.minute_lt),
                omega (arith, v.hour_lt),
                new_day-NewDay (at_midnight t) started.0 (at_midnight-Valid t v) small,
              ))),
      )
    ]
  ]
]
  where
    started :
        (n : ℕ) × (next_day (record t { second = 0; minute = 0; hour = (t.hour + 1) % 2 ^ 8 })
          ≡ some (new_day (at_midnight t) n))
    started =
        next_day_lem (record t { second = 0; minute = 0; hour = (t.hour + 1) % 2 ^ 8 }) v.month_pos
          v.month_le

pub Second-Valid : (t t' : Time) → Valid t → Second t t' → Valid t'
Second-Valid t t' v step = elim step [
  | inl (lt, e) ↦ subst Valid (sym e) (record {
    second_lt = omega arith;
    minute_lt = v.minute_lt;
    hour_lt = v.hour_lt;
    week_day_lt = v.week_day_lt;
    month_pos = v.month_pos;
    month_le = v.month_le;
    day_pos = v.day_pos;
    day_le = v.day_le;
  })
  | inr (inl (last, lt, e)) ↦ subst Valid (sym e) (record {
    second_lt = omega arith;
    minute_lt = omega arith;
    hour_lt = v.hour_lt;
    week_day_lt = v.week_day_lt;
    month_pos = v.month_pos;
    month_le = v.month_le;
    day_pos = v.day_pos;
    day_le = v.day_le;
  })
  | inr (inr (inl (last, last_minute, lt, e))) ↦ subst Valid (sym e) (record {
    second_lt = omega arith;
    minute_lt = omega arith;
    hour_lt = omega arith;
    week_day_lt = v.week_day_lt;
    month_pos = v.month_pos;
    month_le = v.month_le;
    day_pos = v.day_pos;
    day_le = v.day_le;
  })
  | inr (inr (inr (last, last_minute, last_hour, new))) ↦
      NewDay-Valid (at_midnight t) t' (at_midnight-Valid t v) new
]

pub Second-stamp : (t t' : Time) → Valid t → Second t t' → stamp t' ≡ stamp t + 1
unfolding stamp ordinal
Second-stamp t t' v step = elim step [
  | inl (lt, e) ↦ rw e (omega arith)
  | inr (inl (last, lt, e)) ↦ rw e (omega arith)
  | inr (inr (inl (last, last_minute, lt, e))) ↦ rw e (omega arith)
  | inr (inr (inr (last, last_minute, last_hour, new))) ↦
      omega (arith, NewDay-stamp (at_midnight t) t' (at_midnight-Valid t v) new)
]
