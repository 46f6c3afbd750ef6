-- ===== src/Schedules/Calendar.antt =====
-- `computeNextRunAt` of backend/src/modules/scheduler/scheduled-workflow.service.ts. Instants, zones
-- and numbers of days are numbers; weekdays are those of luxon, 1 for Monday to 7 for Sunday.
use biz_pilot_ai.Prelude.{
  ℕ, zero, suc, ◌-◌, ◌≡◌, ◌≤◌, ◌<◌, ◌==◌, ◌&&◌, ltb, leb, if◌then◌else◌, Option, none, some, [],
  ◌∷◌, or_else, Text, opt_eq,
}
use biz_pilot_ai.Errors.{plain_fault}
use biz_pilot_ai.Effects.{Result, ok, err}
use biz_pilot_ai.Schedules.{ScheduleIntervalUnit, minute, hour, day, week, month, parse_time_of_day}

-- What `DateTime` of luxon does in a zone.
pub record Luxon : Type 0 where
  pub plus_minutes : ℕ → ℕ → ℕ → ℕ
  pub plus_hours : ℕ → ℕ → ℕ → ℕ
  pub plus_days : ℕ → ℕ → ℕ → ℕ
  pub plus_weeks : ℕ → ℕ → ℕ → ℕ
  pub plus_months : ℕ → ℕ → ℕ → ℕ
  pub set_time : ℕ → ℕ → ℕ → ℕ → ℕ
  pub weekday : ℕ → ℕ → ℕ

-- What the code relies on: additions move on, also from a time set on the same day, and the weekday
-- moves on by one with each day.
pub record IsCalendar (c : Luxon) : Type 0 where
  pub minutes_later : (zone n t : ℕ) → 1 ≤ n → t < c.plus_minutes zone n t
  pub hours_later : (zone n t : ℕ) → 1 ≤ n → t < c.plus_hours zone n t
  pub days_later : (zone n t : ℕ) → 1 ≤ n → t < c.plus_days zone n t
  pub weeks_later : (zone n t : ℕ) → t ≤ c.plus_weeks zone n t
  pub set_days_later : (zone n h m t : ℕ) → 1 ≤ n → t < c.plus_days zone n (c.set_time zone h m t)
  pub set_months_later :
      (zone n h m t : ℕ) → 1 ≤ n → t < c.plus_months zone n (c.set_time zone h m t)
  pub weekday_positive : (zone t : ℕ) → 1 ≤ c.weekday zone t
  pub weekday_bounded : (zone t : ℕ) → c.weekday zone t ≤ 7
  pub weekday-plus_days :
      (zone t : ℕ)
      → c.weekday zone (c.plus_days zone 1 t)
        ≡ (if c.weekday zone t == 7 then 1 else suc (c.weekday zone t))

-- What `computeNextRunAt` takes of a schedule.
pub record Timing : Type 0 where
  pub interval_unit : ScheduleIntervalUnit
  pub interval_value : ℕ
  pub time_of_day : Option Text
  pub day_of_week : Option ℕ
  pub timezone : ℕ

-- "00:00".
abbrev pub midnight : Text
midnight = 48 ∷ 48 ∷ 58 ∷ 48 ∷ 48 ∷ []

abbrev pub target_weekday : Option ℕ → ℕ
target_weekday d = if opt_eq d 0 then 7 else or_else d 1

module _ (c : Luxon) where
  -- The days to the next occurrence of a weekday: eight tests are enough.
  unfoldable pub seek_weekday : ℕ → ℕ → ℕ → ℕ → ℕ → Option ℕ
  seek_weekday zero zone target after candidate = none
  seek_weekday (suc fuel) zone target after candidate =
      let rest = seek_weekday fuel zone target after (c.plus_days zone 1 candidate) in
      if c.weekday zone candidate == target && ltb after candidate then some candidate else rest

  unfoldable pub next_at : Timing → ScheduleIntervalUnit → ℕ → ℕ → ℕ → Result ℕ
  unfolding seek_weekday
  next_at s minute h m after = ok (c.plus_minutes s.timezone s.interval_value after)
  next_at s hour h m after = ok (c.plus_hours s.timezone s.interval_value after)
  next_at s day h m after =
      let candidate = c.set_time s.timezone h m after in
      ok (
        if leb candidate after
        then c.plus_days s.timezone s.interval_value candidate
        else candidate)
  next_at s week h m after =
      elim (seek_weekday 8 s.timezone (target_weekday s.day_of_week) after
        (c.set_time s.timezone h m after)) [
          | none ↦ err plain_fault
          | some candidate ↦ ok (
              if ltb 1 s.interval_value
              then c.plus_weeks s.timezone (s.interval_value - 1) candidate
              else candidate)
        ]
  next_at s month h m after =
      let candidate = c.set_time s.timezone h m after in
      ok (
        if leb candidate after
        then c.plus_months s.timezone s.interval_value candidate
        else candidate)

  -- The time of day is parsed where the unit asks for it.
  unfoldable pub compute_next_run_at : Timing → ℕ → Result ℕ
  unfolding next_at parse_time_of_day
  compute_next_run_at s after = elim s.interval_unit [
    | minute ↦ next_at s minute 0 0 after
    | hour ↦ next_at s hour 0 0 after
    | _ ↦ elim (parse_time_of_day (or_else s.time_of_day midnight)) [
      | err e ↦ err e
      | ok (h, m) ↦ next_at s s.interval_unit h m after
    ]
  ]
