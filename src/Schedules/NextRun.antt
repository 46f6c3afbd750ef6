-- ===== src/Schedules/NextRun.antt =====
-- The next run of backend/src/modules/scheduler/scheduled-workflow.service.ts comes later.
use mathlib.Core.Bool.{false≢true}
use biz_pilot_ai.Prelude.{
  ℕ, zero, suc, ◌+◌, ◌-◌, ◌≡◌, ◌≤◌, ◌<◌, ◌==◌, ◌&&◌, ltb, leb, if◌then◌else◌, Option, none, some,
  or_else, true, false, Bool-cases, inl, inr, ◌⊎◌, if_true, if_false, arith, ap, ◌∙◌, refl, sym,
  ==_iff,
}
use biz_pilot_ai.Effects.{ok}
use biz_pilot_ai.Schedules.{
  ScheduleIntervalUnit, minute, hour, day, week, month, parse_time_of_day, matches_time,
  hour_and_minute, has_time_of_day, is_week,
}
use biz_pilot_ai.Schedules.Calendar.{
  Luxon, IsCalendar, Timing, midnight, seek_weekday, target_weekday, next_at, compute_next_run_at,
}

-- Days from one weekday to another.
days_between : ℕ → ℕ → ℕ
days_between w target = if leb w target then target - w else target + 7 - w

days_nearer :
    (w next target fuel : ℕ)
    → w ≤ 7
    → target ≤ 7
    → 1 ≤ target
    → (w == target) ≡ false
    → next ≡ (if w == 7 then 1 else suc w)
    → days_between w target < suc fuel
    → days_between next target < fuel
unfolding days_between
days_nearer w next target fuel high low positive differs e enough =
    ground (arith, e, enough, differs)

days_bounded : (w target : ℕ) → 1 ≤ w → w ≤ 7 → target ≤ 7 → days_between w target < 7
unfolding days_between
days_bounded w target positive high low = ground arith

module _ (c : Luxon) (calendar : IsCalendar c) (zone target after : ℕ) where
  seek_hit :
      (fuel candidate : ℕ)
      → (c.weekday zone candidate == target && ltb after candidate) ≡ true
      → seek_weekday c (suc fuel) zone target after candidate ≡ some candidate
  unfolding seek_weekday
  seek_hit fuel candidate e =
      if_true (c.weekday zone candidate == target && ltb after candidate) (some candidate)
        (seek_weekday c fuel zone target after (c.plus_days zone 1 candidate)) e

  seek_miss :
      (fuel candidate : ℕ)
      → (c.weekday zone candidate == target && ltb after candidate) ≡ false
      → seek_weekday c (suc fuel) zone target after candidate
        ≡ seek_weekday c fuel zone target after (c.plus_days zone 1 candidate)
  unfolding seek_weekday
  seek_miss fuel candidate e =
      if_false (c.weekday zone candidate == target && ltb after candidate) (some candidate)
        (seek_weekday c fuel zone target after (c.plus_days zone 1 candidate)) e

  -- From a later candidate on, as many tests as there are days to the weekday, and one, are enough.
  seek_later :
      (fuel candidate : ℕ)
      → 1 ≤ target
      → target ≤ 7
      → after < candidate
      → days_between (c.weekday zone candidate) target < fuel
      → (t : ℕ) × (seek_weekday c fuel zone target after candidate ≡ some t)
        × (after < t)
        × (c.weekday zone t ≡ target)
  unfolding days_between
  seek_later zero candidate low high later enough = absurd (omega (arith, enough))
  seek_later (suc fuel) candidate low high later enough =
      elim (Bool-cases (c.weekday zone candidate == target)) [
        | inl same ↦ (
          candidate,
          seek_hit fuel candidate (ground (arith, same, later)),
          later,
          (==_iff (c.weekday zone candidate) target).0 same,
        )
        | inr differs ↦
            let (t, e, on, day_of) =
              seek_later fuel (c.plus_days zone 1 candidate) low high
                (omega (arith, later, calendar.days_later zone 1 candidate (omega arith)))
                (days_nearer (c.weekday zone candidate)
                  (c.weekday zone (c.plus_days zone 1 candidate)) target fuel
                  (calendar.weekday_bounded zone candidate) high low differs
                  (calendar.weekday-plus_days zone candidate) enough) in
            (t, seek_miss fuel candidate (ground (arith, differs)) ∙ e, on, day_of)
      ]

  seek_found :
      (h m : ℕ)
      → 1 ≤ target
      → target ≤ 7
      → (t : ℕ) × (seek_weekday c 8 zone target after (c.set_time zone h m after) ≡ some t)
        × (after < t)
        × (c.weekday zone t ≡ target)
  unfolding days_between
  seek_found h m low high =
      let start = c.set_time zone h m after in
      elim (Bool-cases (c.weekday zone start == target && ltb after start)) [
        | inl hit ↦ (start, seek_hit 7 start hit, ground (arith, hit), ground (arith, hit))
        | inr miss ↦
            let (t, e, on, day_of) =
              seek_later 7 (c.plus_days zone 1 start) low high
                (calendar.set_days_later zone 1 h m after (omega arith))
                (days_bounded (c.weekday zone (c.plus_days zone 1 start)) target
                  (calendar.weekday_positive zone (c.plus_days zone 1 start))
                  (calendar.weekday_bounded zone (c.plus_days zone 1 start)) high) in
            (t, seek_miss 7 start miss ∙ e, on, day_of)
      ]

-- What validation leaves to be had of a schedule, as far as its unit asks for it.
unfoldable pub IsTimed : Timing → Type 0
IsTimed s =
    (1 ≤ s.interval_value)
    × ((has_time_of_day s.interval_unit ≡ false)
        ⊎ (matches_time (or_else s.time_of_day midnight) ≡ true))
    × ((is_week s.interval_unit ≡ false) ⊎ (or_else s.day_of_week 1 ≤ 6))

target_weekday_bounds :
    (d : Option ℕ) → or_else d 1 ≤ 6 → (1 ≤ target_weekday d) × (target_weekday d ≤ 7)
target_weekday_bounds none h = (omega arith, omega arith)
target_weekday_bounds (some a) h = (ground (arith, h), ground (arith, h))

module _ (c : Luxon) (calendar : IsCalendar c) (s : Timing) (after : ℕ) where
  next_at_later :
      (u : ScheduleIntervalUnit) (h m : ℕ)
      → 1 ≤ s.interval_value
      → (is_week u ≡ false) ⊎ (or_else s.day_of_week 1 ≤ 6)
      → (t : ℕ) × (next_at c s u h m after ≡ ok t) × (after < t)
  unfolding next_at
  next_at_later minute h m positive _ = (
    c.plus_minutes s.timezone s.interval_value after,
    refl,
    calendar.minutes_later s.timezone s.interval_value after positive,
  )
  next_at_later hour h m positive _ = (
    c.plus_hours s.timezone s.interval_value after,
    refl,
    calendar.hours_later s.timezone s.interval_value after positive,
  )
  next_at_later day h m positive _ =
      let candidate = c.set_time s.timezone h m after in
      (
        if leb candidate after
            then c.plus_days s.timezone s.interval_value candidate
            else candidate,
        refl,
        ground (arith, calendar.set_days_later s.timezone s.interval_value h m after positive),
      )
  next_at_later week h m positive (inl other) = absurd (false≢true (sym other))
  next_at_later week h m positive (inr weekday) =
      let (t, e, on, day_of) =
        seek_found c calendar s.timezone (target_weekday s.day_of_week) after h m
          (target_weekday_bounds s.day_of_week weekday).0
          (target_weekday_bounds s.day_of_week weekday).1 in
      (
        if ltb 1 s.interval_value then c.plus_weeks s.timezone (s.interval_value - 1) t else t,
        rw (e, next_at) refl,
        ground (arith, on, calendar.weeks_later s.timezone (s.interval_value - 1) t),
      )
  next_at_later month h m positive _ =
      let candidate = c.set_time s.timezone h m after in
      (
        if leb candidate after
            then c.plus_months s.timezone s.interval_value candidate
            else candidate,
        refl,
        ground (arith, calendar.set_months_later s.timezone s.interval_value h m after positive),
      )

  compute_lem :
      (u : ScheduleIntervalUnit)
      → s.interval_unit ≡ u
      → (has_time_of_day u ≡ false) ⊎ (matches_time (or_else s.time_of_day midnight) ≡ true)
      → (h : ℕ) × ((m : ℕ) × (compute_next_run_at c s after ≡ next_at c s u h m after))
  unfolding compute_next_run_at parse_time_of_day
  compute_lem minute e f = (0, (0, rw (e, compute_next_run_at) refl))
  compute_lem hour e f = (0, (0, rw (e, compute_next_run_at) refl))
  compute_lem day e (inl n) = absurd (false≢true (sym n))
  compute_lem day e (inr f) =
      let at = hour_and_minute (or_else s.time_of_day midnight) in
      (at.0, (at.1, rw (e, f, compute_next_run_at) (ap (λ v. next_at c s v at.0 at.1 after) e)))
  compute_lem week e (inl n) = absurd (false≢true (sym n))
  compute_lem week e (inr f) =
      let at = hour_and_minute (or_else s.time_of_day midnight) in
      (at.0, (at.1, rw (e, f, compute_next_run_at) (ap (λ v. next_at c s v at.0 at.1 after) e)))
  compute_lem month e (inl n) = absurd (false≢true (sym n))
  compute_lem month e (inr f) =
      let at = hour_and_minute (or_else s.time_of_day midnight) in
      (at.0, (at.1, rw (e, f, compute_next_run_at) (ap (λ v. next_at c s v at.0 at.1 after) e)))

  -- Where the interval is positive, and the time of day and the day of the week are proper as far as
  -- the unit asks for them, the next run is computed, the search for the weekday included, and comes after the given instant.
  pub compute_next_run_at_later :
      IsTimed s → (t : ℕ) × (compute_next_run_at c s after ≡ ok t) × (after < t)
  unfolding IsTimed
  compute_next_run_at_later timed =
      let (h, (m, e)) = compute_lem s.interval_unit refl timed.1 in
      let (t, f, later) = next_at_later s.interval_unit h m timed.0 timed.2 in (t, e ∙ f, later)
