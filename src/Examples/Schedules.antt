-- ===== src/Examples/Schedules.antt =====
-- Concrete schedules: backend/src/modules/scheduler. The calendar counts days.
use mathlib.Core.List.{Memᴰ}
use biz_pilot_ai.Prelude.{
  ℕ, suc, ◌+◌, ◌*◌, ◌%◌, ◌≡◌, ◌<◌, ◌↔◌, ◌⊎◌, inr, refl, true, false, ◌==◌, [], ◌∷◌, none, some, pos,
  All, find_first, arith,
}
use biz_pilot_ai.Errors.{app, validation_error}
use biz_pilot_ai.Effects.{ok, err}
use biz_pilot_ai.JobQueue.{Job, has_keys}
use biz_pilot_ai.Schedules.{ScheduledWorkflowInput, minute, week, whole, validate_schedule_input}
use biz_pilot_ai.Schedules.Validity.{IsValidSchedule, validate_schedule_input_iff}
use biz_pilot_ai.Schedules.Calendar.{Luxon, IsCalendar, compute_next_run_at}
use biz_pilot_ai.Schedules.NextRun.{IsTimed, compute_next_run_at_later}
use biz_pilot_ai.Schedules.Rows.{
  ScheduledWorkflow, Schedules, timing_of, new_schedule, create_scheduled_workflow,
  set_scheduled_workflow_enabled,
}
use biz_pilot_ai.Schedules.Tick.{Scheduler, Keys, Summary, advance, is_due, process_schedule}
use biz_pilot_ai.Schedules.Claiming.{Skips, process_schedule_once, process_schedule_lem}
use biz_pilot_ai.Schedules.Anchors.{
  create_scheduled_workflow_lem, set_scheduled_workflow_enabled_lem,
}

abbrev days : Luxon
days = record {
  plus_minutes = λ zone n t. t + n;
  plus_hours = λ zone n t. t + n;
  plus_days = λ zone n t. t + n;
  plus_weeks = λ zone n t. t + 7 * n;
  plus_months = λ zone n t. t + 31 * n;
  set_time = λ zone h m t. t;
  weekday = λ zone t. suc (t % 7);
}

days-IsCalendar : IsCalendar days
days-IsCalendar = record {
  minutes_later = λ zone n t positive. omega (arith, positive);
  hours_later = λ zone n t positive. omega (arith, positive);
  days_later = λ zone n t positive. omega (arith, positive);
  weeks_later = λ zone n t. omega arith;
  set_days_later = λ zone n h m t positive. omega (arith, positive);
  set_months_later = λ zone n h m t positive. omega (arith, positive);
  weekday_positive = λ zone t. omega arith;
  weekday_bounded = λ zone t. omega arith;
  weekday-plus_days = λ zone t. ground arith;
}

-- Every week at 09:30 on a Sunday.
abbrev weekly : ScheduledWorkflowInput
weekly = record {
  workspace_id = 10;
  workflow_definition_key = 4;
  business_profile_id = none;
  created_by_user_id = none;
  name = 77 ∷ [];
  interval_unit = week;
  interval_value = none;
  time_of_day = some (48 ∷ 57 ∷ 58 ∷ 51 ∷ 48 ∷ []);
  day_of_week = some (whole (pos 0));
  timezone = none;
}

weekly_is_valid : IsValidSchedule (λ z. true) weekly
unfolding IsValidSchedule validate_schedule_input
weekly_is_valid = (validate_schedule_input_iff (λ z. true) weekly).0 refl

every_third_minute_is_refused :
    validate_schedule_input
      (λ z. true)
      (record weekly { interval_unit = minute; interval_value = some (whole (pos 3)) })
    ≡ err (app validation_error)
unfolding validate_schedule_input
every_third_minute_is_refused = refl

next_sunday : compute_next_run_at days (timing_of weekly) 20 ≡ ok 27
unfolding compute_next_run_at
next_sunday = refl

validate_schedule_input_iff_example :
    (validate_schedule_input (λ z. true) weekly ≡ ok tt) ↔ IsValidSchedule (λ z. true) weekly
validate_schedule_input_iff_example = validate_schedule_input_iff (λ z. true) weekly

weekly-IsTimed : IsTimed (timing_of weekly)
unfolding IsTimed
weekly-IsTimed = (omega arith, inr refl, inr (omega arith))

compute_next_run_at_later_example :
    (t : ℕ) × (compute_next_run_at days (timing_of weekly) 20 ≡ ok t) × (20 < t)
compute_next_run_at_later_example =
    compute_next_run_at_later days days-IsCalendar (timing_of weekly) 20 weekly-IsTimed

abbrev sundays : ScheduledWorkflow
sundays = new_schedule 3 weekly 27

abbrev store : Schedules
store = record {
  rows = sundays ∷ [];
  next_id = 4;
  is_active_definition = λ k. k == 4;
  is_profile_of = λ w p. false;
}

abbrev scheduler : Scheduler
scheduler = record { schedules = store; jobs = record { jobs = []; next_id = 1 } }

abbrev keys : Keys
keys = record { key = 8; occurrence_key = λ id t. id + 1000 * t }

abbrev nothing_yet : Summary
nothing_yet = record { due_count = 1; claimed_count = 0; enqueued_count = 0; coalesced_count = 0 }

process_schedule_once_example :
    (skipped : ℕ) × (process_schedule days keys 31 sundays nothing_yet
        (process_schedule days keys 30 sundays nothing_yet scheduler).1
      ≡ (
        ok (record nothing_yet { coalesced_count = 0 + skipped }),
        (process_schedule days keys 30 sundays nothing_yet scheduler).1,
      ))
process_schedule_once_example =
    process_schedule_once days keys 30 31 sundays nothing_yet nothing_yet scheduler days-IsCalendar
      weekly-IsTimed

process_schedule_lem_example :
    (reached : ℕ) × ((skipped : ℕ) × ((job : Job) × (27 < reached)
        × ((first : ℕ) × (compute_next_run_at days sundays.timing 27 ≡ ok first)
            × Skips days sundays.timing 60 skipped first reached)
        × ((60 < reached) ⊎ (skipped ≡ 100000))
        × Memᴰ
            (advance reached 60 sundays)
            (process_schedule days keys 60 sundays nothing_yet scheduler).1.schedules.rows
        × (find_first
              (has_keys 8 (3 + 1000 * 27))
              (process_schedule days keys 60 sundays nothing_yet scheduler).1.jobs.jobs
            ≡ some job)))
process_schedule_lem_example =
    process_schedule_lem days keys 60 sundays nothing_yet scheduler days-IsCalendar weekly-IsTimed
      (tt, tt) (Memᴰ.head refl)

create_scheduled_workflow_lem_example :
    (row : ScheduledWorkflow) × (create_scheduled_workflow days (λ z. true) weekly 40 store
      ≡ (ok row, record store { rows = sundays ∷ row ∷ []; next_id = 5 }))
    × (row.enabled ≡ true)
    × (40 < row.next_run_at)
    × IsTimed row.timing
create_scheduled_workflow_lem_example =
    create_scheduled_workflow_lem days (λ z. true) weekly 40 store days-IsCalendar weekly_is_valid
      refl refl

set_scheduled_workflow_enabled_lem_example :
    (row : ScheduledWorkflow) × ((set_scheduled_workflow_enabled days 10 3 true 90 store).0
      ≡ ok row)
    × (row.enabled ≡ true)
    × (90 < row.next_run_at)
    × All
        (λ r. ((r.id == 3) ≡ false) ⊎ (is_due 90 r ≡ false))
        (set_scheduled_workflow_enabled days 10 3 true 90 store).1.rows
set_scheduled_workflow_enabled_lem_example =
    set_scheduled_workflow_enabled_lem days 10 3 90 store sundays days-IsCalendar refl
      weekly-IsTimed
