-- ===== src/Schedules/Anchors.antt =====
-- When a schedule is created or enabled: backend/src/modules/scheduler/scheduled-workflow.service.ts.
use biz_pilot_ai.Prelude.{
  ℕ, suc, ◌≡◌, ◌<◌, ◌∙◌, refl, ap, ◌⊎◌, inl, inr, Bool, true, false, ◌&&◌, ◌==◌, List, [], ◌∷◌,
  ◌++◌, some, or_else, update_many, All, Bool-cases, find_first, arith,
}
use biz_pilot_ai.Effects.{ok}
use biz_pilot_ai.Schedules.{ScheduledWorkflowInput, matches_time}
use biz_pilot_ai.Schedules.Validity.{IsValidSchedule, validate_schedule_input_iff}
use biz_pilot_ai.Schedules.Times.{matches_time-print_time}
use biz_pilot_ai.Schedules.Calendar.{Luxon, IsCalendar, midnight}
use biz_pilot_ai.Schedules.NextRun.{IsTimed, compute_next_run_at_later}
use biz_pilot_ai.Schedules.Rows.{
  ScheduledWorkflow, Schedules, timing_of, new_schedule, has_profile, create_scheduled_workflow,
  has_schedule_id, set_enabled, next_run_when, set_scheduled_workflow_enabled,
}
use biz_pilot_ai.Schedules.Tick.{is_due}

-- A valid input has what the computation of its next run asks for.
timing_of-IsTimed :
    (is_valid_timezone : ℕ → Bool) (input : ScheduledWorkflowInput)
    → IsValidSchedule is_valid_timezone input
    → IsTimed (timing_of input)
unfolding IsValidSchedule IsTimed
timing_of-IsTimed is_valid_timezone input
      (named, (n, value, positive, often), zoned, timed, on_day) =
    (
      rw value positive,
      elim timed [
        | inl short ↦ inl short
        | inr (h, (m, low, high, same)) ↦ inr (
            ap (λ t. matches_time (or_else t midnight)) same ∙ matches_time-print_time h m low high)
      ],
      elim on_day [ inl other ↦ inl other | inr (d, low, same) ↦ inr (rw same low) ],
    )

-- A valid schedule of an active definition, for a profile of the workspace if for one, is created:
-- its row is appended, is enabled, is first due after now, and keeps the form that a tick relies on.
pub create_scheduled_workflow_lem :
    (c : Luxon) (is_valid_timezone : ℕ → Bool) (input : ScheduledWorkflowInput) (now : ℕ)
    (s : Schedules)
    → IsCalendar c
    → IsValidSchedule is_valid_timezone input
    → s.is_active_definition input.workflow_definition_key ≡ true
    → has_profile s input.workspace_id input.business_profile_id ≡ true
    → (row : ScheduledWorkflow) × (create_scheduled_workflow c is_valid_timezone input now s
        ≡ (ok row, record s { rows = s.rows ++ row ∷ []; next_id = suc s.next_id }))
      × (row.enabled ≡ true)
      × (now < row.next_run_at)
      × IsTimed row.timing
unfolding create_scheduled_workflow
create_scheduled_workflow_lem c is_valid_timezone input now s calendar valid active profile =
    let timed = timing_of-IsTimed is_valid_timezone input valid in
    let (next, e, on) = compute_next_run_at_later c calendar (timing_of input) now timed in
    let passes = (validate_schedule_input_iff is_valid_timezone input).1 valid in
    (
      new_schedule s.next_id input next,
      rw (passes, active, profile, e, create_scheduled_workflow) refl,
      refl,
      on,
      timed,
    )

anchored :
    (id next now : ℕ) (rows : List ScheduledWorkflow)
    → now < next
    → All
        (λ r. ((r.id == id) ≡ false) ⊎ (is_due now r ≡ false))
        (update_many (has_schedule_id id) (set_enabled true next) rows)
anchored id next now [] on = tt
anchored id next now (r ∷ rs) on = elim (Bool-cases (has_schedule_id id r)) [
  | inl hit ↦ rw hit (inr (ground (arith, on)), anchored id next now rs on)
  | inr miss ↦ rw miss (inl miss, anchored id next now rs on)
]

-- A schedule of the workspace that is enabled is not due at once, whatever it missed while it was
-- disabled: its next run comes after now.
pub set_scheduled_workflow_enabled_lem :
    (c : Luxon) (w id now : ℕ) (s : Schedules) (existing : ScheduledWorkflow)
    → IsCalendar c
    → find_first (λ r. r.id == id && r.workspace_id == w) s.rows ≡ some existing
    → IsTimed existing.timing
    → (row : ScheduledWorkflow) × ((set_scheduled_workflow_enabled c w id true now s).0 ≡ ok row)
      × (row.enabled ≡ true)
      × (now < row.next_run_at)
      × All
          (λ r. ((r.id == id) ≡ false) ⊎ (is_due now r ≡ false))
          (set_scheduled_workflow_enabled c w id true now s).1.rows
unfolding set_scheduled_workflow_enabled next_run_when
set_scheduled_workflow_enabled_lem c w id now s existing calendar found timed =
    let (next, e, on) = compute_next_run_at_later c calendar existing.timing now timed in
    (
      set_enabled true next existing,
      rw (found, e, set_scheduled_workflow_enabled) refl,
      refl,
      on,
      rw (found, e, set_scheduled_workflow_enabled) (anchored id next now s.rows on),
    )
