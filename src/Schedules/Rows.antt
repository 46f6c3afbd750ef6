-- ===== src/Schedules/Rows.antt =====
-- Rows of schedules: the operations of backend/src/modules/scheduler/scheduled-workflow.service.ts.
-- What the code reads of definitions and business profiles are functions.
use biz_pilot_ai.Prelude.{
  ℕ, suc, Bool, true, false, ◌&&◌, ◌==◌, List, [], ◌∷◌, ◌++◌, Option, none, some, or_else, Text,
  pos, negsuc, find_first, update_many,
}
use biz_pilot_ai.Errors.{app, validation_error, not_found_error}
use biz_pilot_ai.Effects.{Result, ok, err, M}
use biz_pilot_ai.Schedules.{
  ScheduledWorkflowInput, Number, whole, between, utc, validate_schedule_input,
}
use biz_pilot_ai.Schedules.Calendar.{Luxon, Timing, compute_next_run_at}

pub data RunStatus : Type 0 where
  enqueued : RunStatus

-- `input` is a value that is only stored, and is left out.
pub record ScheduledWorkflow : Type 0 where
  pub id : ℕ
  pub workspace_id : ℕ
  pub workflow_definition_key : ℕ
  pub business_profile_id : Option ℕ
  pub created_by_user_id : Option ℕ
  pub name : Text
  pub timing : Timing
  pub enabled : Bool
  pub next_run_at : ℕ
  pub last_run_at : Option ℕ
  pub last_run_status : Option RunStatus

pub record Schedules : Type 0 where
  pub rows : List ScheduledWorkflow
  pub next_id : ℕ
  pub is_active_definition : ℕ → Bool
  pub is_profile_of : ℕ → ℕ → Bool

-- A number that validation has let pass.
abbrev pub natural : Number → ℕ
natural (whole (pos n)) = n
natural (whole (negsuc n)) = 0
natural (between z) = 0

abbrev pub timing_of : ScheduledWorkflowInput → Timing
timing_of input = record {
  interval_unit = input.interval_unit;
  interval_value = natural (or_else input.interval_value (whole (pos 1)));
  time_of_day = input.time_of_day;
  day_of_week = elim input.day_of_week [ none ↦ none | some d ↦ some (natural d) ];
  timezone = or_else input.timezone utc;
}

abbrev pub new_schedule : ℕ → ScheduledWorkflowInput → ℕ → ScheduledWorkflow
new_schedule id input next = record {
  id = id;
  workspace_id = input.workspace_id;
  workflow_definition_key = input.workflow_definition_key;
  business_profile_id = input.business_profile_id;
  created_by_user_id = input.created_by_user_id;
  name = input.name;
  timing = timing_of input;
  enabled = true;
  next_run_at = next;
  last_run_at = none;
  last_run_status = none;
}

abbrev pub has_profile : Schedules → ℕ → Option ℕ → Bool
has_profile s w none = true
has_profile s w (some profile) = s.is_profile_of w profile

module _ (c : Luxon) (is_valid_timezone : ℕ → Bool) where
  unfoldable pub create_scheduled_workflow :
      ScheduledWorkflowInput → ℕ → M Schedules ScheduledWorkflow
  unfolding validate_schedule_input compute_next_run_at
  create_scheduled_workflow input now s = elim (validate_schedule_input is_valid_timezone input) [
    | err e ↦ (err e, s)
    | ok _ ↦ elim (s.is_active_definition input.workflow_definition_key) [
      | false ↦ (err (app validation_error), s)
      | true ↦ elim (has_profile s input.workspace_id input.business_profile_id) [
        | false ↦ (err (app validation_error), s)
        | true ↦ elim (compute_next_run_at c (timing_of input) now) [
          | err e ↦ (err e, s)
          | ok next ↦
              let row = new_schedule s.next_id input next in
              (ok row, record s { rows = s.rows ++ row ∷ []; next_id = suc s.next_id })
        ]
      ]
    ]
  ]

abbrev pub has_schedule_id : ℕ → ScheduledWorkflow → Bool
has_schedule_id id r = r.id == id

abbrev pub set_enabled : Bool → ℕ → ScheduledWorkflow → ScheduledWorkflow
set_enabled enabled next r = record r { enabled = enabled; next_run_at = next }

-- A schedule that is enabled runs next after now, not at what it missed.
unfoldable pub next_run_when : Luxon → Bool → ℕ → ScheduledWorkflow → Result ℕ
unfolding compute_next_run_at
next_run_when c true now existing = compute_next_run_at c existing.timing now
next_run_when c false now existing = ok existing.next_run_at

unfoldable pub set_scheduled_workflow_enabled :
    Luxon → ℕ → ℕ → Bool → ℕ → M Schedules ScheduledWorkflow
unfolding next_run_when
set_scheduled_workflow_enabled c w id enabled now s =
    elim (find_first (λ r. r.id == id && r.workspace_id == w) s.rows) [
      | none ↦ (err (app not_found_error), s)
      | some existing ↦ elim (next_run_when c enabled now existing) [
        | err e ↦ (err e, s)
        | ok next ↦ (
          ok (set_enabled enabled next existing),
          record s { rows = update_many (has_schedule_id id) (set_enabled enabled next) s.rows },
        )
      ]
    ]
