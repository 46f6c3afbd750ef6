-- ===== src/Workflows/Steps.antt =====
-- backend/src/modules/workflows/workflow-engine.service.ts: one step with its attempts.
pub mod Stories
pub mod Attempts
use Prim.Native.Nat.{max}
use biz_pilot_ai.Prelude.{
  ℕ, zero, suc, ◌+◌, ◌-◌, Bool, true, false, Option, none, some, List, [], ◌∷◌, ◌++◌, ◌==◌,
  if◌then◌else◌, ◌||◌, ◌&&◌, ltb, find_first, update_many,
}
use biz_pilot_ai.Errors.{Thrown, app, fault, AppError, upstream_provider_error, plain_fault}
use biz_pilot_ai.Effects.{Result, ok, err, M, resume}
use biz_pilot_ai.Workflows.{
  Store, WorkflowStepRun, run_running, run_succeeded, run_failed, run_retrying, WorkflowStepStatus,
  Json, StepContext, StepDefinition, HandlerResult, returned, threw,
}

abbrev pub max_step_attempts : ℕ
max_step_attempts = 3

abbrev pub is_upstream : AppError → Bool
is_upstream upstream_provider_error = true
is_upstream _ = false

-- The message of an `AppError` is the server's own and holds no name of a network failure; its name
-- is its class's.
unfoldable pub is_transient_error : Thrown → Bool
is_transient_error (app e) = is_upstream e
is_transient_error (fault f) = f.named_abort_error || (f.is_error && f.message_matches)

abbrev pub run_of : ℕ → ℕ → WorkflowStepRun → Bool
run_of instance key r = r.workflow_instance_id == instance && r.step_key == key

-- The greatest attempt recorded for the step, or 0.
unfoldable pub last_attempt : ℕ → ℕ → List WorkflowStepRun → ℕ
last_attempt instance key [] = 0
last_attempt instance key (r ∷ rs) =
    let rest = last_attempt instance key rs in
    if run_of instance key r then max r.attempt rest else rest

abbrev pub same_attempt : ℕ → ℕ → ℕ → WorkflowStepRun → Bool
same_attempt instance key attempt r = run_of instance key r && r.attempt == attempt

abbrev pub new_run : ℕ → ℕ → StepDefinition → ℕ → StepContext → ℕ → WorkflowStepRun
new_run id instance step attempt ctx now = record {
  id = id;
  workflow_instance_id = instance;
  step_key = step.key;
  step_order = step.order;
  status = run_running;
  attempt = attempt;
  input = ctx.accumulated;
  output = none;
  error = none;
  started_at = now;
  completed_at = none;
}

-- The insert of a step run, refused by the unique constraint on (workflowInstanceId, stepKey, attempt).
unfoldable pub create_run : ℕ → StepDefinition → ℕ → StepContext → ℕ → M Store ℕ
create_run instance step attempt ctx now s =
    elim (find_first (same_attempt instance step.key attempt) s.step_runs) [
      | some _ ↦ (err plain_fault, s)
      | none ↦ (
        ok s.next_id,
        record s {
          step_runs = s.step_runs ++ new_run s.next_id instance step attempt ctx now ∷ [];
          next_id = s.next_id + 1;
        },
      )
    ]

abbrev pub has_run_id : ℕ → WorkflowStepRun → Bool
has_run_id id r = r.id == id

abbrev pub end_run : ℕ → WorkflowStepStatus → Option Json → Option Thrown → ℕ → Store → Store
end_run id status output error now s = record s {
  step_runs =
      update_many (has_run_id id)
        (λ r. record r { status = status; output = output; error = error; completed_at = some now })
        s.step_runs;
}

pub data StepResult : Type 0 where
  succeeded : (output : Json) (requires_approval : Bool) → StepResult
  gave_up : Thrown → StepResult

-- The status of an attempt that threw: `localAttempt < MAX_STEP_ATTEMPTS` and transient, or not.
abbrev pub failure_status : Thrown → ℕ → WorkflowStepStatus
failure_status e remaining =
    if is_transient_error e && ltb 0 remaining then run_retrying else run_failed

-- What follows the handler: `again` is the rest of the loop, given the last error.
abbrev pub after_handler :
    HandlerResult → ℕ → ℕ → ℕ → (Thrown → M Store StepResult) → M Store StepResult
after_handler (returned output approval) run remaining now again s =
    (ok (succeeded output approval), end_run run run_succeeded (some output) none now s)
after_handler (threw e) run remaining now again s =
    let s' = end_run run (failure_status e remaining) none (some e) now s in
    let retried = again e s' in if is_transient_error e then retried else (ok (gave_up e), s')

-- The loop with so many attempts left, from the given attempt number on.
unfoldable pub attempts_from :
    ℕ → ℕ → ℕ → StepDefinition → StepContext → ℕ → Thrown → M Store StepResult
unfolding create_run
attempts_from zero attempt instance step ctx now last s = (ok (gave_up last), s)
attempts_from (suc remaining) attempt instance step ctx now last s =
    let again = λ (e : Thrown). attempts_from remaining (attempt + 1) instance step ctx now e in
    resume (create_run instance step attempt ctx now s)
      (λ run. after_handler (step.handler ctx attempt) run remaining now again)

-- `lastError` is undefined before the first attempt, which always runs.
unfoldable pub run_step_with_retry : ℕ → StepDefinition → StepContext → ℕ → M Store StepResult
unfolding attempts_from
run_step_with_retry instance step ctx now s =
    attempts_from max_step_attempts (last_attempt instance step.key s.step_runs + 1) instance step
      ctx now plain_fault s
