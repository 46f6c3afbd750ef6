-- ===== src/Workflows.antt =====
-- backend/src/modules/workflows/: the rows of the workflow engine and its state machine.
pub mod Steps
pub mod Engine
pub mod Commands
use biz_pilot_ai.Prelude.{
  ℕ, suc, Bool, true, false, Option, none, some, List, [], ◌∷◌, ◌==◌, if◌then◌else◌, ◌||◌, leb,
}
use biz_pilot_ai.Errors.{Thrown, app, invalid_state_transition_error}
use biz_pilot_ai.Effects.{Result, ok, err}
use biz_pilot_ai.Onboarding.{Desk}

pub data WorkflowInstanceStatus : Type 0 where
  pending running awaiting_approval failed retrying completed cancelled : WorkflowInstanceStatus

abbrev pub status_index : WorkflowInstanceStatus → ℕ
status_index pending = 0
status_index running = 1
status_index awaiting_approval = 2
status_index failed = 3
status_index retrying = 4
status_index completed = 5
status_index cancelled = 6

abbrev pub status_eq : WorkflowInstanceStatus → WorkflowInstanceStatus → Bool
status_eq s t = status_index s == status_index t

abbrev pub valid_transitions : WorkflowInstanceStatus → List WorkflowInstanceStatus
valid_transitions pending = running ∷ cancelled ∷ []
valid_transitions running = running ∷ awaiting_approval ∷ completed ∷ failed ∷ []
valid_transitions awaiting_approval = running ∷ cancelled ∷ []
valid_transitions failed = retrying ∷ cancelled ∷ []
valid_transitions retrying = running ∷ failed ∷ []
valid_transitions completed = []
valid_transitions cancelled = []

abbrev pub includes : List WorkflowInstanceStatus → WorkflowInstanceStatus → Bool
includes [] t = false
includes (s ∷ ss) t = status_eq s t || includes ss t

unfoldable pub assert_transition :
    WorkflowInstanceStatus → WorkflowInstanceStatus → Result (Unit {0})
assert_transition from to =
    if status_eq from to
    then ok tt
    else if includes (valid_transitions from) to
    then ok tt
    else err (app invalid_state_transition_error)

-- A JSON value, which the engine only stores and passes on, and a JSON object.
abbrev pub Json : Type 0
Json = ℕ

abbrev pub JsonObject : Type 0
JsonObject = List (ℕ × Json)

-- `o[key] = value`.
abbrev pub put : ℕ → Json → JsonObject → JsonObject
put key value [] = (key, value) ∷ []
put key value ((k, v) ∷ o) =
    let rest = put key value o in if k == key then (key, value) ∷ o else (k, v) ∷ rest

abbrev pub lookup : ℕ → JsonObject → Option Json
lookup key [] = none
lookup key ((k, v) ∷ o) = let rest = lookup key o in if k == key then some v else rest

pub data WorkflowOutcomeSignal : Type 0 where
  undecided accepted dismissed : WorkflowOutcomeSignal

-- `error` is the key of the failed step with what its handler threw.
pub record WorkflowInstance : Type 0 where
  pub id : ℕ
  pub workspace_id : ℕ
  pub workflow_definition_id : ℕ
  pub business_profile_id : Option ℕ
  pub triggered_by_user_id : Option ℕ
  pub status : WorkflowInstanceStatus
  pub outcome_signal : WorkflowOutcomeSignal
  pub idempotency_key : Option ℕ
  pub current_step_key : Option ℕ
  pub input : JsonObject
  pub output : Option JsonObject
  pub error : Option (ℕ × Thrown)
  pub started_at : Option ℕ
  pub completed_at : Option ℕ

pub data WorkflowStepStatus : Type 0 where
  run_running run_succeeded run_failed run_retrying : WorkflowStepStatus

pub record WorkflowStepRun : Type 0 where
  pub id : ℕ
  pub workflow_instance_id : ℕ
  pub step_key : ℕ
  pub step_order : ℕ
  pub status : WorkflowStepStatus
  pub attempt : ℕ
  pub input : JsonObject
  pub output : Option Json
  pub error : Option Thrown
  pub started_at : ℕ
  pub completed_at : Option ℕ

-- A system-wide definition (`workspaceId` null); `usable` says ACTIVE and not deleted.
pub record WorkflowDefinition : Type 0 where
  pub id : ℕ
  pub key : ℕ
  pub version : ℕ
  pub usable : Bool

pub record AuditLog : Type 0 where
  pub workspace_id : ℕ
  pub actor_user_id : ℕ
  pub entity_id : ℕ
  pub previous_step_key : Option ℕ
  pub reason : ℕ

-- The tables that the engine touches. Its metrics counters are left out.
pub record Store : Type 0 where
  pub instances : List WorkflowInstance
  pub step_runs : List WorkflowStepRun
  pub definitions : List WorkflowDefinition
  pub audit_logs : List AuditLog
  pub desk : Desk
  pub next_id : ℕ

pub record StepContext : Type 0 where
  pub workspace_id : ℕ
  pub workflow_instance_id : ℕ
  pub business_profile_id : Option ℕ
  pub triggered_by_user_id : Option ℕ
  pub accumulated : JsonObject

pub data HandlerResult : Type 0 where
  returned : (output : Json) (requires_approval : Bool) → HandlerResult
  threw : Thrown → HandlerResult

-- A handler never touches the rows of the engine. What else it depends on changes between attempts,
-- so it is given the attempt's number.
abbrev pub StepHandler : Type 0
StepHandler = StepContext → ℕ → HandlerResult

pub record StepDefinition : Type 0 where
  pub key : ℕ
  pub order : ℕ
  pub handler : StepHandler

abbrev pub Registry : Type 0
Registry = List (ℕ × List StepDefinition)

-- `sort` by order, which is stable.
abbrev pub insert_step : StepDefinition → List StepDefinition → List StepDefinition
insert_step s [] = s ∷ []
insert_step s (t ∷ ts) =
    let rest = insert_step s ts in if leb s.order t.order then s ∷ t ∷ ts else t ∷ rest

abbrev pub sort_steps : List StepDefinition → List StepDefinition
sort_steps [] = []
sort_steps (s ∷ ss) = insert_step s (sort_steps ss)

unfoldable pub register_workflow_steps : ℕ → List StepDefinition → Registry → Registry
register_workflow_steps key steps [] = (key, sort_steps steps) ∷ []
register_workflow_steps key steps ((k, old) ∷ r) =
    let rest = register_workflow_steps key steps r in
    if k == key then (key, sort_steps steps) ∷ r else (k, old) ∷ rest

-- `none` stands for the plain error that `getWorkflowSteps` throws.
unfoldable pub get_workflow_steps : ℕ → Registry → Option (List StepDefinition)
get_workflow_steps key [] = none
get_workflow_steps key ((k, steps) ∷ r) =
    let rest = get_workflow_steps key r in if k == key then some steps else rest
