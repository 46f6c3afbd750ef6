-- ===== src/Workflows/Commands.antt =====
-- backend/src/modules/workflows/workflow-engine.service.ts: what a request or a schedule asks of the
-- engine.
pub mod Resumption
pub mod Decisions
pub mod Retrying
use biz_pilot_ai.Prelude.{
  ℕ, suc, ◌+◌, ◌-◌, Bool, true, false, Option, none, some, List, [], ◌∷◌, ◌++◌, ◌==◌, if◌then◌else◌,
  ◌&&◌, ltb, leb, opt_eq, find_first, update_many, count, get_elem?,
}
use biz_pilot_ai.Errors.{plain_fault, app, not_found_error, invalid_state_transition_error}
use biz_pilot_ai.Effects.{Result, ok, err, M, resume, ◌>>=◌, ◌>>◌, modify}
use biz_pilot_ai.Notifications.{workflow_retrying}
use biz_pilot_ai.ProductEvents.{has_workspace_event, workflow_created, first_workflow_started}
use biz_pilot_ai.Onboarding.{Desk}
use biz_pilot_ai.Workflows.{
  WorkflowInstanceStatus, pending, running, awaiting_approval, failed, retrying, cancelled,
  status_eq, JsonObject, WorkflowInstance, WorkflowStepRun, WorkflowOutcomeSignal, undecided,
  accepted, dismissed, Store, StepDefinition, Registry, WorkflowDefinition,
}
use biz_pilot_ai.Workflows.Engine.{
  has_id, on_desk, notify, track, find_index, insert_run, steps_of, run_to_next_gate,
}

pub record StartParams : Type 0 where
  pub workspace_id : ℕ
  pub workflow_definition_key : ℕ
  pub business_profile_id : Option ℕ
  pub triggered_by_user_id : Option ℕ
  pub input : JsonObject
  pub idempotency_key : Option ℕ

-- `findFirst` of the usable definitions with the key, the greatest version first.
abbrev pub newer : WorkflowDefinition → Option WorkflowDefinition → WorkflowDefinition
newer d none = d
newer d (some e) = if leb e.version d.version then d else e

abbrev pub latest_definition : ℕ → List WorkflowDefinition → Option WorkflowDefinition
latest_definition key [] = none
latest_definition key (d ∷ ds) =
    let later = latest_definition key ds in
    if d.usable && d.key == key then some (newer d later) else later

abbrev pub keyed : ℕ → ℕ → ℕ → WorkflowInstance → Bool
keyed workspace definition key i =
    i.workspace_id == workspace
    && (i.workflow_definition_id == definition && opt_eq i.idempotency_key key)

-- The instance with the request's idempotency key, if the request has one.
abbrev pub find_keyed : ℕ → ℕ → Option ℕ → List WorkflowInstance → Option WorkflowInstance
find_keyed workspace definition none is = none
find_keyed workspace definition (some key) is = find_first (keyed workspace definition key) is

abbrev pub new_instance : ℕ → ℕ → StartParams → WorkflowInstance
new_instance id definition params = record {
  id = id;
  workspace_id = params.workspace_id;
  workflow_definition_id = definition;
  business_profile_id = params.business_profile_id;
  triggered_by_user_id = params.triggered_by_user_id;
  status = pending;
  outcome_signal = undecided;
  idempotency_key = params.idempotency_key;
  current_step_key = none;
  input = params.input;
  output = none;
  error = none;
  started_at = none;
  completed_at = none;
}

abbrev pub insert_instance : ℕ → StartParams → Store → Store
insert_instance definition params s = record s {
  instances = s.instances ++ new_instance s.next_id definition params ∷ [];
  next_id = s.next_id + 1;
}

abbrev pub track_start_first : Bool → WorkflowInstance → Desk → Desk
track_start_first true i d = d
track_start_first false i d = track first_workflow_started i d

abbrev pub track_start : WorkflowInstance → Desk → Desk
track_start i d =
    let d' = track workflow_created i d in
    track_start_first (has_workspace_event i.workspace_id first_workflow_started d'.events) i d'

-- The insert, refused by the unique constraint on (workspaceId, workflowDefinitionId,
-- idempotencyKey): the loser of a race returns the winner's row.
abbrev pub create_or_join :
    Registry → (Store → Store) → ℕ → ℕ → StartParams → M Store WorkflowInstance
create_or_join registry before_claim now definition params s =
    elim (find_keyed params.workspace_id definition params.idempotency_key s.instances) [
      | some existing ↦ (ok existing, s)
      | none ↦
          let s' = insert_instance definition params s in
          let i = new_instance s.next_id definition params in
          run_to_next_gate registry before_claim now i.id
            (record s' { desk = track_start i s'.desk })
    ]

abbrev pub join_or_create :
    Registry → (Store → Store) → (Store → Store) → ℕ → ℕ → StartParams → M Store WorkflowInstance
join_or_create registry before_insert before_claim now definition params s =
    elim (find_keyed params.workspace_id definition params.idempotency_key s.instances) [
      | some existing ↦
          if status_eq existing.status pending
          then run_to_next_gate registry before_claim now existing.id s
          else (ok existing, s)
      | none ↦ create_or_join registry before_claim now definition params (before_insert s)
    ]

unfoldable pub start_workflow :
    Registry → (Store → Store) → (Store → Store) → ℕ → StartParams → M Store WorkflowInstance
start_workflow registry before_insert before_claim now params s =
    elim (latest_definition params.workflow_definition_key s.definitions) [
      | none ↦ (err (app not_found_error), s)
      | some d ↦ join_or_create registry before_insert before_claim now d.id params s
    ]

abbrev pub in_tenant : ℕ → ℕ → WorkflowInstance → Bool
in_tenant workspace id i = i.id == id && i.workspace_id == workspace

-- `orderBy: { stepOrder: 'asc' }`.
abbrev pub runs_of : ℕ → List WorkflowStepRun → List WorkflowStepRun
runs_of i [] = []
runs_of i (r ∷ rs) =
    let later = runs_of i rs in if r.workflow_instance_id == i then insert_run r later else later

-- The instance with its step runs; its content assets are left out.
unfoldable pub get_instance_with_detail : ℕ → ℕ → M Store (WorkflowInstance × List WorkflowStepRun)
get_instance_with_detail workspace id s = elim (find_first (in_tenant workspace id) s.instances) [
  | none ↦ (err (app not_found_error), s)
  | some i ↦ (ok (i, runs_of i.id s.step_runs), s)
]

abbrev pub decision_row : ℕ → ℕ → WorkflowInstanceStatus → WorkflowInstance → Bool
decision_row workspace id from i =
    i.id == id && (i.workspace_id == workspace && status_eq i.status from)

-- A conditional transition of one tenant's instance: an error unless a row changed.
abbrev pub claim_transition :
    ℕ → ℕ → WorkflowInstanceStatus → (WorkflowInstance → WorkflowInstance) → M Store (Unit {0})
claim_transition workspace id from f s =
    let claimed = count (decision_row workspace id from) s.instances in
    if claimed == 0 then (err (app invalid_state_transition_error), s) else (
      ok tt,
      record s { instances = update_many (decision_row workspace id from) f s.instances },
    )

unfoldable pub find_in_tenant : ℕ → ℕ → M Store WorkflowInstance
find_in_tenant workspace id s = elim (find_first (in_tenant workspace id) s.instances) [
  | none ↦ (err (app not_found_error), s)
  | some i ↦ (ok i, s)
]

abbrev pub approve_row : WorkflowInstance → WorkflowInstance
approve_row i = record i { status = running; outcome_signal = accepted }

abbrev pub reject_row : WorkflowInstance → WorkflowInstance
reject_row i = record i { status = cancelled; outcome_signal = dismissed }

unfoldable pub approve_instance :
    Registry → (Store → Store) → ℕ → ℕ → ℕ → M Store (WorkflowInstance × List WorkflowStepRun)
approve_instance registry before_claim now workspace id = do
  existing ← find_in_tenant workspace id
  claim_transition workspace id awaiting_approval approve_row
  i ← run_to_next_gate registry before_claim now id
  get_instance_with_detail workspace id

unfoldable pub reject_instance : ℕ → ℕ → M Store (WorkflowInstance × List WorkflowStepRun)
reject_instance workspace id = do
  existing ← find_in_tenant workspace id
  claim_transition workspace id awaiting_approval reject_row
  get_instance_with_detail workspace id

-- The key of the step before the one with this index.
abbrev pub key_before : Option ℕ → List StepDefinition → Option ℕ
key_before none steps = none
key_before (some i) steps =
    if ltb 0 i
    then elim (get_elem? steps (i - 1)) as (λ _. Option ℕ) [ none ↦ none | some s ↦ some s.key ]
    else none

abbrev pub failed_index : Option ℕ → List StepDefinition → Option ℕ
failed_index none steps = none
failed_index (some key) steps = find_index key steps

-- `rewindToStepKey`: the step before the failed one.
unfoldable pub rewind_key : Option ℕ → List StepDefinition → Option ℕ
rewind_key current steps = key_before (failed_index current steps) steps

abbrev pub audit_retry : ℕ → ℕ → WorkflowInstance → ℕ → Store → Store
audit_retry workspace actor existing reason s = record s {
  audit_logs =
      s.audit_logs
      ++ record {
        workspace_id = workspace;
        actor_user_id = actor;
        entity_id = existing.id;
        previous_step_key = existing.current_step_key;
        reason = reason;
      }
        ∷ [];
}

abbrev pub resume_retrying : ℕ → ℕ → Store → Store
resume_retrying workspace id s = record s {
  instances =
      update_many (decision_row workspace id retrying) (λ i. record i { status = running })
        s.instances;
}

unfoldable pub retry_instance :
    Registry
    → (Store → Store)
    → ℕ
    → ℕ
    → ℕ
    → ℕ
    → ℕ
    → M Store (WorkflowInstance × List WorkflowStepRun)
unfolding rewind_key
retry_instance registry before_claim now workspace id actor reason = do
  existing ← find_in_tenant workspace id
  steps ← steps_of registry existing.workflow_definition_id
  claim_transition workspace id failed (λ i. record i {
    status = retrying;
    current_step_key = rewind_key existing.current_step_key steps;
  })
  modify (audit_retry workspace actor existing reason)
  on_desk (notify workflow_retrying now existing existing.triggered_by_user_id)
  modify (resume_retrying workspace id)
  i ← run_to_next_gate registry before_claim now id
  get_instance_with_detail workspace id
