-- ===== src/Workflows/Engine.antt =====
-- backend/src/modules/workflows/workflow-engine.service.ts: an instance run up to its next gate.
-- What other requests commit between a read and the write that depends on it is a function on the
-- store, so that the write meets whatever they left.
pub mod Instances
pub mod Gates
pub mod Entry
use biz_pilot_ai.Prelude.{
  ℕ, suc, ◌+◌, Bool, true, false, Option, none, some, List, [], ◌∷◌, ◌++◌, ◌==◌, if◌then◌else◌,
  ◌&&◌, ltb, leb, find_first, update_many, count, drop, or_else,
}
use biz_pilot_ai.Errors.{plain_fault, Thrown}
use biz_pilot_ai.Effects.{Result, ok, err, M, resume, ◌>>=◌, ◌>>◌, pure, throw, get, modify}
use biz_pilot_ai.Notifications.{
  NotificationType, workflow_completed, workflow_failed, create_notification,
}
use biz_pilot_ai.ProductEvents as Events
use biz_pilot_ai.ProductEvents.{
  ProductEventName, track_event, has_workspace_event, first_workflow_completed,
}
use biz_pilot_ai.Onboarding.{Desk, advance_onboarding_step, OnboardingStep}
use biz_pilot_ai.Workflows.{
  WorkflowInstanceStatus, pending, running, awaiting_approval, failed, completed, status_eq,
  assert_transition, Json, JsonObject, put, WorkflowInstance, WorkflowStepRun, WorkflowStepStatus,
  run_succeeded, Store, StepContext, StepDefinition, Registry, get_workflow_steps,
  WorkflowDefinition,
}
use biz_pilot_ai.Workflows.Steps.{StepResult, succeeded, gave_up, run_step_with_retry}

abbrev pub lift : {S A : Type 0} → Result A → M S A
lift r s = (r, s)

abbrev pub has_id : ℕ → WorkflowInstance → Bool
has_id id i = i.id == id

unfoldable pub find_instance : ℕ → M Store WorkflowInstance
find_instance id s = elim (find_first (has_id id) s.instances) [
  | none ↦ (err plain_fault, s)
  | some i ↦ (ok i, s)
]

-- `update` by identifier: an error where there is no such row, and else the new row.
unfoldable pub update_instance :
    ℕ → (WorkflowInstance → WorkflowInstance) → M Store WorkflowInstance
update_instance id f s = elim (find_first (has_id id) s.instances) [
  | none ↦ (err plain_fault, s)
  | some i ↦ (ok (f i), record s { instances = update_many (has_id id) f s.instances })
]

abbrev pub on_desk : (Desk → Desk) → M Store (Unit {0})
on_desk f s = (ok tt, record s { desk = f s.desk })

abbrev pub with_desk : {A : Type 0} → Store → Result A × Desk → Result A × Store
with_desk s (r, d) = (r, record s { desk = d })

abbrev pub at_desk : {A : Type 0} → M Desk A → M Store A
at_desk m s = with_desk s (m s.desk)

-- A notification to the user who triggered the run, if there is one.
abbrev pub notify : NotificationType → ℕ → WorkflowInstance → Option ℕ → Desk → Desk
notify type now i none d = d
notify type now i (some user) d = record d {
  mailbox =
      (create_notification
        (record {
          workspace_id = some i.workspace_id;
          recipient_user_id = user;
          type = type;
          related_entity_id = some (i.id ∷ []);
        })
        now d.mailbox).1;
}

abbrev pub track : ProductEventName → WorkflowInstance → Desk → Desk
track name i d = record d { events = track_event i.workspace_id name d.events }

abbrev pub track_first : Bool → WorkflowInstance → Desk → Desk
track_first true i d = d
track_first false i d = track first_workflow_completed i d

abbrev pub track_completion : WorkflowInstance → Desk → Desk
track_completion i d =
    track_first (has_workspace_event i.workspace_id first_workflow_completed d.events) i
      (track Events.workflow_completed i d)

abbrev pub onboard : ℕ → WorkflowInstance → Option ℕ → M Store (Unit {0})
onboard now i none = pure tt
onboard now i (some user) = do
  first ←
      at_desk (advance_onboarding_step i.workspace_id OnboardingStep.first_workflow_run user now)
  last ← at_desk (advance_onboarding_step i.workspace_id OnboardingStep.completed user now)
  pure tt

-- The end of a run whose steps have all succeeded.
unfoldable pub complete_instance : ℕ → JsonObject → WorkflowInstance → M Store WorkflowInstance
complete_instance now accumulated i = do
  lift (assert_transition i.status completed)
  done ←
      update_instance i.id
        (λ r. record r { status = completed; completed_at = some now; output = some accumulated })
  on_desk (track_completion done)
  on_desk (notify workflow_completed now done done.triggered_by_user_id)
  onboard now done done.triggered_by_user_id
  pure done

unfoldable pub fail_instance : ℕ → ℕ → Thrown → WorkflowInstance → M Store WorkflowInstance
fail_instance now key e i = do
  done ←
      update_instance i.id
        (λ r. record r { status = failed; current_step_key = some key; error = some (key, e) })
  on_desk (notify workflow_failed now done done.triggered_by_user_id)
  pure done

unfoldable pub pause_instance : WorkflowInstance → M Store WorkflowInstance
pause_instance i = do
  lift (assert_transition i.status awaiting_approval)
  update_instance i.id (λ r. record r { status = awaiting_approval })

abbrev pub context : WorkflowInstance → JsonObject → StepContext
context i accumulated = record {
  workspace_id = i.workspace_id;
  workflow_instance_id = i.id;
  business_profile_id = i.business_profile_id;
  triggered_by_user_id = i.triggered_by_user_id;
  accumulated = accumulated;
}

-- What follows a step; `continue` is the rest of the loop.
abbrev pub after_step :
    StepResult
    → StepDefinition
    → ℕ
    → JsonObject
    → WorkflowInstance
    → (JsonObject → WorkflowInstance → M Store WorkflowInstance)
    → M Store WorkflowInstance
after_step (gave_up e) step now accumulated i continue = fail_instance now step.key e i
after_step (succeeded output approval) step now accumulated i continue = do
  i' ← update_instance i.id (λ r. record r { current_step_key = some step.key })
  let onwards = continue (put step.key output accumulated) i'
  if approval then pause_instance i' else onwards

unfoldable pub run_steps :
    List StepDefinition → ℕ → JsonObject → WorkflowInstance → M Store WorkflowInstance
run_steps [] now accumulated i s = complete_instance now accumulated i s
run_steps (step ∷ steps) now accumulated i s =
    let continue = λ (o : JsonObject) (j : WorkflowInstance). run_steps steps now o j in
    resume (run_step_with_retry i.id step (context i accumulated) now s)
      (λ result. after_step result step now accumulated i continue)

-- `findIndex`, with `none` for -1.
abbrev pub find_index : ℕ → List StepDefinition → Option ℕ
find_index key [] = none
find_index key (s ∷ ss) =
    let later = elim (find_index key ss) as (λ _. Option ℕ) [
      | none ↦ none
      | some i ↦ some (i + 1)
    ] in
    if s.key == key then some 0 else later

abbrev pub index_after : Option ℕ → ℕ
index_after none = 0
index_after (some i) = i + 1

unfoldable pub start_index : Option ℕ → List StepDefinition → ℕ
start_index none steps = 0
start_index (some key) steps = index_after (find_index key steps)

abbrev pub is_success : WorkflowStepStatus → Bool
is_success run_succeeded = true
is_success _ = false

abbrev pub prior_run : ℕ → WorkflowStepRun → Bool
prior_run id r = r.workflow_instance_id == id && is_success r.status

-- Sorted by `stepOrder`; the output of a succeeded run is never null.
abbrev pub insert_run : WorkflowStepRun → List WorkflowStepRun → List WorkflowStepRun
insert_run r [] = r ∷ []
insert_run r (x ∷ xs) =
    let later = insert_run r xs in if leb r.step_order x.step_order then r ∷ x ∷ xs else x ∷ later

abbrev pub prior_runs : ℕ → List WorkflowStepRun → List WorkflowStepRun
prior_runs id [] = []
prior_runs id (r ∷ rs) =
    let later = prior_runs id rs in if prior_run id r then insert_run r later else later

abbrev pub rehydrate : JsonObject → List WorkflowStepRun → JsonObject
rehydrate o [] = o
rehydrate o (r ∷ rs) = rehydrate (put r.step_key (or_else r.output 0) o) rs

abbrev pub is_running : WorkflowInstanceStatus → Bool
is_running running = true
is_running _ = false

-- The loop from the step after the current one; an instance that is not running is left alone.
unfoldable pub advance_instance :
    List StepDefinition → ℕ → WorkflowInstance → M Store WorkflowInstance
advance_instance steps now i s =
    let onwards =
      run_steps (drop (start_index i.current_step_key steps) steps) now
        (rehydrate i.input (prior_runs i.id s.step_runs)) i s in
    if is_running i.status then onwards else (ok i, s)

abbrev pub pending_row : ℕ → WorkflowInstance → Bool
pending_row id i = i.id == id && status_eq i.status pending

abbrev pub claim_pending : ℕ → ℕ → Store → Store
claim_pending now id s = record s {
  instances =
      update_many (pending_row id) (λ i. record i { status = running; started_at = some now })
        s.instances;
}

-- Only the caller whose conditional write changed the row goes on.
abbrev pub after_claim : List StepDefinition → ℕ → ℕ → WorkflowInstance → M Store WorkflowInstance
after_claim steps now changed i s =
    let onwards = advance_instance steps now i s in if changed == 1 then onwards else (ok i, s)

abbrev pub enter :
    (Store → Store)
    → List StepDefinition
    → ℕ
    → WorkflowInstanceStatus
    → WorkflowInstance
    → M Store WorkflowInstance
enter meanwhile steps now pending i s =
    let s' = meanwhile s in
    resume (find_instance i.id (claim_pending now i.id s'))
      (after_claim steps now (count (pending_row i.id) s'.instances))
enter meanwhile steps now _ i s = advance_instance steps now i s

abbrev pub has_definition_id : ℕ → WorkflowDefinition → Bool
has_definition_id id d = d.id == id

unfoldable pub steps_of : Registry → ℕ → M Store (List StepDefinition)
steps_of registry id s = elim (find_first (has_definition_id id) s.definitions) [
  | none ↦ (err plain_fault, s)
  | some d ↦ elim (get_workflow_steps d.key registry) [
    | none ↦ (err plain_fault, s)
    | some steps ↦ (ok steps, s)
  ]
]

unfoldable pub run_to_next_gate : Registry → (Store → Store) → ℕ → ℕ → M Store WorkflowInstance
run_to_next_gate registry meanwhile now id = do
  i ← find_instance id
  steps ← steps_of registry i.workflow_definition_id
  enter meanwhile steps now i.status i
