-- ===== src/Examples/Runs.antt =====
-- Concrete runs of backend/src/modules/workflows/workflow-engine.service.ts.
use biz_pilot_ai.Prelude.{
  find_first, false, ℕ, ◌+◌, ◌≡◌, ◌==◌, if◌then◌else◌, refl, true, none, some, List, [], ◌∷◌, arith,
}
use biz_pilot_ai.Errors.{
  app, not_found_error, invalid_state_transition_error, upstream_provider_error, conflict_error,
}
use biz_pilot_ai.Effects.{Result, ok, err, resume}
use biz_pilot_ai.Workflows.{
  WorkflowInstance, WorkflowStepRun, pending, running, failed, awaiting_approval, undecided,
  cancelled, dismissed, Store, StepContext, HandlerResult, returned, threw, StepDefinition,
  Registry, get_workflow_steps,
}
use biz_pilot_ai.Workflows.Steps.{StepResult, last_attempt, run_step_with_retry}
use biz_pilot_ai.Workflows.Steps.Stories.{Story, grown}
use biz_pilot_ai.Workflows.Steps.Attempts.{run_step_with_retry_lem}
use mathlib.Core.List.{Memᴰ}
use biz_pilot_ai.Workflows.Engine.{has_id, run_steps, run_to_next_gate, steps_of, claim_pending}
use biz_pilot_ai.Workflows.Engine.Gates.{IsCarriedOut, run_steps-IsCarriedOut}
use biz_pilot_ai.Workflows.Engine.Entry.{RunsOn, claimed_row, run_to_next_gate_lem, lost_claim}
use biz_pilot_ai.Workflows.Commands.{
  approve_instance, reject_instance, retry_instance, get_instance_with_detail, runs_of,
}
use biz_pilot_ai.Workflows.Commands.Retrying.{retry_instance_resumes}
use biz_pilot_ai.Workflows.Engine.Instances.{IsStored}
use biz_pilot_ai.Workflows.Commands.Decisions.{
  other_tenant_refused, decision_conflict, reject_instance_once,
}

-- Fails once with an error of the AI provider, then returns a draft that a person must approve.
abbrev draft_handler : StepContext → ℕ → HandlerResult
draft_handler ctx attempt =
    if attempt == 1 then threw (app upstream_provider_error) else returned 50 true

abbrev draft : StepDefinition
draft = record { key = 1; order = 1; handler = draft_handler }

abbrev publish : StepDefinition
publish = record {
  key = 2;
  order = 2;
  handler = λ ctx attempt. threw (app (conflict_error "PUBLISHED"));
}

abbrev both_steps : List StepDefinition
both_steps = draft ∷ publish ∷ []

abbrev campaign : WorkflowInstance
campaign = record {
  id = 3;
  workspace_id = 10;
  workflow_definition_id = 20;
  business_profile_id = none;
  triggered_by_user_id = some 30;
  status = pending;
  outcome_signal = undecided;
  idempotency_key = none;
  current_step_key = none;
  input = [];
  output = none;
  error = none;
  started_at = none;
  completed_at = none;
}

abbrev going_campaign : WorkflowInstance
going_campaign = record campaign { status = running }

abbrev waiting_campaign : WorkflowInstance
waiting_campaign = record campaign { status = awaiting_approval; current_step_key = some 1 }

abbrev store_with : WorkflowInstance → Store
store_with i = record {
  instances = i ∷ [];
  step_runs = [];
  definitions = record { id = 20; key = 21; version = 1; usable = true } ∷ [];
  audit_logs = [];
  desk = record {
    settings = [];
    workspaces = [];
    mailbox = record { rows = []; next_id = 1 };
    events = [];
  };
  next_id = 4;
}

abbrev registry : Registry
registry = (21, both_steps) ∷ []

abbrev draft_context : StepContext
draft_context = record {
  workspace_id = 10;
  workflow_instance_id = 3;
  business_profile_id = none;
  triggered_by_user_id = some 30;
  accumulated = [];
}

known_steps_of :
    (i : WorkflowInstance) → steps_of registry 20 (store_with i) ≡ (ok both_steps, store_with i)
unfolding steps_of get_workflow_steps
known_steps_of i = refl

run_step_with_retry_lem_example :
    (rows : List WorkflowStepRun) × (result : StepResult) × (run_step_with_retry 3 draft
        draft_context 99
        (store_with going_campaign)
      ≡ (ok result, grown (store_with going_campaign) rows))
    × Story 3 draft draft_context 99 (last_attempt 3 1 [] + 1) 4 2 result rows
run_step_with_retry_lem_example =
    run_step_with_retry_lem 3 draft draft_context 99 (store_with going_campaign) tt

run_steps-IsCarriedOut_example :
    IsCarriedOut 99 both_steps [] going_campaign
      (store_with going_campaign)
      (run_steps both_steps 99 [] going_campaign (store_with going_campaign))
run_steps-IsCarriedOut_example =
    run_steps-IsCarriedOut 99 both_steps [] going_campaign (store_with going_campaign) refl refl tt

run_to_next_gate_lem_example :
    RunsOn 99 both_steps
      (claimed_row 99 campaign)
      (claim_pending 99 3 (store_with campaign))
      (run_to_next_gate registry (λ t. t) 99 3 (store_with campaign))
run_to_next_gate_lem_example =
    run_to_next_gate_lem registry 99 both_steps campaign (store_with campaign) refl (tt, tt) tt
      (known_steps_of campaign)

-- Another request claims the instance between the read and the claim.
abbrev claimed_meanwhile : Store → Store
claimed_meanwhile s = record s { instances = going_campaign ∷ [] }

lost_claim_example :
    run_to_next_gate registry claimed_meanwhile 99 3 (store_with campaign)
    ≡ (ok going_campaign, claimed_meanwhile (store_with campaign))
lost_claim_example =
    lost_claim registry 99 both_steps claimed_meanwhile campaign going_campaign
      (store_with campaign) refl refl (known_steps_of campaign) (refl, tt) refl

abbrev failed_campaign : WorkflowInstance
failed_campaign = record campaign { status = failed; current_step_key = some 2 }

retry_instance_resumes_example :
    (j : WorkflowInstance) × ((t : Store) × ((end : Result WorkflowInstance × Store)
        × (retry_instance registry (λ t. t) 99 10 3 30 0 (store_with failed_campaign)
            ≡ resume end (λ _. get_instance_with_detail 10 3))
        × IsCarriedOut 99 (publish ∷ []) [] j t end
        × (j ≡ record failed_campaign { status = running; current_step_key = j.current_step_key })
        × IsStored j t
        × (t.step_runs ≡ [])))
retry_instance_resumes_example =
    retry_instance_resumes registry (λ t. t) 99 10 3 30 0 failed_campaign
      (store_with failed_campaign) both_steps 2 1 (tt, tt) tt refl refl refl
      (known_steps_of failed_campaign) ((omega arith, tt), (tt, tt)) refl

abbrev waiting_store : Store
waiting_store = store_with waiting_campaign

abbrev dismissed_campaign : WorkflowInstance
dismissed_campaign = record waiting_campaign { status = cancelled; outcome_signal = dismissed }

reject_instance_once_example :
    (instances : List WorkflowInstance) × (reject_instance 10 3 waiting_store
      ≡ (ok (dismissed_campaign, runs_of 3 []), record waiting_store { instances = instances }))
    × (find_first (has_id 3) instances ≡ some dismissed_campaign)
    × ((j : WorkflowInstance)
        → Memᴰ j (waiting_campaign ∷ [])
        → (j.id == 3) ≡ false
        → Memᴰ j instances)
    × (reject_instance 10 3 (record waiting_store { instances = instances }) ≡ (
      err (app invalid_state_transition_error),
      record waiting_store { instances = instances },
    ))
    × (approve_instance registry (λ t. t) 99 10 3 (record waiting_store { instances = instances })
        ≡ (
          err (app invalid_state_transition_error),
          record waiting_store { instances = instances },
        ))
reject_instance_once_example =
    reject_instance_once registry (λ t. t) 99 10 3 waiting_campaign waiting_store (tt, tt) refl refl

decision_conflict_example :
    (approve_instance registry (λ t. t) 99 10 3 (store_with going_campaign)
      ≡ (err (app invalid_state_transition_error), store_with going_campaign))
    × (reject_instance 10 3 (store_with going_campaign)
        ≡ (err (app invalid_state_transition_error), store_with going_campaign))
decision_conflict_example =
    decision_conflict registry (λ t. t) 99 10 3 going_campaign (store_with going_campaign) (tt, tt)
      refl (λ e. cc)

other_tenant_refused_example :
    (approve_instance registry (λ t. t) 99 11 3 waiting_store
      ≡ (err (app not_found_error), waiting_store))
    × (reject_instance 11 3 waiting_store ≡ (err (app not_found_error), waiting_store))
    × (retry_instance registry (λ t. t) 99 11 3 30 0 waiting_store
        ≡ (err (app not_found_error), waiting_store))
other_tenant_refused_example =
    other_tenant_refused registry (λ t. t) 99 11 3 30 0 waiting_store ((λ _. omega arith), tt)
