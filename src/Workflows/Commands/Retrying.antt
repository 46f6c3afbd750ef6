-- ===== src/Workflows/Commands/Retrying.antt =====
-- A retry of a failed run: `retryInstance` of
-- backend/src/modules/workflows/workflow-engine.service.ts.
use Prim.Native.Nat.{ℕ}
use mathlib.Core.Path.{subst}
use biz_pilot_ai.Prelude.{
  ◌≡◌, ◌∙◌, refl, sym, ap, some, List, arith, find_first, find_first-update_many, Option-cases, inl,
  inr, update_many, drop,
}
use biz_pilot_ai.Errors.{plain_fault}
use biz_pilot_ai.Effects.{Result, ok, err, resume}
use biz_pilot_ai.Notifications.{workflow_retrying}
use biz_pilot_ai.Workflows.{
  WorkflowInstance, Store, failed, retrying, running, get_workflow_steps, Registry, StepDefinition,
}
use biz_pilot_ai.Workflows.Steps.Stories.{RunsFresh}
use biz_pilot_ai.Workflows.Engine.{
  has_id, has_definition_id, steps_of, find_index, start_index, rehydrate, prior_runs,
  run_to_next_gate, advance_instance, notify, on_desk,
}
use biz_pilot_ai.Workflows.Engine.Instances.{IsStored}
use biz_pilot_ai.Workflows.Engine.Gates.{IsCarriedOut}
use biz_pilot_ai.Workflows.Engine.Entry.{UniqueIds, entered, advance_instance-IsCarriedOut}
use biz_pilot_ai.Workflows.Commands.{
  in_tenant, decision_row, rewind_key, retry_instance, get_instance_with_detail, audit_retry,
  resume_retrying,
}
use biz_pilot_ai.Workflows.Commands.Resumption.{DistinctKeys, rewind_key_resumes}
use biz_pilot_ai.Workflows.Commands.Decisions.{
  found_by_id, find_in_tenant_lem, claim_transition_lem, may_change,
}

-- The steps of a definition depend on the definitions alone.
steps_of_same :
    (registry : Registry) (id : ℕ) (s t : Store) {steps : List StepDefinition}
    → t.definitions ≡ s.definitions
    → steps_of registry id s ≡ (ok steps, s)
    → steps_of registry id t ≡ (ok steps, t)
unfolding steps_of
steps_of_same registry id s t {steps} same known =
    elim (Option-cases (find_first (has_definition_id id) s.definitions)) [
      | inl missing ↦
          let no : Path (Result (List StepDefinition) × Store) (err plain_fault, s) (ok steps, s) =
            rw (missing, steps_of) at known in
          cc
      | inr (d, found) ↦ elim (Option-cases (get_workflow_steps d.key registry)) [
        | inl missing ↦
            let no : Path (Result (List StepDefinition) × Store) (err plain_fault, s)
                (ok steps, s) =
              rw (found, missing, steps_of) at known in
            cc
        | inr (listed, there) ↦
            let yes : Path (Result (List StepDefinition) × Store) (ok listed, s) (ok steps, s) =
              rw (found, there, steps_of) at known in
            let found' : find_first (has_definition_id id) t.definitions ≡ some d =
              ap (λ ds. find_first (has_definition_id id) ds) same ∙ found in
            rw (found', there, steps_of)
              (ap {B = Result (List StepDefinition) × Store} (λ r. (r.0, t)) yes)
      ]
    ]

module _ (workspace id now actor reason : ℕ) (steps : List StepDefinition) (i : WorkflowInstance)
    (s : Store) where
  rewind_row : WorkflowInstance → WorkflowInstance
  rewind_row j = record j {
    status = retrying;
    current_step_key = rewind_key i.current_step_key steps;
  }

  resumed_row : WorkflowInstance
  resumed_row = record i {
    status = running;
    current_step_key = rewind_key i.current_step_key steps;
  }

  -- The store as it is when the run is started again.
  resumed : Store
  resumed =
      resume_retrying workspace id
        (on_desk (notify workflow_retrying now i i.triggered_by_user_id) (
          audit_retry workspace actor i reason (record s {
            instances = update_many (decision_row workspace id failed) rewind_row s.instances;
          }))).1

  resumed_row-IsStored :
      UniqueIds s
      → find_first (in_tenant workspace id) s.instances ≡ some i
      → i.status ≡ failed
      → find_first (has_id id) resumed.instances ≡ some resumed_row
  unfolding resumed rewind_row resumed_row
  resumed_row-IsStored unique found off =
      let may = may_change workspace id failed i s found off in
      find_first-update_many (has_id id) (decision_row workspace id retrying)
        (λ j. record j { status = running })
        (update_many (decision_row workspace id failed) rewind_row s.instances) (λ j. refl)
        (ground (arith, may))
        (find_first-update_many (has_id id) (decision_row workspace id failed) rewind_row
          s.instances (λ j. refl) may (found_by_id workspace id i s unique found))

-- Retrying a failed run of the workspace resumes it at the step that failed. Where identifiers of
-- instances and keys of steps are unique, step runs are numbered below the next identifier, and the
-- failed step has the index n among the registered steps, the run is set running again and carries
-- out the steps from index n on, the failed one among them, with the outputs of the runs that
-- succeeded at hand; what it leaves is read back with its step runs.
pub retry_instance_resumes :
    (registry : Registry) (before_claim : Store → Store) (now workspace id actor reason : ℕ)
    (i : WorkflowInstance) (s : Store) (steps : List StepDefinition) (key n : ℕ)
    → UniqueIds s
    → RunsFresh s
    → find_first (in_tenant workspace id) s.instances ≡ some i
    → i.status ≡ failed
    → i.current_step_key ≡ some key
    → steps_of registry i.workflow_definition_id s ≡ (ok steps, s)
    → DistinctKeys steps
    → find_index key steps ≡ some n
    → (j : WorkflowInstance) × ((t : Store) × ((end : Result WorkflowInstance × Store)
          × (retry_instance registry before_claim now workspace id actor reason s
              ≡ resume end (λ _. get_instance_with_detail workspace id))
          × IsCarriedOut now
              (drop n steps)
              (rehydrate i.input (prior_runs i.id s.step_runs))
              j
              t
              end
          × (j ≡ record i { status = running; current_step_key = j.current_step_key })
          × IsStored j t
          × (t.step_runs ≡ s.step_runs)))
unfolding retry_instance resumed resumed_row rewind_row steps_of
retry_instance_resumes registry before_claim now workspace id actor reason i s steps key n unique
      fresh found off at known distinct indexed =
    let j = resumed_row workspace id now actor reason steps i s in
    let t = resumed workspace id now actor reason steps i s in
    let stored : find_first (has_id id) t.instances ≡ some j =
      resumed_row-IsStored workspace id now actor reason steps i s unique found off in
    let may = may_change workspace id failed i s found off in
    let same : id ≡ i.id = ground (arith, may) in
    let stored' : IsStored j t =
      subst (λ k. find_first (has_id k) t.instances ≡ some j) same stored in
    let begins : start_index (rewind_key i.current_step_key steps) steps ≡ n =
      ap (λ k. start_index (rewind_key k steps) steps) at
      ∙ (rewind_key_resumes steps key n distinct indexed).0 in
    let known' : steps_of registry i.workflow_definition_id t ≡ (ok steps, t) =
      steps_of_same registry i.workflow_definition_id s t refl known in
    let ran : run_to_next_gate registry before_claim now id t ≡ advance_instance steps now j t =
      subst (λ k. run_to_next_gate registry before_claim now k t ≡ advance_instance steps now j t)
        (sym same) (entered registry now steps before_claim j t stored' known') in
    (
      j,
      (
        t,
        (
          advance_instance steps now j t,
          rw (find_in_tenant_lem workspace id i s found) (
              rw known (
                rw
                  ((claim_transition_lem workspace id failed
                      (rewind_row workspace id now actor reason steps i s) i s unique found).0
                    may)
                  (rw ran refl))),
          subst
              (λ k.
                IsCarriedOut now (drop k steps) (rehydrate i.input (prior_runs i.id s.step_runs)) j
                  t (advance_instance steps now j t))
              begins (advance_instance-IsCarriedOut registry now steps j t refl stored' fresh),
          refl,
          stored',
          refl,
        ),
      ),
    )
