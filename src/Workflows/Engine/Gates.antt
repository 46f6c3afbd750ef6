-- ===== src/Workflows/Engine/Gates.antt =====
-- Where a run of an instance's remaining steps ends.
use biz_pilot_ai.Prelude.{
  ℕ, ◌+◌, ◌≡◌, ◌∙◌, refl, sym, true, false, some, List, [], ◌∷◌, ◌++◌, ◌⊎◌, length, All, All-map,
  All-append, ◌<◌, arith,
}
use mathlib.Core.List.{append_assoc, append-nil}
use biz_pilot_ai.Errors.{Thrown}
use biz_pilot_ai.Effects.{Result, ok, err}
use biz_pilot_ai.Workflows.{
  WorkflowInstance, WorkflowStepRun, Store, running, completed, awaiting_approval, Json, JsonObject,
  put, StepDefinition, StepContext,
}
use biz_pilot_ai.Workflows.Steps.{StepResult, succeeded, gave_up, last_attempt}
use biz_pilot_ai.Workflows.Steps.Stories.{Story, RunsFresh, grown}
use biz_pilot_ai.Workflows.Steps.Attempts.{run_step_with_retry_lem}
use biz_pilot_ai.Workflows.Engine.{context, after_step, pause_instance, run_steps}
use biz_pilot_ai.Workflows.Engine.Instances.{
  IsStored, IsEnd, SameOthers, fail_row, complete_row, written, written-IsStored,
  update_instance_lem, find_update_other, fail_instance_lem, pause_instance_lem,
  complete_instance_lem,
}

abbrev pub pass_row : ℕ → WorkflowInstance → WorkflowInstance
pass_row key i = record i { current_step_key = some key }

-- The run as the state machine means it, from the runs recorded before it and the next identifier:
-- the steps in order, each with its attempts, until one fails, one asks for approval, or none is
-- left. It names the rows that are added and the instance at the end.
module _ (now : ℕ) where
  pub data Trace
      : List WorkflowStepRun
        → ℕ
        → List StepDefinition
        → JsonObject
        → WorkflowInstance
        → List WorkflowStepRun
        → WorkflowInstance
        → Type 0 where
    finished :
        {before : List WorkflowStepRun} {id : ℕ} {o : JsonObject} {i : WorkflowInstance}
        → Trace before id [] o i [] (complete_row now o i)
    stopped :
        {before rows : List WorkflowStepRun} {id : ℕ} {step : StepDefinition}
        {steps : List StepDefinition} {o : JsonObject} {i : WorkflowInstance} (e : Thrown)
        → Story i.id step
            (context i o)
            now
            (last_attempt i.id step.key before + 1)
            id
            2
            (gave_up e)
            rows
        → Trace before id (step ∷ steps) o i rows (fail_row step.key e i)
    paused :
        {before rows : List WorkflowStepRun} {id : ℕ} {step : StepDefinition}
        {steps : List StepDefinition} {o : JsonObject} {i : WorkflowInstance} (output : Json)
        → Story i.id step
            (context i o)
            now
            (last_attempt i.id step.key before + 1)
            id
            2
            (succeeded output true)
            rows
        → Trace before id
            (step ∷ steps)
            o
            i
            rows
            (record (pass_row step.key i) { status = awaiting_approval })
    passed :
        {before rows more : List WorkflowStepRun} {id : ℕ} {step : StepDefinition}
        {steps : List StepDefinition} {o : JsonObject} {i j : WorkflowInstance} (output : Json)
        → Story i.id step
            (context i o)
            now
            (last_attempt i.id step.key before + 1)
            id
            2
            (succeeded output false)
            rows
        → Trace
            (before ++ rows)
            (id + length rows)
            steps
            (put step.key output o)
            (pass_row step.key i)
            more
            j
        → Trace before id (step ∷ steps) o i (rows ++ more) j

-- The trace is carried out: the rows are added, the instance at the end is stored, no other instance
-- changes, and the result is that instance, or an error of onboarding after a completed run.
pub record IsCarriedOut (now : ℕ) (steps : List StepDefinition) (o : JsonObject)
    (i : WorkflowInstance) (s : Store) (end : Result WorkflowInstance × Store) : Type 0 where
  pub rows : List WorkflowStepRun
  pub final : WorkflowInstance
  pub trace : Trace now s.step_runs s.next_id steps o i rows final
  pub added : end.1.step_runs ≡ s.step_runs ++ rows
  pub stored : IsStored final end.1
  pub others : SameOthers i.id s end.1
  pub result : (end.0 ≡ ok final) ⊎ ((final.status ≡ completed) × ((e : Thrown) × (end.0 ≡ err e)))

Story-fresh :
    {instance : ℕ} {step : StepDefinition} {ctx : StepContext} {now attempt id left : ℕ}
    {result : StepResult} {rows : List WorkflowStepRun}
    → Story instance step ctx now attempt id left result rows
    → All (λ r. r.id < id + length rows) rows
Story-fresh (Story.success output approval e) = (omega arith, tt)
Story-fresh (Story.permanent x e f) = (omega arith, tt)
Story-fresh (Story.exhausted x l e t) = (omega arith, tt)
Story-fresh {id} (Story.retried x {rows} l e t story) =
    (omega arith, All-map _ _ rows (λ r h. omega (arith, h)) (Story-fresh story))

grown-RunsFresh :
    (s : Store) (rows : List WorkflowStepRun)
    → RunsFresh s
    → All (λ r. r.id < s.next_id + length rows) rows
    → RunsFresh (grown s rows)
grown-RunsFresh s rows fresh h =
    All-append _ s.step_runs rows (All-map _ _ s.step_runs (λ r l. omega (arith, l)) fresh) h

pause_instance-IsEnd :
    (key : ℕ) (i : WorkflowInstance) (s : Store)
    → i.status ≡ running
    → IsStored i s
    → IsEnd i
        (record (pass_row key i) { status = awaiting_approval })
        (written i.id (pass_row key) s)
        (pause_instance (pass_row key i) (written i.id (pass_row key) s))
pause_instance-IsEnd key i s on stored =
    let h =
      pause_instance_lem (pass_row key i) (written i.id (pass_row key) s) on
        (written-IsStored (pass_row key) i s (λ j. refl) stored) in
    record {
      stored = h.stored;
      same_id = h.same_id;
      others = h.others;
      runs = h.runs;
      result = h.result;
    }

module _ (now : ℕ) where
  abbrev Continues : List StepDefinition → Type 0
  Continues steps =
      (o : JsonObject) (i : WorkflowInstance) (s : Store)
      → i.status ≡ running
      → IsStored i s
      → RunsFresh s
      → IsCarriedOut now steps o i s (run_steps steps now o i s)

  of_end :
      (steps : List StepDefinition) (o : JsonObject) (i j : WorkflowInstance) (s s' : Store)
      (rows : List WorkflowStepRun) (end : Result WorkflowInstance × Store)
      → Trace now s.step_runs s.next_id steps o i rows j
      → s'.step_runs ≡ s.step_runs ++ rows
      → SameOthers i.id s s'
      → IsEnd i j s' end
      → IsCarriedOut now steps o i s end
  of_end steps o i j s s' rows end trace added others h = record {
    rows = rows;
    final = j;
    trace = trace;
    added = h.runs ∙ added;
    stored = h.stored;
    others = λ other d. h.others other d ∙ others other d;
    result = h.result;
  }

  after_step-IsCarriedOut :
      (step : StepDefinition) (steps : List StepDefinition) (o : JsonObject) (i : WorkflowInstance)
      (s : Store) (rows : List WorkflowStepRun) (result : StepResult)
      → i.status ≡ running
      → IsStored i s
      → RunsFresh s
      → Story i.id step
          (context i o)
          now
          (last_attempt i.id step.key s.step_runs + 1)
          s.next_id
          2
          result
          rows
      → Continues steps
      → IsCarriedOut now
          (step ∷ steps)
          o
          i
          s
          (after_step result step now o i (λ o' j. run_steps steps now o' j) (grown s rows))
  after_step-IsCarriedOut step steps o i s rows (gave_up e) on stored fresh story continues =
      of_end (step ∷ steps) o i (fail_row step.key e i) s (grown s rows) rows _ (stopped e story)
        refl (λ other d. refl) (fail_instance_lem now step.key e i (grown s rows) stored)
  after_step-IsCarriedOut step steps o i s rows (succeeded output true) on stored fresh story
        continues =
      rw (update_instance_lem (pass_row step.key) i (grown s rows) stored) (
        of_end (step ∷ steps) o i _ s (written i.id (pass_row step.key) (grown s rows)) rows _
          (paused output story) refl
          (λ other d. find_update_other (pass_row step.key) i.id other s.instances (λ j. refl) d)
          (pause_instance-IsEnd step.key i (grown s rows) on stored))
  after_step-IsCarriedOut step steps o i s rows (succeeded output false) on stored fresh story
        continues =
      rw (update_instance_lem (pass_row step.key) i (grown s rows) stored) (
        let rest =
          continues (put step.key output o) (pass_row step.key i)
            (written i.id (pass_row step.key) (grown s rows)) on
            (written-IsStored (pass_row step.key) i (grown s rows) (λ j. refl) stored)
            (grown-RunsFresh s rows fresh (Story-fresh story)) in
        record {
          rows = rows ++ rest.rows;
          final = rest.final;
          trace = passed output story rest.trace;
          added = rest.added ∙ append_assoc s.step_runs rows rest.rows;
          stored = rest.stored;
          others = λ other d.
              rest.others other d
              ∙ find_update_other (pass_row step.key) i.id other s.instances (λ j. refl) d;
          result = rest.result;
        })

  continues : (steps : List StepDefinition) → Continues steps
  unfolding run_steps
  continues [] o i s on stored fresh =
      of_end [] o i (complete_row now o i) s s [] _ finished (sym (append-nil s.step_runs))
        (λ other d. refl) (complete_instance_lem now o i s on stored)
  continues (step ∷ steps) o i s on stored fresh =
      let (rows, result, same, story) =
        run_step_with_retry_lem i.id step (context i o) now s fresh in
      rw same (
        after_step-IsCarriedOut step steps o i s rows result on stored fresh story
          (continues steps))

-- Whatever steps remain and whatever their handlers do, a run of them from a running, stored instance,
-- where the step runs have identifiers below the next one, carries out a trace of the state machine.
pub run_steps-IsCarriedOut :
    (now : ℕ) (steps : List StepDefinition) (o : JsonObject) (i : WorkflowInstance) (s : Store)
    → i.status ≡ running
    → IsStored i s
    → RunsFresh s
    → IsCarriedOut now steps o i s (run_steps steps now o i s)
run_steps-IsCarriedOut now steps o i s on stored fresh = continues now steps o i s on stored fresh
