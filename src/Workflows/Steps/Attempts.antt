-- ===== src/Workflows/Steps/Attempts.antt =====
-- The attempts of a step, carried out by the code.
use biz_pilot_ai.Prelude.{
  ℕ, zero, suc, ◌+◌, ◌<◌, ◌≡◌, ◌∙◌, refl, ap, true, Option, none, some, List, [], ◌∷◌, ◌++◌,
  find_first-none, All-map, All-append, arith, Bool-cases, if_true, inl, inr,
}
use mathlib.Core.Path.{ap₂}
use mathlib.Core.List.{append_assoc}
use biz_pilot_ai.Errors.{Thrown, plain_fault}
use biz_pilot_ai.Effects.{Result, ok, M, resume}
use biz_pilot_ai.Workflows.{
  Store, WorkflowStepRun, run_succeeded, run_failed, run_retrying, WorkflowStepStatus, Json,
  StepContext, StepDefinition, HandlerResult, returned, threw,
}
use biz_pilot_ai.Workflows.Steps.{
  is_transient_error, run_of, last_attempt, new_run, create_run, end_run, StepResult, succeeded,
  gave_up, failure_status, after_handler, attempts_from, run_step_with_retry,
}
use biz_pilot_ai.Workflows.Steps.Stories.{
  Story, success, permanent, exhausted, retried, ended_run, RunsFresh, AttemptsBelow, grown,
  last_attempt_below, not_same_attempt, update_last, failure_status_last, failure_status_retrying,
}

module _ (instance : ℕ) (step : StepDefinition) (ctx : StepContext) (now : ℕ) where
  abbrev Outcome : ℕ → ℕ → Store → Result StepResult × Store → Type 0
  Outcome left attempt s end =
      (rows : List WorkflowStepRun) × (result : StepResult) × (end ≡ (ok result, grown s rows))
      × Story instance step ctx now attempt s.next_id left result rows

  abbrev started : ℕ → Store → Store
  started attempt s = record s {
    step_runs = s.step_runs ++ new_run s.next_id instance step attempt ctx now ∷ [];
    next_id = s.next_id + 1;
  }

  ended :
      (attempt : ℕ) (s : Store) (status : WorkflowStepStatus) (output : Option Json)
      (error : Option Thrown)
      → RunsFresh s
      → end_run s.next_id status output error now (started attempt s)
        ≡ grown s (ended_run s.next_id instance step attempt ctx now status output error ∷ [])
  ended attempt s status output error fresh =
      ap (λ (rs : List WorkflowStepRun). record s { step_runs = rs; next_id = s.next_id + 1 })
        (update_last s.next_id _ s.step_runs _ fresh refl)

  create_run_lem :
      (attempt : ℕ) (s : Store)
      → AttemptsBelow instance step.key attempt s.step_runs
      → create_run instance step attempt ctx now s ≡ (ok s.next_id, started attempt s)
  unfolding create_run
  create_run_lem attempt s below = rw (
    find_first-none _ s.step_runs (not_same_attempt instance step.key attempt s.step_runs below),
    create_run,
  )

  abbrev again : ℕ → ℕ → Thrown → M Store StepResult
  again left attempt e = attempts_from left (attempt + 1) instance step ctx now e

  step_once :
      (left attempt : ℕ) (last : Thrown) (s : Store)
      → AttemptsBelow instance step.key attempt s.step_runs
      → attempts_from (suc left) attempt instance step ctx now last s
        ≡ after_handler
            (step.handler ctx attempt)
            s.next_id
            left
            now
            (again left attempt)
            (started attempt s)
  unfolding attempts_from
  step_once left attempt last s below =
      ap
        (λ (r : Result ℕ × Store).
          resume r
            (λ run. after_handler (step.handler ctx attempt) run left now (again left attempt)))
        (create_run_lem attempt s below)

  -- The rows after a retried attempt are fresh, and its number is used.
  grown-RunsFresh :
      (attempt : ℕ) (s : Store) (status : WorkflowStepStatus) (e : Thrown)
      → RunsFresh s
      → RunsFresh
          (grown s (ended_run s.next_id instance step attempt ctx now status none (some e) ∷ []))
  grown-RunsFresh attempt s status e fresh =
      All-append _ s.step_runs _ (All-map _ _ s.step_runs (λ r h. omega (arith, h)) fresh)
        (omega arith, tt)

  grown-AttemptsBelow :
      (attempt : ℕ) (s : Store) (status : WorkflowStepStatus) (e : Thrown)
      → AttemptsBelow instance step.key attempt s.step_runs
      → AttemptsBelow instance step.key (attempt + 1) (
          s.step_runs
          ++ ended_run s.next_id instance step attempt ctx now status none (some e) ∷ [])
  grown-AttemptsBelow attempt s status e below =
      All-append _ s.step_runs _
        (All-map _ (λ r. run_of instance step.key r ≡ true → r.attempt < attempt + 1) s.step_runs
          (λ r h t. omega (arith, h t)) below)
        ((λ t. omega arith), tt)

  -- What the rest of the loop is known to do.
  abbrev Later : ℕ → ℕ → Type 0
  Later zero attempt = Unit
  Later (suc fewer) attempt =
      (e : Thrown) (s : Store)
      → RunsFresh s
      → AttemptsBelow instance step.key attempt s.step_runs
      → Outcome fewer attempt s (attempts_from (suc fewer) attempt instance step ctx now e s)

  no_more :
      (attempt : ℕ) (last : Thrown) (s : Store)
      → attempts_from zero attempt instance step ctx now last s ≡ (ok (gave_up last), s)
  unfolding attempts_from
  no_more attempt last s = refl

  after_transient :
      (left attempt : ℕ) (s : Store) (x : Thrown)
      → step.handler ctx attempt ≡ threw x
      → is_transient_error x ≡ true
      → RunsFresh s
      → AttemptsBelow instance step.key attempt s.step_runs
      → Later left (attempt + 1)
      → Outcome left attempt s (
          again left attempt x
            (end_run s.next_id (failure_status x left) none (some x) now (started attempt s)))
  after_transient zero attempt s x e t fresh below later = (
    _,
    _,
    no_more (attempt + 1) x _
        ∙ ap (λ (s' : Store). (ok (gave_up x), s'))
            (ap
                (λ (st : WorkflowStepStatus).
                  end_run s.next_id st none (some x) now (started attempt s))
                (failure_status_last x)
              ∙ ended attempt s run_failed none (some x) fresh),
    exhausted x refl e t,
  )
  after_transient (suc fewer) attempt s x e t fresh below later =
      let row = ended_run s.next_id instance step attempt ctx now run_retrying none (some x) in
      let (rows, result, same, story) =
        later x (grown s (row ∷ [])) (grown-RunsFresh attempt s run_retrying x fresh)
          (grown-AttemptsBelow attempt s run_retrying x below) in
      (
        row ∷ rows,
        result,
        ap (again (suc fewer) attempt x) (
              ap
                (λ (st : WorkflowStepStatus).
                  end_run s.next_id st none (some x) now (started attempt s))
                (failure_status_retrying x fewer t)
              ∙ ended attempt s run_retrying none (some x) fresh)
            ∙ (same ∙ regroup row rows result),
        retried x refl e t story,
      )
    where
      regroup :
          (row : WorkflowStepRun) (rows : List WorkflowStepRun) (result : StepResult)
          → ◌≡◌ {A = Result StepResult × Store}
              (ok result, grown (grown s (row ∷ [])) rows)
              (ok result, grown s (row ∷ rows))
      regroup row rows result =
          ap₂
            (λ (rs : List WorkflowStepRun) (n : ℕ).
              let p : Result StepResult × Store =
                (ok result, record s { step_runs = rs; next_id = n }) in
              p)
            (append_assoc s.step_runs (row ∷ []) rows) (omega arith)

  after_result :
      (left attempt : ℕ) (s : Store) (h : HandlerResult)
      → step.handler ctx attempt ≡ h
      → RunsFresh s
      → AttemptsBelow instance step.key attempt s.step_runs
      → Later left (attempt + 1)
      → Outcome left attempt s
          (after_handler h s.next_id left now (again left attempt) (started attempt s))
  after_result left attempt s (returned output approval) e fresh below later = (
    _,
    _,
    ap (λ (s' : Store). (ok (succeeded output approval), s'))
        (ended attempt s run_succeeded (some output) none fresh),
    success output approval e,
  )
  after_result left attempt s (threw x) e fresh below later =
      elim (Bool-cases (is_transient_error x)) [
        | inr f ↦ (
          _,
          _,
          rw f (
              ap (λ (s' : Store). (ok (gave_up x), s'))
                (ended attempt s run_failed none (some x) fresh)),
          permanent x e f,
        )
        | inl t ↦
            let (rows, result, same, story) =
              after_transient left attempt s x e t fresh below later in
            (rows, result, if_true _ _ _ t ∙ same, story)
      ]

  attempts_from_lem :
      (left attempt : ℕ) (last : Thrown) (s : Store)
      → RunsFresh s
      → AttemptsBelow instance step.key attempt s.step_runs
      → Outcome left attempt s (attempts_from (suc left) attempt instance step ctx now last s)
  attempts_from_lem zero attempt last s fresh below =
      rw (step_once zero attempt last s below)
        (after_result zero attempt s (step.handler ctx attempt) refl fresh below tt)
  attempts_from_lem (suc fewer) attempt last s fresh below =
      rw (step_once (suc fewer) attempt last s below) (
        after_result (suc fewer) attempt s (step.handler ctx attempt) refl fresh below
          (attempts_from_lem fewer (attempt + 1)))

-- Where step runs are numbered below the next identifier, a step is attempted at most three times,
-- always returns, and leaves one new row for each attempt, numbered on from the last attempt that
-- is recorded for it, so that no insert meets the unique constraint: an attempt that returns ends
-- the step and is recorded as succeeded with its output; a permanent error ends it and is recorded
-- as failed; a transient one is recorded as retrying and is followed by a further attempt, or as
-- failed after the third. Nothing else in the store changes.
pub run_step_with_retry_lem :
    (instance : ℕ) (step : StepDefinition) (ctx : StepContext) (now : ℕ) (s : Store)
    → RunsFresh s
    → (rows : List WorkflowStepRun) × (result : StepResult) × (run_step_with_retry instance step ctx
          now s
        ≡ (ok result, grown s rows))
      × Story instance step ctx now
          (last_attempt instance step.key s.step_runs + 1)
          s.next_id
          2
          result
          rows
unfolding run_step_with_retry
run_step_with_retry_lem instance step ctx now s fresh =
    attempts_from_lem instance step ctx now 2 (last_attempt instance step.key s.step_runs + 1)
      plain_fault s fresh (last_attempt_below instance step.key s.step_runs)
