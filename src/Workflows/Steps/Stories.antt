-- ===== src/Workflows/Steps/Stories.antt =====
-- What the attempts of a step leave behind, as a data type, and the lemmas on their rows.
use biz_pilot_ai.Prelude.{
  ℕ, suc, ◌+◌, ◌<◌, ◌≡◌, refl, ap, Bool, true, false, Option, none, some, List, [], ◌∷◌, ◌++◌,
  update_many, All, All-map, length, arith, Bool-cases, inl, inr, ==_iff,
}
use biz_pilot_ai.Errors.{Thrown}
use biz_pilot_ai.Workflows.{
  Store, WorkflowStepRun, run_succeeded, run_failed, run_retrying, WorkflowStepStatus, Json,
  StepContext, StepDefinition, returned, threw,
}
use biz_pilot_ai.Workflows.Steps.{
  is_transient_error, run_of, last_attempt, same_attempt, new_run, has_run_id, StepResult,
  succeeded, gave_up, failure_status,
}

-- A finished attempt as it is recorded.
abbrev pub ended_run :
    ℕ
    → ℕ
    → StepDefinition
    → ℕ
    → StepContext
    → ℕ
    → WorkflowStepStatus
    → Option Json
    → Option Thrown
    → WorkflowStepRun
ended_run id instance step attempt ctx now status output error =
    record (new_run id instance step attempt ctx now) {
      status = status;
      output = output;
      error = error;
      completed_at = some now;
    }

-- What may happen from one attempt on, with so many attempts left after it: the result, and the rows
-- that are added.
module _ (instance : ℕ) (step : StepDefinition) (ctx : StepContext) (now : ℕ) where
  pub data Story : ℕ → ℕ → ℕ → StepResult → List WorkflowStepRun → Type 0 where
    success :
        {attempt id left : ℕ} (output : Json) (approval : Bool)
        → step.handler ctx attempt ≡ returned output approval
        → Story attempt id left
            (succeeded output approval)
            (ended_run id instance step attempt ctx now run_succeeded (some output) none ∷ [])
    permanent :
        {attempt id left : ℕ} (e : Thrown)
        → step.handler ctx attempt ≡ threw e
        → is_transient_error e ≡ false
        → Story attempt id left
            (gave_up e)
            (ended_run id instance step attempt ctx now run_failed none (some e) ∷ [])
    exhausted :
        {attempt id left : ℕ} (e : Thrown)
        → left ≡ 0
        → step.handler ctx attempt ≡ threw e
        → is_transient_error e ≡ true
        → Story attempt id left
            (gave_up e)
            (ended_run id instance step attempt ctx now run_failed none (some e) ∷ [])
    retried :
        {attempt id left fewer : ℕ} (e : Thrown) {result : StepResult} {rows : List WorkflowStepRun}
        → left ≡ suc fewer
        → step.handler ctx attempt ≡ threw e
        → is_transient_error e ≡ true
        → Story (attempt + 1) (id + 1) fewer result rows
        → Story attempt id left result
            (ended_run id instance step attempt ctx now run_retrying none (some e) ∷ rows)

-- Rows below the identifier that comes next.
abbrev pub RunsFresh : Store → Type 0
RunsFresh s = All (λ r. r.id < s.next_id) s.step_runs

-- Every recorded attempt of the step is below the given one.
abbrev pub AttemptsBelow : ℕ → ℕ → ℕ → List WorkflowStepRun → Type 0
AttemptsBelow instance key attempt rs =
    All (λ r. run_of instance key r ≡ true → r.attempt < attempt) rs

abbrev pub grown : Store → List WorkflowStepRun → Store
grown s rows = record s { step_runs = s.step_runs ++ rows; next_id = s.next_id + length rows }

pub last_attempt_below :
    (instance key : ℕ) (rs : List WorkflowStepRun)
    → AttemptsBelow instance key (last_attempt instance key rs + 1) rs
unfolding last_attempt
last_attempt_below instance key [] = tt
last_attempt_below instance key (r ∷ rs) = (
  (λ e. ground arith),
  All-map _ _ rs (λ r' h e. ground (arith, h e)) (last_attempt_below instance key rs),
)

pub not_same_attempt :
    (instance key attempt : ℕ) (rs : List WorkflowStepRun)
    → AttemptsBelow instance key attempt rs
    → All (λ r. same_attempt instance key attempt r ≡ false) rs
not_same_attempt instance key attempt rs h =
    All-map _ (λ r. same_attempt instance key attempt r ≡ false) rs (λ r b. other r b) h
  where
    other :
        (r : WorkflowStepRun)
        → (run_of instance key r ≡ true → r.attempt < attempt)
        → same_attempt instance key attempt r ≡ false
    other r b = elim (Bool-cases (run_of instance key r)) [
      | inl e ↦ rw e (ground (arith, b e))
      | inr e ↦ rw e
    ]

pub update_last :
    (id : ℕ) (f : WorkflowStepRun → WorkflowStepRun) (rs : List WorkflowStepRun)
    (r : WorkflowStepRun)
    → All (λ x. x.id < id) rs
    → r.id ≡ id
    → update_many (has_run_id id) f (rs ++ r ∷ []) ≡ rs ++ f r ∷ []
update_last id f [] r h e = rw ((==_iff r.id id).1 e)
update_last id f (x ∷ xs) r h e =
    rw (not_equal x h.0) (ap (λ ys. x ∷ ys) (update_last id f xs r h.1 e))
  where
    not_equal : (x : WorkflowStepRun) → x.id < id → has_run_id id x ≡ false
    not_equal x l = ground arith

pub failure_status_last : (x : Thrown) → failure_status x 0 ≡ run_failed
failure_status_last x = elim (Bool-cases (is_transient_error x)) [
  | inl t ↦ rw t refl
  | inr f ↦ rw f refl
]

pub failure_status_retrying :
    (x : Thrown) (n : ℕ) → is_transient_error x ≡ true → failure_status x (suc n) ≡ run_retrying
failure_status_retrying x n t = rw t (ground arith)
