-- ===== src/Workflows/Engine/Entry.antt =====
-- How a run of an instance begins: the claim of a pending row, and the step to resume at.
use Prim.Native.Nat.{ℕ}
use mathlib.Core.List.{Memᴰ}
use mathlib.Core.Path.{subst}
use mathlib.Core.Option.{some-injective}
use biz_pilot_ai.Prelude.{
  ◌≡◌, ◌≢◌, ◌∙◌, refl, sym, ap, true, false, some, List, [], ◌∷◌, arith, All, Apart, find_first,
  find_first-mem, update_many, update_many-none, count, count-none, count-one_of_mem, drop, if_true,
  if_false, ==_refl, inl, inr, Bool-cases,
}
use biz_pilot_ai.Effects.{Result, ok}
use biz_pilot_ai.Workflows.{
  WorkflowInstance, WorkflowInstanceStatus, Store, pending, running, StepDefinition, Registry,
}
use biz_pilot_ai.Workflows.Steps.Stories.{RunsFresh}
use biz_pilot_ai.Workflows.Engine.{
  has_id, find_instance, steps_of, enter, advance_instance, run_to_next_gate, pending_row,
  claim_pending, start_index, rehydrate, prior_runs, is_running,
}
use biz_pilot_ai.Workflows.Engine.Instances.{IsStored}
use biz_pilot_ai.Workflows.Engine.Gates.{IsCarriedOut, run_steps-IsCarriedOut}

-- Identifiers of instances are unique.
abbrev pub UniqueIds : Store → Type 0
UniqueIds s = Apart (λ i j. i.id ≢ j.id) s.instances

-- The row as the claim leaves it.
abbrev pub claimed_row : ℕ → WorkflowInstance → WorkflowInstance
claimed_row now i = record i { status = running; started_at = some now }

stored-mem : (i : WorkflowInstance) (s : Store) → IsStored i s → Memᴰ i s.instances
stored-mem i s stored = find_first-mem (has_id i.id) s.instances stored

apart_pending :
    (id : ℕ) (i j : WorkflowInstance)
    → i.id ≢ j.id
    → pending_row id i ≡ true
    → pending_row id j ≡ true
    → ⊥
apart_pending id i j d e f = ground arith

count_pending :
    (i : WorkflowInstance) (s : Store)
    → UniqueIds s
    → IsStored i s
    → i.status ≡ pending
    → count (pending_row i.id) s.instances ≡ 1
count_pending i s unique stored e =
    count-one_of_mem _ (pending_row i.id) s.instances (apart_pending i.id) unique
      (stored-mem i s stored) (ground arith)

claimed-IsStored :
    (now : ℕ) (i : WorkflowInstance) (is : List WorkflowInstance)
    → i.status ≡ pending
    → find_first (has_id i.id) is ≡ some i
    → find_first (has_id i.id) (update_many (pending_row i.id) (claimed_row now) is)
      ≡ some (claimed_row now i)
claimed-IsStored now i [] e stored = cc
claimed-IsStored now i (j ∷ js) e stored = elim (Bool-cases (has_id i.id j)) [
  | inl t ↦
      let same : j ≡ i = some-injective j i (rw t at stored) in
      let may : pending_row i.id i ≡ true = ground arith in
      subst
        (λ k.
          find_first (has_id i.id) (update_many (pending_row i.id) (claimed_row now) (k ∷ js))
          ≡ some (claimed_row now i))
        (sym same) (rw may (rw (==_refl i.id)))
  | inr n ↦ ground (arith, claimed-IsStored now i js e)
]

-- The run goes from the step after the current one, with the outputs of the earlier runs at hand.
abbrev pub RunsOn :
    ℕ → List StepDefinition → WorkflowInstance → Store → Result WorkflowInstance × Store → Type 0
RunsOn now steps i s end =
    IsCarriedOut now (drop (start_index i.current_step_key steps) steps)
      (rehydrate i.input (prior_runs i.id s.step_runs)) i s end

at_rest :
    (steps : List StepDefinition) (now : ℕ) (st : WorkflowInstanceStatus) (i : WorkflowInstance)
    (s : Store)
    → i.status ≡ st
    → st ≢ pending
    → st ≢ running
    → enter (λ t. t) steps now st i s ≡ (ok i, s)
unfolding advance_instance
at_rest steps now pending i s e n m = absurd (n refl)
at_rest steps now running i s e n m = absurd (m refl)
at_rest steps now _ i s e n m = if_false _ _ _ (ap is_running e)

module _ (registry : Registry) (now : ℕ) (steps : List StepDefinition) where
  -- A running instance is run from the step after its current one.
  pub advance_instance-IsCarriedOut :
      (i : WorkflowInstance) (s : Store)
      → i.status ≡ running
      → IsStored i s
      → RunsFresh s
      → RunsOn now steps i s (advance_instance steps now i s)
  unfolding advance_instance
  advance_instance-IsCarriedOut i s on stored fresh =
      subst (λ end. RunsOn now steps i s end)
        (sym (if_true (is_running i.status) _ _ (ap is_running on)))
        (run_steps-IsCarriedOut now (drop (start_index i.current_step_key steps) steps)
          (rehydrate i.input (prior_runs i.id s.step_runs)) i s on stored fresh)

  find_instance_lem :
      (i : WorkflowInstance) (s : Store) → IsStored i s → find_instance i.id s ≡ (ok i, s)
  unfolding find_instance
  find_instance_lem i s stored = rw (stored, find_instance)

  -- A run reaches its entry with the instance and its steps.
  pub entered :
      (meanwhile : Store → Store) (i : WorkflowInstance) (s : Store)
      → IsStored i s
      → steps_of registry i.workflow_definition_id s ≡ (ok steps, s)
      → run_to_next_gate registry meanwhile now i.id s ≡ enter meanwhile steps now i.status i s
  unfolding run_to_next_gate
  entered meanwhile i s stored known = rw (find_instance_lem i s stored, known)

  -- What a run does from its status on, where no other request interferes.
  abbrev pub IsEntered :
      WorkflowInstanceStatus → WorkflowInstance → Store → Result WorkflowInstance × Store → Type 0
  IsEntered pending i s end = RunsOn now steps (claimed_row now i) (claim_pending now i.id s) end
  IsEntered running i s end = RunsOn now steps i s end
  IsEntered _ i s end = end ≡ (ok i, s)

  claimed_run :
      (i : WorkflowInstance) (s : Store)
      → IsStored i s
      → UniqueIds s
      → RunsFresh s
      → i.status ≡ pending
      → IsEntered pending i s (enter (λ t. t) steps now pending i s)
  claimed_run i s stored unique fresh e =
      let kept = claimed-IsStored now i s.instances e stored in
      rw
        (
          find_instance_lem (claimed_row now i) (claim_pending now i.id s) kept,
          count_pending i s unique stored e,
        )
        (advance_instance-IsCarriedOut (claimed_row now i) (claim_pending now i.id s) refl kept
          fresh)

  enter_lem :
      (st : WorkflowInstanceStatus) (i : WorkflowInstance) (s : Store)
      → IsStored i s
      → UniqueIds s
      → RunsFresh s
      → i.status ≡ st
      → IsEntered st i s (enter (λ t. t) steps now st i s)
  enter_lem pending i s stored unique fresh e = claimed_run i s stored unique fresh e
  enter_lem running i s stored unique fresh e = advance_instance-IsCarriedOut i s e stored fresh
  enter_lem _ i s stored unique fresh e = at_rest steps now _ i s e (λ x. cc) (λ x. cc)

  -- Let the instance be stored, identifiers of instances be unique, step runs be numbered below the
  -- next identifier, and the steps of the definition be registered. A pending instance that no
  -- other request has claimed in the meantime is claimed, and its run carries out a trace of the
  -- state machine from the claimed row on; so does the run of an instance that is running already,
  -- from the step after its current one. With any other status the instance is returned and nothing
  -- changes.
  pub run_to_next_gate_lem :
      (i : WorkflowInstance) (s : Store)
      → IsStored i s
      → UniqueIds s
      → RunsFresh s
      → steps_of registry i.workflow_definition_id s ≡ (ok steps, s)
      → IsEntered i.status i s (run_to_next_gate registry (λ t. t) now i.id s)
  run_to_next_gate_lem i s stored unique fresh known =
      rw (entered (λ t. t) i s stored known) (enter_lem i.status i s stored unique fresh refl)

  -- Let the instance be stored as pending, with its definition's steps registered. A caller that
  -- read a pending instance, but whose claim finds no pending row any more, runs no step: it
  -- returns the row as the other requests left it, and changes nothing.
  pub lost_claim :
      (meanwhile : Store → Store) (i j : WorkflowInstance) (s : Store)
      → IsStored i s
      → i.status ≡ pending
      → steps_of registry i.workflow_definition_id s ≡ (ok steps, s)
      → All (λ k. pending_row i.id k ≡ false) (meanwhile s).instances
      → find_first (has_id i.id) (meanwhile s).instances ≡ some j
      → run_to_next_gate registry meanwhile now i.id s ≡ (ok j, meanwhile s)
  unfolding find_instance
  lost_claim meanwhile i j s stored e known taken found =
      entered meanwhile i s stored known
      ∙ subst (λ st. enter meanwhile steps now st i s ≡ (ok j, meanwhile s)) (sym e)
          (rw (update_many-none (pending_row i.id) (claimed_row now) (meanwhile s).instances taken)
            (rw (found, find_instance)
              (rw (count-none (pending_row i.id) (meanwhile s).instances taken) refl)))
