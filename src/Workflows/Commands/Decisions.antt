-- ===== src/Workflows/Commands/Decisions.antt =====
-- Approving and rejecting a run that waits for a person.
use Prim.Native.Nat.{ℕ}
use mathlib.Core.Path.{subst}
use mathlib.Core.Bool.{false≢true}
use mathlib.Core.List.{Memᴰ}
use biz_pilot_ai.Prelude.{
  ◌≡◌, ◌≢◌, ◌∙◌, ap, List, All-mem, find_first-eq-none, Option-cases, mem-update_many, refl, sym,
  true, false, some, ◌==◌, arith, All, All-map, All-of_mem, Apart-update_many,
  find_first-update_many, find_first, find_first-mem, find_first_unique, update_many, count,
  count-none, count-one_of_mem, inl, inr, All-find_first, Bool-cases, find_first-none,
}
use biz_pilot_ai.Errors.{app, not_found_error, invalid_state_transition_error}
use biz_pilot_ai.Effects.{Result, ok, err}
use biz_pilot_ai.Workflows.{
  WorkflowInstance, WorkflowInstanceStatus, Store, awaiting_approval, cancelled, dismissed,
  Registry, status_eq,
}
use biz_pilot_ai.Workflows.Engine.{has_id}
use biz_pilot_ai.Workflows.Engine.Entry.{UniqueIds}
use biz_pilot_ai.Workflows.Commands.{
  in_tenant, decision_row, claim_transition, find_in_tenant, approve_instance, reject_instance,
  retry_instance, approve_row, reject_row, get_instance_with_detail, runs_of,
}

-- A request about an instance that the workspace does not have is answered "not found", and changes
-- nothing, whichever workspace has an instance with that identifier: approval, rejection and retry.
pub other_tenant_refused :
    (registry : Registry) (before_claim : Store → Store) (now workspace id actor reason : ℕ)
    (s : Store)
    → All (λ i. i.id ≡ id → i.workspace_id ≢ workspace) s.instances
    → (approve_instance registry before_claim now workspace id s ≡ (err (app not_found_error), s))
      × (reject_instance workspace id s ≡ (err (app not_found_error), s))
      × (retry_instance registry before_claim now workspace id actor reason s
          ≡ (err (app not_found_error), s))
unfolding approve_instance reject_instance retry_instance find_in_tenant
other_tenant_refused registry before_claim now workspace id actor reason s h =
    let missing =
      find_first-none (in_tenant workspace id) s.instances
        (All-map _ (λ i. in_tenant workspace id i ≡ false) s.instances (λ i n. outside i n) h) in
    (rw (missing, find_in_tenant), rw (missing, find_in_tenant), rw (missing, find_in_tenant))
  where
    outside :
        (i : WorkflowInstance)
        → (i.id ≡ id → i.workspace_id ≢ workspace)
        → in_tenant workspace id i ≡ false
    outside i n = elim (Bool-cases (i.id == id)) [
      | inl e ↦ let other = n (ground arith) in ground arith
      | inr f ↦ rw f
    ]

count_deciding :
    (workspace id : ℕ) (from : WorkflowInstanceStatus) (i : WorkflowInstance) (s : Store)
    → UniqueIds s
    → find_first (in_tenant workspace id) s.instances ≡ some i
    → decision_row workspace id from i ≡ true
    → count (decision_row workspace id from) s.instances ≡ 1
count_deciding workspace id from i s unique found may =
    count-one_of_mem _ (decision_row workspace id from) s.instances apart unique
      (find_first-mem (in_tenant workspace id) s.instances found) may
  where
    apart :
        (j k : WorkflowInstance)
        → j.id ≢ k.id
        → decision_row workspace id from j ≡ true
        → decision_row workspace id from k ≡ true
        → ⊥
    apart j k d e f = ground arith

no_deciding :
    (workspace id : ℕ) (from : WorkflowInstanceStatus) (i : WorkflowInstance) (s : Store)
    → UniqueIds s
    → find_first (in_tenant workspace id) s.instances ≡ some i
    → status_eq i.status from ≡ false
    → All (λ j. decision_row workspace id from j ≡ false) s.instances
no_deciding workspace id from i s unique found other =
    All-map _ _ s.instances (λ j same. refuse j same)
      (find_first_unique (λ j k. j.id ≢ k.id) (in_tenant workspace id) s.instances apart unique
        found)
  where
    apart :
        (j k : WorkflowInstance)
        → j.id ≢ k.id
        → in_tenant workspace id j ≡ true
        → in_tenant workspace id k ≡ true
        → ⊥
    apart j k d e f = ground arith

    refuse :
        (j : WorkflowInstance)
        → (in_tenant workspace id j ≡ true → j ≡ i)
        → decision_row workspace id from j ≡ false
    refuse j same = elim (Bool-cases (in_tenant workspace id j)) [
      | inl t ↦
          let st : status_eq j.status from ≡ false =
            subst (λ k. status_eq k.status from ≡ false) (sym (same t)) other in
          ground arith
      | inr f ↦ ground arith
    ]

abbrev conflict : {A : Type 0} → Store → Result A × Store
conflict s = (err (app invalid_state_transition_error), s)

-- A conditional transition that meets the status it asks for, and one that does not.
pub claim_transition_lem :
    (workspace id : ℕ) (from : WorkflowInstanceStatus) (f : WorkflowInstance → WorkflowInstance)
    (i : WorkflowInstance) (s : Store)
    → UniqueIds s
    → find_first (in_tenant workspace id) s.instances ≡ some i
    → (decision_row workspace id from i ≡ true
        → claim_transition workspace id from f s ≡ (
          ok tt,
          record s { instances = update_many (decision_row workspace id from) f s.instances },
        ))
      × (status_eq i.status from ≡ false → claim_transition workspace id from f s ≡ conflict s)
claim_transition_lem workspace id from f i s unique found = (
  (λ may. rw (count_deciding workspace id from i s unique found may) refl),
  λ other.
      rw
        (count-none (decision_row workspace id from) s.instances
          (no_deciding workspace id from i s unique found other))
        refl,
)

pub find_in_tenant_lem :
    (workspace id : ℕ) (i : WorkflowInstance) (s : Store)
    → find_first (in_tenant workspace id) s.instances ≡ some i
    → find_in_tenant workspace id s ≡ (ok i, s)
unfolding find_in_tenant
find_in_tenant_lem workspace id i s found = rw (found, find_in_tenant)

-- Where identifiers are unique, a run of the workspace that does not wait for approval can be
-- neither approved nor rejected: both are answered with an invalid transition, and change nothing.
pub decision_conflict :
    (registry : Registry) (before_claim : Store → Store) (now workspace id : ℕ)
    (i : WorkflowInstance) (s : Store)
    → UniqueIds s
    → find_first (in_tenant workspace id) s.instances ≡ some i
    → i.status ≢ awaiting_approval
    → (approve_instance registry before_claim now workspace id s ≡ conflict s)
      × (reject_instance workspace id s ≡ conflict s)
unfolding approve_instance reject_instance
decision_conflict registry before_claim now workspace id i s unique found n =
    let other : status_eq i.status awaiting_approval ≡ false = not_status i n in
    (
      rw (find_in_tenant_lem workspace id i s found) (
          rw
            ((claim_transition_lem workspace id awaiting_approval approve_row i s unique found).1
              other)
            refl),
      rw (find_in_tenant_lem workspace id i s found) (
          rw
            ((claim_transition_lem workspace id awaiting_approval reject_row i s unique found).1
              other)
            refl),
    )
  where
    not_status :
        (i : WorkflowInstance)
        → i.status ≢ awaiting_approval
        → status_eq i.status awaiting_approval ≡ false
    not_status i n = ground arith

abbrev pub rejected : ℕ → ℕ → Store → Store
rejected workspace id s = record s {
  instances = update_many (decision_row workspace id awaiting_approval) reject_row s.instances;
}

pub may_change :
    (workspace id : ℕ) (from : WorkflowInstanceStatus) (i : WorkflowInstance) (s : Store)
    → find_first (in_tenant workspace id) s.instances ≡ some i
    → i.status ≡ from
    → decision_row workspace id from i ≡ true
may_change workspace id from i s found waits =
    let (_, here) =
      All-find_first (λ _. Unit {0}) (in_tenant workspace id) s.instances
        (All-of_mem _ s.instances (λ _ _. tt)) found in
    ground arith

rejected-found :
    (workspace id : ℕ) (i : WorkflowInstance) (s : Store)
    → find_first (in_tenant workspace id) s.instances ≡ some i
    → i.status ≡ awaiting_approval
    → find_first (in_tenant workspace id) (rejected workspace id s).instances ≡ some (reject_row i)
rejected-found workspace id i s found waits =
    find_first-update_many (in_tenant workspace id) (decision_row workspace id awaiting_approval)
      reject_row s.instances (λ j. refl) (may_change workspace id awaiting_approval i s found waits)
      found

-- A run that is found in its workspace is the one with its identifier.
pub found_by_id :
    (workspace id : ℕ) (i : WorkflowInstance) (s : Store)
    → UniqueIds s
    → find_first (in_tenant workspace id) s.instances ≡ some i
    → find_first (has_id id) s.instances ≡ some i
found_by_id workspace id i s unique found =
    elim (Option-cases (find_first (has_id id) s.instances)) [
      | inl missing ↦
          let no : has_id id i ≡ false =
            All-mem (λ j. has_id id j ≡ false) s.instances member
              (find_first-eq-none (has_id id) s.instances missing) in
          absurd (false≢true (sym no ∙ here))
      | inr (k, at) ↦
          let same : i ≡ k =
            All-mem (λ j. has_id id j ≡ true → j ≡ k) s.instances member
              (find_first_unique (λ a b. a.id ≢ b.id) (has_id id) s.instances
                (λ a b d e f. ground arith) unique at)
              here in
          at ∙ ap (λ (j : WorkflowInstance). some j) (sym same)
    ]
  where
    member : Memᴰ i s.instances
    member = find_first-mem (in_tenant workspace id) s.instances found

    here : has_id id i ≡ true
    here =
        let (_, e) =
          All-find_first (λ _. Unit {0}) (in_tenant workspace id) s.instances
            (All-of_mem _ s.instances (λ _ _. tt)) found in
        ground (arith, e)

-- Where identifiers are unique, rejecting a run of the workspace that waits for approval returns it
-- with its step runs, cancelled and with the dismissal recorded. It is stored so, the rows of other
-- instances stay, and no other table changes. After that it can be neither rejected again nor
-- approved.
pub reject_instance_once :
    (registry : Registry) (before_claim : Store → Store) (now workspace id : ℕ)
    (i : WorkflowInstance) (s : Store)
    → UniqueIds s
    → find_first (in_tenant workspace id) s.instances ≡ some i
    → i.status ≡ awaiting_approval
    → (instances : List WorkflowInstance) × (reject_instance workspace id s ≡ (
      ok (record i { status = cancelled; outcome_signal = dismissed }, runs_of i.id s.step_runs),
      record s { instances = instances },
    ))
      × (find_first (has_id id) instances
          ≡ some (record i { status = cancelled; outcome_signal = dismissed }))
      × ((j : WorkflowInstance) → Memᴰ j s.instances → (j.id == id) ≡ false → Memᴰ j instances)
      × (reject_instance workspace id (record s { instances = instances })
          ≡ conflict (record s { instances = instances }))
      × (approve_instance registry before_claim now workspace id
            (record s { instances = instances })
          ≡ conflict (record s { instances = instances }))
unfolding reject_instance get_instance_with_detail
reject_instance_once registry before_claim now workspace id i s unique found waits =
    let found' = rejected-found workspace id i s found waits in
    let unique' : UniqueIds (rejected workspace id s) =
      Apart-update_many (λ j k. j.id ≢ k.id) (decision_row workspace id awaiting_approval)
        reject_row s.instances (λ j k d. d) (λ j k d. d) unique in
    let (approve', reject') =
      decision_conflict registry before_claim now workspace id (reject_row i)
        (rejected workspace id s) unique' found' (λ e. cc) in
    let may = may_change workspace id awaiting_approval i s found waits in
    (
      (rejected workspace id s).instances,
      rw (find_in_tenant_lem workspace id i s found) (
          rw
            ((claim_transition_lem workspace id awaiting_approval reject_row i s unique found).0
              may)
            (rw (found', get_instance_with_detail) refl)),
      find_first-update_many (has_id id) (decision_row workspace id awaiting_approval) reject_row
          s.instances (λ j. refl) may (found_by_id workspace id i s unique found),
      (λ j m other.
          mem-update_many (decision_row workspace id awaiting_approval) reject_row s.instances m
            (ground (arith, other))),
      reject',
      approve',
    )
