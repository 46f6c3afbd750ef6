-- ===== src/Workflows/Engine/Instances.antt =====
-- Reading and writing one instance's row.
use biz_pilot_ai.Prelude.{
  ℕ, ◌≡◌, ◌≢◌, ◌∙◌, refl, sym, ap, Option, none, some, List, [], ◌∷◌, ◌==◌, ◌⊎◌, inl, inr,
  find_first, update_many, arith, Bool-cases, if_true,
}
use mathlib.Core.Option.{some-injective}
use mathlib.Core.Path.{subst}
use biz_pilot_ai.Errors.{Thrown}
use biz_pilot_ai.Effects.{Result, ok, err, resume}
use biz_pilot_ai.Notifications.{workflow_completed}
use biz_pilot_ai.Onboarding.{Desk, OnboardingState, OnboardingStep, advance_onboarding_step}
use biz_pilot_ai.Workflows.{
  WorkflowInstance, Store, running, completed, failed, awaiting_approval, JsonObject,
  assert_transition,
}
use biz_pilot_ai.Workflows.Engine.{
  has_id, update_instance, notify, track_completion, onboard, with_desk, complete_instance,
  fail_instance, pause_instance,
}

-- The row of the table that the instance's identifier finds is the instance.
abbrev pub IsStored : WorkflowInstance → Store → Type 0
IsStored i s = find_first (has_id i.id) s.instances ≡ some i

abbrev pub KeepsId : (WorkflowInstance → WorkflowInstance) → Type 0
KeepsId f = (i : WorkflowInstance) → (f i).id ≡ i.id

pub find_update_same :
    (f : WorkflowInstance → WorkflowInstance) (id : ℕ) (is : List WorkflowInstance)
    {i : WorkflowInstance}
    → KeepsId f
    → find_first (has_id id) is ≡ some i
    → find_first (has_id id) (update_many (has_id id) f is) ≡ some (f i)
find_update_same f id [] keeps e = cc
find_update_same f id (j ∷ js) {i} keeps e = elim (Bool-cases (has_id id j)) [
  | inl t ↦ rw t (
      if_true _ _ _ (ap (λ (x : ℕ). x == id) (keeps j) ∙ t)
      ∙ ap (λ (k : WorkflowInstance). some (f k)) (some-injective j i (rw t at e)))
  | inr n ↦ rw n (rw n (find_update_same f id js keeps (rw n at e)))
]

pub find_update_other :
    (f : WorkflowInstance → WorkflowInstance) (id other : ℕ) (is : List WorkflowInstance)
    → KeepsId f
    → other ≢ id
    → find_first (has_id other) (update_many (has_id id) f is) ≡ find_first (has_id other) is
find_update_other f id other [] keeps d = refl
find_update_other f id other (j ∷ js) keeps d =
    ground (arith, keeps j, find_update_other f id other js keeps d)

abbrev pub written : ℕ → (WorkflowInstance → WorkflowInstance) → Store → Store
written id f s = record s { instances = update_many (has_id id) f s.instances }

pub update_instance_lem :
    (f : WorkflowInstance → WorkflowInstance) (i : WorkflowInstance) (s : Store)
    → IsStored i s
    → update_instance i.id f s ≡ (ok (f i), written i.id f s)
unfolding update_instance
update_instance_lem f i s e = rw (e, update_instance)

pub written-IsStored :
    (f : WorkflowInstance → WorkflowInstance) (i : WorkflowInstance) (s : Store)
    → KeepsId f
    → IsStored i s
    → IsStored (f i) (written i.id f s)
written-IsStored f i s keeps e =
    subst (λ k. find_first (has_id k) (written i.id f s).instances ≡ some (f i)) (sym (keeps i))
      (find_update_same f i.id s.instances keeps e)

-- The rows of other instances are what they were.
abbrev pub SameOthers : ℕ → Store → Store → Type 0
SameOthers id s s' =
    (other : ℕ)
    → other ≢ id
    → find_first (has_id other) s'.instances ≡ find_first (has_id other) s.instances

-- What an operation on one instance may end in: the row, the tables beside it, and the result, which
-- is an error only where the row is completed and onboarding failed after it.
pub record IsEnd (i j : WorkflowInstance) (s : Store) (end : Result WorkflowInstance × Store)
    : Type 0 where
  pub stored : IsStored j end.1
  pub same_id : j.id ≡ i.id
  pub others : SameOthers i.id s end.1
  pub runs : end.1.step_runs ≡ s.step_runs
  pub result : (end.0 ≡ ok j) ⊎ ((j.status ≡ completed) × ((e : Thrown) × (end.0 ≡ err e)))

abbrev pub fail_row : ℕ → Thrown → WorkflowInstance → WorkflowInstance
fail_row key e r = record r { status = failed; current_step_key = some key; error = some (key, e) }

abbrev pub complete_row : ℕ → JsonObject → WorkflowInstance → WorkflowInstance
complete_row now accumulated r = record r {
  status = completed;
  completed_at = some now;
  output = some accumulated;
}

onboard_lem :
    (now : ℕ) (i : WorkflowInstance) (user : Option ℕ) (s : Store)
    → (d : Desk) × ((onboard now i user s).1 ≡ record s { desk = d })
      × (((onboard now i user s).0 ≡ ok tt) ⊎ ((e : Thrown) × ((onboard now i user s).0 ≡ err e)))
onboard_lem now i none s = (s.desk, refl, inl refl)
onboard_lem now i (some user) s =
    first (advance_onboarding_step i.workspace_id OnboardingStep.first_workflow_run user now s.desk)
  where
    last_step : Desk → Result OnboardingState × Desk
    last_step d = advance_onboarding_step i.workspace_id OnboardingStep.completed user now d

    ends : Result OnboardingState × Desk → Result (Unit {0}) × Store
    ends r = resume (with_desk s r) (λ _ s'. (ok tt, s'))

    second :
        (r : Result OnboardingState × Desk)
        → (d : Desk) × ((ends r).1 ≡ record s { desk = d })
          × (((ends r).0 ≡ ok tt) ⊎ ((e : Thrown) × ((ends r).0 ≡ err e)))
    second (ok _, d) = (d, refl, inl refl)
    second (err e, d) = (d, refl, inr (e, refl))

    both : Result OnboardingState × Desk → Result (Unit {0}) × Store
    both r =
        resume (with_desk s r)
          (λ _ s'. resume (with_desk s' (last_step s'.desk)) (λ _ s''. (ok tt, s'')))

    first :
        (r : Result OnboardingState × Desk)
        → (d : Desk) × ((both r).1 ≡ record s { desk = d })
          × (((both r).0 ≡ ok tt) ⊎ ((e : Thrown) × ((both r).0 ≡ err e)))
    first (ok _, d) = second (last_step d)
    first (err e, d) = (d, refl, inr (e, refl))

may_complete :
    (i : WorkflowInstance) → i.status ≡ running → assert_transition i.status completed ≡ ok tt
unfolding assert_transition
may_complete i e = rw e

may_pause :
    (i : WorkflowInstance)
    → i.status ≡ running
    → assert_transition i.status awaiting_approval ≡ ok tt
unfolding assert_transition
may_pause i e = rw e

-- What onboarding does after the row is written changes nothing of the run.
after_onboarding :
    (i j : WorkflowInstance) (s s2 : Store) (d : Desk) (r : Result (Unit {0}) × Store)
    → r.1 ≡ record s2 { desk = d }
    → (r.0 ≡ ok tt) ⊎ ((e : Thrown) × (r.0 ≡ err e))
    → j.status ≡ completed
    → IsEnd i j s (ok j, s2)
    → IsEnd i j s (resume r (λ _ s3. (ok j, s3)))
after_onboarding i j s s2 d (ok _, s3) e r done h = record {
  stored = subst (λ (x : Store). IsStored j x) (sym e) h.stored;
  same_id = h.same_id;
  others = subst (λ (x : Store). SameOthers i.id s x) (sym e) h.others;
  runs = subst (λ (x : Store). x.step_runs ≡ s.step_runs) (sym e) h.runs;
  result = inl refl;
}
after_onboarding i j s s2 d (err x, s3) e r done h = record {
  stored = subst (λ (x : Store). IsStored j x) (sym e) h.stored;
  same_id = h.same_id;
  others = subst (λ (x : Store). SameOthers i.id s x) (sym e) h.others;
  runs = subst (λ (x : Store). x.step_runs ≡ s.step_runs) (sym e) h.runs;
  result = inr (done, (x, refl));
}

pub fail_instance_lem :
    (now key : ℕ) (e : Thrown) (i : WorkflowInstance) (s : Store)
    → IsStored i s
    → IsEnd i (fail_row key e i) s (fail_instance now key e i s)
unfolding fail_instance
fail_instance_lem now key e i s stored =
    rw (update_instance_lem (fail_row key e) i s stored) (record {
      stored = written-IsStored (fail_row key e) i s (λ j. refl) stored;
      same_id = refl;
      others = λ other d. find_update_other (fail_row key e) i.id other s.instances (λ j. refl) d;
      runs = refl;
      result = inl refl;
    })

pub pause_instance_lem :
    (i : WorkflowInstance) (s : Store)
    → i.status ≡ running
    → IsStored i s
    → IsEnd i (record i { status = awaiting_approval }) s (pause_instance i s)
unfolding pause_instance
pause_instance_lem i s on stored =
    rw
      (
        may_pause i on,
        update_instance_lem (λ r. record r { status = awaiting_approval }) i s stored,
      )
      (record {
        stored =
            written-IsStored (λ r. record r { status = awaiting_approval }) i s (λ j. refl) stored;
        same_id = refl;
        others = λ other d.
            find_update_other (λ r. record r { status = awaiting_approval }) i.id other s.instances
              (λ j. refl) d;
        runs = refl;
        result = inl refl;
      })

pub complete_instance_lem :
    (now : ℕ) (accumulated : JsonObject) (i : WorkflowInstance) (s : Store)
    → i.status ≡ running
    → IsStored i s
    → IsEnd i (complete_row now accumulated i) s (complete_instance now accumulated i s)
unfolding complete_instance
complete_instance_lem now accumulated i s on stored =
    rw (may_complete i on, update_instance_lem (complete_row now accumulated) i s stored)
      (let j = complete_row now accumulated i in
        let s2 = record (written i.id (complete_row now accumulated) s) {
          desk = notify workflow_completed now j i.triggered_by_user_id (track_completion j s.desk);
        } in
        let (d, same, ended) = onboard_lem now j i.triggered_by_user_id s2 in
        after_onboarding i j s s2 d (onboard now j i.triggered_by_user_id s2) same ended refl
          (record {
            stored = written-IsStored (complete_row now accumulated) i s (λ k. refl) stored;
            same_id = refl;
            others = λ other k.
                find_update_other (complete_row now accumulated) i.id other s.instances (λ l. refl)
                  k;
            runs = refl;
            result = inl refl;
          }))
