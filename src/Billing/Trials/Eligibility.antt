-- ===== src/Billing/Trials/Eligibility.antt =====
-- One trial for each owner: backend/src/modules/billing/trial.service.ts.
use biz_pilot_ai.Prelude.{
  ℕ, ◌≡◌, refl, ap, ◌∙◌, true, ==_refl, [], ◌∷◌, ◌++◌, Option, none, some, find_first,
  find_first-append_one, inl, inr, arith, Bool-cases, Option-cases,
}
use biz_pilot_ai.Errors.{
  app, conflict_error, not_found_error, invalid_state_transition_error, plain_fault,
}
use biz_pilot_ai.Effects.{Result, ok, err, resume}
use biz_pilot_ai.Billing.Subscriptions.{
  Office, Subscription, SubscriptionPlan, BillingAudit, is_current, has_key, latest, find_plan,
  get_current_subscription_lem, revise,
}
use biz_pilot_ai.Billing.Subscriptions.Transitions.{latest-mem, get_none}
use biz_pilot_ai.Billing.Trials.{
  trial_of, is_trial_eligible, start_eligible, start_trial, trial_from, write_trial, on_free,
  is_trial_start,
}

-- A recorded trial of the owner.
refused :
    (days_after : ℕ → ℕ → ℕ) (w owner key : ℕ) (actor : Option ℕ) (now : ℕ) (o : Office)
    {a : BillingAudit}
    → o.owner_of w ≡ some owner
    → find_first (trial_of o.owner_of owner) o.audits ≡ some a
    → start_trial days_after w key actor now o
      ≡ (err (app (conflict_error "BILLING_TRIAL_ALREADY_USED")), o)
unfolding start_trial is_trial_eligible
refused days_after w owner key actor now o e f = rw (e, start_trial, is_trial_eligible) (rw f refl)

allowed :
    (days_after : ℕ → ℕ → ℕ) (w owner key : ℕ) (actor : Option ℕ) (now : ℕ) (o : Office)
    → o.owner_of w ≡ some owner
    → find_first (trial_of o.owner_of owner) o.audits ≡ none
    → start_trial days_after w key actor now o ≡ start_eligible days_after w key actor now o
unfolding start_trial is_trial_eligible
allowed days_after w owner key actor now o e f = rw (e, start_trial, is_trial_eligible) (rw f refl)

planned :
    (key : ℕ) (o : Office) {p : SubscriptionPlan}
    → find_first (has_key key) o.plans ≡ some p
    → find_plan key o ≡ (ok p, o)
unfolding find_plan
planned key o e = rw (e, find_plan) refl

unplanned :
    (key : ℕ) (o : Office)
    → find_first (has_key key) o.plans ≡ none
    → find_plan key o ≡ (err plain_fault, o)
unfolding find_plan
unplanned key o e = rw (e, find_plan) refl

-- The trace that a started trial leaves.
record IsStarted (w : ℕ) (o end : Office) : Type 0 where
  row : BillingAudit
  of_workspace : row.workspace_id ≡ w
  is_start : is_trial_start row.change ≡ true
  logged : end.audits ≡ o.audits ++ row ∷ []
  owners : end.owner_of ≡ o.owner_of

module _ (days_after : ℕ → ℕ → ℕ) (key : ℕ) (actor : Option ℕ) (now : ℕ) where
  written :
      (w : ℕ) (s : Subscription) (target : SubscriptionPlan) (o : Office)
      → s.workspace_id ≡ w
      → IsStarted w o (write_trial days_after actor now s target o).1
  unfolding revise
  written w s target o e = record {
    row = _;
    of_workspace = e;
    is_start = refl;
    logged = refl;
    owners = refl;
  }

  on_plan :
      (s : Subscription) (o : Office) (r : Result SubscriptionPlan × Office)
      → on_free s ≡ true
      → find_plan key o ≡ r
      → trial_from days_after key actor now s o ≡ resume r (write_trial days_after actor now s)
  on_plan s o r free e = rw free refl ∙ ap (λ q. resume q (write_trial days_after actor now s)) e

  from_plan :
      (w : ℕ) (s : Subscription) (o : Office) {t : Subscription}
      → s.workspace_id ≡ w
      → (trial_from days_after key actor now s o).0 ≡ ok t
      → IsStarted w o (trial_from days_after key actor now s o).1
  from_plan w s o {t} e done = elim (Bool-cases (on_free s)) [
    | inr f ↦ let no : err (app invalid_state_transition_error) ≡ ok t = rw f at done in cc
    | inl free ↦ elim (Option-cases (find_first (has_key key) o.plans)) [
      | inl missing ↦
          let same = on_plan s o (err plain_fault, o) free (unplanned key o missing) in
          let no : err plain_fault ≡ ok t = rw same at done in cc
      | inr (target, found) ↦
          rw (on_plan s o (ok target, o) free (planned key o found)) (written w s target o e)
    ]
  ]

  from_current :
      (w : ℕ) (o : Office) {t : Subscription}
      → (start_eligible days_after w key actor now o).0 ≡ ok t
      → IsStarted w o (start_eligible days_after w key actor now o).1
  unfolding start_eligible
  from_current w o {t} done = elim (Option-cases (latest (is_current w) o.subscriptions)) [
    | inl missing ↦
        let same : start_eligible days_after w key actor now o ≡ (err (app not_found_error), o) =
          ap (λ r. resume r (trial_from days_after key actor now)) (get_none w o missing) in
        let no : err (app not_found_error) ≡ ok t = rw same at done in cc
    | inr (s, found) ↦
        let same : start_eligible days_after w key actor now o
            ≡ trial_from days_after key actor now s o =
          ap (λ r. resume r (trial_from days_after key actor now))
            (get_current_subscription_lem w o found) in
        let (_, mine) = latest-mem (is_current w) o.subscriptions found in
        rw same (from_plan w s o (ground arith) (rw same at done))
  ]

-- An account has one trial. After a trial has started for a workspace, a trial for any workspace of
-- the same owner, for any plan and at any time, is refused as a conflict, and changes nothing.
pub start_trial_once :
    (days_after : ℕ → ℕ → ℕ) (w other owner key key' : ℕ) (actor actor' : Option ℕ) (now later : ℕ)
    (o : Office) {t : Subscription}
    → o.owner_of w ≡ some owner
    → o.owner_of other ≡ some owner
    → (start_trial days_after w key actor now o).0 ≡ ok t
    → start_trial days_after other key' actor' later (start_trial days_after w key actor now o).1
      ≡ (
        err (app (conflict_error "BILLING_TRIAL_ALREADY_USED")),
        (start_trial days_after w key actor now o).1,
      )
start_trial_once days_after w other owner key key' actor actor' now later o {t} mine theirs done =
    elim (Option-cases (find_first (trial_of o.owner_of owner) o.audits)) [
      | inr (a, used) ↦
          let no : err (app (conflict_error "BILLING_TRIAL_ALREADY_USED")) ≡ ok t =
            rw (refused days_after w owner key actor now o mine used) at done in
          cc
      | inl unused ↦
          let same = allowed days_after w owner key actor now o mine unused in
          let started = from_current days_after key actor now w o (rw same at done) in
          let end = (start_eligible days_after w key actor now o).1 in
          let counts : trial_of o.owner_of owner started.row ≡ true =
            rw (started.of_workspace, mine, ==_refl owner) started.is_start in
          let seen : find_first (trial_of end.owner_of owner) end.audits ≡ some started.row =
            rw (started.owners, started.logged)
              (find_first-append_one (trial_of o.owner_of owner) o.audits started.row unused
                counts) in
          let theirs' : end.owner_of other ≡ some owner = rw started.owners theirs in
          rw same (refused days_after other owner key' actor' later end theirs' seen)
    ]
