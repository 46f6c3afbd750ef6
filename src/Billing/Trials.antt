-- ===== src/Billing/Trials.antt =====
-- backend/src/modules/billing/trial.service.ts: trials of paid plans, one for each owner. Calendar
-- arithmetic is the platform's: `days_after` is `Date.setDate`, `month_after` is `Date.setMonth`.
pub mod Eligibility
use biz_pilot_ai.Prelude.{
  ℕ, Bool, true, false, ◌&&◌, ◌==◌, ltb, opt_eq, if◌then◌else◌, List, [], ◌∷◌, find_first, Option,
  none, some,
}
use biz_pilot_ai.Errors.{app, conflict_error, invalid_state_transition_error, plain_fault}
use biz_pilot_ai.Effects.{Result, ok, err, M, ◌>>=◌, ◌>>◌, pure, throw, modify}
use biz_pilot_ai.Billing.Subscriptions.{
  Office, Subscription, SubscriptionPlan, BillingChange, BillingAudit, trial_started,
  trial_converted, trial_expired, trialing, active, expired, same_status, revise, free_key,
  find_plan, get_current_subscription, create_free_subscription_for_workspace,
}

abbrev pub trial_days : ℕ
trial_days = 14

abbrev pub is_trial_start : BillingChange → Bool
is_trial_start (trial_started _ _) = true
is_trial_start _ = false

-- A trial's start in a workspace of the owner.
abbrev pub trial_of : (ℕ → Option ℕ) → ℕ → BillingAudit → Bool
trial_of owner_of owner a = opt_eq (owner_of a.workspace_id) owner && is_trial_start a.change

abbrev pub is_none {ℓ} : {A : Type ℓ} → Option A → Bool
is_none none = true
is_none (some _) = false

unfoldable pub is_trial_eligible : ℕ → M Office Bool
is_trial_eligible w o = elim (o.owner_of w) [
  | none ↦ (err plain_fault, o)
  | some owner ↦ (ok (is_none (find_first (trial_of o.owner_of owner) o.audits)), o)
]

abbrev pub begin_trial : SubscriptionPlan → ℕ → Subscription → Subscription
begin_trial target until s = record s {
  status = trialing;
  plan = target;
  trial_ends_at = some until;
}

abbrev pub write_trial :
    (ℕ → ℕ → ℕ) → Option ℕ → ℕ → Subscription → SubscriptionPlan → M Office Subscription
write_trial days_after actor now s target o =
    let until = days_after trial_days now in
    (
      ok (begin_trial target until s),
      revise s (begin_trial target until) actor (trial_started target.key until) o,
    )

abbrev pub on_free : Subscription → Bool
on_free s = same_status s.status active && s.plan.key == free_key

abbrev pub trial_from : (ℕ → ℕ → ℕ) → ℕ → Option ℕ → ℕ → Subscription → M Office Subscription
trial_from days_after key actor now s =
    if on_free s
    then find_plan key >>= write_trial days_after actor now s
    else throw (app invalid_state_transition_error)

-- The start of a trial that the account may have.
unfoldable pub start_eligible : (ℕ → ℕ → ℕ) → ℕ → ℕ → Option ℕ → ℕ → M Office Subscription
start_eligible days_after w key actor now =
    get_current_subscription w >>= trial_from days_after key actor now

unfoldable pub start_trial : (ℕ → ℕ → ℕ) → ℕ → ℕ → Option ℕ → ℕ → M Office Subscription
start_trial days_after w key actor now = is_trial_eligible w >>= λ eligible.
    if eligible
    then start_eligible days_after w key actor now
    else throw (app (conflict_error "BILLING_TRIAL_ALREADY_USED"))

unfoldable pub convert_trial : ℕ → Option ℕ → M Office Subscription
convert_trial w actor = get_current_subscription w >>= λ s.
    if same_status s.status trialing
    then modify (
        revise s (λ row. record row { status = active; trial_ends_at = s.trial_ends_at }) actor
          trial_converted)
      >> pure (record s { status = active })
    else throw (app invalid_state_transition_error)

-- A trial whose end is known and not in the future.
abbrev pub is_over : ℕ → Option ℕ → Bool
is_over now none = false
is_over now (some at) = elim (ltb now at) [ true ↦ false | false ↦ true ]

unfoldable pub expire_trial_if_due : (ℕ → ℕ) → ℕ → Option ℕ → ℕ → M Office (Option Subscription)
expire_trial_if_due month_after w actor now = get_current_subscription w >>= λ s.
    if same_status s.status trialing && is_over now s.trial_ends_at
    then modify (revise s (λ row. record row { status = expired }) actor trial_expired)
      >> (create_free_subscription_for_workspace month_after w actor now >>= λ free.
          pure (some free))
    else pure none
