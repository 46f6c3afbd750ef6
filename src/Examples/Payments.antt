-- ===== src/Examples/Payments.antt =====
-- Concrete trials and webhook deliveries: backend/src/modules/billing.
use biz_pilot_ai.Prelude.{true, false, ℕ, ◌+◌, ◌*◌, ◌≤◌, ◌≡◌, refl, false, none, some, [], ◌∷◌}
use biz_pilot_ai.Errors.{app, conflict_error}
use biz_pilot_ai.Effects.{ok, err}
use biz_pilot_ai.Billing.Subscriptions.{
  Office, Subscription, SubscriptionPlan, active, latest, get_current_subscription, find_plan,
}
use biz_pilot_ai.Billing.Subscriptions.Plans.{swap_plan, violates, downgrade, change_from}
use biz_pilot_ai.Billing.Subscriptions.Limits.{change_from-fits}
use native.Mathlib.Omega.{arith}
use biz_pilot_ai.Billing.Trials.{begin_trial, is_trial_eligible, start_eligible, start_trial}
use biz_pilot_ai.Billing.Trials.Eligibility.{start_trial_once}
use biz_pilot_ai.Billing.Webhooks.{
  Gateway, VerifiedEvent, invoice_payment_failed, duplicate, process_webhook,
}
use biz_pilot_ai.Billing.Webhooks.Deliveries.{process_webhook_once}

abbrev no_cost : SubscriptionPlan
no_cost = record {
  id = 1;
  key = 0;
  sort_order = 0;
  ai_credits_per_month = 20;
  max_team_seats = some 1;
  max_business_profiles = some 1;
  max_workspaces = some 2;
}

abbrev growth : SubscriptionPlan
growth = record no_cost { id = 2; key = 5; sort_order = 1; max_team_seats = none }

abbrev pub subscription : Subscription
subscription = record {
  id = 1;
  workspace_id = 10;
  plan = no_cost;
  pending_plan = none;
  status = active;
  current_period_start = 5;
  current_period_end = 35;
  cancel_at_period_end = false;
  canceled_at = none;
  trial_ends_at = none;
  created_at = 5;
}

abbrev pub accounts : Office
accounts = record {
  subscriptions = subscription ∷ [];
  next_id = 2;
  plans = no_cost ∷ growth ∷ [];
  audits = [];
  ledger = record { credits = []; usages = []; next_id = 1; events = [] };
  mailbox = record { rows = []; next_id = 1 };
  owner_of = λ w. some 30;
  members_of = λ w. 1;
  profiles_of = λ w. 1;
  workspaces_of = λ u. 2;
}

abbrev days_after : ℕ → ℕ → ℕ
days_after days now = now + days * 86400000

starts :
    (start_trial days_after 10 5 (some 30) 40 accounts).0
    ≡ ok (begin_trial growth (days_after 14 40) subscription)
unfolding start_trial is_trial_eligible start_eligible get_current_subscription latest find_plan
starts = refl

start_trial_once_example :
    start_trial days_after 11 5 none 90 (start_trial days_after 10 5 (some 30) 40 accounts).1 ≡ (
      err (app (conflict_error "BILLING_TRIAL_ALREADY_USED")),
      (start_trial days_after 10 5 (some 30) 40 accounts).1,
    )
start_trial_once_example =
    start_trial_once days_after 10 11 30 5 5 (some 30) none 40 90 accounts refl refl starts

abbrev gateway : Gateway
gateway = record { events = []; next_id = 1; customers = λ c. some 10; office = accounts }

abbrev failed_payment : VerifiedEvent
failed_payment = record {
  event_id = 700;
  event_type = invoice_payment_failed;
  payload = record { workspace_id = none; customer = some 3 };
}

process_webhook_once_example :
    process_webhook
      (some failed_payment)
      (λ g. g)
      60
      (process_webhook (some failed_payment) (λ g. g) 50 gateway).1
    ≡ (duplicate 700, (process_webhook (some failed_payment) (λ g. g) 50 gateway).1)
process_webhook_once_example =
    process_webhook_once failed_payment failed_payment (λ g. g) (λ g. g) 50 60 gateway refl

abbrev crowded : Subscription
crowded = record subscription { plan = growth }

moved_down :
    (change_from 10 crowded no_cost none 60 accounts).0
    ≡ ok (record { subscription = swap_plan no_cost crowded; applied = true; pending = false })
unfolding change_from downgrade violates
moved_down = refl

change_from-fits_example : accounts.members_of 10 ≤ 1
change_from-fits_example =
    change_from-fits 10 1 60 crowded no_cost none accounts refl (omega arith) refl moved_down refl
