-- ===== src/Examples/Accounts.antt =====
-- Concrete accounts: backend/src/modules/billing, onboarding and notifications.
use mathlib.Core.List.{Memᴰ}
use biz_pilot_ai.Prelude.{◌≡◌, refl, true, false, none, some, [], ◌∷◌, ◌⊎◌, arith, pos, below}
use biz_pilot_ai.Effects.{ok}
use biz_pilot_ai.Notifications.{
  CreateNotificationInput, Mailbox, payment_failed, create_notification,
}
use biz_pilot_ai.Notifications.Delivery.{create_notification_once}
use biz_pilot_ai.Onboarding.{
  Desk, workspace_created, plan_chosen, in_progress, advance_onboarding_step,
}
use biz_pilot_ai.Onboarding.Progress.{advance_onboarding_step_once}
use biz_pilot_ai.Billing.Credits.{Ledger, plan_grant, compute_balance, record_usage}
use biz_pilot_ai.Billing.Credits.Balance.{IsRefused, IsCharged, record_usage_lem}
use biz_pilot_ai.Billing.Subscriptions.{
  Office, Subscription, SubscriptionPlan, active, expired, canceled, is_current, latest,
  transition_subscription,
}
use biz_pilot_ai.Billing.Subscriptions.Renewals.{grant_monthly_credits_if_due}
use biz_pilot_ai.Billing.Subscriptions.Allowance.{grant_once}
use biz_pilot_ai.Billing.Subscriptions.Transitions.{transition_subscription-keeps}

abbrev ledger : Ledger
ledger = record {
  credits =
      record {
        workspace_id = 10;
        type = plan_grant;
        amount = pos 20;
        balance_after = pos 20;
        created_at = 1;
      }
      ∷ [];
  usages = [];
  next_id = 1;
  events = [];
}

record_usage_lem_example :
    ((below (compute_balance 10 ledger) 15 ≡ true)
      × IsRefused 10 ledger (record_usage 10 15 ledger))
    ⊎ ((below (compute_balance 10 ledger) 15 ≡ false)
        × IsCharged 10 ledger (record_usage 10 15 ledger))
record_usage_lem_example = record_usage_lem 10 15 ledger

abbrev free_plan : SubscriptionPlan
free_plan = record {
  id = 1;
  key = 0;
  sort_order = 0;
  ai_credits_per_month = 20;
  max_team_seats = some 1;
  max_business_profiles = some 1;
  max_workspaces = some 1;
}

abbrev ended_subscription : Subscription
ended_subscription = record {
  id = 1;
  workspace_id = 10;
  plan = free_plan;
  pending_plan = none;
  status = expired;
  current_period_start = 5;
  current_period_end = 35;
  cancel_at_period_end = false;
  canceled_at = none;
  trial_ends_at = some 19;
  created_at = 5;
}

abbrev current_subscription : Subscription
current_subscription = record ended_subscription {
  id = 2;
  status = active;
  current_period_start = 36;
  current_period_end = 66;
  created_at = 36;
}

abbrev office : Office
office = record {
  subscriptions = ended_subscription ∷ current_subscription ∷ [];
  next_id = 3;
  plans = free_plan ∷ [];
  audits = [];
  ledger = ledger;
  mailbox = record { rows = []; next_id = 1 };
  owner_of = λ w. some 30;
  members_of = λ w. 1;
  profiles_of = λ w. 1;
  workspaces_of = λ u. 1;
}

current_lem : latest (is_current 10) office.subscriptions ≡ some current_subscription
unfolding latest
current_lem = refl

grant_once_example :
    grant_monthly_credits_if_due 10 50 (grant_monthly_credits_if_due 10 40 office).1
    ≡ (ok (false, 0), (grant_monthly_credits_if_due 10 40 office).1)
grant_once_example = grant_once 10 40 50 office current_lem refl

transition_subscription-keeps_example :
    Memᴰ ended_subscription (transition_subscription 10 canceled none 40 office).1.subscriptions
transition_subscription-keeps_example =
    transition_subscription-keeps 10 canceled none 40 office ((omega arith, tt), (tt, tt))
      (Memᴰ.head refl) refl

abbrev desk : Desk
desk = record {
  settings =
      record {
        workspace_id = 10;
        onboarding_step = workspace_created;
        onboarding_status = in_progress;
        onboarding_completed_at = none;
      }
      ∷ [];
  workspaces = 10 ∷ [];
  mailbox = record { rows = []; next_id = 1 };
  events = [];
}

advance_onboarding_step_once_example :
    (advance_onboarding_step 10 plan_chosen 31 60
      (advance_onboarding_step 10 plan_chosen 30 50 desk).1).1
    ≡ (advance_onboarding_step 10 plan_chosen 30 50 desk).1
advance_onboarding_step_once_example = advance_onboarding_step_once 10 plan_chosen 30 31 50 60 desk

abbrev bad_payment : CreateNotificationInput
bad_payment = record {
  workspace_id = some 10;
  recipient_user_id = 30;
  type = payment_failed;
  related_entity_id = some (10 ∷ 77 ∷ []);
}

abbrev mailbox : Mailbox
mailbox = record { rows = []; next_id = 1 }

create_notification_once_example :
    create_notification bad_payment 80 (create_notification bad_payment 70 mailbox).1 ≡ (
      ((create_notification bad_payment 70 mailbox).0.0, false),
      (create_notification bad_payment 70 mailbox).1,
    )
create_notification_once_example =
    create_notification_once bad_payment 10 (10 ∷ 77 ∷ []) 70 80 mailbox refl refl
