-- ===== src/Billing/Subscriptions.antt =====
-- backend/src/modules/billing/subscription.service.ts: the subscriptions of workspaces. The plan that
-- a row refers to is written in its place; names, notes and prices are left out. Counts of members,
-- profiles and workspaces are tables of other modules, read here as functions. Each transaction is
-- one step, and each call is given the clock value that it reads.
pub mod Plans
pub mod Renewals
pub mod Allowance
pub mod Limits
pub mod Transitions
use biz_pilot_ai.Prelude.{
  ℕ, suc, ◌+◌, Bool, true, false, not, ◌&&◌, ◌||◌, ◌==◌, ltb, leb, if◌then◌else◌, List, [], ◌∷◌,
  ◌++◌, find_first, update_many, Option, none, some, ℤ, pos, ◌≡◌, refl,
}
use biz_pilot_ai.Errors.{
  app, invalid_state_transition_error, not_found_error, downgrade_pending_blocked_error,
  plain_fault,
}
use biz_pilot_ai.Effects.{Result, ok, err, M, ◌>>=◌, ◌>>◌, pure, throw, get, modify, resume}
use biz_pilot_ai.Notifications.{
  Mailbox, NotificationType, create_notification, subscription_changed, subscription_canceled,
  subscription_reactivated,
}
use biz_pilot_ai.ProductEvents.{
  ProductEventName, track_event, upgrade_completed, subscription_canceled as canceled_event,
  subscription_reactivated as reactivated_event,
}
use biz_pilot_ai.Billing.Credits.{
  AiCredit, CreditType, plan_grant, rollover, topup_purchase, promotional, refund,
  manual_adjustment, Ledger, grant_credits,
}

pub data SubscriptionStatus : Type 0 where
  trialing active past_due paused canceled expired : SubscriptionStatus

pub record SubscriptionPlan : Type 0 where
  pub id : ℕ
  pub key : ℕ
  pub sort_order : ℕ
  pub ai_credits_per_month : ℕ
  pub max_team_seats : Option ℕ
  pub max_business_profiles : Option ℕ
  pub max_workspaces : Option ℕ

pub record Subscription : Type 0 where
  pub id : ℕ
  pub workspace_id : ℕ
  pub plan : SubscriptionPlan
  pub pending_plan : Option SubscriptionPlan
  pub status : SubscriptionStatus
  pub current_period_start : ℕ
  pub current_period_end : ℕ
  pub cancel_at_period_end : Bool
  pub canceled_at : Option ℕ
  pub trial_ends_at : Option ℕ
  pub created_at : ℕ

-- What an audit row of kind BILLING_CHANGE records.
pub data BillingChange : Type 0 where
  moved : SubscriptionStatus → SubscriptionStatus → BillingChange
  subscribed : BillingChange
  upgraded downgraded downgrade_pending : ℕ → ℕ → BillingChange
  cancellation_set : Bool → Bool → BillingChange
  trial_started : ℕ → ℕ → BillingChange
  trial_converted trial_expired : BillingChange

pub record BillingAudit : Type 0 where
  pub workspace_id : ℕ
  pub actor_user_id : Option ℕ
  pub entity_id : ℕ
  pub change : BillingChange

pub record Office : Type 0 where
  pub subscriptions : List Subscription
  pub next_id : ℕ
  pub plans : List SubscriptionPlan
  pub audits : List BillingAudit
  pub ledger : Ledger
  pub mailbox : Mailbox
  pub owner_of : ℕ → Option ℕ
  pub members_of : ℕ → ℕ
  pub profiles_of : ℕ → ℕ
  pub workspaces_of : ℕ → ℕ

unfoldable pub resolve_notification_recipient : ℕ → Option ℕ → M Office ℕ
resolve_notification_recipient w (some actor) o = (ok actor, o)
resolve_notification_recipient w none o = elim (o.owner_of w) [
  | none ↦ (err plain_fault, o)
  | some user ↦ (ok user, o)
]

unfoldable pub legal_transitions : SubscriptionStatus → SubscriptionStatus → Bool
legal_transitions trialing active = true
legal_transitions trialing expired = true
legal_transitions trialing canceled = true
legal_transitions active past_due = true
legal_transitions active canceled = true
legal_transitions active paused = true
legal_transitions past_due active = true
legal_transitions past_due canceled = true
legal_transitions paused active = true
legal_transitions paused canceled = true
legal_transitions canceled expired = true
legal_transitions _ _ = false

abbrev pub status_index : SubscriptionStatus → ℕ
status_index trialing = 0
status_index active = 1
status_index past_due = 2
status_index paused = 3
status_index canceled = 4
status_index expired = 5

abbrev pub same_status : SubscriptionStatus → SubscriptionStatus → Bool
same_status a b = status_index a == status_index b

unfoldable pub assert_legal_transition : SubscriptionStatus → SubscriptionStatus → M Office Unit
assert_legal_transition from to o =
    if same_status from to || legal_transitions from to
    then (ok tt, o)
    else (err (app invalid_state_transition_error), o)

abbrev pub has_id : ℕ → Subscription → Bool
has_id id s = s.id == id

-- `canceledAt` is written on the way to CANCELED only.
abbrev pub move_row : SubscriptionStatus → ℕ → Subscription → Subscription
move_row canceled now s = record s { status = canceled; canceled_at = some now }
move_row to now s = record s { status = to }

-- One row is rewritten, and the change is audited.
unfoldable pub revise :
    Subscription → (Subscription → Subscription) → Option ℕ → BillingChange → Office → Office
revise s f actor change o = record o {
  subscriptions = update_many (has_id s.id) f o.subscriptions;
  audits =
      o.audits
      ++ record {
        workspace_id = s.workspace_id;
        actor_user_id = actor;
        entity_id = s.id;
        change = change;
      }
        ∷ [];
}

unfoldable pub transition : Subscription → SubscriptionStatus → Option ℕ → ℕ → M Office Subscription
transition s to actor now =
    assert_legal_transition s.status to
    >> modify (revise s (move_row to now) actor (moved s.status to))
    >> pure (move_row to now s)

abbrev pub has_key : ℕ → SubscriptionPlan → Bool
has_key k p = p.key == k

-- `subscriptionPlan.findUniqueOrThrow`.
unfoldable pub find_plan : ℕ → M Office SubscriptionPlan
find_plan k o = elim (find_first (has_key k) o.plans) [
  | none ↦ (err plain_fault, o)
  | some p ↦ (ok p, o)
]

-- The key 'free', as plan keys are numbers here.
abbrev pub free_key : ℕ
free_key = 0

abbrev pub free_subscription : ℕ → ℕ → SubscriptionPlan → ℕ → ℕ → Subscription
free_subscription id w plan now until = record {
  id = id;
  workspace_id = w;
  plan = plan;
  pending_plan = none;
  status = active;
  current_period_start = now;
  current_period_end = until;
  cancel_at_period_end = false;
  canceled_at = none;
  trial_ends_at = none;
  created_at = now;
}

-- The rows of a new subscription, and the grant that follows them. `month_after` is `Date.setMonth`.
abbrev pub open_subscription : (ℕ → ℕ) → ℕ → SubscriptionPlan → Option ℕ → ℕ → M Office Subscription
open_subscription month_after w plan actor now o =
    let row = free_subscription o.next_id w plan now (month_after now) in
    (
      ok row,
      record o {
        subscriptions = o.subscriptions ++ row ∷ [];
        next_id = suc o.next_id;
        audits =
            o.audits
            ++ record {
              workspace_id = w;
              actor_user_id = actor;
              entity_id = o.next_id;
              change = subscribed;
            }
              ∷ [];
        ledger = (grant_credits w (pos plan.ai_credits_per_month) (some plan_grant) now o.ledger).1;
      },
    )

unfoldable pub create_free_subscription_for_workspace :
    (ℕ → ℕ) → ℕ → Option ℕ → ℕ → M Office Subscription
create_free_subscription_for_workspace month_after w actor now =
    find_plan free_key >>= λ plan. open_subscription month_after w plan actor now

-- The workspace's rows that have not expired.
abbrev pub is_current : ℕ → Subscription → Bool
is_current w s = s.workspace_id == w && not (same_status s.status expired)

-- `orderBy: { createdAt: 'desc' }`; among equals the first row stands for the database's choice.
abbrev pub newer : Subscription → Option Subscription → Subscription
newer s none = s
newer s (some t) = if leb t.created_at s.created_at then s else t

unfoldable pub latest : (Subscription → Bool) → List Subscription → Option Subscription
latest p [] = none
latest p (s ∷ ss) = let rest = latest p ss in if p s then some (newer s rest) else rest

unfoldable pub get_current_subscription : ℕ → M Office Subscription
get_current_subscription w o = elim (latest (is_current w) o.subscriptions) [
  | none ↦ (err (app not_found_error), o)
  | some s ↦ (ok s, o)
]

pub get_current_subscription_lem :
    (w : ℕ) (o : Office) {s : Subscription}
    → latest (is_current w) o.subscriptions ≡ some s
    → get_current_subscription w o ≡ (ok s, o)
unfolding get_current_subscription
get_current_subscription_lem w o current = rw (current, get_current_subscription) refl

unfoldable pub transition_subscription :
    ℕ → SubscriptionStatus → Option ℕ → ℕ → M Office Subscription
transition_subscription w to actor now =
    get_current_subscription w >>= λ s. transition s to actor now
