-- ===== src/Billing/Subscriptions/Plans.antt =====
-- Changes of plan: `changePlan`, `retryPendingDowngrade` and `assertNotDowngradeBlocked` of
-- backend/src/modules/billing/subscription.service.ts.
use biz_pilot_ai.Prelude.{
  ℕ, Bool, true, false, ◌&&◌, ◌||◌, ◌==◌, ltb, leb, if◌then◌else◌, List, [], ◌∷◌, Option, none,
  some,
}
use biz_pilot_ai.Errors.{app, downgrade_pending_blocked_error, plain_fault}
use biz_pilot_ai.Effects.{ok, err, M, ◌>>=◌, ◌>>◌, pure, modify}
use biz_pilot_ai.Notifications.{NotificationType, create_notification, subscription_changed}
use biz_pilot_ai.ProductEvents.{ProductEventName, track_event, upgrade_completed}
use biz_pilot_ai.Billing.Subscriptions.{
  Office, Subscription, SubscriptionPlan, upgraded, downgraded, downgrade_pending, revise,
  resolve_notification_recipient, find_plan, get_current_subscription,
}

pub record PlanChange : Type 0 where
  pub subscription : Subscription
  pub applied : Bool
  pub pending : Bool

abbrev pub notify : ℕ → ℕ → NotificationType → List ℕ → ℕ → Office → Office
notify w user type parts now o = record o {
  mailbox =
      (create_notification
        (record {
          workspace_id = some w;
          recipient_user_id = user;
          type = type;
          related_entity_id = some parts;
        })
        now o.mailbox).1;
}

abbrev pub track : ℕ → ProductEventName → Office → Office
track w name o = record o {
  ledger = record o.ledger { events = track_event w name o.ledger.events };
}

abbrev pub swap_plan : SubscriptionPlan → Subscription → Subscription
swap_plan target s = record s { plan = target; pending_plan = none }

abbrev pub await_plan : SubscriptionPlan → Subscription → Subscription
await_plan target s = record s { pending_plan = some target }

abbrev pub settled_on : SubscriptionPlan → Subscription → Bool
settled_on target s = s.plan.id == target.id && elim s.pending_plan [ none ↦ true | some _ ↦ false ]

unfoldable pub upgrade : ℕ → Subscription → SubscriptionPlan → Option ℕ → ℕ → M Office PlanChange
upgrade w s target actor now =
    modify (revise s (swap_plan target) actor (upgraded s.plan.key target.key))
    >> (resolve_notification_recipient w actor >>= λ user.
        modify (notify w user subscription_changed (s.id ∷ target.key ∷ now ∷ []) now)
        >> modify (track w upgrade_completed)
        >> pure (record { subscription = swap_plan target s; applied = true; pending = false }))

-- A limit that is null is no limit.
abbrev pub exceeds : ℕ → Option ℕ → Bool
exceeds used none = false
exceeds used (some limit) = ltb limit used

unfoldable pub violates : ℕ → ℕ → SubscriptionPlan → Office → Bool
violates w owner target o =
    exceeds (o.members_of w) target.max_team_seats
    || (exceeds (o.profiles_of w) target.max_business_profiles
        || exceeds (o.workspaces_of owner) target.max_workspaces)

unfoldable pub downgrade : ℕ → Subscription → SubscriptionPlan → Option ℕ → M Office PlanChange
downgrade w s target actor o = elim (o.owner_of w) [
  | none ↦ (err plain_fault, o)
  | some owner ↦
      if violates w owner target o
      then (
        ok (record { subscription = await_plan target s; applied = false; pending = true }),
        revise s (await_plan target) actor (downgrade_pending s.plan.key target.key) o,
      )
      else (
        ok (record { subscription = swap_plan target s; applied = true; pending = false }),
        revise s (swap_plan target) actor (downgraded s.plan.key target.key) o,
      )
]

unfoldable pub change_from :
    ℕ → Subscription → SubscriptionPlan → Option ℕ → ℕ → M Office PlanChange
change_from w s target actor now =
    if settled_on target s
    then pure (record { subscription = s; applied = true; pending = false })
    else (if leb s.plan.sort_order target.sort_order
        then upgrade w s target actor now
        else downgrade w s target actor)

unfoldable pub change_plan : ℕ → ℕ → Option ℕ → ℕ → M Office PlanChange
change_plan w key actor now =
    get_current_subscription w >>= λ s. find_plan key >>= λ target. change_from w s target actor now

abbrev pub if_applied : PlanChange → Option Subscription
if_applied c = if c.applied then some c.subscription else none

abbrev pub retry_from : ℕ → Option ℕ → ℕ → Option SubscriptionPlan → M Office (Option Subscription)
retry_from w actor now none = pure none
retry_from w actor now (some target) =
    change_plan w target.key actor now >>= λ c. pure (if_applied c)

unfoldable pub retry_pending_downgrade : ℕ → Option ℕ → ℕ → M Office (Option Subscription)
retry_pending_downgrade w actor now =
    get_current_subscription w >>= λ s. retry_from w actor now s.pending_plan

unfoldable pub assert_not_downgrade_blocked : Subscription → M Office Unit
assert_not_downgrade_blocked s o = elim s.pending_plan [
  | none ↦ (ok tt, o)
  | some _ ↦ (err (app downgrade_pending_blocked_error), o)
]
