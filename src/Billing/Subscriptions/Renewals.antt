-- ===== src/Billing/Subscriptions/Renewals.antt =====
-- `cancelSubscription`, `reactivateSubscription` and `grantMonthlyCreditsIfDue` of
-- backend/src/modules/billing/subscription.service.ts.
use biz_pilot_ai.Prelude.{
  ℕ, Bool, true, false, ◌&&◌, ◌==◌, leb, if◌then◌else◌, [], ◌∷◌, Option, none, some, pos,
  find_first,
}
use biz_pilot_ai.Effects.{ok, M, ◌>>=◌, ◌>>◌, pure, modify}
use biz_pilot_ai.Notifications.{subscription_canceled, subscription_reactivated}
use biz_pilot_ai.ProductEvents.{
  subscription_canceled as canceled_event, subscription_reactivated as reactivated_event,
}
use biz_pilot_ai.Billing.Credits.{AiCredit, CreditType, plan_grant, grant_credits}
use biz_pilot_ai.Billing.Subscriptions.{
  Office, Subscription, canceled, cancellation_set, revise, resolve_notification_recipient,
  get_current_subscription, transition,
}
use biz_pilot_ai.Billing.Subscriptions.Plans.{notify, track}

abbrev pub intend : Bool → Subscription → Subscription
intend cancel s = record s { cancel_at_period_end = cancel }

abbrev pub announce_cancel : ℕ → ℕ → Subscription → ℕ → M Office Subscription
announce_cancel w user s now =
    modify (notify w user subscription_canceled (s.id ∷ now ∷ []) now)
    >> modify (track w canceled_event)
    >> pure s

unfoldable pub cancel_subscription : ℕ → Option ℕ → Bool → ℕ → M Office Subscription
cancel_subscription w actor immediate now = get_current_subscription w >>= λ s.
    resolve_notification_recipient w actor >>= λ user.
    if immediate
    then (transition s canceled actor now >>= λ updated. announce_cancel w user updated now)
    else modify (revise s (intend true) actor (cancellation_set s.cancel_at_period_end true))
      >> announce_cancel w user (intend true s) now

abbrev pub is_plan_grant : CreditType → Bool
is_plan_grant plan_grant = true
is_plan_grant _ = false

abbrev pub granted_since : ℕ → ℕ → AiCredit → Bool
granted_since w start c = c.workspace_id == w && (is_plan_grant c.type && leb start c.created_at)

abbrev pub grant_plan : ℕ → Subscription → ℕ → M Office (Bool × ℕ)
grant_plan w s now o = elim (find_first (granted_since w s.current_period_start) o.ledger.credits) [
  | some _ ↦ (ok (false, 0), o)
  | none ↦ (
    ok (true, s.plan.ai_credits_per_month),
    record o {
      ledger = (grant_credits w (pos s.plan.ai_credits_per_month) (some plan_grant) now o.ledger).1;
    },
  )
]

unfoldable pub grant_monthly_credits_if_due : ℕ → ℕ → M Office (Bool × ℕ)
grant_monthly_credits_if_due w now = get_current_subscription w >>= λ s. grant_plan w s now

unfoldable pub reactivate_subscription : ℕ → Option ℕ → ℕ → M Office Subscription
reactivate_subscription w actor now = get_current_subscription w >>= λ s.
    if s.cancel_at_period_end
    then modify (revise s (intend false) actor (cancellation_set true false))
      >> (resolve_notification_recipient w actor >>= λ user.
          modify (notify w user subscription_reactivated (s.id ∷ now ∷ []) now)
          >> modify (track w reactivated_event)
          >> pure (intend false s))
    else pure s
