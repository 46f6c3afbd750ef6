-- ===== src/Billing/Subscriptions/Allowance.antt =====
-- The monthly allowance is granted once in a period:
-- backend/src/modules/billing/subscription.service.ts, `grantMonthlyCreditsIfDue`.
use biz_pilot_ai.Prelude.{
  ℕ, true, false, leb, ==_refl, none, some, ℤ, pos, ◌+ℤ◌, ◌≡◌, refl, inl, inr, Option-cases,
  find_first, find_first-append_one, ap, ◌∙◌,
}
use biz_pilot_ai.Effects.{ok, resume}
use biz_pilot_ai.Billing.Credits.{AiCredit, compute_balance, plan_grant, grant_credits}
use biz_pilot_ai.Billing.Subscriptions.{
  Office, Subscription, is_current, latest, get_current_subscription_lem,
}
use biz_pilot_ai.Billing.Subscriptions.Renewals.{
  grant_monthly_credits_if_due, granted_since, grant_plan,
}

at_current :
    (w now : ℕ) (o : Office) {s : Subscription}
    → latest (is_current w) o.subscriptions ≡ some s
    → grant_monthly_credits_if_due w now o ≡ grant_plan w s now o
unfolding grant_monthly_credits_if_due
at_current w now o {s} current =
    ap (λ r. resume r (λ t. grant_plan w t now)) (get_current_subscription_lem w o current)

granted_row :
    (w start now : ℕ) (amount : ℤ)
    → leb start now ≡ true
    → (after : ℤ)
    → granted_since w start (record {
      workspace_id = w;
      type = plan_grant;
      amount = amount;
      balance_after = after;
      created_at = now;
    })
      ≡ true
granted_row w start now amount begun after = rw (==_refl w) begun

already :
    (w now : ℕ) (o : Office) (s : Subscription) {c : AiCredit}
    → find_first (granted_since w s.current_period_start) o.ledger.credits ≡ some c
    → grant_plan w s now o ≡ (ok (false, 0), o)
already w now o s e = rw (e, grant_plan) refl

abbrev granted_office : ℕ → Subscription → ℕ → Office → Office
granted_office w s now o = record o {
  ledger = (grant_credits w (pos s.plan.ai_credits_per_month) (some plan_grant) now o.ledger).1;
}

not_yet :
    (w now : ℕ) (o : Office) (s : Subscription)
    → find_first (granted_since w s.current_period_start) o.ledger.credits ≡ none
    → grant_plan w s now o ≡ (ok (true, s.plan.ai_credits_per_month), granted_office w s now o)
not_yet w now o s e = rw (e, grant_plan) refl

again :
    (w now later : ℕ) (o : Office) (s : Subscription)
    → leb s.current_period_start now ≡ true
    → grant_plan w s later (grant_plan w s now o).1 ≡ (ok (false, 0), (grant_plan w s now o).1)
unfolding grant_credits
again w now later o s begun =
    elim (Option-cases (find_first (granted_since w s.current_period_start) o.ledger.credits)) [
      | inl e ↦
          let after = compute_balance w o.ledger +ℤ pos s.plan.ai_credits_per_month in
          rw (not_yet w now o s e) (
            already w later (granted_office w s now o) s (
              find_first-append_one (granted_since w s.current_period_start) o.ledger.credits
                (record {
                  workspace_id = w;
                  type = plan_grant;
                  amount = pos s.plan.ai_credits_per_month;
                  balance_after = after;
                  created_at = now;
                })
                e
                (granted_row w s.current_period_start now (pos s.plan.ai_credits_per_month) begun
                  after)))
      | inr (c, e) ↦ rw (already w now o s e) (already w later o s e)
    ]

kept :
    (w now : ℕ) (o : Office) (s : Subscription)
    → latest (is_current w) o.subscriptions ≡ some s
    → latest (is_current w) (grant_plan w s now o).1.subscriptions ≡ some s
unfolding grant_credits
kept w now o s current =
    elim (Option-cases (find_first (granted_since w s.current_period_start) o.ledger.credits)) [
      | inl e ↦ rw (e, grant_plan) current
      | inr (c, e) ↦ rw (e, grant_plan) current
    ]

-- Where the workspace has a current subscription whose period has begun, a further call of the
-- monthly grant, whatever its clock, grants nothing and changes nothing.
pub grant_once :
    (w now later : ℕ) (o : Office) {s : Subscription}
    → latest (is_current w) o.subscriptions ≡ some s
    → leb s.current_period_start now ≡ true
    → grant_monthly_credits_if_due w later (grant_monthly_credits_if_due w now o).1
      ≡ (ok (false, 0), (grant_monthly_credits_if_due w now o).1)
unfolding grant_credits
grant_once w now later o {s} current begun = rw (at_current w now o current) (
    at_current w later (grant_plan w s now o).1 (kept w now o s current)
    ∙ again w now later o s begun)
