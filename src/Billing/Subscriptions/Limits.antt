-- ===== src/Billing/Subscriptions/Limits.antt =====
-- A downgrade and the limits of its plan: backend/src/modules/billing/subscription.service.ts,
-- `changePlan`.
use biz_pilot_ai.Prelude.{
  ℕ, ◌≤◌, ◌<◌, ◌≡◌, ap, ◌∙◌, Bool, true, false, leb, Option, none, some, inl, inr, Bool-cases,
  Option-cases, arith,
}
use biz_pilot_ai.Effects.{Result, ok, err}
use biz_pilot_ai.Billing.Subscriptions.{Office, Subscription, SubscriptionPlan}
use biz_pilot_ai.Billing.Subscriptions.Plans.{
  PlanChange, exceeds, violates, settled_on, downgrade, change_from,
}

abbrev applied_of : Result PlanChange → Bool
applied_of (ok c) = c.applied
applied_of (err e) = false

within : (used n : ℕ) (limit : Option ℕ) → limit ≡ some n → exceeds used limit ≡ false → used ≤ n
within used n none e h = cc
within used n (some m) e h = ground arith

no_violation :
    (w owner n : ℕ) (target : SubscriptionPlan) (o : Office)
    → target.max_team_seats ≡ some n
    → violates w owner target o ≡ false
    → o.members_of w ≤ n
unfolding violates
no_violation w owner n target o e h =
    elim (Bool-cases (exceeds (o.members_of w) target.max_team_seats)) [
      | inl t ↦ let no : true ≡ false = rw t at h in cc
      | inr f ↦ within (o.members_of w) n target.max_team_seats e f
    ]

applied_fits :
    (w n : ℕ) (s : Subscription) (target : SubscriptionPlan) (actor : Option ℕ) (o : Office)
    → target.max_team_seats ≡ some n
    → applied_of (downgrade w s target actor o).0 ≡ true
    → o.members_of w ≤ n
unfolding downgrade
applied_fits w n s target actor o limit done = elim (Option-cases (o.owner_of w)) [
  | inl e ↦ let no : false ≡ true = rw (e, downgrade) at done in cc
  | inr (owner, e) ↦ elim (Bool-cases (violates w owner target o)) [
    | inl t ↦ let no : false ≡ true = rw t at (rw (e, downgrade) at done) in cc
    | inr f ↦ no_violation w owner n target o limit f
  ]
]

-- Where a subscription is asked to change to a plan of a lower rank that it does not have, and the
-- change is applied at once, the workspace has no more members than the new plan's seats.
pub change_from-fits :
    (w n now : ℕ) (s : Subscription) (target : SubscriptionPlan) (actor : Option ℕ) (o : Office)
    {c : PlanChange}
    → settled_on target s ≡ false
    → target.sort_order < s.plan.sort_order
    → target.max_team_seats ≡ some n
    → (change_from w s target actor now o).0 ≡ ok c
    → c.applied ≡ true
    → o.members_of w ≤ n
unfolding change_from
change_from-fits w n now s target actor o {c} other lower limit done applied =
    let ranked : leb s.plan.sort_order target.sort_order ≡ false = ground arith in
    applied_fits w n s target actor o limit
      (ap applied_of (rw ranked at (rw other at done)) ∙ applied)
