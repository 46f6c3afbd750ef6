-- ===== src/Billing/Credits/Balance.antt =====
-- The ledger's balance under use: backend/src/modules/billing/credit-ledger.service.ts.
use mathlib.Core.Path.{subst}
use biz_pilot_ai.Prelude.{
  ℕ, ◌+◌, true, false, ◌==◌, ==_iff, if◌then◌else◌, List, [], ◌∷◌, ◌++◌, pos, ◌-ℤ◌, below, sub_sub,
  sub_covered, sub_zero, ◌≡◌, refl, ◌∙◌, inl, inr, ◌⊎◌, Bool-cases, arith,
}
use biz_pilot_ai.Errors.{app, insufficient_credits_error}
use biz_pilot_ai.Effects.{Result, ok, err}
use biz_pilot_ai.ProductEvents.{has_workspace_event, first_ai_action}
use biz_pilot_ai.Billing.Credits.{
  AiUsage, Ledger, UsageReceipt, UsageStatus, succeeded, blocked_by_credit_limit, compute_balance,
  sum_usage, sum_credits, log_usage, announce_first, record_usage,
}

sum_usage-append :
    (w : ℕ) (us : List AiUsage) (u : AiUsage)
    → sum_usage w (us ++ u ∷ [])
      ≡ sum_usage w us + (if u.workspace_id == w then u.credits_consumed else 0)
unfolding sum_usage
sum_usage-append w [] u = ground arith
sum_usage-append w (v ∷ us) u = let ih = sum_usage-append w us u in ground arith

announce_first-balance :
    (v w : ℕ) (l : Ledger) → compute_balance v (announce_first w l) ≡ compute_balance v l
unfolding compute_balance announce_first
announce_first-balance v w l = elim (Bool-cases (has_workspace_event w first_ai_action l.events)) [
  | inl e ↦ rw e refl
  | inr e ↦ rw e refl
]

log_usage-balance :
    (v w : ℕ) (verdict : UsageStatus) (n : ℕ) (l : Ledger)
    → compute_balance v (log_usage w verdict n l) ≡ compute_balance v l -ℤ (if w == v then n else 0)
unfolding compute_balance log_usage
log_usage-balance v w verdict n l =
    rw
      (sum_usage-append v l.usages
        (record { id = l.next_id; workspace_id = w; status = verdict; credits_consumed = n }))
      (sub_sub (sum_credits v l.credits) (sum_usage v l.usages) (if w == v then n else 0))

blocked-balance :
    (v w : ℕ) (l : Ledger)
    → compute_balance v (log_usage w blocked_by_credit_limit 0 l) ≡ compute_balance v l
blocked-balance v w l = elim (Bool-cases (w == v)) [
  | inl e ↦
      log_usage-balance v w blocked_by_credit_limit 0 l ∙ rw e (sub_zero (compute_balance v l))
  | inr e ↦
      log_usage-balance v w blocked_by_credit_limit 0 l ∙ rw e (sub_zero (compute_balance v l))
]

charged-balance :
    (v w n : ℕ) (l : Ledger)
    → compute_balance v (announce_first w (log_usage w succeeded n l))
      ≡ compute_balance v l -ℤ (if w == v then n else 0)
charged-balance v w n l =
    announce_first-balance v w (log_usage w succeeded n l) ∙ log_usage-balance v w succeeded n l

balance_of :
    (v w consumed : ℕ) (l : Ledger) (n : ℕ)
    → compute_balance w l -ℤ consumed ≡ pos n
    → compute_balance v (announce_first w (log_usage w succeeded consumed l))
      ≡ (if w == v then pos n else compute_balance v l)
balance_of v w consumed l n left = elim (Bool-cases (w == v)) [
  | inl t ↦
      let same : w ≡ v = (==_iff w v).0 t in
      charged-balance v w consumed l
      ∙ rw t (subst (λ u. compute_balance u l -ℤ consumed ≡ pos n) same left)
  | inr f ↦ charged-balance v w consumed l ∙ rw f (sub_zero (compute_balance v l))
]

-- A use that the balance does not cover: refused, logged at no cost, and no balance moves.
abbrev pub IsRefused : ℕ → Ledger → Result UsageReceipt × Ledger → Type 0
IsRefused w l r =
    (r.0 ≡ err (app insufficient_credits_error))
    × (r.1.usages
        ≡ l.usages
          ++ record {
            id = l.next_id;
            workspace_id = w;
            status = blocked_by_credit_limit;
            credits_consumed = 0;
          }
            ∷ [])
    × ((v : ℕ) → compute_balance v r.1 ≡ compute_balance v l)

-- A use that the balance covers: the balance that is left is reported, is not negative, and is the
-- balance of the new ledger, in which no other workspace's balance has moved.
abbrev pub IsCharged : ℕ → Ledger → Result UsageReceipt × Ledger → Type 0
IsCharged w l r =
    (n : ℕ) × (r.0 ≡ ok (record { usage_id = l.next_id; balance_after = pos n }))
    × ((v : ℕ) → compute_balance v r.1 ≡ (if w == v then pos n else compute_balance v l))

-- A use of credits is refused when the workspace's balance is below the cost, and is charged when it
-- is not. One that is refused throws the insufficient-credits error, leaves a logged row, and moves
-- no balance. One that is charged returns a balance that is not negative, which is the balance of the
-- new ledger, and leaves the balance of every other workspace.
pub record_usage_lem :
    (w consumed : ℕ) (l : Ledger)
    → ((below (compute_balance w l) consumed ≡ true) × IsRefused w l (record_usage w consumed l))
      ⊎ ((below (compute_balance w l) consumed ≡ false) × IsCharged w l (record_usage w consumed l))
unfolding record_usage log_usage
record_usage_lem w consumed l = elim (Bool-cases (below (compute_balance w l) consumed)) [
  | inl e ↦ inl (e, rw e (refl, refl, λ v. blocked-balance v w l))
  | inr e ↦
      let covered = sub_covered (compute_balance w l) consumed e in
      inr
        (e, rw e (covered.0, rw covered.1 refl, λ v. balance_of v w consumed l covered.0 covered.1))
]
