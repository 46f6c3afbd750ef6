-- ===== src/Billing/Credits.antt =====
-- backend/src/modules/billing/credit-ledger.service.ts: the supply of AI credits and their use. What
-- is stored of an AI call but never read (model, latency, related entity) is left out. The lock of
-- the workspace row makes each transaction one step.
pub mod Balance
use biz_pilot_ai.Prelude.{
  ℕ, suc, ◌+◌, Bool, true, false, ◌&&◌, ◌==◌, leb, if◌then◌else◌, List, [], ◌∷◌, ◌++◌, find_first,
  Option, none, some, ℤ, pos, ◌+ℤ◌, ◌-ℤ◌, below, or_else,
}
use biz_pilot_ai.Errors.{app, insufficient_credits_error}
use biz_pilot_ai.Effects.{Result, ok, err, M}
use biz_pilot_ai.ProductEvents.{ProductEvent, track_event, has_workspace_event, first_ai_action}

pub data CreditType : Type 0 where
  plan_grant rollover topup_purchase promotional refund manual_adjustment : CreditType

pub data UsageStatus : Type 0 where
  succeeded blocked_by_credit_limit : UsageStatus

pub record AiCredit : Type 0 where
  pub workspace_id : ℕ
  pub type : CreditType
  pub amount : ℤ
  pub balance_after : ℤ
  pub created_at : ℕ

pub record AiUsage : Type 0 where
  pub id : ℕ
  pub workspace_id : ℕ
  pub status : UsageStatus
  pub credits_consumed : ℕ

pub record Ledger : Type 0 where
  pub credits : List AiCredit
  pub usages : List AiUsage
  pub next_id : ℕ
  pub events : List ProductEvent

unfoldable pub sum_credits : ℕ → List AiCredit → ℤ
sum_credits w [] = pos 0
sum_credits w (c ∷ cs) =
    let rest = sum_credits w cs in if c.workspace_id == w then c.amount +ℤ rest else rest

unfoldable pub sum_usage : ℕ → List AiUsage → ℕ
sum_usage w [] = 0
sum_usage w (u ∷ us) =
    let rest = sum_usage w us in if u.workspace_id == w then u.credits_consumed + rest else rest

unfoldable pub compute_balance : ℕ → Ledger → ℤ
compute_balance w l = sum_credits w l.credits -ℤ sum_usage w l.usages

unfoldable pub assert_sufficient_credits : ℕ → ℕ → M Ledger Unit
assert_sufficient_credits w required l =
    if below (compute_balance w l) required
    then (err (app insufficient_credits_error), l)
    else (ok tt, l)

pub record UsageReceipt : Type 0 where
  pub usage_id : ℕ
  pub balance_after : ℤ

-- The row of one use, in the table whatever the verdict.
unfoldable pub log_usage : ℕ → UsageStatus → ℕ → Ledger → Ledger
log_usage w verdict consumed l = record l {
  usages =
      l.usages
      ++ record { id = l.next_id; workspace_id = w; status = verdict; credits_consumed = consumed }
        ∷ [];
  next_id = suc l.next_id;
}

-- The first successful AI action of a workspace is announced, once.
unfoldable pub announce_first : ℕ → Ledger → Ledger
announce_first w l =
    if has_workspace_event w first_ai_action l.events
    then l
    else record l { events = track_event w first_ai_action l.events }

unfoldable pub record_usage : ℕ → ℕ → M Ledger UsageReceipt
record_usage w consumed l =
    if below (compute_balance w l) consumed
    then (err (app insufficient_credits_error), log_usage w blocked_by_credit_limit 0 l)
    else (
      ok (record { usage_id = l.next_id; balance_after = compute_balance w l -ℤ consumed }),
      announce_first w (log_usage w succeeded consumed l),
    )

unfoldable pub grant_credits : ℕ → ℤ → Option CreditType → ℕ → Ledger → ℤ × Ledger
grant_credits w amount type now l = (
  compute_balance w l +ℤ amount,
  record l {
    credits =
        l.credits
        ++ record {
          workspace_id = w;
          type = or_else type plan_grant;
          amount = amount;
          balance_after = compute_balance w l +ℤ amount;
          created_at = now;
        }
          ∷ [];
  },
)
