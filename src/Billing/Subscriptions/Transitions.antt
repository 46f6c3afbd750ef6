-- ===== src/Billing/Subscriptions/Transitions.antt =====
-- The subscription state machine: backend/src/modules/billing/subscription.service.ts.
use mathlib.Core.Path.{subst}
use mathlib.Core.List.{Memᴰ}
use mathlib.Core.Option.{some-injective}
use mathlib.Core.Bool.{false≢true}
use biz_pilot_ai.Prelude.{
  ℕ, Bool, true, false, ◌||◌, leb, ==_iff, Option, none, some, List, [], ◌∷◌, ◌≡◌, ◌≢◌, refl, sym,
  ap, ◌∙◌, inl, inr, Bool-cases, Option-cases, Apart, Apart-mem, update_many, mem-update_many,
}
use biz_pilot_ai.Effects.{err, resume}
use biz_pilot_ai.Errors.{app, not_found_error}
use biz_pilot_ai.Billing.Subscriptions.{
  Office, Subscription, SubscriptionStatus, is_current, latest, move_row,
  get_current_subscription_lem, has_id, get_current_subscription, transition_subscription,
  transition, assert_legal_transition, revise, legal_transitions, same_status,
}

-- The unique identifiers of rows.
abbrev pub DistinctIds : List Subscription → Type 0
DistinctIds = Apart (λ s t. s.id ≢ t.id)

pub latest-mem :
    (p : Subscription → Bool) (ss : List Subscription) {s : Subscription}
    → latest p ss ≡ some s
    → Memᴰ s ss × (p s ≡ true)
unfolding latest
latest-mem p [] e = cc
latest-mem p (x ∷ ss) {s} e = elim (Bool-cases (p x)) [
  | inl t ↦ elim (Option-cases (latest p ss)) [
    | inl missing ↦
        let same : x ≡ s = some-injective x s (rw missing at (rw t at e)) in
        (Memᴰ.head (sym same), subst (λ y. p y ≡ true) same t)
    | inr (y, later) ↦
        let ih = latest-mem p ss later in
        elim (Bool-cases (leb y.created_at x.created_at)) [
          | inl c ↦
              let same : x ≡ s = some-injective x s (rw c at (rw later at (rw t at e))) in
              (Memᴰ.head (sym same), subst (λ y. p y ≡ true) same t)
          | inr c ↦
              let same : y ≡ s = some-injective y s (rw c at (rw later at (rw t at e))) in
              subst (λ z. Memᴰ z (x ∷ ss) × (p z ≡ true)) same (Memᴰ.tail ih.0, ih.1)
        ]
  ]
  | inr f ↦ let ih = latest-mem p ss {s = s} (rw f at e) in (Memᴰ.tail ih.0, ih.1)
]

pub get_none :
    (w : ℕ) (o : Office)
    → latest (is_current w) o.subscriptions ≡ none
    → get_current_subscription w o ≡ (err (app not_found_error), o)
unfolding get_current_subscription
get_none w o e = rw (e, get_current_subscription) refl

no_current :
    (w : ℕ) (to : SubscriptionStatus) (actor : Option ℕ) (now : ℕ) (o : Office)
    → latest (is_current w) o.subscriptions ≡ none
    → (transition_subscription w to actor now o).1 ≡ o
unfolding transition_subscription
no_current w to actor now o e =
    ap (λ r. (resume r (λ s. transition s to actor now)).1) (get_none w o e)

illegal :
    (s : Subscription) (to : SubscriptionStatus) (actor : Option ℕ) (now : ℕ) (o : Office)
    → (same_status s.status to || legal_transitions s.status to) ≡ false
    → (transition s to actor now o).1 ≡ o
unfolding transition assert_legal_transition
illegal s to actor now o e = rw e refl

legal :
    (s : Subscription) (to : SubscriptionStatus) (actor : Option ℕ) (now : ℕ) (o : Office)
    → (same_status s.status to || legal_transitions s.status to) ≡ true
    → (transition s to actor now o).1.subscriptions
      ≡ update_many (has_id s.id) (move_row to now) o.subscriptions
unfolding transition assert_legal_transition revise
legal s to actor now o e = rw e refl

of_current :
    (w : ℕ) (to : SubscriptionStatus) (actor : Option ℕ) (now : ℕ) (o : Office) {s : Subscription}
    → latest (is_current w) o.subscriptions ≡ some s
    → transition_subscription w to actor now o ≡ transition s to actor now o
unfolding transition_subscription
of_current w to actor now o e =
    ap (λ r. resume r (λ s. transition s to actor now)) (get_current_subscription_lem w o e)

-- Where identifiers are unique, a row that is not current differs from the current one by its own.
other_id :
    (w : ℕ) (ss : List Subscription) {r s : Subscription}
    → DistinctIds ss
    → Memᴰ r ss
    → is_current w r ≡ false
    → latest (is_current w) ss ≡ some s
    → has_id s.id r ≡ false
other_id w ss {r} {s} distinct m other e =
    let found = latest-mem (is_current w) ss e in
    elim (Bool-cases (has_id s.id r)) [
      | inr f ↦ f
      | inl t ↦
          let same : r.id ≡ s.id = (==_iff r.id s.id).0 t in
          elim (Apart-mem (λ s t. s.id ≢ t.id) ss distinct m found.0) [
            | inl eq ↦ absurd (false≢true (sym other ∙ (ap (is_current w) eq ∙ found.1)))
            | inr (inl apart) ↦ absurd (apart same)
            | inr (inr apart) ↦ absurd (apart (sym same))
          ]
    ]

-- Where identifiers are unique, a transition of a workspace's subscription, whether it succeeds or
-- not, leaves in place every row that has expired and every row of another workspace.
pub transition_subscription-keeps :
    (w : ℕ) (to : SubscriptionStatus) (actor : Option ℕ) (now : ℕ) (o : Office) {r : Subscription}
    → DistinctIds o.subscriptions
    → Memᴰ r o.subscriptions
    → is_current w r ≡ false
    → Memᴰ r (transition_subscription w to actor now o).1.subscriptions
transition_subscription-keeps w to actor now o {r} distinct m other =
    elim (Option-cases (latest (is_current w) o.subscriptions)) [
      | inl e ↦ rw (no_current w to actor now o e) m
      | inr (s, e) ↦ elim (Bool-cases (same_status s.status to || legal_transitions s.status to)) [
        | inl t ↦ rw (of_current w to actor now o e) (
            rw (legal s to actor now o t) (
              mem-update_many (has_id s.id) (move_row to now) o.subscriptions m
                (other_id w o.subscriptions distinct m other e)))
        | inr f ↦ rw (of_current w to actor now o e) (rw (illegal s to actor now o f) m)
      ]
    ]
