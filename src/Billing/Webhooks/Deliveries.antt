-- ===== src/Billing/Webhooks/Deliveries.antt =====
-- Deliveries of one event: backend/src/modules/billing/webhook.service.ts.
use biz_pilot_ai.Prelude.{
  ℕ, ◌≡◌, refl, ◌∙◌, Bool, ==_refl, List, [], ◌∷◌, some, find_first, find_first-append_one,
  update_many, inl, inr, Bool-cases, Option-cases,
}
use biz_pilot_ai.Effects.{Result, ok, err}
use biz_pilot_ai.Billing.Subscriptions.{Office}
use biz_pilot_ai.Billing.Webhooks.{
  VerifiedEvent, WebhookEvent, Gateway, duplicate, has_event_id, has_row_id, new_event,
  mark_processed, mark_failed, record_outcome, insert_event, apply_event, receive, process_webhook,
}

-- A delivery whose event is recorded.
known :
    (e : VerifiedEvent) (meanwhile : Gateway → Gateway) (now : ℕ) (g : Gateway) {r : WebhookEvent}
    → find_first (has_event_id e.event_id) g.events ≡ some r
    → process_webhook (some e) meanwhile now g ≡ (duplicate e.event_id, g)
unfolding process_webhook
known e meanwhile now g found = rw (found, process_webhook) refl

-- An update that keeps what a condition asks keeps that a row meets it.
still_found :
    (q p : WebhookEvent → Bool) (f : WebhookEvent → WebhookEvent) (xs : List WebhookEvent)
    {c : WebhookEvent}
    → ((x : WebhookEvent) → q (f x) ≡ q x)
    → find_first q xs ≡ some c
    → (d : WebhookEvent) × (find_first q (update_many p f xs) ≡ some d)
still_found q p f [] keeps e = cc
still_found q p f (x ∷ xs) {c} keeps e = elim (Bool-cases (q x)) [
  | inl t ↦ elim (Bool-cases (p x)) [
    | inl u ↦ (f x, rw u (rw (keeps x, t) refl))
    | inr u ↦ (x, rw u (rw t refl))
  ]
  | inr n ↦
      let ih = still_found q p f xs {c = c} keeps (rw n at e) in
      elim (Bool-cases (p x)) [
        | inl u ↦ (ih.0, rw u (rw (keeps x, n) ih.1))
        | inr u ↦ (ih.0, rw u (rw n ih.1))
      ]
]

recorded :
    (e : VerifiedEvent) (id now : ℕ) (g : Gateway) (r : Result (Unit {0}) × Office)
    {c : WebhookEvent}
    → find_first (has_event_id e.event_id) g.events ≡ some c
    → (d : WebhookEvent) × (find_first
          (has_event_id e.event_id)
          (record_outcome e id now g r).1.events
        ≡ some d)
recorded e id now g (ok _, o) found =
    still_found (has_event_id e.event_id) (has_row_id id) (mark_processed now) g.events (λ x. refl)
      found
recorded e id now g (err error, o) found =
    still_found (has_event_id e.event_id) (has_row_id id) (mark_failed error) g.events (λ x. refl)
      found

received_event :
    (e : VerifiedEvent) (now : ℕ) (g : Gateway)
    → (d : WebhookEvent) × (find_first (has_event_id e.event_id) (receive e now g).1.events
        ≡ some d)
unfolding receive
received_event e now g = elim (Option-cases (find_first (has_event_id e.event_id) g.events)) [
  | inr (c, found) ↦ (c, rw (found, receive) found)
  | inl missing ↦
      let h = recorded e g.next_id now (insert_event e g) (apply_event g.customers e now g.office) (
        find_first-append_one (has_event_id e.event_id) g.events (new_event g.next_id e) missing
          (==_refl e.event_id)) in
      (h.0, rw (missing, receive) h.1)
]

delivered :
    (e : VerifiedEvent) (meanwhile : Gateway → Gateway) (now : ℕ) (g : Gateway)
    → (d : WebhookEvent) × (find_first
          (has_event_id e.event_id)
          (process_webhook (some e) meanwhile now g).1.events
        ≡ some d)
unfolding process_webhook
delivered e meanwhile now g = elim (Option-cases (find_first (has_event_id e.event_id) g.events)) [
  | inr (c, found) ↦ (c, rw (found, process_webhook) found)
  | inl missing ↦
      let h = received_event e now (meanwhile g) in (h.0, rw (missing, process_webhook) h.1)
]

-- An event is applied once. After one delivery of an event, whatever came of it and whatever other
-- deliveries did while it was handled, a further delivery with the same event identifier is answered
-- as a duplicate, and changes nothing: no subscription moves and no notification is sent. That holds
-- of an event whose application failed, too.
pub process_webhook_once :
    (e again : VerifiedEvent) (meanwhile meanwhile' : Gateway → Gateway) (now later : ℕ)
    (g : Gateway)
    → again.event_id ≡ e.event_id
    → process_webhook (some again) meanwhile' later (process_webhook (some e) meanwhile now g).1
      ≡ (duplicate e.event_id, (process_webhook (some e) meanwhile now g).1)
process_webhook_once e again meanwhile meanwhile' now later g same =
    let (d, found) = delivered e meanwhile now g in
    let after = (process_webhook (some e) meanwhile now g).1 in
    let found' : find_first (has_event_id again.event_id) after.events ≡ some d = rw same found in
    known again meanwhile' later after found' ∙ rw same refl
