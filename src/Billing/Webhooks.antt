-- ===== src/Billing/Webhooks.antt =====
-- backend/src/modules/billing/webhook.service.ts: the events of the payment provider. What the
-- provider's signature check makes of a request is an argument; payloads are kept as far as they are
-- read.
pub mod Deliveries
use biz_pilot_ai.Prelude.{
  ℕ, suc, Bool, true, false, ◌==◌, List, [], ◌∷◌, ◌++◌, find_first, update_many, Option, none, some,
}
use biz_pilot_ai.Errors.{Thrown, app, validation_error}
use biz_pilot_ai.Effects.{Result, ok, err, M, ◌>>=◌, ◌>>◌, pure, modify}
use biz_pilot_ai.Notifications.{payment_failed}
use biz_pilot_ai.Billing.Subscriptions.{
  Office, SubscriptionStatus, active, past_due, canceled, resolve_notification_recipient,
  transition_subscription,
}
use biz_pilot_ai.Billing.Subscriptions.Plans.{notify}

pub data EventType : Type 0 where
  invoice_payment_succeeded invoice_payment_failed customer_subscription_deleted : EventType
  unrecognized : ℕ → EventType

pub record SubscriptionEventPayload : Type 0 where
  pub workspace_id : Option ℕ
  pub customer : Option ℕ

pub record VerifiedEvent : Type 0 where
  pub event_id : ℕ
  pub event_type : EventType
  pub payload : SubscriptionEventPayload

pub data WebhookStatus : Type 0 where
  received processed_event failed_event : WebhookStatus

pub record WebhookEvent : Type 0 where
  pub id : ℕ
  pub external_event_id : ℕ
  pub event_type : EventType
  pub status : WebhookStatus
  pub processed_at : Option ℕ
  pub error_message : Option Thrown

-- `customers` is the table of billing customers.
pub record Gateway : Type 0 where
  pub events : List WebhookEvent
  pub next_id : ℕ
  pub customers : ℕ → Option ℕ
  pub office : Office

pub data WebhookProcessResult : Type 0 where
  invalid_signature : WebhookProcessResult
  duplicate : (event_id : ℕ) → WebhookProcessResult
  ignored : (event_id : ℕ) (event_type : EventType) → WebhookProcessResult
  processed : (event_id : ℕ) (event_type : EventType) → WebhookProcessResult
  failed : (event_id : ℕ) (event_type : EventType) (error : Thrown) → WebhookProcessResult

unfoldable pub external_status_map : EventType → Option SubscriptionStatus
external_status_map invoice_payment_succeeded = some active
external_status_map invoice_payment_failed = some past_due
external_status_map customer_subscription_deleted = some canceled
external_status_map (unrecognized _) = none

unfoldable pub resolve_workspace_id : (ℕ → Option ℕ) → SubscriptionEventPayload → Option ℕ
resolve_workspace_id customers payload = elim payload.customer [
  | none ↦ payload.workspace_id
  | some c ↦ customers c
]

abbrev pub is_payment_failure : EventType → Bool
is_payment_failure invoice_payment_failed = true
is_payment_failure _ = false

-- The customer is told of a failed payment. 0 stands for the event type in the entity's text.
abbrev pub tell : Bool → ℕ → ℕ → M Office Unit
tell false w now = pure tt
tell true w now = resolve_notification_recipient w none >>= λ user.
    modify (notify w user payment_failed (w ∷ 0 ∷ now ∷ []) now)

abbrev pub apply_to : EventType → Option ℕ → SubscriptionStatus → ℕ → M Office Unit
apply_to type none to now o = (err (app validation_error), o)
apply_to type (some w) to now o =
    (transition_subscription w to none now >>= λ s. tell (is_payment_failure type) w now) o

unfoldable pub apply_event : (ℕ → Option ℕ) → VerifiedEvent → ℕ → M Office Unit
apply_event customers e now o = elim (external_status_map e.event_type) [
  | none ↦ (ok tt, o)
  | some to ↦ apply_to e.event_type (resolve_workspace_id customers e.payload) to now o
]

abbrev pub has_event_id : ℕ → WebhookEvent → Bool
has_event_id id e = e.external_event_id == id

abbrev pub has_row_id : ℕ → WebhookEvent → Bool
has_row_id id e = e.id == id

abbrev pub new_event : ℕ → VerifiedEvent → WebhookEvent
new_event id e = record {
  id = id;
  external_event_id = e.event_id;
  event_type = e.event_type;
  status = received;
  processed_at = none;
  error_message = none;
}

abbrev pub mark_processed : ℕ → WebhookEvent → WebhookEvent
mark_processed now e = record e { status = processed_event; processed_at = some now }

abbrev pub mark_failed : Thrown → WebhookEvent → WebhookEvent
mark_failed error e = record e { status = failed_event; error_message = some error }

abbrev pub mark : ℕ → (WebhookEvent → WebhookEvent) → Office → Gateway → Gateway
mark id f o g = record g { events = update_many (has_row_id id) f g.events; office = o }

-- What follows the application of an event that has been recorded.
abbrev pub record_outcome :
    VerifiedEvent → ℕ → ℕ → Gateway → Result (Unit {0}) × Office → WebhookProcessResult × Gateway
record_outcome e id now g (ok _, o) =
    (processed e.event_id e.event_type, mark id (mark_processed now) o g)
record_outcome e id now g (err error, o) =
    (failed e.event_id e.event_type error, mark id (mark_failed error) o g)

abbrev pub insert_event : VerifiedEvent → Gateway → Gateway
insert_event e g = record g {
  events = g.events ++ new_event g.next_id e ∷ [];
  next_id = suc g.next_id;
}

-- The insert, refused by the unique constraint on the provider's event identifier.
unfoldable pub receive : VerifiedEvent → ℕ → Gateway → WebhookProcessResult × Gateway
receive e now g = elim (find_first (has_event_id e.event_id) g.events) [
  | some _ ↦ (duplicate e.event_id, g)
  | none ↦
      record_outcome e g.next_id now (insert_event e g) (apply_event g.customers e now g.office)
]

-- `meanwhile` is what other deliveries commit between the check and the insert.
unfoldable pub process_webhook :
    Option VerifiedEvent → (Gateway → Gateway) → ℕ → Gateway → WebhookProcessResult × Gateway
process_webhook none meanwhile now g = (invalid_signature, g)
process_webhook (some e) meanwhile now g = elim (find_first (has_event_id e.event_id) g.events) [
  | some _ ↦ (duplicate e.event_id, g)
  | none ↦ receive e now (meanwhile g)
]
