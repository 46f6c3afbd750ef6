-- ===== src/Billing.antt =====
-- backend/src/modules/billing: credits, subscriptions, trials and payment events.
pub mod Credits
pub mod Subscriptions
pub mod Trials
pub mod Webhooks
