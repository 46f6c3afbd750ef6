-- ===== src/ProductEvents.antt =====
-- backend/src/modules/analytics/product-event.service.ts: the log of product events, of which only
-- the workspace and the name are kept here. An insert that fails is only logged by the code; the
-- model takes it to succeed.
use biz_pilot_ai.Prelude.{
  ℕ, Bool, true, false, ◌&&◌, List, [], ◌∷◌, ◌++◌, ◌==◌, find_first, none, some,
}

pub data ProductEventName : Type 0 where
  workflow_created workflow_completed first_workflow_started first_workflow_completed :
      ProductEventName
  first_ai_action upgrade_completed subscription_canceled subscription_reactivated :
      ProductEventName
  onboarding_completed onboarding_step_completed onboarding_skipped : ProductEventName

abbrev pub name_index : ProductEventName → ℕ
name_index workflow_created = 0
name_index workflow_completed = 1
name_index first_workflow_started = 2
name_index first_workflow_completed = 3
name_index first_ai_action = 4
name_index upgrade_completed = 5
name_index subscription_canceled = 6
name_index subscription_reactivated = 7
name_index onboarding_completed = 8
name_index onboarding_step_completed = 9
name_index onboarding_skipped = 10

pub record ProductEvent : Type 0 where
  pub workspace_id : ℕ
  pub event_name : ProductEventName

unfoldable pub track_event : ℕ → ProductEventName → List ProductEvent → List ProductEvent
track_event workspace name events =
    events ++ record { workspace_id = workspace; event_name = name } ∷ []

abbrev pub is_event : ℕ → ProductEventName → ProductEvent → Bool
is_event workspace name e =
    e.workspace_id == workspace && name_index e.event_name == name_index name

unfoldable pub has_workspace_event : ℕ → ProductEventName → List ProductEvent → Bool
has_workspace_event workspace name events = elim (find_first (is_event workspace name) events) [
  | none ↦ false
  | some _ ↦ true
]
