-- ===== src/Onboarding.antt =====
-- backend/src/modules/onboarding/onboarding.service.ts: the steps of onboarding, kept in a
-- workspace's settings. A step is the checked union of the source, so the `includes` test on it
-- always passes; a stored step is one of the six.
pub mod Progress
use biz_pilot_ai.Prelude.{
  ℕ, Bool, Option, none, some, List, [], ◌∷◌, ◌==◌, leb, if◌then◌else◌, find_first, update_many,
}
use biz_pilot_ai.Errors.{app, not_found_error, validation_error}
use biz_pilot_ai.Effects.{ok, err, M}
use biz_pilot_ai.Notifications.{Mailbox, create_notification, onboarding_reminder}
use biz_pilot_ai.ProductEvents.{
  ProductEvent, track_event, onboarding_completed, onboarding_step_completed, onboarding_skipped,
}

pub data OnboardingStep : Type 0 where
  workspace_created profile_completed plan_chosen team_invited : OnboardingStep
  first_workflow_run completed : OnboardingStep

pub data OnboardingStatus : Type 0 where
  not_started in_progress done skipped : OnboardingStatus

-- `ONBOARDING_STEPS.indexOf`.
abbrev pub step_index : OnboardingStep → ℕ
step_index workspace_created = 0
step_index profile_completed = 1
step_index plan_chosen = 2
step_index team_invited = 3
step_index first_workflow_run = 4
step_index completed = 5

pub record Settings : Type 0 where
  pub workspace_id : ℕ
  pub onboarding_step : OnboardingStep
  pub onboarding_status : OnboardingStatus
  pub onboarding_completed_at : Option ℕ

-- What the onboarding service reads and writes; `workspaces` holds those that are not deleted.
pub record Desk : Type 0 where
  pub settings : List Settings
  pub workspaces : List ℕ
  pub mailbox : Mailbox
  pub events : List ProductEvent

pub record OnboardingState : Type 0 where
  pub step : OnboardingStep
  pub status : OnboardingStatus
  pub completed_at : Option ℕ

abbrev pub of_workspace : ℕ → Settings → Bool
of_workspace w s = s.workspace_id == w

-- The part of `getOnboardingState` that onboarding owns; the activation counts are left out, but not
-- the error for a workspace that is gone.
unfoldable pub get_onboarding_state : ℕ → M Desk OnboardingState
get_onboarding_state w d = elim (find_first (λ v. v == w) d.workspaces) [
  | none ↦ (err (app not_found_error), d)
  | some _ ↦ elim (find_first (of_workspace w) d.settings) [
    | none ↦ (err (app not_found_error), d)
    | some s ↦ (
      ok (record {
        step = s.onboarding_step;
        status = s.onboarding_status;
        completed_at = s.onboarding_completed_at;
      }),
      d,
    )
  ]
]

abbrev pub write_step : OnboardingStep → ℕ → Settings → Settings
write_step completed now s = record s {
  onboarding_step = completed;
  onboarding_completed_at = some now;
  onboarding_status = done;
}
write_step step now s = record s { onboarding_step = step }

abbrev pub announce_step : OnboardingStep → ℕ → ℕ → ℕ → Desk → Desk
announce_step completed w actor now d = record d {
  mailbox =
      (create_notification
        (record {
          workspace_id = some w;
          recipient_user_id = actor;
          type = onboarding_reminder;
          related_entity_id = some (w ∷ []);
        })
        now d.mailbox).1;
  events = track_event w onboarding_completed d.events;
}
announce_step step w actor now d = record d {
  events = track_event w onboarding_step_completed d.events;
}

-- The writes of a step that lies ahead.
abbrev pub take_step : ℕ → OnboardingStep → ℕ → ℕ → Desk → Desk
take_step w step actor now d =
    announce_step step w actor now
      (record d { settings = update_many (of_workspace w) (write_step step now) d.settings })

unfoldable pub advance_onboarding_step : ℕ → OnboardingStep → ℕ → ℕ → M Desk OnboardingState
unfolding get_onboarding_state
advance_onboarding_step w step actor now d = elim (find_first (of_workspace w) d.settings) [
  | none ↦ (err (app not_found_error), d)
  | some s ↦
      if leb (step_index step) (step_index s.onboarding_step)
      then get_onboarding_state w d
      else get_onboarding_state w (take_step w step actor now d)
]

abbrev pub skip_from : OnboardingStatus → ℕ → M Desk OnboardingState
skip_from done w d = (err (app validation_error), d)
skip_from skipped w d = get_onboarding_state w d
skip_from _ w d = get_onboarding_state w (record d {
  settings =
      update_many (of_workspace w) (λ s. record s { onboarding_status = skipped }) d.settings;
  events = track_event w onboarding_skipped d.events;
})

unfoldable pub skip_onboarding : ℕ → M Desk OnboardingState
unfolding get_onboarding_state
skip_onboarding w d = elim (find_first (of_workspace w) d.settings) [
  | none ↦ (err (app not_found_error), d)
  | some s ↦ skip_from s.onboarding_status w d
]
