-- ===== src/Onboarding/Progress.antt =====
-- backend/src/modules/onboarding/onboarding.service.ts: steps are taken once, and in one direction.
use biz_pilot_ai.Prelude.{
  ℕ, true, false, ◌==◌, leb, none, some, ◌≡◌, refl, ap, ◌∙◌, inl, inr, arith, Option-cases,
  Bool-cases, find_first, find_first-update_many, All-find_first, All-of_mem, update_many,
}
use biz_pilot_ai.Onboarding.{
  Desk, Settings, OnboardingStep, completed, workspace_created, profile_completed, plan_chosen,
  team_invited, first_workflow_run, step_index, of_workspace, get_onboarding_state, write_step,
  announce_step, take_step, advance_onboarding_step,
}

reading_keeps : (w : ℕ) (d : Desk) → (get_onboarding_state w d).1 ≡ d
unfolding get_onboarding_state
reading_keeps w d = elim (Option-cases (find_first (λ v. v == w) d.workspaces)) [
  | inl e ↦ rw (e, get_onboarding_state) refl
  | inr (v, e) ↦ elim (Option-cases (find_first (of_workspace w) d.settings)) [
    | inl f ↦ rw (e, f, get_onboarding_state) refl
    | inr (s, f) ↦ rw (e, f, get_onboarding_state) refl
  ]
]

-- What an advance does to the desk, by where the workspace stands.
past :
    (w : ℕ) (step : OnboardingStep) (actor now : ℕ) (d : Desk) {s : Settings}
    → find_first (of_workspace w) d.settings ≡ some s
    → leb (step_index step) (step_index s.onboarding_step) ≡ true
    → (advance_onboarding_step w step actor now d).1 ≡ d
unfolding advance_onboarding_step
past w step actor now d e t = rw (e, advance_onboarding_step) (rw t (reading_keeps w d))

ahead :
    (w : ℕ) (step : OnboardingStep) (actor now : ℕ) (d : Desk) {s : Settings}
    → find_first (of_workspace w) d.settings ≡ some s
    → leb (step_index step) (step_index s.onboarding_step) ≡ false
    → (advance_onboarding_step w step actor now d).1 ≡ take_step w step actor now d
unfolding advance_onboarding_step
ahead w step actor now d e f =
    rw (e, advance_onboarding_step) (rw f (reading_keeps w (take_step w step actor now d)))

unknown :
    (w : ℕ) (step : OnboardingStep) (actor now : ℕ) (d : Desk)
    → find_first (of_workspace w) d.settings ≡ none
    → (advance_onboarding_step w step actor now d).1 ≡ d
unfolding advance_onboarding_step
unknown w step actor now d e = rw (e, advance_onboarding_step) refl

announce_step-settings :
    (step : OnboardingStep) (w actor now : ℕ) (d : Desk)
    → (announce_step step w actor now d).settings ≡ d.settings
announce_step-settings completed w actor now d = refl
announce_step-settings _ w actor now d = refl

write_step-workspace :
    (step : OnboardingStep) (w now : ℕ) (s : Settings)
    → of_workspace w (write_step step now s) ≡ of_workspace w s
write_step-workspace completed w now s = refl
write_step-workspace _ w now s = refl

write_step-step :
    (step : OnboardingStep) (now : ℕ) (s : Settings)
    → (write_step step now s).onboarding_step ≡ step
write_step-step completed now s = refl
write_step-step workspace_created now s = refl
write_step-step profile_completed now s = refl
write_step-step plan_chosen now s = refl
write_step-step team_invited now s = refl
write_step-step first_workflow_run now s = refl

after_step :
    (w : ℕ) (step : OnboardingStep) (actor now : ℕ) (d : Desk) {s : Settings}
    → find_first (of_workspace w) d.settings ≡ some s
    → find_first (of_workspace w) (take_step w step actor now d).settings
      ≡ some (write_step step now s)
after_step w step actor now d {s} e =
    ap (find_first (of_workspace w)) (
      announce_step-settings step w actor now
        (record d { settings = update_many (of_workspace w) (write_step step now) d.settings }))
    ∙ find_first-update_many (of_workspace w) (of_workspace w) (write_step step now) d.settings
        (write_step-workspace step w now)
        (All-find_first (λ _. Unit {0}) (of_workspace w) d.settings
          (All-of_mem (λ _. Unit {0}) d.settings (λ _ _. tt)) e).1
        e

reached :
    (step : OnboardingStep) (now : ℕ) (s : Settings)
    → leb (step_index step) (step_index (write_step step now s).onboarding_step) ≡ true
reached step now s = rw (write_step-step step now s) (ground arith)

-- To advance a workspace to a step a second time, whoever asks and whenever, changes nothing: no
-- setting is written, no event is tracked and no notification is sent again.
pub advance_onboarding_step_once :
    (w : ℕ) (step : OnboardingStep) (actor other now later : ℕ) (d : Desk)
    → (advance_onboarding_step w step other later (advance_onboarding_step w step actor now d).1).1
      ≡ (advance_onboarding_step w step actor now d).1
advance_onboarding_step_once w step actor other now later d =
    elim (Option-cases (find_first (of_workspace w) d.settings)) [
      | inl e ↦ rw (unknown w step actor now d e) (unknown w step other later d e)
      | inr (s, e) ↦ elim (Bool-cases (leb (step_index step) (step_index s.onboarding_step))) [
        | inl t ↦ rw (past w step actor now d e t) (past w step other later d e t)
        | inr f ↦ rw (ahead w step actor now d e f) (
            past w step other later (take_step w step actor now d) (after_step w step actor now d e)
              (reached step now s))
      ]
    ]
