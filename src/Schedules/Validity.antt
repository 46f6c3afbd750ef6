-- ===== src/Schedules/Validity.antt =====
-- What `validateScheduleInput` of backend/src/modules/scheduler/scheduled-workflow.service.ts accepts.
use mathlib.Core.Bool.{false≢true}
use biz_pilot_ai.Prelude.{
  ℕ, ◌≡◌, ◌≤◌, ◌<◌, ◌↔◌, ◌⊎◌, inl, inr, ◌∙◌, sym, refl, ap, Bool, true, false, not, ◌&&◌, ◌||◌, ltb,
  if◌then◌else◌, List, [], ◌∷◌, ◌++◌, Text, is_blank, Option, none, some, or_else, pos, negsuc,
  arith,
}
use biz_pilot_ai.Errors.{app, validation_error}
use biz_pilot_ai.Effects.{Result, ok, err}
use biz_pilot_ai.Schedules.{
  ScheduledWorkflowInput, Number, whole, between, FieldError, utc, is_minute, is_week,
  has_time_of_day, matches_time, is_integer, is_below, report, schedule_errors,
  validate_schedule_input, time_of_day_errors, day_of_week_errors, time_of_day_invalid_format,
  day_of_week_invalid, name_required, interval_value_invalid, interval_value_too_frequent,
  timezone_invalid,
}
use biz_pilot_ai.Schedules.Times.{print_time, five, matches_time-print_time}

-- What a schedule must be, field by field.
unfoldable pub IsValidSchedule : (ℕ → Bool) → ScheduledWorkflowInput → Type 0
IsValidSchedule is_valid_timezone input =
    (is_blank input.name ≡ false)
    × ((n : ℕ) × (or_else input.interval_value (whole (pos 1)) ≡ whole (pos n))
        × (1 ≤ n)
        × ((is_minute input.interval_unit ≡ false) ⊎ (5 ≤ n)))
    × (is_valid_timezone (or_else input.timezone utc) ≡ true)
    × ((has_time_of_day input.interval_unit ≡ false)
        ⊎ ((h : ℕ) × ((m : ℕ) × (h < 24) × (m < 60) × (input.time_of_day ≡ some (print_time h m)))))
    × ((is_week input.interval_unit ≡ false)
        ⊎ ((d : ℕ) × (d ≤ 6) × (input.day_of_week ≡ some (whole (pos d)))))

nil_differs {ℓ} : {A : Type ℓ} {x : A} {xs : List A} → x ∷ xs ≡ [] → ⊥
nil_differs {A = A} e =
    absurd (false≢true (ap (λ (ys : List A). elim ys [ [] ↦ true | y ∷ zs ↦ false ]) e))

append-eq-nil {ℓ} : {A : Type ℓ} (xs ys : List A) → xs ++ ys ≡ [] → (xs ≡ []) × (ys ≡ [])
append-eq-nil [] ys e = (refl, e)
append-eq-nil (x ∷ xs) ys e = absurd (nil_differs e)

report-eq-nil : (b : Bool) (e : FieldError) → report b e ≡ [] → b ≡ false
report-eq-nil true e h = absurd (nil_differs h)
report-eq-nil false e h = refl

interval_ok :
    (minutely : Bool) (v : Number)
    → (not (is_integer v) || is_below v 1) ≡ false
    → (minutely && is_below v 5) ≡ false
    → (n : ℕ) × (v ≡ whole (pos n)) × (1 ≤ n) × ((minutely ≡ false) ⊎ (5 ≤ n))
interval_ok true (whole (pos n)) e f = (n, refl, ground (arith, e), inr (ground (arith, f)))
interval_ok false (whole (pos n)) e f = (n, refl, ground (arith, e), inl refl)
interval_ok m (whole (negsuc n)) e f = absurd (false≢true (sym e))
interval_ok m (between z) e f = absurd (false≢true (sym e))

time_ok :
    (t : Option Text)
    → time_of_day_errors t ≡ []
    → (h : ℕ) × ((m : ℕ) × (h < 24) × (m < 60) × (t ≡ some (print_time h m)))
time_ok none e = absurd (nil_differs e)
time_ok (some []) e = absurd (nil_differs e)
time_ok (some (a ∷ [])) e = absurd (nil_differs e)
time_ok (some (a ∷ b ∷ [])) e = absurd (nil_differs e)
time_ok (some (a ∷ b ∷ c ∷ [])) e = absurd (nil_differs e)
time_ok (some (a ∷ b ∷ c ∷ d ∷ [])) e = absurd (nil_differs e)
time_ok (some (a ∷ b ∷ c ∷ d ∷ f ∷ g ∷ rest)) e = absurd (nil_differs e)
time_ok (some (a ∷ b ∷ c ∷ d ∷ f ∷ [])) e =
    let matched : matches_time (a ∷ b ∷ c ∷ d ∷ f ∷ []) ≡ true =
      unreported (matches_time (a ∷ b ∷ c ∷ d ∷ f ∷ [])) e in
    let (h, (m, low, high, same)) = five a b c d f matched in (h, (m, low, high, ap some same))
  where
    unreported : (b : Bool) → report (not b) time_of_day_invalid_format ≡ [] → b ≡ true
    unreported true e = refl
    unreported false e = absurd (nil_differs e)

day_ok :
    (d : Option Number) → day_of_week_errors d ≡ [] → (n : ℕ) × (n ≤ 6) × (d ≡ some (whole (pos n)))
day_ok none e = absurd (nil_differs e)
day_ok (some (whole (pos n))) e =
    (n, ground (arith, report-eq-nil (ltb n 0 || not (ltb n 7)) day_of_week_invalid e), refl)
day_ok (some (whole (negsuc n))) e = absurd (nil_differs e)
day_ok (some (between z)) e = absurd (nil_differs e)

append_nil_nil {ℓ} : {A : Type ℓ} (xs ys : List A) → xs ≡ [] → ys ≡ [] → xs ++ ys ≡ []
append_nil_nil xs ys e f = rw (e, f) refl

report_nil : (b : Bool) (e : FieldError) → b ≡ false → report b e ≡ []
report_nil b e h = rw h refl

time_clean : (h m : ℕ) → h < 24 → m < 60 → time_of_day_errors (some (print_time h m)) ≡ []
time_clean h m low high = go (print_time h m) (matches_time-print_time h m low high)
  where
    go : (t : Text) → matches_time t ≡ true → time_of_day_errors (some t) ≡ []
    go [] e = absurd (false≢true e)
    go (c ∷ cs) e = rw e refl

if_nil {ℓ} :
    {A : Type ℓ} (b : Bool) (xs : List A) → (b ≡ false) ⊎ (xs ≡ []) → (if b then xs else []) ≡ []
if_nil b xs (inl e) = rw e refl
if_nil true xs (inr e) = e
if_nil false xs (inr e) = refl

if-eq-nil {ℓ} :
    {A : Type ℓ} (b : Bool) (xs : List A) → (if b then xs else []) ≡ [] → (b ≡ false) ⊎ (xs ≡ [])
if-eq-nil true xs e = inr e
if-eq-nil false xs e = inl refl

module _ (is_valid_timezone : ℕ → Bool) (input : ScheduledWorkflowInput) where
  clean_when_valid :
      validate_schedule_input is_valid_timezone input ≡ ok tt
      → schedule_errors is_valid_timezone input ≡ []
  unfolding validate_schedule_input
  clean_when_valid e = go (schedule_errors is_valid_timezone input) e
    where
      go :
          (errors : List FieldError)
          → (elim errors as (λ _. Result (Unit {0})) [
            | [] ↦ ok tt
            | f ∷ fs ↦ err (app validation_error)
          ])
            ≡ ok tt
          → errors ≡ []
      go [] h = refl
      go (f ∷ fs) h = cc

  valid_when_clean :
      schedule_errors is_valid_timezone input ≡ []
      → validate_schedule_input is_valid_timezone input ≡ ok tt
  unfolding validate_schedule_input
  valid_when_clean e = rw (e, validate_schedule_input) refl

  interval : Number
  interval = or_else input.interval_value (whole (pos 1))

  known : (b : Bool) → not b ≡ false → b ≡ true
  known true e = refl
  known false e = absurd (false≢true (sym e))

  frequent :
      (n : ℕ)
      → (is_minute input.interval_unit ≡ false) ⊎ (5 ≤ n)
      → (is_minute input.interval_unit && ltb n 5) ≡ false
  frequent n (inl e) = rw e refl
  frequent n (inr l) = ground (arith, l)

  -- Validation passes exactly the inputs with a name that is not blank, an interval that is a
  -- positive integer, of five at least if it counts minutes, a known time zone, a time of day from
  -- 00:00 to 23:59 if the unit is the day or longer, and a day from 0 to 6 if it is the week.
  pub validate_schedule_input_iff :
      (validate_schedule_input is_valid_timezone input ≡ ok tt)
      ↔ IsValidSchedule is_valid_timezone input
  unfolding schedule_errors IsValidSchedule interval
  validate_schedule_input_iff = (there, back_again)
    where
      there :
          validate_schedule_input is_valid_timezone input ≡ ok tt
          → IsValidSchedule is_valid_timezone input
      there e =
          let (a, rest) =
            append-eq-nil (report (is_blank input.name) name_required) _ (clean_when_valid e) in
          let (b, rest') =
            append-eq-nil
              (report (not (is_integer interval) || is_below interval 1) interval_value_invalid) _
              rest in
          let (c, rest'') =
            append-eq-nil
              (report (is_minute input.interval_unit && is_below interval 5)
                interval_value_too_frequent)
              _ rest' in
          let (d, rest3) =
            append-eq-nil
              (report (not (is_valid_timezone (or_else input.timezone utc))) timezone_invalid) _
              rest'' in
          let (f, g) =
            append-eq-nil
              (if has_time_of_day input.interval_unit
                then time_of_day_errors input.time_of_day
                else [])
              _ rest3 in
          (
            report-eq-nil (is_blank input.name) name_required a,
            interval_ok (is_minute input.interval_unit) interval
                (report-eq-nil (not (is_integer interval) || is_below interval 1)
                  interval_value_invalid b)
                (report-eq-nil (is_minute input.interval_unit && is_below interval 5)
                  interval_value_too_frequent c),
            known (is_valid_timezone (or_else input.timezone utc)) (
                report-eq-nil (not (is_valid_timezone (or_else input.timezone utc)))
                  timezone_invalid d),
            elim (if-eq-nil (has_time_of_day input.interval_unit)
                (time_of_day_errors input.time_of_day) f) [
                  | inl n ↦ inl n
                  | inr y ↦ inr (time_ok input.time_of_day y)
                ],
            elim (if-eq-nil (is_week input.interval_unit) (day_of_week_errors input.day_of_week)
                g) [ inl n ↦ inl n | inr y ↦ inr (day_ok input.day_of_week y) ],
          )

      back_again :
          IsValidSchedule is_valid_timezone input
          → validate_schedule_input is_valid_timezone input ≡ ok tt
      back_again (named, (n, value, positive, often), zoned, timed, on_day) = valid_when_clean (
          append_nil_nil (report (is_blank input.name) name_required) _
            (report_nil (is_blank input.name) name_required named)
            (append_nil_nil
              (report (not (is_integer interval) || is_below interval 1) interval_value_invalid) _
              (report_nil (not (is_integer interval) || is_below interval 1) interval_value_invalid
                (rw value (ground (arith, positive))))
              (append_nil_nil
                (report (is_minute input.interval_unit && is_below interval 5)
                  interval_value_too_frequent)
                _
                (report_nil (is_minute input.interval_unit && is_below interval 5)
                  interval_value_too_frequent (rw value (frequent n often)))
                (append_nil_nil
                  (report (not (is_valid_timezone (or_else input.timezone utc))) timezone_invalid) _
                  (report_nil (not (is_valid_timezone (or_else input.timezone utc)))
                    timezone_invalid (ap not zoned))
                  (append_nil_nil
                    (if has_time_of_day input.interval_unit
                      then time_of_day_errors input.time_of_day
                      else [])
                    _
                    (if_nil (has_time_of_day input.interval_unit)
                      (time_of_day_errors input.time_of_day)
                      (elim timed [
                        | inl k ↦ inl k
                        | inr (h, (m, low, high, same)) ↦
                            inr (ap time_of_day_errors same ∙ time_clean h m low high)
                      ]))
                    (if_nil (is_week input.interval_unit) (day_of_week_errors input.day_of_week)
                      (elim on_day [
                        | inl k ↦ inl k
                        | inr (d, low, same) ↦ inr (
                            ap day_of_week_errors same
                            ∙ report_nil (ltb d 0 || not (ltb d 7)) day_of_week_invalid
                                (ground (arith, low)))
                      ])))))))
