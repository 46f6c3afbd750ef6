-- ===== src/Schedules.antt =====
-- Recurring schedules: backend/src/modules/scheduler/scheduled-workflow.service.ts. Instants are
-- milliseconds, texts are lists of character codes. The calendar of luxon and the time zone database
-- are parameters.
pub mod Times
pub mod Validity
pub mod Calendar
pub mod NextRun
pub mod Rows
pub mod Tick
pub mod Claiming
pub mod Anchors
use biz_pilot_ai.Prelude.{
  ℕ, zero, suc, ◌+◌, ◌-◌, ◌*◌, Bool, true, false, not, ◌&&◌, ◌||◌, ◌==◌, ltb, leb, if◌then◌else◌,
  List, [], ◌∷◌, ◌++◌, Text, is_blank, Option, none, some, or_else, ℤ, pos, negsuc, find_first,
  update_many, opt_eq,
}
use biz_pilot_ai.Errors.{Thrown, app, validation_error, not_found_error}
use biz_pilot_ai.Effects.{Result, ok, err}

pub data ScheduleIntervalUnit : Type 0 where
  minute hour day week month : ScheduleIntervalUnit

-- A number of JavaScript: `between n` lies strictly between n and n + 1.
pub data Number : Type 0 where
  whole between : ℤ → Number

-- `intervalValue`, `timeOfDay`, `dayOfWeek` and `timezone` may be missing.
pub record ScheduledWorkflowInput : Type 0 where
  pub workspace_id : ℕ
  pub workflow_definition_key : ℕ
  pub business_profile_id : Option ℕ
  pub created_by_user_id : Option ℕ
  pub name : Text
  pub interval_unit : ScheduleIntervalUnit
  pub interval_value : Option Number
  pub time_of_day : Option Text
  pub day_of_week : Option Number
  pub timezone : Option ℕ

pub data FieldError : Type 0 where
  name_required : FieldError
  interval_value_invalid interval_value_too_frequent : FieldError
  timezone_invalid : FieldError
  time_of_day_required time_of_day_invalid_format : FieldError
  day_of_week_required day_of_week_invalid : FieldError

abbrev pub utc : ℕ
utc = 0

abbrev pub min_minute_interval : ℕ
min_minute_interval = 5

-- A number below a natural number.
abbrev pub is_below : Number → ℕ → Bool
is_below (whole (pos a)) b = ltb a b
is_below (whole (negsuc a)) b = true
is_below (between (pos a)) b = ltb a b
is_below (between (negsuc a)) b = true

abbrev pub is_integer : Number → Bool
is_integer (whole z) = true
is_integer (between z) = false

abbrev pub is_minute : ScheduleIntervalUnit → Bool
is_minute minute = true
is_minute _ = false

abbrev pub is_week : ScheduleIntervalUnit → Bool
is_week week = true
is_week _ = false

abbrev pub has_time_of_day : ScheduleIntervalUnit → Bool
has_time_of_day minute = false
has_time_of_day hour = false
has_time_of_day _ = true

-- `\d`.
abbrev pub is_digit : ℕ → Bool
is_digit c = leb 48 c && leb c 57

-- `TIME_OF_DAY_PATTERN`, which two digits, a colon and two digits match.
abbrev pub matches_time : Text → Bool
matches_time (a ∷ b ∷ c ∷ d ∷ e ∷ []) =
    ((a == 48 || a == 49) && is_digit b || (a == 50 && (leb 48 b && leb b 51)))
    && (c == 58 && (leb 48 d && leb d 53 && is_digit e))
matches_time _ = false

-- The groups of the match, as numbers.
abbrev pub hour_and_minute : Text → ℕ × ℕ
hour_and_minute (a ∷ b ∷ c ∷ d ∷ e ∷ []) = ((a - 48) * 10 + (b - 48), (d - 48) * 10 + (e - 48))
hour_and_minute _ = (0, 0)

unfoldable pub parse_time_of_day : Text → Result (ℕ × ℕ)
parse_time_of_day t = if matches_time t then ok (hour_and_minute t) else err (app validation_error)

abbrev pub report : Bool → FieldError → List FieldError
report true e = e ∷ []
report false e = []

abbrev pub time_of_day_errors : Option Text → List FieldError
time_of_day_errors none = time_of_day_required ∷ []
time_of_day_errors (some []) = time_of_day_required ∷ []
time_of_day_errors (some (c ∷ cs)) = report (not (matches_time (c ∷ cs))) time_of_day_invalid_format

abbrev pub day_of_week_errors : Option Number → List FieldError
day_of_week_errors none = day_of_week_required ∷ []
day_of_week_errors (some n) =
    report (not (is_integer n) || (is_below n 0 || not (is_below n 7))) day_of_week_invalid

-- The errors that `validateScheduleInput` collects.
unfoldable pub schedule_errors : (ℕ → Bool) → ScheduledWorkflowInput → List FieldError
schedule_errors is_valid_timezone input =
    let interval_value = or_else input.interval_value (whole (pos 1)) in
    report (is_blank input.name) name_required
    ++ (report (not (is_integer interval_value) || is_below interval_value 1) interval_value_invalid
        ++ (report (is_minute input.interval_unit && is_below interval_value min_minute_interval)
              interval_value_too_frequent
            ++ (report (not (is_valid_timezone (or_else input.timezone utc))) timezone_invalid
                ++ ((if has_time_of_day input.interval_unit
                      then time_of_day_errors input.time_of_day
                      else [])
                    ++ (if is_week input.interval_unit
                        then day_of_week_errors input.day_of_week
                        else [])))))

unfoldable pub validate_schedule_input : (ℕ → Bool) → ScheduledWorkflowInput → Result (Unit {0})
unfolding schedule_errors
validate_schedule_input is_valid_timezone input = elim (schedule_errors is_valid_timezone input) [
  | [] ↦ ok tt
  | e ∷ es ↦ err (app validation_error)
]
