-- ===== src/Errors.antt =====
-- common/errors/app-error.ts: the errors that reach a client, with their HTTP status and code.
-- `message` texts are left out, and so is the field list of a validation error, but for the code of
-- a conflict, which the constructor takes. A thrown value that is no `AppError` is a `Fault`.
use Prim.Native.String.{String}
use biz_pilot_ai.Prelude.{ℕ, Bool, true, false}

pub data AppError : Type 0 where
  validation_error : AppError
  malformed_json_error : AppError
  payload_too_large_error : AppError
  auth_required_error : AppError
  auth_token_invalid_error : AppError
  auth_token_expired_error : AppError
  invalid_credentials_error : AppError
  not_found_error : AppError
  insufficient_permission_error : AppError
  invalid_state_transition_error : AppError
  conflict_error : String → AppError
  rate_limit_error : AppError
  insufficient_credits_error : AppError
  plan_limit_reached_error : AppError
  downgrade_pending_blocked_error : AppError
  upstream_provider_error : AppError

unfoldable pub status : AppError → ℕ
status validation_error = 422
status malformed_json_error = 400
status payload_too_large_error = 413
status auth_required_error = 401
status auth_token_invalid_error = 401
status auth_token_expired_error = 401
status invalid_credentials_error = 401
status not_found_error = 404
status insufficient_permission_error = 403
status invalid_state_transition_error = 409
status (conflict_error code) = 409
status rate_limit_error = 429
status insufficient_credits_error = 402
status plan_limit_reached_error = 402
status downgrade_pending_blocked_error = 409
status upstream_provider_error = 502

unfoldable pub code : AppError → String
code validation_error = "VALIDATION_FAILED"
code malformed_json_error = "VALIDATION_MALFORMED_JSON"
code payload_too_large_error = "VALIDATION_PAYLOAD_TOO_LARGE"
code auth_required_error = "AUTH_REQUIRED"
code auth_token_invalid_error = "AUTH_TOKEN_INVALID"
code auth_token_expired_error = "AUTH_TOKEN_EXPIRED"
code invalid_credentials_error = "AUTH_INVALID_CREDENTIALS"
code not_found_error = "NOT_FOUND"
code insufficient_permission_error = "AUTHZ_INSUFFICIENT_PERMISSION"
code invalid_state_transition_error = "BUSINESS_INVALID_STATE_TRANSITION"
code (conflict_error c) = c
code rate_limit_error = "RATE_LIMIT_EXCEEDED"
code insufficient_credits_error = "BILLING_PLAN_LIMIT_REACHED"
code plan_limit_reached_error = "BILLING_PLAN_LIMIT_REACHED"
code downgrade_pending_blocked_error = "BILLING_DOWNGRADE_PENDING_BLOCKED"
code upstream_provider_error = "SERVER_UPSTREAM_UNAVAILABLE"

-- Any thrown value. Of one that is no `AppError` only three facts are ever asked: whether it is an
-- `Error`, whether its name is "AbortError", and whether its message matches a pattern for network
-- failures.
pub record Fault : Type 0 where
  pub is_error : Bool
  pub named_abort_error : Bool
  pub message_matches : Bool

pub data Thrown : Type 0 where
  app : AppError → Thrown
  fault : Fault → Thrown

-- What a database call or a plain `new Error(...)` throws.
abbrev pub plain_fault : Thrown
plain_fault = fault (record { is_error = true; named_abort_error = false; message_matches = false })
