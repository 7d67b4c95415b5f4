-- ===== src/Errors.antt =====
-- errors.rs: the application's errors and the HTTP responses that they become.
use systemd_monitoring_mcp.Base.{ℕ, max, String, Option, none, some, []}
use systemd_monitoring_mcp.Text.{Text, text}
use systemd_monitoring_mcp.Json.{Json, json_object}

pub data AppError : Type 0 where
  bad_request : String → String → AppError
  bad_request_with_details : String → String → Json → AppError
  unauthorized : String → String → AppError
  forbidden : String → String → AppError
  internal : String → Text → AppError
  not_implemented : String → String → AppError
  too_many_requests : ℕ → AppError

-- The constructor function clamps the delay.
unfoldable pub new_too_many_requests : ℕ → AppError
new_too_many_requests retry_after_seconds = too_many_requests (max retry_after_seconds 1)

pub record ErrorResponse : Type 0 where
  pub code : Text
  pub message : Text
  pub details : Json

-- A response of the server: its status, its body and the one header that the code sets itself.
pub data Body : Type 0 where
  error_body : ErrorResponse → Body
  json_body : Json → Body
  no_body : Body

pub record Response : Type 0 where
  pub status : ℕ
  pub body : Body
  pub retry_after : Option ℕ

abbrev error_response : ℕ → Text → Text → Json → Option ℕ → Response
error_response status code message details retry_after = record {
  status = status;
  body = error_body (record { code = code; message = message; details = details });
  retry_after = retry_after;
}

-- `AppError::into_response`. The log record of an internal error is not part of the response.
unfoldable pub into_response : AppError → Response
into_response (bad_request code message) =
    error_response 400 (text code) (text message) (json_object []) none
into_response (bad_request_with_details code message details) =
    error_response 400 (text code) (text message) details none
into_response (unauthorized code message) =
    error_response 401 (text code) (text message) (json_object []) none
into_response (forbidden code message) =
    error_response 403 (text code) (text message) (json_object []) none
into_response (internal code message) =
    error_response 500 (text code) (text "internal server error") (json_object []) none
into_response (not_implemented code message) =
    error_response 501 (text code) (text message) (json_object []) none
into_response (too_many_requests retry_after_seconds) =
    error_response 429 (text "rate_limit_exceeded") (text "rate limit exceeded") (json_object [])
      (some (max retry_after_seconds 1))
