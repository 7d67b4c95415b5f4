-- ===== src/Http.antt =====
-- http/handlers.rs, auth.rs, the middleware of rate_limit.rs and `build_app` of lib.rs: from an HTTP
-- request that axum has routed to its response. Parsing a body as JSON, decoding a bearer header and
-- HMAC are the libraries': they are in `Web`.
pub mod Admission
pub mod Batch
use systemd_monitoring_mcp.Base.{
  ℕ, Bool, true, false, Option, none, some, List, [], ◌∷◌, ◌++◌, if◌then◌else◌, Result, ok, err,
}
use systemd_monitoring_mcp.Text.{Text, text, text_eq}
use systemd_monitoring_mcp.Json.{
  Json, array, Items, nil, cons, as_array, string, json_array, json_object, literal,
}
use systemd_monitoring_mcp.Errors.{
  AppError, unauthorized, new_too_many_requests, Response, Body, error_body, json_body, no_body,
  into_response,
}
use systemd_monitoring_mcp.Units.{UnitScope, system, user, scope_str}
use systemd_monitoring_mcp.Rpc.{json_rpc_parse_error, json_rpc_invalid_request}
use systemd_monitoring_mcp.Env.{Env}
use systemd_monitoring_mcp.RateLimit.Floats.{Float}
use systemd_monitoring_mcp.RateLimit.{RateLimiter, check_at}
use systemd_monitoring_mcp.Server.{AuditEntry, handle_json_rpc_value}
use systemd_monitoring_mcp.Server.Version.{Kit}

pub record Web : Type 0 where
  -- `serde_json::from_slice`
  pub from_slice : Text → Option Json
  -- The token of an `Authorization` header, if it is a bearer one
  pub decode_bearer : Text → Option Text
  -- The HMAC tag of a text under the static key
  pub hmac : Text → Text
  -- The name and the version of the package
  pub package_name : Text
  pub package_version : Text

-- The routes of `build_app`, the protected ones first
pub data Route : Type 0 where
  mcp system_status user_status : Route
  health discovery : Route

pub record HttpRequest : Type 0 where
  pub route : Route
  pub authorization : Option Text
  pub body : Text

abbrev pub is_protected : Route → Bool
is_protected mcp = true
is_protected system_status = true
is_protected user_status = true
is_protected health = false
is_protected discovery = false

abbrev pub json_response : ℕ → Json → Response
json_response status value = record { status = status; body = json_body value; retry_after = none }

abbrev pub no_content : Response
no_content = record { status = 204; body = no_body; retry_after = none }

module _ (web : Web) where
  unfoldable pub bearer_token_matches : Text → Text → Bool
  unfolding text_eq
  bearer_token_matches provided expected = text_eq (web.hmac provided) (web.hmac expected)

  -- `require_bearer_token`, up to the call of the next handler
  unfoldable pub require_bearer_token : Text → Option Text → Result (Unit {0}) AppError
  unfolding bearer_token_matches
  require_bearer_token api_token none =
      err (unauthorized "missing_token" "missing authorization header")
  require_bearer_token api_token (some header) = elim (web.decode_bearer header) [
    | none ↦ err (unauthorized "invalid_token" "invalid authorization scheme")
    | some token ↦
        if bearer_token_matches token api_token
        then ok tt
        else err (unauthorized "invalid_token" "invalid bearer token")
  ]

module _ (env : Env) (kit : Kit) (web : Web) where
  unfoldable pub systemd_status : UnitScope → Response
  unfolding text_eq
  systemd_status scope = elim (env.units.system_state scope) [
    | err error ↦ into_response error
    | ok status ↦
        let details =
          json_object
            ((text "scope", string (scope_str scope)) ∷ (text "status", string status) ∷ []) in
        if text_eq status (text "running") then json_response 200 details else record {
          status = 503;
          body = error_body (record {
            code = text "systemd_not_running";
            message = text "systemd manager is not running";
            details = details;
          });
          retry_after = none;
        }
  ]

  abbrev with_answer : Option Json → List Json → List Json
  with_answer none answers = answers
  with_answer (some answer) answers = answer ∷ answers

  -- The loop over a batch: the answers, and the audit entries of all items, in order.
  unfoldable pub handle_batch : Items → List Json × List AuditEntry
  unfolding handle_json_rpc_value
  handle_batch nil = ([], [])
  handle_batch (cons item rest) =
      let (answer, audit) = handle_json_rpc_value env kit item in
      let (answers, more) = handle_batch rest in (with_answer answer answers, audit ++ more)

  abbrev pub batch_response : List Json → Response
  batch_response [] = no_content
  batch_response (answer ∷ answers) = json_response 200 (json_array (answer ∷ answers))

  abbrev single_response : Option Json → Response
  single_response none = no_content
  single_response (some answer) = json_response 200 answer

  -- What a payload is answered
  unfoldable pub handle_payload : Json → Response × List AuditEntry
  unfolding handle_batch handle_json_rpc_value
  handle_payload payload = elim (as_array payload) [
    | some nil ↦ (json_response 200 (json_array (json_rpc_invalid_request env.sdk none ∷ [])), [])
    | some (cons item rest) ↦
        let (answers, audit) = handle_batch (cons item rest) in (batch_response answers, audit)
    | none ↦
        let (answer, audit) = handle_json_rpc_value env kit payload in
        (single_response answer, audit)
  ]

  unfoldable pub mcp_endpoint : Text → Response × List AuditEntry
  unfolding handle_payload
  mcp_endpoint body = elim (web.from_slice body) [
    | none ↦ (json_response 200 (json_rpc_parse_error env.sdk none), [])
    | some payload ↦ handle_payload payload
  ]

  -- The handlers behind the middleware
  unfoldable pub run_route : Route → Text → Response × List AuditEntry
  unfolding mcp_endpoint systemd_status
  run_route mcp body = mcp_endpoint body
  run_route system_status body = (systemd_status system, [])
  run_route user_status body = (systemd_status user, [])
  run_route health body = (json_response 200 (json_object ((text "status", literal "ok") ∷ [])), [])
  run_route discovery body = (
    json_response 200 (
        json_object (
          (text "name", string web.package_name)
          ∷ (text "version", string web.package_version)
          ∷ (text "mcp_endpoint", literal "/mcp")
          ∷ [])),
    [],
  )

  -- The protected routes' layer
  unfoldable pub authorize : Text → HttpRequest → Response × List AuditEntry
  unfolding require_bearer_token run_route
  authorize api_token r =
      if is_protected r.route
      then (elim (require_bearer_token web api_token r.authorization) [
        | ok _ ↦ run_route r.route r.body
        | err error ↦ (into_response error, [])
      ])
      else run_route r.route r.body

  -- The outermost layer, `rate_limit_middleware`: the request at an offset from the limiter's start
  unfoldable pub serve :
      (f : Float)
      → Text
      → RateLimiter f
      → ℕ
      → HttpRequest
      → (Response × List AuditEntry) × RateLimiter f
  unfolding check_at authorize into_response
  serve f api_token limiter now r =
      let (admitted, after) = check_at f limiter now in
      (
        elim admitted [
          | ok _ ↦ authorize api_token r
          | err retry_after_seconds ↦
              (into_response (new_too_many_requests retry_after_seconds), [])
        ],
        after,
      )
