-- ===== src/Examples/Protocol.antt =====
-- Messages and HTTP requests.
use systemd_monitoring_mcp.Base.{
  List, ◌∷◌, ℕ, ◌≤◌, ◌≡◌, refl, ◌↔◌, true, Option, none, some, [], All, inr, ok, err, is_ok,
}
use systemd_monitoring_mcp.Base.Int.{minus, pos}
use systemd_monitoring_mcp.Text.{Text, text, byte_len}
use systemd_monitoring_mcp.Text.Number.{parse_unsigned}
use systemd_monitoring_mcp.Json.{
  Json, array, items, json_array, null, integer, object, field, end, string, get_key,
}
use systemd_monitoring_mcp.Errors.{AppError, into_response, bad_request}
use systemd_monitoring_mcp.Rpc.{
  request_id_to_value, integer_id, app_error_to_json_rpc, is_json_rpc_error, value_to_request_id,
}
use systemd_monitoring_mcp.Rpc.Shape.{
  error_code, echoed, class_code, app_error_shape, request_id_round_trip,
}
use systemd_monitoring_mcp.Audit.{redact_audit_params, redact_audit_value}
use systemd_monitoring_mcp.Audit.Redaction.{hides, redaction}
use systemd_monitoring_mcp.RateLimit.{RateLimiter, new_limiter, check_at}
use systemd_monitoring_mcp.RateLimit.Exact.{exact}
use systemd_monitoring_mcp.Config.{RawConfig, Config, parse_config, parse_with_token}
use systemd_monitoring_mcp.Config.Bounds.{IsSound, parse_config-IsSound}
use systemd_monitoring_mcp.Server.Version.{
  offered_version, negotiate_protocol_version, parse_protocol_version_date,
}
use systemd_monitoring_mcp.Server.{handle_json_rpc_value, is_valid_request_id}
use systemd_monitoring_mcp.Server.Dispatch.{request_answered}
use systemd_monitoring_mcp.Server.Refusals.{
  malformed_refused, handle_json_rpc_value-IsClean, IsClean,
}
use systemd_monitoring_mcp.Server.Negotiation.{IsNegotiated, negotiate_iff}
use systemd_monitoring_mcp.Http.{
  HttpRequest, mcp, require_bearer_token, authorize, serve, handle_payload, no_content,
  json_response,
}
use systemd_monitoring_mcp.Http.Batch.{
  present, joined, single_answers, single_audits, batch_answered,
}
use systemd_monitoring_mcp.Http.Admission.{
  require_bearer_token_iff, unauthorized_learns_nothing, serve_limited, rate_limited,
}
use systemd_monitoring_mcp.Examples.Fixtures.{
  sdk, sdk-SdkLaws, kit, kit-KitLaws, env, other, web, seven, call, bad_call, note,
}

request_answered_example :
    (answer : Json) × ((handle_json_rpc_value env kit call).0 ≡ some answer)
    × (get_key answer (text "id") ≡ some seven)
unfolding is_valid_request_id get_key value_to_request_id
request_answered_example =
    request_answered env kit sdk-SdkLaws kit-KitLaws call seven
      (record { id = integer_id (pos 7); method = text "tools/call"; params = some end }) refl refl
      refl refl

malformed_refused_example :
    (answer : Json) × (handle_json_rpc_value env kit bad_call ≡ (some answer, []))
    × (get_key answer (text "id") ≡ some null)
    × (error_code answer ≡ some (integer (minus 32600)))
unfolding is_valid_request_id get_key
malformed_refused_example = malformed_refused env kit sdk-SdkLaws bad_call (inr (null, refl, refl))

handle_json_rpc_value-IsClean_example : All (IsClean env kit) (handle_json_rpc_value env kit call).1
handle_json_rpc_value-IsClean_example = handle_json_rpc_value-IsClean env kit call

abbrev offer : Option Json
offer = some (object (field (text "protocolVersion") (string (text "2026-01-01")) end))

oldest_known : parse_protocol_version_date kit (text "2024-11-05") ≡ some 753274
unfolding parse_protocol_version_date byte_len parse_unsigned
oldest_known = refl

negotiate_iff_example : (negotiate_protocol_version kit offer ≡ ok (text "2025-03-26")) ↔ (
    (offered : Text) × (offered_version kit offer ≡ some offered)
    × IsNegotiated kit 753274 oldest_known offered (text "2025-03-26"))
negotiate_iff_example = negotiate_iff kit 753274 oldest_known offer (text "2025-03-26")

abbrev params : Json
params =
    object
      (field (text "token") (string (text "abc")) (field (text "unit") (string (text "ssh")) end))

redaction_example :
    (hides (redact_audit_params (some params)) ≡ true)
    × (hides params ≡ true → redact_audit_params (some params) ≡ params)
    × (redact_audit_value (redact_audit_params (some params)) ≡ redact_audit_params (some params))
redaction_example = redaction params

app_error_shape_example :
    (get_key (app_error_to_json_rpc sdk (some seven) (bad_request "invalid_unit" "no")) (text "id")
      ≡ some (echoed (some seven)))
    × (error_code (app_error_to_json_rpc sdk (some seven) (bad_request "invalid_unit" "no"))
        ≡ some (integer (class_code (bad_request "invalid_unit" "no"))))
    × (is_json_rpc_error (app_error_to_json_rpc sdk (some seven) (bad_request "invalid_unit" "no"))
        ≡ true)
app_error_shape_example =
    app_error_shape sdk sdk-SdkLaws (some seven) (bad_request "invalid_unit" "no")

batch_answered_example :
    (handle_payload env kit web (array (items (note ∷ call ∷ [])))).1
      ≡ joined (single_audits env kit web (note ∷ call ∷ []))
    × (present (single_answers env kit web (note ∷ call ∷ [])) ≡ []
        → (handle_payload env kit web (array (items (note ∷ call ∷ [])))).0 ≡ no_content)
    × ((first : Json) (others : List Json)
        → present (single_answers env kit web (note ∷ call ∷ [])) ≡ first ∷ others
        → (handle_payload env kit web (array (items (note ∷ call ∷ [])))).0
          ≡ json_response 200 (json_array (first ∷ others)))
batch_answered_example = batch_answered env kit web note (call ∷ [])

abbrev token : Text
token = text "abcdefghijklmnop"

require_bearer_token_iff_example :
    ((is_ok (require_bearer_token web token (some token)) ≡ true) ↔ (
      (h : Text) × (t : Text) × (some token ≡ some h)
      × (web.decode_bearer h ≡ some t)
      × (web.hmac t ≡ web.hmac token)))
    × ((h : Text)
        → some token ≡ some h
        → web.decode_bearer h ≡ some token
        → require_bearer_token web token (some token) ≡ ok tt)
    × ((error : AppError)
        → require_bearer_token web token (some token) ≡ err error
        → ((into_response error).status ≡ 401) × ((into_response error).retry_after ≡ none))
require_bearer_token_iff_example = require_bearer_token_iff web token (some token)

abbrev limiter : RateLimiter exact
limiter = new_limiter exact (record { requests_per_second = 5; burst = 1 })

abbrev stranger : HttpRequest
stranger = record { route = mcp; authorization = none; body = text "{}" }

unauthorized_learns_nothing_example :
    (serve env kit web exact token limiter 0 stranger
      ≡ serve other kit web exact token limiter 0 stranger)
    × ((serve env kit web exact token limiter 0 stranger).0.1 ≡ [])
unfolding require_bearer_token
unauthorized_learns_nothing_example =
    unauthorized_learns_nothing exact web env other kit kit token limiter 0 stranger refl refl

serve_limited_example :
    ((serve env kit web exact token limiter 0 stranger).1 ≡ (check_at exact limiter 0).1)
    × ((retry : ℕ)
        → (check_at exact limiter 0).0 ≡ err retry
        → ((serve env kit web exact token limiter 0 stranger).0 ≡ (rate_limited retry, []))
          × (1 ≤ retry))
    × ((check_at exact limiter 0).0 ≡ ok tt
        → (serve env kit web exact token limiter 0 stranger).0
          ≡ authorize env kit web token stranger)
serve_limited_example = serve_limited exact web env kit token limiter 0 stranger

abbrev raw : RawConfig
raw = record {
  api_token = some (text " abcdefghijklmnop ");
  bind_addr = none;
  bind_port = some (text "9000");
  rate_limit_requests_per_second = some (text "5");
  rate_limit_burst = none;
}

abbrev config : Config
config = record {
  api_token = token;
  bind_addr = text "127.0.0.1";
  bind_port = 9000;
  rate_limit_requests_per_second = 5;
  rate_limit_burst = 20;
}

parse_config-IsSound_example : IsSound (λ address. some address) raw config
unfolding parse_config parse_with_token
parse_config-IsSound_example = parse_config-IsSound (λ address. some address) raw config refl

request_id_round_trip_example : request_id_to_value (integer_id (pos 7)) ≡ integer (pos 7)
unfolding value_to_request_id
request_id_round_trip_example = request_id_round_trip (integer (pos 7)) (integer_id (pos 7)) refl
