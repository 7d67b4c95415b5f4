-- ===== src/Server/Refusals.antt =====
-- Messages that are refused or get no answer, and what the audit log holds.
use systemd_monitoring_mcp.Base.{
  ◌≡◌, ◌⊎◌, inl, inr, true, false, not, Option, none, some, [], All, Bool-cases, Result-cases,
  if◌then◌else◌, unwrap_or, option_map,
}
use systemd_monitoring_mcp.Base.Int.{minus}
use systemd_monitoring_mcp.Text.{Text, text, text_eq, trim, is_empty}
use systemd_monitoring_mcp.Json.{Json, Fields, null, integer, is_object, get_key, object}
use systemd_monitoring_mcp.Rpc.{SdkLaws, json_rpc_invalid_request, json_rpc_error}
use systemd_monitoring_mcp.Rpc.Shape.{error_code, error_with_data_id, error_with_data_code}
use systemd_monitoring_mcp.Env.{Env}
use systemd_monitoring_mcp.Audit.Redaction.{hides, redact_audit_params-hides}
use systemd_monitoring_mcp.Server.Version.{
  Kit, JsonrpcMessage, JsonrpcRequest, request, notification, result_response, error_response,
  negotiate_protocol_version,
}
use systemd_monitoring_mcp.Server.{
  AuditEntry, audited, is_valid_request_id, validate_request_shape, handle_json_rpc_request,
  handle_request, handle_notification, handle_message, handle_json_rpc_value,
}

-- What no handler may see: a value that is no object, or one whose id is neither a string nor a
-- 64-bit integer.
abbrev pub IsMalformed : Json → Type 0
IsMalformed payload =
    (is_object payload ≡ false)
    ⊎ ((id : Json) × (get_key payload (text "id") ≡ some id) × (is_valid_request_id id ≡ false))

module _ (env : Env) (kit : Kit) where
  malformed_result :
      (payload : Json)
      → IsMalformed payload
      → handle_json_rpc_value env kit payload ≡ (some (json_rpc_invalid_request env.sdk none), [])
  unfolding handle_json_rpc_value
  malformed_result payload (inl h) = rw h
  malformed_result payload (inr (id, has_id, h)) = elim (Bool-cases (is_object payload)) [
    | inl e ↦ rw (e, has_id, h)
    | inr e ↦ rw e
  ]

  -- A malformed message is answered by an invalid-request error, -32600 with the id null, and
  -- nothing is executed for it: no method is run or audited, so that a request with a bad id is not
  -- taken for a notification.
  pub malformed_refused :
      (laws : SdkLaws env.sdk) (payload : Json)
      → IsMalformed payload
      → (answer : Json) × (handle_json_rpc_value env kit payload ≡ (some answer, []))
        × (get_key answer (text "id") ≡ some null)
        × (error_code answer ≡ some (integer (minus 32600)))
  unfolding json_rpc_invalid_request json_rpc_error
  malformed_refused laws payload h = (
    json_rpc_invalid_request env.sdk none,
    malformed_result payload h,
    error_with_data_id env.sdk laws none _ _ _,
    error_with_data_code env.sdk laws none _ _ _,
  )

  -- A notification is never answered; it is carried out as the request with its method and
  -- parameters is, if the method has a name.
  notification_unanswered :
      (payload : Json) (method : Text) (params : Option Fields)
      → is_object payload ≡ true
      → get_key payload (text "id") ≡ none
      → kit.message payload ≡ some (notification method params)
      → ((handle_json_rpc_value env kit payload).0 ≡ none)
        × ((handle_json_rpc_value env kit payload).1 ≡ (
            if is_empty (trim method)
            then []
            else (handle_json_rpc_request env kit none method (option_map object params)).1))
  unfolding handle_json_rpc_value handle_message handle_notification
  notification_unanswered payload method params is_obj no_id decoded =
      (rw (is_obj, no_id, decoded), rw (is_obj, no_id, decoded))

  -- An entry whose parameters hide all that is sensitive.
  abbrev pub IsClean : AuditEntry → Type 0
  IsClean entry = hides entry.params ≡ true

  handle_json_rpc_request-IsClean :
      (id : Option Json) (method : Text) (params : Option Json)
      → All IsClean (handle_json_rpc_request env kit id method params).1
  unfolding handle_json_rpc_request audited
  handle_json_rpc_request-IsClean id method params =
      elim (Bool-cases (text_eq method (text "initialize"))) [
        | inr e ↦ rw (e, handle_json_rpc_request) (redact_audit_params-hides params, tt)
        | inl e ↦ elim (Result-cases (negotiate_protocol_version kit params)) [
          | inr (error, f) ↦ rw (e, handle_json_rpc_request, f) tt
          | inl (version, f) ↦
              rw (e, handle_json_rpc_request, f) (redact_audit_params-hides params, tt)
        ]
      ]

  handle_request-IsClean : (q : JsonrpcRequest) → All IsClean (handle_request env kit q).1
  unfolding handle_request
  handle_request-IsClean q = elim (Result-cases (validate_request_shape env kit q)) [
    | inr (refusal, e) ↦ rw (e, handle_request) tt
    | inl (_, e) ↦ elim (Bool-cases (is_empty (trim q.method))) [
      | inl f ↦ rw (e, handle_request, f) tt
      | inr f ↦ rw (e, handle_request, f) (handle_json_rpc_request-IsClean _ q.method _)
    ]
  ]

  handle_message-IsClean :
      (id : Option Json) (message : Option JsonrpcMessage)
      → All IsClean (handle_message env kit id message).1
  unfolding handle_message handle_notification
  handle_message-IsClean id none = tt
  handle_message-IsClean id (some (request q)) = handle_request-IsClean q
  handle_message-IsClean id (some (notification method params)) =
      elim (Bool-cases (is_empty (trim method))) [
        | inl e ↦ rw (e, handle_notification) tt
        | inr e ↦ rw (e, handle_notification) (handle_json_rpc_request-IsClean none method _)
      ]
  handle_message-IsClean id (some result_response) = tt
  handle_message-IsClean id (some error_response) = tt

  -- Whatever message comes in, the audit log gets no value under a sensitive key, at any depth, but
  -- the mark that replaces it.
  pub handle_json_rpc_value-IsClean :
      (payload : Json) → All IsClean (handle_json_rpc_value env kit payload).1
  unfolding handle_json_rpc_value
  handle_json_rpc_value-IsClean payload = elim (Bool-cases (is_object payload)) [
    | inr e ↦ rw e tt
    | inl e ↦
        elim (Bool-cases (
          unwrap_or (option_map (λ id. not (is_valid_request_id id)) (get_key payload (text "id")))
            false)) [
              | inl f ↦ rw (e, f) tt
              | inr f ↦ rw (e, f) (handle_message-IsClean _ (kit.message payload))
            ]
  ]
