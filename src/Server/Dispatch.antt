-- ===== src/Server/Dispatch.antt =====
-- Requests, notifications and what is neither.
use systemd_monitoring_mcp.Base.{
  ◌≡◌, refl, ◌∙◌, ap, true, Option, some, arith, Bool-cases, Option-cases, Result-cases, inl, inr,
  option_map, err,
}
use systemd_monitoring_mcp.Text.{Text, text, text_eq, trim, is_empty}
use systemd_monitoring_mcp.Json.{
  Json, null, bool, number, array, string, is_object, get_key, as_i64, object,
}
use systemd_monitoring_mcp.Rpc.{
  RequestId, request_id_to_value, value_to_request_id, SdkLaws, json_rpc_invalid_request,
  json_rpc_invalid_params, json_rpc_error, json_rpc_method_not_found,
}
use systemd_monitoring_mcp.Rpc.Shape.{error_with_data_id}
use systemd_monitoring_mcp.Env.{Env}
use systemd_monitoring_mcp.Tools.Echo.{
  Echoes, own_id, error-Echoes, invalid_params-Echoes, result-Echoes, if-Echoes, tools_call-Echoes,
}
use systemd_monitoring_mcp.Resources.Echo.{resources_read-Echoes}
use systemd_monitoring_mcp.Server.Version.{
  Kit, KitLaws, JsonrpcRequest, request, negotiate_protocol_version,
}
use systemd_monitoring_mcp.Server.{
  is_valid_request_id, validate_request_shape, respond, handle_json_rpc_request, handle_request,
  handle_message, handle_json_rpc_value,
}

-- A valid id is one that responses can carry.
valid_usable :
    (id : Json)
    → is_valid_request_id id ≡ true
    → (r : RequestId) × (value_to_request_id id ≡ some r)
unfolding is_valid_request_id value_to_request_id
valid_usable (string s) h = (_, refl)
valid_usable (number n) h = elim (Option-cases (as_i64 (number n))) [
  | inr (z, f) ↦ rw f (_, refl)
  | inl f ↦ absurd (cc (rw f at h))
]
valid_usable null h = absurd (cc h)
valid_usable (bool b) h = absurd (cc h)
valid_usable (array xs) h = absurd (cc h)
valid_usable (object fs) h = absurd (cc h)

module _ (env : Env) (kit : Kit) (laws : SdkLaws env.sdk) where
  module _ (id : Json) (r : RequestId) (usable : value_to_request_id id ≡ some r) where
    respond-Echoes :
        (method : Text) (params : Option Json)
        → Echoes env laws id r usable (respond env kit (some id) method params)
    unfolding respond json_rpc_method_not_found json_rpc_error
    respond-Echoes method params =
        if-Echoes env laws id r usable (text_eq method (text "ping")) _ _
          (result-Echoes env laws id r usable _)
          (if-Echoes env laws id r usable (text_eq method (text "tools/list")) _ _
            (result-Echoes env laws id r usable _)
            (if-Echoes env laws id r usable (text_eq method (text "tools/call")) _ _
              (tools_call-Echoes env laws id r usable params)
              (if-Echoes env laws id r usable (text_eq method (text "resources/list")) _ _
                (result-Echoes env laws id r usable _)
                (if-Echoes env laws id r usable (text_eq method (text "resources/read")) _ _
                  (resources_read-Echoes env laws id r usable params)
                  (error_with_data_id env.sdk laws (some id) _ _ _
                    ∙ own_id env laws id r usable)))))

    rpc_request-Echoes :
        (method : Text) (params : Option Json)
        → Echoes env laws id r usable (handle_json_rpc_request env kit (some id) method params).0
    unfolding handle_json_rpc_request
    rpc_request-Echoes method params = elim (Bool-cases (text_eq method (text "initialize"))) [
      | inr e ↦ rw (e, handle_json_rpc_request) (respond-Echoes method params)
      | inl e ↦ elim (Result-cases (negotiate_protocol_version kit params)) [
        | inr (error, f) ↦
            rw (e, handle_json_rpc_request, f) (error-Echoes env laws id r usable error)
        | inl (version, f) ↦
            rw (e, handle_json_rpc_request, f) (result-Echoes env laws id r usable _)
      ]
    ]

  shape_refused :
      (q : JsonrpcRequest) (refusal : Json)
      → validate_request_shape env kit q ≡ err refusal
      → refusal ≡ json_rpc_invalid_params env.sdk (some (request_id_to_value q.id))
  unfolding validate_request_shape
  shape_refused q refusal h = ground arith

  -- A request that has decoded is answered under its own id.
  handle_request-Echoes :
      (q : JsonrpcRequest) (r : RequestId)
      (usable : value_to_request_id (request_id_to_value q.id) ≡ some r)
      → Echoes env laws (request_id_to_value q.id) r usable (handle_request env kit q).0
  unfolding handle_request json_rpc_invalid_request json_rpc_error
  handle_request-Echoes q r usable =
      let id = request_id_to_value q.id in
      elim (Result-cases (validate_request_shape env kit q)) [
        | inr (refusal, e) ↦
            rw (e, handle_request, shape_refused q refusal e)
              (invalid_params-Echoes env laws id r usable)
        | inl (_, e) ↦ elim (Bool-cases (is_empty (trim q.method))) [
          | inl f ↦
              rw (e, handle_request, f)
                (error_with_data_id env.sdk laws (some id) _ _ _ ∙ own_id env laws id r usable)
          | inr f ↦
              rw (e, handle_request, f)
                (rpc_request-Echoes id r usable q.method (option_map object q.params))
        ]
      ]

module _ (env : Env) (kit : Kit) (laws : SdkLaws env.sdk) (kit_laws : KitLaws kit) where
  -- An object with a valid id that decodes as a request is always answered, and the answer carries
  -- that id, whatever the method, the parameters and the providers' results are.
  pub request_answered :
      (payload id : Json) (q : JsonrpcRequest)
      → is_object payload ≡ true
      → get_key payload (text "id") ≡ some id
      → is_valid_request_id id ≡ true
      → kit.message payload ≡ some (request q)
      → (answer : Json) × ((handle_json_rpc_value env kit payload).0 ≡ some answer)
        × (get_key answer (text "id") ≡ some id)
  unfolding handle_json_rpc_value handle_message
  request_answered payload id q is_obj has_id valid decoded =
      let same : request_id_to_value q.id ≡ id = cc (kit_laws.message_id payload q decoded) in
      let (r, usable) = valid_usable (request_id_to_value q.id) (rw same valid) in
      (
        (handle_request env kit q).0,
        rw (is_obj, has_id, valid, decoded),
        handle_request-Echoes env kit laws q r usable ∙ ap some same,
      )
