-- ===== src/Rpc.antt =====
-- mcp/rpc.rs: JSON-RPC responses. The types that serialise them are the MCP kit's: `Sdk` holds
-- what they print, and `SdkLaws` the shape that JSON-RPC fixes for it.
pub mod Shape
use systemd_monitoring_mcp.Base.{
  ℕ, ◌≡◌, String, Bool, Option, none, some, List, [], ◌∷◌, and_then, is_some, or_else, option_map,
}
use systemd_monitoring_mcp.Base.Int.{ℤ, minus}
use systemd_monitoring_mcp.Text.{Text, text}
use systemd_monitoring_mcp.Json.{
  Json, Fields, null, string, number, object, integer, as_str, as_i64, as_object, get_key, insert,
  json_object, literal, nullable, fields,
}
use systemd_monitoring_mcp.Errors.{
  AppError, bad_request, bad_request_with_details, unauthorized, forbidden, internal,
  not_implemented, too_many_requests,
}

pub data RequestId : Type 0 where
  string_id : Text → RequestId
  integer_id : ℤ → RequestId

-- `value_to_request_id` and `request_id_to_value`
unfoldable pub value_to_request_id : Json → Option RequestId
value_to_request_id value =
    or_else (option_map string_id (as_str value)) (option_map integer_id (as_i64 value))

abbrev pub request_id_to_value : RequestId → Json
request_id_to_value (string_id value) = string value
request_id_to_value (integer_id value) = integer value

pub record Sdk : Type 0 where
  -- `serde_json::to_value(JsonrpcErrorResponse::new(RpcError { code, data, message }, id))`
  pub error_response : ℤ → Text → Option Json → RequestId → Json
  -- `serde_json::to_value(JsonrpcResultResponse::new(id, McpResult { meta: None, extra }))`
  pub result_response : RequestId → Option Fields → Json
  -- `serde_json::to_value(CallToolResult { … })` of a text and the structured content
  pub call_tool_result : Text → Fields → Json
  -- `serde_json::to_value(ReadResourceResult { … })` of a URI and its text
  pub read_resource_result : Text → Text → Json
  -- `Value::to_string`
  pub to_text : Json → Text

-- `error["data"] = data`, where there is any
abbrev pub with_data : Fields → Option Json → Fields
with_data error none = error
with_data error (some d) = insert (text "data") d error

module _ (sdk : Sdk) where
  pub json_rpc_error_with_data : Option Json → ℤ → Text → Option Json → Json
  json_rpc_error_with_data id code message more = elim (and_then id value_to_request_id) [
    | some request_id ↦ sdk.error_response code message more request_id
    | none ↦
        let error = fields ((text "code", integer code) ∷ (text "message", string message) ∷ []) in
        json_object (
          (text "jsonrpc", literal "2.0")
          ∷ (text "id", null)
          ∷ (text "error", object (with_data error more))
          ∷ [])
  ]

  unfoldable pub json_rpc_error : Option Json → ℤ → Text → Json
  json_rpc_error id code message = json_rpc_error_with_data id code message none

  pub json_rpc_result : Option Json → Json → Json
  json_rpc_result id result = elim (and_then id value_to_request_id) [
    | some request_id ↦ sdk.result_response request_id (as_object result)
    | none ↦
        json_object (
          (text "jsonrpc", literal "2.0") ∷ (text "id", nullable id) ∷ (text "result", result) ∷ [])
  ]

  unfoldable pub json_rpc_parse_error : Option Json → Json
  json_rpc_parse_error id = json_rpc_error id (minus 32700) (text "Parse error")

  unfoldable pub json_rpc_invalid_request : Option Json → Json
  json_rpc_invalid_request id = json_rpc_error id (minus 32600) (text "Invalid Request")

  unfoldable pub json_rpc_invalid_params : Option Json → Json
  json_rpc_invalid_params id = json_rpc_error id (minus 32602) (text "Invalid params")

  unfoldable pub json_rpc_method_not_found : Option Json → Json
  json_rpc_method_not_found id = json_rpc_error id (minus 32601) (text "Method not found")

  unfoldable pub json_rpc_method_not_found_with_data : Option Json → Json → Json
  json_rpc_method_not_found_with_data id more =
      json_rpc_error_with_data id (minus 32601) (text "Method not found") (some more)

  unfoldable pub json_rpc_internal_error : Option Json → Json
  json_rpc_internal_error id = json_rpc_error id (minus 32603) (text "Internal error")

  abbrev error_data : String → String → Json → Json
  error_data code message details = json_object (
      (text "code", literal code)
      ∷ (text "message", literal message)
      ∷ (text "details", details)
      ∷ [])

  pub app_error_to_json_rpc : Option Json → AppError → Json
  app_error_to_json_rpc id (bad_request code message) =
      json_rpc_error_with_data id (minus 32602) (text "Invalid params")
        (some (error_data code message (json_object [])))
  app_error_to_json_rpc id (bad_request_with_details code message details) =
      json_rpc_error_with_data id (minus 32602) (text "Invalid params")
        (some (error_data code message details))
  app_error_to_json_rpc id (unauthorized code message) =
      json_rpc_error_with_data id (minus 32001) (text "Unauthorized")
        (some (error_data code message (json_object [])))
  app_error_to_json_rpc id (forbidden code message) =
      json_rpc_error_with_data id (minus 32001) (text "Unauthorized")
        (some (error_data code message (json_object [])))
  app_error_to_json_rpc id (internal code message) = json_rpc_internal_error id
  app_error_to_json_rpc id (not_implemented code message) = json_rpc_internal_error id
  app_error_to_json_rpc id (too_many_requests seconds) = json_rpc_internal_error id

-- `is_json_rpc_error`
unfoldable pub is_json_rpc_error : Json → Bool
is_json_rpc_error value = is_some (get_key value (text "error"))

pub record SdkLaws (sdk : Sdk) : Type 0 where
  pub error_id :
      (code : ℤ) (message : Text) (more : Option Json) (id : RequestId)
      → get_key (sdk.error_response code message more id) (text "id")
        ≡ some (request_id_to_value id)
  pub result_id :
      (id : RequestId) (extra : Option Fields)
      → get_key (sdk.result_response id extra) (text "id") ≡ some (request_id_to_value id)
  pub error_error :
      (code : ℤ) (message : Text) (more : Option Json) (id : RequestId)
      → (error : Json) × (get_key (sdk.error_response code message more id) (text "error")
          ≡ some error)
        × (get_key error (text "code") ≡ some (integer code))
        × (get_key error (text "data") ≡ more)
  pub result_error :
      (id : RequestId) (extra : Option Fields)
      → get_key (sdk.result_response id extra) (text "error") ≡ none
