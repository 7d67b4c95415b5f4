-- ===== src/Server.antt =====
-- mcp/server.rs: from a JSON value to a JSON-RPC response. What the MCP kit and chrono give is in
-- `Kit`; a request's audit entry is part of the result.
pub mod Version
pub mod Dispatch
pub mod Refusals
pub mod Negotiation
use systemd_monitoring_mcp.Base.{
  Bool, true, false, not, ◌||◌, Option, none, some, List, [], ◌∷◌, if◌then◌else◌, unwrap_or,
  option_map, is_some, Result, ok, err,
}
use systemd_monitoring_mcp.Text.{Text, text, text_eq, trim, is_empty}
use systemd_monitoring_mcp.Json.{
  Json, Fields, object, is_object, is_string, as_i64, get_key, json_object,
}
use systemd_monitoring_mcp.Rpc.{
  request_id_to_value, json_rpc_result, json_rpc_invalid_request, json_rpc_invalid_params,
  json_rpc_method_not_found, app_error_to_json_rpc, is_json_rpc_error,
}
use systemd_monitoring_mcp.Env.{Env}
use systemd_monitoring_mcp.Audit.{redact_audit_params}
use systemd_monitoring_mcp.Tools.{handle_tools_call}
use systemd_monitoring_mcp.Resources.{build_resources_list, handle_resources_read}
use systemd_monitoring_mcp.Server.Version.{
  Kit, JsonrpcRequest, JsonrpcMessage, request, notification, RequestType, call_tool_request,
  read_resource_request, list_tools_request, list_resources_request, ping_request,
  initialize_request, negotiate_protocol_version,
}

-- What the "mcp action audited" event records
pub record AuditEntry : Type 0 where
  pub method : Text
  pub params : Json
  pub failure : Bool

unfoldable pub is_valid_request_id : Json → Bool
is_valid_request_id id = is_string id || is_some (as_i64 id)

-- The type that `validate_request_shape` decodes a method's request as
unfoldable pub request_type : Text → Option RequestType
unfolding text_eq
request_type method =
    if text_eq method (text "tools/call")
    then some call_tool_request
    else if text_eq method (text "resources/read")
    then some read_resource_request
    else if text_eq method (text "tools/list")
    then some list_tools_request
    else if text_eq method (text "resources/list")
    then some list_resources_request
    else if text_eq method (text "ping")
    then some ping_request
    else if text_eq method (text "initialize")
    then some initialize_request
    else none

module _ (env : Env) (kit : Kit) where
  unfoldable pub validate_request_shape : JsonrpcRequest → Result (Unit {0}) Json
  unfolding request_type
  validate_request_shape r =
      let valid =
        unwrap_or (option_map (λ type. kit.conforms type r) (request_type r.method)) true in
      if valid
      then ok tt
      else err (json_rpc_invalid_params env.sdk (some (request_id_to_value r.id)))

  -- The arms but `initialize`, whose error returns before the audit
  unfoldable pub respond : Option Json → Text → Option Json → Json
  unfolding text_eq
  respond id method params =
      if text_eq method (text "ping")
      then json_rpc_result env.sdk id (json_object [])
      else if text_eq method (text "tools/list")
      then json_rpc_result env.sdk id kit.tools_list_result
      else if text_eq method (text "tools/call")
      then handle_tools_call env id params
      else if text_eq method (text "resources/list")
      then json_rpc_result env.sdk id (kit.resources_list_result build_resources_list)
      else if text_eq method (text "resources/read")
      then handle_resources_read env id params
      else json_rpc_method_not_found env.sdk id

  audited : Text → Option Json → Json → Json × List AuditEntry
  audited method params response = (
    response,
    record {
      method = method;
      params = redact_audit_params params;
      failure = is_json_rpc_error response;
    }
        ∷ [],
  )

  -- A response, and what the audit log gets.
  unfoldable pub handle_json_rpc_request : Option Json → Text → Option Json → Json × List AuditEntry
  unfolding text_eq respond audited
  handle_json_rpc_request id method params =
      if text_eq method (text "initialize")
      then (elim (negotiate_protocol_version kit params) [
        | err error ↦ (app_error_to_json_rpc env.sdk id error, [])
        | ok version ↦
            audited method params (json_rpc_result env.sdk id (kit.initialize_result version))
      ])
      else audited method params (respond id method params)

  -- A request that has decoded
  unfoldable pub handle_request : JsonrpcRequest → Json × List AuditEntry
  unfolding validate_request_shape trim handle_json_rpc_request
  handle_request r = elim (validate_request_shape r) [
    | err error_response ↦ (error_response, [])
    | ok _ ↦
        let request_id = request_id_to_value r.id in
        if is_empty (trim r.method)
        then (json_rpc_invalid_request env.sdk (some request_id), [])
        else handle_json_rpc_request (some request_id) r.method (option_map object r.params)
  ]

  -- A notification is handled as a request is, without an id, and its response dropped.
  unfoldable pub handle_notification : Text → Option Fields → List AuditEntry
  unfolding trim handle_json_rpc_request
  handle_notification method params =
      if is_empty (trim method)
      then []
      else (handle_json_rpc_request none method (option_map object params)).1

  handle_message : Option Json → Option JsonrpcMessage → Option Json × List AuditEntry
  unfolding handle_request handle_notification
  handle_message request_id none = (some (json_rpc_invalid_request env.sdk request_id), [])
  handle_message request_id (some (request r)) =
      let (answer, audit) = handle_request r in (some answer, audit)
  handle_message request_id (some (notification method params)) =
      (none, handle_notification method params)
  handle_message request_id (some _) = (some (json_rpc_invalid_request env.sdk request_id), [])

  unfoldable pub handle_json_rpc_value : Json → Option Json × List AuditEntry
  unfolding get_key handle_message is_valid_request_id
  handle_json_rpc_value payload =
      if not (is_object payload)
      then (some (json_rpc_invalid_request env.sdk none), [])
      else let request_id = get_key payload (text "id") in
        if unwrap_or (option_map (λ id. not (is_valid_request_id id)) request_id) false
        then (some (json_rpc_invalid_request env.sdk none), [])
        else handle_message request_id (kit.message payload)
