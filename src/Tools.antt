-- ===== src/Tools.antt =====
-- domain/tools.rs: the dispatch of `tools/call`.
pub mod Inspect
pub mod Containers
pub mod Echo
use systemd_monitoring_mcp.Base.{Option, none, some, [], ◌∷◌, if◌then◌else◌}
use systemd_monitoring_mcp.Text.{Text, text, text_eq}
use systemd_monitoring_mcp.Json.{Json, Fields, string, literal, json_object}
use systemd_monitoring_mcp.Rpc.{json_rpc_invalid_params, json_rpc_method_not_found_with_data}
use systemd_monitoring_mcp.Env.{Env}
use systemd_monitoring_mcp.Services.{handle_list_services}
use systemd_monitoring_mcp.Timers.Handler.{handle_list_timers}
use systemd_monitoring_mcp.Logs.Handler.{handle_list_logs}
use systemd_monitoring_mcp.Tools.Inspect.{handle_unit_status, handle_container, handle_pod}

module _ (env : Env) where
  unfoldable pub call_tool : Option Json → Text → Option Fields → Json
  unfolding text_eq
  call_tool id name arguments =
      if text_eq name (text "list_services")
      then handle_list_services env id arguments
      else if text_eq name (text "get_unit_status")
      then handle_unit_status env id arguments
      else if text_eq name (text "get_container_status")
      then handle_container env id arguments
      else if text_eq name (text "get_pod_status")
      then handle_pod env id arguments
      else if text_eq name (text "list_timers")
      then handle_list_timers env id arguments
      else if text_eq name (text "list_logs")
      then handle_list_logs env id arguments
      else json_rpc_method_not_found_with_data env.sdk id (
          json_object (
            (text "code", literal "tool_not_found")
            ∷ (text "message", literal "unknown tool name")
            ∷ (text "details", json_object ((text "name", string name) ∷ []))
            ∷ []))

  unfoldable pub handle_tools_call : Option Json → Option Json → Json
  unfolding call_tool
  handle_tools_call id none = json_rpc_invalid_params env.sdk id
  handle_tools_call id (some raw_params) = elim (env.decode.call_tool_params raw_params) [
    | none ↦ json_rpc_invalid_params env.sdk id
    | some (name, arguments) ↦ call_tool id name arguments
  ]
