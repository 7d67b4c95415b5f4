-- ===== src/Resources.antt =====
-- domain/resources.rs: the fixed resources and their snapshots.
pub mod Echo
use systemd_monitoring_mcp.Base.{
  ℕ, ◌*◌, String, Option, none, some, List, [], ◌∷◌, map, if◌then◌else◌, Result, ok, err,
}
use systemd_monitoring_mcp.Base.Int.{pos, ◌-ℤ◌}
use systemd_monitoring_mcp.Text.{Text, text, text_eq}
use systemd_monitoring_mcp.Json.{Json, string, literal, json_object, json_array}
use systemd_monitoring_mcp.Units.{system, desc, DateTime, LogQuery, LogQueryResult, UnitStatus}
use systemd_monitoring_mcp.Errors.{AppError}
use systemd_monitoring_mcp.Utils.{default_log_limit}
use systemd_monitoring_mcp.Utils.Selection.{filter_services_by_state}
use systemd_monitoring_mcp.Rpc.{
  json_rpc_invalid_params, json_rpc_method_not_found_with_data, app_error_to_json_rpc,
}
use systemd_monitoring_mcp.Responses.{json_text_resource_response}
use systemd_monitoring_mcp.Env.{Env}
use systemd_monitoring_mcp.Services.{unit_status_json}
use systemd_monitoring_mcp.Logs.Groups.{entry_json}

abbrev pub services_resource_uri : Text
services_resource_uri = text "resource://services/snapshot"

abbrev pub failed_services_resource_uri : Text
failed_services_resource_uri = text "resource://services/failed"

abbrev pub logs_resource_uri : Text
logs_resource_uri = text "resource://logs/recent"

-- A `Resource`, but for what is empty in all of them
pub record Resource : Type 0 where
  pub description : Text
  pub mime_type : Text
  pub name : Text
  pub uri : Text

abbrev resource : String → String → Text → Resource
resource description name uri = record {
  description = text description;
  mime_type = text "application/json";
  name = text name;
  uri = uri;
}

unfoldable pub build_resources_list : List Resource
build_resources_list =
    resource "Current systemd service statuses" "Service Snapshot" services_resource_uri
    ∷ resource "Current failed systemd service statuses" "Failed Service Snapshot"
        failed_services_resource_uri
    ∷ resource "Recent journald logs for the last hour" "Recent Logs Snapshot" logs_resource_uri
    ∷ []

-- `Duration::hours(1)` before the end
abbrev pub last_hour : DateTime → LogQuery
last_hour end_utc = record {
  scope = system;
  priority = none;
  unit = none;
  exclude_units = [];
  grep = none;
  order = desc;
  start_utc = some (end_utc -ℤ pos (3600 * 1000000000));
  end_utc = some end_utc;
  limit = default_log_limit;
  cursor = none;
}

module _ (env : Env) where
  unfoldable pub services_snapshot : Option Json → Text → Option Text → Json
  services_snapshot id uri state = elim (env.units.list_service_units system) [
    | ok services ↦ json_text_resource_response env.sdk id uri (
        json_object (
          (
            text "services",
            json_array (map unit_status_json (filter_services_by_state services state)),
          )
          ∷ []))
    | err error ↦ app_error_to_json_rpc env.sdk id error
  ]

  unfoldable pub logs_snapshot : Option Json → Json
  logs_snapshot id = elim (env.units.list_journal_logs (last_hour env.now)) [
    | ok log_result ↦
        json_text_resource_response env.sdk id logs_resource_uri
          (json_object ((text "logs", json_array (map entry_json log_result.entries)) ∷ []))
    | err error ↦ app_error_to_json_rpc env.sdk id error
  ]

  unfoldable pub read_resource : Option Json → Text → Json
  unfolding text_eq services_snapshot logs_snapshot
  read_resource id uri =
      if text_eq uri services_resource_uri
      then services_snapshot id services_resource_uri none
      else if text_eq uri failed_services_resource_uri
      then services_snapshot id failed_services_resource_uri (some (text "failed"))
      else if text_eq uri logs_resource_uri
      then logs_snapshot id
      else json_rpc_method_not_found_with_data env.sdk id (
          json_object (
            (text "code", literal "resource_not_found")
            ∷ (text "message", literal "unknown resource uri")
            ∷ (text "details", json_object ((text "uri", string uri) ∷ []))
            ∷ []))

  unfoldable pub handle_resources_read : Option Json → Option Json → Json
  unfolding read_resource
  handle_resources_read id none = json_rpc_invalid_params env.sdk id
  handle_resources_read id (some raw_params) = elim (env.decode.read_resource_params raw_params) [
    | none ↦ json_rpc_invalid_params env.sdk id
    | some uri ↦ read_resource id uri
  ]
