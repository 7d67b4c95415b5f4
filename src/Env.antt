-- ===== src/Env.antt =====
-- What the handlers are given: the providers behind `AppState`, the clock, chrono, the MCP kit, and
-- the decoders that serde derives for parameter types.
use systemd_monitoring_mcp.Base.{ℕ, Bool, Option, List, Result}
use systemd_monitoring_mcp.Text.{Text}
use systemd_monitoring_mcp.Json.{Json, Fields}
use systemd_monitoring_mcp.Errors.{AppError}
use systemd_monitoring_mcp.Units.{
  UnitScope, UnitStatus, TimerStatus, LogQuery, LogQueryResult, DateTime,
}
use systemd_monitoring_mcp.Utils.{ParseRfc3339}
use systemd_monitoring_mcp.Rpc.{Sdk}

-- The trait `UnitProvider`: what each call returns.
pub record UnitProvider : Type 0 where
  pub system_state : UnitScope → Result Text AppError
  pub list_service_units : UnitScope → Result (List UnitStatus) AppError
  pub get_unit_status : Text → UnitScope → ℕ → Result Json AppError
  pub list_timer_units : UnitScope → Result (List TimerStatus) AppError
  pub list_journal_logs : LogQuery → Result LogQueryResult AppError
  pub unit_main_start : Text → UnitScope → Result (Option DateTime) AppError

-- The trait `PodmanProvider`
pub record PodmanProvider : Type 0 where
  pub container_status : Text → Result Json AppError
  pub pod_status : Text → Result Json AppError

-- The parameters of `list_services`, `list_logs` and `get_unit_status`
pub record ServicesQueryParams : Type 0 where
  pub scope : Option Text
  pub state : Option Text
  pub name_contains : Option Text
  pub limit : Option ℕ
  pub summary : Option Bool

pub record LogsQueryParams : Type 0 where
  pub scope : Option Text
  pub priority : Option Text
  pub unit : Option Text
  pub start_utc : Option Text
  pub end_utc : Option Text
  pub grep : Option Text
  pub exclude_units : Option (List Text)
  pub order : Option Text
  pub allow_large_window : Option Bool
  pub limit : Option ℕ
  pub summary : Option Bool
  pub cursor : Option Text
  pub fields : Option (List Text)
  pub group_by : Option Text
  pub since_last_start : Option Bool

pub record UnitStatusParams : Type 0 where
  pub unit : Text
  pub scope : Option Text
  pub transition_limit : Option ℕ

pub record Decoders : Type 0 where
  pub services_params : Fields → Option ServicesQueryParams
  pub logs_params : Fields → Option LogsQueryParams
  pub unit_status_params : Fields → Option UnitStatusParams
  pub container_params : Fields → Option Text
  pub pod_params : Fields → Option Text
  -- `CallToolRequestParams`: the tool's name and its arguments
  pub call_tool_params : Json → Option (Text × Option Fields)
  -- `ReadResourceRequestParams`: the URI
  pub read_resource_params : Json → Option Text

pub record Env : Type 0 where
  pub units : UnitProvider
  pub podman : PodmanProvider
  -- The first and the second reading of `Utc::now()` in a handler
  pub now : DateTime
  pub generated_at : DateTime
  pub parse_from_rfc3339 : ParseRfc3339
  -- `to_rfc3339_opts(SecondsFormat::Millis, true)`
  pub to_rfc3339_millis : DateTime → Text
  pub decode : Decoders
  pub sdk : Sdk
