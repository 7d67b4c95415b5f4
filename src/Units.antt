-- ===== src/Units.antt =====
-- systemd_client.rs: the data that providers and handlers exchange.
use systemd_monitoring_mcp.Base.{ℕ, Bool, Option, List}
use systemd_monitoring_mcp.Base.Int.{ℤ}
use systemd_monitoring_mcp.Text.{Text, text}

pub data UnitScope : Type 0 where
  system user both : UnitScope

-- `UnitScope::as_str`
abbrev pub scope_str : UnitScope → Text
scope_str system = text "system"
scope_str user = text "user"
scope_str both = text "both"

pub record UnitStatus : Type 0 where
  pub unit : Text
  pub scope : Text
  pub description : Text
  pub load_state : Text
  pub active_state : Text
  pub sub_state : Text
  pub unit_file_state : Option Text
  pub since_utc : Option Text
  pub main_pid : Option ℕ
  pub exec_main_status : Option ℤ
  pub result : Option Text

pub record TimerStatus : Type 0 where
  pub unit : Text
  pub scope : Text
  pub load_state : Text
  pub active_state : Text
  pub sub_state : Text
  pub unit_file_state : Option Text
  pub next_run_utc : Option Text
  pub last_run_utc : Option Text
  pub trigger_unit : Option Text
  pub persistent : Option Bool
  pub result : Option Text

pub data LogOrder : Type 0 where
  asc desc : LogOrder

-- A `DateTime<Utc>` is its nanoseconds since the epoch.
abbrev pub DateTime : Type 0
DateTime = ℤ

pub record LogQuery : Type 0 where
  pub scope : UnitScope
  pub priority : Option Text
  pub unit : Option Text
  pub exclude_units : List Text
  pub grep : Option Text
  pub order : LogOrder
  pub start_utc : Option DateTime
  pub end_utc : Option DateTime
  pub limit : ℕ
  pub cursor : Option Text

pub record JournalLogEntry : Type 0 where
  pub timestamp_utc : Text
  pub unit : Option Text
  pub priority : Option Text
  pub hostname : Option Text
  pub pid : Option ℤ
  pub message : Option Text
  pub cursor : Option Text

pub record LogQueryResult : Type 0 where
  pub entries : List JournalLogEntry
  pub total_scanned : Option ℕ
  pub has_more : Bool
