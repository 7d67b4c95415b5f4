-- ===== src/Systemd/Bus.antt =====
-- systemd_client.rs: reading units over D-Bus. zbus is a parameter; what it answers is what the code
-- sees of it.
pub mod Services
pub mod Enrichment
pub mod Timers
pub mod Inspection
pub mod Availability
pub mod Degraded
use systemd_monitoring_mcp.Base.{
  ℕ, ◌^◌, ◌==◌, Bool, Option, none, some, List, ◌++◌, map, Result, ok, err, if◌then◌else◌, ◌>>=◌,
  map_err, and_then,
}
use systemd_monitoring_mcp.Base.Int.{pos}
use systemd_monitoring_mcp.Text.{Text, text, is_empty, trim}
use systemd_monitoring_mcp.Errors.{AppError}
use systemd_monitoring_mcp.Units.{UnitScope, system, user, both, scope_str}
use systemd_monitoring_mcp.Systemd.Scopes.{RawUnit}
use systemd_monitoring_mcp.Systemd.Journal.{Clock, internal_error}
use systemd_monitoring_mcp.Systemd.Journal.Filters.{ok_part}
use systemd_monitoring_mcp.Systemd.Journal.Transitions.{time_of}

-- A row of `ListUnits`
pub record ListUnitRecord : Type 0 where
  pub name : Text
  pub description : Text
  pub load_state : Text
  pub active_state : Text
  pub sub_state : Text
  pub following : Text
  pub unit_path : Text
  pub job_id : ℕ
  pub job_type : Text
  pub job_path : Text

-- Connections `C` and proxies `P`; a call fails with the text of an error.
pub record Bus (C P : Type 0) : Type 0 where
  pub system_bus : Result C Text
  pub session_bus : Result C Text
  -- `Proxy::new` of the service org.freedesktop.systemd1, with an object path and an interface
  pub new_proxy : C → Text → Text → Result P Text
  pub list_units : P → Result (List ListUnitRecord) Text
  pub get_unit : P → Text → Result Text Text
  pub string_property : P → Text → Result Text Text
  pub u64_property : P → Text → Result ℕ Text
  pub u32_property : P → Text → Result ℕ Text
  pub bool_property : P → Text → Result Bool Text
  pub strings_property : P → Text → Result (List Text) Text
  pub paths_property : P → Text → Result (List Text) Text

abbrev pub raw_unit : ListUnitRecord → RawUnit
raw_unit row = record {
  name = row.name;
  description = row.description;
  load_state = row.load_state;
  active_state = row.active_state;
  sub_state = row.sub_state;
  unit_path = row.unit_path;
}

abbrev pub manager_path : Text
manager_path = text "/org/freedesktop/systemd1"

abbrev pub manager_interface : Text
manager_interface = text "org.freedesktop.systemd1.Manager"

-- A blank string is none.
abbrev not_blank : Text → Option Text
not_blank value = if is_empty (trim value) then none else some value

unfoldable pub format_systemd_timestamp_usec : Clock → ℕ → Option Text
unfolding time_of
format_systemd_timestamp_usec clock timestamp_usec =
    if timestamp_usec == 0
    then none
    else and_then (time_of clock timestamp_usec)
        (λ timestamp. some (clock.rfc3339_millis timestamp))

module _ {C P : Type 0} (bus : Bus C P) where
  unfoldable pub dbus_connection_for_scope : UnitScope → Result C AppError
  dbus_connection_for_scope system =
      map_err (λ e. internal_error (text "failed to connect to system dbus: " ++ e)) bus.system_bus
  dbus_connection_for_scope user =
      map_err (λ e. internal_error (text "failed to connect to user session dbus: " ++ e))
        bus.session_bus
  dbus_connection_for_scope both =
      err (internal_error (text "dbus_connection_for_scope requires a concrete scope, got both"))

  unfoldable pub list_units_rows : C → UnitScope → Result (List ListUnitRecord) AppError
  list_units_rows connection scope = do
    proxy ←
        map_err
          (λ e.
            internal_error
              (text "failed to create " ++ scope_str scope ++ text " systemd dbus proxy: " ++ e))
          (bus.new_proxy connection manager_path manager_interface)
    map_err
        (λ e.
          internal_error
            (text "failed to list " ++ scope_str scope ++ text " scope units from systemd: " ++ e))
        (bus.list_units proxy)

  unfoldable pub system_state : UnitScope → Result Text AppError
  unfolding dbus_connection_for_scope
  system_state scope = do
    connection ← dbus_connection_for_scope scope
    proxy ←
        map_err
          (λ e.
            internal_error
              (text "failed to create " ++ scope_str scope ++ text " systemd dbus proxy: " ++ e))
          (bus.new_proxy connection manager_path manager_interface)
    map_err
        (λ e. internal_error (
          text "failed to read " ++ scope_str scope ++ text " systemd SystemState property: " ++ e))
        (bus.string_property proxy (text "SystemState"))

  abbrev unreadable : Text → Text → AppError
  unreadable property_name e =
      internal_error (text "failed to read systemd property " ++ property_name ++ text ": " ++ e)

  unfoldable pub try_get_string_property : P → Text → Result (Option Text) AppError
  unfolding trim
  try_get_string_property proxy property_name = do
    value ← map_err (unreadable property_name) (bus.string_property proxy property_name)
    ok (not_blank value)

  unfoldable pub try_get_u64_property : P → Text → Result (Option ℕ) AppError
  try_get_u64_property proxy property_name = do
    value ← map_err (unreadable property_name) (bus.u64_property proxy property_name)
    ok (some value)

  unfoldable pub try_get_u32_property : P → Text → Result (Option ℕ) AppError
  try_get_u32_property proxy property_name = do
    value ← map_err (unreadable property_name) (bus.u32_property proxy property_name)
    ok (some value)

  unfoldable pub read_optional_string_property : P → Text → Option Text
  unfolding trim
  read_optional_string_property proxy property_name =
      and_then (ok_part (bus.string_property proxy property_name)) not_blank

  unfoldable pub read_optional_u64_property : P → Text → Option ℕ
  read_optional_u64_property proxy property_name = ok_part (bus.u64_property proxy property_name)

  unfoldable pub read_optional_bool_property : P → Text → Option Bool
  read_optional_bool_property proxy property_name = ok_part (bus.bool_property proxy property_name)

  unfoldable pub read_optional_object_path_list_property : P → Text → Option (List Text)
  read_optional_object_path_list_property proxy property_name =
      ok_part (bus.paths_property proxy property_name)
