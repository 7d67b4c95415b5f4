-- ===== src/Systemd/Bus/Inspection.antt =====
-- `get_unit_status`: one service with its failed dependencies and its latest transitions.
use systemd_monitoring_mcp.Base.{
  ℕ, not, none, some, List, [], ◌∷◌, ◌++◌, map, Result, ok, err, if◌then◌else◌, ◌>>=◌, map_err,
  ok_or, and_then, find_by,
}
use systemd_monitoring_mcp.Text.{Text, text, text_eq, ends_with}
use systemd_monitoring_mcp.Json.{Json, object, string, insert, json_object, json_array}
use systemd_monitoring_mcp.Errors.{AppError, bad_request}
use systemd_monitoring_mcp.Units.{UnitScope, system, user, both}
use systemd_monitoring_mcp.Services.{unit_status_json, text_or_null}
use systemd_monitoring_mcp.Systemd.Scopes.{RawUnit}
use systemd_monitoring_mcp.Systemd.Defaults.{is_unit, unit_not_found}
use systemd_monitoring_mcp.Systemd.Dependencies.{FailedDependency, classify_failed_dependencies}
use systemd_monitoring_mcp.Systemd.Journal.{Journal, Clock, internal_error}
use systemd_monitoring_mcp.Systemd.Journal.Filters.{ok_part}
use systemd_monitoring_mcp.Systemd.Journal.Transitions.{UnitTransition, read_unit_transitions}
use systemd_monitoring_mcp.Systemd.Bus.{
  Bus, raw_unit, dbus_connection_for_scope, list_units_rows, manager_path, manager_interface,
}
use systemd_monitoring_mcp.Systemd.Bus.Services.{
  ServiceDetails, fetch_service_details, list_service_units_for_single_scope,
}

unfoldable pub failed_dependency_json : FailedDependency → Json
unfolding insert
failed_dependency_json d = json_object (
    (text "unit", string d.unit)
    ∷ (text "relationship", string d.relationship)
    ∷ (text "load_state", string d.load_state)
    ∷ (text "active_state", string d.active_state)
    ∷ (text "sub_state", string d.sub_state)
    ∷ (text "result", text_or_null d.result)
    ∷ [])

unfoldable pub unit_transition_json : UnitTransition → Json
unfolding insert
unit_transition_json t = json_object (
    (text "timestamp_utc", string t.timestamp_utc)
    ∷ (text "kind", string t.kind)
    ∷ (text "message", text_or_null t.message)
    ∷ (text "cursor", text_or_null t.cursor)
    ∷ [])

-- `.unwrap_or_default()`, and the arms that log an error and go on without
abbrev pub or_empty {ℓ κ} : {A : Type ℓ} {E : Type κ} → Result (List A) E → List A
or_empty (ok xs) = xs
or_empty (err e) = []

abbrev pub with_history : Json → List FailedDependency → List UnitTransition → Json
with_history (object fs) dependencies transitions = object (
    insert (text "recent_transitions") (json_array (map unit_transition_json transitions)) (
      insert (text "failed_dependencies") (json_array (map failed_dependency_json dependencies))
        fs))
with_history value dependencies transitions = value

module _ {C P J : Type 0} (bus : Bus C P) (journal : Journal J) (clock : Clock) where
  -- The result of a failed service among the dependencies, if it can be read
  unfoldable pub with_result : C → List RawUnit → FailedDependency → FailedDependency
  unfolding ends_with text_eq fetch_service_details
  with_result connection rows dependency =
      if not (ends_with dependency.unit (text ".service"))
      then dependency
      else elim (find_by (λ (row : RawUnit). text_eq row.name dependency.unit) rows) [
        | none ↦ dependency
        | some row ↦ record dependency {
          result =
              and_then (ok_part (fetch_service_details bus clock connection row.unit_path))
                (λ (details : ServiceDetails). details.result);
        }
      ]

  unfoldable pub read_failed_dependencies :
      C → Text → UnitScope → Result (List FailedDependency) AppError
  unfolding classify_failed_dependencies list_units_rows with_result
  read_failed_dependencies connection unit_path scope = do
    proxy ←
        map_err (λ e. internal_error (text "failed to create unit dependency proxy: " ++ e))
          (bus.new_proxy connection unit_path (text "org.freedesktop.systemd1.Unit"))
    let requires = or_empty (bus.strings_property proxy (text "Requires"))
    let wants = or_empty (bus.strings_property proxy (text "Wants"))
    listed ← list_units_rows bus connection scope
    let rows = map raw_unit listed
    ok (map (with_result connection rows) (classify_failed_dependencies requires wants rows))

  -- The path by which the manager knows a unit
  unfoldable pub unit_path_of : C → Text → Result Text AppError
  unit_path_of connection unit = do
    manager ←
        map_err (λ e. internal_error (text "failed to create unit lookup proxy: " ++ e))
          (bus.new_proxy connection manager_path manager_interface)
    map_err (λ e. unit_not_found) (bus.get_unit manager unit)

  abbrev pub inspected : Text → UnitScope → ℕ → Result Json AppError
  inspected unit scope transition_limit = do
    rows ← list_service_units_for_single_scope bus clock scope
    row ← ok_or (find_by (is_unit unit) rows) unit_not_found
    connection ← dbus_connection_for_scope bus scope
    unit_path ← unit_path_of connection unit
    let failed_dependencies = or_empty (read_failed_dependencies connection unit_path scope)
    let recent_transitions =
        or_empty (read_unit_transitions journal clock unit scope transition_limit)
    ok (with_history (unit_status_json row) failed_dependencies recent_transitions)

  unfoldable pub get_unit_status : Text → UnitScope → ℕ → Result Json AppError
  unfolding list_service_units_for_single_scope dbus_connection_for_scope unit_path_of
      read_failed_dependencies read_unit_transitions unit_status_json insert text_eq
  get_unit_status unit both transition_limit =
      err (bad_request "invalid_scope" "unit inspection requires system or user scope")
  get_unit_status unit system transition_limit = inspected unit system transition_limit
  get_unit_status unit user transition_limit = inspected unit user transition_limit
