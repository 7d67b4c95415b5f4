-- ===== src/Systemd/Bus/Services.antt =====
-- Service units and their details over D-Bus.
use systemd_monitoring_mcp.Base.{
  ℕ, ◌^◌, Option, none, some, List, [], ◌∷◌, ◌++◌, map, Result, ok, if◌then◌else◌, ltb, ◌>>=◌,
  map_err, and_then, option_map, keep_if, filter_by, filter_map,
}
use systemd_monitoring_mcp.Base.Int.{ℤ, pos}
use systemd_monitoring_mcp.Base.Maps.{get_last, remove_key}
use systemd_monitoring_mcp.Text.{Text, text, text_eq, ends_with}
use systemd_monitoring_mcp.Errors.{AppError}
use systemd_monitoring_mcp.Units.{UnitScope, system, user, both, UnitStatus}
use systemd_monitoring_mcp.Systemd.Scopes.{
  RawUnit, map_and_sort_service_units, combine_scope_rows_by_key,
}
use systemd_monitoring_mcp.Systemd.Journal.{Clock, internal_error}
use systemd_monitoring_mcp.Systemd.Journal.Filters.{ok_part}
use systemd_monitoring_mcp.Systemd.Bus.{
  Bus, raw_unit, dbus_connection_for_scope, list_units_rows, try_get_string_property,
  try_get_u64_property, try_get_u32_property, format_systemd_timestamp_usec,
}

pub record ServiceDetails : Type 0 where
  pub unit_file_state : Option Text
  pub since_utc : Option Text
  pub main_pid : Option ℕ
  pub exec_main_status : Option ℤ
  pub result : Option Text

-- `i32::try_from` of an unsigned number
abbrev to_i32 : ℕ → Option ℤ
to_i32 n = if ltb n (2 ^ 31) then some (pos n) else none

-- The paths of the units whose names end so, by name
abbrev pub unit_paths : Text → List RawUnit → List (Text × Text)
unit_paths suffix raw_units =
    map (λ (unit : RawUnit). (unit.name, unit.unit_path))
      (filter_by (λ (unit : RawUnit). ends_with unit.name suffix) raw_units)

abbrev pub enriched : UnitStatus → ServiceDetails → UnitStatus
enriched unit details = record unit {
  unit_file_state = details.unit_file_state;
  since_utc = details.since_utc;
  main_pid = details.main_pid;
  exec_main_status = details.exec_main_status;
  result = details.result;
}

-- The loop over the units that takes their details out of the map
unfoldable pub enrich_services : List (Text × ServiceDetails) → List UnitStatus → List UnitStatus
unfolding get_last text_eq
enrich_services details_by_unit [] = []
enrich_services details_by_unit (unit ∷ units) = elim (get_last text_eq details_by_unit unit.unit) [
  | none ↦ unit ∷ enrich_services details_by_unit units
  | some details ↦
      enriched unit details ∷ enrich_services (remove_key text_eq details_by_unit unit.unit) units
]

module _ {C P : Type 0} (bus : Bus C P) (clock : Clock) where
  unfoldable pub fetch_service_details : C → Text → Result ServiceDetails AppError
  unfolding try_get_string_property try_get_u64_property try_get_u32_property
      format_systemd_timestamp_usec
  fetch_service_details connection unit_path = do
    unit_proxy ←
        map_err
          (λ e.
            internal_error
              (text "failed to create systemd unit proxy for " ++ unit_path ++ text ": " ++ e))
          (bus.new_proxy connection unit_path (text "org.freedesktop.systemd1.Unit"))
    unit_file_state ← try_get_string_property bus unit_proxy (text "UnitFileState")
    since ← try_get_u64_property bus unit_proxy (text "ActiveEnterTimestamp")
    service_proxy ←
        map_err
          (λ e.
            internal_error
              (text "failed to create systemd service proxy for " ++ unit_path ++ text ": " ++ e))
          (bus.new_proxy connection unit_path (text "org.freedesktop.systemd1.Service"))
    main_pid ← try_get_u32_property bus service_proxy (text "MainPID")
    exec_main_status ← try_get_u32_property bus service_proxy (text "ExecMainStatus")
    result ← try_get_string_property bus service_proxy (text "Result")
    ok (record {
      unit_file_state = unit_file_state;
      since_utc = and_then since (format_systemd_timestamp_usec clock);
      main_pid = keep_if (ltb 0) main_pid;
      exec_main_status = and_then exec_main_status to_i32;
      result = result;
    })

  -- The details of a unit by name, where it has a path and they can be read
  abbrev pub details_of : C → List (Text × Text) → UnitStatus → Option (Text × ServiceDetails)
  details_of connection paths unit = and_then (get_last text_eq paths unit.unit) λ path.
      option_map (λ details. (unit.unit, details)) (ok_part (fetch_service_details connection path))

  unfoldable pub list_service_units_for_single_scope : UnitScope → Result (List UnitStatus) AppError
  unfolding dbus_connection_for_scope list_units_rows map_and_sort_service_units enrich_services
      fetch_service_details get_last
  list_service_units_for_single_scope scope = do
    connection ← dbus_connection_for_scope bus scope
    rows ← list_units_rows bus connection scope
    let raw_units = map raw_unit rows
    let units = map_and_sort_service_units raw_units scope
    let paths = unit_paths (text ".service") raw_units
    ok (enrich_services (filter_map (details_of connection paths) units) units)

  unfoldable pub list_service_units : UnitScope → Result (List UnitStatus) AppError
  unfolding list_service_units_for_single_scope combine_scope_rows_by_key
  list_service_units system = list_service_units_for_single_scope system
  list_service_units user = list_service_units_for_single_scope user
  list_service_units both =
      combine_scope_rows_by_key (text "service units") (λ (row : UnitStatus). row.unit)
        (list_service_units_for_single_scope system) (list_service_units_for_single_scope user)
