-- ===== src/Examples/Bus.antt =====
-- A manager with one service and one timer, whose properties cannot be read.
use systemd_monitoring_mcp.Base.{
  ◌≡◌, inl, refl, none, ◌&&◌, ◌||◌, List, [], ◌∷◌, map, ok, err, any_by, All,
}
use systemd_monitoring_mcp.Base.Sort.{sort_by}
use systemd_monitoring_mcp.Base.Dedup.{IsStrict}
use systemd_monitoring_mcp.Base.Maps.{get_last}
use systemd_monitoring_mcp.Text.{Text, text, text_eq, text_compare, one_of, ends_with}
use systemd_monitoring_mcp.Json.{Json}
use systemd_monitoring_mcp.Units.{UnitStatus, TimerStatus, system}
use systemd_monitoring_mcp.Systemd.Scopes.{map_and_sort_service_units, map_and_sort_timer_units}
use systemd_monitoring_mcp.Systemd.Dependencies.{
  classify_failed_dependencies, by_dependency, IsMade, is_about, has_failed, last_row,
  classify_failed_dependencies_exact,
}
use systemd_monitoring_mcp.Systemd.Journal.Transitions.{read_unit_transitions}
use systemd_monitoring_mcp.Systemd.Bus.{
  Bus, ListUnitRecord, raw_unit, dbus_connection_for_scope, list_units_rows,
}
use systemd_monitoring_mcp.Systemd.Bus.Services.{
  enrich_services, fetch_service_details, list_service_units_for_single_scope,
}
use systemd_monitoring_mcp.Systemd.Bus.Timers.{
  bare_timer, list_timer_units_for_single_scope, list_timer_units_best_effort,
}
use systemd_monitoring_mcp.Systemd.Bus.Inspection.{
  or_empty, read_failed_dependencies, unit_path_of, get_unit_status,
}
use systemd_monitoring_mcp.Systemd.Bus.Degraded.{IsStatusOf, get_unit_status_best_effort}
use systemd_monitoring_mcp.Examples.Journal.{journal, clock}

abbrev row_of : Text → Text → ListUnitRecord
row_of name active_state = record {
  name = name;
  description = text "a unit";
  load_state = text "loaded";
  active_state = active_state;
  sub_state = text "running";
  following = [];
  unit_path = text "/a";
  job_id = 0;
  job_type = [];
  job_path = [];
}

abbrev rows : List ListUnitRecord
rows = row_of (text "a.service") (text "active") ∷ row_of (text "a.timer") (text "active") ∷ []

abbrev bus : Bus (Unit {0}) (Unit {0})
bus = record {
  system_bus = ok tt;
  session_bus = err (text "no session");
  new_proxy = λ connection path interface. ok tt;
  list_units = λ proxy. ok rows;
  get_unit = λ proxy unit. ok (text "/a");
  string_property = λ proxy name. err (text "unreadable");
  u64_property = λ proxy name. err (text "unreadable");
  u32_property = λ proxy name. err (text "unreadable");
  bool_property = λ proxy name. err (text "unreadable");
  strings_property = λ proxy name. ok (text "b.service" ∷ []);
  paths_property = λ proxy name. err (text "unreadable");
}

abbrev service : UnitStatus
service = record {
  unit = text "a.service";
  scope = text "system";
  description = text "a unit";
  load_state = text "loaded";
  active_state = text "active";
  sub_state = text "running";
  unit_file_state = none;
  since_utc = none;
  main_pid = none;
  exec_main_status = none;
  result = none;
}

list_timer_units_best_effort_example :
    (timers : List TimerStatus) × (list_timer_units_for_single_scope bus clock system ≡ ok timers)
    × (map bare_timer timers ≡ map_and_sort_timer_units (map raw_unit rows) system)
unfolding dbus_connection_for_scope list_units_rows
list_timer_units_best_effort_example =
    list_timer_units_best_effort bus clock system tt rows refl refl

listed : list_service_units_for_single_scope bus clock system ≡ ok (service ∷ [])
unfolding list_service_units_for_single_scope dbus_connection_for_scope list_units_rows
    map_and_sort_service_units sort_by ends_with text_eq text_compare enrich_services
    fetch_service_details get_last
listed = refl

get_unit_status_best_effort_example :
    (value : Json) × (get_unit_status bus journal clock (text "a.service") system 5 ≡ ok value)
    × IsStatusOf service
        (or_empty (read_failed_dependencies bus journal clock tt (text "/a") system))
        (or_empty (read_unit_transitions journal clock (text "a.service") system 5))
        value
unfolding dbus_connection_for_scope unit_path_of text_eq
get_unit_status_best_effort_example =
    get_unit_status_best_effort bus journal clock (text "a.service") system 5 (service ∷ []) service
      tt (text "/a") (inl refl) listed refl refl refl

abbrev failing : List Text
failing = text "b.service" ∷ text "a.service" ∷ []

classify_failed_dependencies_exact_example :
    IsStrict by_dependency (classify_failed_dependencies failing failing (map raw_unit rows))
    × All
        (IsMade (map raw_unit rows))
        (classify_failed_dependencies failing failing (map raw_unit rows))
    × ((unit relationship : Text)
        → any_by
            (is_about unit relationship)
            (classify_failed_dependencies failing failing (map raw_unit rows))
          ≡ (text_eq relationship (text "requires")
              && (one_of unit failing && has_failed (last_row (map raw_unit rows) unit)))
            || (text_eq relationship (text "wants")
                && (one_of unit failing && has_failed (last_row (map raw_unit rows) unit))))
classify_failed_dependencies_exact_example =
    classify_failed_dependencies_exact failing failing (map raw_unit rows)
