-- ===== src/Systemd/Bus/Timers.antt =====
-- Timer units and their details over D-Bus, none of which is needed.
use systemd_monitoring_mcp.Base.{
  ◌≡◌, refl, ap, ◌∙◌, map_same, Bool, Option, none, some, List, [], ◌∷◌, ◌++◌, map, Result, ok, err,
  ◌>>=◌, and_then, or_else, option_map, filter_map, Option-cases, inl, inr,
}
use systemd_monitoring_mcp.Base.Maps.{get_last, remove_key}
use systemd_monitoring_mcp.Text.{Text, text, text_eq, strip_suffix}
use systemd_monitoring_mcp.Errors.{AppError}
use systemd_monitoring_mcp.Units.{UnitScope, system, user, both, TimerStatus}
use systemd_monitoring_mcp.Systemd.Scopes.{
  RawUnit, map_and_sort_timer_units, map_and_sort_timer_units-All, combine_scope_rows_by_key,
}
use systemd_monitoring_mcp.Systemd.Journal.{Clock}
use systemd_monitoring_mcp.Systemd.Journal.Filters.{ok_part}
use systemd_monitoring_mcp.Systemd.Bus.{
  Bus, ListUnitRecord, raw_unit, dbus_connection_for_scope, list_units_rows,
  read_optional_string_property, read_optional_u64_property, read_optional_bool_property,
  read_optional_object_path_list_property, format_systemd_timestamp_usec,
}
use systemd_monitoring_mcp.Systemd.Bus.Services.{unit_paths}

pub record TimerDetails : Type 0 where
  pub unit_file_state : Option Text
  pub next_run_utc : Option Text
  pub last_run_utc : Option Text
  pub trigger_unit : Option Text
  pub persistent : Option Bool
  pub result : Option Text

-- `TimerDetails::default`
abbrev no_details : TimerDetails
no_details = record {
  unit_file_state = none;
  next_run_utc = none;
  last_run_utc = none;
  trigger_unit = none;
  persistent = none;
  result = none;
}

-- `paths.iter().find_map(…)`
abbrev pub first_named : List (Text × Text) → List Text → Option Text
first_named path_to_name [] = none
first_named path_to_name (path ∷ paths) =
    or_else (get_last text_eq path_to_name path) (first_named path_to_name paths)

-- Without a known trigger, the service of the timer's name
abbrev default_trigger : Text → Option Text
default_trigger unit =
    option_map (λ name. name ++ text ".service") (strip_suffix unit (text ".timer"))

abbrev scheduled : TimerStatus → TimerDetails → TimerStatus
scheduled timer details = record timer {
  unit_file_state = details.unit_file_state;
  next_run_utc = details.next_run_utc;
  last_run_utc = details.last_run_utc;
  trigger_unit = or_else details.trigger_unit (default_trigger timer.unit);
  persistent = details.persistent;
  result = details.result;
}

unfoldable pub enrich_timers : List (Text × TimerDetails) → List TimerStatus → List TimerStatus
unfolding get_last text_eq strip_suffix
enrich_timers details_by_unit [] = []
enrich_timers details_by_unit (timer ∷ timers) =
    elim (get_last text_eq details_by_unit timer.unit) [
      | none ↦ timer ∷ enrich_timers details_by_unit timers
      | some details ↦
          scheduled timer details
          ∷ enrich_timers (remove_key text_eq details_by_unit timer.unit) timers
    ]

module _ {C P : Type 0} (bus : Bus C P) (clock : Clock) where
  -- The details with a proxy of the unit, and with one of the timer, if there is one
  unfoldable pub timer_details : List (Text × Text) → P → Option P → TimerDetails
  unfolding read_optional_string_property read_optional_u64_property read_optional_bool_property
      read_optional_object_path_list_property format_systemd_timestamp_usec get_last text_eq
  timer_details path_to_name unit_proxy timer_proxy = record {
    unit_file_state = read_optional_string_property bus unit_proxy (text "UnitFileState");
    trigger_unit =
        and_then (read_optional_object_path_list_property bus unit_proxy (text "Triggers"))
          (first_named path_to_name);
    next_run_utc = and_then timer_proxy λ proxy.
        and_then (read_optional_u64_property bus proxy (text "NextElapseUSecRealtime"))
          (format_systemd_timestamp_usec clock);
    last_run_utc = and_then timer_proxy λ proxy.
        and_then (read_optional_u64_property bus proxy (text "LastTriggerUSec"))
          (format_systemd_timestamp_usec clock);
    persistent =
        and_then timer_proxy λ proxy. read_optional_bool_property bus proxy (text "Persistent");
    result = and_then timer_proxy λ proxy. read_optional_string_property bus proxy (text "Result");
  }

  unfoldable pub fetch_timer_details : C → Text → List (Text × Text) → TimerDetails
  unfolding timer_details
  fetch_timer_details connection unit_path path_to_name =
      elim (bus.new_proxy connection unit_path (text "org.freedesktop.systemd1.Unit")) [
        | err e ↦ no_details
        | ok unit_proxy ↦
            timer_details path_to_name unit_proxy
              (ok_part (bus.new_proxy connection unit_path (text "org.freedesktop.systemd1.Timer")))
      ]

  abbrev timer_details_of :
      C → List (Text × Text) → List (Text × Text) → TimerStatus → Option (Text × TimerDetails)
  timer_details_of connection paths path_to_name timer =
      option_map (λ path. (timer.unit, fetch_timer_details connection path path_to_name))
        (get_last text_eq paths timer.unit)

  unfoldable pub list_timer_units_for_single_scope : UnitScope → Result (List TimerStatus) AppError
  unfolding dbus_connection_for_scope list_units_rows map_and_sort_timer_units enrich_timers
      fetch_timer_details get_last
  list_timer_units_for_single_scope scope = do
    connection ← dbus_connection_for_scope bus scope
    rows ← list_units_rows bus connection scope
    let raw_units = map raw_unit rows
    let timers = map_and_sort_timer_units raw_units scope
    let paths = unit_paths (text ".timer") raw_units
    let path_to_name = map (λ (unit : RawUnit). (unit.unit_path, unit.name)) raw_units
    ok (enrich_timers (filter_map (timer_details_of connection paths path_to_name) timers) timers)

  unfoldable pub list_timer_units : UnitScope → Result (List TimerStatus) AppError
  unfolding list_timer_units_for_single_scope combine_scope_rows_by_key
  list_timer_units system = list_timer_units_for_single_scope system
  list_timer_units user = list_timer_units_for_single_scope user
  list_timer_units both =
      combine_scope_rows_by_key (text "timer units") (λ (timer : TimerStatus). timer.unit)
        (list_timer_units_for_single_scope system) (list_timer_units_for_single_scope user)

-- A row without its details
abbrev pub bare_timer : TimerStatus → TimerStatus
bare_timer timer = record timer {
  unit_file_state = none;
  next_run_utc = none;
  last_run_utc = none;
  trigger_unit = none;
  persistent = none;
  result = none;
}

enrich_timers-bare :
    (details : List (Text × TimerDetails)) (timers : List TimerStatus)
    → map bare_timer (enrich_timers details timers) ≡ map bare_timer timers
unfolding enrich_timers
enrich_timers-bare details [] = refl
enrich_timers-bare details (t ∷ ts) = elim (Option-cases (get_last text_eq details t.unit)) [
  | inl e ↦ rw (enrich_timers, e) (ap (◌∷◌ (bare_timer t)) (enrich_timers-bare details ts))
  | inr (d, e) ↦
      rw (enrich_timers, e)
        (ap (◌∷◌ (bare_timer t)) (enrich_timers-bare (remove_key text_eq details t.unit) ts))
]

module _ {C P : Type 0} (bus : Bus C P) (clock : Clock) where
  -- Once the manager has listed its units, every timer among them is listed, sorted by name, with what
  -- the manager said of it, whichever of its details cannot be read.
  pub list_timer_units_best_effort :
      (scope : UnitScope) (connection : C) (rows : List ListUnitRecord)
      → dbus_connection_for_scope bus scope ≡ ok connection
      → list_units_rows bus connection scope ≡ ok rows
      → (timers : List TimerStatus) × (list_timer_units_for_single_scope bus clock scope
          ≡ ok timers)
        × (map bare_timer timers ≡ map_and_sort_timer_units (map raw_unit rows) scope)
  unfolding list_timer_units_for_single_scope
  list_timer_units_best_effort scope connection rows c l =
      let raw_units = map raw_unit rows in
      let timers = map_and_sort_timer_units raw_units scope in
      let paths = unit_paths (text ".timer") raw_units in
      let path_to_name = map (λ (unit : RawUnit). (unit.unit_path, unit.name)) raw_units in
      let details = filter_map (timer_details_of bus clock connection paths path_to_name) timers in
      (
        enrich_timers details timers,
        rw (list_timer_units_for_single_scope, c, l),
        enrich_timers-bare details timers
            ∙ map_same bare_timer timers
                (map_and_sort_timer_units-All (λ t. bare_timer t ≡ t) scope (λ t. refl) raw_units),
      )
