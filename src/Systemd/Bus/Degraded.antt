-- ===== src/Systemd/Bus/Degraded.antt =====
-- What is left of an inspected unit when parts of it cannot be read.
use systemd_monitoring_mcp.Base.{ℕ, ◌≡◌, ◌∙◌, false, some, List, map, ok, find_by, ◌⊎◌, inl, inr}
use systemd_monitoring_mcp.Text.{Text, text, text_eq}
use systemd_monitoring_mcp.Json.{Json, get_key, json_array}
use systemd_monitoring_mcp.Json.Laws.{get-insert}
use systemd_monitoring_mcp.Units.{UnitScope, system, user, UnitStatus}
use systemd_monitoring_mcp.Services.{unit_status_json}
use systemd_monitoring_mcp.Systemd.Defaults.{is_unit}
use systemd_monitoring_mcp.Systemd.Dependencies.{FailedDependency}
use systemd_monitoring_mcp.Systemd.Journal.{Journal, Clock}
use systemd_monitoring_mcp.Systemd.Journal.Transitions.{UnitTransition, read_unit_transitions}
use systemd_monitoring_mcp.Systemd.Bus.{Bus, dbus_connection_for_scope}
use systemd_monitoring_mcp.Systemd.Bus.Services.{list_service_units_for_single_scope}
use systemd_monitoring_mcp.Systemd.Bus.Inspection.{
  failed_dependency_json, unit_transition_json, or_empty, with_history, read_failed_dependencies,
  unit_path_of, get_unit_status, inspected,
}

abbrev dependencies_key : Text
dependencies_key = text "failed_dependencies"

abbrev transitions_key : Text
transitions_key = text "recent_transitions"

-- The status of `row`, with these two lists added to it
abbrev pub IsStatusOf : UnitStatus → List FailedDependency → List UnitTransition → Json → Type 0
IsStatusOf row dependencies transitions value =
    (get_key value dependencies_key ≡ some (json_array (map failed_dependency_json dependencies)))
    × (get_key value transitions_key ≡ some (json_array (map unit_transition_json transitions)))
    × ((key : Text)
        → text_eq dependencies_key key ≡ false
        → text_eq transitions_key key ≡ false
        → get_key value key ≡ get_key (unit_status_json row) key)

with_history-IsStatusOf :
    (row : UnitStatus) (dependencies : List FailedDependency) (transitions : List UnitTransition)
    → IsStatusOf row dependencies transitions
        (with_history (unit_status_json row) dependencies transitions)
unfolding unit_status_json get_key text_eq
with_history-IsStatusOf row dependencies transitions =
    let failed = json_array (map failed_dependency_json dependencies) in
    let moved = json_array (map unit_transition_json transitions) in
    let outer = get-insert transitions_key in
    (
      rw (outer dependencies_key moved _) (get-insert dependencies_key dependencies_key failed _),
      outer transitions_key moved _,
      λ key d t. rw (outer key moved _, t, get-insert dependencies_key key failed _, d),
    )

module _ {C P J : Type 0} (bus : Bus C P) (journal : Journal J) (clock : Clock) where
  -- A service that a manager lists and knows by a path is answered with its status, whatever becomes of
  -- its dependencies and of the journal: a part that cannot be read is an empty list, and no other
  -- field of the status is touched.
  pub get_unit_status_best_effort :
      (unit : Text) (scope : UnitScope) (transition_limit : ℕ) (rows : List UnitStatus)
      (row : UnitStatus) (connection : C) (unit_path : Text)
      → (scope ≡ system) ⊎ (scope ≡ user)
      → list_service_units_for_single_scope bus clock scope ≡ ok rows
      → find_by (is_unit unit) rows ≡ some row
      → dbus_connection_for_scope bus scope ≡ ok connection
      → unit_path_of bus journal clock connection unit ≡ ok unit_path
      → (value : Json) × (get_unit_status bus journal clock unit scope transition_limit ≡ ok value)
        × IsStatusOf row
            (or_empty (read_failed_dependencies bus journal clock connection unit_path scope))
            (or_empty (read_unit_transitions journal clock unit scope transition_limit))
            value
  unfolding get_unit_status
  get_unit_status_best_effort unit scope transition_limit rows row connection unit_path s l f c p =
      let value =
        with_history (unit_status_json row)
          (or_empty (read_failed_dependencies bus journal clock connection unit_path scope))
          (or_empty (read_unit_transitions journal clock unit scope transition_limit)) in
      let found : inspected bus journal clock unit scope transition_limit ≡ ok value =
        rw (l, f, c, p) in
      let same : get_unit_status bus journal clock unit scope transition_limit
          ≡ inspected bus journal clock unit scope transition_limit =
        elim s [ inl e ↦ rw e | inr e ↦ rw e ] in
      (value, same ∙ found, with_history-IsStatusOf row _ _)
