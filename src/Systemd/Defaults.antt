-- ===== src/Systemd/Defaults.antt =====
-- The default bodies of the trait `UnitProvider`, over the rows that `list_service_units` gives.
use systemd_monitoring_mcp.Base.{
  ◌≡◌, Bool, Option, List, [], ◌∷◌, find_by, any_by, and_then, option_map, Result, ok, is_ok, ok_or,
  ◌>>=◌, Bool-cases, Option-cases, inl, inr, refl,
}
use systemd_monitoring_mcp.Text.{Text, text, text_eq}
use systemd_monitoring_mcp.Json.{Json, object, array, nil, insert}
use systemd_monitoring_mcp.Errors.{AppError, bad_request}
use systemd_monitoring_mcp.Units.{UnitStatus, DateTime}
use systemd_monitoring_mcp.Utils.{ParseRfc3339}
use systemd_monitoring_mcp.Services.{unit_status_json}

abbrev pub unit_not_found : AppError
unit_not_found = bad_request "unit_not_found" "systemd service unit was not found"

abbrev pub is_unit : Text → UnitStatus → Bool
is_unit unit row = text_eq row.unit unit

-- `if let Some(object) = value.as_object_mut()`
abbrev with_no_details : Json → Json
with_no_details (object fs) = object (
    insert (text "recent_transitions") (array nil)
      (insert (text "failed_dependencies") (array nil) fs))
with_no_details value = value

unfoldable pub default_unit_status : Result (List UnitStatus) AppError → Text → Result Json AppError
unfolding insert unit_status_json text_eq
default_unit_status listed unit = do
  rows ← listed
  row ← ok_or (find_by (is_unit unit) rows) unit_not_found
  ok (with_no_details (unit_status_json row))

unfoldable pub default_main_start :
    ParseRfc3339 → Result (List UnitStatus) AppError → Text → Result (Option DateTime) AppError
unfolding text_eq
default_main_start parse_from_rfc3339 listed unit = do
  rows ← listed
  ok (
      option_map (λ parsed. parsed.0)
        (and_then (and_then (find_by (is_unit unit) rows) (λ row. row.since_utc))
          parse_from_rfc3339))

find_any :
    (unit : Text) (rows : List UnitStatus)
    → is_ok (ok_or (find_by (is_unit unit) rows) unit_not_found) ≡ any_by (is_unit unit) rows
find_any unit [] = refl
find_any unit (r ∷ rs) = elim (Bool-cases (is_unit unit r)) [
  | inl e ↦ rw e
  | inr e ↦ rw e (find_any unit rs)
]

-- Where the services could be listed, a status is given exactly for the units among them.
default_unit_status_iff :
    (rows : List UnitStatus) (unit : Text)
    → is_ok (default_unit_status (ok rows) unit) ≡ any_by (is_unit unit) rows
unfolding default_unit_status
default_unit_status_iff rows unit = elim (Option-cases (find_by (is_unit unit) rows)) [
  | inl e ↦ rw (default_unit_status, e) (rw (is_ok, e) at (find_any unit rows))
  | inr (row, e) ↦ rw (default_unit_status, e) (rw (is_ok, e) at (find_any unit rows))
]
