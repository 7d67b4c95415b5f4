-- ===== src/Systemd/Bus/Enrichment.antt =====
-- What the details of services can and cannot change.
use systemd_monitoring_mcp.Base.{◌≡◌, none, some, List, ok, ◌⊎◌}
use systemd_monitoring_mcp.Base.Maps.{get_last}
use systemd_monitoring_mcp.Text.{Text, text_eq}
use systemd_monitoring_mcp.Units.{UnitStatus}
use systemd_monitoring_mcp.Systemd.Journal.{Clock}
use systemd_monitoring_mcp.Systemd.Bus.{Bus}
use systemd_monitoring_mcp.Systemd.Bus.Services.{ServiceDetails, enriched, fetch_service_details}

-- A row without its details
abbrev pub bare : UnitStatus → UnitStatus
bare unit = record unit {
  unit_file_state = none;
  since_utc = none;
  main_pid = none;
  exec_main_status = none;
  result = none;
}

module _ {C P : Type 0} (bus : Bus C P) (clock : Clock) where
  -- A row has no details, or those that were read at the path of its name.
  abbrev pub IsHonest : C → List (Text × Text) → UnitStatus → Type 0
  IsHonest connection paths u =
      (bare u ≡ u)
      ⊎ ((path : Text) × (details : ServiceDetails) × (get_last text_eq paths u.unit ≡ some path)
          × (fetch_service_details bus clock connection path ≡ ok details)
          × (u ≡ enriched (bare u) details))

  -- The details in the map were read at the path of their name.
  abbrev IsRead : C → List (Text × Text) → Text × ServiceDetails → Type 0
  IsRead connection paths entry =
      (path : Text) × (get_last text_eq paths entry.0 ≡ some path)
      × (fetch_service_details bus clock connection path ≡ ok entry.1)
