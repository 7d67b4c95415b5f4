-- ===== src/Systemd/Bus/Availability.antt =====
-- The check at start-up that systemd is there.
use systemd_monitoring_mcp.Base.{Bool, not, Result, ok, err, if◌then◌else◌, ◌>>=◌, map_err}
use systemd_monitoring_mcp.Text.{Text}
use systemd_monitoring_mcp.Systemd.Bus.{Bus, manager_path, manager_interface}

pub data SystemdAvailabilityError : Type 0 where
  not_booted : SystemdAvailabilityError
  boot_state : Text → SystemdAvailabilityError
  dbus_connect : Text → SystemdAvailabilityError
  proxy_create : Text → SystemdAvailabilityError
  manager_query : Text → SystemdAvailabilityError

-- `booted` is what `daemon::booted` returns.
unfoldable pub ensure_systemd_available :
    {C P : Type 0} → Bus C P → Result Bool Text → Result (Unit {0}) SystemdAvailabilityError
ensure_systemd_available bus booted = do
  is_booted ← map_err boot_state booted
  if not is_booted then err not_booted else do
    connection ← map_err dbus_connect bus.system_bus
    proxy ← map_err proxy_create (bus.new_proxy connection manager_path manager_interface)
    rows ← map_err manager_query (bus.list_units proxy)
    ok tt
