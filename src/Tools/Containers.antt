-- ===== src/Tools/Containers.antt =====
-- The container tool on the podman command: what a caller can learn of a container.
use systemd_monitoring_mcp.Base.{◌≡◌, ◌⊎◌, ok}
use systemd_monitoring_mcp.Text.{Text}
use systemd_monitoring_mcp.Json.{Json, Fields}
use systemd_monitoring_mcp.Env.{Env}
use systemd_monitoring_mcp.Podman.{container, PodmanHost, run_podman}
use systemd_monitoring_mcp.Podman.Shown.{AgreeOnShown, Describes}
use systemd_monitoring_mcp.Podman.Provider.{arguments, cli_podman_provider}

-- Podman answers alike on two hosts, or with two containers that agree on what is shown but for
-- secrets.
abbrev pub IsAlike : PodmanHost → PodmanHost → Text → Type 0
IsAlike host other identifier =
    let args = arguments container identifier in
    (run_podman host args container ≡ run_podman other args container)
    ⊎ ((fs : Fields) × (gs : Fields) × (raw : Json) × (other_raw : Json) × (run_podman host args
            container
          ≡ ok raw)
        × (run_podman other args container ≡ ok other_raw)
        × Describes fs raw
        × Describes gs other_raw
        × AgreeOnShown fs gs)

module _ (env : Env) where
  abbrev pub with_podman : PodmanHost → Env
  with_podman host = record env { podman = cli_podman_provider host }
