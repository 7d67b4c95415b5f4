-- ===== src/Podman/Compact.antt =====
-- What is shown of a container and of a pod.
use systemd_monitoring_mcp.Base.{
  not, Option, none, some, List, [], ◌∷◌, Result, ok, ◌>>=◌, and_then, or_else, option_map,
  unwrap_or,
}
use systemd_monitoring_mcp.Text.{Text, text}
use systemd_monitoring_mcp.Json.{
  Json, null, bool, array, object, Items, nil, cons, Fields, end, as_bool, as_array, as_object,
  get_key, insert, get, json_object, nullable,
}
use systemd_monitoring_mcp.Errors.{AppError}
use systemd_monitoring_mcp.Podman.{first_object}
use systemd_monitoring_mcp.Podman.Argv.{sanitize_argv}

-- `Value::pointer`, by its tokens, none of which is an index of an array here
unfoldable pub pointer : Json → List Text → Option Json
pointer value [] = some value
pointer value (token ∷ tokens) = and_then (get_key value token) (λ inner. pointer inner tokens)

unfoldable pub at : Json → List Text → Json
unfolding pointer
at value tokens = unwrap_or (pointer value tokens) null

-- The public names of the health configuration, each with the name in the raw answer
abbrev pub health_names : List (Text × Text)
health_names =
    (text "interval", text "Interval")
    ∷ (text "timeout", text "Timeout")
    ∷ (text "start_period", text "StartPeriod")
    ∷ (text "start_interval", text "StartInterval")
    ∷ (text "retries", text "Retries")
    ∷ []

unfoldable pub insert_present : Fields → List (Text × Text) → Fields → Fields
insert_present healthcheck [] compact = compact
insert_present healthcheck ((public_name, inspect_name) ∷ names) compact =
    elim (get healthcheck inspect_name) [
      | none ↦ insert_present healthcheck names compact
      | some value ↦ insert_present healthcheck names (insert public_name value compact)
    ]

unfoldable pub compact_health_config : Json → Json
unfolding insert_present
compact_health_config config = elim (and_then (get_key config (text "Healthcheck")) as_object) [
  | none ↦ null
  | some healthcheck ↦ object (
      insert_present healthcheck health_names
        (insert (text "test") (sanitize_argv (get healthcheck (text "Test"))) end))
]

abbrev pub map_items : (Json → Json) → Items → Items
map_items f nil = nil
map_items f (cons x xs) = cons (f x) (map_items f xs)

-- An array under a key, or the empty one
abbrev pub array_at : Json → Text → Items
array_at value key = unwrap_or (and_then (get_key value key) as_array) nil

abbrev pub mount_json : Json → Json
mount_json mount = json_object (
    (text "type", at mount (text "Type" ∷ []))
    ∷ (text "destination", at mount (text "Destination" ∷ []))
    ∷ (
      text "read_only",
      nullable (option_map (λ rw. bool (not rw)) (as_bool (at mount (text "RW" ∷ [])))),
    )
    ∷ [])

abbrev pub health_json : Json → Json
health_json health = json_object ((text "status", at health (text "Status" ∷ [])) ∷ [])

-- `value.get(key).or_else(|| value.get(other)).cloned()`
abbrev either_key : Json → Text → Text → Json
either_key value key other = nullable (or_else (get_key value key) (get_key value other))

unfoldable pub container_json : Json → Json
unfolding at
container_json value =
    let state = at value (text "State" ∷ []) in
    let config = at value (text "Config" ∷ []) in
    let host_config = at value (text "HostConfig" ∷ []) in
    json_object (
      (text "id", at value (text "Id" ∷ []))
      ∷ (text "name", at value (text "Name" ∷ []))
      ∷ (text "state", at state (text "Status" ∷ []))
      ∷ (text "running", at state (text "Running" ∷ []))
      ∷ (text "exit_code", at state (text "ExitCode" ∷ []))
      ∷ (text "error", at state (text "Error" ∷ []))
      ∷ (text "started_at", at state (text "StartedAt" ∷ []))
      ∷ (text "finished_at", at state (text "FinishedAt" ∷ []))
      ∷ (text "created_at", either_key value (text "Created") (text "CreatedAt"))
      ∷ (text "restart_count", nullable (get_key value (text "RestartCount")))
      ∷ (
        text "image",
        json_object (
            (text "name", nullable (get_key config (text "Image")))
            ∷ (text "id", either_key value (text "Image") (text "ImageDigest"))
            ∷ []),
      )
      ∷ (text "configured_user", nullable (get_key config (text "User")))
      ∷ (
        text "runtime_identity",
        json_object (
            (text "uid", at value (text "State" ∷ text "UID" ∷ []))
            ∷ (text "gid", at value (text "State" ∷ text "GID" ∷ []))
            ∷ (text "host_uid", at value (text "State" ∷ text "HostUID" ∷ []))
            ∷ (text "host_gid", at value (text "State" ∷ text "HostGID" ∷ []))
            ∷ []),
      )
      ∷ (text "read_only_rootfs", nullable (get_key host_config (text "ReadonlyRootfs")))
      ∷ (text "mounts", array (map_items mount_json (array_at value (text "Mounts"))))
      ∷ (text "health", nullable (option_map health_json (get_key state (text "Health"))))
      ∷ (text "health_config", compact_health_config config)
      ∷ (text "command", sanitize_argv (get_key config (text "Cmd")))
      ∷ (text "pod_id", either_key value (text "Pod") (text "PodId"))
      ∷ [])

unfoldable pub compact_container : Json → Result Json AppError
compact_container raw = do value ← first_object raw; ok (container_json (object value))

abbrev member_json : Json → Json
member_json item = json_object (
    (text "id", at item (text "Id" ∷ []))
    ∷ (text "name", at item (text "Name" ∷ []))
    ∷ (text "state", at item (text "State" ∷ []))
    ∷ [])

unfoldable pub pod_json : Json → Json
pod_json value = json_object (
    (text "id", either_key value (text "Id") (text "ID"))
    ∷ (text "name", nullable (get_key value (text "Name")))
    ∷ (text "state", nullable (get_key value (text "State")))
    ∷ (text "created_at", either_key value (text "Created") (text "CreatedAt"))
    ∷ (text "restart_policy", nullable (pointer value (text "RestartPolicy" ∷ [])))
    ∷ (
      text "infra_container_id",
      either_key value (text "InfraContainerID") (text "InfraContainerId"),
    )
    ∷ (text "shared_namespaces", nullable (get_key value (text "SharedNamespaces")))
    ∷ (text "containers", array (map_items member_json (array_at value (text "Containers"))))
    ∷ [])

unfoldable pub compact_pod : Json → Result Json AppError
compact_pod raw = do value ← first_object raw; ok (pod_json (object value))
