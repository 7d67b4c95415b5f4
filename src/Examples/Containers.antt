-- ===== src/Examples/Containers.antt =====
-- A host with podman, and commands with secrets.
use systemd_monitoring_mcp.Base.{◌≡◌, inr, refl, true, some, List, [], ◌∷◌, map, All, ok, err}
use systemd_monitoring_mcp.Text.{
  Text, text, contains, starts_with, to_ascii_lowercase, lower_char, byte_len,
  is_ascii_alphanumeric,
}
use systemd_monitoring_mcp.Json.{
  Json, integer, object, string, array, Items, nil, cons, Fields, end, field, items,
}
use systemd_monitoring_mcp.Base.Int.{pos}
use systemd_monitoring_mcp.Env.{Env}
use systemd_monitoring_mcp.Examples.Fixtures.{env}
use systemd_monitoring_mcp.Podman.{
  container, pod, Output, finished, PodmanHost, validate_identifier, run_podman, checked_output,
  is_oversized, max_output_bytes, first_object, invalid_identifier,
}
use systemd_monitoring_mcp.Podman.Argv.{
  trim_dashes, is_sensitive_argument_name, name_before, sanitize_argv,
}
use systemd_monitoring_mcp.Podman.Secrets.{IsHarmless, sanitize_argv_keeps}
use systemd_monitoring_mcp.Podman.Compact.{compact_pod, pod_json}
use systemd_monitoring_mcp.Podman.Provider.{
  inspect, compact, arguments, IsIdentifier, IsGoodRun, inspect_sound, inspect_refused,
}

abbrev command : Text → Text → Items
command password token =
    cons (string (text "run"))
      (cons (string (text "--password")) (cons (string password) (cons (string token) nil)))

abbrev plain : List Text
plain = text "serve" ∷ text "--port=80" ∷ []

harmless : All IsHarmless plain
unfolding trim_dashes is_sensitive_argument_name name_before contains starts_with to_ascii_lowercase
    lower_char
harmless = ((refl, refl), ((refl, refl), tt))

sanitize_argv_keeps_example :
    sanitize_argv (some (array (items (map string plain)))) ≡ array (items (map string plain))
sanitize_argv_keeps_example = sanitize_argv_keeps plain harmless

-- A configuration with an environment, a command and a health test
abbrev config : Text → Items → Fields
config environment argv = field (text "Env") (string environment) (
    field (text "Cmd") (array argv) (
      field (text "Healthcheck")
        (object (field (text "Test") (array argv) (field (text "Retries") (integer (pos 3)) end)))
        end))

-- A state whose health check has a log
abbrev state_of : Text → Json
state_of log = object (
    field (text "Status") (string (text "running")) (
      field (text "Health")
        (object (field (text "Status") (string (text "ok")) (field (text "Log") (string log) end)))
        end))

abbrev mount_of : Text → Json
mount_of source =
    object
      (field (text "Source") (string source) (field (text "Destination") (string (text "/d")) end))

abbrev answer : Text → Items → Fields
answer hidden argv = field (text "Config") (object (config hidden argv)) (
    field (text "State") (state_of hidden) (
      field (text "Mounts") (array (cons (mount_of hidden) nil))
        (field (text "Id") (string (text "c1")) end)))

abbrev one : Fields
one = answer (text "KEY=a") (command (text "a") (text "API_TOKEN=b"))

abbrev other : Fields
other = answer (text "KEY=b") (command (text "c") (text "API_TOKEN=d"))

abbrev health_of : Items → Fields
health_of argv = field (text "Test") (array argv) (field (text "Retries") (integer (pos 3)) end)

-- A host where podman prints this container in an array, as it does
abbrev host_of : Fields → PodmanHost
host_of fields = record {
  run = λ args. finished (record { success = true; stdout = 123 ∷ 125 ∷ []; stderr = [] });
  from_utf8_lossy = λ bytes. bytes;
  from_slice = λ bytes. some (array (cons (object fields) nil));
}

abbrev web_env : Env
web_env = record env {
  decode = record env.decode { container_params = λ arguments. some (text "web") };
}

abbrev host : PodmanHost
host = record {
  run = λ args. finished (record { success = true; stdout = 123 ∷ 125 ∷ []; stderr = [] });
  from_utf8_lossy = λ bytes. bytes;
  from_slice = λ bytes. some (object end);
}

abbrev no_pod : Json
no_pod = pod_json (object end)

inspect_sound_example :
    IsIdentifier (text "web")
    × ((raw : Json) × (output : Output) × IsGoodRun host (arguments pod (text "web")) raw output
        × (compact pod raw ≡ ok no_pod))
unfolding inspect validate_identifier run_podman checked_output is_oversized max_output_bytes
    compact_pod first_object byte_len is_ascii_alphanumeric
inspect_sound_example = inspect_sound host pod (text "web") no_pod refl

inspect_refused_example : inspect host container (text "a b") ≡ err (invalid_identifier container)
unfolding is_ascii_alphanumeric
inspect_refused_example = inspect_refused host container (text "a b") (inr (inr refl))
