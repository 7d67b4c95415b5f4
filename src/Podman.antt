-- ===== src/Podman.antt =====
-- podman.rs: containers and pods by the podman command, with what is shown of its answers.
pub mod Argv
pub mod Secrets
pub mod Compact
pub mod Provider
pub mod Alike
pub mod Shown
use systemd_monitoring_mcp.Base.{
  ℕ, ◌*◌, Bool, true, false, not, ◌&&◌, ◌||◌, ◌==◌, ltb, List, [], ◌∷◌, ◌++◌, Option, none, some,
  String, Result, ok, err, ok_or, if◌then◌else◌, ◌>>=◌, length, all_by, and_then, or_else,
}
use systemd_monitoring_mcp.Text.{
  Text, text, text_eq, is_empty, byte_len, contains, is_ascii_alphanumeric, to_ascii_lowercase,
}
use systemd_monitoring_mcp.Json.{Json, Items, nil, cons, Fields, as_array, as_object}
use systemd_monitoring_mcp.Errors.{AppError, bad_request}
use systemd_monitoring_mcp.Systemd.Journal.{internal_error}

unfoldable pub max_output_bytes : ℕ
max_output_bytes = 2 * 1024 * 1024

-- The kind of an inspected thing: the argument of the commands, and the literal `kind` of the code
pub data Kind : Type 0 where
  container pod : Kind

abbrev pub kind_argument : Kind → Text
kind_argument container = text "container"
kind_argument pod = text "pod"

abbrev pub invalid_identifier : Kind → AppError
invalid_identifier container = bad_request "invalid_container" "container identifier is invalid"
invalid_identifier pod = bad_request "invalid_pod" "pod identifier is invalid"

abbrev pub is_identifier_char : ℕ → Bool
is_identifier_char c =
    is_ascii_alphanumeric c || c == b'.' || c == b'_' || c == b'-' || c == b':' || c == b'@'

-- A byte of a character that is not ASCII is refused, as the character is here.
unfoldable pub validate_identifier : Text → Kind → Result (Unit {0}) AppError
unfolding byte_len is_ascii_alphanumeric
validate_identifier value kind =
    if is_empty value || ltb 256 (byte_len value) || not (all_by is_identifier_char value)
    then err (invalid_identifier kind)
    else ok tt

-- How a run of the command ends.
pub record Output : Type 0 where
  pub success : Bool
  pub stdout : List ℕ
  pub stderr : List ℕ

pub data Outcome : Type 0 where
  timed_out : Outcome
  -- It could not be started: whether the program was not found, and the text of the error
  not_started : Bool → Text → Outcome
  finished : Output → Outcome

-- The host: the command with its arguments, and decoding of its output
pub record PodmanHost : Type 0 where
  pub run : List Text → Outcome
  pub from_utf8_lossy : List ℕ → Text
  pub from_slice : List ℕ → Option Json

abbrev pub not_found : Kind → AppError
not_found container = bad_request "container_not_found" "Podman target was not found"
not_found pod = bad_request "pod_not_found" "Podman target was not found"

abbrev pub invalid_response : AppError
invalid_response = bad_request "podman_invalid_response" "Podman returned malformed JSON"

abbrev pub unavailable : AppError
unavailable = bad_request "podman_unavailable" "Podman is unavailable"

-- What a failed run reports
abbrev failure : Kind → Text → AppError
failure kind stderr =
    if contains stderr (text "no such") || contains stderr (text "not found")
    then not_found kind
    else if contains stderr (text "cannot connect") || contains stderr (text "permission denied")
    then unavailable
    else bad_request "podman_provider_error" "Podman inspection failed"

unfoldable pub is_oversized : Output → Bool
is_oversized output =
    ltb max_output_bytes (length output.stdout) || ltb max_output_bytes (length output.stderr)

unfoldable pub checked_output : PodmanHost → Output → Kind → Result Json AppError
checked_output host output kind =
    if is_oversized output
    then err (bad_request "podman_output_too_large" "Podman returned an oversized response")
    else if not output.success
    then err (failure kind (to_ascii_lowercase (host.from_utf8_lossy output.stderr)))
    else ok_or (host.from_slice output.stdout) invalid_response

unfoldable pub run_podman : PodmanHost → List Text → Kind → Result Json AppError
run_podman host args kind = elim (host.run args) [
  | timed_out ↦ err (bad_request "podman_timeout" "Podman inspection timed out")
  | not_started missing message ↦ err (
      if missing
      then unavailable
      else internal_error (text "failed to execute podman: " ++ message))
  | finished output ↦ checked_output host output kind
]

abbrev first_item : Items → Option Json
first_item nil = none
first_item (cons x xs) = some x

unfoldable pub first_object : Json → Result Fields AppError
first_object value =
    ok_or (and_then (or_else (and_then (as_array value) first_item) (some value)) as_object)
      invalid_response
