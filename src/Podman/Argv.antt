-- ===== src/Podman/Argv.antt =====
-- The arguments of a container's command as they are shown.
use systemd_monitoring_mcp.Base.{
  ℕ, Bool, true, false, not, ◌&&◌, ◌||◌, ◌==◌, [], ◌∷◌, ◌++◌, map, Option, none, some,
  if◌then◌else◌, and_then, option_map, any_by,
}
use systemd_monitoring_mcp.Text.{
  Text, text, contains, starts_with, is_whitespace, to_ascii_lowercase,
}
use systemd_monitoring_mcp.Json.{Json, null, string, array, Items, nil, cons, as_array, as_str}

-- `trim_start_matches('-')`
unfoldable pub trim_dashes : Text → Text
trim_dashes [] = []
trim_dashes (c ∷ s) = if c == b'-' then trim_dashes s else c ∷ s

-- `replace('_', "-")`
abbrev pub dashed : ℕ → ℕ
dashed c = if c == b'_' then b'-' else c

unfoldable pub is_sensitive_argument_name : Text → Bool
unfolding trim_dashes to_ascii_lowercase contains
is_sensitive_argument_name name =
    let normalized = map dashed (to_ascii_lowercase (trim_dashes name)) in
    contains normalized (text "password")
    || contains normalized (text "secret")
    || contains normalized (text "token")
    || contains normalized (text "credential")
    || contains normalized (text "authorization")
    || contains normalized (text "bearer")
    || contains normalized (text "api-key")
    || contains normalized (text "apikey")

-- `split_once('=')`: what comes before the first equals sign
unfoldable pub name_before : Text → Option Text
name_before [] = none
name_before (c ∷ s) = if c == b'=' then some [] else option_map (◌∷◌ c) (name_before s)

abbrev pub redacted : Text
redacted = text "[REDACTED]"

-- A flag takes its value from the next argument.
unfoldable pub is_flag : Text → Bool
is_flag argument = starts_with argument (text "-") && not (any_by is_whitespace argument)

-- What is shown of an argument that is no assignment to a sensitive name, and whether the next one is
-- its value
unfoldable pub sanitize_plain : Text → Text × Bool
sanitize_plain argument =
    if not (is_sensitive_argument_name argument)
    then (argument, false)
    else if is_flag argument
    then (argument, true)
    else (redacted, false)

unfoldable pub sanitize_argument : Bool → Text → Text × Bool
sanitize_argument true argument = (redacted, false)
sanitize_argument false argument = elim (name_before argument) [
  | none ↦ sanitize_plain argument
  | some name ↦
      if is_sensitive_argument_name name
      then (name ++ text "=[REDACTED]", false)
      else sanitize_plain argument
]

-- The closure over `redact_next`
unfoldable pub sanitize_items : Bool → Items → Items
sanitize_items redact_next nil = nil
sanitize_items redact_next (cons argument rest) = elim (as_str argument) [
  | none ↦ cons null (sanitize_items false rest)
  | some s ↦
      let (shown, next) = sanitize_argument redact_next s in
      cons (string shown) (sanitize_items next rest)
]

unfoldable pub sanitize_argv : Option Json → Json
sanitize_argv value = elim (and_then value as_array) [
  | none ↦ null
  | some arguments ↦ array (sanitize_items false arguments)
]
