-- ===== src/Examples/Queries.antt =====
-- Validated parameters.
use systemd_monitoring_mcp.Base.{
  ℕ, ◌≡◌, refl, true, false, Option, none, some, ok, ok_or, option_map, [],
}
use systemd_monitoring_mcp.Base.Int.{pos, ◌-ℤ◌}
use systemd_monitoring_mcp.Text.{Text, text, trim, is_empty, one_of, to_ascii_lowercase, ends_with}
use systemd_monitoring_mcp.Units.{LogQuery, system, desc}
use systemd_monitoring_mcp.Utils.{
  normalize_unit, normalize_priority, is_valid_unit_name_chars, normalize_scope, parse_utc,
  invalid_priority,
}
use systemd_monitoring_mcp.Utils.UnitNames.{normalize_unit_sound}
use systemd_monitoring_mcp.Utils.Choices.{
  priorities, priority_names, meaning, normalize_priority_sound,
}
use systemd_monitoring_mcp.Env.{Env, LogsQueryParams}
use systemd_monitoring_mcp.Logs.Query.{
  build_log_query, log_window, check_range, log_limit, log_order, normalize_units, log_grep,
}
use systemd_monitoring_mcp.Logs.Window.{IsBounded, build_log_query_sound}
use systemd_monitoring_mcp.Examples.Fixtures.{env}

normalize_unit_sound_example :
    (text "sshd" ≡ trim (text " sshd "))
    × (trim (text "sshd") ≡ text "sshd")
    × (is_empty (text "sshd") ≡ false)
    × (is_valid_unit_name_chars (text "sshd") ≡ true)
    × (normalize_unit (some (text "sshd")) ≡ ok (some (text "sshd")))
unfolding normalize_unit trim is_valid_unit_name_chars
normalize_unit_sound_example = normalize_unit_sound (text " sshd ") (text "sshd") refl

normalize_priority_sound_example :
    (normalize_priority (some (text " Error"))
      ≡ ok_or
          (option_map some (meaning (to_ascii_lowercase (trim (text " Error"))) priority_names))
          invalid_priority)
    × ((priority : Text)
        → normalize_priority (some (text " Error")) ≡ ok (some priority)
        → (one_of priority priorities ≡ true)
          × (normalize_priority (some priority) ≡ ok (some priority)))
normalize_priority_sound_example = normalize_priority_sound (text " Error")

abbrev no_limit : Option ℕ
no_limit = none

-- The fixtures' clock reads every time as the epoch but for a query's end.
abbrev ticking : Env
ticking = record env {
  parse_from_rfc3339 = λ value. elim (is_empty (trim value)) [
    | true ↦ none
    | false ↦ some (elim (ends_with value (text "01Z")) [ true ↦ pos 1 | false ↦ pos 0 ], pos 0)
  ];
}

abbrev asked : LogsQueryParams
asked = record {
  scope = none;
  priority = none;
  unit = none;
  start_utc = some (text "00Z");
  end_utc = some (text "01Z");
  grep = none;
  exclude_units = none;
  order = none;
  allow_large_window = none;
  limit = none;
  summary = none;
  cursor = none;
  fields = none;
  group_by = none;
  since_last_start = none;
}

abbrev query : LogQuery
query = record {
  scope = system;
  priority = none;
  unit = none;
  exclude_units = [];
  grep = none;
  order = desc;
  start_utc = some (pos 0);
  end_utc = some (pos 1);
  limit = 200;
  cursor = none;
}

build_log_query_sound_example : IsBounded false query
unfolding build_log_query log_window parse_utc check_range log_limit log_order normalize_units
    normalize_scope normalize_priority normalize_unit log_grep ends_with trim ◌-ℤ◌
build_log_query_sound_example = build_log_query_sound ticking asked query refl
