-- ===== src/Logs/Handler.antt =====
-- The handler of `list_logs`.
use systemd_monitoring_mcp.Base.{
  ℕ, Bool, false, Option, none, some, List, [], ◌∷◌, ◌++◌, map, if◌then◌else◌, and_then, option_map,
  unwrap_or, is_some, last?, length, Result, ok, err, ◌>>=◌,
}
use systemd_monitoring_mcp.Text.{Text, text}
use systemd_monitoring_mcp.Text.Decimal.{decimal}
use systemd_monitoring_mcp.Json.{
  Json, Fields, end, string, bool, number, pos_int, object, nullable, fields, json_object,
  json_array, as_bool, as_str, get, insert,
}
use systemd_monitoring_mcp.Counts.{counts_json}
use systemd_monitoring_mcp.Errors.{AppError, bad_request}
use systemd_monitoring_mcp.Units.{UnitScope, system, user, DateTime, LogQueryResult}
use systemd_monitoring_mcp.Utils.{normalize_unit, normalize_scope}
use systemd_monitoring_mcp.Rpc.{json_rpc_invalid_params, app_error_to_json_rpc}
use systemd_monitoring_mcp.Responses.{tool_success_response}
use systemd_monitoring_mcp.Env.{Env}
use systemd_monitoring_mcp.Logs.Query.{
  NormalizedLogsQuery, normalize_logs_query, invalid_params, domain,
}
use systemd_monitoring_mcp.Logs.Groups.{project_entry, group_entries}
use systemd_monitoring_mcp.Logs.Summary.{LogSummary, build_log_summary}

abbrev count_json : ℕ → Json
count_json n = number (pos_int n)

abbrev pair_json : Text → Text → Text × ℕ → Json
pair_json name count (key, n) = json_object ((name, string key) ∷ (count, count_json n) ∷ [])

unfoldable pub log_summary_json : LogSummary → Json
log_summary_json s = json_object (
    (text "counts_by_unit", object (counts_json s.counts_by_unit))
    ∷ (text "counts_by_priority", object (counts_json s.counts_by_priority))
    ∷ (
      text "top_messages",
      json_array (map (pair_json (text "message") (text "count")) s.top_messages),
    )
    ∷ (
      text "error_hotspots",
      json_array (map (pair_json (text "unit") (text "error_count")) s.error_hotspots),
    )
    ∷ [])

-- `next_cursor`: where the next page starts, if there is one.
unfoldable pub next_cursor : LogQueryResult → Option Text
next_cursor result =
    if result.has_more then and_then (last? result.entries) (λ entry. entry.cursor) else none

-- `arguments.get("since_last_start").and_then(Value::as_bool) == Some(true)`
unfoldable pub asks_since_last_start : Fields → Bool
unfolding get
asks_since_last_start arguments =
    unwrap_or (and_then (get arguments (text "since_last_start")) as_bool) false

abbrev text_argument : Fields → Text → Option Text
text_argument arguments name = and_then (get arguments name) as_str

unfoldable pub one_unit : Option Text → Result Text AppError
one_unit value = elim (normalize_unit value) [
  | ok (some unit) ↦ ok unit
  | _ ↦ err (bad_request "invalid_unit" "since_last_start requires exactly one unit")
]

unfoldable pub one_scope : Option Text → Result UnitScope AppError
one_scope value = elim (normalize_scope value) [
  | ok system ↦ ok system
  | ok user ↦ ok user
  | _ ↦
      err
        (bad_request "invalid_scope" "since_last_start requires one unit and system or user scope")
]

module _ (env : Env) where
  -- The window starts where the unit's main process did.
  unfoldable pub start_argument : Option DateTime → Fields → Result Fields AppError
  unfolding insert
  start_argument none arguments =
      err (bad_request "unit_start_unavailable" "unit main-process start is unavailable")
  start_argument (some start) arguments =
      ok (insert (text "start_utc") (string (env.to_rfc3339_millis start)) arguments)

  unfoldable pub resolve_start : Fields → Result Fields AppError
  unfolding get
  resolve_start arguments =
      if asks_since_last_start arguments
      then if is_some (get arguments (text "start_utc"))
        then err
            (bad_request "invalid_time_range" "start_utc must be omitted with since_last_start")
        else (do
          unit ← one_unit (text_argument arguments (text "unit"))
          scope ← one_scope (text_argument arguments (text "scope"))
          start ← env.units.unit_main_start unit scope
          start_argument start arguments)
      else ok arguments

  -- `json!(…expect(…).to_rfc3339_opts(…))` of an end of the window, which validation has made sure of
  abbrev time_json : Option DateTime → Json
  time_json time = nullable (option_map (λ t. string (env.to_rfc3339_millis t)) time)

  unfoldable pub detailed_rows : NormalizedLogsQuery → LogQueryResult → List Json
  detailed_rows normalized log_result =
      if normalized.group_by_message
      then group_entries log_result.entries normalized.fields
      else map (λ entry. object (project_entry entry normalized.fields)) log_result.entries

  unfoldable pub logs_answer : Option Json → NormalizedLogsQuery → LogQueryResult → Json
  logs_answer id normalized log_result =
      let rows = detailed_rows normalized log_result in
      let returned =
        if normalized.group_by_message then length rows else length log_result.entries in
      let cursor = nullable (option_map string (next_cursor log_result)) in
      let scanned = nullable (option_map count_json log_result.total_scanned) in
      let generated = string (env.to_rfc3339_millis env.generated_at) in
      let window = json_object (
        (text "start_utc", time_json normalized.query.start_utc)
        ∷ (text "end_utc", time_json normalized.query.end_utc)
        ∷ []) in
      if normalized.summary_enabled
      then tool_success_response env.sdk id (text "Returned logs triage summary") (
          fields (
            (text "summary", log_summary_json (build_log_summary log_result.entries))
            ∷ (text "total_scanned", scanned)
            ∷ (text "returned", count_json (length log_result.entries))
            ∷ (text "truncated", bool log_result.has_more)
            ∷ (text "next_cursor", cursor)
            ∷ (text "generated_at_utc", generated)
            ∷ (text "window", window)
            ∷ []))
      else tool_success_response env.sdk id
          (text "Returned " ++ decimal returned ++ text " log entries")
          (fields (
            (if normalized.group_by_message then text "groups" else text "logs", json_array rows)
            ∷ (text "total_scanned", scanned)
            ∷ (text "returned", count_json returned)
            ∷ (text "truncated", bool log_result.has_more)
            ∷ (text "next_cursor", cursor)
            ∷ (text "generated_at_utc", generated)
            ∷ (text "window", window)
            ∷ []))

  unfoldable pub query_logs : Option Json → Fields → Json
  unfolding logs_answer
  query_logs id arguments = elim (normalize_logs_query env (some arguments)) [
    | err invalid_params ↦ json_rpc_invalid_params env.sdk id
    | err (domain error) ↦ app_error_to_json_rpc env.sdk id error
    | ok normalized ↦ elim (env.units.list_journal_logs normalized.query) [
      | ok log_result ↦ logs_answer id normalized log_result
      | err error ↦ app_error_to_json_rpc env.sdk id error
    ]
  ]

  unfoldable pub handle_list_logs : Option Json → Option Fields → Json
  unfolding query_logs
  handle_list_logs id arguments = elim (resolve_start (unwrap_or arguments end)) [
    | err error ↦ app_error_to_json_rpc env.sdk id error
    | ok resolved ↦ query_logs id resolved
  ]
