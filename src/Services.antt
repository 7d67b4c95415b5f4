-- ===== src/Services.antt =====
-- domain/tools/services.rs: the tool `list_services`.
pub mod Page
pub mod Summary
use systemd_monitoring_mcp.Base.{
  ℕ, Ordering, Bool, true, false, Option, none, some, List, [], ◌∷◌, ◌++◌, map, length, take,
  filter_by, unwrap_or, option_map, if◌then◌else◌, Result, ok, err, ◌>>=◌, map_err,
}
use systemd_monitoring_mcp.Base.Sort.{sort_by}
use systemd_monitoring_mcp.Text.{Text, text, text_eq, text_compare}
use systemd_monitoring_mcp.Text.Decimal.{decimal}
use systemd_monitoring_mcp.Json.{
  Json, Fields, end, null, string, bool, number, pos_int, object, fields, integer, nullable,
  json_object, json_array, items,
}
use systemd_monitoring_mcp.Counts.{Counts, tally, counts_json}
use systemd_monitoring_mcp.Errors.{AppError}
use systemd_monitoring_mcp.Units.{UnitScope, UnitStatus}
use systemd_monitoring_mcp.Utils.{
  normalize_scope, normalize_service_state, normalize_name_contains, normalize_services_limit,
}
use systemd_monitoring_mcp.Utils.Selection.{
  filter_services_by_state, filter_services_by_name_contains, sort_services, is_failed,
}
use systemd_monitoring_mcp.Rpc.{json_rpc_invalid_params, app_error_to_json_rpc}
use systemd_monitoring_mcp.Responses.{Pagination, paginate_rows, tool_success_response}
use systemd_monitoring_mcp.Env.{Env, ServicesQueryParams}

pub record NormalizedServicesQuery : Type 0 where
  pub scope : UnitScope
  pub state_filter : Option Text
  pub name_contains_filter : Option Text
  pub limit : ℕ
  pub summary_enabled : Bool

pub data NormalizeServicesError : Type 0 where
  invalid_params : NormalizeServicesError
  domain : AppError → NormalizeServicesError

pub record FailedUnitSummary : Type 0 where
  pub unit : Text
  pub sub_state : Text
  pub result : Option Text
  pub since_utc : Option Text

pub record ServiceSummary : Type 0 where
  pub counts_by_active_state : Counts
  pub failed_units : List FailedUnitSummary
  pub degraded_hint : Option Text

abbrev pub failed_summary : UnitStatus → FailedUnitSummary
failed_summary service = record {
  unit = service.unit;
  sub_state = service.sub_state;
  result = service.result;
  since_utc = service.since_utc;
}

abbrev pub by_failed_unit : FailedUnitSummary → FailedUnitSummary → Ordering
by_failed_unit left right = text_compare left.unit right.unit

-- The failed services, sorted by unit
unfoldable pub failed_summaries : List UnitStatus → List FailedUnitSummary
unfolding sort_by
failed_summaries services =
    sort_by by_failed_unit (map failed_summary (filter_by is_failed services))

degraded_hint_for : List FailedUnitSummary → Option Text
degraded_hint_for [] = none
degraded_hint_for (f ∷ fs) = some (
    text "Detected "
    ++ decimal (length (f ∷ fs))
    ++ text " failed service(s); review failed_units for triage")

unfoldable pub build_service_summary : List UnitStatus → ServiceSummary
unfolding degraded_hint_for
build_service_summary services =
    let failed_units = take 10 (failed_summaries services) in
    record {
      counts_by_active_state = tally (map (λ service. service.active_state) services);
      failed_units = failed_units;
      degraded_hint = degraded_hint_for failed_units;
    }

-- Serialisation of the rows, as `impl Serialize for UnitStatus` writes them, and of the summary.
abbrev pub text_or_null : Option Text → Json
text_or_null o = nullable (option_map string o)

unfoldable pub unit_status_json : UnitStatus → Json
unit_status_json row = json_object (
    (text "unit", string row.unit)
    ∷ (text "scope", string row.scope)
    ∷ (text "description", string row.description)
    ∷ (text "load_state", string row.load_state)
    ∷ (text "active_state", string row.active_state)
    ∷ (text "sub_state", string row.sub_state)
    ∷ (text "unit_file_state", text_or_null row.unit_file_state)
    ∷ (text "since_utc", text_or_null row.since_utc)
    ∷ (text "main_pid", nullable (option_map (λ n. number (pos_int n)) row.main_pid))
    ∷ (text "exec_main_status", nullable (option_map integer row.exec_main_status))
    ∷ (text "result", text_or_null row.result)
    ∷ (text "restart_count", null)
    ∷ (
      text "timestamps",
      json_object (
          (text "state_change", null)
          ∷ (text "active_enter", text_or_null row.since_utc)
          ∷ (text "active_exit", null)
          ∷ (text "inactive_enter", null)
          ∷ (text "inactive_exit", null)
          ∷ (text "main_process_start", null)
          ∷ (text "main_process_exit", null)
          ∷ []),
    )
    ∷ [])

failed_unit_json : FailedUnitSummary → Json
failed_unit_json f = json_object (
    (text "unit", string f.unit)
    ∷ (text "sub_state", string f.sub_state)
    ∷ (text "result", text_or_null f.result)
    ∷ (text "since_utc", text_or_null f.since_utc)
    ∷ [])

unfoldable pub service_summary_json : ServiceSummary → Json
unfolding failed_unit_json
service_summary_json summary = json_object (
    (text "counts_by_active_state", object (counts_json summary.counts_by_active_state))
    ∷ (text "failed_units", json_array (map failed_unit_json summary.failed_units))
    ∷ (text "degraded_hint", text_or_null summary.degraded_hint)
    ∷ [])

abbrev pub count_json : ℕ → Json
count_json n = number (pos_int n)

module _ (env : Env) where
  unfoldable pub normalize_services_query :
      Option Fields → Result NormalizedServicesQuery NormalizeServicesError
  normalize_services_query arguments = elim (env.decode.services_params (unwrap_or arguments end)) [
    | none ↦ err invalid_params
    | some params ↦ do
      scope ← map_err domain (normalize_scope params.scope)
      state_filter ← map_err domain (normalize_service_state params.state)
      let name_contains_filter = normalize_name_contains params.name_contains
      limit ← map_err domain (normalize_services_limit params.limit)
      ok (record {
        scope = scope;
        state_filter = state_filter;
        name_contains_filter = name_contains_filter;
        limit = limit;
        summary_enabled = unwrap_or params.summary false;
      })
  ]

-- `state_filter.as_deref() == Some("failed")`
abbrev pub asks_failed : Option Text → Bool
asks_failed none = false
asks_failed (some state) = text_eq state (text "failed")

-- The rows of the answer: filtered twice, sorted, and cut to the limit.
unfoldable pub select_services : NormalizedServicesQuery → List UnitStatus → Pagination UnitStatus
select_services query services =
    let by_state = filter_services_by_state services query.state_filter in
    let by_name = filter_services_by_name_contains by_state query.name_contains_filter in
    paginate_rows (sort_services by_name (asks_failed query.state_filter)) query.limit

module _ (env : Env) where
  -- The answer for the rows that the provider listed
  unfoldable pub services_answer : Option Json → NormalizedServicesQuery → List UnitStatus → Json
  services_answer id query services =
      let page = select_services query services in
      let generated = string (env.to_rfc3339_millis env.generated_at) in
      if query.summary_enabled
      then tool_success_response env.sdk id (text "Returned service triage summary") (
          fields (
            (text "summary", service_summary_json (build_service_summary page.rows))
            ∷ (text "total", count_json page.total)
            ∷ (text "returned", count_json page.returned)
            ∷ (text "truncated", bool page.truncated)
            ∷ (text "generated_at_utc", generated)
            ∷ []))
      else tool_success_response env.sdk id
          (text "Returned "
            ++ decimal page.returned
            ++ text " of "
            ++ decimal page.total
            ++ text " services")
          (fields (
            (text "services", json_array (map unit_status_json page.rows))
            ∷ (text "total", count_json page.total)
            ∷ (text "returned", count_json page.returned)
            ∷ (text "truncated", bool page.truncated)
            ∷ (text "generated_at_utc", generated)
            ∷ []))

  unfoldable pub handle_list_services : Option Json → Option Fields → Json
  unfolding services_answer
  handle_list_services id arguments = elim (normalize_services_query env arguments) [
    | err invalid_params ↦ json_rpc_invalid_params env.sdk id
    | err (domain error) ↦ app_error_to_json_rpc env.sdk id error
    | ok query ↦ elim (env.units.list_service_units query.scope) [
      | ok services ↦ services_answer id query services
      | err error ↦ app_error_to_json_rpc env.sdk id error
    ]
  ]
