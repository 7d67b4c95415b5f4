-- ===== src/Timers/Handler.antt =====
-- The handler of `list_timers`: rows, page and answer.
use mathlib.Core.List.{Perm}
use systemd_monitoring_mcp.Base.{
  ℕ, ◌≡◌, subst, Bool, true, ◌&&◌, Option, List, [], ◌∷◌, ◌++◌, map, arith, if◌then◌else◌,
  filter_by, unwrap_or, option_map, ok, err,
}
use systemd_monitoring_mcp.Base.Sort.{IsSorted}
use systemd_monitoring_mcp.Text.{Text, text, to_ascii_lowercase, eq_ignore_ascii_case, contains}
use systemd_monitoring_mcp.Text.Decimal.{decimal}
use systemd_monitoring_mcp.Json.{
  Json, Fields, string, bool, number, pos_int, object, integer, nullable, fields, json_object,
  json_array,
}
use systemd_monitoring_mcp.Counts.{counts_json}
use systemd_monitoring_mcp.Units.{TimerStatus}
use systemd_monitoring_mcp.Rpc.{app_error_to_json_rpc}
use systemd_monitoring_mcp.Responses.{Pagination, paginate_rows, tool_success_response}
use systemd_monitoring_mcp.Responses.Pages.{IsPageOf, paginate_rows-IsPageOf}
use systemd_monitoring_mcp.Env.{Env}
use systemd_monitoring_mcp.Timers.Params.{NormalizedTimersQuery, normalize_timers_query}
use systemd_monitoring_mcp.Timers.Items.{TimerItem, build_timer_item}
use systemd_monitoring_mcp.Timers.Order.{
  sort_timer_items, sort_timer_items-IsSorted, compare_timers,
}
use systemd_monitoring_mcp.Timers.Summary.{
  TimerSummary, NextDueSoonTimer, ProblemTimer, build_timer_summary,
}

-- The two closures that filter the timers
unfoldable pub state_matches : Option Text → TimerStatus → Bool
state_matches state timer =
    unwrap_or (option_map (λ expected. eq_ignore_ascii_case timer.active_state expected) state) true

unfoldable pub name_matches : Option Text → TimerStatus → Bool
name_matches part timer =
    unwrap_or (option_map (λ needle. contains (to_ascii_lowercase timer.unit) needle) part) true

abbrev text_or_null : Option Text → Json
text_or_null o = nullable (option_map string o)

abbrev count_json : ℕ → Json
count_json n = number (pos_int n)

-- The derived serialisations, in the order of the fields
unfoldable pub timer_item_json : TimerItem → Json
timer_item_json t = json_object (
    (text "unit", string t.unit)
    ∷ (text "scope", string t.scope)
    ∷ (text "active_state", string t.active_state)
    ∷ (text "sub_state", string t.sub_state)
    ∷ (text "next_run_utc", text_or_null t.next_run_utc)
    ∷ (text "last_run_utc", text_or_null t.last_run_utc)
    ∷ (text "time_until_next_sec", nullable (option_map integer t.time_until_next_sec))
    ∷ (text "time_since_last_sec", nullable (option_map integer t.time_since_last_sec))
    ∷ (text "trigger_unit", text_or_null t.trigger_unit)
    ∷ (text "persistent", nullable (option_map bool t.persistent))
    ∷ (text "result", text_or_null t.result)
    ∷ (text "load_state", text_or_null t.load_state)
    ∷ (text "unit_file_state", text_or_null t.unit_file_state)
    ∷ (text "overdue", bool t.overdue)
    ∷ (text "overdue_reason", text_or_null t.overdue_reason)
    ∷ [])

due_json : NextDueSoonTimer → Json
due_json d = json_object (
    (text "unit", string d.unit)
    ∷ (text "next_run_utc", string d.next_run_utc)
    ∷ (text "time_until_next_sec", integer d.time_until_next_sec)
    ∷ (text "active_state", string d.active_state)
    ∷ (text "trigger_unit", text_or_null d.trigger_unit)
    ∷ [])

problem_json : ProblemTimer → Json
problem_json p = json_object (
    (text "unit", string p.unit)
    ∷ (text "active_state", string p.active_state)
    ∷ (text "sub_state", string p.sub_state)
    ∷ (text "result", text_or_null p.result)
    ∷ (text "overdue", bool p.overdue)
    ∷ (text "overdue_reason", text_or_null p.overdue_reason)
    ∷ [])

unfoldable pub timer_summary_json : TimerSummary → Json
unfolding due_json problem_json
timer_summary_json s = json_object (
    (text "counts_by_active_state", object (counts_json s.counts_by_active_state))
    ∷ (text "overdue_count", count_json s.overdue_count)
    ∷ (text "next_due_soon", json_array (map due_json s.next_due_soon))
    ∷ (text "failed_or_problem_timers", json_array (map problem_json s.failed_or_problem_timers))
    ∷ [])

module _ (env : Env) where
  -- The rows that match, as items; `retain` drops those that are not overdue where it is asked to.
  unfoldable pub timer_rows : NormalizedTimersQuery → List TimerStatus → List TimerItem
  timer_rows query timers =
      let kept =
        filter_by (name_matches query.name_contains)
          (filter_by (state_matches query.timer_state) timers) in
      let rows =
        map
          (λ timer. build_timer_item env.parse_from_rfc3339 timer env.now query.include_persistent)
          kept in
      if query.overdue_only then filter_by (λ timer. timer.overdue) rows else rows

  unfoldable pub select_timers : NormalizedTimersQuery → List TimerStatus → Pagination TimerItem
  select_timers query timers =
      paginate_rows (sort_timer_items (timer_rows query timers) query.sort query.order) query.limit

  unfoldable pub timers_answer : Option Json → NormalizedTimersQuery → List TimerStatus → Json
  timers_answer id query timers =
      let page = select_timers query timers in
      let generated = string (env.to_rfc3339_millis env.generated_at) in
      if query.summary_enabled
      then tool_success_response env.sdk id (text "Returned timer triage summary") (
          fields (
            (text "summary", timer_summary_json (build_timer_summary page.rows))
            ∷ (text "total_scanned", count_json page.total)
            ∷ (text "returned", count_json page.returned)
            ∷ (text "truncated", bool page.truncated)
            ∷ (text "generated_at_utc", generated)
            ∷ []))
      else tool_success_response env.sdk id
          (text "Returned "
            ++ decimal page.returned
            ++ text " of "
            ++ decimal page.total
            ++ text " timers")
          (fields (
            (text "timers", json_array (map timer_item_json page.rows))
            ∷ (text "total_scanned", count_json page.total)
            ∷ (text "returned", count_json page.returned)
            ∷ (text "truncated", bool page.truncated)
            ∷ (text "generated_at_utc", generated)
            ∷ []))

  unfoldable pub handle_list_timers : Option Json → Option Fields → Json
  unfolding timers_answer
  handle_list_timers id arguments = elim (normalize_timers_query arguments) [
    | err error ↦ app_error_to_json_rpc env.sdk id error
    | ok query ↦ elim (env.units.list_timer_units query.scope) [
      | ok timers ↦ timers_answer id query timers
      | err error ↦ app_error_to_json_rpc env.sdk id error
    ]
  ]

  abbrev item_of : NormalizedTimersQuery → TimerStatus → TimerItem
  item_of query timer =
      build_timer_item env.parse_from_rfc3339 timer env.now query.include_persistent

  -- What a query asks of a timer: its state, its name, and, where only overdue ones are wanted, that.
  abbrev timer_wanted : NormalizedTimersQuery → TimerStatus → Bool
  timer_wanted query timer =
      state_matches query.timer_state timer
      && name_matches query.name_contains timer
      && (if query.overdue_only then (item_of query timer).overdue else true)

  -- A page of all the wanted timers' rows, in the order that the query asks for.
  pub record IsTimersAnswer (query : NormalizedTimersQuery) (timers : List TimerStatus)
      (page : Pagination TimerItem) : Type 0 where
    pub sorted : List TimerItem
    pub matching : Perm sorted (map (item_of query) (filter_by (timer_wanted query) timers))
    pub ordered :
        IsSorted (compare_timers query.sort (eq_ignore_ascii_case query.order (text "desc"))) sorted
    pub cut : IsPageOf page sorted query.limit

  timer_rows_wanted :
      (query : NormalizedTimersQuery) (timers : List TimerStatus)
      → timer_rows query timers ≡ map (item_of query) (filter_by (timer_wanted query) timers)
  unfolding timer_rows
  timer_rows_wanted query [] = ground arith
  timer_rows_wanted query (t ∷ ts) = ground (arith, timer_rows_wanted query ts)

  -- `list_timers` answers with a page of exactly the rows of the timers that match the state, the
  -- name and the overdue filter, each as often as the provider listed it, sorted as asked.
  pub select_timers-IsTimersAnswer :
      (query : NormalizedTimersQuery) (timers : List TimerStatus)
      → IsTimersAnswer query timers (select_timers query timers)
  unfolding select_timers
  select_timers-IsTimersAnswer query timers =
      let rows = sort_timer_items (timer_rows query timers) query.sort query.order in
      let (same, ordered) =
        sort_timer_items-IsSorted (timer_rows query timers) query.sort query.order in
      record {
        sorted = rows;
        matching = subst (λ found. Perm rows found) (timer_rows_wanted query timers) same;
        ordered = ordered;
        cut = paginate_rows-IsPageOf rows query.limit;
      }
