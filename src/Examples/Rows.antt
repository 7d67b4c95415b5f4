-- ===== src/Examples/Rows.antt =====
-- Pages, orders and summaries of a few rows.
use mathlib.Core.List.{Perm}
use systemd_monitoring_mcp.Base.{
  ℕ, ◌≡◌, ◌↔◌, true, false, none, some, List, [], ◌∷◌, map, length, not_gt,
}
use systemd_monitoring_mcp.Base.Int.{◌+ℤ◌, ◌<ℤ◌}
use systemd_monitoring_mcp.Base.Sort.{IsSorted}
use systemd_monitoring_mcp.Base.Picked.{Picked, IsFirst}
use systemd_monitoring_mcp.Text.{Text, text, eq_ignore_ascii_case}
use systemd_monitoring_mcp.Units.{system, DateTime, JournalLogEntry}
use systemd_monitoring_mcp.Counts.{Counts, count_of, sum}
use systemd_monitoring_mcp.Counts.Laws.{occurrences, IsTally}
use systemd_monitoring_mcp.Services.{
  NormalizedServicesQuery, select_services, build_service_summary, FailedUnitSummary,
}
use systemd_monitoring_mcp.Services.Page.{IsAnswer, select_services-IsAnswer}
use systemd_monitoring_mcp.Services.Summary.{
  states, ListsFailed, unit_order, build_service_summary_exact,
}
use systemd_monitoring_mcp.Timers.Params.{NormalizedTimersQuery}
use systemd_monitoring_mcp.Timers.Items.{
  TimerItem, grace, parse_rfc3339_utc, timer_overdue_status, build_timer_item, overdue_iff,
}
use systemd_monitoring_mcp.Timers.Order.{sort_timer_items, known_first, unknown_times_last}
use systemd_monitoring_mcp.Timers.Summary.{NextDueSoonTimer, ProblemTimer, build_timer_summary}
use systemd_monitoring_mcp.Timers.Triage.{
  ListsDue, ListsProblem, soonest_first, by_unit_name, build_timer_summary_exact,
}
use systemd_monitoring_mcp.Timers.Handler.{
  IsTimersAnswer, select_timers, select_timers-IsTimersAnswer,
}
use systemd_monitoring_mcp.Logs.Groups.{Key, add_entries}
use systemd_monitoring_mcp.Logs.Grouping.{IsDistinct, counted, occurring, total, groups_exact}
use systemd_monitoring_mcp.Logs.Summary.{build_log_summary, by_count}
use systemd_monitoring_mcp.Logs.Ranking.{
  build_log_summary_exact, IsTop, name_order, ByCount, ErrorOf, PriorityOf,
}
use systemd_monitoring_mcp.Examples.Fixtures.{env, services, timer, entry}

abbrev numbers : List ℕ
numbers = 1 ∷ 2 ∷ 3 ∷ []

abbrev keys : List Text
keys = text "failed" ∷ text "active" ∷ text "failed" ∷ []

abbrev services_query : NormalizedServicesQuery
services_query = record {
  scope = system;
  state_filter = some (text "failed");
  name_contains_filter = none;
  limit = 10;
  summary_enabled = false;
}

select_services-IsAnswer_example :
    IsAnswer services_query services (select_services services_query services)
select_services-IsAnswer_example = select_services-IsAnswer services_query services

build_service_summary_exact_example :
    ((state : Text)
      → count_of state (build_service_summary services).counts_by_active_state
        ≡ occurrences state (states services))
    × (sum (build_service_summary services).counts_by_active_state ≡ length services)
    × ((failed : List FailedUnitSummary) × Picked ListsFailed services failed
        × IsFirst unit_order 10 failed (build_service_summary services).failed_units
        × (((build_service_summary services).degraded_hint ≡ none) ↔ (length failed ≡ 0)))
build_service_summary_exact_example = build_service_summary_exact services

abbrev timers_query : NormalizedTimersQuery
timers_query = record {
  scope = system;
  limit = 10;
  timer_state = none;
  name_contains = none;
  summary_enabled = false;
  include_persistent = false;
  overdue_only = true;
  sort = text "next";
  order = text "desc";
}

select_timers-IsTimersAnswer_example :
    IsTimersAnswer env timers_query (timer ∷ []) (select_timers env timers_query (timer ∷ []))
select_timers-IsTimersAnswer_example = select_timers-IsTimersAnswer env timers_query (timer ∷ [])

overdue_iff_example : ((timer_overdue_status env.parse_from_rfc3339 env.now timer).0 ≡ true) ↔ (
    (eq_ignore_ascii_case timer.active_state (text "active") ≡ true)
    × ((at : DateTime) × (parse_rfc3339_utc env.parse_from_rfc3339 timer.next_run_utc ≡ some at)
        × (at +ℤ grace <ℤ env.now)))
overdue_iff_example = overdue_iff env.parse_from_rfc3339 env.now timer

abbrev rows : List TimerItem
rows = build_timer_item env.parse_from_rfc3339 timer env.now false ∷ []

unknown_times_last_example :
    IsSorted
      (known_first (λ t. t.time_until_next_sec))
      (sort_timer_items rows (text "next") (text "desc"))
    × IsSorted
        (known_first (λ t. t.time_since_last_sec))
        (sort_timer_items rows (text "last") (text "desc"))
unknown_times_last_example = unknown_times_last rows (text "desc")

build_timer_summary_exact_example :
    ((state : Text)
      → count_of state (build_timer_summary rows).counts_by_active_state
        ≡ occurrences state (map (λ (t : TimerItem). t.active_state) rows))
    × ((overdue : List TimerItem) × Picked (λ t u. (t.overdue ≡ true) × (t ≡ u)) rows overdue
        × ((build_timer_summary rows).overdue_count ≡ length overdue))
    × ((due : List NextDueSoonTimer) × Picked ListsDue rows due
        × IsFirst soonest_first 5 due (build_timer_summary rows).next_due_soon)
    × ((problems : List ProblemTimer) × Picked ListsProblem rows problems
        × Perm (build_timer_summary rows).failed_or_problem_timers problems
        × IsSorted by_unit_name (build_timer_summary rows).failed_or_problem_timers)
build_timer_summary_exact_example = build_timer_summary_exact rows

abbrev entries : List JournalLogEntry
entries = entry ∷ entry ∷ []

groups_exact_example :
    IsDistinct (add_entries (text "unit" ∷ []) [] entries)
    × ((k : Key) → counted k (add_entries (text "unit" ∷ []) [] entries) ≡ occurring k entries)
    × (total (add_entries (text "unit" ∷ []) [] entries) ≡ length entries)
groups_exact_example = groups_exact (text "unit" ∷ []) entries

build_log_summary_exact_example :
    ((l r : Text × ℕ) → not_gt (by_count l r) ≡ true → ByCount l r)
    × ((messages : List Text) × Picked (λ e m. e.message ≡ some m) entries messages
        × IsTop messages (build_log_summary entries).top_messages)
    × ((errors : List Text) × Picked ErrorOf entries errors
        × ((counts : Counts) × IsTally errors counts
            × Perm (build_log_summary entries).error_hotspots counts
            × IsSorted by_count (build_log_summary entries).error_hotspots))
    × ((priorities : List Text) × Picked PriorityOf entries priorities
        × ((counts : Counts) × IsTally priorities counts
            × Perm (build_log_summary entries).counts_by_priority counts
            × IsSorted name_order (build_log_summary entries).counts_by_priority))
    × ((units : List Text) × Picked (λ e u. e.unit ≡ some u) entries units
        × ((shown : Counts) × IsTop units shown
            × Perm (build_log_summary entries).counts_by_unit shown
            × IsSorted name_order (build_log_summary entries).counts_by_unit))
build_log_summary_exact_example = build_log_summary_exact entries
