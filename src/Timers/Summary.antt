-- ===== src/Timers/Summary.antt =====
-- The triage summary of `list_timers`.
use systemd_monitoring_mcp.Base.{
  ℕ, Ordering, Bool, false, not, ◌||◌, Option, none, some, List, [], ◌∷◌, map, if◌then◌else◌,
  length, take, filter_by, option_map, unwrap_or, then_with, and_then,
}
use systemd_monitoring_mcp.Base.Int.{ℤ, pos, ltb_ℤ, compare_ℤ}
use systemd_monitoring_mcp.Base.Sort.{sort_by}
use systemd_monitoring_mcp.Text.{Text, text, text_compare, eq_ignore_ascii_case}
use systemd_monitoring_mcp.Counts.{Counts, tally}
use systemd_monitoring_mcp.Timers.Items.{TimerItem}

pub record NextDueSoonTimer : Type 0 where
  pub unit : Text
  pub next_run_utc : Text
  pub time_until_next_sec : ℤ
  pub active_state : Text
  pub trigger_unit : Option Text

pub record ProblemTimer : Type 0 where
  pub unit : Text
  pub active_state : Text
  pub sub_state : Text
  pub result : Option Text
  pub overdue : Bool
  pub overdue_reason : Option Text

pub record TimerSummary : Type 0 where
  pub counts_by_active_state : Counts
  pub overdue_count : ℕ
  pub next_due_soon : List NextDueSoonTimer
  pub failed_or_problem_timers : List ProblemTimer

-- The closure of `filter_map`: no row without a next run, and none in the past.
unfoldable pub due_soon : TimerItem → Option NextDueSoonTimer
due_soon timer = and_then timer.next_run_utc λ next_run_utc.
    and_then timer.time_until_next_sec λ time_until_next_sec.
      if ltb_ℤ time_until_next_sec (pos 0)
      then none
      else some (record {
        unit = timer.unit;
        next_run_utc = next_run_utc;
        time_until_next_sec = time_until_next_sec;
        active_state = timer.active_state;
        trigger_unit = timer.trigger_unit;
      })

unfoldable pub due_list : List TimerItem → List NextDueSoonTimer
due_list [] = []
due_list (t ∷ ts) = elim (due_soon t) [ none ↦ due_list ts | some d ↦ d ∷ due_list ts ]

abbrev pub by_due : NextDueSoonTimer → NextDueSoonTimer → Ordering
by_due left right =
    then_with (compare_ℤ left.time_until_next_sec right.time_until_next_sec)
      (text_compare left.unit right.unit)

-- The test of the problem rows
unfoldable pub is_problem : TimerItem → Bool
is_problem timer =
    timer.overdue
    || eq_ignore_ascii_case timer.active_state (text "failed")
    || eq_ignore_ascii_case timer.sub_state (text "failed")
    || unwrap_or
        (option_map (λ result. not (eq_ignore_ascii_case result (text "success"))) timer.result)
        false

abbrev pub problem_of : TimerItem → ProblemTimer
problem_of timer = record {
  unit = timer.unit;
  active_state = timer.active_state;
  sub_state = timer.sub_state;
  result = timer.result;
  overdue = timer.overdue;
  overdue_reason = timer.overdue_reason;
}

abbrev pub by_problem_unit : ProblemTimer → ProblemTimer → Ordering
by_problem_unit left right = text_compare left.unit right.unit

unfoldable pub build_timer_summary : List TimerItem → TimerSummary
unfolding due_list sort_by
build_timer_summary rows = record {
  counts_by_active_state = tally (map (λ timer. timer.active_state) rows);
  overdue_count = length (filter_by (λ timer. timer.overdue) rows);
  next_due_soon = take 5 (sort_by by_due (due_list rows));
  failed_or_problem_timers = sort_by by_problem_unit (map problem_of (filter_by is_problem rows));
}
