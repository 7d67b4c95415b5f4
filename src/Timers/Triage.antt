-- ===== src/Timers/Triage.antt =====
-- The triage summary of `list_timers`: which timers it shows, and in what order.
use mathlib.Core.List.{Perm}
use systemd_monitoring_mcp.Base.{
  ◌≡◌, refl, ap, sym, subst, Ordering, true, false, ◌⊎◌, some, List, [], ◌∷◌, map, arith, inl, inr,
  Option-cases, Bool-cases, length, filter_by, filter_map, length-map, then_with,
}
use systemd_monitoring_mcp.Base.Int.{pos, ltb_ℤ, compare_ℤ}
use systemd_monitoring_mcp.Base.Order.{
  IsOrder, compare_ℤ-IsOrder, compare_by-IsOrder, lexicographic-IsOrder,
}
use systemd_monitoring_mcp.Base.Sort.{IsSorted, sort_by-IsSorted, sort_by-perm}
use systemd_monitoring_mcp.Base.Picked.{
  Picked, filter_map-Picked, filter_by-Picked, IsFirst, take-sort_by,
}
use systemd_monitoring_mcp.Text.{Text, text, text_compare, eq_ignore_ascii_case}
use systemd_monitoring_mcp.Text.Order.{text_compare-IsOrder}
use systemd_monitoring_mcp.Counts.{count_of}
use systemd_monitoring_mcp.Counts.Laws.{occurrences, tally_exact}
use systemd_monitoring_mcp.Timers.Items.{TimerItem}
use systemd_monitoring_mcp.Timers.Summary.{
  NextDueSoonTimer, ProblemTimer, due_soon, due_list, by_due, is_problem, problem_of,
  by_problem_unit, build_timer_summary,
}

-- A timer with a known next run that is not past, and how it is listed
abbrev pub ListsDue : TimerItem → NextDueSoonTimer → Type 0
ListsDue t d =
    (t.next_run_utc ≡ some d.next_run_utc)
    × (t.time_until_next_sec ≡ some d.time_until_next_sec)
    × (ltb_ℤ d.time_until_next_sec (pos 0) ≡ false)
    × (t.unit ≡ d.unit)
    × (t.active_state ≡ d.active_state)
    × (t.trigger_unit ≡ d.trigger_unit)

-- A timer that is overdue, has failed, or whose last result is not a success
abbrev pub IsProblem : TimerItem → Type 0
IsProblem t =
    (t.overdue ≡ true)
    ⊎ ((eq_ignore_ascii_case t.active_state (text "failed") ≡ true)
        ⊎ ((eq_ignore_ascii_case t.sub_state (text "failed") ≡ true)
            ⊎ ((r : Text) × (t.result ≡ some r)
                × (eq_ignore_ascii_case r (text "success") ≡ false))))

-- A problem timer, and how it is listed
abbrev pub ListsProblem : TimerItem → ProblemTimer → Type 0
ListsProblem t p =
    IsProblem t
    × (t.unit ≡ p.unit)
    × (t.active_state ≡ p.active_state)
    × (t.sub_state ≡ p.sub_state)
    × (t.result ≡ p.result)
    × (t.overdue ≡ p.overdue)
    × (t.overdue_reason ≡ p.overdue_reason)

-- The soonest first, then by unit
abbrev pub soonest_first : NextDueSoonTimer → NextDueSoonTimer → Ordering
soonest_first left right =
    then_with (compare_ℤ left.time_until_next_sec right.time_until_next_sec)
      (text_compare left.unit right.unit)

abbrev pub by_unit_name : ProblemTimer → ProblemTimer → Ordering
by_unit_name left right = text_compare left.unit right.unit

due_of : (t : TimerItem) (d : NextDueSoonTimer) → due_soon t ≡ some d → ListsDue t d
unfolding due_soon
due_of t d h = elim (Option-cases t.next_run_utc) [
  | inl a ↦ absurd (cc (rw (a) at h))
  | inr (next, a) ↦ elim (Option-cases t.time_until_next_sec) [
    | inl b ↦ absurd (cc (rw (a, b) at h))
    | inr (time, b) ↦ elim (Bool-cases (ltb_ℤ time (pos 0))) [
      | inl c ↦ absurd (cc (rw (a, b, c) at h))
      | inr c ↦
          let made : NextDueSoonTimer = record {
            unit = t.unit;
            next_run_utc = next;
            time_until_next_sec = time;
            active_state = t.active_state;
            trigger_unit = t.trigger_unit;
          } in
          let same : made ≡ d = cc (rw (a, b, c) at h) in
          subst (ListsDue t) same (a, b, c, refl, refl, refl)
    ]
  ]
]

of_due : (t : TimerItem) (d : NextDueSoonTimer) → ListsDue t d → due_soon t ≡ some d
unfolding due_soon
of_due t d (a, b, c, u, v, w) =
    rw (due_soon, a, b, c)
      (ap some (λ i. record {
        unit = u i;
        next_run_utc = d.next_run_utc;
        time_until_next_sec = d.time_until_next_sec;
        active_state = v i;
        trigger_unit = w i;
      }))

due_list-filter_map : (rows : List TimerItem) → due_list rows ≡ filter_map due_soon rows
unfolding due_list
due_list-filter_map [] = refl
due_list-filter_map (t ∷ ts) = elim (Option-cases (due_soon t)) [
  | inl e ↦ rw (due_list, filter_map, e) (due_list-filter_map ts)
  | inr (d, e) ↦ rw (due_list, filter_map, e) (ap (◌∷◌ d) (due_list-filter_map ts))
]

is_problem-IsProblem : (t : TimerItem) → is_problem t ≡ true → IsProblem t
unfolding is_problem
is_problem-IsProblem t h = elim (Option-cases t.result) [
  | inl e ↦ ground (arith, e)
  | inr (r, e) ↦ elim (Bool-cases (eq_ignore_ascii_case r (text "success"))) [
    | inl f ↦ ground (arith, e, f)
    | inr f ↦ inr (inr (inr (r, e, f)))
  ]
]

IsProblem-is_problem : (t : TimerItem) → IsProblem t → is_problem t ≡ true
unfolding is_problem
IsProblem-is_problem t h = ground (arith, h)

by_due-IsOrder : IsOrder by_due
by_due-IsOrder =
    lexicographic-IsOrder
      (λ (a b : NextDueSoonTimer). compare_ℤ a.time_until_next_sec b.time_until_next_sec)
      (λ (a b : NextDueSoonTimer). text_compare a.unit b.unit)
      (compare_by-IsOrder (λ (d : NextDueSoonTimer). d.time_until_next_sec) compare_ℤ
        compare_ℤ-IsOrder)
      (compare_by-IsOrder (λ (d : NextDueSoonTimer). d.unit) text_compare text_compare-IsOrder)

reads_problem :
    (t : TimerItem) (p : ProblemTimer)
    → ListsProblem t p
    → (is_problem t ≡ true) × (problem_of t ≡ p)
reads_problem t p (e, a, b, c, d, f, g) = (
  IsProblem-is_problem t e,
  λ i. record {
    unit = a i;
    active_state = b i;
    sub_state = c i;
    result = d i;
    overdue = f i;
    overdue_reason = g i;
  },
)

-- The summary counts every row under its state, and the overdue rows. The timers that are due soon are
-- the first five, the soonest first and then by unit, of those with a next run that is not past. The
-- problem rows are all rows that are overdue, failed or not successful, by unit. Both lists show each
-- row's own fields.
pub build_timer_summary_exact :
    (rows : List TimerItem)
    → ((state : Text)
        → count_of state (build_timer_summary rows).counts_by_active_state
          ≡ occurrences state (map (λ (t : TimerItem). t.active_state) rows))
      × ((overdue : List TimerItem) × Picked (λ t u. (t.overdue ≡ true) × (t ≡ u)) rows overdue
          × ((build_timer_summary rows).overdue_count ≡ length overdue))
      × ((due : List NextDueSoonTimer) × Picked ListsDue rows due
          × IsFirst soonest_first 5 due (build_timer_summary rows).next_due_soon)
      × ((problems : List ProblemTimer) × Picked ListsProblem rows problems
          × Perm (build_timer_summary rows).failed_or_problem_timers problems
          × IsSorted by_unit_name (build_timer_summary rows).failed_or_problem_timers)
unfolding build_timer_summary
build_timer_summary_exact rows =
    let problems = map problem_of (filter_by is_problem rows) in
    let by_state =
      compare_by-IsOrder (λ (p : ProblemTimer). p.unit) text_compare text_compare-IsOrder in
    (
      (tally_exact (map (λ (t : TimerItem). t.active_state) rows)).0,
      (
        map (λ t. t) (filter_by (λ (t : TimerItem). t.overdue) rows),
        filter_by-Picked (λ (t : TimerItem). t.overdue) (λ t. t)
            (λ t u. (t.overdue ≡ true) × (t ≡ u)) (λ t e. (e, refl)) (λ t u r. r) rows,
        sym (length-map (λ (t : TimerItem). t) (filter_by (λ (t : TimerItem). t.overdue) rows)),
      ),
      (
        due_list rows,
        subst (Picked ListsDue rows) (sym (due_list-filter_map rows))
            (filter_map-Picked due_soon ListsDue (λ t d. (due_of t d, of_due t d)) rows),
        take-sort_by soonest_first 5 (due_list rows) by_due-IsOrder,
      ),
      (
        problems,
        filter_by-Picked is_problem problem_of ListsProblem
            (λ t e. (is_problem-IsProblem t e, refl, refl, refl, refl, refl, refl)) reads_problem
            rows,
        sort_by-perm by_problem_unit problems,
        sort_by-IsSorted by_problem_unit by_state problems,
      ),
    )
