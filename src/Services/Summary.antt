-- ===== src/Services/Summary.antt =====
-- The triage summary of `list_services`.
use systemd_monitoring_mcp.Base.{
  ℕ, suc, ◌≡◌, refl, sym, ◌↔◌, ◌∙◌, true, none, List, [], ◌∷◌, map, arith, Ordering, filter_by,
  length, take, length-map,
}
use systemd_monitoring_mcp.Base.Order.{compare_by-IsOrder}
use systemd_monitoring_mcp.Base.Sort.{length-sort_by}
use systemd_monitoring_mcp.Base.Picked.{Picked, filter_by-Picked, IsFirst, take-sort_by}
use systemd_monitoring_mcp.Text.{Text, text, text_compare, eq_ignore_ascii_case}
use systemd_monitoring_mcp.Text.Order.{text_compare-IsOrder}
use systemd_monitoring_mcp.Counts.{count_of, sum}
use systemd_monitoring_mcp.Counts.Laws.{occurrences, tally_exact}
use systemd_monitoring_mcp.Units.{UnitStatus}
use systemd_monitoring_mcp.Utils.Selection.{is_failed}
use systemd_monitoring_mcp.Services.{
  FailedUnitSummary, failed_summary, failed_summaries, by_failed_unit, build_service_summary,
  degraded_hint_for,
}

abbrev pub states : List UnitStatus → List Text
states services = map (λ service. service.active_state) services

-- A failed service, and how it is listed
abbrev pub ListsFailed : UnitStatus → FailedUnitSummary → Type 0
ListsFailed s f =
    (eq_ignore_ascii_case s.active_state (text "failed") ≡ true)
    × (f.unit ≡ s.unit)
    × (f.sub_state ≡ s.sub_state)
    × (f.result ≡ s.result)
    × (f.since_utc ≡ s.since_utc)

abbrev pub unit_order : FailedUnitSummary → FailedUnitSummary → Ordering
unit_order left right = text_compare left.unit right.unit

reads_failed :
    (s : UnitStatus) (f : FailedUnitSummary)
    → ListsFailed s f
    → (is_failed s ≡ true) × (failed_summary s ≡ f)
reads_failed s f (e, a, b, c, d) =
    (e, λ i. record { unit = sym a i; sub_state = sym b i; result = sym c i; since_utc = sym d i })

hint_iff :
    (failed : List FailedUnitSummary) (n : ℕ)
    → (degraded_hint_for (take (suc n) failed) ≡ none) ↔ (length failed ≡ 0)
unfolding degraded_hint_for
hint_iff [] n = (λ _. refl, λ _. refl)
hint_iff (f ∷ fs) n = (λ e. cc, λ e. absurd (omega (arith, e)))

-- The summary counts every row under its state and nothing else. The failed services are those in the
-- failed state, each with its unit, substate, result and time; the summary lists the first ten of them
-- in the order of their units; and it gives a hint exactly when there is one.
pub build_service_summary_exact :
    (services : List UnitStatus)
    → ((state : Text)
        → count_of state (build_service_summary services).counts_by_active_state
          ≡ occurrences state (states services))
      × (sum (build_service_summary services).counts_by_active_state ≡ length services)
      × ((failed : List FailedUnitSummary) × Picked ListsFailed services failed
          × IsFirst unit_order 10 failed (build_service_summary services).failed_units
          × (((build_service_summary services).degraded_hint ≡ none) ↔ (length failed ≡ 0)))
unfolding build_service_summary failed_summaries
build_service_summary_exact services =
    let (counts, total, _) = tally_exact (states services) in
    let failed = map failed_summary (filter_by is_failed services) in
    let rows =
      filter_by-Picked is_failed failed_summary ListsFailed (λ s e. (e, refl, refl, refl, refl))
        reads_failed services in
    let order =
      compare_by-IsOrder (λ (f : FailedUnitSummary). f.unit) text_compare text_compare-IsOrder in
    let (to, from) = hint_iff (failed_summaries services) 9 in
    let size : length (failed_summaries services) ≡ length failed =
      length-sort_by by_failed_unit failed in
    (
      counts,
      total ∙ length-map (λ (s : UnitStatus). s.active_state) services,
      (
        failed,
        rows,
        take-sort_by unit_order 10 failed order,
        (λ e. sym size ∙ to e, λ e. from (size ∙ e)),
      ),
    )
