-- ===== src/Utils/Selection.antt =====
-- domain/utils.rs: which service rows are kept, and in what order.
use systemd_monitoring_mcp.Base.{
  Ordering, Bool, Option, none, some, List, filter_by, if◌then◌else◌, lexicographic, compare_bool,
}
use systemd_monitoring_mcp.Base.Sort.{sort_by}
use systemd_monitoring_mcp.Text.{Text, text, text_compare, contains, eq_ignore_ascii_case}
use systemd_monitoring_mcp.Units.{UnitStatus}

unfoldable pub filter_services_by_state : List UnitStatus → Option Text → List UnitStatus
filter_services_by_state services none = services
filter_services_by_state services (some state) =
    filter_by (λ service. eq_ignore_ascii_case service.active_state state) services

unfoldable pub filter_services_by_name_contains : List UnitStatus → Option Text → List UnitStatus
filter_services_by_name_contains services none = services
filter_services_by_name_contains services (some name_contains) =
    filter_by (λ service. contains service.unit name_contains) services

abbrev pub is_failed : UnitStatus → Bool
is_failed service = eq_ignore_ascii_case service.active_state (text "failed")

abbrev pub by_unit : UnitStatus → UnitStatus → Ordering
by_unit left right = text_compare left.unit right.unit

-- The comparison of the failed-first mode: `right_failed.cmp(&left_failed)`, then the unit.
unfoldable pub failed_then_unit : UnitStatus → UnitStatus → Ordering
failed_then_unit =
    lexicographic (λ left right. compare_bool (is_failed right) (is_failed left)) by_unit

unfoldable pub sort_services : List UnitStatus → Bool → List UnitStatus
unfolding sort_by failed_then_unit
sort_services services failed_first =
    if failed_first then sort_by failed_then_unit services else sort_by by_unit services
