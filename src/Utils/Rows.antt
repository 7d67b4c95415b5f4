-- ===== src/Utils/Rows.antt =====
-- Service rows in order.
use mathlib.Core.List.{Perm}
use systemd_monitoring_mcp.Base.{Bool, true, false, List, if◌then◌else◌, compare_bool}
use systemd_monitoring_mcp.Base.Order.{
  IsOrder, compare_bool-IsOrder, compare_by-IsOrder, descending-IsOrder, lexicographic-IsOrder,
}
use systemd_monitoring_mcp.Base.Sort.{sort_by-perm, sort_by-IsSorted, IsSorted}
use systemd_monitoring_mcp.Text.{text_compare}
use systemd_monitoring_mcp.Text.Order.{text_compare-IsOrder}
use systemd_monitoring_mcp.Units.{UnitStatus}
use systemd_monitoring_mcp.Utils.Selection.{sort_services, failed_then_unit, by_unit, is_failed}

pub by_unit-IsOrder : IsOrder by_unit
by_unit-IsOrder = compare_by-IsOrder (λ (s : UnitStatus). s.unit) text_compare text_compare-IsOrder

pub failed_then_unit-IsOrder : IsOrder failed_then_unit
unfolding failed_then_unit
failed_then_unit-IsOrder =
    lexicographic-IsOrder _ by_unit
      (descending-IsOrder (λ a b. compare_bool (is_failed a) (is_failed b))
        (compare_by-IsOrder is_failed compare_bool compare_bool-IsOrder))
      by_unit-IsOrder

-- Sorting services keeps every row, and puts them in order: by unit, or, in the failed-first mode,
-- the failed ones before all others and each part by unit.
pub sort_services-IsSorted :
    (services : List UnitStatus) (failed_first : Bool)
    → Perm (sort_services services failed_first) services
      × IsSorted
          (if failed_first then failed_then_unit else by_unit)
          (sort_services services failed_first)
unfolding sort_services
sort_services-IsSorted services true = (
  sort_by-perm failed_then_unit services,
  sort_by-IsSorted failed_then_unit failed_then_unit-IsOrder services,
)
sort_services-IsSorted services false =
    (sort_by-perm by_unit services, sort_by-IsSorted by_unit by_unit-IsOrder services)
