-- ===== src/Services/Page.antt =====
-- The rows of `list_services`: which, in what order, and how many.
use mathlib.Core.List.{Perm}
use systemd_monitoring_mcp.Base.{
  ◌≡◌, refl, sym, ◌∙◌, ap, subst, Bool, true, ◌&&◌, Option, none, some, List, filter_by,
  if◌then◌else◌, filter_by-filter_by, filter_by_all,
}
use systemd_monitoring_mcp.Base.Sort.{IsSorted}
use systemd_monitoring_mcp.Text.{Text, eq_ignore_ascii_case, contains}
use systemd_monitoring_mcp.Units.{UnitStatus}
use systemd_monitoring_mcp.Utils.Selection.{
  filter_services_by_state, filter_services_by_name_contains, sort_services, failed_then_unit,
  by_unit,
}
use systemd_monitoring_mcp.Utils.Rows.{sort_services-IsSorted}
use systemd_monitoring_mcp.Responses.{Pagination}
use systemd_monitoring_mcp.Responses.Pages.{IsPageOf, paginate_rows-IsPageOf}
use systemd_monitoring_mcp.Services.{NormalizedServicesQuery, select_services, asks_failed}

abbrev state_matches : Option Text → UnitStatus → Bool
state_matches none service = true
state_matches (some state) service = eq_ignore_ascii_case service.active_state state

abbrev name_matches : Option Text → UnitStatus → Bool
name_matches none service = true
name_matches (some part) service = contains service.unit part

-- What a query asks of a row.
abbrev pub service_matches : NormalizedServicesQuery → UnitStatus → Bool
service_matches query service =
    state_matches query.state_filter service && name_matches query.name_contains_filter service

-- The page is cut from all the matching rows, in the order that the query asks for.
pub record IsAnswer (query : NormalizedServicesQuery) (services : List UnitStatus)
    (page : Pagination UnitStatus) : Type 0 where
  pub sorted : List UnitStatus
  pub matching : Perm sorted (filter_by (service_matches query) services)
  pub ordered :
      IsSorted (if asks_failed query.state_filter then failed_then_unit else by_unit) sorted
  pub cut : IsPageOf page sorted query.limit

filter_state :
    (state : Option Text) (services : List UnitStatus)
    → filter_services_by_state services state ≡ filter_by (state_matches state) services
unfolding filter_services_by_state
filter_state none services = sym (filter_by_all services)
filter_state (some s) services = refl

filter_name :
    (part : Option Text) (services : List UnitStatus)
    → filter_services_by_name_contains services part ≡ filter_by (name_matches part) services
unfolding filter_services_by_name_contains
filter_name none services = sym (filter_by_all services)
filter_name (some s) services = refl

filters_matching :
    (query : NormalizedServicesQuery) (services : List UnitStatus)
    → filter_services_by_name_contains
        (filter_services_by_state services query.state_filter)
        query.name_contains_filter
      ≡ filter_by (service_matches query) services
filters_matching query services =
    filter_name query.name_contains_filter _
    ∙ ap (filter_by (name_matches query.name_contains_filter))
        (filter_state query.state_filter services)
    ∙ filter_by-filter_by (state_matches query.state_filter)
        (name_matches query.name_contains_filter) services

-- `list_services` answers with a page of exactly the rows that match both filters, each as often
-- as the provider listed it, sorted by unit, or failed rows first where those are asked for.
pub select_services-IsAnswer :
    (query : NormalizedServicesQuery) (services : List UnitStatus)
    → IsAnswer query services (select_services query services)
unfolding select_services
select_services-IsAnswer query services =
    let matching =
      filter_services_by_name_contains (filter_services_by_state services query.state_filter)
        query.name_contains_filter in
    let (same, ordered) = sort_services-IsSorted matching (asks_failed query.state_filter) in
    let rows = sort_services matching (asks_failed query.state_filter) in
    record {
      sorted = rows;
      matching = subst (λ found. Perm rows found) (filters_matching query services) same;
      ordered = ordered;
      cut = paginate_rows-IsPageOf rows query.limit;
    }
