-- ===== src/Timers/Params.antt =====
-- The arguments of `list_timers`: strict types first, then the normal forms.
use systemd_monitoring_mcp.Base.{
  ℕ, ◌^◌, Bool, false, Option, none, some, ltb, if◌then◌else◌, unwrap_or, option_map, Result, ok,
  err, ◌>>=◌, ok_or,
}
use systemd_monitoring_mcp.Text.{Text, text, to_ascii_lowercase}
use systemd_monitoring_mcp.Json.{Json, Fields, end, as_bool, as_str, as_u64, get}
use systemd_monitoring_mcp.Errors.{AppError, bad_request}
use systemd_monitoring_mcp.Units.{UnitScope}
use systemd_monitoring_mcp.Utils.{
  normalize_scope, normalize_timers_limit, normalize_timer_state, normalize_name_contains,
  normalize_timers_sort, normalize_timers_order,
}

pub record TimersQueryParams : Type 0 where
  pub scope : Option Text
  pub limit : Option ℕ
  pub name_contains : Option Text
  pub state : Option Text
  pub summary : Option Bool
  pub include_persistent : Option Bool
  pub overdue_only : Option Bool
  pub sort : Option Text
  pub order : Option Text

pub record NormalizedTimersQuery : Type 0 where
  pub scope : UnitScope
  pub limit : ℕ
  pub timer_state : Option Text
  pub name_contains : Option Text
  pub summary_enabled : Bool
  pub include_persistent : Bool
  pub overdue_only : Bool
  pub sort : Text
  pub order : Text

abbrev pub boolean_expected : AppError
boolean_expected = bad_request "invalid_params" "boolean parameter expected"

abbrev pub string_expected : AppError
string_expected = bad_request "invalid_params" "string parameter expected"

abbrev pub integer_expected : AppError
integer_expected = bad_request "invalid_params" "integer parameter expected"

abbrev pub integer_out_of_range : AppError
integer_out_of_range = bad_request "invalid_params" "integer parameter out of range"

bool_value : Option Json → Result (Option Bool) AppError
bool_value none = ok none
bool_value (some value) = ok_or (option_map some (as_bool value)) boolean_expected

unfoldable pub parse_optional_bool_argument : Fields → Text → Result (Option Bool) AppError
unfolding bool_value
parse_optional_bool_argument arguments key = bool_value (get arguments key)

string_value : Option Json → Result (Option Text) AppError
string_value none = ok none
string_value (some value) = ok_or (option_map some (as_str value)) string_expected

unfoldable pub parse_optional_string_argument : Fields → Text → Result (Option Text) AppError
unfolding string_value
parse_optional_string_argument arguments key = string_value (get arguments key)

-- `u32::try_from`
u32_of : Option ℕ → Result (Option ℕ) AppError
u32_of none = err integer_expected
u32_of (some raw) = if ltb raw (2 ^ 32) then ok (some raw) else err integer_out_of_range

u32_value : Option Json → Result (Option ℕ) AppError
unfolding u32_of
u32_value none = ok none
u32_value (some value) = u32_of (as_u64 value)

unfoldable pub parse_optional_u32_argument : Fields → Text → Result (Option ℕ) AppError
unfolding u32_value
parse_optional_u32_argument arguments key = u32_value (get arguments key)

unfoldable pub parse_timers_query_params : Option Fields → Result TimersQueryParams AppError
parse_timers_query_params arguments = do
  let args = unwrap_or arguments end
  scope ← parse_optional_string_argument args (text "scope")
  limit ← parse_optional_u32_argument args (text "limit")
  name_contains ← parse_optional_string_argument args (text "name_contains")
  state ← parse_optional_string_argument args (text "state")
  summary ← parse_optional_bool_argument args (text "summary")
  include_persistent ← parse_optional_bool_argument args (text "include_persistent")
  overdue_only ← parse_optional_bool_argument args (text "overdue_only")
  sort ← parse_optional_string_argument args (text "sort")
  order ← parse_optional_string_argument args (text "order")
  ok (record {
    scope = scope;
    limit = limit;
    name_contains = name_contains;
    state = state;
    summary = summary;
    include_persistent = include_persistent;
    overdue_only = overdue_only;
    sort = sort;
    order = order;
  })

-- `normalize_timers_query`, once the parameters are parsed
pub normalize_params : TimersQueryParams → Result NormalizedTimersQuery AppError
normalize_params params = do
  scope ← normalize_scope params.scope
  limit ← normalize_timers_limit params.limit
  timer_state ← normalize_timer_state params.state
  sort ← normalize_timers_sort params.sort
  order ← normalize_timers_order params.order
  ok (record {
    scope = scope;
    limit = limit;
    timer_state = timer_state;
    name_contains = option_map to_ascii_lowercase (normalize_name_contains params.name_contains);
    summary_enabled = unwrap_or params.summary false;
    include_persistent = unwrap_or params.include_persistent false;
    overdue_only = unwrap_or params.overdue_only false;
    sort = sort;
    order = order;
  })

unfoldable pub normalize_timers_query : Option Fields → Result NormalizedTimersQuery AppError
unfolding normalize_params
normalize_timers_query arguments = do
  params ← parse_timers_query_params arguments
  normalize_params params
