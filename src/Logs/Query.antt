-- ===== src/Logs/Query.antt =====
-- Validation of the parameters of `list_logs`.
use systemd_monitoring_mcp.Base.{
  ℕ, ◌*◌, ◌==◌, Bool, true, false, not, ◌&&◌, ◌||◌, Option, none, some, List, [], ◌∷◌, ltb,
  if◌then◌else◌, unwrap_or, option_map, keep_if, Result, ok, err, ◌>>=◌, map_err,
}
use systemd_monitoring_mcp.Base.Int.{ℤ, pos, ◌-ℤ◌, ltb_ℤ}
use systemd_monitoring_mcp.Text.{Text, text, text_eq, is_empty, trim, one_of}
use systemd_monitoring_mcp.Json.{Fields, end, string, json_object}
use systemd_monitoring_mcp.Errors.{AppError, bad_request, bad_request_with_details}
use systemd_monitoring_mcp.Units.{LogOrder, asc, desc, LogQuery, DateTime}
use systemd_monitoring_mcp.Utils.{
  parse_utc, normalize_scope, normalize_priority, normalize_unit, choice, invalid_limit,
  invalid_order, default_log_limit, max_log_limit,
}
use systemd_monitoring_mcp.Env.{Env, LogsQueryParams}

abbrev pub all_fields : List Text
all_fields =
    text "timestamp_utc"
    ∷ text "unit"
    ∷ text "priority"
    ∷ text "hostname"
    ∷ text "pid"
    ∷ text "message"
    ∷ text "cursor"
    ∷ []

-- The loop over the fields, with those seen so far
unfoldable pub fields_supported : List Text → List Text → Bool
unfolding one_of
fields_supported seen [] = true
fields_supported seen (field ∷ rest) =
    one_of field all_fields && not (one_of field seen) && fields_supported (field ∷ seen) rest

no_fields : List Text → Bool
no_fields [] = true
no_fields (f ∷ fs) = false

unfoldable pub normalize_fields : Option (List Text) → Result (List Text) AppError
unfolding fields_supported no_fields
normalize_fields fields =
    let fields = unwrap_or fields all_fields in
    if no_fields fields
    then err (bad_request "invalid_fields" "fields must not be empty")
    else if fields_supported [] fields
    then ok fields
    else err (bad_request "invalid_fields" "fields must be unique supported log fields")

unfoldable pub normalize_group_by : Option Text → Result Bool AppError
unfolding text_eq
normalize_group_by none = ok false
normalize_group_by (some s) =
    if text_eq s (text "message")
    then ok true
    else err (bad_request "invalid_group_by" "group_by must be message")

-- `Duration::days(7)`
abbrev pub seven_days : ℤ
seven_days = pos (7 * 86400 * 1000000000)

unfoldable pub log_limit : Option ℕ → Result ℕ AppError
log_limit limit =
    let limit = unwrap_or limit default_log_limit in
    if limit == 0 || ltb max_log_limit limit then err invalid_limit else ok limit

order_of : Option Text → Result LogOrder AppError
unfolding text_eq
order_of none = ok desc
order_of (some s) =
    if text_eq s (text "desc")
    then ok desc
    else if text_eq s (text "asc")
    then ok asc
    else err invalid_order

unfoldable pub log_order : Option Text → Result LogOrder AppError
unfolding order_of choice
log_order order = order_of (choice order)

abbrev pub with_unit : Option Text → List Text → List Text
with_unit none units = units
with_unit (some unit) units = unit ∷ units

-- `.map(normalize_unit).collect::<Result<Vec<_>, _>>()?.into_iter().flatten()`
unfoldable pub normalize_units : List Text → Result (List Text) AppError
normalize_units [] = ok []
normalize_units (u ∷ us) = do
  unit ← normalize_unit (some u)
  units ← normalize_units us
  ok (with_unit unit units)

unfoldable pub log_grep : Option Text → Option Text
unfolding trim
log_grep grep = keep_if (λ s. not (is_empty s)) (option_map trim grep)

module _ (env : Env) where
  unfoldable pub check_range :
      Option DateTime → Option DateTime → Option Bool → Result (Unit {0}) AppError
  check_range (some start) (some finish) allow_large_window =
      if not (ltb_ℤ start finish)
      then err (bad_request "invalid_time_range" "start_utc must be strictly less than end_utc")
      else if not (unwrap_or allow_large_window false) && ltb_ℤ seven_days (finish -ℤ start)
      then err (
          bad_request_with_details "time_range_too_large"
            "time window must not exceed 7 days unless allow_large_window is true"
            (json_object (
              (text "maximum_start_utc", string (env.to_rfc3339_millis (finish -ℤ seven_days)))
              ∷ [])))
      else ok tt
  check_range _ _ allow_large_window =
      err (bad_request "missing_time_range" "start_utc and end_utc are required")

  unfoldable pub log_window : LogsQueryParams → Result (Option DateTime × Option DateTime) AppError
  log_window params = do
    start_utc ← parse_utc env.parse_from_rfc3339 params.start_utc
    end_utc ← parse_utc env.parse_from_rfc3339 params.end_utc
    _ ← check_range start_utc end_utc params.allow_large_window
    ok (start_utc, end_utc)

  unfoldable pub build_log_query : LogsQueryParams → Result LogQuery AppError
  build_log_query params = do
    window ← log_window params
    limit ← log_limit params.limit
    order ← log_order params.order
    exclude_units ← normalize_units (unwrap_or params.exclude_units [])
    scope ← normalize_scope params.scope
    priority ← normalize_priority params.priority
    unit ← normalize_unit params.unit
    ok (record {
      scope = scope;
      priority = priority;
      unit = unit;
      exclude_units = exclude_units;
      grep = log_grep params.grep;
      order = order;
      start_utc = window.0;
      end_utc = window.1;
      limit = limit;
      cursor = keep_if (λ s. not (is_empty (trim s))) params.cursor;
    })

pub record NormalizedLogsQuery : Type 0 where
  pub query : LogQuery
  pub summary_enabled : Bool
  pub fields : List Text
  pub group_by_message : Bool

pub data NormalizeLogsError : Type 0 where
  invalid_params : NormalizeLogsError
  domain : AppError → NormalizeLogsError

module _ (env : Env) where
  unfoldable pub normalize_logs_query :
      Option Fields → Result NormalizedLogsQuery NormalizeLogsError
  normalize_logs_query arguments = elim (env.decode.logs_params (unwrap_or arguments end)) [
    | none ↦ err invalid_params
    | some params ↦ do
      fields ← map_err domain (normalize_fields params.fields)
      group_by_message ← map_err domain (normalize_group_by params.group_by)
      query ← map_err domain (build_log_query env params)
      ok (record {
        query = query;
        summary_enabled = unwrap_or params.summary false;
        fields = fields;
        group_by_message = group_by_message;
      })
  ]
