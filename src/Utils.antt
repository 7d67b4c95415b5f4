-- ===== src/Utils.antt =====
-- domain/utils.rs: validation of request parameters, and the filters and sorts of service rows.
pub mod Limits
pub mod UnitNames
pub mod Choices
pub mod Rows
pub mod Selection
use systemd_monitoring_mcp.Base.{
  ℕ, zero, Ordering, Bool, true, false, not, ◌&&◌, ◌||◌, ◌==◌, Option, none, some, List, [], ◌∷◌,
  ltb, if◌then◌else◌, unwrap_or, option_map, keep_if, filter_by, all_by, Result, ok, err, ◌>>=◌,
  ok_or, compare_bool, compare_by, lexicographic, descending,
}
use systemd_monitoring_mcp.Base.Sort.{sort_by}
use systemd_monitoring_mcp.Base.Int.{ℤ, pos}
use systemd_monitoring_mcp.Text.{
  Text, text, text_eq, text_compare, is_empty, is_ascii_alphanumeric, to_ascii_lowercase,
  eq_ignore_ascii_case, trim, contains, ends_with, one_of,
}
use systemd_monitoring_mcp.Errors.{AppError, bad_request}
use systemd_monitoring_mcp.Units.{UnitScope, UnitStatus, DateTime, system, user, both}

abbrev pub max_log_limit : ℕ
max_log_limit = 1000

abbrev pub default_log_limit : ℕ
default_log_limit = 200

abbrev pub max_services_limit : ℕ
max_services_limit = 1000

abbrev pub default_services_limit : ℕ
default_services_limit = 200

abbrev pub max_timers_limit : ℕ
max_timers_limit = 1000

abbrev pub default_timers_limit : ℕ
default_timers_limit = 200

abbrev pub valid_service_states : List Text
valid_service_states =
    text "active"
    ∷ text "inactive"
    ∷ text "failed"
    ∷ text "activating"
    ∷ text "deactivating"
    ∷ text "reloading"
    ∷ []

-- What chrono's parser gives for an RFC 3339 text: the instant and the offset in seconds.
abbrev pub ParseRfc3339 : Type 0
ParseRfc3339 = Text → Option (DateTime × ℤ)

abbrev pub invalid_utc_time : AppError
invalid_utc_time =
    bad_request "invalid_utc_time" "timestamps must be RFC3339 UTC format ending with Z"

abbrev pub not_utc_offset : AppError
not_utc_offset = bad_request "invalid_utc_time" "timestamps must use UTC offset"

abbrev with_utc_offset : DateTime × ℤ → Result (Option DateTime) AppError
with_utc_offset (instant, pos zero) = ok (some instant)
with_utc_offset (instant, _) = err not_utc_offset

unfoldable pub parse_utc : ParseRfc3339 → Option Text → Result (Option DateTime) AppError
unfolding ends_with
parse_utc parse_from_rfc3339 none = ok none
parse_utc parse_from_rfc3339 (some value) =
    if not (ends_with value (text "Z"))
    then err invalid_utc_time
    else do parsed ← ok_or (parse_from_rfc3339 value) invalid_utc_time; with_utc_offset parsed

abbrev pub invalid_priority : AppError
invalid_priority =
    bad_request "invalid_priority"
      "priority must be one of 0-7 or: emerg, alert, crit, err, warning, notice, info, debug"

-- The arms of the `match`: literals, and what they stand for.
abbrev pub priority_arms : List (List Text × Text)
priority_arms =
    (text "0" ∷ text "emerg" ∷ text "panic" ∷ [], text "0")
    ∷ (text "1" ∷ text "alert" ∷ [], text "1")
    ∷ (text "2" ∷ text "crit" ∷ text "critical" ∷ [], text "2")
    ∷ (text "3" ∷ text "err" ∷ text "error" ∷ [], text "3")
    ∷ (text "4" ∷ text "warning" ∷ text "warn" ∷ [], text "4")
    ∷ (text "5" ∷ text "notice" ∷ [], text "5")
    ∷ (text "6" ∷ text "info" ∷ text "informational" ∷ [], text "6")
    ∷ (text "7" ∷ text "debug" ∷ [], text "7")
    ∷ []

unfoldable pub first_arm : Text → List (List Text × Text) → Option Text
unfolding one_of
first_arm s [] = none
first_arm s ((literals, value) ∷ arms) = if one_of s literals then some value else first_arm s arms

unfoldable pub normalize_priority : Option Text → Result (Option Text) AppError
normalize_priority none = ok none
normalize_priority (some value) =
    let normalized = to_ascii_lowercase (trim value) in
    if is_empty normalized
    then err invalid_priority
    else do mapped ← ok_or (first_arm normalized priority_arms) invalid_priority; ok (some mapped)

is_unit_name_char : ℕ → Bool
is_unit_name_char c =
    is_ascii_alphanumeric c || c == b'-' || c == b'_' || c == b'@' || c == b':' || c == b'.'

unfoldable pub is_valid_unit_name_chars : Text → Bool
unfolding is_unit_name_char is_ascii_alphanumeric
is_valid_unit_name_chars s = all_by is_unit_name_char s

abbrev pub invalid_unit : AppError
invalid_unit =
    bad_request "invalid_unit"
      "unit must contain only alphanumeric characters, dashes, underscores, dots, @, and :"

unfoldable pub normalize_unit : Option Text → Result (Option Text) AppError
normalize_unit none = ok none
normalize_unit (some value) =
    let normalized = trim value in
    if is_empty normalized || not (is_valid_unit_name_chars normalized)
    then err invalid_unit
    else ok (some normalized)

-- `.as_deref().map(str::trim).filter(|value| !value.is_empty()).map(str::to_ascii_lowercase)`
unfoldable pub choice : Option Text → Option Text
unfolding trim to_ascii_lowercase
choice value =
    option_map to_ascii_lowercase (keep_if (λ s. not (is_empty s)) (option_map trim value))

abbrev pub invalid_scope : AppError
invalid_scope = bad_request "invalid_scope" "scope must be one of: system, user, both"

scope_of : Option Text → Result UnitScope AppError
scope_of none = ok system
scope_of (some s) =
    if text_eq s (text "system")
    then ok system
    else if text_eq s (text "user")
    then ok user
    else if text_eq s (text "both")
    then ok both
    else err invalid_scope

unfoldable pub normalize_scope : Option Text → Result UnitScope AppError
unfolding scope_of choice text_eq
normalize_scope scope = scope_of (choice scope)

unfoldable pub normalize_name_contains : Option Text → Option Text
normalize_name_contains none = none
normalize_name_contains (some value) =
    let normalized = trim value in if is_empty normalized then none else some normalized

abbrev pub invalid_service_state : AppError
invalid_service_state =
    bad_request "invalid_state"
      "state must be one of: active, inactive, failed, activating, deactivating, reloading"

unfoldable pub normalize_service_state : Option Text → Result (Option Text) AppError
normalize_service_state none = ok none
normalize_service_state (some value) =
    let normalized = to_ascii_lowercase (trim value) in
    if is_empty normalized
    then err invalid_service_state
    else if not (one_of normalized valid_service_states)
    then err invalid_service_state
    else ok (some normalized)

abbrev pub invalid_limit : AppError
invalid_limit = bad_request "invalid_limit" "limit must be between 1 and 1000"

unfoldable pub normalize_services_limit : Option ℕ → Result ℕ AppError
normalize_services_limit limit =
    let limit = unwrap_or limit default_services_limit in
    if limit == 0 || ltb max_services_limit limit then err invalid_limit else ok limit

unfoldable pub normalize_timers_limit : Option ℕ → Result ℕ AppError
normalize_timers_limit limit =
    let limit = unwrap_or limit default_timers_limit in
    if limit == 0 || ltb max_timers_limit limit then err invalid_limit else ok limit

abbrev pub invalid_timer_state : AppError
invalid_timer_state = bad_request "invalid_state" "state must be a non-empty string"

unfoldable pub normalize_timer_state : Option Text → Result (Option Text) AppError
normalize_timer_state none = ok none
normalize_timer_state (some value) =
    let normalized = to_ascii_lowercase (trim value) in
    if is_empty normalized then err invalid_timer_state else ok (some normalized)

abbrev pub invalid_sort : AppError
invalid_sort = bad_request "invalid_sort" "sort must be one of: next, last, name, state"

sort_of : Option Text → Result Text AppError
sort_of none = ok (text "name")
sort_of (some s) =
    if text_eq s (text "name")
    then ok (text "name")
    else if text_eq s (text "next")
    then ok (text "next")
    else if text_eq s (text "last")
    then ok (text "last")
    else if text_eq s (text "state")
    then ok (text "state")
    else err invalid_sort

unfoldable pub normalize_timers_sort : Option Text → Result Text AppError
unfolding sort_of choice text_eq
normalize_timers_sort sort = sort_of (choice sort)

abbrev pub invalid_order : AppError
invalid_order = bad_request "invalid_order" "order must be one of: asc, desc"

order_of : Option Text → Result Text AppError
order_of none = ok (text "asc")
order_of (some s) =
    if text_eq s (text "asc")
    then ok (text "asc")
    else if text_eq s (text "desc")
    then ok (text "desc")
    else err invalid_order

unfoldable pub normalize_timers_order : Option Text → Result Text AppError
unfolding order_of choice text_eq
normalize_timers_order order = order_of (choice order)
