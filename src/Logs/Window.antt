-- ===== src/Logs/Window.antt =====
-- The journal query that accepted parameters of `list_logs` become.
use systemd_monitoring_mcp.Base.{
  ℕ, ◌≤◌, ◌≡◌, refl, ◌⊎◌, inl, inr, Bool, true, false, Option, none, some, List, [], ◌∷◌, arith,
  subst, All, ok, on_ok, Bool-cases, unwrap_or, keep_if, not,
}
use systemd_monitoring_mcp.Base.Int.{◌-ℤ◌, ◌<ℤ◌, ◌≤ℤ◌}
use systemd_monitoring_mcp.Text.{Text, is_empty, trim, one_of}
use systemd_monitoring_mcp.Units.{LogQuery, DateTime}
use systemd_monitoring_mcp.Utils.{
  normalize_unit, normalize_priority, normalize_scope, is_valid_unit_name_chars, parse_utc,
}
use systemd_monitoring_mcp.Utils.Choices.{accepted_priority_known, priorities}
use systemd_monitoring_mcp.Env.{Env, LogsQueryParams}
use systemd_monitoring_mcp.Logs.Query.{
  seven_days, log_limit, log_grep, log_order, normalize_units, with_unit, check_range, log_window,
  build_log_query,
}

-- Not empty, and of allowed characters only.
abbrev pub IsUnitName : Text → Type 0
IsUnitName unit = (is_empty unit ≡ false) × (is_valid_unit_name_chars unit ≡ true)

abbrev pub Holds {ℓ κ} : {A : Type ℓ} → (A → Type κ) → Option A → Type κ
Holds P none = Unit
Holds P (some a) = P a

-- A bounded query: both ends of its window are known, in order, and no more than seven days apart
-- unless that is allowed; and every part of it has passed validation.
pub record IsBounded (allow_large_window : Bool) (query : LogQuery) : Type 0 where
  pub start : DateTime
  pub finish : DateTime
  pub starts : query.start_utc ≡ some start
  pub ends : query.end_utc ≡ some finish
  pub in_order : start <ℤ finish
  pub near : (allow_large_window ≡ true) ⊎ ((finish -ℤ start) ≤ℤ seven_days)
  pub limit_least : 1 ≤ query.limit
  pub limit_most : query.limit ≤ 1000
  pub units : Holds IsUnitName query.unit
  pub excluded : All IsUnitName query.exclude_units
  pub severity : Holds (λ p. one_of p priorities ≡ true) query.priority
  pub resumes : Holds (λ c. is_empty (trim c) ≡ false) query.cursor

unit_name :
    (value : Option Text) (unit : Option Text)
    → normalize_unit value ≡ ok unit
    → Holds IsUnitName unit
unfolding normalize_unit
unit_name value none h = tt
unit_name none (some unit) h = cc h
unit_name (some value) (some unit) h = ground arith

with_unit_names :
    (unit : Option Text) (units : List Text)
    → Holds IsUnitName unit
    → All IsUnitName units
    → All IsUnitName (with_unit unit units)
with_unit_names none units h k = k
with_unit_names (some unit) units h k = (h, k)

unit_names : (values units : List Text) → normalize_units values ≡ ok units → All IsUnitName units
unfolding normalize_units
unit_names [] units h = subst (All IsUnitName) {x = []} (cc h) tt
unit_names (v ∷ vs) units h = on_ok (normalize_unit (some v)) h λ unit at h.
    on_ok (normalize_units vs) h λ rest at_rest h.
      subst (All IsUnitName) (cc h)
        (with_unit_names unit rest (unit_name (some v) unit at) (unit_names vs rest at_rest))

kept_cursor :
    (cursor : Option Text)
    → Holds (λ c. is_empty (trim c) ≡ false) (keep_if (λ s. not (is_empty (trim s))) cursor)
kept_cursor none = tt
kept_cursor (some c) = elim (Bool-cases (is_empty (trim c))) [ inl e ↦ rw e tt | inr e ↦ rw e e ]

severity_known :
    (value priority : Option Text)
    → normalize_priority value ≡ ok priority
    → Holds (λ p. one_of p priorities ≡ true) priority
unfolding normalize_priority
severity_known value none h = tt
severity_known none (some p) h = cc h
severity_known (some value) (some p) h = accepted_priority_known value p h

limit_bounds : (limit : Option ℕ) (n : ℕ) → log_limit limit ≡ ok n → (1 ≤ n) × (n ≤ 1000)
unfolding log_limit
limit_bounds limit n h = ground arith

module _ (env : Env) where
  -- What the window's check lets pass.
  abbrev IsWindow : Bool → Option DateTime → Option DateTime → Type 0
  IsWindow allow start_utc end_utc =
      (start : DateTime) × (finish : DateTime) × (start_utc ≡ some start)
      × (end_utc ≡ some finish)
      × (start <ℤ finish)
      × ((allow ≡ true) ⊎ ((finish -ℤ start) ≤ℤ seven_days))

  check_range-IsWindow :
      (start_utc end_utc : Option DateTime) (allow : Option Bool)
      → check_range env start_utc end_utc allow ≡ ok tt
      → IsWindow (unwrap_or allow false) start_utc end_utc
  unfolding check_range
  check_range-IsWindow none end_utc allow h = cc h
  check_range-IsWindow (some start) none allow h = cc h
  check_range-IsWindow (some start) (some finish) allow h = (
    start,
    finish,
    refl,
    refl,
    ground arith,
    elim (Bool-cases (unwrap_or allow false)) [ inl e ↦ inl e | inr e ↦ inr (ground (arith, e)) ],
  )

  log_window-IsWindow :
      (params : LogsQueryParams) (window : Option DateTime × Option DateTime)
      → log_window env params ≡ ok window
      → IsWindow (unwrap_or params.allow_large_window false) window.0 window.1
  unfolding log_window
  log_window-IsWindow params window h =
      on_ok (parse_utc env.parse_from_rfc3339 params.start_utc) h λ start_utc _ h.
        on_ok (parse_utc env.parse_from_rfc3339 params.end_utc) h λ end_utc _ h.
          on_ok (check_range env start_utc end_utc params.allow_large_window) h λ _ checked h.
            subst
              (λ (w : Option DateTime × Option DateTime).
                IsWindow (unwrap_or params.allow_large_window false) w.0 w.1)
              (cc h) (check_range-IsWindow start_utc end_utc params.allow_large_window checked)

  -- Accepted parameters of `list_logs` become a bounded query: both ends of its window are known
  -- (so the handler's `expect` never panics), the first before the second and, unless
  -- `allow_large_window` is set, at most seven days before it; the limit lies between 1 and 1000;
  -- all unit names consist of allowed characters; the priority is a digit from 0 to 7.
  pub build_log_query_sound :
      (params : LogsQueryParams) (query : LogQuery)
      → build_log_query env params ≡ ok query
      → IsBounded (unwrap_or params.allow_large_window false) query
  unfolding build_log_query
  build_log_query_sound params query h = on_ok (log_window env params) h λ window at_window h.
      on_ok (log_limit params.limit) h λ limit at_limit h.
        on_ok (log_order params.order) h λ order _ h.
          on_ok (normalize_units (unwrap_or params.exclude_units [])) h λ excluded at_excluded h.
            on_ok (normalize_scope params.scope) h λ scope _ h.
              on_ok (normalize_priority params.priority) h λ priority at_priority h.
                on_ok (normalize_unit params.unit) h λ unit at_unit h.
                  let (start, finish, starts, ends, in_order, near) =
                    log_window-IsWindow params window at_window in
                  let bounds = limit_bounds params.limit limit at_limit in
                  let built : LogQuery = record {
                    scope = scope;
                    priority = priority;
                    unit = unit;
                    exclude_units = excluded;
                    grep = log_grep params.grep;
                    order = order;
                    start_utc = window.0;
                    end_utc = window.1;
                    limit = limit;
                    cursor = keep_if (λ s. not (is_empty (trim s))) params.cursor;
                  } in
                  let same : built ≡ query = cc h in
                  subst (IsBounded (unwrap_or params.allow_large_window false)) same (record {
                    start = start;
                    finish = finish;
                    starts = starts;
                    ends = ends;
                    in_order = in_order;
                    near = near;
                    limit_least = bounds.0;
                    limit_most = bounds.1;
                    units = unit_name params.unit unit at_unit;
                    excluded = unit_names _ excluded at_excluded;
                    severity = severity_known params.priority priority at_priority;
                    resumes = kept_cursor params.cursor;
                  })
