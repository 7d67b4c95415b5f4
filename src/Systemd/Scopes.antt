-- ===== src/Systemd/Scopes.antt =====
-- Rows of one manager, and of both together.
use mathlib.Core.List.{Perm}
use systemd_monitoring_mcp.Base.{
  ◌≡◌, refl, sym, ◌∙◌, ◌||◌, true, Ordering, is_ok, none, List, [], ◌++◌, map, filter_by,
  compare_by, Result, ok, err, All, All-map,
}
use systemd_monitoring_mcp.Base.Order.{compare_by-IsOrder, Le, Le_refl}
use systemd_monitoring_mcp.Base.Sort.{
  sort_by, sort_by-perm, sort_by-IsSorted, sort_by-All, sort_by-stable, IsSorted,
}
use systemd_monitoring_mcp.Text.{Text, text, text_eq, text_compare, ends_with}
use systemd_monitoring_mcp.Text.Laws.{text_eq→≡}
use systemd_monitoring_mcp.Text.Order.{text_compare-IsOrder}
use systemd_monitoring_mcp.Errors.{AppError, internal}
use systemd_monitoring_mcp.Units.{UnitScope, scope_str, UnitStatus, TimerStatus}

pub record RawUnit : Type 0 where
  pub name : Text
  pub description : Text
  pub load_state : Text
  pub active_state : Text
  pub sub_state : Text
  -- A D-Bus object path
  pub unit_path : Text

abbrev pub service_of : UnitScope → RawUnit → UnitStatus
service_of scope unit = record {
  unit = unit.name;
  scope = scope_str scope;
  description = unit.description;
  load_state = unit.load_state;
  active_state = unit.active_state;
  sub_state = unit.sub_state;
  unit_file_state = none;
  since_utc = none;
  main_pid = none;
  exec_main_status = none;
  result = none;
}

abbrev pub by_service : UnitStatus → UnitStatus → Ordering
by_service = compare_by (λ (s : UnitStatus). s.unit) text_compare

unfoldable pub map_and_sort_service_units : List RawUnit → UnitScope → List UnitStatus
unfolding sort_by ends_with
map_and_sort_service_units raw_units scope =
    sort_by by_service
      (map (service_of scope) (filter_by (λ unit. ends_with unit.name (text ".service")) raw_units))

-- What holds of every row as it is mapped holds of the sorted rows.
pub map_and_sort_service_units-All :
    (P : UnitStatus → Type 0) (scope : UnitScope)
    → ((unit : RawUnit) → P (service_of scope unit))
    → (raw_units : List RawUnit) → All P (map_and_sort_service_units raw_units scope)
unfolding map_and_sort_service_units
map_and_sort_service_units-All P scope h raw_units = sort_by-All P by_service _ (
    All-map P (service_of scope) h
      (filter_by (λ unit. ends_with unit.name (text ".service")) raw_units))

abbrev pub timer_of : UnitScope → RawUnit → TimerStatus
timer_of scope unit = record {
  unit = unit.name;
  scope = scope_str scope;
  load_state = unit.load_state;
  active_state = unit.active_state;
  sub_state = unit.sub_state;
  unit_file_state = none;
  next_run_utc = none;
  last_run_utc = none;
  trigger_unit = none;
  persistent = none;
  result = none;
}

abbrev pub by_timer : TimerStatus → TimerStatus → Ordering
by_timer = compare_by (λ (t : TimerStatus). t.unit) text_compare

unfoldable pub map_and_sort_timer_units : List RawUnit → UnitScope → List TimerStatus
unfolding sort_by ends_with
map_and_sort_timer_units raw_units scope =
    sort_by by_timer
      (map (timer_of scope) (filter_by (λ unit. ends_with unit.name (text ".timer")) raw_units))

-- What holds of every row as it is mapped holds of the sorted rows.
pub map_and_sort_timer_units-All :
    (P : TimerStatus → Type 0) (scope : UnitScope)
    → ((unit : RawUnit) → P (timer_of scope unit))
    → (raw_units : List RawUnit) → All P (map_and_sort_timer_units raw_units scope)
unfolding map_and_sort_timer_units
map_and_sort_timer_units-All P scope h raw_units = sort_by-All P by_timer _ (
    All-map P (timer_of scope) h
      (filter_by (λ unit. ends_with unit.name (text ".timer")) raw_units))

module _ {ℓ} {T : Type ℓ} (unit_kind : Text) (key : T → Text) where
  abbrev pub by_row_key : T → T → Ordering
  by_row_key = compare_by key text_compare

  -- The rows of both scopes, or of the one that could be listed
  unfoldable pub combine_scope_rows_by_key :
      Result (List T) AppError → Result (List T) AppError → Result (List T) AppError
  unfolding sort_by
  combine_scope_rows_by_key (ok system_rows) (ok user_rows) =
      ok (sort_by by_row_key (system_rows ++ user_rows))
  combine_scope_rows_by_key (ok system_rows) (err user_error) =
      ok (sort_by by_row_key (system_rows ++ []))
  combine_scope_rows_by_key (err system_error) (ok user_rows) =
      ok (sort_by by_row_key ([] ++ user_rows))
  combine_scope_rows_by_key (err system_error) (err user_error) = err (
      internal "internal_error"
        (text "failed to list " ++ unit_kind ++ text " for both system and user scopes"))

  -- What a scope contributes.
  abbrev pub rows_of : Result (List T) AppError → List T
  rows_of (ok rows) = rows
  rows_of (err error) = []

  -- Sorted by key, the rows of the same key in the order that they came in
  abbrev pub IsCombined : List T → List T → Type ℓ
  IsCombined rows listed =
      Perm rows listed
      × IsSorted by_row_key rows
      × ((k : Text)
          → filter_by (λ r. text_eq (key r) k) rows ≡ filter_by (λ r. text_eq (key r) k) listed)

  same_key :
      (k : Text) (a b : T) → text_eq (key a) k ≡ true → text_eq (key b) k ≡ true → Le by_row_key a b
  same_key k a b h g =
      let same : key a ≡ key b = text_eq→≡ (key a) k h ∙ sym (text_eq→≡ (key b) k g) in
      rw same (Le_refl text_compare text_compare-IsOrder (key b))

  sort_by-IsCombined : (listed : List T) → IsCombined (sort_by by_row_key listed) listed
  sort_by-IsCombined listed = (
    sort_by-perm by_row_key listed,
    sort_by-IsSorted by_row_key (compare_by-IsOrder key text_compare text_compare-IsOrder) listed,
    λ k. sort_by-stable by_row_key (λ r. text_eq (key r) k) (same_key k) listed,
  )

  -- Where one scope at least could be listed, the answer has every row of either scope, those with
  -- the same key too, sorted by key, and of the rows with one key the system's before the user's.
  pub combine_scope_rows_by_key-IsCombined :
      (system_result user_result : Result (List T) AppError)
      → is_ok system_result || is_ok user_result ≡ true
      → (rows : List T) × (combine_scope_rows_by_key system_result user_result ≡ ok rows)
        × IsCombined rows (rows_of system_result ++ rows_of user_result)
  unfolding combine_scope_rows_by_key
  combine_scope_rows_by_key-IsCombined (err e) (err f) h = absurd (cc h)
  combine_scope_rows_by_key-IsCombined (ok xs) (ok ys) h = (_, refl, sort_by-IsCombined (xs ++ ys))
  combine_scope_rows_by_key-IsCombined (ok xs) (err f) h = (_, refl, sort_by-IsCombined (xs ++ []))
  combine_scope_rows_by_key-IsCombined (err e) (ok ys) h = (_, refl, sort_by-IsCombined ys)
