-- ===== src/Timers/Items.antt =====
-- The rows of `list_timers`, and when a timer counts as overdue.
use systemd_monitoring_mcp.Base.{
  ℕ, ◌*◌, ◌≡◌, refl, ◌↔◌, inl, inr, Bool-cases, Bool, true, false, not, Option, none, some, arith,
  if◌then◌else◌, and_then, option_map,
}
use systemd_monitoring_mcp.Base.Int.{ℤ, pos, ◌+ℤ◌, ◌-ℤ◌, ◌<ℤ◌, ltb_ℤ, quot_ℤ}
use systemd_monitoring_mcp.Text.{Text, text, eq_ignore_ascii_case}
use systemd_monitoring_mcp.Units.{TimerStatus, DateTime}
use systemd_monitoring_mcp.Utils.{ParseRfc3339}

pub record TimerItem : Type 0 where
  pub unit : Text
  pub scope : Text
  pub active_state : Text
  pub sub_state : Text
  pub next_run_utc : Option Text
  pub last_run_utc : Option Text
  pub time_until_next_sec : Option ℤ
  pub time_since_last_sec : Option ℤ
  pub trigger_unit : Option Text
  pub persistent : Option Bool
  pub result : Option Text
  pub load_state : Option Text
  pub unit_file_state : Option Text
  pub overdue : Bool
  pub overdue_reason : Option Text

abbrev pub nanos_per_second : ℕ
nanos_per_second = 1000000000

-- `Duration::minutes(5)`
abbrev pub grace : ℤ
grace = pos (300 * nanos_per_second)

-- `TimeDelta::num_seconds`
abbrev pub num_seconds : ℤ → ℤ
num_seconds d = quot_ℤ d nanos_per_second

module _ (parse_from_rfc3339 : ParseRfc3339) where
  unfoldable pub parse_rfc3339_utc : Option Text → Option DateTime
  parse_rfc3339_utc value = option_map (λ parsed. parsed.0) (and_then value parse_from_rfc3339)

  unfoldable pub overdue_at : DateTime → Option DateTime → Bool × Option Text
  overdue_at now none = (false, some (text "no_next_run_known"))
  overdue_at now (some next_run) =
      if ltb_ℤ (next_run +ℤ grace) now
      then (true, some (text "past_due_beyond_grace"))
      else (false, none)

  unfoldable pub timer_overdue_status : DateTime → TimerStatus → Bool × Option Text
  timer_overdue_status now timer =
      if not (eq_ignore_ascii_case timer.active_state (text "active"))
      then (false, some (text "not_active"))
      else overdue_at now (parse_rfc3339_utc timer.next_run_utc)

  unfoldable pub build_timer_item : TimerStatus → DateTime → Bool → TimerItem
  build_timer_item timer now include_persistent =
      let next_run = parse_rfc3339_utc timer.next_run_utc in
      let last_run = parse_rfc3339_utc timer.last_run_utc in
      let (overdue, overdue_reason) = timer_overdue_status now timer in
      record {
        unit = timer.unit;
        scope = timer.scope;
        active_state = timer.active_state;
        sub_state = timer.sub_state;
        next_run_utc = timer.next_run_utc;
        last_run_utc = timer.last_run_utc;
        time_until_next_sec = option_map (λ next. num_seconds (next -ℤ now)) next_run;
        time_since_last_sec = option_map (λ last. num_seconds (now -ℤ last)) last_run;
        trigger_unit = timer.trigger_unit;
        persistent = if include_persistent then timer.persistent else none;
        result = timer.result;
        load_state = some timer.load_state;
        unit_file_state = timer.unit_file_state;
        overdue = overdue;
        overdue_reason = overdue_reason;
      }

  overdue_at_iff :
      (now : DateTime) (next : Option DateTime)
      → ((overdue_at now next).0 ≡ true)
        ↔ ((at : DateTime) × (next ≡ some at) × (at +ℤ grace <ℤ now))
  unfolding overdue_at
  overdue_at_iff now none = (λ h. cc, λ (at, e, late). cc)
  overdue_at_iff now (some next) = (λ h. (next, refl, ground arith), λ (at, e, late). ground arith)

  -- A timer is overdue exactly when it is active, its next run is known, and more than five minutes
  -- have passed since then.
  pub overdue_iff :
      (now : DateTime) (timer : TimerStatus)
      → ((timer_overdue_status now timer).0 ≡ true) ↔ (
          (eq_ignore_ascii_case timer.active_state (text "active") ≡ true)
          × ((at : DateTime) × (parse_rfc3339_utc timer.next_run_utc ≡ some at)
              × (at +ℤ grace <ℤ now)))
  unfolding timer_overdue_status
  overdue_iff now timer =
      let (to, from) = overdue_at_iff now (parse_rfc3339_utc timer.next_run_utc) in
      elim (Bool-cases (eq_ignore_ascii_case timer.active_state (text "active"))) [
        | inl e ↦ rw e (λ h. (refl, to h), λ (_, known). from known)
        | inr e ↦ rw e (λ h. cc, λ (active, _). cc)
      ]
