-- ===== src/Systemd/Journal/Wanted.antt =====
-- The filters of a query in words of their own.
use systemd_monitoring_mcp.Base.{
  ℕ, ◌≤◌, ◌<◌, ◌^◌, ◌≡◌, ◌↔◌, arith, true, false, not, List, [], ◌∷◌, Option, none, some, All,
  any_by,
}
use systemd_monitoring_mcp.Base.Int.{pos, ◌≤ℤ◌}
use systemd_monitoring_mcp.Text.{Text, to_ascii_lowercase, eq_ignore_ascii_case}
use systemd_monitoring_mcp.Text.Laws.{text_eq_iff}
use systemd_monitoring_mcp.Systemd.Journal.{matches_grep}
use systemd_monitoring_mcp.Systemd.Journal.Filters.{
  Scan, other_unit, is_excluded, is_urgent, is_matching,
}
use systemd_monitoring_mcp.Systemd.Journal.Records.{
  JournalRecord, is_in_window, is_wanted, unit_in, priority_in, message_in,
}

-- The unit that was asked for, whatever its case
abbrev pub IsOfUnit : Option Text → Option Text → Type 0
IsOfUnit none unit = Unit
IsOfUnit (some wanted) none = ⊥
IsOfUnit (some wanted) (some unit) = to_ascii_lowercase unit ≡ to_ascii_lowercase wanted

abbrev pub IsAllowed : List Text → Option Text → Type 0
IsAllowed exclude_units none = Unit
IsAllowed exclude_units (some unit) = All (λ e. eq_ignore_ascii_case e unit ≡ false) exclude_units

-- At least as urgent as the threshold, which is a largest number
abbrev pub IsUrgent : Option ℕ → Option ℕ → Type 0
IsUrgent none priority = Unit
IsUrgent (some max_priority) none = ⊥
IsUrgent (some max_priority) (some priority) = priority ≤ max_priority

abbrev pub IsMatching : Scan → Option Text → Type 0
IsMatching scan none = scan.query.grep ≡ none
IsMatching scan (some message) = matches_grep scan.grep_matcher message ≡ true

abbrev pub IsInWindow : Scan → ℕ → Type 0
IsInWindow scan usec =
    (usec < 2 ^ 63) × (scan.start_unix_usec ≤ℤ pos usec) × (pos usec ≤ℤ scan.end_unix_usec)

abbrev pub IsWanted : Scan → JournalRecord → Type 0
IsWanted scan r =
    IsInWindow scan r.timestamp
    × IsOfUnit scan.query.unit (unit_in scan r)
    × IsAllowed scan.query.exclude_units (unit_in scan r)
    × IsUrgent scan.threshold (priority_in r)
    × IsMatching scan (message_in r)

is_in_window_iff : (scan : Scan) (usec : ℕ) → (is_in_window scan usec ≡ true) ↔ IsInWindow scan usec
is_in_window_iff scan usec = ground arith

other_unit_iff : (w u : Option Text) → (not (other_unit w u) ≡ true) ↔ IsOfUnit w u
unfolding other_unit eq_ignore_ascii_case
other_unit_iff none u = ground arith
other_unit_iff (some w) none = ground arith
other_unit_iff (some w) (some u) =
    ground (arith, text_eq_iff (to_ascii_lowercase u) (to_ascii_lowercase w))

any_excluded_iff :
    (xs : List Text) (u : Text)
    → (not (any_by (λ e. eq_ignore_ascii_case e u) xs) ≡ true)
      ↔ All (λ e. eq_ignore_ascii_case e u ≡ false) xs
any_excluded_iff [] u = ground arith
any_excluded_iff (x ∷ xs) u = ground (arith, any_excluded_iff xs u)

is_excluded_iff :
    (xs : List Text) (u : Option Text) → (not (is_excluded xs u) ≡ true) ↔ IsAllowed xs u
unfolding is_excluded
is_excluded_iff xs none = ground arith
is_excluded_iff xs (some u) = any_excluded_iff xs u

is_urgent_iff : (t p : Option ℕ) → (is_urgent t p ≡ true) ↔ IsUrgent t p
unfolding is_urgent
is_urgent_iff none p = ground arith
is_urgent_iff (some m) none = ground arith
is_urgent_iff (some m) (some p) = ground arith

is_matching_iff : (scan : Scan) (m : Option Text) → (is_matching scan m ≡ true) ↔ IsMatching scan m
unfolding is_matching
is_matching_iff scan none = ground arith
is_matching_iff scan (some m) = ground arith

pub is_wanted_iff : (scan : Scan) (r : JournalRecord) → (is_wanted scan r ≡ true) ↔ IsWanted scan r
is_wanted_iff scan r = ground (
  arith,
  is_in_window_iff scan r.timestamp,
  other_unit_iff scan.query.unit (unit_in scan r),
  is_excluded_iff scan.query.exclude_units (unit_in scan r),
  is_urgent_iff scan.threshold (priority_in r),
  is_matching_iff scan (message_in r),
)
