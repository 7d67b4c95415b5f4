-- ===== src/Systemd/Journal/Filters.antt =====
-- What an entry of the journal is tested for in `read_journal_logs`, and how a round of its loop ends.
use systemd_monitoring_mcp.Base.{
  ℕ, ◌^◌, Bool, true, false, not, List, Option, none, some, Result, ok, err, ltb, leb, is_some,
  any_by,
}
use systemd_monitoring_mcp.Base.Int.{ℤ}
use systemd_monitoring_mcp.Text.{Text, eq_ignore_ascii_case}
use systemd_monitoring_mcp.Text.Number.{parse_unsigned}
use systemd_monitoring_mcp.Units.{LogQuery, JournalLogEntry}
use systemd_monitoring_mcp.Systemd.Journal.{GrepMatcher, matches_grep}

-- What the loop knows beside the reader: the local variables of `read_journal_logs`.
pub record Scan : Type 0 where
  pub query : LogQuery
  pub grep_matcher : Option GrepMatcher
  pub start_unix_usec : ℤ
  pub end_unix_usec : ℤ
  pub threshold : Option ℕ

-- How a round of the loop ends: by `break`, by `continue`, or with an entry.
pub data Round : Type 0 where
  stop skip : Round
  keep : JournalLogEntry → Round

-- `query.unit` is given, and the entry has another unit or none.
unfoldable pub other_unit : Option Text → Option Text → Bool
unfolding eq_ignore_ascii_case
other_unit none unit = false
other_unit (some wanted) none = true
other_unit (some wanted) (some unit) = not (eq_ignore_ascii_case unit wanted)

unfoldable pub is_excluded : List Text → Option Text → Bool
unfolding eq_ignore_ascii_case
is_excluded exclude_units none = false
is_excluded exclude_units (some unit) = any_by (λ e. eq_ignore_ascii_case e unit) exclude_units

unfoldable pub is_urgent : Option ℕ → Option ℕ → Bool
is_urgent none priority = true
is_urgent (some max_priority) none = false
is_urgent (some max_priority) (some priority) = leb priority max_priority

unfoldable pub is_matching : Scan → Option Text → Bool
unfolding matches_grep
is_matching scan none = not (is_some scan.query.grep)
is_matching scan (some message) = matches_grep scan.grep_matcher message

-- `i64::try_from` of an unsigned number
abbrev pub fits_i64 : ℕ → Bool
fits_i64 n = ltb n (2 ^ 63)

abbrev pub parse_u8 : Text → Option ℕ
parse_u8 s = parse_unsigned 255 s

-- `.ok()`
abbrev pub ok_part {ℓ κ} : {A : Type ℓ} {E : Type κ} → Result A E → Option A
ok_part (ok a) = some a
ok_part (err e) = none
