-- ===== src/Systemd/Journal/Records.antt =====
-- What the scan of the journal is about: the entries that a reader steps through, and the ones that a
-- query asks for.
use systemd_monitoring_mcp.Base.{
  ℕ, suc, ◌≤◌, ◌≡◌, arith, Bool, true, false, not, ◌&&◌, List, [], ◌∷◌, Option, none, Result, ok,
  if◌then◌else◌, and_then, option_map, All,
}
use systemd_monitoring_mcp.Base.Int.{pos, ltb_ℤ}
use systemd_monitoring_mcp.Text.{Text, text}
use systemd_monitoring_mcp.Text.Number.{parse_unsigned, parse_i32}
use systemd_monitoring_mcp.Text.Decimal.{decimal}
use systemd_monitoring_mcp.Errors.{AppError}
use systemd_monitoring_mcp.Units.{LogOrder, asc, desc, DateTime, JournalLogEntry}
use systemd_monitoring_mcp.Systemd.Messages.{sanitize_log_message}
use systemd_monitoring_mcp.Systemd.Journal.{Journal, Clock, select_unit_for_scope}
use systemd_monitoring_mcp.Systemd.Journal.Filters.{
  Scan, other_unit, is_excluded, is_urgent, is_matching, fits_i64, ok_part,
}

-- An entry of the journal
pub record JournalRecord : Type 0 where
  pub timestamp : ℕ
  pub field : Text → Option Text
  pub cursor : Option Text

abbrev pub is_in_window : Scan → ℕ → Bool
is_in_window scan usec =
    fits_i64 usec
    && not (ltb_ℤ (pos usec) scan.start_unix_usec)
    && not (ltb_ℤ scan.end_unix_usec (pos usec))

abbrev pub unit_in : Scan → JournalRecord → Option Text
unit_in scan r =
    select_unit_for_scope scan.query.scope (r.field (text "_SYSTEMD_UNIT"))
      (r.field (text "_SYSTEMD_USER_UNIT"))

abbrev pub priority_in : JournalRecord → Option ℕ
priority_in r = and_then (r.field (text "PRIORITY")) (parse_unsigned 255)

abbrev pub message_in : JournalRecord → Option Text
message_in r = sanitize_log_message (r.field (text "MESSAGE"))

-- The filters of the query
abbrev pub is_wanted : Scan → JournalRecord → Bool
is_wanted scan r =
    is_in_window scan r.timestamp
    && not (other_unit scan.query.unit (unit_in scan r))
    && not (is_excluded scan.query.exclude_units (unit_in scan r))
    && is_urgent scan.threshold (priority_in r)
    && is_matching scan (message_in r)

module _ (clock : Clock) where
  abbrev pub entry_of : Scan → JournalRecord → DateTime → JournalLogEntry
  entry_of scan r timestamp = record {
    timestamp_utc = clock.rfc3339_millis timestamp;
    unit = unit_in scan r;
    priority = option_map decimal (priority_in r);
    hostname = r.field (text "_HOSTNAME");
    pid = and_then (r.field (text "_PID")) parse_i32;
    message = message_in r;
    cursor = r.cursor;
  }

  -- What a query shows of an entry: nothing, if a filter refuses it or chrono has no such time.
  abbrev pub shown_entry : Scan → JournalRecord → Option JournalLogEntry
  shown_entry scan r =
      if is_wanted scan r
      then option_map (entry_of scan r) (clock.from_timestamp_micros (pos r.timestamp))
      else none

module _ {J : Type 0} (journal : Journal J) where
  -- The reader stands on the entry, and reads it without error.
  pub record Shows (reader : J) (r : JournalRecord) : Type 0 where
    pub timestamp : journal.timestamp_usec reader ≡ ok r.timestamp
    pub field : (name : Text) → journal.get_data reader name ≡ ok (r.field name)
    pub cursor : ok_part (journal.cursor reader) ≡ r.cursor

  -- From `reader` on, steps in one direction go through these entries and then end.
  pub data Replays (move : J → Result (ℕ × J) AppError) : J → List JournalRecord → Type 0 where
    ended : {reader last : J} → move reader ≡ ok (0, last) → Replays move reader []
    moved :
        {reader reached : J} {steps : ℕ} {r : JournalRecord} {rest : List JournalRecord}
        → move reader ≡ ok (suc steps, reached)
        → Shows reached r
        → Replays move reached rest
        → Replays move reader (r ∷ rest)

-- Entries in the direction of the scan: the times of the rest are not before, or not after, the first.
abbrev pub IsBeyond : LogOrder → JournalRecord → JournalRecord → Type 0
IsBeyond asc r later = r.timestamp ≤ later.timestamp
IsBeyond desc r later = later.timestamp ≤ r.timestamp

abbrev pub IsOrdered : LogOrder → List JournalRecord → Type 0
IsOrdered order [] = Unit
IsOrdered order (r ∷ rest) = All (IsBeyond order r) rest × IsOrdered order rest

-- The scan may end at an entry outside the window.
abbrev pub IsPast : LogOrder → Scan → ℕ → Type 0
IsPast asc scan usec = ltb_ℤ scan.end_unix_usec (pos usec) ≡ true
IsPast desc scan usec = (fits_i64 usec ≡ true) × (ltb_ℤ (pos usec) scan.start_unix_usec ≡ true)

pub beyond_past :
    (order : LogOrder) (scan : Scan) (r later : JournalRecord)
    → IsPast order scan r.timestamp
    → IsBeyond order r later
    → is_in_window scan later.timestamp ≡ false
beyond_past asc scan r later past h = ground arith
beyond_past desc scan r later past h = ground arith
