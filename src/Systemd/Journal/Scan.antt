-- ===== src/Systemd/Journal/Scan.antt =====
-- `read_journal_logs`: the scan of the journal for one page of entries.
use systemd_monitoring_mcp.Base.{
  ℕ, zero, suc, ◌+◌, true, false, not, ◌++◌, List, [], ◌∷◌, Option, none, some, Result, ok, err,
  ltb, ◌==◌, if◌then◌else◌, ◌>>=◌, map_err, ok_or, and_then, option_map, take, length,
}
use systemd_monitoring_mcp.Base.Int.{ℤ, pos, negsuc, ltb_ℤ}
use systemd_monitoring_mcp.Text.{Text, text}
use systemd_monitoring_mcp.Text.Number.{parse_unsigned, parse_i32}
use systemd_monitoring_mcp.Text.Decimal.{decimal}
use systemd_monitoring_mcp.Errors.{AppError, bad_request}
use systemd_monitoring_mcp.Units.{
  UnitScope, system, user, both, LogOrder, asc, desc, DateTime, LogQuery, JournalLogEntry,
  LogQueryResult,
}
use systemd_monitoring_mcp.Systemd.Messages.{sanitize_log_message}
use systemd_monitoring_mcp.Systemd.Journal.{
  Journal, OpenOptions, Clock, RegexNew, build_grep_matcher, select_unit_for_scope,
  read_journal_field, internal_error,
}
use systemd_monitoring_mcp.Systemd.Journal.Filters.{
  Scan, Round, stop, skip, keep, other_unit, is_excluded, is_urgent, is_matching, fits_i64,
  parse_u8, ok_part,
}
use systemd_monitoring_mcp.Systemd.Journal.Cursor.{navigation, position_at_exact_cursor}

-- `break` in one order, `continue` in the other
abbrev past_window : LogOrder → LogOrder → Round
past_window asc asc = stop
past_window desc desc = stop
past_window _ _ = skip

abbrev pub from_time : Option DateTime → Result DateTime AppError
from_time time = ok_or time (bad_request "missing_time_range" "start_utc and end_utc are required")

abbrev open_options : UnitScope → OpenOptions
open_options system = record { system_files = true; current_user_files = false }
open_options user = record { system_files = false; current_user_files = true }
open_options both = record { system_files = false; current_user_files = false }

module _ {J : Type 0} (journal : Journal J) (clock : Clock) where
  abbrev seek_time : LogOrder → J → ℤ → Result J AppError
  seek_time desc reader (pos usec) =
      map_err (λ e. internal_error (text "failed to seek journald end timestamp: " ++ e))
        (journal.seek_realtime_usec reader usec)
  seek_time desc reader (negsuc n) =
      map_err (λ e. internal_error (text "failed to seek journald tail: " ++ e))
        (journal.seek_tail reader)
  seek_time asc reader (pos usec) =
      map_err (λ e. internal_error (text "failed to seek journald start timestamp: " ++ e))
        (journal.seek_realtime_usec reader usec)
  seek_time asc reader (negsuc n) =
      map_err (λ e. internal_error (text "failed to seek journald head: " ++ e))
        (journal.seek_head reader)

  abbrev first_bound : LogOrder → ℤ → ℤ → ℤ
  first_bound desc start finish = finish
  first_bound asc start finish = start

  -- Where the scan starts
  unfoldable pub seek : LogQuery → J → ℤ → ℤ → Result J AppError
  unfolding position_at_exact_cursor navigation
  seek query reader start finish = elim query.cursor [
    | some cursor ↦ position_at_exact_cursor (navigation journal) reader cursor
    | none ↦ seek_time query.order reader (first_bound query.order start finish)
  ]

  abbrev pub open_reader : UnitScope → Result J AppError
  open_reader scope =
      map_err (λ e. internal_error (text "failed to open journald reader: " ++ e))
        (journal.open_with (open_options scope))

  -- All that comes before the loop
  unfoldable pub prepare : RegexNew → LogQuery → Result (Scan × J) AppError
  unfolding build_grep_matcher parse_unsigned
  prepare regex_new query = do
    reader ←
        map_err (λ e. internal_error (text "failed to open journald reader: " ++ e))
          (journal.open_with (open_options query.scope))
    grep_matcher ← build_grep_matcher regex_new query.grep
    start_utc ← from_time query.start_utc
    end_utc ← from_time query.end_utc
    let start = clock.timestamp_micros start_utc
    let finish = clock.timestamp_micros end_utc
    positioned ← seek query reader start finish
    ok (
      record {
        query = query;
        grep_matcher = grep_matcher;
        start_unix_usec = start;
        end_unix_usec = finish;
        threshold = and_then query.priority parse_u8;
      },
      positioned,
    )

  -- From the time of an entry in the window on
  unfoldable pub read_entry : Scan → J → Option Text → DateTime → Result Round AppError
  unfolding read_journal_field parse_unsigned parse_i32 sanitize_log_message decimal
  read_entry scan reader unit timestamp = do
    priority_field ← read_journal_field journal reader (text "PRIORITY")
    let priority = and_then priority_field parse_u8
    if not (is_urgent scan.threshold priority) then ok skip else do
      hostname ← read_journal_field journal reader (text "_HOSTNAME")
      pid ← read_journal_field journal reader (text "_PID")
      message_field ← read_journal_field journal reader (text "MESSAGE")
      let message = sanitize_log_message message_field
      if not (is_matching scan message)
          then ok skip
          else ok (
              keep (record {
                timestamp_utc = clock.rfc3339_millis timestamp;
                unit = unit;
                priority = option_map decimal priority;
                hostname = hostname;
                pid = and_then pid parse_i32;
                message = message;
                cursor = ok_part (journal.cursor reader);
              }))

  unfoldable pub read_in_window : Scan → J → ℕ → Result Round AppError
  unfolding read_journal_field select_unit_for_scope
  read_in_window scan reader usec = do
    system_unit ← read_journal_field journal reader (text "_SYSTEMD_UNIT")
    user_unit ← read_journal_field journal reader (text "_SYSTEMD_USER_UNIT")
    let unit = select_unit_for_scope scan.query.scope system_unit user_unit
    if other_unit scan.query.unit unit
        then ok skip
        else if is_excluded scan.query.exclude_units unit
        then ok skip
        else elim (clock.from_timestamp_micros (pos usec)) [
          | none ↦ ok skip
          | some timestamp ↦ read_entry scan reader unit timestamp
        ]

  -- A round of the loop, once the reader has moved to an entry
  unfoldable pub read_round : Scan → J → Result Round AppError
  read_round scan reader = do
    usec ←
        map_err (λ e. internal_error (text "failed to read journald timestamp: " ++ e))
          (journal.timestamp_usec reader)
    if not (fits_i64 usec)
        then ok skip
        else if ltb_ℤ (pos usec) scan.start_unix_usec
        then ok (past_window desc scan.query.order)
        else if ltb_ℤ scan.end_unix_usec (pos usec)
        then ok (past_window asc scan.query.order)
        else read_in_window scan reader usec

  unfoldable pub advance : LogOrder → J → Result (ℕ × J) AppError
  advance desc reader =
      map_err (λ e. internal_error (text "failed to read journald entry: " ++ e))
        (journal.previous reader)
  advance asc reader =
      map_err (λ e. internal_error (text "failed to read journald entry: " ++ e))
        (journal.next reader)

  -- The loop; without fuel there is no answer.
  unfoldable pub scan_entries :
      Scan → ℕ → J → List JournalLogEntry → ℕ → Option (Result (List JournalLogEntry × ℕ) AppError)
  scan_entries scan zero reader entries total_scanned = none
  scan_entries scan (suc fuel) reader entries total_scanned =
      elim (ltb scan.query.limit (length entries)) [
        | true ↦ some (ok (entries, total_scanned))
        | false ↦ elim (advance scan.query.order reader) [
          | err e ↦ some (err e)
          | ok (advanced, moved) ↦ elim (advanced == 0) [
            | true ↦ some (ok (entries, total_scanned))
            | false ↦ elim (read_round scan moved) [
              | err e ↦ some (err e)
              | ok stop ↦ some (ok (entries, total_scanned + 1))
              | ok skip ↦ scan_entries scan fuel moved entries (total_scanned + 1)
              | ok (keep entry) ↦
                  scan_entries scan fuel moved (entries ++ entry ∷ []) (total_scanned + 1)
            ]
          ]
        ]
      ]

  abbrev pub page_of :
      ℕ → Result (List JournalLogEntry × ℕ) AppError → Result LogQueryResult AppError
  page_of limit scanned = do
    (entries, total_scanned) ← scanned
    ok (record {
      entries = take limit entries;
      total_scanned = some total_scanned;
      has_more = ltb limit (length entries);
    })

  unfoldable pub read_journal_logs :
      RegexNew → ℕ → LogQuery → Option (Result LogQueryResult AppError)
  unfolding prepare scan_entries
  read_journal_logs regex_new fuel query = elim (prepare regex_new query) [
    | err e ↦ some (err e)
    | ok (scan, reader) ↦ option_map (page_of query.limit) (scan_entries scan fuel reader [] 0)
  ]
