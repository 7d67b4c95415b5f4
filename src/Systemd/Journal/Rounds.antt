-- ===== src/Systemd/Journal/Rounds.antt =====
-- What one round of the scan makes of the entry that the reader stands on.
use systemd_monitoring_mcp.Base.{
  ◌≡◌, ◌⊎◌, inl, inr, refl, sym, subst, true, false, none, some, Result, ok, Bool-cases,
  Option-cases,
}
use systemd_monitoring_mcp.Base.Int.{pos, ltb_ℤ}
use systemd_monitoring_mcp.Text.{Text, text}
use systemd_monitoring_mcp.Errors.{AppError}
use systemd_monitoring_mcp.Units.{LogOrder, asc, desc, DateTime, JournalLogEntry}
use systemd_monitoring_mcp.Systemd.Journal.{Journal, Clock, read_journal_field}
use systemd_monitoring_mcp.Systemd.Journal.Filters.{
  Scan, Round, stop, skip, keep, other_unit, is_excluded, is_urgent, is_matching, fits_i64,
}
use systemd_monitoring_mcp.Systemd.Journal.Scan.{read_round, read_in_window, read_entry}
use systemd_monitoring_mcp.Systemd.Journal.Records.{
  JournalRecord, is_in_window, unit_in, priority_in, message_in, is_wanted, entry_of, shown_entry,
  Shows, IsPast,
}

LogOrder-cases : (order : LogOrder) → (order ≡ asc) ⊎ (order ≡ desc)
LogOrder-cases asc = inl refl
LogOrder-cases desc = inr refl

module _ {J : Type 0} (journal : Journal J) (clock : Clock) where
  pub field_read :
      {reader : J} {r : JournalRecord}
      → Shows journal reader r
      → (name : Text) → read_journal_field journal reader name ≡ ok (r.field name)
  unfolding read_journal_field
  field_read shows name = rw (shows.field name)

  -- A round shows the entry, passes it over, or ends the scan at an entry past the window.
  abbrev pub Judged : Scan → JournalRecord → Result Round AppError → Type 0
  Judged scan r round =
      ((e : JournalLogEntry) × (round ≡ ok (keep e)) × (shown_entry clock scan r ≡ some e))
      ⊎ ((round ≡ ok skip) × (shown_entry clock scan r ≡ none))
      ⊎ ((round ≡ ok stop) × IsPast scan.query.order scan r.timestamp)

  abbrev passed_over :
      (scan : Scan) (r : JournalRecord) {round : Result Round AppError}
      → round ≡ ok skip
      → is_wanted scan r ≡ false
      → Judged scan r round
  passed_over scan r h g = inr (inl (h, rw g))

  read_entry_judged :
      (scan : Scan) (reader : J) (r : JournalRecord) (timestamp : DateTime)
      → Shows journal reader r
      → clock.from_timestamp_micros (pos r.timestamp) ≡ some timestamp
      → is_in_window scan r.timestamp ≡ true
      → other_unit scan.query.unit (unit_in scan r) ≡ false
      → is_excluded scan.query.exclude_units (unit_in scan r) ≡ false
      → Judged scan r (read_entry journal clock scan reader (unit_in scan r) timestamp)
  unfolding read_entry
  read_entry_judged scan reader r timestamp shows time inside unit excluded =
      let priority = field_read shows (text "PRIORITY") in
      let hostname = field_read shows (text "_HOSTNAME") in
      let pid = field_read shows (text "_PID") in
      let message = field_read shows (text "MESSAGE") in
      elim (Bool-cases (is_urgent scan.threshold (priority_in r))) [
        | inr e ↦ passed_over scan r (rw (read_entry, priority, e)) (rw (inside, unit, excluded, e))
        | inl e ↦ elim (Bool-cases (is_matching scan (message_in r))) [
          | inr f ↦
              passed_over scan r (rw (read_entry, priority, e, hostname, pid, message, f))
                (rw (inside, unit, excluded, e, f))
          | inl f ↦ inl (
            entry_of clock scan r timestamp,
            rw (read_entry, priority, e, hostname, pid, message, f, shows.cursor),
            rw (inside, unit, excluded, e, f, time),
          )
        ]
      ]

  untimed :
      (scan : Scan) (r : JournalRecord)
      → clock.from_timestamp_micros (pos r.timestamp) ≡ none
      → shown_entry clock scan r ≡ none
  untimed scan r g = elim (Bool-cases (is_wanted scan r)) [ inl e ↦ rw (e, g) | inr e ↦ rw e ]

  read_in_window_judged :
      (scan : Scan) (reader : J) (r : JournalRecord)
      → Shows journal reader r
      → is_in_window scan r.timestamp ≡ true
      → Judged scan r (read_in_window journal clock scan reader r.timestamp)
  unfolding read_in_window
  read_in_window_judged scan reader r shows inside =
      let system_unit = field_read shows (text "_SYSTEMD_UNIT") in
      let user_unit = field_read shows (text "_SYSTEMD_USER_UNIT") in
      elim (Bool-cases (other_unit scan.query.unit (unit_in scan r))) [
        | inl e ↦
            passed_over scan r (rw (read_in_window, system_unit, user_unit, e)) (rw (inside, e))
        | inr e ↦ elim (Bool-cases (is_excluded scan.query.exclude_units (unit_in scan r))) [
          | inl f ↦
              passed_over scan r (rw (read_in_window, system_unit, user_unit, e, f))
                (rw (inside, e, f))
          | inr f ↦ elim (Option-cases (clock.from_timestamp_micros (pos r.timestamp))) [
            | inl g ↦
                let skipped : read_in_window journal clock scan reader r.timestamp ≡ ok skip =
                  rw (read_in_window, system_unit, user_unit, e, f, g) in
                inr (inl (skipped, untimed scan r g))
            | inr (t, g) ↦
                let same : read_in_window journal clock scan reader r.timestamp
                    ≡ read_entry journal clock scan reader (unit_in scan r) t =
                  rw (read_in_window, system_unit, user_unit, e, f, g) in
                subst (Judged scan r) (sym same)
                  (read_entry_judged scan reader r t shows g inside e f)
          ]
        ]
      ]

  pub read_round_judged :
      (scan : Scan) (reader : J) (r : JournalRecord)
      → Shows journal reader r
      → Judged scan r (read_round journal clock scan reader)
  unfolding read_round
  read_round_judged scan reader r shows = elim (Bool-cases (fits_i64 r.timestamp)) [
    | inr e ↦ passed_over scan r (rw (read_round, shows.timestamp, e)) (rw e)
    | inl e ↦ elim (Bool-cases (ltb_ℤ (pos r.timestamp) scan.start_unix_usec)) [
      | inl f ↦ elim (LogOrder-cases scan.query.order) [
        | inl o ↦ passed_over scan r (rw (read_round, shows.timestamp, e, f, o)) (rw (e, f))
        | inr o ↦ inr (inr (rw (read_round, shows.timestamp, e, f, o), rw o (e, f)))
      ]
      | inr f ↦ elim (Bool-cases (ltb_ℤ scan.end_unix_usec (pos r.timestamp))) [
        | inl g ↦ elim (LogOrder-cases scan.query.order) [
          | inl o ↦ inr (inr (rw (read_round, shows.timestamp, e, f, g, o), rw o g))
          | inr o ↦ passed_over scan r (rw (read_round, shows.timestamp, e, f, g, o)) (rw (e, f, g))
        ]
        | inr g ↦
            let same : read_round journal clock scan reader
                ≡ read_in_window journal clock scan reader r.timestamp =
              rw (read_round, shows.timestamp, e, f, g) in
            subst (Judged scan r) (sym same)
              (read_in_window_judged scan reader r shows (rw (e, f, g)))
      ]
    ]
  ]
