-- ===== src/Systemd/Journal/Preparation.antt =====
-- What `read_journal_logs` settles before its loop.
use systemd_monitoring_mcp.Base.{◌≡◌, refl, subst, Option, none, some, ok, on_ok, and_then}
use systemd_monitoring_mcp.Units.{DateTime, LogQuery}
use systemd_monitoring_mcp.Systemd.Journal.{Journal, Clock, RegexNew, build_grep_matcher}
use systemd_monitoring_mcp.Systemd.Journal.Filters.{Scan, parse_u8}
use systemd_monitoring_mcp.Systemd.Journal.Scan.{prepare, open_reader, from_time, seek}

given_time : (time : Option DateTime) (a : DateTime) → from_time time ≡ ok a → time ≡ some a
given_time none a h = absurd (cc h)
given_time (some b) a h = cc

module _ {J : Type 0} (journal : Journal J) (clock : Clock) (regex_new : RegexNew) where
  -- What the scan is for: the query itself, with its grep, its window and its threshold
  abbrev pub IsScanOf : LogQuery → Scan → Type 0
  IsScanOf query scan =
      (scan.query ≡ query)
      × (build_grep_matcher regex_new query.grep ≡ ok scan.grep_matcher)
      × ((s : DateTime) × (query.start_utc ≡ some s)
          × (scan.start_unix_usec ≡ clock.timestamp_micros s))
      × ((e : DateTime) × (query.end_utc ≡ some e)
          × (scan.end_unix_usec ≡ clock.timestamp_micros e))
      × (scan.threshold ≡ and_then query.priority parse_u8)

  pub prepare-IsScanOf :
      (query : LogQuery) (scan : Scan) (reader : J)
      → prepare journal clock regex_new query ≡ ok (scan, reader)
      → IsScanOf query scan
  unfolding prepare
  prepare-IsScanOf query scan reader p =
      on_ok (open_reader journal clock query.scope) p λ opened oe p1.
        on_ok (build_grep_matcher regex_new query.grep) p1 λ matcher me p2.
          on_ok (from_time query.start_utc) p2 λ s se p3.
            on_ok (from_time query.end_utc) p3 λ e ee p4.
              on_ok
                (seek journal clock query opened (clock.timestamp_micros s)
                  (clock.timestamp_micros e))
                p4
                λ positioned pe p5.
                  let made : Scan = record {
                    query = query;
                    grep_matcher = matcher;
                    start_unix_usec = clock.timestamp_micros s;
                    end_unix_usec = clock.timestamp_micros e;
                    threshold = and_then query.priority parse_u8;
                  } in
                  let same : made ≡ scan = cc p5 in
                  subst (IsScanOf query) same (
                    refl,
                    me,
                    (s, given_time query.start_utc s se, refl),
                    (e, given_time query.end_utc e ee, refl),
                    refl,
                  )

  pub prepare-query :
      (query : LogQuery) (scan : Scan) (reader : J)
      → prepare journal clock regex_new query ≡ ok (scan, reader)
      → scan.query ≡ query
  prepare-query query scan reader p = (prepare-IsScanOf query scan reader p).0
