-- ===== src/Systemd/Journal/Termination.antt =====
-- The scan of the journal comes to an end.
use systemd_monitoring_mcp.Base.{
  ℕ, zero, suc, ◌+◌, ◌<◌, ◌≡◌, arith, inl, inr, false, List, [], ◌∷◌, ◌++◌, some, Result, ok, err,
  ltb, ◌==◌, length, sym, subst, Bool-cases, Result-cases,
}
use systemd_monitoring_mcp.Errors.{AppError}
use systemd_monitoring_mcp.Units.{LogQuery, LogOrder, LogQueryResult, JournalLogEntry}
use systemd_monitoring_mcp.Systemd.Journal.{Journal, Clock, RegexNew}
use systemd_monitoring_mcp.Systemd.Journal.Filters.{Scan, stop, skip, keep}
use systemd_monitoring_mcp.Systemd.Journal.Preparation.{prepare-query}
use systemd_monitoring_mcp.Systemd.Journal.Scan.{
  prepare, scan_entries, advance, read_round, read_journal_logs, page_of,
}

module _ {J : Type 0} (journal : Journal J) (clock : Clock) (remaining : J → ℕ) where
  -- In this direction, every step that moves leaves fewer entries ahead.
  abbrev pub Finite : LogOrder → Type 0
  Finite order =
      (reader reached : J) (steps : ℕ)
      → advance journal clock order reader ≡ ok (steps, reached)
      → (steps == 0) ≡ false
      → remaining reached < remaining reader

  scan_entries_ends :
      (scan : Scan) (fuel : ℕ) (reader : J) (entries : List JournalLogEntry) (total : ℕ)
      → Finite scan.query.order
      → remaining reader < fuel
      → (r : Result (List JournalLogEntry × ℕ) AppError) × (scan_entries journal clock scan fuel
            reader entries total
          ≡ some r)
  unfolding scan_entries
  scan_entries_ends scan zero reader entries total finite h = absurd (omega arith)
  scan_entries_ends scan (suc fuel) reader entries total finite h =
      elim (Bool-cases (ltb scan.query.limit (length entries))) [
        | inl f ↦ (ok (entries, total), rw (scan_entries, f))
        | inr f ↦ elim (Result-cases (advance journal clock scan.query.order reader)) [
          | inr (e, g) ↦ (err e, rw (scan_entries, f, g))
          | inl (m, g) ↦ elim (Bool-cases (m.0 == 0)) [
            | inl z ↦ (ok (entries, total), rw (scan_entries, f, g, z))
            | inr z ↦
                let less : remaining m.1 < fuel = omega (arith, finite reader m.1 m.0 g z) in
                elim (Result-cases (read_round journal clock scan m.1)) [
                  | inr (e, k) ↦ (err e, rw (scan_entries, f, g, z, k))
                  | inl (stop, k) ↦ (ok (entries, total + 1), rw (scan_entries, f, g, z, k))
                  | inl (skip, k) ↦
                      let (r, q) =
                        scan_entries_ends scan fuel m.1 entries (total + 1) finite less in
                      (r, rw (scan_entries, f, g, z, k) q)
                  | inl (keep entry, k) ↦
                      let (r, q) =
                        scan_entries_ends scan fuel m.1 (entries ++ entry ∷ []) (total + 1) finite
                          less in
                      (r, rw (scan_entries, f, g, z, k) q)
                ]
          ]
        ]
      ]

  -- Whatever the journal answers, errors included, if each step that moves in the query's direction
  -- leaves fewer entries ahead, the read of the log ends with a result or an error on any fuel above the number of entries that
  -- are ahead of the position where the scan starts.
  pub read_journal_logs_ends :
      (regex_new : RegexNew) (query : LogQuery) (fuel : ℕ)
      → Finite query.order
      → ((scan : Scan) (reader : J)
          → prepare journal clock regex_new query ≡ ok (scan, reader)
          → remaining reader < fuel)
      → (answer : Result LogQueryResult AppError) × (read_journal_logs journal clock regex_new fuel
            query
          ≡ some answer)
  unfolding read_journal_logs
  read_journal_logs_ends regex_new query fuel finite h =
      elim (Result-cases (prepare journal clock regex_new query)) [
        | inr (e, p) ↦ (err e, rw (read_journal_logs, p))
        | inl (made, p) ↦
            let same = prepare-query journal clock regex_new query made.0 made.1 p in
            let onward : Finite made.0.query.order =
              subst (λ (q : LogQuery). Finite q.order) (sym same) finite in
            let (r, q) = scan_entries_ends made.0 fuel made.1 [] 0 onward (h made.0 made.1 p) in
            (page_of journal clock query.limit r, rw (read_journal_logs, p, q))
      ]
