-- ===== src/Systemd/Journal/Answer.antt =====
-- The page that the scan of the journal gives is the filtered journal, cut at the limit.
use mathlib.Core.List.{append-nil, append_assoc}
use systemd_monitoring_mcp.Base.{
  ◌↔◌, ℕ, zero, suc, ◌+◌, ◌≤◌, ◌<◌, ◌≡◌, inl, inr, refl, sym, ap, ap₂, ◌∙◌, subst, arith, Bool,
  true, false, List, [], ◌∷◌, ◌++◌, Option, none, some, Result, ok, ltb, ◌==◌, All, take, length,
  length-append, filter_map, filter_map-some, filter_map-none, filter_map_empty, All-imp,
  Bool-cases,
}
use systemd_monitoring_mcp.Errors.{AppError}
use systemd_monitoring_mcp.Units.{LogOrder, asc, desc, LogQuery, LogQueryResult, JournalLogEntry}
use systemd_monitoring_mcp.Systemd.Journal.{Journal, Clock, RegexNew}
use systemd_monitoring_mcp.Systemd.Journal.Filters.{Scan}
use systemd_monitoring_mcp.Systemd.Journal.Scan.{prepare, scan_entries, advance, read_journal_logs}
use systemd_monitoring_mcp.Systemd.Journal.Preparation.{IsScanOf, prepare-IsScanOf, prepare-query}
use systemd_monitoring_mcp.Systemd.Journal.Wanted.{IsWanted, is_wanted_iff}
use systemd_monitoring_mcp.Systemd.Journal.Rounds.{read_round_judged}
use systemd_monitoring_mcp.Systemd.Journal.Records.{
  JournalRecord, is_wanted, Replays, ended, moved, IsBeyond, IsOrdered, IsPast, beyond_past,
  shown_entry,
}

take-append_enough {ℓ} :
    {A : Type ℓ} (n : ℕ) (xs ys : List A) → n ≤ length xs → take n (xs ++ ys) ≡ take n xs
take-append_enough zero xs ys h = refl
take-append_enough (suc n) [] ys h = absurd (omega arith)
take-append_enough (suc n) (x ∷ xs) ys h = ap (◌∷◌ x) (take-append_enough n xs ys (omega arith))

module _ {J : Type 0} (journal : Journal J) (clock : Clock) (scan : Scan) where
  -- The entries that the query shows of a journal
  abbrev pub wanted_entries : List JournalRecord → List JournalLogEntry
  wanted_entries records = filter_map (shown_entry clock scan) records

  IsBeyond-refl : (order : LogOrder) (r : JournalRecord) → IsBeyond order r r
  IsBeyond-refl asc r = omega arith
  IsBeyond-refl desc r = omega arith

  past_none :
      (r later : JournalRecord)
      → IsPast scan.query.order scan r.timestamp
      → IsBeyond scan.query.order r later
      → shown_entry clock scan later ≡ none
  past_none r later past h = rw (beyond_past scan.query.order scan r later past h)

  past_empty :
      (r : JournalRecord) (rest : List JournalRecord)
      → IsPast scan.query.order scan r.timestamp
      → All (IsBeyond scan.query.order r) rest
      → wanted_entries (r ∷ rest) ≡ []
  past_empty r rest past h = filter_map_empty (shown_entry clock scan) (r ∷ rest) (
    past_none r r past (IsBeyond-refl scan.query.order r),
    All-imp (IsBeyond scan.query.order r) (λ later. shown_entry clock scan later ≡ none)
        (λ later. past_none r later past) rest h,
  )

  -- The scan found what counts of the expected entries: the page of them and whether there are more.
  abbrev IsFound :
      List JournalLogEntry → ℕ → Option (Result (List JournalLogEntry × ℕ) AppError) → Type 0
  IsFound expected bound result =
      (found : List JournalLogEntry) × (scanned : ℕ) × (result ≡ some (ok (found, scanned)))
      × (take scan.query.limit found ≡ take scan.query.limit expected)
      × (ltb scan.query.limit (length found) ≡ ltb scan.query.limit (length expected))
      × (scanned ≤ bound)

  IsFound-all :
      (entries expected : List JournalLogEntry) (scanned bound : ℕ)
      → entries ≡ expected
      → scanned ≤ bound
      → IsFound expected bound (some (ok (entries, scanned)))
  IsFound-all entries expected scanned bound e h =
      subst (λ x. IsFound x bound (some (ok (entries, scanned)))) e
        (entries, scanned, refl, refl, refl, h)

  IsFound-enough :
      (entries more : List JournalLogEntry) (scanned bound : ℕ)
      → ltb scan.query.limit (length entries) ≡ true
      → scanned ≤ bound
      → IsFound (entries ++ more) bound (some (ok (entries, scanned)))
  IsFound-enough entries more scanned bound full h = (
    entries,
    scanned,
    refl,
    sym (take-append_enough scan.query.limit entries more (ground arith)),
    ground (arith, length-append entries more),
    h,
  )

  IsFound-as :
      (bound bound' : ℕ) {expected expected' : List JournalLogEntry}
      {result result' : Option (Result (List JournalLogEntry × ℕ) AppError)}
      → result ≡ result'
      → expected' ≡ expected
      → bound' ≤ bound
      → IsFound expected' bound' result'
      → IsFound expected bound result
  IsFound-as bound bound' e g h (found, scanned, r, page, more, le) = (
    found,
    scanned,
    e ∙ r,
    page ∙ ap (take scan.query.limit) g,
    more ∙ ap (λ x. ltb scan.query.limit (length x)) g,
    omega arith,
  )

  scan_entries-IsFound :
      (fuel : ℕ) (reader : J) (records : List JournalRecord) (entries : List JournalLogEntry)
      (total : ℕ)
      → Replays journal (advance journal clock scan.query.order) reader records
      → IsOrdered scan.query.order records
      → length records < fuel
      → IsFound
          (entries ++ wanted_entries records)
          (total + length records)
          (scan_entries journal clock scan fuel reader entries total)
  unfolding scan_entries
  scan_entries-IsFound zero reader records entries total r o h = absurd (omega arith)
  scan_entries-IsFound (suc fuel) reader [] entries total (ended e) o h =
      elim (Bool-cases (ltb scan.query.limit (length entries))) [
        | inl f ↦ rw (scan_entries, f) (IsFound-enough entries [] total (total + 0) f (omega arith))
        | inr f ↦
            rw (scan_entries, f, e)
              (IsFound-all entries (entries ++ []) total (total + 0) (sym (append-nil entries))
                (omega arith))
      ]
  scan_entries-IsFound (suc fuel) reader (r ∷ rest) entries total
        (moved {reached = reached} {steps = steps} e shows later) o h =
      let more = wanted_entries (r ∷ rest) in
      let bound = total + length (r ∷ rest) in
      let z : (suc steps == 0) ≡ false = ground arith in
      let next = total + 1 + length rest in
      elim (Bool-cases (ltb scan.query.limit (length entries))) [
        | inl f ↦ rw (scan_entries, f) (IsFound-enough entries more total bound f (omega arith))
        | inr f ↦ elim (read_round_judged journal clock scan reached r shows) [
          | inl (entry, g, w) ↦
              IsFound-as bound next (rw (scan_entries, f, e, z, g))
                (append_assoc entries (entry ∷ []) (wanted_entries rest)
                  ∙ ap (◌++◌ entries)
                      (sym (filter_map-some (shown_entry clock scan) r rest entry w)))
                (omega arith)
                (scan_entries-IsFound fuel reached rest (entries ++ entry ∷ []) (total + 1) later
                  o.1 (omega arith))
          | inr (inl (g, w)) ↦
              IsFound-as bound next (rw (scan_entries, f, e, z, g))
                (ap (◌++◌ entries) (sym (filter_map-none (shown_entry clock scan) r rest w)))
                (omega arith)
                (scan_entries-IsFound fuel reached rest entries (total + 1) later o.1 (omega arith))
          | inr (inr (g, past)) ↦
              IsFound-as bound bound (rw (scan_entries, f, e, z, g)) refl (omega arith) (
                IsFound-all entries (entries ++ more) (total + 1) bound
                  (sym (ap (◌++◌ entries) (past_empty r rest past o.0) ∙ append-nil entries))
                  (omega arith))
        ]
      ]

module _ {J : Type 0} (journal : Journal J) (clock : Clock) (regex_new : RegexNew) where
  abbrev answer : ℕ → List JournalLogEntry → Bool → Option (Result LogQueryResult AppError)
  answer scanned entries has_more =
      some (ok (record { entries = entries; total_scanned = some scanned; has_more = has_more }))

  -- For a query that can be prepared, a journal whose entries are read without error and stand in the
  -- order of time in the direction of the scan, and fuel above their number, the answer has exactly
  -- the entries that pass every filter of the query and have a time that chrono knows, in the order of
  -- the scan and cut at the limit, and says that there are more exactly if there are. The filters are
  -- those of the query: an entry passes exactly if it lies in the window, has the unit asked for and
  -- none of the excluded ones, is urgent enough, and has a message that matches.
  pub read_journal_logs_exact :
      (query : LogQuery) (scan : Scan) (reader : J) (records : List JournalRecord) (fuel : ℕ)
      → prepare journal clock regex_new query ≡ ok (scan, reader)
      → Replays journal (advance journal clock query.order) reader records
      → IsOrdered query.order records
      → length records < fuel
      → let wanted = filter_map (shown_entry clock scan) records in
        (scanned : ℕ) × (read_journal_logs journal clock regex_new fuel query
          ≡ some (
              ok (record {
                entries = take query.limit wanted;
                total_scanned = some scanned;
                has_more = ltb query.limit (length wanted);
              })))
        × (scanned ≤ length records)
        × IsScanOf journal clock regex_new query scan
        × ((r : JournalRecord) → (is_wanted scan r ≡ true) ↔ IsWanted scan r)
  unfolding read_journal_logs
  read_journal_logs_exact query scan reader records fuel p r o h =
      let same : scan.query ≡ query = prepare-query journal clock regex_new query scan reader p in
      let (found, scanned, e, page, more, le) =
        scan_entries-IsFound journal clock scan fuel reader records [] 0
          (subst (λ q. Replays journal (advance journal clock q.order) reader records) (sym same) r)
          (subst (λ q. IsOrdered q.order records) (sym same) o) h in
      let page' : take query.limit found
          ≡ take query.limit (filter_map (shown_entry clock scan) records) =
        subst (λ q. take q.limit found ≡ take q.limit (filter_map (shown_entry clock scan) records))
          same page in
      let more' : ltb query.limit (length found)
          ≡ ltb query.limit (length (filter_map (shown_entry clock scan) records)) =
        subst
          (λ q.
            ltb q.limit (length found)
            ≡ ltb q.limit (length (filter_map (shown_entry clock scan) records)))
          same more in
      (
        scanned,
        rw (read_journal_logs, p, e) (ap₂ (answer scanned) page' more'),
        omega arith,
        prepare-IsScanOf journal clock regex_new query scan reader p,
        is_wanted_iff scan,
      )
