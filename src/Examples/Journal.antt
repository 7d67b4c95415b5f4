-- ===== src/Examples/Journal.antt =====
-- A journal of two entries, read back from its end.
use systemd_monitoring_mcp.Base.{
  ◌↔◌, ℕ, ◌≤◌, ◌<◌, ◌≡◌, ◌⊎◌, refl, arith, true, false, ◌==◌, Option, none, some, List, [], ◌∷◌,
  Result, ok, err, ok_or, map_err, subst, sym, ◌∙◌, take, length, ltb, filter_map, if◌then◌else◌,
}
use systemd_monitoring_mcp.Base.Int.{pos}
use systemd_monitoring_mcp.Text.{Text, text, text_eq}
use systemd_monitoring_mcp.Errors.{AppError}
use systemd_monitoring_mcp.Units.{both, user, desc, LogQuery, LogQueryResult}
use systemd_monitoring_mcp.Systemd.Journal.{Journal, Clock, RegexNew, build_grep_matcher}
use systemd_monitoring_mcp.Systemd.Journal.Cursor.{
  navigation, position_at_exact_cursor, invalid_cursor_error, position_at_exact_cursor_exact,
}
use systemd_monitoring_mcp.Systemd.Journal.Filters.{Scan}
use systemd_monitoring_mcp.Systemd.Journal.Scan.{prepare, seek, advance, read_journal_logs}
use systemd_monitoring_mcp.Systemd.Journal.Records.{
  JournalRecord, is_wanted, Shows, Replays, ended, moved, shown_entry,
}
use systemd_monitoring_mcp.Systemd.Journal.Preparation.{IsScanOf}
use systemd_monitoring_mcp.Systemd.Journal.Wanted.{IsWanted}
use systemd_monitoring_mcp.Systemd.Journal.Answer.{read_journal_logs_exact}
use systemd_monitoring_mcp.Systemd.Journal.Termination.{Finite, read_journal_logs_ends}
use systemd_monitoring_mcp.Systemd.Journal.Transitions.{
  read_unit_transitions, back, max_transition_scan,
}
use systemd_monitoring_mcp.Systemd.Journal.Moves.{transitions_in, read_unit_transitions_exact}

-- The entry that the reader stands on, and the ones before it
abbrev pub Reader : Type 0
Reader = JournalRecord × List JournalRecord

abbrev step_back : Reader → Result (ℕ × Reader) Text
step_back (here, []) = ok (0, (here, []))
step_back (here, r ∷ rest) = ok (1, (r, rest))

abbrev field_of : Text → Text → Text → Text → Option Text
field_of kind unit message name =
    if text_eq name (text "MESSAGE_ID")
    then some kind
    else if text_eq name (text "USER_UNIT")
    then some unit
    else if text_eq name (text "MESSAGE")
    then some message
    else none

abbrev started : JournalRecord
started = record {
  timestamp = 50;
  field = field_of (text "39f53479d3a045ac8e11786248231fbf") (text "a.service") (text "Started a");
  cursor = some (text "c2");
}

abbrev starting : JournalRecord
starting = record {
  timestamp = 40;
  field = field_of (text "7d4958e842da4a758f6c1cdc7b36dcc5") (text "a.service") (text "Starting a");
  cursor = some (text "c1");
}

-- Before the first step back
abbrev tail : Reader
tail = (started, started ∷ starting ∷ [])

abbrev pub journal : Journal Reader
journal = record {
  open_with = λ options. ok tail;
  seek_cursor = λ reader cursor. ok tail;
  seek_realtime_usec = λ reader usec. ok tail;
  seek_head = λ reader. ok tail;
  seek_tail = λ reader. ok tail;
  next = step_back;
  previous = step_back;
  test_cursor = λ reader cursor. ok true;
  timestamp_usec = λ reader. ok reader.0.timestamp;
  get_data = λ reader name. ok (reader.0.field name);
  cursor = λ reader. ok_or reader.0.cursor [];
}

abbrev pub clock : Clock
clock = record {
  timestamp_micros = λ time. time;
  from_timestamp_micros = λ usec. some usec;
  rfc3339_millis = λ time. text "1970-01-01T00:00:00.000Z";
}

abbrev no_regex : RegexNew
no_regex = λ pattern. none

abbrev query : LogQuery
query = record {
  scope = both;
  priority = none;
  unit = none;
  exclude_units = [];
  grep = none;
  order = desc;
  start_utc = some (pos 0);
  end_utc = some (pos 100);
  limit = 1;
  cursor = none;
}

abbrev scan : Scan
scan = record {
  query = query;
  grep_matcher = none;
  start_unix_usec = pos 0;
  end_unix_usec = pos 100;
  threshold = none;
}

started-Shows : Shows journal (started, starting ∷ []) started
started-Shows = record { timestamp = refl; field = λ name. refl; cursor = refl }

starting-Shows : Shows journal (starting, []) starting
starting-Shows = record { timestamp = refl; field = λ name. refl; cursor = refl }

prepared : prepare journal clock no_regex query ≡ ok (scan, tail)
unfolding prepare build_grep_matcher seek
prepared = refl

replayed : Replays journal (advance journal clock desc) tail (started ∷ starting ∷ [])
unfolding advance
replayed = moved refl started-Shows (moved refl starting-Shows (ended {last = (starting, [])} refl))

read_journal_logs_exact_example :
    (scanned : ℕ) × (read_journal_logs journal clock no_regex 3 query
      ≡ some (
          ok (record {
            entries = take 1 (filter_map (shown_entry clock scan) (started ∷ starting ∷ []));
            total_scanned = some scanned;
            has_more =
                ltb 1 (length (filter_map (shown_entry clock scan) (started ∷ starting ∷ [])));
          })))
    × (scanned ≤ 2)
    × IsScanOf journal clock no_regex query scan
    × ((r : JournalRecord) → (is_wanted scan r ≡ true) ↔ IsWanted scan r)
read_journal_logs_exact_example =
    read_journal_logs_exact journal clock no_regex query scan tail (started ∷ starting ∷ []) 3
      prepared replayed ((omega arith, tt), (tt, tt)) (omega arith)

unmapped {ℓ κ μ} :
    {A : Type ℓ} {E : Type κ} {F : Type μ} (f : E → F) (m : Result A E) {a : A}
    → map_err f m ≡ ok a
    → m ≡ ok a
unmapped f (ok b) h = cc h
unmapped f (err e) h = absurd (cc h)

-- A journal that is walked in both directions: the entries before the current one, the nearest first,
-- the current one, and those after it
abbrev Place : Type 0
Place = List JournalRecord × (Option JournalRecord × List JournalRecord)

abbrev with_current : Option JournalRecord → List JournalRecord → List JournalRecord
with_current none records = records
with_current (some r) records = r ∷ records

abbrev walk_back : Place → Result (ℕ × Place) Text
walk_back ([], rest) = ok (0, ([], rest))
walk_back (r ∷ older, (current, newer)) = ok (1, (older, (some r, with_current current newer)))

abbrev walk_on : Place → Result (ℕ × Place) Text
walk_on (older, (current, [])) = ok (0, (older, (current, [])))
walk_on (older, (current, r ∷ newer)) = ok (1, (with_current current older, (some r, newer)))

abbrev end_of_log : Place
end_of_log = (started ∷ starting ∷ [], (none, []))

abbrev start_of_log : Place
start_of_log = ([], (none, starting ∷ started ∷ []))

abbrev current_of : Place → JournalRecord
current_of (older, (none, newer)) = started
current_of (older, (some r, newer)) = r

abbrev walked : Journal Place
walked = record {
  open_with = λ options. ok start_of_log;
  seek_cursor = λ reader cursor. ok start_of_log;
  seek_realtime_usec = λ reader usec. ok end_of_log;
  seek_head = λ reader. ok start_of_log;
  seek_tail = λ reader. ok end_of_log;
  next = walk_on;
  previous = walk_back;
  test_cursor = λ reader cursor. ok true;
  timestamp_usec = λ reader. ok (current_of reader).timestamp;
  get_data = λ reader name. ok ((current_of reader).field name);
  cursor = λ reader. ok_or (current_of reader).cursor [];
}

abbrev older_entries : Place → ℕ
older_entries reader = length reader.0

stepped :
    (reader reached : Place) (steps : ℕ)
    → walk_back reader ≡ ok (steps, reached)
    → (steps == 0) ≡ false
    → older_entries reached < older_entries reader
stepped ([], rest) reached steps e z =
    let none_moved : steps ≡ 0 = cc e in absurd (cc (rw none_moved at z))
stepped (r ∷ older, (current, newer)) reached steps e z =
    let same : (older, (some r, with_current current newer)) ≡ reached = cc e in
    subst (λ (q : Place). older_entries q < older_entries (r ∷ older, (current, newer))) same
      (omega arith)

finite : Finite walked clock older_entries desc
unfolding advance
finite reader reached steps e z = stepped reader reached steps (unmapped _ _ e) z

walk_prepared : prepare walked clock no_regex query ≡ ok (scan, end_of_log)
unfolding prepare build_grep_matcher seek
walk_prepared = refl

starts :
    (s : Scan) (reader : Place)
    → prepare walked clock no_regex query ≡ ok (s, reader)
    → older_entries reader < 3
starts s reader p =
    let same : end_of_log ≡ reader = cc (sym walk_prepared ∙ p) in
    subst (λ (q : Place). older_entries q < 3) same (omega arith)

read_journal_logs_ends_example :
    (answer : Result LogQueryResult AppError) × (read_journal_logs walked clock no_regex 3 query
      ≡ some answer)
read_journal_logs_ends_example =
    read_journal_logs_ends walked clock older_entries no_regex query 3 finite starts

position_at_exact_cursor_exact_example :
    ((selected : Reader) × (sought : Reader) × (advanced : ℕ) × (position_at_exact_cursor
          (navigation journal)
          tail
          (text "c2")
        ≡ ok selected)
      × ((navigation journal).seek_to_cursor tail (text "c2") ≡ ok sought)
      × ((navigation journal).select_sought_entry sought ≡ ok (advanced, selected))
      × ((advanced == 0) ≡ false)
      × ((navigation journal).selected_entry_matches selected (text "c2") ≡ ok true))
    ⊎ (position_at_exact_cursor (navigation journal) tail (text "c2") ≡ err invalid_cursor_error)
position_at_exact_cursor_exact_example =
    position_at_exact_cursor_exact (navigation journal) tail (text "c2")

replayed_back : Replays journal (back journal clock) tail (started ∷ starting ∷ [])
replayed_back =
    moved refl started-Shows (moved refl starting-Shows (ended {last = (starting, [])} refl))

read_unit_transitions_exact_example :
    read_unit_transitions journal clock (text "a.service") user 1
    ≡ ok (
        take 1 (
          transitions_in journal clock
            (text "a.service")
            max_transition_scan
            (started ∷ starting ∷ [])))
read_unit_transitions_exact_example =
    read_unit_transitions_exact journal clock (text "a.service") user 1 tail
      (started ∷ starting ∷ []) refl replayed_back
