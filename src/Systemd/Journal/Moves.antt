-- ===== src/Systemd/Journal/Moves.antt =====
-- The transitions that a unit is shown with.
use systemd_monitoring_mcp.Base.{
  ℕ, zero, suc, ◌+◌, ◌≡◌, sym, ap, ◌∙◌, arith, inl, inr, true, false, List, [], ◌∷◌, ◌++◌, Option,
  none, some, ok, leb, ◌==◌, if◌then◌else◌, and_then, or_else, option_map, length, length-append,
  take, filter_map, filter_map-some, filter_map-none, Bool-cases, Option-cases,
}
use mathlib.Core.List.{append-nil, append_assoc}
use systemd_monitoring_mcp.Text.{Text, text}
use systemd_monitoring_mcp.Units.{UnitScope, DateTime}
use systemd_monitoring_mcp.Systemd.Messages.{sanitize_log_message}
use systemd_monitoring_mcp.Systemd.Journal.{Journal, Clock}
use systemd_monitoring_mcp.Systemd.Journal.Rounds.{field_read}
use systemd_monitoring_mcp.Systemd.Journal.Records.{JournalRecord, Shows, Replays, ended, moved}
use systemd_monitoring_mcp.Systemd.Journal.Transitions.{
  with_time, with_kind, UnitTransition, max_transition_scan, kind_of, time_of, is_of,
  read_transition, read_unit_round, read_transition_round, back, scan_transitions, open_at_tail,
  read_unit_transitions,
}

module _ (clock : Clock) where
  abbrev pub made_transition : JournalRecord → Text → DateTime → UnitTransition
  made_transition r kind timestamp = record {
    timestamp_utc = clock.rfc3339_millis timestamp;
    kind = kind;
    message = sanitize_log_message (r.field (text "MESSAGE"));
    cursor = r.cursor;
  }

  abbrev of_unit : Text → JournalRecord → Text → Option UnitTransition
  of_unit unit r kind =
      if is_of unit (or_else (r.field (text "UNIT")) (r.field (text "USER_UNIT")))
      then option_map (made_transition r kind) (time_of clock r.timestamp)
      else none

  -- An entry with a known message id, of the unit, at a time that chrono has
  abbrev pub transition_of : Text → JournalRecord → Option UnitTransition
  transition_of unit r = and_then (kind_of (r.field (text "MESSAGE_ID"))) (of_unit unit r)

module _ {J : Type 0} (journal : Journal J) (clock : Clock) (unit : Text) where
  read_transition_of :
      (reader : J) (r : JournalRecord) (kind : Text)
      → Shows journal reader r
      → read_transition journal clock reader kind
        ≡ ok (option_map (made_transition clock r kind) (time_of clock r.timestamp))
  unfolding read_transition
  read_transition_of reader r kind shows =
      let message = field_read journal clock shows (text "MESSAGE") in
      let made = option_map (made_transition clock r kind) in
      elim (Option-cases (time_of clock r.timestamp)) [
        | inl e ↦
            let left : read_transition journal clock reader kind ≡ ok none =
              rw (read_transition, shows.timestamp) (ap (with_time journal clock reader kind) e) in
            left ∙ ap (λ t. ok (made t)) (sym e)
        | inr (t, e) ↦
            let left : read_transition journal clock reader kind
                ≡ ok (some (made_transition clock r kind t)) =
              rw (read_transition, shows.timestamp)
                (ap (with_time journal clock reader kind) e ∙ rw (message, shows.cursor)) in
            left ∙ ap (λ t. ok (made t)) (sym e)
      ]

  read_unit_round_of :
      (reader : J) (r : JournalRecord) (kind : Text)
      → Shows journal reader r
      → read_unit_round journal clock unit reader kind ≡ ok (of_unit clock unit r kind)
  unfolding read_unit_round
  read_unit_round_of reader r kind shows =
      let system_unit = field_read journal clock shows (text "UNIT") in
      let user_unit = field_read journal clock shows (text "USER_UNIT") in
      let entry_unit = or_else (r.field (text "UNIT")) (r.field (text "USER_UNIT")) in
      let moved = option_map (made_transition clock r kind) (time_of clock r.timestamp) in
      elim (Bool-cases (is_of unit entry_unit)) [
        | inl f ↦
            let left : read_unit_round journal clock unit reader kind
                ≡ read_transition journal clock reader kind =
              rw (read_unit_round, system_unit, user_unit, f) in
            left
            ∙ read_transition_of reader r kind shows
            ∙ ap (λ b. ok (if b then moved else none)) (sym f)
        | inr f ↦
            let left : read_unit_round journal clock unit reader kind ≡ ok none =
              rw (read_unit_round, system_unit, user_unit, f) in
            left ∙ ap (λ b. ok (if b then moved else none)) (sym f)
      ]

  read_transition_round_of :
      (reader : J) (r : JournalRecord)
      → Shows journal reader r
      → read_transition_round journal clock unit reader ≡ ok (transition_of clock unit r)
  unfolding read_transition_round
  read_transition_round_of reader r shows =
      let message_id = field_read journal clock shows (text "MESSAGE_ID") in
      let of_kind = λ (kind : Option Text). ok (and_then kind (of_unit clock unit r)) in
      elim (Option-cases (kind_of (r.field (text "MESSAGE_ID")))) [
        | inl e ↦
            let left : read_transition_round journal clock unit reader ≡ ok none =
              rw (read_transition_round, message_id) (ap (with_kind journal clock unit reader) e) in
            left ∙ ap of_kind (sym e)
        | inr (kind, e) ↦
            let left : read_transition_round journal clock unit reader
                ≡ read_unit_round journal clock unit reader kind =
              rw (read_transition_round, message_id) (ap (with_kind journal clock unit reader) e) in
            left ∙ read_unit_round_of reader r kind shows ∙ ap of_kind (sym e)
      ]

  abbrev pub transitions_in : ℕ → List JournalRecord → List UnitTransition
  transitions_in rounds records = filter_map (transition_of clock unit) (take rounds records)

  scan_transitions_exact :
      (limit rounds n : ℕ) (reader : J) (records : List JournalRecord) (found : List UnitTransition)
      → Replays journal (back journal clock) reader records
      → n + length found ≡ limit
      → scan_transitions journal clock unit limit rounds reader found
        ≡ ok (found ++ take n (transitions_in rounds records))
  unfolding scan_transitions
  scan_transitions_exact limit zero zero reader records found r h = ap ok (sym (append-nil found))
  scan_transitions_exact limit zero (suc n) reader records found r h =
      ap ok (sym (append-nil found))
  scan_transitions_exact limit (suc rounds) zero reader records found r h =
      let full : leb limit (length found) ≡ true = ground arith in
      rw (scan_transitions, full) (ap ok (sym (append-nil found)))
  scan_transitions_exact limit (suc rounds) (suc n) reader [] found (ended e) h =
      let room : leb limit (length found) ≡ false = ground arith in
      rw (scan_transitions, room, e) (ap ok (sym (append-nil found)))
  scan_transitions_exact limit (suc rounds) (suc n) reader (r ∷ rest) found
        (moved {reached = reached} {steps = steps} e shows later) h =
      let room : leb limit (length found) ≡ false = ground arith in
      let z : (suc steps == 0) ≡ false = ground arith in
      let read = read_transition_round_of reached r shows in
      elim (Option-cases (transition_of clock unit r)) [
        | inl f ↦
            let same = filter_map-none (transition_of clock unit) r (take rounds rest) f in
            rw (scan_transitions, room, e, z, read, f)
              (scan_transitions_exact limit rounds (suc n) reached rest found later h
                ∙ ap (λ xs. ok (found ++ take (suc n) xs)) (sym same))
        | inr (t, f) ↦
            let same = filter_map-some (transition_of clock unit) r (take rounds rest) t f in
            rw (scan_transitions, room, e, z, read, f)
              (scan_transitions_exact limit rounds n reached rest (found ++ t ∷ []) later
                  (omega (arith, length-append found (t ∷ [])))
                ∙ ap ok (append_assoc found (t ∷ []) (take n (transitions_in rounds rest)))
                ∙ ap (λ xs. ok (found ++ take (suc n) xs)) (sym same))
      ]

  -- In a journal that is read back from its end without error, the transitions of a unit are those
  -- among the last 10,000 entries, newest first: entries of the unit with the message id of a
  -- transition, as many as were asked for.
  pub read_unit_transitions_exact :
      (scope : UnitScope) (limit : ℕ) (reader : J) (records : List JournalRecord)
      → open_at_tail journal clock scope ≡ ok reader
      → Replays journal (back journal clock) reader records
      → read_unit_transitions journal clock unit scope limit
        ≡ ok (take limit (transitions_in max_transition_scan records))
  unfolding read_unit_transitions
  read_unit_transitions_exact scope limit reader records opened r =
      rw (read_unit_transitions, opened)
        (scan_transitions_exact limit max_transition_scan limit reader records [] r (omega arith))
