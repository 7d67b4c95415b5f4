-- ===== src/Systemd/Journal/Transitions.antt =====
-- `read_unit_transitions`: the latest changes of state of a unit.
use systemd_monitoring_mcp.Base.{
  ℕ, zero, suc, Bool, true, false, not, List, [], ◌∷◌, ◌++◌, Option, none, some, Result, ok, err,
  leb, ◌==◌, if◌then◌else◌, ◌>>=◌, map_err, and_then, or_else, option_map, find_by, length,
}
use systemd_monitoring_mcp.Base.Int.{pos}
use systemd_monitoring_mcp.Text.{Text, text, text_eq}
use systemd_monitoring_mcp.Errors.{AppError, bad_request}
use systemd_monitoring_mcp.Units.{UnitScope, system, user, both, DateTime}
use systemd_monitoring_mcp.Systemd.Messages.{sanitize_log_message}
use systemd_monitoring_mcp.Systemd.Journal.{
  Journal, OpenOptions, Clock, read_journal_field, internal_error,
}
use systemd_monitoring_mcp.Systemd.Journal.Filters.{fits_i64, ok_part}

pub record UnitTransition : Type 0 where
  pub timestamp_utc : Text
  pub kind : Text
  pub message : Option Text
  pub cursor : Option Text

unfoldable pub max_transition_scan : ℕ
max_transition_scan = 10_000

abbrev pub unit_transition_message_ids : List (Text × Text)
unit_transition_message_ids =
    (text "7d4958e842da4a758f6c1cdc7b36dcc5", text "starting")
    ∷ (text "39f53479d3a045ac8e11786248231fbf", text "started")
    ∷ (text "de5b426a63be47a7b6ac3eaac82e2f6f", text "stopping")
    ∷ (text "9d1aaa27d60140bd96365438aad20286", text "stopped")
    ∷ (text "be02cf6855d2428ba40df7e9d022f03d", text "failed")
    ∷ (text "d34d037fff1847e6ae669a370e694725", text "reloading")
    ∷ (text "7b05ebc668384222baa8881179cfda54", text "reloaded")
    ∷ []

unfoldable pub transition_kind : Text → Option Text
unfolding text_eq
transition_kind message_id =
    option_map (λ pair. pair.1)
      (find_by (λ pair. text_eq pair.0 message_id) unit_transition_message_ids)

-- `i64::try_from(…).ok().and_then(DateTime::<Utc>::from_timestamp_micros)`
unfoldable pub time_of : Clock → ℕ → Option DateTime
time_of clock usec = if fits_i64 usec then clock.from_timestamp_micros (pos usec) else none

-- The kind of an entry with this message id, or with none
unfoldable pub kind_of : Option Text → Option Text
unfolding transition_kind
kind_of message_id = and_then message_id transition_kind

-- `entry_unit.as_deref() == Some(unit)`
abbrev pub is_of : Text → Option Text → Bool
is_of unit none = false
is_of unit (some entry_unit) = text_eq entry_unit unit

abbrev concrete_options : UnitScope → Result OpenOptions AppError
concrete_options system = ok (record { system_files = true; current_user_files = false })
concrete_options user = ok (record { system_files = false; current_user_files = true })
concrete_options both =
    err (bad_request "invalid_scope" "transition lookup requires a concrete scope")

module _ {J : Type 0} (journal : Journal J) (clock : Clock) where
  -- A round ends by `continue`, which is `none`, or with a transition. This is what is left of one for
  -- an entry of the unit, and for one with a time.
  abbrev pub with_time : J → Text → Option DateTime → Result (Option UnitTransition) AppError
  with_time reader kind none = ok none
  with_time reader kind (some timestamp) = do
    message ← read_journal_field journal reader (text "MESSAGE")
    ok (
        some (record {
          timestamp_utc = clock.rfc3339_millis timestamp;
          kind = kind;
          message = sanitize_log_message message;
          cursor = ok_part (journal.cursor reader);
        }))

  unfoldable pub read_transition : J → Text → Result (Option UnitTransition) AppError
  unfolding read_journal_field sanitize_log_message
  read_transition reader kind = do
    usec ←
        map_err (λ e. internal_error (text "failed to read transition timestamp: " ++ e))
          (journal.timestamp_usec reader)
    with_time reader kind (time_of clock usec)

  -- Both fields are read whichever is used.
  unfoldable pub read_unit_round : Text → J → Text → Result (Option UnitTransition) AppError
  unfolding read_journal_field text_eq read_transition
  read_unit_round unit reader kind = do
    system_unit ← read_journal_field journal reader (text "UNIT")
    user_unit ← read_journal_field journal reader (text "USER_UNIT")
    if not (is_of unit (or_else system_unit user_unit))
        then ok none
        else read_transition reader kind

  -- With an entry of a known kind
  abbrev pub with_kind : Text → J → Option Text → Result (Option UnitTransition) AppError
  with_kind unit reader none = ok none
  with_kind unit reader (some kind) = read_unit_round unit reader kind

  unfoldable pub read_transition_round : Text → J → Result (Option UnitTransition) AppError
  unfolding read_journal_field
  read_transition_round unit reader = do
    message_id ← read_journal_field journal reader (text "MESSAGE_ID")
    with_kind unit reader (kind_of message_id)

  abbrev pub back : J → Result (ℕ × J) AppError
  back reader =
      map_err (λ e. internal_error (text "failed to read transition journal: " ++ e))
        (journal.previous reader)

  -- The loop over `0..rounds`
  unfoldable pub scan_transitions :
      Text → ℕ → ℕ → J → List UnitTransition → Result (List UnitTransition) AppError
  scan_transitions unit limit zero reader transitions = ok transitions
  scan_transitions unit limit (suc rounds) reader transitions =
      elim (leb limit (length transitions)) [
        | true ↦ ok transitions
        | false ↦ elim (back reader) [
          | err e ↦ err e
          | ok (advanced, moved) ↦ elim (advanced == 0) [
            | true ↦ ok transitions
            | false ↦ elim (read_transition_round unit moved) [
              | err e ↦ err e
              | ok none ↦ scan_transitions unit limit rounds moved transitions
              | ok (some t) ↦ scan_transitions unit limit rounds moved (transitions ++ t ∷ [])
            ]
          ]
        ]
      ]

  abbrev pub open_at_tail : UnitScope → Result J AppError
  open_at_tail scope = do
    options ← concrete_options scope
    reader ←
        map_err (λ e. internal_error (text "failed to open transition journal: " ++ e))
          (journal.open_with options)
    map_err (λ e. internal_error (text "failed to seek transition journal tail: " ++ e))
        (journal.seek_tail reader)

  unfoldable pub read_unit_transitions :
      Text → UnitScope → ℕ → Result (List UnitTransition) AppError
  unfolding scan_transitions max_transition_scan
  read_unit_transitions unit scope limit = do
    reader ← open_at_tail scope
    scan_transitions unit limit max_transition_scan reader []
