-- ===== src/Systemd/Journal.antt =====
-- systemd_client.rs: reading the journal. libsystemd's reader, the regex library and chrono are
-- parameters; what they answer is what the code sees of them.
pub mod Cursor
pub mod Filters
pub mod Scan
pub mod Preparation
pub mod Records
pub mod Wanted
pub mod Rounds
pub mod Answer
pub mod Termination
pub mod Transitions
pub mod Moves
use systemd_monitoring_mcp.Base.{
  ℕ, ◌-◌, ◌&&◌, ◌++◌, ◌∷◌, [], Bool, true, false, Option, none, some, Result, ok, err, leb,
  if◌then◌else◌, ◌>>=◌, map_err, ok_or, or_else, option_map, take,
}
use systemd_monitoring_mcp.Base.Int.{ℤ, pos, negsuc}
use systemd_monitoring_mcp.Text.{
  Text, text, is_empty, trim, starts_with, ends_with, contains, byte_len,
}
use systemd_monitoring_mcp.Errors.{AppError, bad_request, internal}
use systemd_monitoring_mcp.Units.{UnitScope, system, user, both, DateTime}

-- `AppError::internal` of a message
abbrev pub internal_error : Text → AppError
internal_error message = internal "internal_error" message

-- `journal::OpenOptions`: whether only the system's or only the user's files are read
pub record OpenOptions : Type 0 where
  pub system_files : Bool
  pub current_user_files : Bool

-- The state of a `systemd::Journal` is any type `J`. A call fails with the text of an error;
-- `next` and `previous` say by how many entries they moved.
pub record Journal (J : Type 0) : Type 0 where
  pub open_with : OpenOptions → Result J Text
  pub seek_cursor : J → Text → Result J Text
  pub seek_realtime_usec : J → ℕ → Result J Text
  pub seek_head : J → Result J Text
  pub seek_tail : J → Result J Text
  pub next : J → Result (ℕ × J) Text
  pub previous : J → Result (ℕ × J) Text
  pub test_cursor : J → Text → Result Bool Text
  pub timestamp_usec : J → Result ℕ Text
  -- The field's value, decoded lossily: an absent field and one without a value are `none`.
  pub get_data : J → Text → Result (Option Text) Text
  pub cursor : J → Result Text Text

-- chrono
pub record Clock : Type 0 where
  pub timestamp_micros : DateTime → ℤ
  pub from_timestamp_micros : ℤ → Option DateTime
  -- `to_rfc3339_opts(SecondsFormat::Millis, true)`
  pub rfc3339_millis : DateTime → Text

-- `Regex::new`, with `is_match` of the result
abbrev pub RegexNew : Type 0
RegexNew = Text → Option (Text → Bool)

pub data GrepMatcher : Type 0 where
  substring : Text → GrepMatcher
  regex : (Text → Bool) → GrepMatcher

-- `&s[1..s.len() - 1]`
abbrev init : Text → Text
init [] = []
init (c ∷ []) = []
init (c ∷ d ∷ s) = c ∷ init (d ∷ s)

abbrev inner : Text → Text
inner [] = []
inner (c ∷ s) = init s

abbrev is_slashed : Text → Bool
is_slashed s = leb 2 (byte_len s) && starts_with s (text "/") && ends_with s (text "/")

abbrev pub invalid_grep : AppError
invalid_grep = bad_request "invalid_grep" "grep regex pattern is invalid"

abbrev regex_matcher : RegexNew → Text → Result (Option GrepMatcher) AppError
regex_matcher regex_new pattern = do
  is_match ← ok_or (regex_new pattern) invalid_grep
  ok (some (regex is_match))

unfoldable pub build_grep_matcher : RegexNew → Option Text → Result (Option GrepMatcher) AppError
unfolding trim byte_len starts_with ends_with
build_grep_matcher regex_new none = ok none
build_grep_matcher regex_new (some grep) =
    let trimmed = trim grep in
    if is_empty trimmed
    then ok none
    else if is_slashed trimmed
    then regex_matcher regex_new (inner trimmed)
    else ok (some (substring trimmed))

unfoldable pub matches_grep : Option GrepMatcher → Text → Bool
unfolding contains
matches_grep none message = true
matches_grep (some (substring value)) message = contains message value
matches_grep (some (regex is_match)) message = is_match message

unfoldable pub select_unit_for_scope : UnitScope → Option Text → Option Text → Option Text
select_unit_for_scope system system_unit user_unit = system_unit
select_unit_for_scope user system_unit user_unit = user_unit
select_unit_for_scope both system_unit user_unit = or_else system_unit user_unit

unfoldable pub read_journal_field :
    {J : Type 0} → Journal J → J → Text → Result (Option Text) AppError
read_journal_field journal reader field =
    map_err (λ e. internal_error (text "failed to read journald field " ++ field ++ text ": " ++ e))
      (journal.get_data reader field)
