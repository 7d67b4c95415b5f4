-- ===== src/Examples/Systemd.antt =====
-- What the systemd client computes.
use systemd_monitoring_mcp.Base.{
  ◌≡◌, refl, true, false, some, List, [], ◌∷◌, ◌++◌, Result, ok, err, all_by,
}
use systemd_monitoring_mcp.Text.{Text, text, is_empty, trim}
use systemd_monitoring_mcp.Errors.{AppError, internal}
use systemd_monitoring_mcp.Units.{UnitStatus}
use systemd_monitoring_mcp.Systemd.Scopes.{
  combine_scope_rows_by_key, rows_of, IsCombined, combine_scope_rows_by_key-IsCombined,
}
use systemd_monitoring_mcp.Systemd.Messages.{
  is_shown, sanitize_char, sanitize_log_message, sanitize_log_message_sound,
}
use systemd_monitoring_mcp.Examples.Fixtures.{services}

abbrev unit_of : UnitStatus → Text
unit_of service = service.unit

abbrev listed : Result (List UnitStatus) AppError
listed = ok services

abbrev failed : Result (List UnitStatus) AppError
failed = err (internal "internal_error" (text "no session bus"))

combine_scope_rows_by_key-IsCombined_example :
    (rows : List UnitStatus) × (combine_scope_rows_by_key (text "services") unit_of listed failed
      ≡ ok rows)
    × IsCombined
        (text "services")
        unit_of
        rows
        (rows_of (text "services") unit_of listed ++ rows_of (text "services") unit_of failed)
combine_scope_rows_by_key-IsCombined_example =
    combine_scope_rows_by_key-IsCombined (text "services") unit_of listed failed refl

-- A bell between two words
abbrev rung : Text
rung = 97 ∷ 7 ∷ 98 ∷ 32 ∷ []

sanitize_log_message_sound_example :
    (is_empty (text "a b") ≡ false)
    × (trim (text "a b") ≡ text "a b")
    × (all_by is_shown (text "a b") ≡ true)
unfolding sanitize_log_message trim sanitize_char
sanitize_log_message_sound_example = sanitize_log_message_sound (some rung) (text "a b") refl
