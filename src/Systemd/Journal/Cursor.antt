-- ===== src/Systemd/Journal/Cursor.antt =====
-- Where a page continues: at the exact entry of a cursor.
use systemd_monitoring_mcp.Base.{
  ℕ, ◌≡◌, ◌⊎◌, inl, inr, Bool, true, false, Result, ok, err, ◌==◌, if◌then◌else◌, ◌>>=◌, map_err,
  Bool-cases, Result-cases,
}
use systemd_monitoring_mcp.Text.{Text}
use systemd_monitoring_mcp.Errors.{AppError, bad_request}
use systemd_monitoring_mcp.Systemd.Journal.{Journal}

-- The trait `JournalCursorNavigation`
pub record JournalCursorNavigation (J : Type 0) : Type 0 where
  pub seek_to_cursor : J → Text → Result J Text
  pub select_sought_entry : J → Result (ℕ × J) Text
  pub selected_entry_matches : J → Text → Result Bool Text

unfoldable pub invalid_cursor_error : AppError
invalid_cursor_error = bad_request "invalid_cursor" "journal cursor is invalid or expired"

-- `.map_err(|_| invalid_cursor_error())`
abbrev or_invalid {ℓ} : {A : Type ℓ} → Result A Text → Result A AppError
or_invalid m = map_err (λ e. invalid_cursor_error) m

module _ {J : Type 0} where
  -- Its implementation for `systemd::Journal`
  unfoldable pub navigation : Journal J → JournalCursorNavigation J
  navigation journal = record {
    seek_to_cursor = journal.seek_cursor;
    select_sought_entry = journal.next;
    selected_entry_matches = journal.test_cursor;
  }

  unfoldable pub position_at_exact_cursor : JournalCursorNavigation J → J → Text → Result J AppError
  position_at_exact_cursor nav reader cursor = do
    sought ← or_invalid (nav.seek_to_cursor reader cursor)
    (advanced, selected) ← or_invalid (nav.select_sought_entry sought)
    if advanced == 0 then err invalid_cursor_error else do
      exact ← or_invalid (nav.selected_entry_matches selected cursor)
      if exact then ok selected else err invalid_cursor_error

  -- Where reading continues, the reader stands on the entry of the cursor itself, which it reached by
  -- seeking and one step that moved; whatever else happens is reported as one and the same error.
  pub position_at_exact_cursor_exact :
      (nav : JournalCursorNavigation J) (reader : J) (cursor : Text)
      → ((selected : J) × (sought : J) × (advanced : ℕ) × (position_at_exact_cursor nav reader
              cursor
            ≡ ok selected)
          × (nav.seek_to_cursor reader cursor ≡ ok sought)
          × (nav.select_sought_entry sought ≡ ok (advanced, selected))
          × ((advanced == 0) ≡ false)
          × (nav.selected_entry_matches selected cursor ≡ ok true))
        ⊎ (position_at_exact_cursor nav reader cursor ≡ err invalid_cursor_error)
  unfolding position_at_exact_cursor
  position_at_exact_cursor_exact nav reader cursor =
      elim (Result-cases (nav.seek_to_cursor reader cursor)) [
        | inr (e, h) ↦ inr (rw (position_at_exact_cursor, h))
        | inl (sought, h) ↦ elim (Result-cases (nav.select_sought_entry sought)) [
          | inr (e, g) ↦ inr (rw (position_at_exact_cursor, h, g))
          | inl (moved, g) ↦ elim (Bool-cases (moved.0 == 0)) [
            | inl z ↦ inr (rw (position_at_exact_cursor, h, g, z))
            | inr z ↦ elim (Result-cases (nav.selected_entry_matches moved.1 cursor)) [
              | inr (e, m) ↦ inr (rw (position_at_exact_cursor, h, g, z, m))
              | inl (true, m) ↦
                  inl (
                    moved.1,
                    sought,
                    moved.0,
                    rw (position_at_exact_cursor, h, g, z, m),
                    h,
                    g,
                    z,
                    m,
                  )
              | inl (false, m) ↦ inr (rw (position_at_exact_cursor, h, g, z, m))
            ]
          ]
        ]
      ]
