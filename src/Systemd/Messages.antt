-- ===== src/Systemd/Messages.antt =====
-- Messages of the journal as they are shown.
use systemd_monitoring_mcp.Base.{
  ℕ, ◌≡◌, refl, ◌||◌, ◌&&◌, not, ◌==◌, Bool, true, false, Option, none, some, [], ◌∷◌, map, arith,
  all_by, and_then, if◌then◌else◌, Bool-cases, inl, inr, &&_both, subst,
}
use systemd_monitoring_mcp.Text.{
  Text, is_empty, is_control, is_whitespace, trim, trim_start, trim_end,
}
use systemd_monitoring_mcp.Text.Laws.{trim_idem}

-- Line breaks and tabs are kept.
abbrev pub is_shown : ℕ → Bool
is_shown c = not (is_control c) || c == 0x0a || c == 0x0d || c == 0x09

unfoldable pub sanitize_char : ℕ → ℕ
unfolding is_control
sanitize_char c =
    if is_control c && not (c == 0x0a) && not (c == 0x0d) && not (c == 0x09) then 0x20 else c

abbrev not_empty : Text → Option Text
not_empty s = if is_empty s then none else some s

unfoldable pub sanitize_log_message : Option Text → Option Text
unfolding trim sanitize_char
sanitize_log_message message = and_then message λ value.
    let trimmed = trim value in
    if is_empty trimmed then none else not_empty (trim (map sanitize_char trimmed))

sanitize_char_shown : (c : ℕ) → is_shown (sanitize_char c) ≡ true
unfolding sanitize_char is_control
sanitize_char_shown c = ground arith

map-shown : (s : Text) → all_by is_shown (map sanitize_char s) ≡ true
map-shown [] = refl
map-shown (c ∷ s) = rw (sanitize_char_shown c) (map-shown s)

trim_start-shown : (s : Text) → all_by is_shown s ≡ true → all_by is_shown (trim_start s) ≡ true
unfolding trim_start
trim_start-shown [] h = refl
trim_start-shown (c ∷ s) h =
    let (hc, hs) = &&_both {a = is_shown c} {b = all_by is_shown s} h in
    elim (Bool-cases (is_whitespace c)) [ inl e ↦ rw e (trim_start-shown s hs) | inr e ↦ rw e h ]

trim_end-shown : (s : Text) → all_by is_shown s ≡ true → all_by is_shown (trim_end s) ≡ true
unfolding trim_end
trim_end-shown [] h = refl
trim_end-shown (c ∷ s) h =
    let (hc, hs) = &&_both {a = is_shown c} {b = all_by is_shown s} h in
    elim (Bool-cases (is_whitespace c && is_empty (trim_end s))) [
      | inl e ↦ rw e
      | inr e ↦ rw (e, hc) (trim_end-shown s hs)
    ]

trim-shown : (s : Text) → all_by is_shown s ≡ true → all_by is_shown (trim s) ≡ true
unfolding trim
trim-shown s h = trim_end-shown (trim_start s) (trim_start-shown s h)

-- A message that is shown is not empty, has no white space around it, and no control character but
-- line breaks and tabs.
pub sanitize_log_message_sound :
    (message : Option Text) (shown : Text)
    → sanitize_log_message message ≡ some shown
    → (is_empty shown ≡ false) × (trim shown ≡ shown) × (all_by is_shown shown ≡ true)
unfolding sanitize_log_message
sanitize_log_message_sound none shown h = absurd (cc h)
sanitize_log_message_sound (some value) shown h =
    let kept = trim (map sanitize_char (trim value)) in
    elim (Bool-cases (is_empty (trim value))) [
      | inl e ↦ absurd (cc (rw (sanitize_log_message, e) at h))
      | inr e ↦ elim (Bool-cases (is_empty kept)) [
        | inl f ↦ absurd (cc (rw (sanitize_log_message, e, f) at h))
        | inr f ↦
            let same : kept ≡ shown = cc (rw (sanitize_log_message, e, f) at h) in
            subst (λ s. (is_empty s ≡ false) × (trim s ≡ s) × (all_by is_shown s ≡ true)) same
              (
                f,
                trim_idem (map sanitize_char (trim value)),
                trim-shown (map sanitize_char (trim value)) (map-shown (trim value)),
              )
      ]
    ]
