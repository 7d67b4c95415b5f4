-- ===== src/Text/Laws.antt =====
-- Laws of text equality, trimming and ASCII case.
use systemd_monitoring_mcp.Base.{
  ℕ, ◌≡◌, refl, ap, ap₂, ◌∙◌, ◌↔◌, inl, inr, true, false, ◌&&◌, [], ◌∷◌, arith, Bool-cases, leb,
}
use systemd_monitoring_mcp.Text.{
  Text, text_eq, is_empty, is_whitespace, lower_char, to_ascii_lowercase, trim_start, trim_end,
  trim, eq_ignore_ascii_case,
}

pub text_eq_refl : (s : Text) → text_eq s s ≡ true
unfolding text_eq
text_eq_refl [] = refl
text_eq_refl (c ∷ s) = ground (arith, text_eq_refl s)

pub text_eq→≡ : (s t : Text) → text_eq s t ≡ true → s ≡ t
unfolding text_eq
text_eq→≡ [] [] h = refl
text_eq→≡ [] (d ∷ t) h = cc
text_eq→≡ (c ∷ s) [] h = cc
text_eq→≡ (c ∷ s) (d ∷ t) h = ground (arith, text_eq→≡ s t)

-- `==` decides equality.
pub text_eq_iff : (s t : Text) → (text_eq s t ≡ true) ↔ (s ≡ t)
text_eq_iff s t = (text_eq→≡ s t, λ e. rw e (text_eq_refl t))

pub lower_char_idem : (c : ℕ) → lower_char (lower_char c) ≡ lower_char c
unfolding lower_char
lower_char_idem c = ground arith

pub lowercase_idem : (s : Text) → to_ascii_lowercase (to_ascii_lowercase s) ≡ to_ascii_lowercase s
unfolding to_ascii_lowercase
lowercase_idem [] = refl
lowercase_idem (c ∷ s) = ap₂ ◌∷◌ (lower_char_idem c) (lowercase_idem s)

pub eq_ignore_ascii_case-lowercase :
    (s t : Text) → eq_ignore_ascii_case s (to_ascii_lowercase t) ≡ eq_ignore_ascii_case s t
unfolding eq_ignore_ascii_case
eq_ignore_ascii_case-lowercase s t = rw (lowercase_idem t)

pub whitespace-lower_char : (c : ℕ) → is_whitespace (lower_char c) ≡ is_whitespace c
unfolding is_whitespace lower_char
whitespace-lower_char c = elim (Bool-cases (leb 65 c && leb c 90)) [
  | inl e ↦ ground (arith, e)
  | inr e ↦ rw e
]

trim_end_idem : (s : Text) → trim_end (trim_end s) ≡ trim_end s
unfolding trim_end
trim_end_idem [] = refl
trim_end_idem (c ∷ s) = elim (Bool-cases (is_whitespace c && is_empty (trim_end s))) [
  | inl e ↦ rw e
  | inr e ↦ rw e (rw (trim_end_idem s) (rw e))
]

-- A text that starts with no white space.
abbrev Begins : Text → Type 0
Begins [] = Unit
Begins (c ∷ s) = is_whitespace c ≡ false

Begins-trim_start : (s : Text) → Begins (trim_start s)
unfolding trim_start
Begins-trim_start [] = tt
Begins-trim_start (c ∷ s) = elim (Bool-cases (is_whitespace c)) [
  | inl e ↦ rw e (Begins-trim_start s)
  | inr e ↦ rw e e
]

trim_start-Begins : (s : Text) → Begins s → trim_start s ≡ s
unfolding trim_start
trim_start-Begins [] h = refl
trim_start-Begins (c ∷ s) h = rw h

Begins-trim_end : (s : Text) → Begins s → Begins (trim_end s)
unfolding trim_end
Begins-trim_end [] h = tt
Begins-trim_end (c ∷ s) h = rw h h

-- Trimming a trimmed text changes nothing.
pub trim_idem : (s : Text) → trim (trim s) ≡ trim s
unfolding trim
trim_idem s =
    ap trim_end (
      trim_start-Begins (trim_end (trim_start s))
        (Begins-trim_end (trim_start s) (Begins-trim_start s)))
    ∙ trim_end_idem (trim_start s)

trim_start-lowercase :
    (s : Text) → trim_start (to_ascii_lowercase s) ≡ to_ascii_lowercase (trim_start s)
unfolding trim_start to_ascii_lowercase
trim_start-lowercase [] = refl
trim_start-lowercase (c ∷ s) = elim (Bool-cases (is_whitespace c)) [
  | inl e ↦ rw (whitespace-lower_char c, e) (trim_start-lowercase s)
  | inr e ↦ rw (whitespace-lower_char c, e)
]

is_empty-lowercase : (s : Text) → is_empty (to_ascii_lowercase s) ≡ is_empty s
unfolding to_ascii_lowercase
is_empty-lowercase [] = refl
is_empty-lowercase (c ∷ s) = refl

trim_end-lowercase : (s : Text) → trim_end (to_ascii_lowercase s) ≡ to_ascii_lowercase (trim_end s)
unfolding trim_end to_ascii_lowercase
trim_end-lowercase [] = refl
trim_end-lowercase (c ∷ s) = elim (Bool-cases (is_whitespace c && is_empty (trim_end s))) [
  | inl e ↦ rw (whitespace-lower_char c, trim_end-lowercase s, is_empty-lowercase (trim_end s), e)
  | inr e ↦ rw (whitespace-lower_char c, trim_end-lowercase s, is_empty-lowercase (trim_end s), e)
]

-- Trimming and lowering the case commute.
pub trim-lowercase : (s : Text) → trim (to_ascii_lowercase s) ≡ to_ascii_lowercase (trim s)
unfolding trim
trim-lowercase s = ap trim_end (trim_start-lowercase s) ∙ trim_end-lowercase (trim_start s)
