-- ===== src/Utils/Choices.antt =====
-- Priorities: aliases, case and white space.
use systemd_monitoring_mcp.Base.{
  Bool, ok_or, ◌>>=◌, ◌≡◌, refl, ap, subst, ◌∙◌, true, Option, none, some, List, [], ◌∷◌, ◌++◌, map,
  arith, ok, err, option_map, All, Bool-cases, Option-cases, inl, inr, if◌then◌else◌,
}
use systemd_monitoring_mcp.Text.{Text, text, trim, to_ascii_lowercase, one_of, is_empty, text_eq}
use systemd_monitoring_mcp.Utils.{invalid_priority, normalize_priority, first_arm, priority_arms}

first_arm-All :
    (P : Text → Type 0) (s value : Text) (arms : List (List Text × Text))
    → All (λ arm. P arm.1) arms
    → first_arm s arms ≡ some value
    → P value
unfolding first_arm
first_arm-All P s value [] h e = cc
first_arm-All P s value ((literals, v) ∷ arms) h e = elim (Bool-cases (one_of s literals)) [
  | inl hit ↦ subst P (ground (arith, hit, e)) h.0
  | inr miss ↦ first_arm-All P s value arms h.1 (rw miss at e)
]

abbrev pub priorities : List Text
priorities =
    text "0" ∷ text "1" ∷ text "2" ∷ text "3" ∷ text "4" ∷ text "5" ∷ text "6" ∷ text "7" ∷ []

abbrev IsSettled : Text → Type 0
IsSettled q = (one_of q priorities ≡ true) × (normalize_priority (some q) ≡ ok (some q))

arms-IsSettled : All (λ (arm : List Text × Text). IsSettled arm.1) priority_arms
unfolding normalize_priority first_arm one_of trim to_ascii_lowercase
arms-IsSettled = (
  (refl, refl),
  (
    (refl, refl),
    (
      (refl, refl),
      ((refl, refl), ((refl, refl), ((refl, refl), ((refl, refl), ((refl, refl), tt))))),
    ),
  ),
)

accepted_arm :
    (empty : Bool) (arm : Option Text) {priority : Text}
    → (if empty
        then err invalid_priority
        else (ok_or arm invalid_priority >>= λ mapped. ok (some mapped)))
      ≡ ok (some priority)
    → arm ≡ some priority
accepted_arm empty arm h = ground arith

accepted_priority :
    (value priority : Text)
    → normalize_priority (some value) ≡ ok (some priority)
    → IsSettled priority
unfolding normalize_priority
accepted_priority value priority h =
    let normalized = to_ascii_lowercase (trim value) in
    let hit : first_arm normalized priority_arms ≡ some priority =
      accepted_arm (is_empty normalized) (first_arm normalized priority_arms) h in
    first_arm-All IsSettled normalized priority priority_arms arms-IsSettled hit

-- An accepted priority is one of the digits 0 to 7.
pub accepted_priority_known :
    (value priority : Text)
    → normalize_priority (some value) ≡ ok (some priority)
    → one_of priority priorities ≡ true
accepted_priority_known value priority h = (accepted_priority value priority h).0

-- The names of the syslog priorities, with their digits
abbrev pub priority_names : List (Text × Text)
priority_names =
    (text "0", text "0")
    ∷ (text "emerg", text "0")
    ∷ (text "panic", text "0")
    ∷ (text "1", text "1")
    ∷ (text "alert", text "1")
    ∷ (text "2", text "2")
    ∷ (text "crit", text "2")
    ∷ (text "critical", text "2")
    ∷ (text "3", text "3")
    ∷ (text "err", text "3")
    ∷ (text "error", text "3")
    ∷ (text "4", text "4")
    ∷ (text "warning", text "4")
    ∷ (text "warn", text "4")
    ∷ (text "5", text "5")
    ∷ (text "notice", text "5")
    ∷ (text "6", text "6")
    ∷ (text "info", text "6")
    ∷ (text "informational", text "6")
    ∷ (text "7", text "7")
    ∷ (text "debug", text "7")
    ∷ []

-- What a name stands for
abbrev pub meaning : Text → List (Text × Text) → Option Text
meaning s [] = none
meaning s ((name, digit) ∷ names) = if text_eq s name then some digit else meaning s names

abbrev named : List (List Text × Text) → List (Text × Text)
named [] = []
named ((literals, digit) ∷ arms) = map (λ literal. (literal, digit)) literals ++ named arms

meaning-literals :
    (s digit : Text) (literals : List Text) (names : List (Text × Text))
    → meaning s (map (λ literal. (literal, digit)) literals ++ names)
      ≡ (if one_of s literals then some digit else meaning s names)
unfolding one_of
meaning-literals s digit [] names = refl
meaning-literals s digit (l ∷ ls) names = ground (arith, meaning-literals s digit ls names)

meaning-named :
    (s : Text) (arms : List (List Text × Text)) → meaning s (named arms) ≡ first_arm s arms
unfolding first_arm
meaning-named s [] = refl
meaning-named s ((literals, digit) ∷ arms) =
    meaning-literals s digit literals (named arms)
    ∙ ap (λ r. if one_of s literals then some digit else r) (meaning-named s arms)

-- No name is empty.
normalized_meaning :
    (s : Text)
    → (if is_empty s
        then err invalid_priority
        else (ok_or (first_arm s priority_arms) invalid_priority >>= λ mapped. ok (some mapped)))
      ≡ ok_or (option_map some (meaning s priority_names)) invalid_priority
unfolding text_eq
normalized_meaning [] = refl
normalized_meaning (c ∷ cs) = elim (Option-cases (first_arm (c ∷ cs) priority_arms)) [
  | inl e ↦
      let same : meaning (c ∷ cs) priority_names ≡ none =
        meaning-named (c ∷ cs) priority_arms ∙ e in
      rw (e, same) refl
  | inr (p, e) ↦
      let same : meaning (c ∷ cs) priority_names ≡ some p =
        meaning-named (c ∷ cs) priority_arms ∙ e in
      rw (e, same) refl
]

-- A priority is read by the table of the syslog names and digits, after the white space around it is
-- cut off and without regard to case; what the table does not know is refused with the error for
-- priorities. What is accepted is a digit from 0 to 7, which validation passes on unchanged.
pub normalize_priority_sound :
    (value : Text)
    → (normalize_priority (some value)
        ≡ ok_or
            (option_map some (meaning (to_ascii_lowercase (trim value)) priority_names))
            invalid_priority)
      × ((priority : Text)
          → normalize_priority (some value) ≡ ok (some priority)
          → (one_of priority priorities ≡ true)
            × (normalize_priority (some priority) ≡ ok (some priority)))
unfolding normalize_priority
normalize_priority_sound value =
    (normalized_meaning (to_ascii_lowercase (trim value)), accepted_priority value)
