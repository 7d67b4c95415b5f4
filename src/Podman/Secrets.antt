-- ===== src/Podman/Secrets.antt =====
-- Which arguments of a command are hidden, and which are shown.
use systemd_monitoring_mcp.Base.{
  ◌≡◌, refl, ap, ◌∙◌, sym, Bool, true, false, not, ◌&&◌, List, [], ◌∷◌, ◌++◌, map, none, some,
  option_map, unwrap_or, any_by, All, Option-cases, inl, inr, arith,
}
use systemd_monitoring_mcp.Text.{Text, text, contains, to_ascii_lowercase}
use systemd_monitoring_mcp.Json.{Json, null, string, array, Items, nil, cons, as_str, items}
use systemd_monitoring_mcp.Podman.Argv.{
  dashed, trim_dashes, redacted, is_sensitive_argument_name, name_before, is_flag, sanitize_plain,
  sanitize_argument, sanitize_items, sanitize_argv,
}

-- The words of credentials
abbrev pub credential_words : List Text
credential_words =
    text "password"
    ∷ text "secret"
    ∷ text "token"
    ∷ text "credential"
    ∷ text "authorization"
    ∷ text "bearer"
    ∷ text "api-key"
    ∷ text "apikey"
    ∷ []

-- Whether a name has such a word in it, in any case, and with hyphens or underscores
abbrev pub is_credential : Text → Bool
is_credential name =
    any_by (contains (map dashed (to_ascii_lowercase (trim_dashes name)))) credential_words

-- Whether an argument assigns to a credential
abbrev pub is_assignment : Text → Bool
is_assignment s = unwrap_or (option_map is_credential (name_before s)) false

-- Whether an argument is the flag of a credential whose value is the next argument
abbrev pub takes_value : Text → Bool
takes_value s = is_credential s && is_flag s && not (is_assignment s)

-- Two lists of arguments that differ in secrets only. The Boolean says whether the argument before is
-- the flag of a credential; then this one is its value, and so no such flag itself.
pub data SameButSecrets : Bool → Items → Items → Type 0 where
  same_end : {after_flag : Bool} → SameButSecrets after_flag nil nil
  -- Any two values of such a flag
  same_value :
      {s t : Text} {xs ys : Items}
      → takes_value s ≡ false
      → takes_value t ≡ false
      → SameButSecrets false xs ys
      → SameButSecrets true (cons (string s) xs) (cons (string t) ys)
  -- Any two assignments to one credential
  same_assignment :
      {name s t : Text} {xs ys : Items}
      → is_credential name ≡ true
      → name_before s ≡ some name
      → name_before t ≡ some name
      → SameButSecrets false xs ys
      → SameButSecrets false (cons (string s) xs) (cons (string t) ys)
  -- Any two texts with such a word that are neither flags nor assignments
  same_text :
      {s t : Text} {xs ys : Items}
      → is_credential s ≡ true
      → is_credential t ≡ true
      → is_flag s ≡ false
      → is_flag t ≡ false
      → name_before s ≡ none
      → name_before t ≡ none
      → SameButSecrets false xs ys
      → SameButSecrets false (cons (string s) xs) (cons (string t) ys)
  same_argument :
      {s : Text} {xs ys : Items}
      → SameButSecrets (takes_value s) xs ys
      → SameButSecrets false (cons (string s) xs) (cons (string s) ys)
  -- Values that are no strings
  same_other :
      {after_flag : Bool} {x y : Json} {xs ys : Items}
      → as_str x ≡ none
      → as_str y ≡ none
      → SameButSecrets false xs ys
      → SameButSecrets after_flag (cons x xs) (cons y ys)

credential_lem : (name : Text) → is_sensitive_argument_name name ≡ is_credential name
unfolding is_sensitive_argument_name
credential_lem name = ground arith

takes_value_lem : (s : Text) → (sanitize_argument false s).1 ≡ takes_value s
unfolding sanitize_argument sanitize_plain
takes_value_lem s = elim (Option-cases (name_before s)) [
  | inl e ↦ ground (arith, e, credential_lem s)
  | inr (name, e) ↦ ground (arith, e, credential_lem s, credential_lem name)
]

sanitize_assignment :
    (name s : Text)
    → is_credential name ≡ true
    → name_before s ≡ some name
    → sanitize_argument false s ≡ (name ++ text "=[REDACTED]", false)
unfolding sanitize_argument
sanitize_assignment name s n e =
    let known : is_sensitive_argument_name name ≡ true = credential_lem name ∙ n in
    rw (sanitize_argument, e, known)

sanitize_text :
    (s : Text)
    → is_credential s ≡ true
    → is_flag s ≡ false
    → name_before s ≡ none
    → sanitize_argument false s ≡ (redacted, false)
unfolding sanitize_argument sanitize_plain
sanitize_text s a c e =
    let known : is_sensitive_argument_name s ≡ true = credential_lem s ∙ a in
    rw (sanitize_argument, e, sanitize_plain, known, c)

-- The next item, with what follows, where it is known what becomes of it
sanitize_items_step :
    (redact_next : Bool) (s : Text) (xs : Items) (r : Text × Bool)
    → sanitize_argument redact_next s ≡ r
    → sanitize_items redact_next (cons (string s) xs) ≡ cons (string r.0) (sanitize_items r.1 xs)
unfolding sanitize_items
sanitize_items_step redact_next s xs r e = ap (λ q. cons (string q.0) (sanitize_items q.1 xs)) e

same_step :
    (s t : Text) (xs ys : Items) (r : Text × Bool)
    → sanitize_argument false s ≡ r
    → sanitize_argument false t ≡ r
    → sanitize_items r.1 xs ≡ sanitize_items r.1 ys
    → sanitize_items false (cons (string s) xs) ≡ sanitize_items false (cons (string t) ys)
same_step s t xs ys r e f h =
    sanitize_items_step false s xs r e
    ∙ ap (cons (string r.0)) h
    ∙ sym (sanitize_items_step false t ys r f)

sanitize_items_same :
    {after_flag : Bool} {xs ys : Items}
    → SameButSecrets after_flag xs ys
    → sanitize_items after_flag xs ≡ sanitize_items after_flag ys
unfolding sanitize_items sanitize_argument
sanitize_items_same same_end = refl
sanitize_items_same (same_value a b h) = ap (cons (string redacted)) (sanitize_items_same h)
sanitize_items_same (same_assignment {name} {s} {t} n e f h) =
    same_step s t _ _ (name ++ text "=[REDACTED]", false) (sanitize_assignment name s n e)
      (sanitize_assignment name t n f) (sanitize_items_same h)
sanitize_items_same (same_text {s} {t} a b c d e f h) =
    same_step s t _ _ (redacted, false) (sanitize_text s a c e) (sanitize_text t b d f)
      (sanitize_items_same h)
sanitize_items_same (same_argument {s} {xs} {ys} h) =
    ap (cons (string (sanitize_argument false s).0))
      (rw (takes_value_lem s) (sanitize_items_same h))
sanitize_items_same (same_other e f h) =
    rw (sanitize_items, e, f) (ap (cons null) (sanitize_items_same h))

pub sanitize_argv_hides :
    (xs ys : Items)
    → SameButSecrets false xs ys
    → sanitize_argv (some (array xs)) ≡ sanitize_argv (some (array ys))
unfolding sanitize_argv
sanitize_argv_hides xs ys h = ap array (sanitize_items_same h)

-- An argument without a sensitive word, also before an equals sign
abbrev pub IsHarmless : Text → Type 0
IsHarmless s =
    (is_sensitive_argument_name s ≡ false)
    × (unwrap_or (option_map is_sensitive_argument_name (name_before s)) false ≡ false)

sanitize_argument_harmless : (s : Text) → IsHarmless s → sanitize_argument false s ≡ (s, false)
unfolding sanitize_argument sanitize_plain
sanitize_argument_harmless s (h, k) = elim (Option-cases (name_before s)) [
  | inl e ↦ rw (sanitize_argument, e, sanitize_plain, h)
  | inr (name, e) ↦
      let safe : is_sensitive_argument_name name ≡ false = rw e at k in
      rw (sanitize_argument, e, safe, sanitize_plain, h)
]

sanitize_items_harmless :
    (ss : List Text)
    → All IsHarmless ss
    → sanitize_items false (items (map string ss)) ≡ items (map string ss)
unfolding sanitize_items
sanitize_items_harmless [] h = refl
sanitize_items_harmless (s ∷ ss) h =
    sanitize_items_step false s (items (map string ss)) (s, false)
      (sanitize_argument_harmless s h.0)
    ∙ ap (cons (string s)) (sanitize_items_harmless ss h.1)

-- A command without sensitive words is shown as it is, all its arguments in order.
pub sanitize_argv_keeps :
    (ss : List Text)
    → All IsHarmless ss
    → sanitize_argv (some (array (items (map string ss)))) ≡ array (items (map string ss))
unfolding sanitize_argv
sanitize_argv_keeps ss h = ap array (sanitize_items_harmless ss h)
