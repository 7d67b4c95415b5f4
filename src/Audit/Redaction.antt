-- ===== src/Audit/Redaction.antt =====
-- No value under a sensitive key survives, at any depth.
use systemd_monitoring_mcp.Base.{
  ◌≡◌, refl, ap, ap₂, Bool, true, false, ◌&&◌, Option, none, some, if◌then◌else◌, Bool-cases, inl,
  inr, sym, &&_both,
}
use systemd_monitoring_mcp.Text.{text, text_eq}
use systemd_monitoring_mcp.Text.Laws.{text_eq→≡}
use systemd_monitoring_mcp.Json.{
  Json, null, bool, number, string, array, object, Items, nil, cons, Fields, end, field,
}
use systemd_monitoring_mcp.Audit.{
  is_sensitive_key, redacted, redact_audit_value, redact_items, redact_fields, redact_audit_params,
}

abbrev is_redacted : Json → Bool
is_redacted (string s) = text_eq s (text "[REDACTED]")
is_redacted _ = false

-- Whether every field under a sensitive key, in the value and in all that it holds, is replaced.
mutual
  pub hides : Json → Bool
  hides null = true
  hides (bool b) = true
  hides (number n) = true
  hides (string s) = true
  hides (array xs) = hides_items xs
  hides (object fs) = hides_fields fs

  pub hides_items : Items → Bool
  hides_items nil = true
  hides_items (cons x xs) = hides x && hides_items xs

  pub hides_fields : Fields → Bool
  hides_fields end = true
  hides_fields (field key item fs) =
      (if is_sensitive_key key then is_redacted item else hides item) && hides_fields fs

redacted-is_redacted : is_redacted redacted ≡ true
unfolding text_eq
redacted-is_redacted = refl

mutual
  unfolding hides redact_audit_value

  redact_hides : (v : Json) → hides (redact_audit_value v) ≡ true
  redact_hides null = refl
  redact_hides (bool b) = refl
  redact_hides (number n) = refl
  redact_hides (string s) = refl
  redact_hides (array xs) = redact_items_hides xs
  redact_hides (object fs) = redact_fields_hides fs

  redact_items_hides : (xs : Items) → hides_items (redact_items xs) ≡ true
  redact_items_hides nil = refl
  redact_items_hides (cons x xs) = rw (redact_hides x, redact_items_hides xs)

  redact_fields_hides : (fs : Fields) → hides_fields (redact_fields fs) ≡ true
  redact_fields_hides end = refl
  redact_fields_hides (field key item fs) = elim (Bool-cases (is_sensitive_key key)) [
    | inl e ↦ rw (e, redacted-is_redacted, redact_fields_hides fs)
    | inr e ↦ rw (e, redact_hides item, redact_fields_hides fs)
  ]

is_redacted_eq : (v : Json) → is_redacted v ≡ true → redacted ≡ v
is_redacted_eq (string s) h = ap string (sym (text_eq→≡ s (text "[REDACTED]") h))
is_redacted_eq null h = cc
is_redacted_eq (bool b) h = cc
is_redacted_eq (number n) h = cc
is_redacted_eq (array xs) h = cc
is_redacted_eq (object fs) h = cc

mutual
  unfolding hides redact_audit_value

  redact_plain : (v : Json) → hides v ≡ true → redact_audit_value v ≡ v
  redact_plain null h = refl
  redact_plain (bool b) h = refl
  redact_plain (number n) h = refl
  redact_plain (string s) h = refl
  redact_plain (array xs) h = ap array (redact_items_plain xs h)
  redact_plain (object fs) h = ap object (redact_fields_plain fs h)

  redact_items_plain : (xs : Items) → hides_items xs ≡ true → redact_items xs ≡ xs
  redact_items_plain nil h = refl
  redact_items_plain (cons x xs) h =
      let (hx, hxs) = &&_both {a = hides x} {b = hides_items xs} h in
      ap₂ cons (redact_plain x hx) (redact_items_plain xs hxs)

  redact_fields_plain : (fs : Fields) → hides_fields fs ≡ true → redact_fields fs ≡ fs
  redact_fields_plain end h = refl
  redact_fields_plain (field key item fs) h =
      let (hv, hfs) =
        &&_both {a = if is_sensitive_key key then is_redacted item else hides item}
          {b = hides_fields fs} h in
      elim (Bool-cases (is_sensitive_key key)) [
        | inl e ↦
            rw e (ap₂ (field key) (is_redacted_eq item (rw e at hv)) (redact_fields_plain fs hfs))
        | inr e ↦
            rw e (ap₂ (field key) (redact_plain item (rw e at hv)) (redact_fields_plain fs hfs))
      ]

-- The audited parameters hold no value under a sensitive key, at any depth, but the mark that
-- replaces it; parameters with nothing to hide are recorded as they are; and redacting what is
-- redacted changes nothing.
pub redaction :
    (params : Json)
    → (hides (redact_audit_params (some params)) ≡ true)
      × (hides params ≡ true → redact_audit_params (some params) ≡ params)
      × (redact_audit_value (redact_audit_params (some params)) ≡ redact_audit_params (some params))
unfolding redact_audit_params
redaction params = (redact_hides params, redact_plain params, redact_plain _ (redact_hides params))

-- Audited parameters are clean, where there are any.
pub redact_audit_params-hides : (params : Option Json) → hides (redact_audit_params params) ≡ true
unfolding redact_audit_params hides
redact_audit_params-hides none = refl
redact_audit_params-hides (some params) = redact_hides params
