-- ===== src/Audit.antt =====
-- mcp/server.rs: what the audit log records of a request's parameters.
pub mod Redaction
use systemd_monitoring_mcp.Base.{
  Bool, true, false, ◌&&◌, ◌||◌, not, Option, none, some, [], ◌∷◌, if◌then◌else◌,
}
use systemd_monitoring_mcp.Text.{Text, text, trim, to_ascii_lowercase, contains, one_of}
use systemd_monitoring_mcp.Json.{
  Json, null, bool, number, string, array, object, Items, nil, cons, Fields, end, field, literal,
}

unfoldable pub is_sensitive_key : Text → Bool
unfolding trim to_ascii_lowercase one_of contains
is_sensitive_key key =
    let normalized = to_ascii_lowercase (trim key) in
    one_of normalized (
      text "token"
      ∷ text "api_token"
      ∷ text "access_token"
      ∷ text "refresh_token"
      ∷ text "authorization"
      ∷ text "bearer"
      ∷ text "password"
      ∷ text "secret"
      ∷ text "credentials"
      ∷ text "credential"
      ∷ text "api_key"
      ∷ text "apikey"
      ∷ [])
    || contains normalized (text "token")
    || contains normalized (text "secret")
    || contains normalized (text "password")
    || contains normalized (text "credential")

abbrev pub redacted : Json
redacted = literal "[REDACTED]"

unfoldable mutual
  pub redact_audit_value : Json → Json
  redact_audit_value null = null
  redact_audit_value (bool b) = bool b
  redact_audit_value (number n) = number n
  redact_audit_value (string s) = string s
  redact_audit_value (array xs) = array (redact_items xs)
  redact_audit_value (object fs) = object (redact_fields fs)

  pub redact_items : Items → Items
  redact_items nil = nil
  redact_items (cons x xs) = cons (redact_audit_value x) (redact_items xs)

  pub redact_fields : Fields → Fields
  redact_fields end = end
  redact_fields (field key item fs) =
      field key (if is_sensitive_key key then redacted else redact_audit_value item)
        (redact_fields fs)

unfoldable pub redact_audit_params : Option Json → Json
redact_audit_params none = null
redact_audit_params (some params) = redact_audit_value params
