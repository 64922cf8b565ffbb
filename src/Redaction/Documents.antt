-- ===== src/Redaction/Documents.antt =====
-- `redact_json` of core/src/redaction.rs.
use rust_agent.Base.{
  Bool, false, not, ◌||◌, ◌≡◌, refl, text_eq, if◌then◌else◌, Bool-cases, inl, inr,
}
use rust_agent.Json.{
  Value, null, bool, number, string, array, object, Items, nil, cons, Fields, field, end,
}
use rust_agent.Redaction.{is_sensitive_key, redacted_text, redact_json, redact_items, redact_fields}
use rust_agent.Redaction.Keys.{has_secret_key}
use rust_agent.Redaction.Bearer.{redact_text_clean}

-- Whether a value is the text that stands for what was there.
abbrev pub is_redacted : Value → Bool
is_redacted (string t) = text_eq t redacted_text
is_redacted v = false

-- Whether a value shows a secret: under a key that is sensitive anything but that text, or under
-- another a text with a key that begins with `nsec1`.
abbrev mutual
  pub leaks : Value → Bool
  leaks null = false
  leaks (bool b) = false
  leaks (number n) = false
  leaks (string t) = has_secret_key t
  leaks (array vs) = leaks_items vs
  leaks (object fs) = leaks_fields fs

  pub leaks_items : Items → Bool
  leaks_items nil = false
  leaks_items (cons v vs) = leaks v || leaks_items vs

  pub leaks_fields : Fields → Bool
  leaks_fields end = false
  leaks_fields (field k v fs) =
      (if is_sensitive_key k then not (is_redacted v) else leaks v) || leaks_fields fs

mutual
  unfolding redact_json redact_items redact_fields text_eq

  leaks-redact_value : (v : Value) → leaks (redact_json v) ≡ false
  leaks-redact_value null = refl
  leaks-redact_value (bool b) = refl
  leaks-redact_value (number n) = refl
  leaks-redact_value (string t) = redact_text_clean t
  leaks-redact_value (array vs) = leaks-redact_items vs
  leaks-redact_value (object fs) = leaks-redact_fields fs

  leaks-redact_items : (vs : Items) → leaks_items (redact_items vs) ≡ false
  leaks-redact_items nil = refl
  leaks-redact_items (cons v vs) = rw (leaks-redact_value v, leaks-redact_items vs) refl

  leaks-redact_fields : (fs : Fields) → leaks_fields (redact_fields fs) ≡ false
  leaks-redact_fields end = refl
  leaks-redact_fields (field k v fs) = elim (Bool-cases (is_sensitive_key k)) [
    | inl e ↦ rw (e, leaks-redact_fields fs) refl
    | inr e ↦ rw (e, leaks-redact_value v, leaks-redact_fields fs) refl
  ]

-- A document that is redacted shows no secret, at any depth: a value under a sensitive key is
-- `[REDACTED]`, and no other string holds the prefix `nsec1` with sixteen or more lower case letters
-- and digits after it.
pub leaks-redact_json : (v : Value) → leaks (redact_json v) ≡ false
leaks-redact_json v = leaks-redact_value v
