-- ===== src/Tests/RedactionTests.antt =====
-- Redaction on concrete texts and documents.
use rust_agent.Base.{
  Text, codes, ◌≡◌, refl, arith, starts_with, contains, to_ascii_lowercase, text_eq, false, true,
  some,
}
use rust_agent.Json.{Value, string, object, field, end, array, cons, nil}
use rust_agent.Redaction.{
  redact_text, redact_json, redact_items, redact_fields, is_sensitive_key,
  redact_prefixed_token_loop, redact_bearer_tokens_loop, redact_prefixed_token,
  redact_bearer_tokens, nsec_prefix,
}
use rust_agent.Redaction.Memory.{redact_memory_content, value_eq}
use rust_agent.Redaction.Fuel.{redact_loops_end}
use rust_agent.Redaction.Cleaning.{redact_prefixed_token_idempotent}
use rust_agent.Redaction.Documents.{leaks, leaks-redact_json}

running_redaction : Unit {0}
unfolding redact_text redact_json redact_items redact_fields is_sensitive_key
    redact_prefixed_token_loop redact_bearer_tokens_loop starts_with contains to_ascii_lowercase
    text_eq
running_redaction = tt

abbrev shown : Text
shown = codes "auth Bearer very-secret and nsec1qqqqqqqqqqqqqqqqqqqq; nsec1short"

shown_redacted : redact_text shown ≡ codes "auth Bearer [REDACTED] and [REDACTED]; nsec1short"
unfolding running_redaction
shown_redacted = refl

-- A second redaction adds a bracket.
bearer_twice : redact_text (redact_text (codes "Bearer abc")) ≡ codes "Bearer [REDACTED]]"
unfolding running_redaction
bearer_twice = refl

abbrev document : Value
document = object (
    field (codes "Api_Key") (string (codes "xyz"))
      (field (codes "notes") (array (cons (string shown) nil)) end))

document_redacted :
    redact_json document
    ≡ object (
        field (codes "Api_Key") (string (codes "[REDACTED]")) (
          field
            (codes "notes")
            (array (cons (string (codes "auth Bearer [REDACTED] and [REDACTED]; nsec1short")) nil))
            end))
unfolding running_redaction
document_redacted = refl

leaks-redact_json_example : leaks (redact_json document) ≡ false
leaks-redact_json_example = leaks-redact_json document

redact_loops_end_example :
    (redact_prefixed_token_loop 99 nsec_prefix shown ≡ redact_prefixed_token shown nsec_prefix)
    × (redact_bearer_tokens_loop 99 shown ≡ redact_bearer_tokens shown)
redact_loops_end_example = redact_loops_end 99 shown (omega arith)

redact_prefixed_token_idempotent_example :
    redact_prefixed_token (redact_prefixed_token shown nsec_prefix) nsec_prefix
    ≡ redact_prefixed_token shown nsec_prefix
redact_prefixed_token_idempotent_example = redact_prefixed_token_idempotent shown

memory_redacted :
    redact_memory_content
      (object (field (codes "token") (string (codes "abc")) end))
      (some (codes "fine"))
    ≡ (object (field (codes "token") (string (codes "[REDACTED]")) end), some (codes "fine"), true)
unfolding running_redaction redact_memory_content value_eq
memory_redacted = refl
