-- ===== src/Redaction/Memory.antt =====
-- `redact_memory_content` of core/src/redaction.rs. The two documents that it compares have their
-- fields in one order, since redaction keeps it.
use rust_agent.Base.{Bool, true, false, not, ◌&&◌, ◌||◌, ◌==◌, Option, none, some, Text, text_eq}
use rust_agent.Json.{
  Value, null, bool, number, string, array, object, Items, nil, cons, Fields, field, end, Number,
  pos_int, neg_int, float,
}
use rust_agent.Redaction.{redact_json, redact_text}

abbrev number_eq : Number → Number → Bool
number_eq (pos_int m) (pos_int n) = m == n
number_eq (neg_int m) (neg_int n) = m == n
number_eq (float m) (float n) = m == n
number_eq m n = false

abbrev bool_eq : Bool → Bool → Bool
bool_eq true b = b
bool_eq false b = not b

unfoldable mutual
  unfolding text_eq

  pub value_eq : Value → Value → Bool
  value_eq null null = true
  value_eq (bool a) (bool b) = bool_eq a b
  value_eq (number m) (number n) = number_eq m n
  value_eq (string s) (string t) = text_eq s t
  value_eq (array vs) (array ws) = items_eq vs ws
  value_eq (object fs) (object gs) = fields_eq fs gs
  value_eq v w = false

  pub items_eq : Items → Items → Bool
  items_eq nil nil = true
  items_eq (cons v vs) (cons w ws) = value_eq v w && items_eq vs ws
  items_eq vs ws = false

  pub fields_eq : Fields → Fields → Bool
  fields_eq end end = true
  fields_eq (field k v fs) (field j w gs) = text_eq k j && (value_eq v w && fields_eq fs gs)
  fields_eq fs gs = false

abbrev summary_changed : Option Text → Bool
summary_changed none = false
summary_changed (some text) = not (text_eq text (redact_text text))

-- The document and the summary, and whether one of them was changed.
unfoldable pub redact_memory_content : Value → Option Text → Value × Option Text × Bool
unfolding redact_json redact_text value_eq
redact_memory_content content_json summary_text = (
  redact_json content_json,
  elim summary_text [ none ↦ none | some text ↦ some (redact_text text) ],
  not (value_eq (redact_json content_json) content_json) || summary_changed summary_text,
)
