-- ===== src/Redaction.antt =====
-- core/src/redaction.rs. A loop that runs by byte indices is a loop over the text that is left: each
-- index is at a character, since all bytes that are tested for are ASCII. The fuel of a loop is the
-- length of its text and one more.
pub mod Keys
pub mod Cleaning
pub mod Bearer
pub mod Documents
pub mod Memory
pub mod Fuel
use rust_agent.Base.{
  ℕ, zero, suc, ◌+◌, Bool, true, false, ◌&&◌, ◌||◌, not, leb, ltb, ◌==◌, Option, none, some, List,
  [], ◌∷◌, ◌++◌, Text, codes, starts_with, contains, to_ascii_lowercase, if◌then◌else◌, any, length,
}
use rust_agent.Json.{
  Value, null, bool, number, string, array, object, Items, nil, cons, Fields, field, end,
}

-- `REDACTED`
abbrev pub redacted_text : Text
redacted_text = codes "[REDACTED]"

-- `SENSITIVE_KEY_PATTERNS`
abbrev pub sensitive_key_patterns : List Text
sensitive_key_patterns =
    codes "password"
    ∷ codes "passwd"
    ∷ codes "secret"
    ∷ codes "token"
    ∷ codes "api_key"
    ∷ codes "apikey"
    ∷ codes "authorization"
    ∷ codes "cookie"
    ∷ codes "private_key"
    ∷ codes "nsec"
    ∷ []

unfoldable pub is_sensitive_key : Text → Bool
unfolding contains to_ascii_lowercase
is_sensitive_key key = any (λ p. contains (to_ascii_lowercase key) p) sensitive_key_patterns

abbrev pub is_token_char : ℕ → Bool
is_token_char b = (leb 97 b && leb b 122) || (leb 48 b && leb b 57)

-- `is_ascii_whitespace`, and the bytes `"`, `'`, `,`, `;`, `)` and `]`.
abbrev pub is_terminator : ℕ → Bool
is_terminator b =
    (b == 32 || (b == 9 || (b == 10 || (b == 12 || b == 13))))
    || (b == 34 || (b == 39 || (b == 44 || (b == 59 || (b == 41 || b == 93)))))

-- What stands before the first place where a test of the rest holds, and the rest from there.
abbrev pub split_where : (Text → Bool) → Text → Option (Text × Text)
split_where p [] = if p [] then some ([], []) else none
split_where p (c ∷ t) =
    let rest = split_where p t in
    if p (c ∷ t) then some ([], c ∷ t) else elim rest [ none ↦ none | some r ↦ some (c ∷ r.0, r.1) ]

abbrev pub take_while : (ℕ → Bool) → Text → Text
take_while p [] = []
take_while p (c ∷ t) = if p c then c ∷ take_while p t else []

abbrev pub drop_while : (ℕ → Bool) → Text → Text
drop_while p [] = []
drop_while p (c ∷ t) = if p c then drop_while p t else c ∷ t

abbrev pub skip_first : ℕ → Text → Text
skip_first zero t = t
skip_first (suc n) [] = []
skip_first (suc n) (c ∷ t) = skip_first n t

abbrev pub take_first : ℕ → Text → Text
take_first zero t = []
take_first (suc n) [] = []
take_first (suc n) (c ∷ t) = c ∷ take_first n t

-- What replaces a prefix and the token after it: sixteen characters make it long.
abbrev pub token_or_redacted : Text → Text → Text
token_or_redacted prefix token = if leb 16 (length token) then redacted_text else prefix ++ token

unfoldable pub redact_prefixed_token_loop : ℕ → Text → Text → Text
unfolding starts_with
redact_prefixed_token_loop zero prefix t = []
redact_prefixed_token_loop (suc fuel) prefix t = elim (split_where (λ u. starts_with u prefix) t) [
  | none ↦ t
  | some r ↦
      let after = skip_first (length prefix) r.1 in
      r.0
      ++ (token_or_redacted prefix (take_while is_token_char after)
          ++ redact_prefixed_token_loop fuel prefix (drop_while is_token_char after))
]

abbrev pub redact_prefixed_token : Text → Text → Text
redact_prefixed_token input prefix = redact_prefixed_token_loop (suc (length input)) prefix input

abbrev pub bearer_marker : Text
bearer_marker = codes "bearer "

abbrev pub is_bearer : Text → Bool
is_bearer t = starts_with (to_ascii_lowercase t) bearer_marker

unfoldable pub redact_bearer_tokens_loop : ℕ → Text → Text
unfolding starts_with to_ascii_lowercase
redact_bearer_tokens_loop zero t = []
redact_bearer_tokens_loop (suc fuel) t = elim (split_where is_bearer t) [
  | none ↦ t
  | some r ↦
      r.0
      ++ (take_first 7 r.1
          ++ (redacted_text
              ++ redact_bearer_tokens_loop fuel
                  (drop_while (λ c. not (is_terminator c)) (skip_first 7 r.1))))
]

abbrev pub redact_bearer_tokens : Text → Text
redact_bearer_tokens input = redact_bearer_tokens_loop (suc (length input)) input

abbrev pub nsec_prefix : Text
nsec_prefix = codes "nsec1"

unfoldable pub redact_text : Text → Text
redact_text text = redact_bearer_tokens (redact_prefixed_token text nsec_prefix)

unfoldable mutual
  unfolding redact_text is_sensitive_key

  pub redact_json : Value → Value
  redact_json null = null
  redact_json (bool b) = bool b
  redact_json (number n) = number n
  redact_json (string text) = string (redact_text text)
  redact_json (array vs) = array (redact_items vs)
  redact_json (object fs) = object (redact_fields fs)

  pub redact_items : Items → Items
  redact_items nil = nil
  redact_items (cons v vs) = cons (redact_json v) (redact_items vs)

  pub redact_fields : Fields → Fields
  redact_fields end = end
  redact_fields (field k v fs) =
      field k (if is_sensitive_key k then string redacted_text else redact_json v)
        (redact_fields fs)
