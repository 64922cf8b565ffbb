-- ===== src/Secrets/References.antt =====
-- core/src/secrets.rs: the text of a reference, as the key of the cache, and its parse.
use rust_agent.Base.{
  false, ◌≡◌, refl, sym, ap, ◌∙◌, some, [], ◌∷◌, ◌++◌, Text, trim, trim_start, trim_end,
  is_whitespace, is_empty, to_ascii_lowercase, match_text, text_eq, Option-cases, Bool-cases, inl,
  inr, eq_of_some, subst,
}
use rust_agent.Secrets.{
  SecretBackend, env, file, vault, aws_secrets_manager, gcp_secret_manager, azure_key_vault,
  SecretReference, backend_text, backends, split_once, parse, cache_key,
}
use rust_agent.Secrets.Trimming.{trim_end-append, trim_end-idempotent, trim_idempotent}

split_once-backend :
    (b : SecretBackend) (k : Text)
    → split_once 58 (backend_text b ++ 58 ∷ k) ≡ some (backend_text b, k)
split_once-backend env k = refl
split_once-backend file k = refl
split_once-backend vault k = refl
split_once-backend aws_secrets_manager k = refl
split_once-backend gcp_secret_manager k = refl
split_once-backend azure_key_vault k = refl

match_backend :
    (b : SecretBackend) → match_text (to_ascii_lowercase (trim (backend_text b))) backends ≡ some b
unfolding trim trim_start trim_end is_whitespace to_ascii_lowercase match_text text_eq
match_backend env = refl
match_backend file = refl
match_backend vault = refl
match_backend aws_secrets_manager = refl
match_backend gcp_secret_manager = refl
match_backend azure_key_vault = refl

trim_start-backend :
    (b : SecretBackend) (k : Text)
    → trim_start (backend_text b ++ 58 ∷ k) ≡ backend_text b ++ 58 ∷ k
unfolding trim_start
trim_start-backend env k = refl
trim_start-backend file k = refl
trim_start-backend vault k = refl
trim_start-backend aws_secrets_manager k = refl
trim_start-backend gcp_secret_manager k = refl
trim_start-backend azure_key_vault k = refl

trimmed_end : (k : Text) → trim k ≡ k → trim_end k ≡ k
unfolding trim
trimmed_end k h = ap trim_end (sym h) ∙ (trim_end-idempotent (trim_start k) ∙ h)

trim-cache_key :
    (b : SecretBackend) (k : Text)
    → trim k ≡ k
    → is_empty k ≡ false
    → trim (backend_text b ++ 58 ∷ k) ≡ backend_text b ++ 58 ∷ k
unfolding trim
trim-cache_key b k h n =
    let end_k = trimmed_end k h in
    let tail : trim_end (58 ∷ k) ≡ 58 ∷ k =
      trim_end-append (58 ∷ []) k (rw end_k n) ∙ ap (λ x. 58 ∷ x) end_k in
    ap trim_end (trim_start-backend b k)
    ∙ (trim_end-append (backend_text b) (58 ∷ k) (rw tail refl)
        ∙ ap (λ x. backend_text b ++ x) tail)

-- The text of a reference whose key is trimmed and not empty.
pub parse-cache_key :
    (b : SecretBackend) (k : Text)
    → trim k ≡ k
    → is_empty k ≡ false
    → parse (backend_text b ++ 58 ∷ k) ≡ some (record { backend = b; key = k })
unfolding parse
parse-cache_key b k h n =
    rw (trim-cache_key b k h n, split_once-backend b k, match_backend b, h, n, parse) refl

-- What a parse gives has a key that is trimmed and not empty.
parse-IsTrimmed :
    (raw : Text) (r : SecretReference)
    → parse raw ≡ some r
    → (trim r.key ≡ r.key) × (is_empty r.key ≡ false)
unfolding parse
parse-IsTrimmed raw r e = elim (Option-cases (split_once 58 (trim raw))) [
  | inl gone ↦ absurd (cc (rw (gone, parse) at e))
  | inr (p, found) ↦ elim (Option-cases (match_text (to_ascii_lowercase (trim p.0)) backends)) [
    | inl other ↦ absurd (cc (rw (found, other, parse) at e))
    | inr (b, known) ↦ elim (Bool-cases (is_empty (trim p.1))) [
      | inl empty ↦ absurd (cc (rw (found, known, empty, parse) at e))
      | inr full ↦
          subst (λ x. (trim x.key ≡ x.key) × (is_empty x.key ≡ false))
            (eq_of_some (rw (found, known, full, parse) at e)) (trim_idempotent p.1, full)
    ]
  ]
]

-- A reference that a parse gives is what its text, which is its key in the cache, parses to.
pub parse-cache_key-parse :
    (raw : Text) (r : SecretReference) → parse raw ≡ some r → parse (cache_key r) ≡ some r
parse-cache_key-parse raw r e =
    let (h, n) = parse-IsTrimmed raw r e in parse-cache_key r.backend r.key h n

of_parts :
    (a b : SecretBackend) (k l : Text)
    → a ≡ b
    → k ≡ l
    → ◌≡◌ {A = SecretReference} (record { backend = a; key = k }) (record { backend = b; key = l })
of_parts a b k l e q =
    ap (λ x. record { backend = x; key = k }) e ∙ ap (λ x. record { backend = b; key = x }) q

-- Two references have one key in the cache only if they are the same.
pub cache_key_injective : (a b : SecretReference) → cache_key a ≡ cache_key b → a ≡ b
cache_key_injective a b e =
    let same = eq_of_some (
      sym (split_once-backend a.backend a.key)
      ∙ (ap (split_once 58) e ∙ split_once-backend b.backend b.key)) in
    let backend = eq_of_some (
      sym (match_backend a.backend)
      ∙ (ap (λ p. match_text (to_ascii_lowercase (trim p.0)) backends) same
          ∙ match_backend b.backend)) in
    of_parts a.backend b.backend a.key b.key backend (ap (λ p. p.1) same)
