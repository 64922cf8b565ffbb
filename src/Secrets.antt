-- ===== src/Secrets.antt =====
-- core/src/secrets.rs: references to secrets and the resolver that caches what they resolve to. An
-- error is none, without its message. The environment, files and command lines are parameters.
pub mod Cache
pub mod Params
pub mod Backends
pub mod Disabled
pub mod References
pub mod Trimming
pub mod Size
pub mod Recent
use rust_agent.Base.{
  ℕ, zero, suc, Bool, true, false, ◌==◌, Option, none, some, List, [], ◌∷◌, ◌++◌, Text, codes, trim,
  to_ascii_lowercase, match_text, one_of, if◌then◌else◌, is_empty,
}

pub data SecretBackend : Type 0 where
  env file vault aws_secrets_manager gcp_secret_manager azure_key_vault : SecretBackend

abbrev pub backend_text : SecretBackend → Text
backend_text env = codes "env"
backend_text file = codes "file"
backend_text vault = codes "vault"
backend_text aws_secrets_manager = codes "aws-sm"
backend_text gcp_secret_manager = codes "gcp-sm"
backend_text azure_key_vault = codes "azure-kv"

pub record SecretReference : Type 0 where
  pub backend : SecretBackend
  pub key : Text

-- `str::split_once` and `str::split` with one character
abbrev pub split_once : ℕ → Text → Option (Text × Text)
split_once e [] = none
split_once e (c ∷ t) =
    let rest = split_once e t in
    if c == e then some ([], t) else elim rest [ none ↦ none | some r ↦ some (c ∷ r.0, r.1) ]

abbrev pub backends : List (Text × SecretBackend)
backends =
    (codes "env", env)
    ∷ (codes "file", file)
    ∷ (codes "vault", vault)
    ∷ (codes "aws-sm", aws_secrets_manager)
    ∷ (codes "gcp-sm", gcp_secret_manager)
    ∷ (codes "azure-kv", azure_key_vault)
    ∷ []

abbrev pub non_empty_key : SecretBackend → Text → Option SecretReference
non_empty_key backend key =
    if is_empty key then none else some (record { backend = backend; key = key })

-- `SecretReference::parse`
unfoldable pub parse : Text → Option SecretReference
unfolding trim to_ascii_lowercase match_text
parse raw = elim (split_once 58 (trim raw)) [
  | none ↦ none
  | some r ↦ elim (match_text (to_ascii_lowercase (trim r.0)) backends) [
    | none ↦ none
    | some backend ↦ non_empty_key backend (trim r.1)
  ]
]

-- `SecretReference::cache_key`
abbrev pub cache_key : SecretReference → Text
cache_key r = backend_text r.backend ++ 58 ∷ r.key

-- A text that is trimmed, if something is left of it.
abbrev pub non_empty_trimmed_value : Option Text → Option Text
non_empty_trimmed_value none = none
non_empty_trimmed_value (some value) = if is_empty (trim value) then none else some (trim value)

-- The outer none is an error. A reference goes before a direct value.
unfoldable pub resolve_secret_value :
    Option Text → Option Text → (SecretReference → Option Text) → Option (Option Text)
unfolding parse
resolve_secret_value direct_value reference_value resolve =
    elim (non_empty_trimmed_value reference_value) [
      | some raw ↦ elim (parse raw) [
        | none ↦ none
        | some reference ↦ elim (resolve reference) [ none ↦ none | some value ↦ some (some value) ]
      ]
      | none ↦ some (non_empty_trimmed_value direct_value)
    ]

-- `parse_env_bool`
unfoldable pub parse_env_bool : Text → Bool
unfolding trim to_ascii_lowercase one_of
parse_env_bool value =
    one_of (to_ascii_lowercase (trim value)) (codes "1" ∷ codes "true" ∷ codes "yes" ∷ [])
