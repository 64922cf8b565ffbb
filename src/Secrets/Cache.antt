-- ===== src/Secrets/Cache.antt =====
-- core/src/secrets.rs: `CachedSecretResolver`. Times are in nanoseconds. Which key a hash map names
-- first is a parameter; a lock that is poisoned is left out, as nothing panics under it.
use rust_agent.Base.{
  ℕ, zero, suc, ◌+◌, Bool, not, leb, ltb, ◌==◌, max, Option, none, some, List, [], ◌∷◌, ◌++◌, Text,
  text_eq, find, filter, length, if◌then◌else◌,
}
use rust_agent.Secrets.{SecretReference, cache_key}

pub record CachedSecretValue : Type 0 where
  pub key : Text
  pub value : Text
  pub expires_at : ℕ

abbrev pub Cache : Type 0
Cache = List CachedSecretValue

abbrev pub has_cache_key : Text → CachedSecretValue → Bool
has_cache_key key e = text_eq e.key key

abbrev pub remove_key : Text → Cache → Cache
remove_key key cache = filter (λ e. not (has_cache_key key e)) cache

-- What is cached and fresh, and the cache without what is not.
unfoldable pub lookup_cached : Text → ℕ → Cache → Cache × Option Text
lookup_cached key now cache = elim (find (has_cache_key key) cache) [
  | none ↦ (remove_key key cache, none)
  | some e ↦ if ltb now e.expires_at then (cache, some e.value) else (remove_key key cache, none)
]

abbrev pub nth_key : ℕ → Cache → Option Text
nth_key n [] = none
nth_key zero (e ∷ cache) = some e.key
nth_key (suc n) (e ∷ cache) = elim (nth_key n cache) [ none ↦ some e.key | some k ↦ some k ]

-- `CachedSecretResolver::new` raises the maximum to one.
pub record CacheSettings : Type 0 where
  pub ttl : ℕ
  pub max_entries : ℕ
  pub first_key : Cache → ℕ

module _ (settings : CacheSettings) where
  abbrev pub make_room : Cache → Cache
  make_room cache =
      if leb (max settings.max_entries 1) (length cache)
      then elim (nth_key (settings.first_key cache) cache) [
        | none ↦ cache
        | some key ↦ remove_key key cache
      ]
      else cache

  unfoldable pub store_cached : Text → Text → ℕ → Cache → Cache
  store_cached key value now cache =
      remove_key key (make_room (filter (λ e. ltb now e.expires_at) cache))
      ++ record { key = key; value = value; expires_at = now + settings.ttl } ∷ []

  -- `inner` is what the resolver below answers now, if it is asked.
  unfoldable pub resolve_cached :
      ℕ → (SecretReference → Option Text) → SecretReference → Cache → Cache × Option Text
  resolve_cached now inner reference cache =
      if settings.ttl == 0
      then (cache, inner reference)
      else let found = lookup_cached (cache_key reference) now cache in
        elim found.1 [
          | some value ↦ (found.0, some value)
          | none ↦ elim (inner reference) [
            | none ↦ (found.0, none)
            | some value ↦ (store_cached (cache_key reference) value now found.0, some value)
          ]
        ]
