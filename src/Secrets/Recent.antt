-- ===== src/Secrets/Recent.antt =====
-- How old a secret is that the caching resolver gives.
use rust_agent.Base.{
  ℕ, ◌+◌, ◌<◌, max, true, not, leb, ltb, ◌==◌, ◌≡◌, refl, ap, arith, Option, some, List, [], ◌∷◌,
  ◌++◌, Text, length, text_eq_sound, find, find_sound, filter, All, All-of_In, All-In, All-append,
  In, In-append_left, In-append_right, Option-cases, Bool-cases, eq_of_some, inl, inr, ◌⊎◌, ◌∙◌,
}
use rust_agent.Secrets.{SecretReference, cache_key}
use rust_agent.Secrets.References.{cache_key_injective}
use rust_agent.Secrets.Cache.{
  CachedSecretValue, Cache, CacheSettings, has_cache_key, remove_key, nth_key, make_room,
  lookup_cached, store_cached, resolve_cached,
}
use rust_agent.Secrets.Size.{
  All-filter, Answer, Kept, as_was, as_found, stored, lookup_cached-cases, resolve_cached-Kept,
  Reach, empty, call,
}

module _ (settings : CacheSettings) where
  -- Where an entry comes from.
  pub record IsFrom (h : List Answer) (e : CachedSecretValue) : Type 0 where
    pub source : Answer
    pub is_there : In source h
    pub same_key : cache_key source.reference ≡ e.key
    pub same_value : source.answer ≡ some e.value
    pub lasts : e.expires_at ≡ source.at + settings.ttl

  IsFrom-longer : (h g : List Answer) (e : CachedSecretValue) → IsFrom h e → IsFrom (h ++ g) e
  IsFrom-longer h g e f = record {
    source = f.source;
    is_there = In-append_left f.source h g f.is_there;
    same_key = f.same_key;
    same_value = f.same_value;
    lasts = f.lasts;
  }

  make_room-All :
      (P : CachedSecretValue → Type 0) (c : Cache) → All P c → All P (make_room settings c)
  make_room-All P c h = elim (Bool-cases (leb (max settings.max_entries 1) (length c))) [
    | inr room ↦ rw room h
    | inl full ↦ elim (Option-cases (nth_key (settings.first_key c) c)) [
      | inl gone ↦ rw (full, gone) h
      | inr (k, named) ↦ rw (full, named) (All-filter P (λ x. not (has_cache_key k x)) c h)
    ]
  ]

  lookup_cached-All :
      (P : CachedSecretValue → Type 0) (key : Text) (now : ℕ) (c : Cache)
      → All P c
      → All P (lookup_cached key now c).0
  lookup_cached-All P key now c h = elim (lookup_cached-cases settings key now c) [
    | inl e ↦ rw e h
    | inr e ↦ rw e (All-filter P (λ x. not (has_cache_key key x)) c h)
  ]

  store_cached-All :
      (P : CachedSecretValue → Type 0) (key value : Text) (now : ℕ) (c : Cache)
      → All P c
      → P (record { key = key; value = value; expires_at = now + settings.ttl })
      → All P (store_cached settings key value now c)
  unfolding store_cached
  store_cached-All P key value now c h new =
      let fresh = filter (λ e. ltb now e.expires_at) c in
      let room = make_room settings fresh in
      All-append P (remove_key key room) _
        (All-filter P (λ x. not (has_cache_key key x)) room
          (make_room-All P fresh (All-filter P (λ e. ltb now e.expires_at) c h)))
        (new, tt)

  Kept-IsFrom :
      (now : ℕ) (inner : SecretReference → Option Text) (reference : SecretReference) (c d : Cache)
      → (h : List Answer) → Kept settings now inner reference c d
      → In (record { reference = reference; answer = inner reference; at = now }) h
      → All (IsFrom h) c
      → All (IsFrom h) d
  Kept-IsFrom now inner reference c d h as_was m a = a
  Kept-IsFrom now inner reference c d h as_found m a =
      lookup_cached-All (IsFrom h) (cache_key reference) now c a
  Kept-IsFrom now inner reference c d h (stored value made) m a =
      store_cached-All (IsFrom h) (cache_key reference) value now
        (lookup_cached (cache_key reference) now c).0
        (lookup_cached-All (IsFrom h) (cache_key reference) now c a)
        (record { source = _; is_there = m; same_key = refl; same_value = made; lasts = refl })

  Reach-IsFrom : {h : List Answer} {c : Cache} → Reach settings h c → All (IsFrom h) c
  Reach-IsFrom empty = tt
  Reach-IsFrom (call now inner reference {h} {c} r) =
      let new : Answer = record { reference = reference; answer = inner reference; at = now } in
      Kept-IsFrom now inner reference c (resolve_cached settings now inner reference c).0
        (h ++ new ∷ []) (resolve_cached-Kept settings now inner reference c)
        (In-append_right new h (new ∷ []) (inl refl))
        (All-of_In _ c
          (λ e m. IsFrom-longer h (new ∷ []) e (All-In (IsFrom h) e c (Reach-IsFrom r) m)))

  -- What a value is that a call gives: the answer of the resolver below at this call, or its answer
  -- for the same reference at an earlier one that lies less than the lifetime back.
  abbrev pub IsRecent :
      ℕ → (SecretReference → Option Text) → SecretReference → List Answer → Text → Type 0
  IsRecent now inner reference h value =
      (inner reference ≡ some value)
      ⊎ ((a : Answer) × In a h
          × (a.reference ≡ reference)
          × (a.answer ≡ some value)
          × (now < a.at + settings.ttl))

  lookup_cached_sound :
      (key : Text) (now : ℕ) (c : Cache) (value : Text)
      → (lookup_cached key now c).1 ≡ some value
      → (e : CachedSecretValue) × In e c
        × (e.key ≡ key)
        × (e.value ≡ value)
        × (ltb now e.expires_at ≡ true)
  unfolding lookup_cached
  lookup_cached_sound key now c value h = elim (Option-cases (find (has_cache_key key) c)) [
    | inl gone ↦ absurd (cc (rw (gone, lookup_cached) at h))
    | inr (e, found) ↦ elim (Bool-cases (ltb now e.expires_at)) [
      | inr old ↦ absurd (cc (rw (found, old, lookup_cached) at h))
      | inl fresh ↦
          let (m, k) = find_sound (has_cache_key key) c e found in
          (
            e,
            m,
            text_eq_sound e.key key k,
            eq_of_some (rw (found, fresh, lookup_cached) at h),
            fresh,
          )
    ]
  ]

  -- After any calls at any times, a value that a call gives is the answer of the resolver below at
  -- this call, or its answer to a call for the same reference less than the lifetime before.
  pub resolve_cached-IsRecent :
      {h : List Answer} {c : Cache} (now : ℕ) (inner : SecretReference → Option Text)
      → (reference : SecretReference) (value : Text) → Reach settings h c
      → (resolve_cached settings now inner reference c).1 ≡ some value
      → IsRecent now inner reference h value
  unfolding resolve_cached
  resolve_cached-IsRecent {h} {c} now inner reference value r e =
      let found = lookup_cached (cache_key reference) now c in
      elim (Bool-cases (settings.ttl == 0)) [
        | inl off ↦ inl (rw (off, resolve_cached) at e)
        | inr on ↦ elim (Option-cases found.1) [
          | inr (v, hit) ↦
              let (x, m, k, same, fresh) = lookup_cached_sound (cache_key reference) now c v hit in
              let f = All-In (IsFrom h) x c (Reach-IsFrom r) m in
              let given : v ≡ value = eq_of_some (rw (on, hit, resolve_cached) at e) in
              let until = f.lasts in
              inr (
                f.source,
                f.is_there,
                cache_key_injective f.source.reference reference (f.same_key ∙ k),
                f.same_value ∙ ap (λ y. some y) (same ∙ given),
                ground (arith, until),
              )
          | inl miss ↦ elim (Option-cases (inner reference)) [
            | inl failed ↦ absurd (cc (rw (on, miss, failed, resolve_cached) at e))
            | inr (v, made) ↦ inl (made ∙ (rw (on, miss, made, resolve_cached) at e))
          ]
        ]
      ]
