-- ===== src/Secrets/Size.antt =====
-- The cache of secrets over any calls of the resolver, and its size.
use rust_agent.Base.{
  ℕ, zero, suc, ◌≤◌, ◌<◌, max, Bool, true, false, not, leb, ltb, ◌==◌, ◌≡◌, refl, sym, arith,
  Option, none, some, List, [], ◌∷◌, ◌++◌, Text, text_eq_refl, find, filter, length, length-append,
  All, All-of_In, All-In, In, In-filter, Option-cases, Bool-cases, eq_of_some, inl, inr, ◌⊎◌, ◌∙◌,
}
use rust_agent.Secrets.{SecretReference, cache_key}
use rust_agent.Secrets.Cache.{
  CachedSecretValue, Cache, CacheSettings, has_cache_key, remove_key, nth_key, make_room,
  lookup_cached, store_cached, resolve_cached,
}

pub length-filter : {A : Type 0} (p : A → Bool) (xs : List A) → length (filter p xs) ≤ length xs
length-filter {A} p [] = ground arith
length-filter {A} p (x ∷ xs) = ground (arith, length-filter p xs)

-- A filter that drops an entry shortens the list.
length-filter_less :
    {A : Type 0} (p : A → Bool) (x : A) (xs : List A)
    → In x xs
    → p x ≡ false
    → length (filter p xs) < length xs
length-filter_less {A} p x [] m h = absurd m
length-filter_less {A} p x (y ∷ xs) (inl e) h =
    let less = length-filter p xs in rw (sym e, h) (ground (arith, less))
length-filter_less {A} p x (y ∷ xs) (inr m) h =
    let less = length-filter_less p x xs m h in ground (arith, less)

pub All-filter :
    {A : Type 0} (P : A → Type 0) (p : A → Bool) (xs : List A) → All P xs → All P (filter p xs)
All-filter {A} P p xs h = All-of_In P (filter p xs) (λ x m. All-In P x xs h (In-filter p x xs m).0)

-- An entry has the key that is named first.
nth_key-In :
    (n : ℕ) (c : Cache) (k : Text)
    → nth_key n c ≡ some k
    → (e : CachedSecretValue) × In e c × (e.key ≡ k)
nth_key-In n [] k h = absurd (cc)
nth_key-In zero (e ∷ c) k h = (e, inl refl, eq_of_some h)
nth_key-In (suc n) (e ∷ c) k h = elim (Option-cases (nth_key n c)) [
  | inl gone ↦ (e, inl refl, eq_of_some (rw gone at h))
  | inr (j, found) ↦
      let (x, m, q) = nth_key-In n c j found in (x, inr m, q ∙ eq_of_some (rw found at h))
]

nth_key-none : (n : ℕ) (c : Cache) → nth_key n c ≡ none → length c ≡ 0
nth_key-none n [] h = refl
nth_key-none zero (e ∷ c) h = absurd (cc)
nth_key-none (suc n) (e ∷ c) h = elim (Option-cases (nth_key n c)) [
  | inl gone ↦ absurd (cc (rw gone at h))
  | inr (j, found) ↦ absurd (cc (rw found at h))
]

pub has_cache_key_own : (e : CachedSecretValue) (k : Text) → e.key ≡ k → has_cache_key k e ≡ true
has_cache_key_own e k h = rw h (text_eq_refl k)

-- What the resolver below answers for a reference at the time of a call.
pub record Answer : Type 0 where
  pub reference : SecretReference
  pub answer : Option Text
  pub at : ℕ

module _ (settings : CacheSettings) where
  make_room-length :
      (c : Cache)
      → length c ≤ max settings.max_entries 1
      → length (make_room settings c) < max settings.max_entries 1
  make_room-length c h = elim (Bool-cases (leb (max settings.max_entries 1) (length c))) [
    | inr room ↦ rw room (ground arith)
    | inl full ↦ elim (Option-cases (nth_key (settings.first_key c) c)) [
      | inl gone ↦
          let empty = nth_key-none (settings.first_key c) c gone in absurd (ground (arith, empty))
      | inr (k, named) ↦
          let (e, m, q) = nth_key-In (settings.first_key c) c k named in
          let less =
            length-filter_less (λ x. not (has_cache_key k x)) e c m
              (rw (has_cache_key_own e k q) refl) in
          rw (full, named) (ground (arith, less))
    ]
  ]

  store_cached-length :
      (key value : Text) (now : ℕ) (c : Cache)
      → length c ≤ max settings.max_entries 1
      → length (store_cached settings key value now c) ≤ max settings.max_entries 1
  unfolding store_cached
  store_cached-length key value now c h =
      let fresh = filter (λ e. ltb now e.expires_at) c in
      let room = make_room settings fresh in
      let a = length-filter (λ e. ltb now e.expires_at) c in
      let b = make_room-length fresh (omega (a, h, arith)) in
      let d = length-filter (λ e. not (has_cache_key key e)) room in
      rw (length-append (remove_key key room) _) (omega (b, d, arith))

  pub lookup_cached-cases :
      (key : Text) (now : ℕ) (c : Cache)
      → ((lookup_cached key now c).0 ≡ c) ⊎ ((lookup_cached key now c).0 ≡ remove_key key c)
  unfolding lookup_cached
  lookup_cached-cases key now c = elim (Option-cases (find (has_cache_key key) c)) [
    | inl gone ↦ inr (rw (gone, lookup_cached) refl)
    | inr (e, found) ↦ elim (Bool-cases (ltb now e.expires_at)) [
      | inl fresh ↦ inl (rw (found, fresh, lookup_cached) refl)
      | inr old ↦ inr (rw (found, old, lookup_cached) refl)
    ]
  ]

  -- What a call leaves: the cache, what a lookup leaves of it, or an answer that is stored.
  pub data Kept (now : ℕ) (inner : SecretReference → Option Text) (reference : SecretReference)
      (c : Cache) : Cache → Type 0 where
    as_was : Kept now inner reference c c
    as_found : Kept now inner reference c (lookup_cached (cache_key reference) now c).0
    stored :
        (value : Text)
        → inner reference ≡ some value
        → Kept now inner reference c (
            store_cached settings
              (cache_key reference)
              value
              now
              (lookup_cached (cache_key reference) now c).0)

  pub resolve_cached-Kept :
      (now : ℕ) (inner : SecretReference → Option Text) (reference : SecretReference) (c : Cache)
      → Kept now inner reference c (resolve_cached settings now inner reference c).0
  unfolding resolve_cached
  resolve_cached-Kept now inner reference c =
      let found = lookup_cached (cache_key reference) now c in
      elim (Bool-cases (settings.ttl == 0)) [
        | inl off ↦ rw (off, resolve_cached) as_was
        | inr on ↦ elim (Option-cases found.1) [
          | inr (value, hit) ↦ rw (on, hit, resolve_cached) as_found
          | inl miss ↦ elim (Option-cases (inner reference)) [
            | inl failed ↦ rw (on, miss, failed, resolve_cached) as_found
            | inr (value, made) ↦ rw (on, miss, made, resolve_cached) (stored value made)
          ]
        ]
      ]

  -- Calls one after another, at any times, with the answers that the resolver below had for them.
  pub data Reach : List Answer → Cache → Type 0 where
    empty : Reach [] []
    call :
        (now : ℕ) (inner : SecretReference → Option Text) (reference : SecretReference)
        → {h : List Answer} {c : Cache} → Reach h c
        → Reach
            (h ++ record { reference = reference; answer = inner reference; at = now } ∷ [])
            (resolve_cached settings now inner reference c).0

  lookup_cached-length :
      (key : Text) (now : ℕ) (c : Cache) → length (lookup_cached key now c).0 ≤ length c
  lookup_cached-length key now c = elim (lookup_cached-cases key now c) [
    | inl e ↦ rw e (omega arith)
    | inr e ↦ rw e (length-filter (λ x. not (has_cache_key key x)) c)
  ]

  Kept-length :
      (now : ℕ) (inner : SecretReference → Option Text) (reference : SecretReference) (c d : Cache)
      → Kept now inner reference c d
      → length c ≤ max settings.max_entries 1
      → length d ≤ max settings.max_entries 1
  Kept-length now inner reference c d as_was l = l
  Kept-length now inner reference c d as_found l =
      let less = lookup_cached-length (cache_key reference) now c in omega (l, less, arith)
  Kept-length now inner reference c d (stored value made) l =
      let less = lookup_cached-length (cache_key reference) now c in
      store_cached-length (cache_key reference) value now
        (lookup_cached (cache_key reference) now c).0 (omega (l, less, arith))

  -- The cache never holds more entries than its maximum, which counts as one where it is zero,
  -- whatever is asked at whatever times, and whichever key is evicted.
  pub Reach-length :
      {h : List Answer} {c : Cache} → Reach h c → length c ≤ max settings.max_entries 1
  Reach-length empty = omega arith
  Reach-length (call now inner reference {h} {c} r) =
      Kept-length now inner reference c (resolve_cached settings now inner reference c).0
        (resolve_cached-Kept now inner reference c) (Reach-length r)
