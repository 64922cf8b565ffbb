-- ===== src/Payments/Fallback.antt =====
-- The loop over the routes of a payment, worker/src/lib.rs: whom it asks, and what it answers.
use rust_agent.Base.{
  ap, if◌then◌else◌, All-of_In, All-In, ◌≡◌, Bool, match_text, Text, ℕ, Option, Bool-cases, text_eq,
  false, List, inl, filter, ◌∷◌, none, All, refl, inr, Option-cases, subst, ◌∙◌, some, [], sym,
  text_eq_sound, suc,
}
use rust_agent.Payments.{RouteConfig}
use rust_agent.Payments.Health.{
  HealthMap, put_entry, remove_entry, should_attempt_payment_route, mark_payment_route_failure,
  try_routes, is_untracked, is_cooling, fresh_entry, PaymentRouteHealthEntry,
}

match_text-remove_entry_other :
    (key other : Text) (m : HealthMap)
    → text_eq other key ≡ false
    → match_text other (remove_entry key m) ≡ match_text other m
unfolding match_text
match_text-remove_entry_other key other [] ne = refl
match_text-remove_entry_other key other ((k, e) ∷ m) ne =
    let rest = match_text-remove_entry_other key other m ne in
    elim (Bool-cases (text_eq k key)) [
      | inl same ↦
          let differs : text_eq other k ≡ false =
            subst (λ x. text_eq other x ≡ false) (sym (text_eq_sound k key same)) ne in
          rw (same, differs, rest) refl
      | inr kept ↦ rw (kept, rest) refl
    ]

-- A question about one route, and its failure, leave the entries of the others.
module _ (config : RouteConfig) (key other : Text) (ne : text_eq other key ≡ false) where
  match_text-put_entry_other :
      (e : PaymentRouteHealthEntry) (m : HealthMap)
      → match_text other (put_entry key e m) ≡ match_text other m
  unfolding match_text
  match_text-put_entry_other e m = rw (ne, match_text-remove_entry_other key other m ne) refl

  match_text-should_attempt_payment_route :
      (now : ℕ) (m : HealthMap)
      → match_text other (should_attempt_payment_route config now key m).0 ≡ match_text other m
  unfolding should_attempt_payment_route
  match_text-should_attempt_payment_route now m = elim (Bool-cases (is_untracked config)) [
    | inl off ↦ rw off refl
    | inr on ↦ elim (Option-cases (match_text key m)) [
      | inl e ↦ rw (on, e) refl
      | inr (f, e) ↦ elim (Bool-cases (is_cooling now f)) [
        | inl cold ↦ rw (on, e, cold) refl
        | inr warm ↦ rw (on, e, warm) (match_text-put_entry_other fresh_entry m)
      ]
    ]
  ]

  match_text-mark_payment_route_failure :
      (now : ℕ) (m : HealthMap)
      → match_text other (mark_payment_route_failure config now key m) ≡ match_text other m
  unfolding mark_payment_route_failure
  match_text-mark_payment_route_failure now m = elim (Bool-cases (is_untracked config)) [
    | inl off ↦ rw off refl
    | inr on ↦ elim (Option-cases (match_text key m)) [
      | inl e ↦ rw (on, e) (match_text-put_entry_other _ m)
      | inr (f, e) ↦ rw (on, e) (match_text-put_entry_other _ m)
    ]
  ]

-- Whether a route may be asked depends on its own entry alone.
should_attempt_payment_route-cong :
    (config : RouteConfig) (now : ℕ) (key : Text) (m n : HealthMap)
    → match_text key m ≡ match_text key n
    → (should_attempt_payment_route config now key m).1
      ≡ (should_attempt_payment_route config now key n).1
unfolding should_attempt_payment_route
should_attempt_payment_route-cong config now key m n e = elim (Bool-cases (is_untracked config)) [
  | inl off ↦ rw off refl
  | inr on ↦ elim (Option-cases (match_text key n)) [
    | inl q ↦ rw (on, e, q) refl
    | inr (f, q) ↦ elim (Bool-cases (is_cooling now f)) [
      | inl cold ↦ rw (on, e, q, cold) refl
      | inr warm ↦ rw (on, e, q, warm) refl
    ]
  ]
]

-- The answer of the routes of a list, asked one after the other up to the first that answers, or, where
-- fallback is off, of the first alone; and how many are asked.
module _ {A : Type 0} (fallback : Bool) (send : Text → Option A) where
  abbrev pub first_answer : List Text → Option A
  first_answer [] = none
  first_answer (u ∷ us) = elim (send u) [
    | some answer ↦ some answer
    | none ↦ if fallback then first_answer us else none
  ]

  abbrev pub asked_count : List Text → ℕ
  asked_count [] = 0
  asked_count (u ∷ us) = elim (send u) [
    | some answer ↦ 1
    | none ↦ if fallback then suc (asked_count us) else 1
  ]

-- The routes that are not in cooldown in a map.
abbrev pub available : RouteConfig → (Text → Text) → (Text → ℕ) → HealthMap → List Text → List Text
available config key_of asked m uris =
    filter (λ u. (should_attempt_payment_route config (asked u) (key_of u) m).1) uris

-- No two routes have one key.
abbrev pub HasDistinctKeys : (Text → Text) → List Text → Type 0
HasDistinctKeys key_of [] = Unit
HasDistinctKeys key_of (u ∷ us) =
    All (λ x. text_eq (key_of x) (key_of u) ≡ false) us × HasDistinctKeys key_of us

module _ (config : RouteConfig) {A : Type 0} (key_of : Text → Text) (send : Text → Option A)
    (asked lost : Text → ℕ) where
  available-cong :
      (m n : HealthMap) (us : List Text)
      → All (λ x. match_text (key_of x) m ≡ match_text (key_of x) n) us
      → available config key_of asked m us ≡ available config key_of asked n us
  available-cong m n [] h = refl
  available-cong m n (u ∷ us) (e, h) =
      rw
        (
          should_attempt_payment_route-cong config (asked u) (key_of u) m n e,
          available-cong m n us h,
        )
        refl

  available-asked :
      (u : Text) (m : HealthMap) (us : List Text)
      → All (λ x. text_eq (key_of x) (key_of u) ≡ false) us
      → available config key_of asked
          (should_attempt_payment_route config (asked u) (key_of u) m).0
          us
        ≡ available config key_of asked m us
  available-asked u m us ne = available-cong _ m us (
      All-of_In _ us λ x n.
        match_text-should_attempt_payment_route config (key_of u) (key_of x)
          (All-In (λ y. text_eq (key_of y) (key_of u) ≡ false) x us ne n) (asked u) m)

  available-failed :
      (u : Text) (m : HealthMap) (us : List Text)
      → All (λ x. text_eq (key_of x) (key_of u) ≡ false) us
      → available config key_of asked (mark_payment_route_failure config (lost u) (key_of u) m) us
        ≡ available config key_of asked m us
  available-failed u m us ne = available-cong _ m us (
      All-of_In _ us λ x n.
        match_text-mark_payment_route_failure config (key_of u) (key_of x)
          (All-In (λ y. text_eq (key_of y) (key_of u) ≡ false) x us ne n) (lost u) m)

  -- The loop over routes with distinct keys asks those that are not in cooldown when it starts, one
  -- after the other and each once, up to the first that answers, or, where fallback is off, only the
  -- first of them: the outcome is that of the answers, and the count of attempts is that of the
  -- routes asked.
  pub try_routes-first_answer :
      (uris : List Text) (m : HealthMap)
      → HasDistinctKeys key_of uris
      → ((try_routes config key_of send asked lost uris m).outcome
          ≡ first_answer config.route_fallback_enabled send (available config key_of asked m uris))
        × ((try_routes config key_of send asked lost uris m).attempted
            ≡ asked_count config.route_fallback_enabled send (available config key_of asked m uris))
  unfolding try_routes
  try_routes-first_answer [] m d = (refl, refl)
  try_routes-first_answer (uri ∷ uris) m (ne, d) =
      let m' = (should_attempt_payment_route config (asked uri) (key_of uri) m).0 in
      let same = available-asked uri m uris ne in
      elim (Bool-cases (should_attempt_payment_route config (asked uri) (key_of uri) m).1) [
        | inr cold ↦
            let (out, count) = try_routes-first_answer uris m' d in
            rw (cold, try_routes) (out ∙ rw same refl, count ∙ rw same refl)
        | inl warm ↦ elim (Option-cases (send uri)) [
          | inr (answer, e) ↦ rw (warm, e, try_routes) (refl, refl)
          | inl e ↦ elim (Bool-cases config.route_fallback_enabled) [
            | inr off ↦ rw (warm, e, off, try_routes) (refl, refl)
            | inl on ↦
                let m'' = mark_payment_route_failure config (lost uri) (key_of uri) m' in
                let (out, count) = try_routes-first_answer uris m'' d in
                let kept = available-failed uri m' uris ne ∙ same in
                let fallback = config.route_fallback_enabled in
                rw (warm, e, on, try_routes)
                  (
                    out ∙ ap (λ us. first_answer fallback send us) kept,
                    ap suc (count ∙ ap (λ us. asked_count fallback send us) kept),
                  )
          ]
        ]
      ]
