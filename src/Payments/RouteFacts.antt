-- ===== src/Payments/RouteFacts.antt =====
-- Which routes the resolution of worker/src/lib.rs leaves, and in which order.
use rust_agent.Base.{
  if◌then◌else◌, ap, suc, zero, sym, Bool-cases, inl, inr, not, ◌&&◌, refl, ◌%◌, ltb, leb, arith,
  ◌∷◌, drop, [], false, true, ◌++◌, ◌≤◌, ◌<◌, length, Bool, take, Text, List, ℕ, ◌≡◌, ◌⊎◌, ◌∙◌,
}
use rust_agent.Payments.{RouteConfig, PaymentNwcRouteStrategy, ordered, deterministic_hash}
use rust_agent.Payments.Routes.{
  ResolvedRoutes, limit_routes, in_order, deterministic_route_offset,
  is_payment_route_rollout_enabled,
}

append_nil : (xs : List Text) → xs ++ [] ≡ xs
append_nil [] = refl
append_nil (x ∷ xs) = ap (λ ys. x ∷ ys) (append_nil xs)

take-append-drop : (k : ℕ) (xs : List Text) → xs ≡ take k xs ++ drop k xs
take-append-drop zero xs = refl
take-append-drop (suc k) [] = refl
take-append-drop (suc k) (x ∷ xs) = ap (λ ys. x ∷ ys) (take-append-drop k xs)

length-take : (k : ℕ) (xs : List Text) → k ≤ length xs → length (take k xs) ≡ k
length-take zero xs h = refl
length-take (suc k) [] h = absurd (omega arith)
length-take (suc k) (x ∷ xs) h = omega (arith, length-take k xs (omega arith))

take_one_few : (xs : List Text) → length xs ≤ 1 → xs ≡ take 1 xs
take_one_few [] h = refl
take_one_few (x ∷ []) h = refl
take_one_few (x ∷ y ∷ xs) h = absurd (omega arith)

-- The two cuts of the resolution.
abbrev left : Bool → Bool → List Text → List Text
left fallback stops xs =
    let rolled = if stops then take 1 xs else xs in if fallback then rolled else take 1 rolled

left-all :
    (fallback stops : Bool) (xs : List Text)
    → fallback ≡ true
    → stops ≡ false
    → left fallback stops xs ≡ xs
left-all fallback stops xs e f = rw (e, f) refl

left-first :
    (fallback stops : Bool) (xs : List Text)
    → (fallback ≡ false) ⊎ (stops ≡ true)
    → left fallback stops xs ≡ take 1 xs
left-first true true xs why = refl
left-first true false xs (inl e) = cc
left-first true false xs (inr e) = cc
left-first false true [] why = refl
left-first false true (x ∷ xs) why = refl
left-first false false xs why = refl

module _ (route_hash : Text → Text → ℕ) (config : RouteConfig) (wallet key : Text) where
  -- The rollout stops a payment that has a choice, if its place among a hundred is not below the
  -- percentage.
  abbrev pub IsStopped : List Text → Type 0
  IsStopped found =
      (2 ≤ length found)
      × (config.route_rollout_percent < 100)
      × (config.route_rollout_percent ≤ route_hash wallet key % 100)

  -- `back ++ front` is the list in the order of the strategy: as found, or turned to the left by the
  -- hash.
  pub record IsTurned (s : PaymentNwcRouteStrategy) (found front back : List Text) : Type 0 where
    pub parts : found ≡ front ++ back
    pub fixed : s ≡ ordered → front ≡ []
    pub offset :
        s ≡ deterministic_hash
        → 1 ≤ length found
        → length front ≡ route_hash wallet key % length found

  -- The routes that are left: all in their order, or the first of them if fallback is off or the
  -- rollout stops the payment, which the result reports.
  pub record IsResolved (found : List Text) (r : ResolvedRoutes) : Type 0 where
    pub front : List Text
    pub back : List Text
    pub turned : IsTurned config.route_strategy found front back
    pub limited :
        (r.rollout_limited ≡ true → IsStopped found) × (IsStopped found → r.rollout_limited ≡ true)
    pub all :
        config.route_fallback_enabled ≡ true → ¬ IsStopped found → r.candidates ≡ back ++ front
    pub first :
        (config.route_fallback_enabled ≡ false) ⊎ IsStopped found
        → r.candidates ≡ take 1 (back ++ front)

  offset_below : (n : ℕ) → deterministic_route_offset route_hash wallet key n ≤ n
  unfolding deterministic_route_offset
  offset_below zero = omega arith
  offset_below (suc n) = omega arith

  offset_eq :
      (n : ℕ)
      → 1 ≤ n
      → deterministic_route_offset route_hash wallet key n ≡ route_hash wallet key % n
  unfolding deterministic_route_offset
  offset_eq zero h = absurd (omega arith)
  offset_eq (suc n) h = refl

  in_order-IsTurned :
      (s : PaymentNwcRouteStrategy) (found : List Text)
      → (front : List Text) × (back : List Text) × IsTurned s found front back
        × (in_order route_hash s wallet key found ≡ back ++ front)
  in_order-IsTurned ordered found = (
    [],
    found,
    record { parts = refl; fixed = λ e. refl; offset = λ e h. cc },
    sym (append_nil found),
  )
  in_order-IsTurned deterministic_hash found =
      let k = deterministic_route_offset route_hash wallet key (length found) in
      (
        take k found,
        drop k found,
        record {
          parts = take-append-drop k found;
          fixed = λ e. cc;
          offset =
              λ e h. length-take k found (offset_below (length found)) ∙ offset_eq (length found) h;
        },
        refl,
      )

  few-IsTurned :
      (s : PaymentNwcRouteStrategy) (found : List Text)
      → length found ≤ 1
      → IsTurned s found [] found
  few-IsTurned s [] h = record {
    parts = refl;
    fixed = λ e. refl;
    offset = λ e k. absurd (omega arith);
  }
  few-IsTurned s (x ∷ []) h = record {
    parts = refl;
    fixed = λ e. refl;
    offset = λ e k. omega arith;
  }
  few-IsTurned s (x ∷ y ∷ xs) h = absurd (omega arith)

  rollout_stops : Bool
  rollout_stops =
      ltb config.route_rollout_percent 100
      && not (is_payment_route_rollout_enabled route_hash wallet key config.route_rollout_percent)

  rollout_stops_iff :
      (rollout_stops ≡ true
        → (config.route_rollout_percent < 100)
          × (config.route_rollout_percent ≤ route_hash wallet key % 100))
      × (config.route_rollout_percent < 100
          → config.route_rollout_percent ≤ route_hash wallet key % 100
          → rollout_stops ≡ true)
  unfolding rollout_stops is_payment_route_rollout_enabled deterministic_route_offset
  rollout_stops_iff = (λ h. ground arith, λ a b. ground arith)

  -- Whatever the hash is: the routes that were found, in their order (as found, or turned to the left
  -- by the hash), are all left if fallback is on and the rollout does not stop the payment; else the
  -- first of them alone is left. The rollout stops a payment, and the result says so, exactly if two
  -- routes or more were found and the percentage is below a hundred and not above the hash modulo a
  -- hundred.
  pub limit_routes-IsResolved :
      (found : List Text) → IsResolved found (limit_routes route_hash config wallet key found)
  unfolding limit_routes rollout_stops
  limit_routes-IsResolved found =
      let sorted = in_order route_hash config.route_strategy wallet key found in
      let (front, back, turned, order) = in_order-IsTurned config.route_strategy found in
      let (stops, is_stopped) = rollout_stops_iff in
      elim (Bool-cases (leb (length found) 1)) [
        | inl few ↦ rw few (record {
          front = [];
          back = found;
          turned = few-IsTurned config.route_strategy found (ground arith);
          limited = (λ h. cc, λ h. absurd (ground arith));
          all = λ on free. sym (append_nil found);
          first = λ why.
              take_one_few found (ground arith) ∙ ap (λ xs. take 1 xs) (sym (append_nil found));
        })
        | inr many ↦
            let two : 2 ≤ length found = ground arith in
            rw many (record {
              front = front;
              back = back;
              turned = turned;
              limited = (λ h. (two, (stops h).0, (stops h).1), λ (n, a, b). is_stopped a b);
              all = λ on free.
                  left-all config.route_fallback_enabled rollout_stops sorted on
                    (elim (Bool-cases rollout_stops) [
                      | inl h ↦ absurd (free (two, (stops h).0, (stops h).1))
                      | inr h ↦ h
                    ])
                  ∙ order;
              first = λ why.
                  left-first config.route_fallback_enabled rollout_stops sorted
                    (elim why [ inl off ↦ inl off | inr (n, a, b) ↦ inr (is_stopped a b) ])
                  ∙ ap (λ xs. take 1 xs) order;
            })
      ]
