-- ===== src/Payments/HealthFacts.antt =====
-- What the health of the routes of worker/src/lib.rs does to a loop over them.
use rust_agent.Base.{
  ℕ, ◌+◌, ◌<◌, ◌≤◌, true, ◌≡◌, refl, List, [], ◌∷◌, Text, All, arith, Option, none, some,
  Option-cases, Bool-cases, ◌==◌, match_text, text_eq, text_eq_refl, inl, inr, subst, eq_of_some,
  ◌<◌, false,
}
use rust_agent.Payments.{RouteConfig}
use rust_agent.Payments.Health.{
  PaymentRouteHealthEntry, HealthMap, put_entry, remove_entry, fresh_entry, is_untracked,
  should_attempt_payment_route, mark_payment_route_success, mark_payment_route_failure, try_routes,
}

-- No route of a map is in its cooldown, or will be.
abbrev pub IsHealthy : HealthMap → Type 0
IsHealthy m = All (λ e. e.1.unhealthy_until ≡ none) m

remove_entry-IsHealthy : (key : Text) (m : HealthMap) → IsHealthy m → IsHealthy (remove_entry key m)
remove_entry-IsHealthy key [] h = tt
remove_entry-IsHealthy key ((k, e) ∷ m) (x, h) = ground (arith, remove_entry-IsHealthy key m h)

match_text-IsHealthy :
    (key : Text) (m : HealthMap) (e : PaymentRouteHealthEntry)
    → IsHealthy m
    → match_text key m ≡ some e
    → e.unhealthy_until ≡ none
unfolding match_text
match_text-IsHealthy key [] e h q = cc
match_text-IsHealthy key ((k, f) ∷ m) e (x, h) q = elim (Bool-cases (text_eq key k)) [
  | inl same ↦ subst (λ y. y.unhealthy_until ≡ none) (eq_of_some (rw same at q)) x
  | inr other ↦ match_text-IsHealthy key m e h (rw other at q)
]

match_text-put_entry :
    (key : Text) (e : PaymentRouteHealthEntry) (m : HealthMap)
    → match_text key (put_entry key e m) ≡ some e
unfolding match_text
match_text-put_entry key e m = rw (text_eq_refl key) refl

-- A failure is stored with a count of one: the question before it has set the count to zero.
module _ (config : RouteConfig) (many : 2 ≤ config.route_health_fail_threshold) where
  pub attempt_and_fail :
      (asked lost : ℕ) (key : Text) (m : HealthMap)
      → IsHealthy m
      → ((should_attempt_payment_route config asked key m).1 ≡ true)
        × IsHealthy (should_attempt_payment_route config asked key m).0
        × IsHealthy (
            mark_payment_route_failure config lost key
              (should_attempt_payment_route config asked key m).0)
  unfolding should_attempt_payment_route mark_payment_route_failure
  attempt_and_fail asked lost key m h = elim (Bool-cases (is_untracked config)) [
    | inl off ↦ rw off (refl, h, h)
    | inr on ↦ elim (Option-cases (match_text key m)) [
      | inl e ↦ rw (on, e) (refl, h, rw e (ground arith, remove_entry-IsHealthy key m h))
      | inr (f, e) ↦
          let calm = match_text-IsHealthy key m f h e in
          let rest = remove_entry-IsHealthy key m h in
          rw (on, e, calm)
            (
              refl,
              (refl, rest),
              rw (match_text-put_entry key fresh_entry m) (
                ground arith,
                remove_entry-IsHealthy key (put_entry key fresh_entry m) (refl, rest),
              ),
            )
    ]
  ]

  module _ {A : Type 0} (key_of : Text → Text) (send : Text → Option A)
      (asked lost : Text → ℕ) where
    success-IsHealthy :
        (key : Text) (m : HealthMap)
        → IsHealthy m
        → IsHealthy (mark_payment_route_success config key m)
    unfolding mark_payment_route_success
    success-IsHealthy key m h = elim (Bool-cases (config.route_health_fail_threshold == 0)) [
      | inl off ↦ rw (off, mark_payment_route_success) h
      | inr on ↦ rw (on, mark_payment_route_success) (remove_entry-IsHealthy key m h)
    ]

    -- With a threshold of two or more, a loop over routes, from a map of health in which no entry has
    -- a cooldown, skips no route and leaves no entry with a cooldown, whatever fails: after any number of payments one after the
    -- other, however often a route has failed, it is still attempted.
    pub try_routes-skipped :
        (uris : List Text) (m : HealthMap)
        → IsHealthy m
        → ((try_routes config key_of send asked lost uris m).skipped ≡ 0)
          × IsHealthy (try_routes config key_of send asked lost uris m).health
    unfolding try_routes
    try_routes-skipped [] m h = (refl, h)
    try_routes-skipped (uri ∷ uris) m h =
        let (ok, h', h'') = attempt_and_fail (asked uri) (lost uri) (key_of uri) m h in
        let m' = (should_attempt_payment_route config (asked uri) (key_of uri) m).0 in
        elim (Option-cases (send uri)) [
          | inr (answer, e) ↦ rw (ok, e, try_routes) (refl, success-IsHealthy (key_of uri) m' h')
          | inl e ↦ elim (Bool-cases config.route_fallback_enabled) [
            | inl on ↦
                rw (ok, e, on, try_routes)
                  (try_routes-skipped uris
                    (mark_payment_route_failure config (lost uri) (key_of uri) m') h'')
            | inr off ↦ rw (ok, e, off, try_routes) (refl, h'')
          ]
        ]

-- With a threshold of one, a route that failed is not attempted before its cooldown has passed.
pub mark_payment_route_failure-should_attempt_payment_route :
    (config : RouteConfig) (failed_at now : ℕ) (key : Text) (m : HealthMap)
    → config.route_health_fail_threshold ≡ 1
    → now < failed_at + config.route_health_cooldown
    → 0 < config.route_health_cooldown
    → (should_attempt_payment_route config now key
        (mark_payment_route_failure config failed_at key m)).1
      ≡ false
unfolding should_attempt_payment_route mark_payment_route_failure
mark_payment_route_failure-should_attempt_payment_route config failed_at now key m one before cool =
    let on : is_untracked config ≡ false = ground arith in
    let found = λ (e : PaymentRouteHealthEntry). match_text-put_entry key e m in
    elim (Option-cases (match_text key m)) [
      | inl e ↦ rw (on, e) (rw (found _) (ground arith))
      | inr (f, e) ↦ rw (on, e) (rw (found _) (ground arith))
    ]
