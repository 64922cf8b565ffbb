-- ===== src/Payments/Health.antt =====
-- worker/src/lib.rs: the health of payment routes, and the loop over the routes of a payment. The
-- map of the process is the list of its entries; that its lock may be poisoned is left out. Times
-- are in milliseconds.
use rust_agent.Base.{
  ℕ, suc, ◌+◌, min, ◌^◌, ◌-◌, Bool, true, false, ◌||◌, ltb, leb, ◌==◌, Option, none, some, List, [],
  ◌∷◌, ◌++◌, Text, codes, text_eq, if◌then◌else◌, match_text, filter, not,
}
use rust_agent.Payments.{RouteConfig}

pub record PaymentRouteHealthEntry : Type 0 where
  pub consecutive_failures : ℕ
  pub unhealthy_until : Option ℕ

abbrev pub HealthMap : Type 0
HealthMap = List (Text × PaymentRouteHealthEntry)

abbrev pub remove_entry : Text → HealthMap → HealthMap
remove_entry key m = filter (λ e. not (text_eq e.0 key)) m

abbrev pub put_entry : Text → PaymentRouteHealthEntry → HealthMap → HealthMap
put_entry key e m = (key, e) ∷ remove_entry key m

abbrev pub fresh_entry : PaymentRouteHealthEntry
fresh_entry = record { consecutive_failures = 0; unhealthy_until = none }

abbrev u32_max : ℕ
u32_max = 2 ^ 32 - 1

-- `fail_threshold == 0 || cooldown.is_zero()`
abbrev pub is_untracked : RouteConfig → Bool
is_untracked config = config.route_health_fail_threshold == 0 || config.route_health_cooldown == 0

abbrev pub payment_route_health_key : Text → Text → Text → Text → Text
payment_route_health_key worker_id route_namespace wallet uri =
    worker_id ++ codes "|" ++ route_namespace ++ codes "|" ++ wallet ++ codes "|" ++ uri

abbrev pub is_cooling : ℕ → PaymentRouteHealthEntry → Bool
is_cooling now e = elim e.unhealthy_until [ none ↦ false | some until ↦ ltb now until ]

-- What the loop over the routes leaves.
pub record RouteRun (A : Type 0) : Type 0 where
  pub health : HealthMap
  pub outcome : Option A
  pub attempted : ℕ
  pub skipped : ℕ

module _ (config : RouteConfig) where
  -- Whether to attempt the route of a key, and the map after the question.
  unfoldable pub should_attempt_payment_route : ℕ → Text → HealthMap → HealthMap × Bool
  unfolding match_text
  should_attempt_payment_route now key m =
      if is_untracked config then (m, true) else elim (match_text key m) [
        | none ↦ (m, true)
        | some e ↦ if is_cooling now e then (m, false) else (put_entry key fresh_entry m, true)
      ]

  unfoldable pub mark_payment_route_success : Text → HealthMap → HealthMap
  mark_payment_route_success key m =
      if config.route_health_fail_threshold == 0 then m else remove_entry key m

  abbrev failed_entry : ℕ → ℕ → PaymentRouteHealthEntry → PaymentRouteHealthEntry
  failed_entry now failures e =
      if leb config.route_health_fail_threshold failures
      then record {
        consecutive_failures = 0;
        unhealthy_until = some (now + config.route_health_cooldown);
      }
      else record e { consecutive_failures = failures }

  unfoldable pub mark_payment_route_failure : ℕ → Text → HealthMap → HealthMap
  unfolding match_text
  mark_payment_route_failure now key m =
      if is_untracked config
      then m
      else let e : PaymentRouteHealthEntry = elim (match_text key m) [
        | none ↦ fresh_entry
        | some e ↦ e
      ] in
        put_entry key (failed_entry now (min (suc e.consecutive_failures) u32_max) e) m

  -- The loop over the candidates of `execute_payment_send_action` and of
  -- `execute_cashu_payment_scaffold`. `send` gives the answer of a route, or none where the request
  -- fails; a route is asked for at `asked` and fails at `lost`.
  module _ {A : Type 0} (key_of : Text → Text) (send : Text → Option A)
      (asked lost : Text → ℕ) where
    unfoldable pub try_routes : List Text → HealthMap → RouteRun A
    try_routes [] m = record { health = m; outcome = none; attempted = 0; skipped = 0 }
    try_routes (uri ∷ uris) m =
        let (m', ok) = should_attempt_payment_route (asked uri) (key_of uri) m in
        elim ok [
          | false ↦ let rest = try_routes uris m' in record rest { skipped = suc rest.skipped }
          | true ↦ elim (send uri) [
            | some answer ↦ record {
              health = mark_payment_route_success (key_of uri) m';
              outcome = some answer;
              attempted = 1;
              skipped = 0;
            }
            | none ↦
                let m'' = mark_payment_route_failure (lost uri) (key_of uri) m' in
                elim config.route_fallback_enabled [
                  | false ↦ record { health = m''; outcome = none; attempted = 1; skipped = 0 }
                  | true ↦
                      let rest = try_routes uris m'' in
                      record rest { attempted = suc rest.attempted }
                ]
          ]
        ]
