-- ===== src/Tests/PaymentTests.antt =====
-- Payments on concrete inputs.
use rust_agent.Base.{
  ℕ, Bool, true, false, ◌≡◌, refl, [], ◌∷◌, Text, codes, In, arith, inl, Option, none, some,
  text_eq, trim, starts_with, contains, match_text, to_ascii_lowercase, ◌==◌, List, if◌then◌else◌,
}
use rust_agent.Json.{Value, object, string, number, pos_int, field, end, get}
use rust_agent.Payments.{
  PaymentConfig, RouteConfig, deterministic_hash, Payment, PaymentRequest, parse_payment,
  parse_operation, parse_destination, create_or_get_payment_request, update_payment_request_status,
  payment_refusal, sum_executed_payment_amount_msat_for_tenant,
  sum_executed_payment_amount_msat_for_agent, same_payment, nwc, pay_invoice,
}
use rust_agent.Payments.Routes.{
  split_route_value, nwc_candidates, cashu_candidates, limit_routes, deterministic_route_offset,
  is_payment_route_rollout_enabled, resolve_nwc_uris_for_wallet,
}
use rust_agent.Payments.Health.{
  HealthMap, should_attempt_payment_route, mark_payment_route_success, mark_payment_route_failure,
  try_routes,
}
use rust_agent.Payments.Sending.{
  PaymentState, execute_payment_send_action, send_payment, pay, nwc_rail, cashu_rail,
  persist_failed_payment_request, record_execution, duplicate_payment, new_payment_request,
}
use rust_agent.Payments.RouteFacts.{IsResolved, limit_routes-IsResolved}
use rust_agent.Payments.HealthFacts.{
  mark_payment_route_failure-should_attempt_payment_route, IsHealthy, try_routes-skipped,
}
use rust_agent.Payments.Fallback.{
  HasDistinctKeys, first_answer, asked_count, available, try_routes-first_answer,
}
use rust_agent.Payments.Budgets.{IsWithinBudgets}
use rust_agent.Payments.Spending.{execute_payment_send_action-IsWithinBudgets}
use rust_agent.Payments.Duplicates.{execute_payment_send_action-duplicate}

running_payments : Unit {0}
unfolding parse_payment parse_operation parse_destination create_or_get_payment_request
    update_payment_request_status payment_refusal sum_executed_payment_amount_msat_for_tenant
    sum_executed_payment_amount_msat_for_agent split_route_value nwc_candidates cashu_candidates
    limit_routes deterministic_route_offset is_payment_route_rollout_enabled
    should_attempt_payment_route mark_payment_route_success mark_payment_route_failure try_routes
    execute_payment_send_action send_payment pay nwc_rail cashu_rail persist_failed_payment_request
    record_execution get text_eq trim starts_with contains match_text to_ascii_lowercase
running_payments = tt

abbrev two_strikes : RouteConfig
two_strikes = record {
  route_strategy = deterministic_hash;
  route_fallback_enabled = true;
  route_rollout_percent = 100;
  route_health_fail_threshold = 2;
  route_health_cooldown = 60000;
}

abbrev pay_config : PaymentConfig
pay_config = record {
  worker_id = codes "w";
  payment_nwc_enabled = true;
  payment_nwc_uri = none;
  payment_nwc_wallet_uris = (codes "main", codes " a | |b ") ∷ [];
  payment_nwc = two_strikes;
  payment_cashu_enabled = false;
  payment_cashu_mint_uris = [];
  payment_cashu_default_mint = none;
  payment_cashu_max_spend_msat_per_run = none;
  payment_cashu_http_enabled = false;
  payment_cashu = two_strikes;
  payment_cashu_mock_enabled = false;
  payment_max_spend_msat_per_run = some 100;
  payment_approval_threshold_msat = none;
  payment_max_spend_msat_per_tenant = some 150;
  payment_max_spend_msat_per_agent = none;
}

abbrev always_one : Text → Text → ℕ
always_one wallet key = 1

-- The wallet behind `b` answers, that behind `a` does not.
abbrev only_b : Payment → Text → Option Bool
only_b p uri = elim uri [ [] ↦ none | c ∷ t ↦ elim (c == b'b') [ true ↦ some true | false ↦ none ] ]

abbrev at_noon : Text → ℕ
at_noon uri = 43200000

abbrev asked_payment : Value
asked_payment = object (
    field (codes "destination") (string (codes "NWC: main ")) (
      field (codes "operation") (string (codes "pay_invoice")) (
        field (codes "idempotency_key") (string (codes " k1 ")) (
          field (codes "amount_msat") (number (pos_int 60))
            (field (codes "invoice") (string (codes "lnbc1")) end)))))

abbrev empty_payments : PaymentState
empty_payments = record { requests = []; results = []; payment_spend_msat = 0; health = [] }

abbrev once_paid : PaymentState
once_paid =
    (execute_payment_send_action always_one only_b only_b at_noon at_noon pay_config (codes "t") 9 1
      11 asked_payment empty_payments).0

split_routes :
    (resolve_nwc_uris_for_wallet always_one pay_config (codes "main") (codes "k1")).candidates
    ≡ codes "b" ∷ codes "a" ∷ []
unfolding running_payments
split_routes = refl

paid : once_paid.payment_spend_msat ≡ 60
unfolding running_payments
paid = refl

IsWithinBudgets_example : IsWithinBudgets pay_config (codes "t") 9 empty_payments
unfolding running_payments
IsWithinBudgets_example = record {
  of_run = omega arith;
  of_its_tenant = omega arith;
  of_its_agent = tt;
}

execute_payment_send_action-IsWithinBudgets_example :
    IsWithinBudgets pay_config (codes "t") 9 once_paid
execute_payment_send_action-IsWithinBudgets_example =
    execute_payment_send_action-IsWithinBudgets always_one only_b only_b at_noon at_noon pay_config
      (codes "t") 9 1 11 asked_payment empty_payments tt IsWithinBudgets_example

limit_routes-IsResolved_example :
    IsResolved always_one two_strikes
      (codes "main")
      (codes "k1")
      (codes "a" ∷ codes "b" ∷ [])
      (limit_routes always_one two_strikes (codes "main") (codes "k1") (codes "a" ∷ codes "b" ∷ []))
limit_routes-IsResolved_example =
    limit_routes-IsResolved always_one two_strikes (codes "main") (codes "k1")
      (codes "a" ∷ codes "b" ∷ [])

abbrev same_key : Text → Text
same_key uri = uri

abbrev no_answer : Text → Option Bool
no_answer uri = none

-- The route has failed once, and is to fail again.
abbrev once_failed : HealthMap
once_failed = (codes "a", record { consecutive_failures = 1; unhealthy_until = none }) ∷ []

try_routes-skipped_example :
    ((try_routes two_strikes same_key no_answer at_noon at_noon
        (codes "a" ∷ [])
        once_failed).skipped
      ≡ 0)
    × IsHealthy
        (try_routes two_strikes same_key no_answer at_noon at_noon
          (codes "a" ∷ [])
          once_failed).health
try_routes-skipped_example =
    try_routes-skipped two_strikes (omega arith) same_key no_answer at_noon at_noon (codes "a" ∷ [])
      once_failed (refl, tt)

abbrev parsed_payment : Payment
parsed_payment = record {
  provider = nwc;
  target = codes "main";
  operation = pay_invoice;
  idempotency_key = codes "k1";
  amount_msat = some 60;
  payment_approved = false;
  invoice = some (codes "lnbc1");
}

asked_payment-parsed : parse_payment asked_payment ≡ some parsed_payment
unfolding running_payments
asked_payment-parsed = refl

abbrev prior_request : PaymentRequest
prior_request = new_payment_request (codes "t") 9 1 11 parsed_payment

abbrev used_key : PaymentState
used_key = record {
  requests = prior_request ∷ [];
  results = [];
  payment_spend_msat = 0;
  health = [];
}

same_key_used : same_payment (codes "t") (codes "k1") prior_request ≡ true
unfolding text_eq
same_key_used = refl

execute_payment_send_action-duplicate_example :
    (prior : PaymentRequest) × In prior used_key.requests
    × (same_payment (codes "t") (codes "k1") prior ≡ true)
    × (execute_payment_send_action always_one only_b only_b at_noon at_noon pay_config
          (codes "t")
          9
          2
          12
          asked_payment
          used_key
        ≡ (used_key, duplicate_payment prior))
execute_payment_send_action-duplicate_example =
    execute_payment_send_action-duplicate always_one only_b only_b at_noon at_noon pay_config
      (codes "t") 9 2 12 asked_payment used_key parsed_payment prior_request asked_payment-parsed
      refl (omega arith, tt) (inl refl) same_key_used

abbrev one_strike : RouteConfig
one_strike = record two_strikes { route_health_fail_threshold = 1; route_fallback_enabled = false }

mark_payment_route_failure-should_attempt_payment_route_example :
    (should_attempt_payment_route one_strike 59999
      (codes "a")
      (mark_payment_route_failure one_strike 0 (codes "a") once_failed)).1
    ≡ false
mark_payment_route_failure-should_attempt_payment_route_example =
    mark_payment_route_failure-should_attempt_payment_route one_strike 0 59999 (codes "a")
      once_failed refl (omega arith) (omega arith)

abbrev answer_of_b : Text → Option Bool
answer_of_b uri = if text_eq uri (codes "b") then some true else none

-- The first of three routes is in its cooldown, the second has no answer.
abbrev three_routes : List Text
three_routes = codes "a" ∷ codes "c" ∷ codes "b" ∷ []

abbrev a_is_cooling : HealthMap
a_is_cooling =
    (codes "a", record { consecutive_failures = 0; unhealthy_until = some 50000000 }) ∷ []

three_routes-HasDistinctKeys : HasDistinctKeys same_key three_routes
unfolding text_eq
three_routes-HasDistinctKeys = ((refl, (refl, tt)), ((refl, tt), (tt, tt)))

try_routes-first_answer_example :
    ((try_routes two_strikes same_key answer_of_b at_noon at_noon three_routes a_is_cooling).outcome
      ≡ first_answer true answer_of_b
          (available two_strikes same_key at_noon a_is_cooling three_routes))
    × ((try_routes two_strikes same_key answer_of_b at_noon at_noon three_routes
          a_is_cooling).attempted
        ≡ asked_count true answer_of_b
            (available two_strikes same_key at_noon a_is_cooling three_routes))
try_routes-first_answer_example =
    try_routes-first_answer two_strikes same_key answer_of_b at_noon at_noon three_routes
      a_is_cooling three_routes-HasDistinctKeys

two_asked :
    (try_routes two_strikes same_key answer_of_b at_noon at_noon three_routes
      a_is_cooling).attempted
    ≡ 2
unfolding running_payments
two_asked = refl
