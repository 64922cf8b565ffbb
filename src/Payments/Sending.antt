-- ===== src/Payments/Sending.antt =====
-- worker/src/lib.rs: `execute_payment_send_action` and `execute_cashu_payment_scaffold`, as far as
-- they change the tables, the spend of the run and the health of the routes. The statements are
-- taken to succeed but for the constraints of the table of requests. What a request to one route
-- gives is a parameter; the JSON of the output and the files of the outbox are left out.
use rust_agent.Base.{
  ℕ, Bool, true, false, ◌&&◌, not, Option, none, some, List, [], ◌∷◌, ◌++◌, Text, codes, contains,
  is_empty, if◌then◌else◌, is_some, ltb, ◌==◌,
}
use rust_agent.Json.{Value}
use rust_agent.Payments.{
  PaymentConfig, Payment, nwc, cashu, PaymentRequest, Requests, requested, executed, failed,
  parse_payment, create_or_get_payment_request, update_payment_request_status, payment_refusal,
  sum_executed_payment_amount_msat_for_tenant, sum_executed_payment_amount_msat_for_agent,
  saturating_add, is_pay_invoice, amount_of,
}
use rust_agent.Payments.Routes.{resolve_nwc_uris_for_wallet, resolve_cashu_mint_uris}
use rust_agent.Payments.Health.{HealthMap, payment_route_health_key, RouteRun, try_routes}

-- A row of `payment_results`: its status, and the code of an error.
pub record PaymentResult : Type 0 where
  pub payment_request_id : ℕ
  pub executed : Bool
  pub error_code : Option Text

pub record PaymentState : Type 0 where
  pub requests : Requests
  pub results : List PaymentResult
  pub payment_spend_msat : ℕ
  pub health : HealthMap

-- What a rail does with a payment: it settles it, or fails with the code that it stores, or fails
-- and stores nothing.
pub data RailResult : Type 0 where
  settled : RailResult
  declined : (code : Text) → RailResult
  abandoned : RailResult

pub data PaymentOutcome : Type 0 where
  invalid_payment : PaymentOutcome
  duplicate_payment : (prior : PaymentRequest) → PaymentOutcome
  declined_payment : (code : Text) → PaymentOutcome
  abandoned_payment : PaymentOutcome
  executed_payment : PaymentOutcome

unfoldable pub persist_failed_payment_request : ℕ → Text → PaymentState → PaymentState
persist_failed_payment_request id code s = record s {
  requests = update_payment_request_status id failed s.requests;
  results =
      s.results
      ++ record { payment_request_id = id; executed = false; error_code = some code } ∷ [];
}

-- The end of a payment that a rail has settled.
unfoldable pub record_execution : ℕ → Payment → PaymentState → PaymentState
record_execution id p s = record s {
  requests = update_payment_request_status id executed s.requests;
  results =
      s.results ++ record { payment_request_id = id; executed = true; error_code = none } ∷ [];
  payment_spend_msat =
      if is_pay_invoice p.operation
      then saturating_add s.payment_spend_msat (amount_of p.amount_msat)
      else s.payment_spend_msat;
}

-- The end of a payment whose request has the identifier `id`.
abbrev pub finish_payment : ℕ → Payment → RailResult → PaymentState → PaymentState × PaymentOutcome
finish_payment id p settled s = (record_execution id p s, executed_payment)
finish_payment id p (declined code) s =
    (persist_failed_payment_request id code s, declined_payment code)
finish_payment id p abandoned s = (s, abandoned_payment)

abbrev pub new_payment_request : Text → ℕ → ℕ → ℕ → Payment → PaymentRequest
new_payment_request tenant agent id action_request_id p = record {
  id = id;
  action_request_id = action_request_id;
  tenant_id = tenant;
  agent_id = agent;
  provider = p.provider;
  operation = p.operation;
  idempotency_key = p.idempotency_key;
  amount_msat = p.amount_msat;
  status = requested;
}

abbrev is_over : Option ℕ → Option ℕ → Bool
is_over none amount = false
is_over (some limit) none = false
is_over (some limit) (some amount) = ltb limit amount

module _ (route_hash : Text → Text → ℕ) (send_nwc send_cashu : Payment → Text → Option Bool)
    (asked lost : Text → ℕ) (config : PaymentConfig) where
  abbrev run_rail : Text → Payment → List Text → HealthMap → RouteRun Bool
  run_rail name p uris m = elim p.provider [
    | nwc ↦
        try_routes config.payment_nwc (payment_route_health_key config.worker_id name p.target)
          (send_nwc p) asked lost uris m
    | cashu ↦
        try_routes config.payment_cashu (payment_route_health_key config.worker_id name p.target)
          (send_cashu p) asked lost uris m
  ]

  -- `send_nwc` gives whether the answer can be read as one to the operation.
  unfoldable pub nwc_rail : Payment → HealthMap → HealthMap × RailResult
  unfolding contains
  nwc_rail p m =
      if not config.payment_nwc_enabled
      then (m, declined (codes "PAYMENT_DISABLED"))
      else if contains p.target (codes "nostr+walletconnect://")
      then (m, declined (codes "PAYMENT_INVALID_DESTINATION"))
      else let uris =
          (resolve_nwc_uris_for_wallet route_hash config p.target p.idempotency_key).candidates in
        if is_empty uris
        then if is_empty config.payment_nwc_wallet_uris
          then (m, settled)
          else (m, declined (codes "PAYMENT_WALLET_NOT_CONFIGURED"))
        else if is_pay_invoice p.operation && not (is_some p.invoice)
        then (m, abandoned)
        else let run = run_rail (codes "nwc") p uris m in
          (
            run.health,
            elim run.outcome [
              | none ↦ declined (codes "PAYMENT_NWC_REQUEST_FAILED")
              | some true ↦ settled
              | some false ↦ declined (codes "PAYMENT_NWC_RESPONSE_ERROR")
            ],
          )

  unfoldable pub cashu_rail : Payment → HealthMap → HealthMap × RailResult
  cashu_rail p m =
      let uris =
        (resolve_cashu_mint_uris route_hash config p.target p.idempotency_key).candidates in
      if not config.payment_cashu_enabled
      then (m, declined (codes "PAYMENT_CASHU_DISABLED"))
      else if is_over config.payment_cashu_max_spend_msat_per_run p.amount_msat
      then (m, declined (codes "PAYMENT_CASHU_RUN_BUDGET_EXCEEDED"))
      else if is_empty config.payment_cashu_mint_uris
      then (m, declined (codes "PAYMENT_CASHU_MINTS_NOT_CONFIGURED"))
      else if is_empty uris
      then (m, declined (codes "PAYMENT_CASHU_MINT_NOT_CONFIGURED"))
      else if config.payment_cashu_mock_enabled
      then (m, settled)
      else if not config.payment_cashu_http_enabled
      then (m, declined (codes "PAYMENT_CASHU_HTTP_DISABLED"))
      else let run = run_rail (codes "cashu") p uris m in
        (
          run.health,
          elim run.outcome [
            | none ↦ declined (codes "PAYMENT_CASHU_HTTP_FAILED")
            | some answer ↦ settled
          ],
        )

  abbrev pub rail : Payment → HealthMap → HealthMap × RailResult
  rail p m = elim p.provider [ nwc ↦ nwc_rail p m | cashu ↦ cashu_rail p m ]

  -- What follows the request of the payment: the checks, and the rail.
  unfoldable pub pay : Text → ℕ → ℕ → Payment → PaymentState → PaymentState × PaymentOutcome
  pay tenant agent id p s =
      elim (payment_refusal config s.payment_spend_msat
        (sum_executed_payment_amount_msat_for_tenant tenant s.requests)
        (sum_executed_payment_amount_msat_for_agent tenant agent s.requests) p) [
          | some code ↦ (persist_failed_payment_request id code s, declined_payment code)
          | none ↦
              let (m, result) = rail p s.health in
              finish_payment id p result (record s { health = m })
        ]

  unfoldable pub send_payment :
      Text → ℕ → ℕ → ℕ → Payment → PaymentState → PaymentState × PaymentOutcome
  send_payment tenant agent id action_request_id p s =
      elim (create_or_get_payment_request (new_payment_request tenant agent id action_request_id p)
        s.requests) [
          | none ↦ (s, invalid_payment)
          | some (rows, row) ↦ elim (row.action_request_id == action_request_id) [
            | false ↦ (record s { requests = rows }, duplicate_payment row)
            | true ↦ pay tenant agent row.id p (record s { requests = rows })
          ]
        ]

  unfoldable pub execute_payment_send_action :
      Text → ℕ → ℕ → ℕ → Value → PaymentState → PaymentState × PaymentOutcome
  execute_payment_send_action tenant agent id action_request_id args s = elim (parse_payment args) [
    | none ↦ (s, invalid_payment)
    | some p ↦ send_payment tenant agent id action_request_id p s
  ]
