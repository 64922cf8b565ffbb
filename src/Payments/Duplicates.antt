-- ===== src/Payments/Duplicates.antt =====
-- A second payment under one key of a tenant, in worker/src/lib.rs.
use rust_agent.Base.{
  ℕ, Bool, true, false, ◌≡◌, ◌≢◌, refl, In, All, All-In, arith, Option, some, Option-cases, find,
  find_sound, find-none, Text, inl, inr, ◌==◌,
}
use rust_agent.Json.{Value}
use rust_agent.Payments.{
  PaymentConfig, Payment, PaymentRequest, parse_payment, fits_i64, same_payment,
  create_or_get_payment_request,
}
use rust_agent.Payments.Sending.{
  PaymentState, execute_payment_send_action, send_payment, duplicate_payment,
}

-- A payment of less than 2 ^ 63 units (or of no amount) under a key that the tenant has used already,
-- for an action request that is new, is reported as a duplicate of the row of that key, and changes nothing: neither the tables nor the
-- spend nor the health of a route, so that nothing is sent to one.
pub execute_payment_send_action-duplicate :
    (route_hash : Text → Text → ℕ) (send_nwc send_cashu : Payment → Text → Option Bool)
    → (asked lost : Text → ℕ) (config : PaymentConfig) (tenant : Text)
    → (agent id action_request_id : ℕ) (args : Value) (s : PaymentState) (p : Payment)
    → (r : PaymentRequest) → parse_payment args ≡ some p
    → fits_i64 p.amount_msat ≡ true
    → All (λ x. x.action_request_id ≢ action_request_id) s.requests
    → In r s.requests
    → same_payment tenant p.idempotency_key r ≡ true
    → (prior : PaymentRequest) × In prior s.requests
      × (same_payment tenant p.idempotency_key prior ≡ true)
      × (execute_payment_send_action route_hash send_nwc send_cashu asked lost config tenant agent
            id action_request_id args s
          ≡ (s, duplicate_payment prior))
unfolding execute_payment_send_action send_payment create_or_get_payment_request
execute_payment_send_action-duplicate route_hash send_nwc send_cashu asked lost config tenant agent
      id action_request_id args s p r parsed fits fresh m h =
    elim (Option-cases (find (same_payment tenant p.idempotency_key) s.requests)) [
      | inl e ↦ absurd (
          ground (
            arith,
            All-In (λ x. same_payment tenant p.idempotency_key x ≡ false) r s.requests
                (find-none (same_payment tenant p.idempotency_key) s.requests e) m,
          ))
      | inr (prior, e) ↦
          let (n, k) = find_sound (same_payment tenant p.idempotency_key) s.requests prior e in
          let other =
            All-In (λ x. x.action_request_id ≢ action_request_id) prior s.requests fresh n in
          let differs : (prior.action_request_id == action_request_id) ≡ false = ground arith in
          (
            prior,
            n,
            k,
            rw (parsed, execute_payment_send_action)
                (rw (fits, e, differs, send_payment, create_or_get_payment_request) refl),
          )
    ]
