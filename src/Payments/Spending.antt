-- ===== src/Payments/Spending.antt =====
-- `execute_payment_send_action` of worker/src/lib.rs and the budgets of a run, a tenant, an agent.
use rust_agent.Base.{
  ℕ, Bool, true, false, ◌&&◌, ◌≡◌, ◌≢◌, sym, [], ◌∷◌, ◌++◌, Text, All, All-In, arith, Option, some,
  Option-cases, Bool-cases, inl, inr, ◌==◌, subst,
}
use rust_agent.Json.{Value}
use rust_agent.Payments.{
  PaymentConfig, Payment, is_taken, of_tenant, of_agent, is_spent, is_pay_invoice,
  sum_executed_payment_amount_msat_for_tenant, sum_executed_payment_amount_msat_for_agent,
  create_or_get_payment_request, parse_payment,
}
use rust_agent.Payments.Sending.{
  PaymentState, pay, new_payment_request, send_payment, execute_payment_send_action,
}
use rust_agent.Payments.Ledger.{create_or_get-cases}
use rust_agent.Payments.Budgets.{
  Effect, kept, was_failed, was_executed, pay-Effect, Effect-IsWithin, IsWithin, IsWithinBudgets,
  IsApproved, exceeds-IsWithin_saturating, payment_refusal-none, IsWithin-mono, with_request,
}

module _ (route_hash : Text → Text → ℕ) (send_nwc send_cashu : Payment → Text → Option Bool)
    (asked lost : Text → ℕ) (config : PaymentConfig) (tenant : Text) (agent : ℕ) where
  module _ (id action_request_id : ℕ) (p : Payment) (s : PaymentState) where
    abbrev after_request : PaymentState
    after_request =
        with_request route_hash send_nwc send_cashu asked lost config tenant agent id
          action_request_id p s

    abbrev Approval : Type 0
    Approval =
        IsApproved route_hash send_nwc send_cashu asked lost config tenant agent p after_request

    run-IsWithin :
        (s' : PaymentState)
        → Effect Approval id p after_request s'
        → IsWithin config.payment_max_spend_msat_per_run s.payment_spend_msat
        → IsWithin config.payment_max_spend_msat_per_run s'.payment_spend_msat
    run-IsWithin s' (kept _ e) h = rw e h
    run-IsWithin s' (was_failed _ e) h = rw e h
    run-IsWithin s' (was_executed a _ e) h = elim (Bool-cases (is_pay_invoice p.operation)) [
      | inr not_pays ↦ rw (rw not_pays at e) h
      | inl pays ↦ elim (Option-cases p.amount_msat) [
        | inl q ↦ rw (rw (pays, q) at e) (
            IsWithin-mono config.payment_max_spend_msat_per_run _ s.payment_spend_msat (omega arith)
              h)
        | inr (amount, q) ↦ rw (rw (pays, q) at e) (
            exceeds-IsWithin_saturating config.payment_max_spend_msat_per_run s.payment_spend_msat
              amount (payment_refusal-none config _ _ _ p amount a pays q).0)
      ]
    ]

    pay-IsWithinBudgets :
        All
          (λ x. is_taken (new_payment_request tenant agent id action_request_id p) x ≡ false)
          s.requests
        → IsWithinBudgets config tenant agent s
        → IsWithinBudgets config tenant agent
            (pay route_hash send_nwc send_cashu asked lost config tenant agent id p after_request).0
    unfolding sum_executed_payment_amount_msat_for_tenant sum_executed_payment_amount_msat_for_agent
    pay-IsWithinBudgets u h =
        let s' =
          (pay route_hash send_nwc send_cashu asked lost config tenant agent id p
            after_request).0 in
        let ef =
          pay-Effect route_hash send_nwc send_cashu asked lost config tenant agent id p
            after_request in
        let within =
          Effect-IsWithin route_hash send_nwc send_cashu asked lost config tenant agent id
            action_request_id p s in
        record {
          of_run = run-IsWithin s' ef h.of_run;
          of_its_tenant =
              within config.payment_max_spend_msat_per_tenant
                (λ r. of_tenant tenant r && is_spent r) Approval s' (λ r e. ground arith) u ef
                (λ a pays amount q. (payment_refusal-none config _ _ _ p amount a pays q).1)
                h.of_its_tenant;
          of_its_agent =
              within config.payment_max_spend_msat_per_agent
                (λ r. of_agent tenant agent r && is_spent r) Approval s' (λ r e. ground arith) u ef
                (λ a pays amount q. (payment_refusal-none config _ _ _ p amount a pays q).2)
                h.of_its_agent;
        }

    send_payment-IsWithinBudgets :
        All (λ r. r.action_request_id ≢ action_request_id) s.requests
        → IsWithinBudgets config tenant agent s
        → IsWithinBudgets config tenant agent
            (send_payment route_hash send_nwc send_cashu asked lost config tenant agent id
              action_request_id p s).0
    unfolding send_payment
    send_payment-IsWithinBudgets fresh h =
        let new = new_payment_request tenant agent id action_request_id p in
        elim (Option-cases (create_or_get_payment_request new s.requests)) [
          | inl e ↦ rw (e, send_payment) h
          | inr ((rows, row), e) ↦ elim (create_or_get-cases new s.requests rows row e) [
            | inl prior ↦
                let other =
                  All-In (λ r. r.action_request_id ≢ action_request_id) row s.requests fresh
                    prior.listed in
                let differs : (row.action_request_id == action_request_id) ≡ false = ground arith in
                rw (e, differs, send_payment)
                  (subst (λ y. IsWithinBudgets config tenant agent (record s { requests = y }))
                    (sym prior.unchanged) h)
            | inr added ↦
                let e' : create_or_get_payment_request new s.requests
                    ≡ some (s.requests ++ new ∷ [], new) =
                  cc (e, added.row, added.added) in
                let same : (action_request_id == action_request_id) ≡ true = ground arith in
                rw (e', same, send_payment) (pay-IsWithinBudgets added.untaken h)
          ]
        ]

  -- A payment whose action request is new leaves the spend of the run, of its tenant and of its
  -- agent within the limits that are set, if they were within them before, whatever the routes
  -- answer and whether the payment is executed, refused or a duplicate.
  pub execute_payment_send_action-IsWithinBudgets :
      (id action_request_id : ℕ) (args : Value) (s : PaymentState)
      → All (λ r. r.action_request_id ≢ action_request_id) s.requests
      → IsWithinBudgets config tenant agent s
      → IsWithinBudgets config tenant agent
          (execute_payment_send_action route_hash send_nwc send_cashu asked lost config tenant agent
            id action_request_id args s).0
  unfolding execute_payment_send_action
  execute_payment_send_action-IsWithinBudgets id action_request_id args s fresh h =
      elim (Option-cases (parse_payment args)) [
        | inl e ↦ rw (e, execute_payment_send_action) h
        | inr (p, e) ↦
            rw (e, execute_payment_send_action)
              (send_payment-IsWithinBudgets id action_request_id p s fresh h)
      ]
