-- ===== src/Siem/Rounds.antt =====
-- A round of `process_compliance_siem_delivery_outbox` with no other statement between its own.
use rust_agent.Base.{
  ℕ, true, false, All, In, arith, ◌≡◌, ◌≢◌, some, none, [], ◌∷◌, ◌⊎◌, ◌∙◌, Text, inl, inr, sym, ap,
  refl, HasUniqueKeys, All-of_In, All-In, Bool, Bool-cases, Option-cases, update_rows,
  update_rows-In_kept, update_rows-In_changed, find, find-none, List, is_empty, not, ◌&&◌,
  is_empty-In, Option, subst,
}
use rust_agent.Siem.{
  Outbox, ComplianceSiemDeliveryRecord, record_id, with_record_id,
  mark_compliance_siem_delivery_record_delivered, mark_compliance_siem_delivery_record_failed,
  mark_compliance_siem_delivery_record_dead_lettered,
}
use rust_agent.Siem.Delivery.{
  SiemConfig, HttpPost, HttpResponse, SiemDeliveryAttempt, attempt_delivered, attempt_failed,
  settle, deliver_records, attempt_compliance_siem_delivery,
  process_compliance_siem_delivery_outbox,
}
use rust_agent.Siem.Lifecycle.{claim_records}
use rust_agent.Siem.Claims.{claim-returned_unique, claim-listed}
use rust_agent.Siem.Invariant.{settled, settled-id, settle-update_rows}

module _ (send : HttpPost → HttpResponse ⊎ Text) (config : SiemConfig)
    (now utc : ComplianceSiemDeliveryRecord → ℕ) where
  -- The attempt that a round makes for a record, and the row that it leaves.
  abbrev pub attempt_of : ComplianceSiemDeliveryRecord → SiemDeliveryAttempt
  attempt_of r =
      attempt_compliance_siem_delivery send config r config.compliance_siem_delivery_http_enabled

  abbrev pub outcome : ComplianceSiemDeliveryRecord → ComplianceSiemDeliveryRecord
  outcome r = settled config now utc (attempt_of r) r r

  abbrev deliver : List ComplianceSiemDeliveryRecord → Outbox → Outbox × Bool
  deliver = deliver_records send config now utc

  abbrev settled_row :
      SiemDeliveryAttempt
      → ComplianceSiemDeliveryRecord
      → Option ComplianceSiemDeliveryRecord
      → Option ComplianceSiemDeliveryRecord
  settled_row a r none = none
  settled_row a r (some x) = some (settled config now utc a r x)

  settle-returned :
      (a : SiemDeliveryAttempt) (r : ComplianceSiemDeliveryRecord) (rows : Outbox)
      → (settle config now utc a r rows).1 ≡ settled_row a r (find (with_record_id r.id) rows)
  unfolding settle mark_compliance_siem_delivery_record_delivered
      mark_compliance_siem_delivery_record_failed mark_compliance_siem_delivery_record_dead_lettered
  settle-returned (attempt_delivered http_status) r rows = refl
  settle-returned (attempt_failed http_status error true) r rows = refl
  settle-returned (attempt_failed http_status error false) r rows = refl

  settle-found :
      (a : SiemDeliveryAttempt) (r : ComplianceSiemDeliveryRecord) (rows : Outbox)
      → In r rows
      → (s : ComplianceSiemDeliveryRecord) × ((settle config now utc a r rows).1 ≡ some s)
  settle-found a r rows m = elim (Option-cases (find (with_record_id r.id) rows)) [
    | inl e ↦ absurd (
        ground (
          arith,
          All-In (λ x. with_record_id r.id x ≡ false) r rows
              (find-none (with_record_id r.id) rows e) m,
        ))
    | inr (x, e) ↦ (settled config now utc a r x, settle-returned a r rows ∙ ap (settled_row a r) e)
  ]

  -- The rest of the loop goes on with the table of the first settlement.
  deliver-cons :
      (r : ComplianceSiemDeliveryRecord) (rs : List ComplianceSiemDeliveryRecord) (rows : Outbox)
      → In r rows
      → deliver (r ∷ rs) rows
        ≡ deliver rs
            (update_rows (with_record_id r.id) (settled config now utc (attempt_of r) r) rows)
  unfolding deliver_records
  deliver-cons r rs rows m =
      let (s, e) = settle-found (attempt_of r) r rows m in
      rw (e, settle-update_rows config now utc (attempt_of r) r rows, deliver_records) refl

  module _ (r x : ComplianceSiemDeliveryRecord) (rows : Outbox) where
    others_stay :
        x.id ≢ r.id
        → In x rows
        → In x (update_rows (with_record_id r.id) (settled config now utc (attempt_of r) r) rows)
    others_stay ne m =
        update_rows-In_kept (with_record_id r.id) (settled config now utc (attempt_of r) r) x rows
          (ground arith) m

  deliver-kept :
      (x : ComplianceSiemDeliveryRecord) (rs : List ComplianceSiemDeliveryRecord) (rows : Outbox)
      → HasUniqueKeys record_id rs
      → All (λ r. In r rows) rs
      → All (λ r. r.id ≢ x.id) rs
      → In x rows
      → In x (deliver rs rows).0
  deliver-kept x [] rows u h ne m = unfold deliver_records in m
  deliver-kept x (r ∷ rs) rows (fresh, u) (k, h) (ne, nes) m = rw (deliver-cons r rs rows k) (
      deliver-kept x rs _ u
        (All-of_In _ rs (λ y n.
          others_stay r y rows (All-In (λ z. z.id ≢ r.id) y rs fresh n)
            (All-In (λ z. In z rows) y rs h n)))
        nes (others_stay r x rows (λ e. ne (sym e)) m))

  deliver-outcome :
      (rs : List ComplianceSiemDeliveryRecord) (rows : Outbox)
      → HasUniqueKeys record_id rs
      → All (λ r. In r rows) rs
      → ((deliver rs rows).1 ≡ true) × All (λ r. In (outcome r) (deliver rs rows).0) rs
  deliver-outcome [] rows u h = (unfold deliver_records in refl, tt)
  deliver-outcome (r ∷ rs) rows (fresh, u) (k, h) =
      let rows' =
        update_rows (with_record_id r.id) (settled config now utc (attempt_of r) r) rows in
      let h' : All (λ y. In y rows') rs = All-of_In _ rs (λ y n.
        others_stay r y rows (All-In (λ z. z.id ≢ r.id) y rs fresh n)
          (All-In (λ z. In z rows) y rs h n)) in
      let (ok, rest) = deliver-outcome rs rows' u h' in
      let mine =
        update_rows-In_changed (with_record_id r.id) (settled config now utc (attempt_of r) r) r
          rows (ground arith) k in
      let kept =
        deliver-kept (outcome r) rs rows' u h'
          (rw (settled-id config now utc (attempt_of r) r r) fresh) mine in
      subst (λ y. (y.1 ≡ true) × All (λ x. In (outcome x) y.0) (r ∷ rs))
        (sym (deliver-cons r rs rows k)) (ok, (kept, rest))

  -- A round over a table with distinct identifiers, whose HTTP client can be built if it is wanted,
  -- comes to its end, and each record that it claimed has been settled as its own attempt says:
  -- delivered, failed with a later time, or dead-lettered.
  pub process-outcome :
      (claim_now : ℕ) (rows : Outbox)
      → HasUniqueKeys record_id rows
      → ((process_compliance_siem_delivery_outbox send config now utc claim_now true rows).1 ≡ true)
        × All
            (λ r.
              In
                (outcome r)
                (process_compliance_siem_delivery_outbox send config now utc claim_now true rows).0)
            (claim_records claim_now config.worker_id config.compliance_siem_delivery_lease
              config.compliance_siem_delivery_batch_size rows).1
  unfolding process_compliance_siem_delivery_outbox
  process-outcome claim_now rows u =
      let claimed =
        claim_records claim_now config.worker_id config.compliance_siem_delivery_lease
          config.compliance_siem_delivery_batch_size rows in
      let h =
        deliver-outcome claimed.1 claimed.0
          (claim-returned_unique claim_now config.worker_id config.compliance_siem_delivery_lease
            config.compliance_siem_delivery_batch_size rows u)
          (claim-listed claim_now config.worker_id config.compliance_siem_delivery_lease
            config.compliance_siem_delivery_batch_size rows u) in
      elim (Bool-cases (is_empty claimed.1)) [
        | inl e ↦
            rw (e, process_compliance_siem_delivery_outbox)
              (refl, All-of_In _ claimed.1 (λ r m. absurd (is_empty-In r claimed.1 e m)))
        | inr e ↦
            let built : (config.compliance_siem_delivery_http_enabled && not true) ≡ false =
              ground arith in
            rw (e, built, process_compliance_siem_delivery_outbox) h
      ]
