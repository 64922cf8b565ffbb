-- ===== src/Siem/Claims.antt =====
-- What a claim of records does to the rows and to what the workers hold.
use rust_agent.Base.{
  ℕ, max, min, true, false, All, In, arith, ◌≡◌, ◌≢◌, Text, filter, inl, inr, subst, sym, ap,
  HasUniqueKeys, Bool-cases, sort_by, In-take, In-sort_by, In-filter, is_chosen-In,
  update_rows-In_kept, map-HasUniqueKeys, update_rows-HasUniqueKeys, update_rows-All,
  update_rows-In_changed, HasUniqueKeys-eq, In-map, filter-HasUniqueKeys, ◌∙◌, refl, All-of_In,
}
use rust_agent.Siem.{
  Outbox, ComplianceSiemDeliveryRecord, record_id, record_hit, claimable_records,
  is_claimable_record, attempted_before, as_processing,
  claim_pending_compliance_siem_delivery_records,
}
use rust_agent.Siem.Lifecycle.{IsSound, IsHeld, is_processing, claim_records}

module _ (now : ℕ) (owner : Text) (millis limit : ℕ) (rows : Outbox)
    (u : HasUniqueKeys record_id rows) where
  claimable_records-In :
      (c : ComplianceSiemDeliveryRecord)
      → In c (claimable_records now limit rows)
      → In c rows × (is_claimable_record now c ≡ true)
  claimable_records-In c m = In-filter (is_claimable_record now) c rows (
      In-sort_by attempted_before c (filter (is_claimable_record now) rows) (
        In-take c (min (max limit 1) 100)
          (sort_by attempted_before (filter (is_claimable_record now) rows)) m))

  pub record_hit-is_claimable_record :
      (r : ComplianceSiemDeliveryRecord)
      → In r rows
      → record_hit now limit rows r ≡ true
      → is_claimable_record now r ≡ true
  record_hit-is_claimable_record r m h =
      (claimable_records-In r (
        is_chosen-In record_id (claimable_records now limit rows) rows r u
          (λ c n. (claimable_records-In c n).0) m h)).1

  -- A record that is processed is not claimed.
  pub record_hit-is_processing :
      (r : ComplianceSiemDeliveryRecord)
      → In r rows
      → is_processing r ≡ true
      → record_hit now limit rows r ≡ false
  record_hit-is_processing r m p = elim (Bool-cases (record_hit now limit rows r)) [
    | inl hit ↦ absurd (ground (arith, record_hit-is_claimable_record r m hit))
    | inr free ↦ free
  ]

  abbrev taken : ComplianceSiemDeliveryRecord → ComplianceSiemDeliveryRecord
  taken = as_processing now owner millis

  pub claim_unique : HasUniqueKeys record_id (claim_records now owner millis limit rows).0
  unfolding claim_pending_compliance_siem_delivery_records
  claim_unique =
      update_rows-HasUniqueKeys record_id (record_hit now limit rows) taken (λ r. refl) rows u

  pub claim-IsSound : All IsSound rows → All IsSound (claim_records now owner millis limit rows).0
  unfolding claim_pending_compliance_siem_delivery_records
  claim-IsSound h =
      update_rows-All (record_hit now limit rows) taken IsSound rows
        (λ r m e x. ground (arith, record_hit-is_claimable_record r m e)) h

  pub claim-kept :
      (r : ComplianceSiemDeliveryRecord)
      → In r rows
      → is_processing r ≡ true
      → In r (claim_records now owner millis limit rows).0
  unfolding claim_pending_compliance_siem_delivery_records
  claim-kept r m p =
      update_rows-In_kept (record_hit now limit rows) taken r rows (record_hit-is_processing r m p)
        m

  -- What a claim returns comes from a row that could be claimed.
  pub claim-returned :
      (f : ComplianceSiemDeliveryRecord)
      → In f (claim_records now owner millis limit rows).1
      → (r : ComplianceSiemDeliveryRecord) × In r rows
        × (record_hit now limit rows r ≡ true)
        × (f ≡ taken r)
  unfolding claim_pending_compliance_siem_delivery_records
  claim-returned f m =
      let (r, n, e) = In-map taken f (filter (record_hit now limit rows) rows) m in
      let (k, h) = In-filter (record_hit now limit rows) r rows n in (r, k, h, e)

  pub claim-IsHeld :
      (f : ComplianceSiemDeliveryRecord)
      → In f (claim_records now owner millis limit rows).1
      → IsHeld (claim_records now owner millis limit rows).0 f
  unfolding claim_pending_compliance_siem_delivery_records
  claim-IsHeld f m =
      let (r, k, h, e) = claim-returned f m in
      (
        taken r,
        update_rows-In_changed (record_hit now limit rows) taken r rows h k,
        ap record_id (sym e),
        refl,
      )

  pub claim-returned_unique : HasUniqueKeys record_id (claim_records now owner millis limit rows).1
  unfolding claim_pending_compliance_siem_delivery_records
  claim-returned_unique =
      map-HasUniqueKeys record_id taken (λ r. refl) (filter (record_hit now limit rows) rows)
        (filter-HasUniqueKeys record_id (record_hit now limit rows) rows u)

  -- A claim returns no record with the identifier of one that is processed.
  pub claim-apart :
      (f r : ComplianceSiemDeliveryRecord)
      → In f (claim_records now owner millis limit rows).1
      → In r rows
      → is_processing r ≡ true
      → r.id ≢ f.id
  claim-apart f r m n p e =
      let (x, k, h, q) = claim-returned f m in
      let same = HasUniqueKeys-eq record_id x r rows u k n (sym (ap record_id q) ∙ sym e) in
      ground (
        arith,
        record_hit-is_claimable_record x k h,
        subst (λ y. is_processing y ≡ true) (sym same) p,
      )

  -- The rows that a claim returns are rows of the table that it leaves.
  pub claim-listed :
      All
        (λ f. In f (claim_records now owner millis limit rows).0)
        (claim_records now owner millis limit rows).1
  unfolding claim_pending_compliance_siem_delivery_records
  claim-listed = All-of_In _ (claim_records now owner millis limit rows).1 (λ f m.
      let (r, k, h, e) = claim-returned f m in
      rw e (update_rows-In_changed (record_hit now limit rows) taken r rows h k))
