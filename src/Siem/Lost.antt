-- ===== src/Siem/Lost.antt =====
-- What a claim of core/src/db.rs does with a record whose worker is gone.
use rust_agent.Base.{
  true, All, In, arith, ◌≡◌, ◌≢◌, [], ◌∷◌, inl, inr, sym, All-append, All-of_In, All-In, Bool-cases,
  update_rows-In_kept, In-append_left, any, subst, eq_of_some,
}
use rust_agent.Siem.{
  ComplianceSiemDeliveryRecord, with_record_id, create_compliance_siem_delivery_record,
  new_record_row, requeue_dead_letter_compliance_siem_delivery_record, replay_hit, as_requeued,
}
use rust_agent.Siem.Lifecycle.{
  State, Step, create, claim, finish, crash, replay, Reach, here, next, IsValid, is_processing,
  claim_records, drop_record,
}
use rust_agent.Siem.Claims.{claim-kept, claim-apart}
use rust_agent.Siem.Invariant.{settled, settle-update_rows, Reach-IsValid, drop_record-ne}

-- A row that is processed while no worker holds it.
pub record IsLost (r : ComplianceSiemDeliveryRecord) (s : State) : Type 0 where
  pub listed : In r s.rows
  pub taken : is_processing r ≡ true
  pub unheld : All (λ f. f.id ≢ r.id) s.in_flight

drop_record-unheld :
    (f r : ComplianceSiemDeliveryRecord) (s : State)
    → IsLost r s
    → All (λ g. g.id ≢ r.id) (drop_record f s.in_flight)
drop_record-unheld f r s h =
    All-of_In _ (drop_record f s.in_flight)
      (λ g m. All-In (λ y. y.id ≢ r.id) g s.in_flight h.unheld (drop_record-ne f g s m).0)

Step-IsLost :
    {s t : State} (r : ComplianceSiemDeliveryRecord)
    → Step s t
    → IsValid s
    → IsLost r s
    → IsLost r t
unfolding create_compliance_siem_delivery_record requeue_dead_letter_compliance_siem_delivery_record
Step-IsLost {s} r (create now n {rows} e) v h =
    elim (Bool-cases (any (with_record_id n.id) s.rows)) [
      | inl taken ↦ cc (rw (taken, create_compliance_siem_delivery_record) at e)
      | inr free ↦ record {
        listed =
            subst (In r) (eq_of_some (rw (free, create_compliance_siem_delivery_record) at e))
              (In-append_left r s.rows (new_record_row now n ∷ []) h.listed);
        taken = h.taken;
        unheld = h.unheld;
      }
    ]
Step-IsLost {s} r (claim now owner millis limit) v h = record {
  listed = claim-kept now owner millis limit s.rows v.unique r h.listed h.taken;
  taken = h.taken;
  unheld =
      All-append (λ f. f.id ≢ r.id) (claim_records now owner millis limit s.rows).1 s.in_flight
        (All-of_In _ (claim_records now owner millis limit s.rows).1 (λ f m e.
          claim-apart now owner millis limit s.rows v.unique f r m h.listed h.taken (sym e)))
        h.unheld;
}
Step-IsLost {s} r (finish config now utc a f m) v h =
    let ne = All-In (λ g. g.id ≢ r.id) f s.in_flight h.unheld m in
    record {
      listed = rw (settle-update_rows config now utc a f s.rows) (
          update_rows-In_kept (with_record_id f.id) (settled config now utc a f) r s.rows
            (ground arith) h.listed);
      taken = h.taken;
      unheld = drop_record-unheld f r s h;
    }
Step-IsLost {s} r (crash f m) v h = record {
  listed = h.listed;
  taken = h.taken;
  unheld = drop_record-unheld f r s h;
}
Step-IsLost {s} r (replay now tenant id retry_at) v h =
    let k = h.taken in
    record {
      listed =
          update_rows-In_kept (replay_hit tenant id) (as_requeued now retry_at) r s.rows
            (ground arith) h.listed;
      taken = h.taken;
      unheld = h.unheld;
    }

-- A record that is processed and that no worker holds, as a crash leaves it, keeps its row unchanged
-- under all later steps, at any time: no claim takes it when its lease ends, and no replay.
pub Reach-IsLost :
    {s t : State} (r : ComplianceSiemDeliveryRecord)
    → Reach s t
    → IsValid s
    → IsLost r s
    → IsLost r t
Reach-IsLost r here v h = h
Reach-IsLost r (next p k) v h = Step-IsLost r k (Reach-IsValid p v) (Reach-IsLost r p v h)
