-- ===== src/Siem/Invariant.antt =====
-- The validity of the outbox, step by step.
use rust_agent.Base.{
  ℕ, ◌+◌, ◌*◌, true, false, not, All, In, arith, ◌≡◌, ◌≢◌, some, Text, [], ◌∷◌, ◌++◌, inl, inr,
  subst, sym, refl, HasUniqueKeys, Bool-cases, update_rows, update_rows-All,
  update_rows-HasUniqueKeys, HasUniqueKeys-eq, filter-HasUniqueKeys, append-HasUniqueKeys,
  update_rows-In_kept, In-append_left, All-append, All-of_In, All-In, In-filter, any, any-eq-false,
  ==_iff, eq_of_some, ◌∙◌,
}
use rust_agent.Siem.{
  Outbox, ComplianceSiemDeliveryRecord, NewComplianceSiemDeliveryRecord, record_id, with_record_id,
  create_compliance_siem_delivery_record, new_record_row,
  requeue_dead_letter_compliance_siem_delivery_record, replay_hit, as_requeued, as_delivered,
  as_attempt_failed, as_dead_lettered, mark_compliance_siem_delivery_record_delivered,
  mark_compliance_siem_delivery_record_failed, mark_compliance_siem_delivery_record_dead_lettered,
}
use rust_agent.Siem.Delivery.{
  SiemConfig, SiemDeliveryAttempt, attempt_delivered, attempt_failed, settle, retry_delay_ms,
}
use rust_agent.Siem.Lifecycle.{
  State, Step, create, claim, finish, crash, replay, Reach, here, next, IsSound, IsHeld, IsValid,
  is_processing, drop_record, claim_records,
}
use rust_agent.Siem.Claims.{
  claim_unique, claim-IsSound, claim-kept, claim-IsHeld, claim-returned_unique, claim-apart,
}

-- The row that a settlement writes.
module _ (config : SiemConfig) (now utc : ComplianceSiemDeliveryRecord → ℕ) where
  abbrev pub settled :
      SiemDeliveryAttempt
      → ComplianceSiemDeliveryRecord
      → ComplianceSiemDeliveryRecord
      → ComplianceSiemDeliveryRecord
  settled (attempt_delivered http_status) r x = as_delivered (now r) http_status x
  settled (attempt_failed http_status error true) r x =
      as_attempt_failed (now r) error http_status (utc r + retry_delay_ms config r * 1000) x
  settled (attempt_failed http_status error false) r x =
      as_dead_lettered (now r) error http_status x

  pub settle-update_rows :
      (a : SiemDeliveryAttempt) (r : ComplianceSiemDeliveryRecord) (rows : Outbox)
      → (settle config now utc a r rows).0 ≡ update_rows (with_record_id r.id) (settled a r) rows
  unfolding settle mark_compliance_siem_delivery_record_delivered
      mark_compliance_siem_delivery_record_failed mark_compliance_siem_delivery_record_dead_lettered
  settle-update_rows (attempt_delivered http_status) r rows = refl
  settle-update_rows (attempt_failed http_status error true) r rows = refl
  settle-update_rows (attempt_failed http_status error false) r rows = refl

  pub settled-id :
      (a : SiemDeliveryAttempt) (r x : ComplianceSiemDeliveryRecord) → (settled a r x).id ≡ x.id
  settled-id (attempt_delivered http_status) r x = refl
  settled-id (attempt_failed http_status error true) r x = refl
  settled-id (attempt_failed http_status error false) r x = refl

  settled-IsSound :
      (a : SiemDeliveryAttempt) (r x : ComplianceSiemDeliveryRecord)
      → is_processing x ≡ true
      → IsSound x
      → IsSound (settled a r x)
  settled-IsSound (attempt_delivered http_status) r x p s = ground arith
  settled-IsSound (attempt_failed http_status error true) r x p s = ground arith
  settled-IsSound (attempt_failed http_status error false) r x p s = ground arith

pub drop_record-ne :
    (r f : ComplianceSiemDeliveryRecord) (s : State)
    → In f (drop_record r s.in_flight)
    → In f s.in_flight × (f.id ≢ r.id)
drop_record-ne r f s m =
    let (n, h) = In-filter (λ x. not (with_record_id r.id x)) f s.in_flight m in (n, ground arith)

-- A record that is dropped leaves the state valid, and each of the others is held as before.
drop_record-IsHeld :
    (rows : Outbox) (r : ComplianceSiemDeliveryRecord) (s : State)
    → ((f : ComplianceSiemDeliveryRecord) → f.id ≢ r.id → IsHeld s.rows f → IsHeld rows f)
    → IsValid s
    → All (IsHeld rows) (drop_record r s.in_flight)
drop_record-IsHeld rows r s keep v = All-of_In (IsHeld rows) (drop_record r s.in_flight) (λ f m.
    let (n, ne) = drop_record-ne r f s m in
    keep f ne (All-In (IsHeld s.rows) f s.in_flight v.held n))

create-IsValid :
    (now : ℕ) (n : NewComplianceSiemDeliveryRecord) (s : State) (rows : Outbox)
    → create_compliance_siem_delivery_record now n s.rows ≡ some rows
    → IsValid s
    → IsValid (record { rows = rows; in_flight = s.in_flight })
unfolding create_compliance_siem_delivery_record
create-IsValid now n s rows e v = elim (Bool-cases (any (with_record_id n.id) s.rows)) [
  | inl taken ↦ cc (rw (taken, create_compliance_siem_delivery_record) at e)
  | inr free ↦
      let row = new_record_row now n in
      let added : s.rows ++ row ∷ [] ≡ rows =
        eq_of_some (rw (free, create_compliance_siem_delivery_record) at e) in
      let fresh = any-eq-false (with_record_id n.id) s.rows free in
      record {
        unique = subst (HasUniqueKeys record_id) added (
            append-HasUniqueKeys record_id s.rows (row ∷ []) v.unique (tt, tt)
              (All-of_In _ s.rows (λ x m. (
                λ q. ground (arith, All-In (λ y. with_record_id n.id y ≡ false) x s.rows fresh m),
                tt,
              ))));
        sound =
            subst (All IsSound) added
              (All-append IsSound s.rows (row ∷ []) v.sound (ground arith, tt));
        apart = v.apart;
        held = All-of_In (IsHeld rows) s.in_flight (λ f m.
            let (r, k, q, p) = All-In (IsHeld s.rows) f s.in_flight v.held m in
            (r, subst (In r) added (In-append_left r s.rows (row ∷ []) k), q, p));
      }
]

claim-IsValid :
    (now : ℕ) (owner : Text) (millis limit : ℕ) (s : State)
    → IsValid s
    → IsValid (record {
      rows = (claim_records now owner millis limit s.rows).0;
      in_flight = (claim_records now owner millis limit s.rows).1 ++ s.in_flight;
    })
claim-IsValid now owner millis limit s v =
    let rows = (claim_records now owner millis limit s.rows).0 in
    let records = (claim_records now owner millis limit s.rows).1 in
    record {
      unique = claim_unique now owner millis limit s.rows v.unique;
      sound = claim-IsSound now owner millis limit s.rows v.unique v.sound;
      apart =
          append-HasUniqueKeys record_id records s.in_flight
            (claim-returned_unique now owner millis limit s.rows v.unique) v.apart
            (All-of_In _ records (λ f m. All-of_In _ s.in_flight (λ g n e.
              let (r, k, q, p) = All-In (IsHeld s.rows) g s.in_flight v.held n in
              claim-apart now owner millis limit s.rows v.unique f r m k p (q ∙ e))));
      held =
          All-append (IsHeld rows) records s.in_flight
            (All-of_In _ records (claim-IsHeld now owner millis limit s.rows v.unique))
            (All-of_In _ s.in_flight (λ g n.
              let (r, k, q, p) = All-In (IsHeld s.rows) g s.in_flight v.held n in
              (r, claim-kept now owner millis limit s.rows v.unique r k p, q, p)));
    }

-- A row stays where an update selects another identifier.
update-IsHeld :
    (id : ℕ) (f : ComplianceSiemDeliveryRecord → ComplianceSiemDeliveryRecord)
    → (s : State) (g : ComplianceSiemDeliveryRecord) → g.id ≢ id
    → IsHeld s.rows g
    → IsHeld (update_rows (with_record_id id) f s.rows) g
update-IsHeld id f s g ne (r, k, q, p) =
    (r, update_rows-In_kept (with_record_id id) f r s.rows (ground arith) k, q, p)

finish-IsValid :
    (config : SiemConfig) (now utc : ComplianceSiemDeliveryRecord → ℕ)
    → (a : SiemDeliveryAttempt) (r : ComplianceSiemDeliveryRecord) (s : State) → In r s.in_flight
    → IsValid s
    → IsValid (record {
      rows = (settle config now utc a r s.rows).0;
      in_flight = drop_record r s.in_flight;
    })
finish-IsValid config now utc a r s m v =
    let (x, k, q, p) = All-In (IsHeld s.rows) r s.in_flight v.held m in
    rw (settle-update_rows config now utc a r s.rows) (record {
      unique =
          update_rows-HasUniqueKeys record_id (with_record_id r.id) (settled config now utc a r)
            (settled-id config now utc a r) s.rows v.unique;
      sound =
          update_rows-All (with_record_id r.id) (settled config now utc a r) IsSound s.rows
            (λ y n e i.
              let same =
                HasUniqueKeys-eq record_id x y s.rows v.unique k n
                  (q ∙ sym ((==_iff y.id r.id).0 e)) in
              settled-IsSound config now utc a r y (subst (λ z. is_processing z ≡ true) same p) i)
            v.sound;
      apart = filter-HasUniqueKeys record_id _ s.in_flight v.apart;
      held = drop_record-IsHeld _ r s (update-IsHeld r.id (settled config now utc a r) s) v;
    })

replay-IsValid :
    (now : ℕ) (tenant : Text) (id retry_at : ℕ) (s : State)
    → IsValid s
    → IsValid (record {
      rows = (requeue_dead_letter_compliance_siem_delivery_record now tenant id retry_at s.rows).0;
      in_flight = s.in_flight;
    })
unfolding requeue_dead_letter_compliance_siem_delivery_record
replay-IsValid now tenant id retry_at s v =
    let f = as_requeued now retry_at in
    record {
      unique =
          update_rows-HasUniqueKeys record_id (replay_hit tenant id) f (λ r. refl) s.rows v.unique;
      sound =
          update_rows-All (replay_hit tenant id) f IsSound s.rows (λ y n e i. ground arith) v.sound;
      apart = v.apart;
      held = All-of_In _ s.in_flight (λ g n.
          let (r, k, q, p) = All-In (IsHeld s.rows) g s.in_flight v.held n in
          (r, update_rows-In_kept (replay_hit tenant id) f r s.rows (ground arith) k, q, p));
    }

pub Step-IsValid : {s t : State} → Step s t → IsValid s → IsValid t
Step-IsValid {s} (create now n {rows} e) v = create-IsValid now n s rows e v
Step-IsValid {s} (claim now owner millis limit) v = claim-IsValid now owner millis limit s v
Step-IsValid {s} (finish config now utc a r m) v = finish-IsValid config now utc a r s m v
Step-IsValid {s} (crash r m) v = record {
  unique = v.unique;
  sound = v.sound;
  apart = filter-HasUniqueKeys record_id _ s.in_flight v.apart;
  held = drop_record-IsHeld s.rows r s (λ f ne h. h) v;
}
Step-IsValid {s} (replay now tenant id retry_at) v = replay-IsValid now tenant id retry_at s v

pub Reach-IsValid : {s t : State} → Reach s t → IsValid s → IsValid t
Reach-IsValid here v = v
Reach-IsValid (next r k) v = Step-IsValid k (Reach-IsValid r v)

abbrev pub empty_outbox : State
empty_outbox = record { rows = []; in_flight = [] }

-- Under any steps of any workers from the empty outbox, each of which settles a record that it
-- holds once: identifiers stay distinct; no record is tried more often than its maximum, and one
-- that is not delivered or dead-lettered has a try left; a record has a lease exactly while it is
-- processed; and what the workers hold are distinct records that are processed.
pub Reach-empty_outbox-IsValid : {t : State} → Reach empty_outbox t → IsValid t
Reach-empty_outbox-IsValid r =
    Reach-IsValid r (record { unique = tt; sound = tt; apart = tt; held = tt })
