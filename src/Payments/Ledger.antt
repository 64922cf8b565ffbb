-- ===== src/Payments/Ledger.antt =====
-- The statement of core/src/db.rs that creates or gets a payment request, and sums over requests.
use rust_agent.Base.{
  ℕ, ◌+◌, Bool, true, false, ◌≡◌, refl, sym, ap, [], ◌∷◌, ◌++◌, All, In, arith, some, Option-cases,
  Bool-cases, find, find_sound, any, any-eq-false, update_rows, find-none, inl, inr, eq_of_some,
  ◌⊎◌, subst,
}
use rust_agent.Payments.{
  PaymentRequest, Requests, PaymentStatus, create_or_get_payment_request, same_payment, is_taken,
  fits_i64, with_status, has_request_id, sum_amounts,
}

-- What the statement gives: the row that is there for the key of the tenant, and the table as it
-- was; or the new row, which is then the last, where the key is free and no identifier is taken.
pub record IsPrior (new : PaymentRequest) (rows rows' : Requests) (r : PaymentRequest)
    : Type 0 where
  pub listed : In r rows
  pub matching : same_payment new.tenant_id new.idempotency_key r ≡ true
  pub unchanged : rows' ≡ rows

pub record IsAdded (new : PaymentRequest) (rows rows' : Requests) (r : PaymentRequest)
    : Type 0 where
  pub row : r ≡ new
  pub added : rows' ≡ rows ++ new ∷ []
  pub unmatched : All (λ x. same_payment new.tenant_id new.idempotency_key x ≡ false) rows
  pub untaken : All (λ x. is_taken new x ≡ false) rows

pub create_or_get-cases :
    (new : PaymentRequest) (rows rows' : Requests) (r : PaymentRequest)
    → create_or_get_payment_request new rows ≡ some (rows', r)
    → IsPrior new rows rows' r ⊎ IsAdded new rows rows' r
unfolding create_or_get_payment_request
create_or_get-cases new rows rows' r e = elim (Bool-cases (fits_i64 new.amount_msat)) [
  | inr big ↦ absurd (cc (rw (big, create_or_get_payment_request) at e))
  | inl fits ↦ elim (Option-cases (find (same_payment new.tenant_id new.idempotency_key) rows)) [
    | inr (p, found) ↦
        let q = eq_of_some (rw (fits, found, create_or_get_payment_request) at e) in
        let (m, h) = find_sound (same_payment new.tenant_id new.idempotency_key) rows p found in
        let same = ap (λ x. x.1) q in
        inl (record {
          listed = subst (λ x. In x rows) same m;
          matching = subst (λ x. same_payment new.tenant_id new.idempotency_key x ≡ true) same h;
          unchanged = sym (ap (λ x. x.0) q);
        })
    | inl none_found ↦ elim (Bool-cases (any (is_taken new) rows)) [
      | inl taken ↦ absurd (cc (rw (fits, none_found, taken, create_or_get_payment_request) at e))
      | inr free ↦
          let q = eq_of_some (rw (fits, none_found, free, create_or_get_payment_request) at e) in
          inr (record {
            row = sym (ap (λ x. x.1) q);
            added = sym (ap (λ x. x.0) q);
            unmatched = find-none (same_payment new.tenant_id new.idempotency_key) rows none_found;
            untaken = any-eq-false (is_taken new) rows free;
          })
    ]
  ]
]

module _ (p : PaymentRequest → Bool) where
  pub sum_amounts-append :
      (xs ys : Requests) → sum_amounts p (xs ++ ys) ≡ sum_amounts p xs + sum_amounts p ys
  sum_amounts-append [] ys = omega arith
  sum_amounts-append (x ∷ xs) ys = ground (arith, sum_amounts-append xs ys)

-- An update of an identifier that no row has changes nothing.
pub update-absent :
    (id : ℕ) (s : PaymentStatus) (rows : Requests)
    → All (λ r. has_request_id id r ≡ false) rows
    → update_rows (has_request_id id) (with_status s) rows ≡ rows
update-absent id s [] h = refl
update-absent id s (x ∷ rows) (e, h) = ground (arith, update-absent id s rows h)

pub update_rows-append :
    (id : ℕ) (s : PaymentStatus) (xs ys : Requests)
    → update_rows (has_request_id id) (with_status s) (xs ++ ys)
      ≡ update_rows (has_request_id id) (with_status s) xs
        ++ update_rows (has_request_id id) (with_status s) ys
update_rows-append id s [] ys = refl
update_rows-append id s (x ∷ xs) ys = cc (update_rows-append id s xs ys)
