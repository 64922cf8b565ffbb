-- ===== src/Runs/Caps.antt =====
-- A claim of core/src/db.rs keeps the caps and the order of the queue.
use rust_agent.Base.{
  ℕ, max, ◌≤◌, ◌<◌, true, false, In, IsSorted, filter, length, Text, take-IsSorted, Option, List,
  ◌≡◌, some, In-filter, arith, sort_by, sort_by-IsSorted, ◌⊎◌, In-sort_by, In-take, All-of_In,
  Bool-cases, is_empty, subst, sym, inl, ap, inr, leb, none, take_all, length-sort_by, sort_by-In,
  filter-In, is_empty-In, All-In,
}
use rust_agent.Json.{Value}
use rust_agent.Runs.{
  Run, Table, claim_row, claim_hit, claimed, claim_first, is_claimable, tenant_inflight_count,
  global_inflight_count,
}
use rust_agent.Runs.Queue.{claims_before, candidates, claim_next_queued_run_with_limits}
use rust_agent.Runs.Rows.{HasUniqueIds, update_where-In_hit}
use rust_agent.Runs.Claiming.{
  claim_first-IsFirst, claim_first-none, claim_row-tenant, claim_row-global,
}

module _ (json_text : Value → Text) (now : ℕ) where
  claims_before_total :
      (a b : Run) → claims_before json_text now a b ≡ false → claims_before json_text now b a ≡ true
  unfolding claims_before
  claims_before_total a b h = ground arith

  claims_before_trans :
      (a b c : Run)
      → claims_before json_text now a b ≡ true
      → claims_before json_text now b c ≡ true
      → claims_before json_text now a c ≡ true
  unfolding claims_before
  claims_before_trans a b c h k = ground arith

  abbrev queue : Table → List Run
  queue t = sort_by (claims_before json_text now) (filter (is_claimable now) t)

  candidates-IsSorted :
      (t : Table) → IsSorted (claims_before json_text now) (candidates json_text now t)
  candidates-IsSorted t = take-IsSorted (claims_before json_text now) 64 (queue t) (
      sort_by-IsSorted (claims_before json_text now) claims_before_total claims_before_trans
        (filter (is_claimable now) t))

  candidates-IsCandidate :
      (t : Table) (c : Run)
      → In c (candidates json_text now t)
      → In c t × (is_claimable now c ≡ true)
  candidates-IsCandidate t c m = In-filter (is_claimable now) c t (
      In-sort_by (claims_before json_text now) c (filter (is_claimable now) t)
        (In-take c 64 (queue t) m))

  -- A claim that succeeds, under the caps `global_max` and `tenant_max`.
  pub record IsFairClaim (global_max tenant_max : ℕ) (worker : Text) (millis : ℕ) (t t' : Table)
      (r : Run) : Type 0 where
    pub row : Run
    pub listed : In row t
    pub waiting : is_claimable now row ≡ true
    pub result : r ≡ claimed now worker millis row
    pub leased : In r t'
    pub within_tenant : tenant_inflight_count row.tenant_id t' ≤ max tenant_max 1
    pub within_global : global_inflight_count t' ≤ max global_max 1
    pub first :
        (d : Run)
        → In d (candidates json_text now t)
        → tenant_inflight_count d.tenant_id t < max tenant_max 1
        → (d ≡ row) ⊎ (claims_before json_text now row d ≡ true)

  module _ (global_max tenant_max : ℕ) (worker : Text) (millis : ℕ) (t : Table) where
    abbrev claim_result : Table × Option Run
    claim_result =
        claim_next_queued_run_with_limits json_text now worker millis global_max tenant_max t

    claim-claim_first :
        (t' : Table) (r : Run)
        → claim_result ≡ (t', some r)
        → (global_inflight_count t < max global_max 1)
          × (claim_first now worker millis (max tenant_max 1) (candidates json_text now t) t
              ≡ (t', some r))
    unfolding claim_next_queued_run_with_limits
    claim-claim_first t' r e = elim (Bool-cases (is_empty (candidates json_text now t))) [
      | inl empty ↦ cc (ap (λ p. p.1) (rw (empty, claim_next_queued_run_with_limits) at e))
      | inr some_waiting ↦ elim (Bool-cases (leb (max global_max 1) (global_inflight_count t))) [
        | inl full ↦
            cc (
              ap (λ p. p.1)
                (rw full at (rw (some_waiting, claim_next_queued_run_with_limits) at e)))
        | inr room ↦
            (ground arith, rw room at (rw (some_waiting, claim_next_queued_run_with_limits) at e))
      ]
    ]

    -- A claim that succeeds takes a waiting run, which becomes a row of the table leased to the
    -- worker; afterwards neither its tenant nor all tenants together have more running runs than
    -- their caps; and no candidate whose tenant had room came before it in the queue. This is so
    -- when no other statement comes between those of the claim.
    pub claim-IsFairClaim :
        (t' : Table) (r : Run)
        → HasUniqueIds t
        → claim_result ≡ (t', some r)
        → IsFairClaim global_max tenant_max worker millis t t' r
    unfolding claim_row
    claim-IsFairClaim t' r u e =
        let (room, e') = claim-claim_first t' r e in
        let f =
          claim_first-IsFirst now worker millis (claims_before json_text now) (max tenant_max 1) t u
            (candidates json_text now t) t' r
            (All-of_In _ (candidates json_text now t) (candidates-IsCandidate t))
            (candidates-IsSorted t) e' in
        let (m, k) = candidates-IsCandidate t f.row f.listed in
        record {
          row = f.row;
          listed = m;
          waiting = k;
          result = f.result;
          leased = subst (In r) (sym f.table) (
              subst (λ x. In x (claim_row now worker millis f.row.id t).0) (sym f.result)
                (update_where-In_hit (claim_hit now f.row.id) (claimed now worker millis) f.row t
                  (ground arith) m));
          within_tenant =
              rw f.table (omega (arith, claim_row-tenant now worker millis f.row t u m k, f.room));
          within_global =
              rw f.table (omega (arith, claim_row-global now worker millis f.row t u m k, room));
          first = f.first;
        }

    claim-refused :
        claim_result.1 ≡ none
        → (is_empty (candidates json_text now t) ≡ true)
          ⊎ (max global_max 1 ≤ global_inflight_count t)
          ⊎ ((claim_first now worker millis (max tenant_max 1) (candidates json_text now t) t).1
              ≡ none)
    unfolding claim_next_queued_run_with_limits
    claim-refused e = ground arith

    -- A claim that takes nothing has a reason for each waiting run, if at most 64 wait: the global
    -- cap is reached, or the cap of the run's tenant.
    pub claim-none :
        (d : Run)
        → HasUniqueIds t
        → length (filter (is_claimable now) t) ≤ 64
        → claim_result.1 ≡ none
        → In d t
        → is_claimable now d ≡ true
        → (max global_max 1 ≤ global_inflight_count t)
          ⊎ (max tenant_max 1 ≤ tenant_inflight_count d.tenant_id t)
    claim-none d u short e m k =
        let waiting : In d (candidates json_text now t) =
          subst (In d)
            (sym (
              take_all 64 (queue t) (
                omega (
                  arith,
                  length-sort_by (claims_before json_text now) (filter (is_claimable now) t),
                ))))
            (sort_by-In (claims_before json_text now) d (filter (is_claimable now) t)
              (filter-In (is_claimable now) d t m k)) in
        elim (claim-refused e) [
          | inl empty ↦ absurd (is_empty-In d (candidates json_text now t) empty waiting)
          | inr (inl full) ↦ inl full
          | inr (inr none_taken) ↦ inr (
              All-In _ d (candidates json_text now t)
                (claim_first-none now worker millis (claims_before json_text now) (max tenant_max 1)
                  t u (candidates json_text now t)
                  (All-of_In _ (candidates json_text now t) (candidates-IsCandidate t)) none_taken)
                waiting)
        ]
