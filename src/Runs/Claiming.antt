-- ===== src/Runs/Claiming.antt =====
-- What one claim of core/src/db.rs takes, when no other statement comes between its own.
use rust_agent.Base.{
  ℕ, suc, ◌≤◌, ◌<◌, Bool, true, false, All, In, IsSorted, Text, List, ◌≡◌, some, arith, text_eq,
  ◌⊎◌, Option-cases, refl, ◌&&◌, text_eq_refl, find, inl, All-In, find-none, inr, find_sound, ap,
  leb, ◌∷◌, none, Bool-cases, sym, ◌∙◌, subst, [], eq_of_some,
}
use rust_agent.Runs.{
  Run, Table, claim_row, claim_hit, claimed, claim_first, is_claimable, is_running,
  tenant_inflight_count, global_inflight_count,
}
use rust_agent.Runs.Rows.{HasUniqueIds, HasUniqueIds-eq, count_if-update_where}

module _ (now : ℕ) (worker : Text) (millis : ℕ) where
  claim_row-hit :
      (c : Run) (t : Table)
      → HasUniqueIds t
      → In c t
      → is_claimable now c ≡ true
      → (claim_row now worker millis c.id t).1 ≡ some (claimed now worker millis c)
  unfolding claim_row
  claim_row-hit c t u m k = elim (Option-cases (find (claim_hit now c.id) t)) [
    | inl e ↦ absurd (
        ground (
          arith,
          All-In (λ r. claim_hit now c.id r ≡ false) c t (find-none (claim_hit now c.id) t e) m,
        ))
    | inr (x, e) ↦
        let (n, h) = find_sound (claim_hit now c.id) t x e in
        let same = HasUniqueIds-eq x c t u n m (ground arith) in
        rw (e, claim_row) (ap (λ r. some (claimed now worker millis r)) same)
  ]

  -- A claim of a row adds one run to its tenant's and to all that are running.
  pub claim_row-tenant :
      (c : Run) (t : Table)
      → HasUniqueIds t
      → In c t
      → is_claimable now c ≡ true
      → tenant_inflight_count c.tenant_id (claim_row now worker millis c.id t).0
        ≡ suc (tenant_inflight_count c.tenant_id t)
  unfolding claim_row
  claim_row-tenant c t u m k =
      count_if-update_where c.id (is_claimable now)
        (λ r. text_eq r.tenant_id c.tenant_id && is_running r) (claimed now worker millis) c t u m
        (ground arith) (ground arith) (rw (text_eq_refl c.tenant_id) refl)

  pub claim_row-global :
      (c : Run) (t : Table)
      → HasUniqueIds t
      → In c t
      → is_claimable now c ≡ true
      → global_inflight_count (claim_row now worker millis c.id t).0 ≡ suc (global_inflight_count t)
  unfolding claim_row
  claim_row-global c t u m k =
      count_if-update_where c.id (is_claimable now) is_running (claimed now worker millis) c t u m
        (ground arith) (ground arith) refl

  module _ (le : Run → Run → Bool) (cap : ℕ) (t : Table) (u : HasUniqueIds t) where
    abbrev pub HasRoom : Run → Type 0
    HasRoom c = tenant_inflight_count c.tenant_id t < cap

    abbrev pub IsCandidate : Run → Type 0
    IsCandidate c = In c t × (is_claimable now c ≡ true)

    -- The candidate that the loop takes: the first whose tenant has room.
    pub record IsFirst (cs : List Run) (t' : Table) (r : Run) : Type 0 where
      pub row : Run
      pub listed : In row cs
      pub room : HasRoom row
      pub result : r ≡ claimed now worker millis row
      pub table : t' ≡ (claim_row now worker millis row.id t).0
      pub first : (d : Run) → In d cs → HasRoom d → (d ≡ row) ⊎ (le row d ≡ true)

    claim_first-full :
        (c : Run) (cs : List Run)
        → leb cap (tenant_inflight_count c.tenant_id t) ≡ true
        → claim_first now worker millis cap (c ∷ cs) t ≡ claim_first now worker millis cap cs t
    unfolding claim_first
    claim_first-full c cs e = rw (e, claim_first) refl

    claim_first-room :
        (c : Run) (cs : List Run)
        → IsCandidate c
        → leb cap (tenant_inflight_count c.tenant_id t) ≡ false
        → claim_first now worker millis cap (c ∷ cs) t
          ≡ ((claim_row now worker millis c.id t).0, some (claimed now worker millis c))
    unfolding claim_first
    claim_first-room c cs (m, k) e = rw (e, claim_first) (rw (claim_row-hit c t u m k) refl)

    pub claim_first-IsFirst :
        (cs : List Run) (t' : Table) (r : Run)
        → All IsCandidate cs
        → IsSorted le cs
        → claim_first now worker millis cap cs t ≡ (t', some r)
        → IsFirst cs t' r
    claim_first-IsFirst [] t' r h s e = absurd (none-ne-some (ap (λ p. p.1) e))
      where
        none-ne-some : (claim_first now worker millis cap [] t).1 ≡ some r → ⊥
        none-ne-some q = unfold claim_first in (cc)
    claim_first-IsFirst (c ∷ cs) t' r (k, h) (before, s) e =
        elim (Bool-cases (leb cap (tenant_inflight_count c.tenant_id t))) [
          | inl full ↦
              let ih = claim_first-IsFirst cs t' r h s (sym (claim_first-full c cs full) ∙ e) in
              record {
                row = ih.row;
                listed = inr ih.listed;
                room = ih.room;
                result = ih.result;
                table = ih.table;
                first = λ d m room. elim m [
                  | inl q ↦ absurd (ground (arith, subst HasRoom q room))
                  | inr n ↦ ih.first d n room
                ];
              }
          | inr room ↦
              let q = sym (claim_first-room c cs k room) ∙ e in
              record {
                row = c;
                listed = inl refl;
                room = ground arith;
                result = sym (eq_of_some (ap (λ p. p.1) q));
                table = sym (ap (λ p. p.0) q);
                first = λ d m _. elim m [
                  | inl same ↦ inl same
                  | inr n ↦ inr (All-In (λ y. le c y ≡ true) d cs before n)
                ];
              }
        ]

    -- If it takes none, the tenant of every candidate is full.
    pub claim_first-none :
        (cs : List Run)
        → All IsCandidate cs
        → (claim_first now worker millis cap cs t).1 ≡ none
        → All (λ c. cap ≤ tenant_inflight_count c.tenant_id t) cs
    claim_first-none [] h e = tt
    claim_first-none (c ∷ cs) (k, h) e =
        elim (Bool-cases (leb cap (tenant_inflight_count c.tenant_id t))) [
          | inl full ↦ (
            ground arith,
            claim_first-none cs h (sym (ap (λ p. p.1) (claim_first-full c cs full)) ∙ e),
          )
          | inr room ↦ cc (claim_first-room c cs k room)
        ]
