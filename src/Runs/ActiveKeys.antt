-- ===== src/Runs/ActiveKeys.antt =====
-- The unique index on the tenant and the dedupe key of the runs that wait or run
-- (migrations/0019_run_semantic_dedupe.sql).
use rust_agent.Base.{
  if◌then◌else◌, ◌+◌, ◌∙◌, ◌≡◌, ℕ, Text, Bool, any, In, count_if, false, true, ◌≤◌, ◌++◌, ◌∷◌,
  arith, text_eq_sound, [], inl, subst, Bool-cases, inr, refl, sym,
}
use rust_agent.Runs.{Run, Table, NewRun, queued, update_where}
use rust_agent.Runs.Creation.{has_dedupe_key, is_duplicate, keyed_row}

-- At most one run that waits or runs has a given tenant and key.
abbrev pub HasUniqueActiveKeys : Table → Type 0
HasUniqueActiveKeys t = (tenant key : Text) → count_if (has_dedupe_key tenant key) t ≤ 1

count_if-update_where_le :
    (q p : Run → Bool) (f : Run → Run) (t : Table)
    → ((r : Run) → In r t → p r ≡ true → q (f r) ≡ true → q r ≡ true)
    → count_if q (update_where p f t) ≤ count_if q t
count_if-update_where_le q p f [] back = omega arith
count_if-update_where_le q p f (r ∷ t) back =
    let rest = count_if-update_where_le q p f t (λ x m. back x (inr m)) in
    let this = back r (inl refl) in
    elim (Bool-cases (p r)) [
      | inl hit ↦ elim (Bool-cases (q (f r))) [
        | inl after ↦ rw (hit, after, this hit after) (omega (arith, rest))
        | inr gone ↦ rw (hit, gone) (ground (arith, rest))
      ]
      | inr miss ↦ rw miss (ground (arith, rest))
    ]

-- An update that makes no row active and changes no key.
pub update_where-HasUniqueActiveKeys :
    (p : Run → Bool) (f : Run → Run) (t : Table)
    → ((tenant key : Text) (r : Run)
        → In r t
        → p r ≡ true
        → has_dedupe_key tenant key (f r) ≡ true
        → has_dedupe_key tenant key r ≡ true)
    → HasUniqueActiveKeys t
    → HasUniqueActiveKeys (update_where p f t)
update_where-HasUniqueActiveKeys p f t back u tenant key = omega (
  arith,
  count_if-update_where_le (has_dedupe_key tenant key) p f t (back tenant key),
  u tenant key,
)

count_if-append_one :
    (q : Run → Bool) (r : Run) (t : Table)
    → count_if q (t ++ r ∷ []) ≡ count_if q t + (if q r then 1 else 0)
count_if-append_one q r [] = ground arith
count_if-append_one q r (x ∷ t) = ground (arith, count_if-append_one q r t)

count_if-any : (q : Run → Bool) (t : Table) → any q t ≡ false → count_if q t ≡ 0
count_if-any q [] h = refl
count_if-any q (x ∷ t) h = ground (arith, count_if-any q t)

-- A row that is active under a key that no active row has.
pub append-HasUniqueActiveKeys :
    (r : Run) (t : Table)
    → ((tenant key : Text)
        → has_dedupe_key tenant key r ≡ true
        → any (has_dedupe_key tenant key) t ≡ false)
    → HasUniqueActiveKeys t
    → HasUniqueActiveKeys (t ++ r ∷ [])
append-HasUniqueActiveKeys r t new u tenant key =
    let q = has_dedupe_key tenant key in
    rw (count_if-append_one q r t) (elim (Bool-cases (q r)) [
      | inl e ↦ rw (e, count_if-any q t (new tenant key e)) (omega arith)
      | inr e ↦ rw e (omega (arith, u tenant key))
    ])

pub keyed_row-is_new :
    (now : ℕ) (n : NewRun) (key : Text) (t : Table)
    → n.status ≡ queued
    → is_duplicate n key t ≡ false
    → (tenant k : Text) → has_dedupe_key tenant k (keyed_row now n key) ≡ true
    → any (has_dedupe_key tenant k) t ≡ false
keyed_row-is_new now n key t q absent tenant k h =
    let same_tenant = text_eq_sound n.tenant_id tenant (ground arith) in
    let same_key = text_eq_sound key k (ground arith) in
    let none_there : any (has_dedupe_key n.tenant_id key) t ≡ false = rw q at absent in
    subst (λ x. any (has_dedupe_key x k) t ≡ false) same_tenant
      (subst (λ y. any (has_dedupe_key n.tenant_id y) t ≡ false) same_key none_there)

count_if-In : (q : Run → Bool) (r : Run) (t : Table) → In r t → q r ≡ true → 1 ≤ count_if q t
count_if-In q r [] m h = absurd m
count_if-In q r (x ∷ t) (inl e) h = rw (subst (λ y. q y ≡ true) e h) (omega arith)
count_if-In q r (x ∷ t) (inr m) h = ground (arith, count_if-In q r t m h)

-- Where a test selects at most one row, two rows that it selects are one.
pub count_if-eq :
    (q : Run → Bool) (r s : Run) (t : Table)
    → count_if q t ≤ 1
    → In r t
    → In s t
    → q r ≡ true
    → q s ≡ true
    → r ≡ s
count_if-eq q r s [] few m n h k = absurd m
count_if-eq q r s (x ∷ t) few (inl e) (inl f) h k = e ∙ sym f
count_if-eq q r s (x ∷ t) few (inl e) (inr n) h k =
    absurd (omega (arith, rw (subst (λ y. q y ≡ true) e h) at few, count_if-In q s t n k))
count_if-eq q r s (x ∷ t) few (inr m) (inl f) h k =
    absurd (omega (arith, rw (subst (λ y. q y ≡ true) f k) at few, count_if-In q r t m h))
count_if-eq q r s (x ∷ t) few (inr m) (inr n) h k = count_if-eq q r s t (ground arith) m n h k
