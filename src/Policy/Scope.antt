-- ===== src/Policy/Scope.antt =====
-- What the scope test of core/src/policy.rs decides.
use rust_agent.Base.{
  none, some, sym, ap, starts_with-snoc, starts_with_trans, strip_suffix_char, starts_with, subst,
  true, [], ◌∷◌, ◌++◌, ◌≡◌, ◌↔◌, inl, inr, arith, Text, Option-cases, starts_with-split,
  starts_with-append, strip_suffix_char_sound, strip_suffix_char-append, text_eq_sound,
  text_eq_refl, Bool, false,
}
use rust_agent.Policy.{scope_matches}

-- A scope pattern covers a scope: everything behind a prefix that ends in a star, else the text.
pub data Covers : Text → Text → Type 0 where
  prefix : (p rest : Text) {g r : Text} → g ≡ p ++ b'*' ∷ [] → r ≡ p ++ rest → Covers g r
  exact : {g r : Text} → g ≡ r → Covers g r

scope_matches-Covers : (g r : Text) → scope_matches g r ≡ true → Covers g r
unfolding scope_matches
scope_matches-Covers g r h = elim (Option-cases (strip_suffix_char b'*' g)) [
  | inl e ↦ exact (text_eq_sound g r (ground arith))
  | inr (p, e) ↦
      let (rest, q) = starts_with-split r p (ground arith) in
      prefix p rest (strip_suffix_char_sound b'*' g p e) q
]

scope_matches_refl : (g : Text) → scope_matches g g ≡ true
unfolding scope_matches
scope_matches_refl g = elim (Option-cases (strip_suffix_char b'*' g)) [
  | inl n ↦ ground (arith, text_eq_refl g)
  | inr (p, n) ↦
      ground (arith, starts_with-append p (b'*' ∷ []), strip_suffix_char_sound b'*' g p n)
]

Covers-scope_matches : {g r : Text} → Covers g r → scope_matches g r ≡ true
unfolding scope_matches
Covers-scope_matches (prefix p rest e q) =
    rw (e, scope_matches, strip_suffix_char-append b'*' p, q) (starts_with-append p rest)
Covers-scope_matches {g} {r} (exact e) =
    subst (λ t. scope_matches g t ≡ true) e (scope_matches_refl g)

-- The scope test decides the covering relation: a star at the end of the grant's scope stands for
-- any text, and nothing else does.
pub scope_matches_iff : (g r : Text) → (scope_matches g r ≡ true) ↔ Covers g r
scope_matches_iff g r = (scope_matches-Covers g r, Covers-scope_matches)

-- What every scope under a pattern begins with: a prefix of the pattern that ends in no star.
pub Covers-starts_with :
    (g r q : Text)
    → Covers g r
    → starts_with g q ≡ true
    → strip_suffix_char b'*' q ≡ none
    → starts_with r q ≡ true
Covers-starts_with g r q (exact e) h plain = subst (λ t. starts_with t q ≡ true) e h
Covers-starts_with g r q (prefix p rest e f) h plain =
    elim (starts_with-snoc p q b'*' (subst (λ t. starts_with t q ≡ true) e h)) [
      | inl k ↦
          subst (λ t. starts_with t q ≡ true) (sym f)
            (starts_with_trans (p ++ rest) p q (starts_with-append p rest) k)
      | inr k ↦ cc (ap (strip_suffix_char b'*') k, strip_suffix_char-append b'*' p)
    ]

-- A pattern with at most one star at its end.
abbrev pub OneStar : Text → Type 0
OneStar e = (p : Text) → strip_suffix_char b'*' e ≡ some p → strip_suffix_char b'*' p ≡ none

pub Covers-trans : (e g r : Text) → OneStar e → Covers e g → Covers g r → Covers e r
Covers-trans e g r one (exact q) c = subst (λ t. Covers t r) (sym q) c
Covers-trans e g r one (prefix p rest q f) c =
    let plain =
      one p (
        subst (λ t. strip_suffix_char b'*' t ≡ some p) (sym q) (strip_suffix_char-append b'*' p)) in
    let starts = subst (λ t. starts_with t p ≡ true) (sym f) (starts_with-append p rest) in
    let (more, k) = starts_with-split r p (Covers-starts_with g r p c starts plain) in
    prefix p more q k

-- The same as a test.
abbrev pub one_star : Text → Bool
one_star e = elim (strip_suffix_char b'*' e) [
  | none ↦ true
  | some p ↦ elim (strip_suffix_char b'*' p) [ none ↦ true | some q ↦ false ]
]

pub one_star-OneStar : (e : Text) → one_star e ≡ true → OneStar e
one_star-OneStar e h p q = ground arith
