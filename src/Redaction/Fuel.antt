-- ===== src/Redaction/Fuel.antt =====
-- The loops of core/src/redaction.rs end: what is left gets shorter, so that the fuel is enough.
use rust_agent.Base.{
  ℕ, zero, suc, ◌≤◌, ◌<◌, Bool, true, not, ◌≡◌, refl, sym, ap, arith, some, [], ◌∷◌, ◌++◌, Text,
  inl, inr, Option-cases, Bool-cases, eq_of_some, starts_with, to_ascii_lowercase, length, ◌∙◌,
}
use rust_agent.Redaction.{
  split_where, take_while, drop_while, skip_first, take_first, token_or_redacted,
  redact_prefixed_token_loop, redact_bearer_tokens_loop, is_token_char, is_bearer, is_terminator,
  nsec_prefix, redacted_text, redact_prefixed_token, redact_bearer_tokens,
}

-- A split is of the text, at the first place that passes.
pub split_where_sound :
    (p : Text → Bool) (t a b : Text) → split_where p t ≡ some (a, b) → (t ≡ a ++ b) × (p b ≡ true)
split_where_sound p [] a b e = elim (Bool-cases (p [])) [
  | inl h ↦
      let same = eq_of_some (rw h at e) in
      (ap (λ x. x.0 ++ x.1) same, ap (λ x. p x.1) (sym same) ∙ h)
  | inr h ↦ absurd (cc (rw h at e))
]
split_where_sound p (c ∷ t) a b e = elim (Bool-cases (p (c ∷ t))) [
  | inl h ↦
      let same = eq_of_some (rw h at e) in
      (ap (λ x. x.0 ++ x.1) same, ap (λ x. p x.1) (sym same) ∙ h)
  | inr h ↦ elim (Option-cases (split_where p t)) [
    | inl gone ↦ absurd (cc (rw (h, gone) at e))
    | inr (r, found) ↦
        let same = eq_of_some (rw (h, found) at e) in
        let (q, k) = split_where_sound p t r.0 r.1 found in
        (ap (λ x. c ∷ x) q ∙ ap (λ x. x.0 ++ x.1) same, ap (λ x. p x.1) (sym same) ∙ k)
  ]
]

length-append_le : (a b : Text) → length b ≤ length (a ++ b)
length-append_le [] b = ground arith
length-append_le (c ∷ a) b = ground (arith, length-append_le a b)

length-drop_while : (p : ℕ → Bool) (t : Text) → length (drop_while p t) ≤ length t
length-drop_while p [] = ground arith
length-drop_while p (c ∷ t) = ground (arith, length-drop_while p t)

length-skip_first : (n : ℕ) (t : Text) → length (skip_first n t) ≤ length t
length-skip_first zero t = ground arith
length-skip_first (suc n) [] = ground arith
length-skip_first (suc n) (c ∷ t) = ground (arith, length-skip_first n t)

-- Past a marker that is there the text is shorter.
length-skip_marker : (n : ℕ) (t : Text) → 1 ≤ length t → length (skip_first (suc n) t) < length t
length-skip_marker n [] h = ground arith
length-skip_marker n (c ∷ t) h = ground (arith, length-skip_first n t)

pub starts_with-length : (t p : Text) → starts_with t p ≡ true → 1 ≤ length p → 1 ≤ length t
unfolding starts_with
starts_with-length [] [] h k = k
starts_with-length [] (d ∷ p) h k = cc
starts_with-length (c ∷ t) p h k = ground arith

pub is_bearer-length : (t : Text) → is_bearer t ≡ true → 1 ≤ length t
unfolding starts_with to_ascii_lowercase
is_bearer-length [] h = cc
is_bearer-length (c ∷ t) h = ground arith

-- What a round of a loop leaves is shorter than its text.
pub shorter :
    (p : Text → Bool) (q : ℕ → Bool) (n : ℕ) (t a b : Text)
    → split_where p t ≡ some (a, b)
    → (p b ≡ true → 1 ≤ length b)
    → length (drop_while q (skip_first (suc n) b)) < length t
shorter p q n t a b e some_left =
    let (same, h) = split_where_sound p t a b e in
    let left = length-skip_marker n b (some_left h) in
    let dropped = length-drop_while q (skip_first (suc n) b) in
    let whole = length-append_le a b in rw same (ground (arith, left, dropped, whole))

redact_prefixed_token_loop_fuel :
    (f g c : ℕ) (prefix t : Text)
    → length t < f
    → length t < g
    → redact_prefixed_token_loop f (c ∷ prefix) t ≡ redact_prefixed_token_loop g (c ∷ prefix) t
unfolding redact_prefixed_token_loop
redact_prefixed_token_loop_fuel zero g c prefix t h k = absurd (omega (h, arith))
redact_prefixed_token_loop_fuel (suc f) zero c prefix t h k = absurd (omega (k, arith))
redact_prefixed_token_loop_fuel (suc f) (suc g) c prefix t h k =
    let p = λ (u : Text). starts_with u (c ∷ prefix) in
    elim (Option-cases (split_where p t)) [
      | inl gone ↦ rw (gone, redact_prefixed_token_loop) refl
      | inr (r, found) ↦
          let after = skip_first (suc (length prefix)) r.1 in
          let less =
            shorter p is_token_char (length prefix) t r.0 r.1 found
              (λ s. starts_with-length r.1 (c ∷ prefix) s (omega arith)) in
          let rest =
            redact_prefixed_token_loop_fuel f g c prefix (drop_while is_token_char after)
              (omega (h, less, arith)) (omega (k, less, arith)) in
          rw (found, redact_prefixed_token_loop)
            (ap (λ x. r.0 ++ (token_or_redacted (c ∷ prefix) (take_while is_token_char after) ++ x))
              rest)
    ]

redact_bearer_tokens_loop_fuel :
    (f g : ℕ) (t : Text)
    → length t < f
    → length t < g
    → redact_bearer_tokens_loop f t ≡ redact_bearer_tokens_loop g t
unfolding redact_bearer_tokens_loop
redact_bearer_tokens_loop_fuel zero g t h k = absurd (omega (h, arith))
redact_bearer_tokens_loop_fuel (suc f) zero t h k = absurd (omega (k, arith))
redact_bearer_tokens_loop_fuel (suc f) (suc g) t h k =
    elim (Option-cases (split_where is_bearer t)) [
      | inl gone ↦ rw (gone, redact_bearer_tokens_loop) refl
      | inr (r, found) ↦
          let ends = λ (c : ℕ). not (is_terminator c) in
          let less = shorter is_bearer ends 6 t r.0 r.1 found (is_bearer-length r.1) in
          let rest =
            redact_bearer_tokens_loop_fuel f g (drop_while ends (skip_first 7 r.1))
              (omega (h, less, arith)) (omega (k, less, arith)) in
          rw (found, redact_bearer_tokens_loop)
            (ap (λ x. r.0 ++ (take_first 7 r.1 ++ (redacted_text ++ x))) rest)
    ]

-- Both loops come to their end: with any fuel above the length of the text they give what they give
-- with the fuel that is taken.
pub redact_loops_end :
    (fuel : ℕ) (t : Text)
    → length t < fuel
    → (redact_prefixed_token_loop fuel nsec_prefix t ≡ redact_prefixed_token t nsec_prefix)
      × (redact_bearer_tokens_loop fuel t ≡ redact_bearer_tokens t)
redact_loops_end fuel t h = (
  redact_prefixed_token_loop_fuel fuel (suc (length t)) _ _ t h (omega arith),
  redact_bearer_tokens_loop_fuel fuel (suc (length t)) t h (omega arith),
)
