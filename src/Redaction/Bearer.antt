-- ===== src/Redaction/Bearer.antt =====
-- `redact_bearer_tokens` and `redact_text` of core/src/redaction.rs, and the keys that begin with
-- `nsec1`.
use rust_agent.Base.{
  ℕ, zero, suc, ◌≤◌, ◌<◌, Bool, true, false, not, ◌≡◌, refl, sym, ap, arith, [], ◌∷◌, ◌++◌, Text,
  inl, inr, Option-cases, Bool-cases, starts_with, length, ◌==◌, ◌∙◌, any, subst, codes,
}
use rust_agent.Redaction.{
  split_where, drop_while, skip_first, take_first, is_bearer, is_terminator,
  redact_bearer_tokens_loop, redact_text, redact_prefixed_token, nsec_prefix, redacted_text,
}
use rust_agent.Redaction.Fuel.{split_where_sound, shorter, is_bearer-length}
use rust_agent.Redaction.Keys.{
  run, is_secret_key, has_secret_key, suffix_clean, redacted_clean, append_assoc,
}
use rust_agent.Redaction.Cleaning.{redact_prefixed_token_clean}

bracket_split :
    (p x z : Text)
    → any (λ c. c == 91) p ≡ false
    → starts_with (x ++ 91 ∷ z) p ≡ true
    → (r : Text) × (x ≡ p ++ r)
unfolding starts_with
bracket_split [] x z n h = (x, refl)
bracket_split (d ∷ p) [] z n h = absurd (ground arith)
bracket_split (d ∷ p) (c ∷ x) z n h =
    let (r, e) = bracket_split p x z (ground arith) (ground arith) in (r, ground arith)

run-bracket : (x z w : Text) → run (x ++ 91 ∷ z) ≤ run (x ++ w)
run-bracket [] z w = ground arith
run-bracket (c ∷ x) z w = ground (arith, run-bracket x z w)

secret_cut :
    (r z w : Text)
    → is_secret_key ((nsec_prefix ++ r) ++ 91 ∷ z) ≡ true
    → is_secret_key ((nsec_prefix ++ r) ++ w) ≡ true
unfolding starts_with
secret_cut r z w h = let less = run-bracket r z w in ground arith

-- A key that a bracket follows was a key before the text was cut there.
is_secret_key-cut :
    (x z w : Text) → is_secret_key (x ++ 91 ∷ z) ≡ true → is_secret_key (x ++ w) ≡ true
is_secret_key-cut x z w h =
    let (r, e) = bracket_split nsec_prefix x z refl (ground arith) in
    subst (λ y. is_secret_key (y ++ w) ≡ true) (sym e)
      (secret_cut r z w (subst (λ y. is_secret_key (y ++ 91 ∷ z) ≡ true) e h))

cut_clean :
    (x z w : Text)
    → has_secret_key (x ++ w) ≡ false
    → has_secret_key (x ++ 91 ∷ z) ≡ has_secret_key (91 ∷ z)
cut_clean [] z w h = refl
cut_clean (c ∷ x) z w h =
    let rest = cut_clean x z w (ground arith) in
    elim (Bool-cases (is_secret_key (c ∷ x ++ 91 ∷ z))) [
      | inl s ↦ let was = is_secret_key-cut (c ∷ x) z w s in absurd (ground arith)
      | inr s ↦ rw (s, rest) refl
    ]

take-skip_first : (n : ℕ) (t : Text) → t ≡ take_first n t ++ skip_first n t
take-skip_first zero t = refl
take-skip_first (suc n) [] = refl
take-skip_first (suc n) (c ∷ t) = ap (λ x. c ∷ x) (take-skip_first n t)

drop_while-clean :
    (p : ℕ → Bool) (t : Text) → has_secret_key t ≡ false → has_secret_key (drop_while p t) ≡ false
drop_while-clean p [] h = h
drop_while-clean p (c ∷ t) h = elim (Bool-cases (p c)) [
  | inl e ↦ rw e (drop_while-clean p t (ground arith))
  | inr e ↦ rw e h
]

loop_keeps_clean :
    (fuel : ℕ) (t : Text)
    → length t < fuel
    → has_secret_key t ≡ false
    → has_secret_key (redact_bearer_tokens_loop fuel t) ≡ false
unfolding redact_bearer_tokens_loop
loop_keeps_clean zero t h n = absurd (omega (h, arith))
loop_keeps_clean (suc fuel) t h n = elim (Option-cases (split_where is_bearer t)) [
  | inl gone ↦ rw (gone, redact_bearer_tokens_loop) n
  | inr (r, found) ↦
      let ends = λ (c : ℕ). not (is_terminator c) in
      let (whole, _) = split_where_sound is_bearer t r.0 r.1 found in
      let less = shorter is_bearer ends 6 t r.0 r.1 found (is_bearer-length r.1) in
      let left = drop_while ends (skip_first 7 r.1) in
      let y = redact_bearer_tokens_loop fuel left in
      let x = r.0 ++ take_first 7 r.1 in
      let parts : t ≡ x ++ skip_first 7 r.1 =
        whole
        ∙ (ap (λ b. r.0 ++ b) (take-skip_first 7 r.1)
            ∙ sym (append_assoc r.0 (take_first 7 r.1) (skip_first 7 r.1))) in
      let clean = subst (λ u. has_secret_key u ≡ false) parts n in
      let rest =
        loop_keeps_clean fuel left (omega (h, less, arith))
          (drop_while-clean ends (skip_first 7 r.1) (suffix_clean x (skip_first 7 r.1) clean)) in
      rw (found, redact_bearer_tokens_loop)
        (ap has_secret_key (sym (append_assoc r.0 (take_first 7 r.1) (redacted_text ++ y)))
          ∙ (cut_clean x (codes "REDACTED]" ++ y) (skip_first 7 r.1) clean
              ∙ (redacted_clean y ∙ rest)))
]

-- A text that is redacted holds no key: at no place the prefix `nsec1` with sixteen or more lower case
-- letters and digits after it.
pub redact_text_clean : (t : Text) → has_secret_key (redact_text t) ≡ false
unfolding redact_text
redact_text_clean t =
    let u = redact_prefixed_token t nsec_prefix in
    loop_keeps_clean (suc (length u)) u (omega arith) (redact_prefixed_token_clean t)
