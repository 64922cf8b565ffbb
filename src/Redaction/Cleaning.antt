-- ===== src/Redaction/Cleaning.antt =====
-- What `redact_prefixed_token` of core/src/redaction.rs leaves of the keys that begin with `nsec1`.
use rust_agent.Base.{
  ℕ, zero, suc, ◌<◌, true, false, ◌≡◌, refl, sym, ap, arith, ◌++◌, Text, inl, inr, Option-cases,
  starts_with-split, length, ◌∙◌, leb, subst,
}
use rust_agent.Redaction.{
  split_where, take_while, drop_while, skip_first, token_or_redacted, redact_prefixed_token_loop,
  redact_prefixed_token, is_token_char, nsec_prefix,
}
use rust_agent.Redaction.Fuel.{split_where_sound, shorter, starts_with-length}
use rust_agent.Redaction.Keys.{
  run, starts_nsec, has_secret_key, before_clean, piece_clean, piece_agree, run-head, nsec_run,
  none_clean, all_tokens-take_while, run-drop_while, suffix_clean, first_clean, is_short,
  take-drop_while,
}

-- One loop: no key is left, and a text that does not begin with a token gives one that does not.
loop_clean :
    (fuel : ℕ) (t : Text)
    → length t < fuel
    → (has_secret_key (redact_prefixed_token_loop fuel nsec_prefix t) ≡ false)
      × (run t ≡ 0 → run (redact_prefixed_token_loop fuel nsec_prefix t) ≡ 0)
unfolding redact_prefixed_token_loop
loop_clean zero t h = absurd (omega (h, arith))
loop_clean (suc fuel) t h = elim (Option-cases (split_where starts_nsec t)) [
  | inl gone ↦ rw (gone, redact_prefixed_token_loop) (none_clean t gone, λ k. k)
  | inr (r, found) ↦
      let (whole, starts) = split_where_sound starts_nsec t r.0 r.1 found in
      let (after, at_prefix) = starts_with-split r.1 nsec_prefix starts in
      let less =
        shorter starts_nsec is_token_char 4 t r.0 r.1 found
          (λ s. starts_with-length r.1 nsec_prefix s (omega arith)) in
      let left = drop_while is_token_char (skip_first 5 r.1) in
      let token = take_while is_token_char (skip_first 5 r.1) in
      let y = redact_prefixed_token_loop fuel nsec_prefix left in
      let (clean, fresh) = loop_clean fuel left (omega (h, less, arith)) in
      let end_y = fresh (run-drop_while (skip_first 5 r.1)) in
      rw (found, redact_prefixed_token_loop)
        (
          before_clean t r.0 r.1 (token_or_redacted nsec_prefix token ++ y) found (λ x s.
                subst (λ b. starts_nsec (x ++ b) ≡ true) (sym at_prefix)
                  (piece_agree token y after x s))
              ∙ (piece_clean token y (all_tokens-take_while (skip_first 5 r.1)) end_y ∙ clean),
          λ k.
              run-head r.0 r.1 (token_or_redacted nsec_prefix token ++ y)
                (subst (λ u. run u ≡ 0) whole k)
                (λ e. absurd (
                  nsec_run after
                    (subst (λ u. run u ≡ 0) (whole ∙ (ap (λ a. a ++ r.1) e ∙ at_prefix)) k))),
        )
]

-- No key is left: after `redact_prefixed_token` no place of a text has the prefix `nsec1` with
-- sixteen or more lower case letters and digits after it.
pub redact_prefixed_token_clean :
    (t : Text) → has_secret_key (redact_prefixed_token t nsec_prefix) ≡ false
redact_prefixed_token_clean t = (loop_clean (suc (length t)) t (omega arith)).0

-- A text without a key stays as it is.
loop_keeps :
    (fuel : ℕ) (t : Text)
    → length t < fuel
    → has_secret_key t ≡ false
    → redact_prefixed_token_loop fuel nsec_prefix t ≡ t
unfolding redact_prefixed_token_loop
loop_keeps zero t h n = absurd (omega (h, arith))
loop_keeps (suc fuel) t h n = elim (Option-cases (split_where starts_nsec t)) [
  | inl gone ↦ rw (gone, redact_prefixed_token_loop) refl
  | inr (r, found) ↦
      let (whole, starts) = split_where_sound starts_nsec t r.0 r.1 found in
      let (after, at_prefix) = starts_with-split r.1 nsec_prefix starts in
      let less =
        shorter starts_nsec is_token_char 4 t r.0 r.1 found
          (λ s. starts_with-length r.1 nsec_prefix s (omega arith)) in
      let left = drop_while is_token_char (skip_first 5 r.1) in
      let token = take_while is_token_char (skip_first 5 r.1) in
      let clean = suffix_clean r.0 r.1 (subst (λ u. has_secret_key u ≡ false) whole n) in
      let short : leb 16 (run (skip_first 5 r.1)) ≡ false =
        is_short r.1 starts (first_clean r.1 clean) in
      let parts : r.1 ≡ (nsec_prefix ++ token) ++ left =
        at_prefix
        ∙ subst
            (λ b.
              nsec_prefix ++ after
              ≡ (nsec_prefix ++ take_while is_token_char (skip_first 5 b))
                ++ drop_while is_token_char (skip_first 5 b))
            (sym at_prefix) (ap (λ x. nsec_prefix ++ x) (sym (take-drop_while after))) in
      let rest = loop_keeps fuel left (omega (h, less, arith)) (
        suffix_clean (nsec_prefix ++ token) left
          (subst (λ u. has_secret_key u ≡ false) parts clean)) in
      rw (found, redact_prefixed_token_loop, short, rest)
        (ap (λ x. r.0 ++ x) (sym parts) ∙ sym whole)
]

-- To redact the keys of a text twice is to redact them once.
pub redact_prefixed_token_idempotent :
    (t : Text)
    → redact_prefixed_token (redact_prefixed_token t nsec_prefix) nsec_prefix
      ≡ redact_prefixed_token t nsec_prefix
redact_prefixed_token_idempotent t =
    let u = redact_prefixed_token t nsec_prefix in
    loop_keeps (suc (length u)) u (omega arith) (redact_prefixed_token_clean t)
