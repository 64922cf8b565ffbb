-- ===== src/Redaction/Keys.antt =====
-- Keys that begin with `nsec1` in a text, and the pieces that core/src/redaction.rs puts together.
use rust_agent.Base.{
  ℕ, ◌+◌, ◌≤◌, ◌<◌, Bool, true, false, ◌≡◌, ◌≢◌, refl, sym, ap, arith, none, some, [], ◌∷◌, ◌++◌,
  Text, inl, inr, Option-cases, Bool-cases, eq_of_some, starts_with, starts_with-split, length,
  ◌&&◌, ◌||◌, ◌==◌, leb, any, subst, codes,
}
use rust_agent.Redaction.{
  split_where, take_while, drop_while, skip_first, token_or_redacted, is_token_char, nsec_prefix,
  redacted_text,
}
use rust_agent.Redaction.Fuel.{split_where_sound}

-- How many characters of a token stand at the start.
abbrev pub run : Text → ℕ
run t = length (take_while is_token_char t)

abbrev pub starts_nsec : Text → Bool
starts_nsec t = starts_with t nsec_prefix

-- A key: the prefix and sixteen characters of a token.
abbrev pub is_secret_key : Text → Bool
is_secret_key t = starts_nsec t && leb 16 (run (skip_first 5 t))

-- A key anywhere in a text.
abbrev pub has_secret_key : Text → Bool
has_secret_key [] = false
has_secret_key (c ∷ t) = is_secret_key (c ∷ t) || has_secret_key t

pub append_assoc : (a b c : Text) → (a ++ b) ++ c ≡ a ++ (b ++ c)
append_assoc [] b c = refl
append_assoc (x ∷ a) b c = ap (λ y. x ∷ y) (append_assoc a b c)

secret_run : (r : Text) → is_secret_key (nsec_prefix ++ r) ≡ true → 21 ≤ run (nsec_prefix ++ r)
unfolding starts_with
secret_run r h = ground arith

is_secret_key-run : (t : Text) → is_secret_key t ≡ true → 21 ≤ run t
is_secret_key-run t h =
    let (r, e) = starts_with-split t nsec_prefix (ground arith) in
    subst (λ x. 21 ≤ run x) (sym e) (secret_run r (subst (λ x. is_secret_key x ≡ true) e h))

abbrev all_tokens : Text → Bool
all_tokens [] = true
all_tokens (c ∷ t) = is_token_char c && all_tokens t

run-append : (a y : Text) → all_tokens a ≡ true → run y ≡ 0 → run (a ++ y) ≡ length a
run-append [] y h k = k
run-append (c ∷ a) y h k = ground (arith, run-append a y)

pub all_tokens-take_while : (t : Text) → all_tokens (take_while is_token_char t) ≡ true
all_tokens-take_while [] = refl
all_tokens-take_while (c ∷ t) = ground (arith, all_tokens-take_while t)

pub run-drop_while : (t : Text) → run (drop_while is_token_char t) ≡ 0
run-drop_while [] = refl
run-drop_while (c ∷ t) = ground (arith, run-drop_while t)

-- A token that is too short for a key, and its end, add no key.
short_token :
    (a y : Text)
    → all_tokens a ≡ true
    → run y ≡ 0
    → length a < 21
    → has_secret_key (a ++ y) ≡ has_secret_key y
short_token [] y h k l = refl
short_token (c ∷ a) y h k l =
    let rest = short_token a y (ground arith) k (omega arith) in
    let count = run-append (c ∷ a) y h k in
    elim (Bool-cases (is_secret_key (c ∷ a ++ y))) [
      | inl s ↦
          let many = is_secret_key-run (c ∷ a ++ y) s in absurd (omega (many, count, l, arith))
      | inr s ↦ rw (s, rest) refl
    ]

-- What stands before the first prefix adds no key, if what comes after it agrees with the text.
pub before_clean :
    (t a b z : Text)
    → split_where starts_nsec t ≡ some (a, b)
    → ((x : Text) → starts_nsec (x ++ z) ≡ true → starts_nsec (x ++ b) ≡ true)
    → has_secret_key (a ++ z) ≡ has_secret_key z
unfolding starts_with
before_clean [] a b z e agree = absurd (cc)
before_clean (c ∷ t) a b z e agree = elim (Bool-cases (starts_nsec (c ∷ t))) [
  | inl h ↦ subst (λ r. has_secret_key (r.0 ++ z) ≡ has_secret_key z) (eq_of_some (rw h at e)) refl
  | inr h ↦ elim (Option-cases (split_where starts_nsec t)) [
    | inl gone ↦ absurd (cc (rw (h, gone) at e))
    | inr (r, found) ↦
        let same = eq_of_some (rw (h, found) at e) in
        let agree_r : (x : Text) → starts_nsec (x ++ z) ≡ true → starts_nsec (x ++ r.1) ≡ true =
          subst (λ p. (x : Text) → starts_nsec (x ++ z) ≡ true → starts_nsec (x ++ p.1) ≡ true)
            (sym same) agree in
        let rest = before_clean t r.0 r.1 z found agree_r in
        let (whole, _) = split_where_sound starts_nsec t r.0 r.1 found in
        subst (λ p. has_secret_key (p.0 ++ z) ≡ has_secret_key z) same
          (elim (Bool-cases (starts_nsec (c ∷ r.0 ++ z))) [
            | inl s ↦ let there = agree_r (c ∷ r.0) s in absurd (cc (rw whole at h))
            | inr s ↦ rw (s, rest) refl
          ])
  ]
]

-- A prefix that holds no bracket ends before one, whatever follows.
pub bracket_agree :
    (p x z b : Text)
    → any (λ c. c == 91) p ≡ false
    → starts_with (x ++ 91 ∷ z) p ≡ true
    → starts_with (x ++ b) p ≡ true
unfolding starts_with
bracket_agree [] [] z [] n h = refl
bracket_agree [] [] z (e ∷ b) n h = refl
bracket_agree [] (c ∷ x) z b n h = refl
bracket_agree (d ∷ p) [] z b n h = absurd (ground arith)
bracket_agree (d ∷ p) (c ∷ x) z b n h = ground (arith, bracket_agree p x z b)

-- A text as long as a prefix decides whether it starts with it.
long_agree :
    (p x u w : Text)
    → length p ≤ length x
    → starts_with (x ++ u) p ≡ true
    → starts_with (x ++ w) p ≡ true
unfolding starts_with
long_agree [] [] u [] n h = refl
long_agree [] [] u (e ∷ w) n h = refl
long_agree [] (c ∷ x) u w n h = refl
long_agree (d ∷ p) [] u w n h = absurd (omega (n, arith))
long_agree (d ∷ p) (c ∷ x) u w n h = ground (arith, long_agree p x u w)

length_append : (a b : Text) → length (a ++ b) ≡ length a + length b
length_append [] b = ground arith
length_append (c ∷ a) b = ground (arith, length_append a b)

prefix_agree :
    (x u w : Text)
    → starts_nsec (x ++ (nsec_prefix ++ u)) ≡ true
    → starts_nsec (x ++ (nsec_prefix ++ w)) ≡ true
prefix_agree x u w h =
    let many = length_append x nsec_prefix in
    subst (λ y. starts_nsec y ≡ true) (append_assoc x nsec_prefix w)
      (long_agree nsec_prefix (x ++ nsec_prefix) u w (omega (many, arith))
        (subst (λ y. starts_nsec y ≡ true) (sym (append_assoc x nsec_prefix u)) h))

pub none_clean : (t : Text) → split_where starts_nsec t ≡ none → has_secret_key t ≡ false
none_clean [] e = refl
none_clean (c ∷ t) e = elim (Bool-cases (starts_nsec (c ∷ t))) [
  | inl h ↦ absurd (cc (rw h at e))
  | inr h ↦ elim (Option-cases (split_where starts_nsec t)) [
    | inl gone ↦ rw h (none_clean t gone)
    | inr (r, found) ↦ absurd (cc (rw (h, found) at e))
  ]
]

pub redacted_clean : (y : Text) → has_secret_key (redacted_text ++ y) ≡ has_secret_key y
unfolding starts_with
redacted_clean y = refl

-- The token after a prefix, shortened or kept, adds no key to what follows it.
pub piece_clean :
    (token y : Text)
    → all_tokens token ≡ true
    → run y ≡ 0
    → has_secret_key (token_or_redacted nsec_prefix token ++ y) ≡ has_secret_key y
piece_clean token y h k = elim (Bool-cases (leb 16 (length token))) [
  | inl long ↦ rw long (redacted_clean y)
  | inr short ↦ rw short (
      short_token (nsec_prefix ++ token) y (ground arith) k
        (let many = length_append nsec_prefix token in ground arith))
]

pub piece_agree :
    (token y after x : Text)
    → starts_nsec (x ++ (token_or_redacted nsec_prefix token ++ y)) ≡ true
    → starts_nsec (x ++ (nsec_prefix ++ after)) ≡ true
unfolding starts_with
piece_agree token y after x h = elim (Bool-cases (leb 16 (length token))) [
  | inl long ↦
      bracket_agree nsec_prefix x (codes "REDACTED]" ++ y) (nsec_prefix ++ after) refl
        (rw long at h)
  | inr short ↦ prefix_agree x (token ++ y) after (rw short at h)
]

pub run-head : (a b y : Text) → run (a ++ b) ≡ 0 → (a ≡ [] → run y ≡ 0) → run (a ++ y) ≡ 0
run-head [] b y h k = k refl
run-head (c ∷ a) b y h k = ground arith

pub nsec_run : (after : Text) → run (nsec_prefix ++ after) ≢ 0
nsec_run after h = omega (h, arith)

pub suffix_clean : (a b : Text) → has_secret_key (a ++ b) ≡ false → has_secret_key b ≡ false
suffix_clean [] b h = h
suffix_clean (c ∷ a) b h = suffix_clean a b (ground arith)

pub first_clean : (b : Text) → has_secret_key b ≡ false → is_secret_key b ≡ false
unfolding starts_with
first_clean [] h = refl
first_clean (c ∷ b) h = ground arith

pub is_short :
    (b : Text)
    → starts_nsec b ≡ true
    → is_secret_key b ≡ false
    → leb 16 (run (skip_first 5 b)) ≡ false
is_short b h k = ground arith

pub take-drop_while : (t : Text) → take_while is_token_char t ++ drop_while is_token_char t ≡ t
take-drop_while [] = refl
take-drop_while (c ∷ t) = elim (Bool-cases (is_token_char c)) [
  | inl h ↦ rw h (ap (λ x. c ∷ x) (take-drop_while t))
  | inr h ↦ rw h refl
]
