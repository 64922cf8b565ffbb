-- ===== src/Base/Strings.antt =====
-- Rust's `str` as its list of Unicode code points, with the operations of `str` that the program
-- calls. Equality, prefixes, suffixes and search do not depend on whether a text is read as code
-- points or as the bytes of their encoding; a length in bytes is `utf8_len`.
use Prim.Native.Nat.{ℕ, zero, suc, ◌+◌, ◌/◌, ◌%◌}
use Prim.Native.Char.{code}
use Prim.Native.String.{String}
use mathlib.Core.Path.{◌≡◌, refl}
use mathlib.Core.Logic.{◌≢◌, ◌⊎◌, inl, inr}
use mathlib.Core.Bool.{Bool, true, false, ◌&&◌, ◌||◌}
use mathlib.Core.Option.{Option, none, some}
use mathlib.Core.List.{List, [], ◌∷◌, ◌++◌}
use native.Mathlib.Omega.{arith}
use rust_agent.Base.Tests.{ltb, leb, ◌==◌, if◌then◌else◌, Bool-cases, Option-cases}
use rust_agent.Base.Lists.{In, All}

abbrev pub Text : Type 0
Text = List ℕ

-- The code points of a literal.
abbrev pub codes : String → Text
codes String.[] = []
codes (String.◌∷◌ c s) = code c ∷ codes s

unfoldable pub text_eq : Text → Text → Bool
text_eq [] [] = true
text_eq [] (d ∷ t) = false
text_eq (c ∷ s) [] = false
text_eq (c ∷ s) (d ∷ t) = c == d && text_eq s t

-- `str::starts_with`, the prefix last as in the call `text.starts_with(prefix)`.
unfoldable pub starts_with : Text → Text → Bool
starts_with t [] = true
starts_with [] (d ∷ p) = false
starts_with (c ∷ t) (d ∷ p) = c == d && starts_with t p

-- `str::contains`
unfoldable pub contains : Text → Text → Bool
unfolding starts_with
contains [] p = starts_with [] p
contains (c ∷ t) p = starts_with (c ∷ t) p || contains t p

-- `str::strip_suffix` with one character
unfoldable pub strip_suffix_char : ℕ → Text → Option Text
strip_suffix_char e [] = none
strip_suffix_char e (c ∷ []) = if c == e then some [] else none
strip_suffix_char e (c ∷ d ∷ t) = elim (strip_suffix_char e (d ∷ t)) [
  | none ↦ none
  | some s ↦ some (c ∷ s)
]

-- `str::to_ascii_lowercase`
abbrev pub lower_char : ℕ → ℕ
lower_char c = if leb b'A' c && leb c b'Z' then c + 32 else c

unfoldable pub to_ascii_lowercase : Text → Text
to_ascii_lowercase [] = []
to_ascii_lowercase (c ∷ t) = lower_char c ∷ to_ascii_lowercase t

-- `char::is_whitespace`: the Unicode property White_Space.
unfoldable pub is_whitespace : ℕ → Bool
is_whitespace c =
    (leb 0x09 c && leb c 0x0d)
    || c == 0x20
    || c == 0x85
    || c == 0xa0
    || c == 0x1680
    || (leb 0x2000 c && leb c 0x200a)
    || c == 0x2028
    || c == 0x2029
    || c == 0x202f
    || c == 0x205f
    || c == 0x3000

unfoldable pub trim_start : Text → Text
unfolding is_whitespace
trim_start [] = []
trim_start (c ∷ t) = if is_whitespace c then trim_start t else c ∷ t

-- Drops the white space at the end: a blank is kept only before something that is kept.
unfoldable pub trim_end : Text → Text
unfolding is_whitespace
trim_end [] = []
trim_end (c ∷ t) = elim (trim_end t) [
  | [] ↦ if is_whitespace c then [] else c ∷ []
  | d ∷ s ↦ c ∷ d ∷ s
]

-- `str::trim`
unfoldable pub trim : Text → Text
unfolding trim_start trim_end
trim t = trim_end (trim_start t)

abbrev pub utf8_width : ℕ → ℕ
utf8_width c = if ltb c 0x80 then 1 else if ltb c 0x800 then 2 else if ltb c 0x10000 then 3 else 4

-- `str::len`
unfoldable pub utf8_len : Text → ℕ
utf8_len [] = 0
utf8_len (c ∷ t) = utf8_width c + utf8_len t

-- `match text { "a" => x, … , _ => none }` as a table, read from the top.
unfoldable pub match_text {ℓ} : {A : Type ℓ} → Text → List (Text × A) → Option A
unfolding text_eq
match_text t [] = none
match_text t ((k, v) ∷ rest) = if text_eq t k then some v else match_text t rest

-- `[…].contains(text)`, and `matches!` over texts.
unfoldable pub one_of : Text → List Text → Bool
unfolding text_eq
one_of t [] = false
one_of t (k ∷ ks) = text_eq t k || one_of t ks

abbrev decimal_digits : ℕ → ℕ → Text → Text
decimal_digits zero n acc = acc
decimal_digits (suc fuel) n acc = elim (n / 10 == 0) [
  | true ↦ (48 + n % 10) ∷ acc
  | false ↦ decimal_digits fuel (n / 10) ((48 + n % 10) ∷ acc)
]

-- A number of at most forty digits in decimal, which is any integer of the program.
unfoldable pub decimal : ℕ → Text
unfolding decimal_digits
decimal n = decimal_digits 40 n []

pub text_eq_refl : (t : Text) → text_eq t t ≡ true
unfolding text_eq
text_eq_refl [] = refl
text_eq_refl (c ∷ t) = ground (arith, text_eq_refl t)

pub text_eq_sound : (s t : Text) → text_eq s t ≡ true → s ≡ t
unfolding text_eq
text_eq_sound [] [] h = refl
text_eq_sound [] (d ∷ t) h = ground arith
text_eq_sound (c ∷ s) [] h = ground arith
text_eq_sound (c ∷ s) (d ∷ t) h = ground (arith, text_eq_sound s t)

pub starts_with-append : (p t : Text) → starts_with (p ++ t) p ≡ true
unfolding starts_with
starts_with-append [] [] = refl
starts_with-append [] (c ∷ t) = refl
starts_with-append (c ∷ p) t = ground (arith, starts_with-append p t)

-- A prefix of a prefix.
pub starts_with_trans :
    (t p q : Text) → starts_with t p ≡ true → starts_with p q ≡ true → starts_with t q ≡ true
unfolding starts_with
starts_with_trans [] p [] h k = refl
starts_with_trans (c ∷ t) p [] h k = refl
starts_with_trans [] [] (e ∷ q) h k = k
starts_with_trans [] (d ∷ p) (e ∷ q) h k = ground arith
starts_with_trans (c ∷ t) [] (e ∷ q) h k = ground arith
starts_with_trans (c ∷ t) (d ∷ p) (e ∷ q) h k = ground (arith, starts_with_trans t p q)

pub starts_with-split : (t p : Text) → starts_with t p ≡ true → (r : Text) × (t ≡ p ++ r)
unfolding starts_with
starts_with-split t [] h = (t, refl)
starts_with-split [] (d ∷ p) h = cc
starts_with-split (c ∷ t) (d ∷ p) h =
    let (r, e) = starts_with-split t p (ground arith) in (r, ground arith)

-- The suffix that is stripped was there.
pub strip_suffix_char_sound :
    (e : ℕ) (t s : Text) → strip_suffix_char e t ≡ some s → t ≡ s ++ e ∷ []
unfolding strip_suffix_char
strip_suffix_char_sound e [] s h = cc
strip_suffix_char_sound e (c ∷ []) s h = ground arith
strip_suffix_char_sound e (c ∷ d ∷ t) s h = elim (Option-cases (strip_suffix_char e (d ∷ t))) [
  | inl n ↦ ground arith
  | inr (r, q) ↦ ground (arith, strip_suffix_char_sound e (d ∷ t) r)
]

pub strip_suffix_char-append : (e : ℕ) (s : Text) → strip_suffix_char e (s ++ e ∷ []) ≡ some s
unfolding strip_suffix_char
strip_suffix_char-append e [] = ground arith
strip_suffix_char-append e (c ∷ []) = ground arith
strip_suffix_char-append e (c ∷ d ∷ s) = ground (arith, strip_suffix_char-append e (d ∷ s))

module _ {A : Type 0} where
  pub match_text_sound :
      (t : Text) (table : List (Text × A)) (v : A) → match_text t table ≡ some v → In (t, v) table
  unfolding match_text
  match_text_sound t [] v h = cc
  match_text_sound t ((k, w) ∷ rest) v h = elim (Bool-cases (text_eq t k)) [
    | inl e ↦ inl (ground (arith, text_eq_sound t k))
    | inr e ↦ inr (match_text_sound t rest v (rw e at h))
  ]

  pub match_text-none :
      (t : Text) (table : List (Text × A)) → match_text t table ≡ none → All (λ kv. t ≢ kv.0) table
  unfolding match_text
  match_text-none t [] h = tt
  match_text-none t ((k, w) ∷ rest) h = elim (Bool-cases (text_eq t k)) [
    | inl e ↦ ground arith
    | inr e ↦ (λ q. ground (arith, text_eq_refl t), match_text-none t rest (rw e at h))
  ]

-- A prefix of a text and one more character is a prefix of the text, or all of it.
pub starts_with-snoc :
    (p q : Text) (e : ℕ)
    → starts_with (p ++ e ∷ []) q ≡ true
    → (starts_with p q ≡ true) ⊎ (q ≡ p ++ e ∷ [])
unfolding starts_with
starts_with-snoc [] [] e h = inl refl
starts_with-snoc [] (d ∷ []) e h = inr (ground arith)
starts_with-snoc [] (d ∷ f ∷ q) e h = ground arith
starts_with-snoc (c ∷ p) [] e h = inl refl
starts_with-snoc (c ∷ p) (d ∷ q) e h = ground (arith, starts_with-snoc p q e)
