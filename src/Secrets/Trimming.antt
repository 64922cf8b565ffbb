-- ===== src/Secrets/Trimming.antt =====
-- `str::trim` on texts that are trimmed, and on texts that end in one.
use rust_agent.Base.{
  ℕ, Bool, true, false, ◌≡◌, refl, sym, ap, ◌∙◌, [], ◌∷◌, ◌++◌, Text, trim, trim_start, trim_end,
  is_whitespace, is_empty, if◌then◌else◌, Bool-cases, inl, inr, ◌⊎◌,
}

-- Whether a text does not begin with white space.
abbrev starts_dark : Text → Bool
starts_dark [] = true
starts_dark (c ∷ t) = if is_whitespace c then false else true

List-cases : (t : Text) → (t ≡ []) ⊎ ((c : ℕ) × (s : Text) × (t ≡ c ∷ s))
List-cases [] = inl refl
List-cases (c ∷ s) = inr (c, s, refl)

dark_head : (c : ℕ) (t : Text) → is_whitespace c ≡ false → starts_dark (c ∷ t) ≡ true
dark_head c t h = rw h refl

-- Something that is kept keeps what stands before it.
trim_end_over : (c d : ℕ) (t s : Text) → trim_end t ≡ d ∷ s → trim_end (c ∷ t) ≡ c ∷ d ∷ s
unfolding trim_end
trim_end_over c d t s e = rw e refl

append_empty : (p t : Text) → p ++ t ≡ [] → t ≡ []
append_empty [] t h = h
append_empty (c ∷ p) t h = absurd (cc)

trim_start-starts_dark : (t : Text) → starts_dark (trim_start t) ≡ true
unfolding trim_start
trim_start-starts_dark [] = refl
trim_start-starts_dark (c ∷ t) = elim (Bool-cases (is_whitespace c)) [
  | inl e ↦ rw e (trim_start-starts_dark t)
  | inr e ↦ rw e (dark_head c t e)
]

trim_end-starts_dark : (t : Text) → starts_dark t ≡ true → starts_dark (trim_end t) ≡ true
unfolding trim_end
trim_end-starts_dark [] h = refl
trim_end-starts_dark (c ∷ t) h = elim (List-cases (trim_end t)) [
  | inl e ↦ elim (Bool-cases (is_whitespace c)) [
    | inl w ↦ absurd (cc (rw w at h))
    | inr w ↦ rw (e, w, trim_end) (dark_head c [] w)
  ]
  | inr (d, s, e) ↦ rw (e, trim_end) h
]

starts_dark-trim_start : (t : Text) → starts_dark t ≡ true → trim_start t ≡ t
unfolding trim_start
starts_dark-trim_start [] h = refl
starts_dark-trim_start (c ∷ t) h = elim (Bool-cases (is_whitespace c)) [
  | inl w ↦ absurd (cc (rw w at h))
  | inr w ↦ rw w refl
]

pub trim_end-idempotent : (t : Text) → trim_end (trim_end t) ≡ trim_end t
unfolding trim_end
trim_end-idempotent [] = refl
trim_end-idempotent (c ∷ t) = elim (List-cases (trim_end t)) [
  | inl e ↦ elim (Bool-cases (is_whitespace c)) [
    | inl w ↦ rw (e, w, trim_end) refl
    | inr w ↦ rw (e, w, trim_end) (rw w refl)
  ]
  | inr (d, s, e) ↦
      let kept : trim_end (d ∷ s) ≡ d ∷ s = ap trim_end (sym e) ∙ (trim_end-idempotent t ∙ e) in
      let over = trim_end_over c d t s e in
      ap trim_end over ∙ (trim_end_over c d (d ∷ s) s kept ∙ sym over)
]

pub trim_end-append :
    (p t : Text) → is_empty (trim_end t) ≡ false → trim_end (p ++ t) ≡ p ++ trim_end t
unfolding trim_end
trim_end-append [] t h = refl
trim_end-append (c ∷ p) t h =
    let rest = trim_end-append p t h in
    elim (List-cases (p ++ trim_end t)) [
      | inl e ↦ absurd (cc (rw (append_empty p (trim_end t) e) at h))
      | inr (d, s, e) ↦ trim_end_over c d (p ++ t) s (rest ∙ e) ∙ ap (λ x. c ∷ x) (sym e)
    ]

pub trim_idempotent : (t : Text) → trim (trim t) ≡ trim t
unfolding trim
trim_idempotent t =
    let dark = trim_end-starts_dark (trim_start t) (trim_start-starts_dark t) in
    rw (starts_dark-trim_start (trim_end (trim_start t)) dark) (trim_end-idempotent (trim_start t))
