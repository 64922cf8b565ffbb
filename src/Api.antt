-- ===== src/Api.antt =====
-- api/src/lib.rs: the error type of the handlers and the role presets.
use rust_agent.Base.{◌≡◌, refl, Text, codes, trim, to_ascii_lowercase, match_text, Option, ◌∷◌, []}

pub data Status : Type 0 where
  bad_request unauthorized forbidden conflict not_found internal : Status

-- `code` is a function of `status` in every constructor of the source.
pub record ApiError : Type 0 where
  pub status : Status
  pub message : Text

-- `Result<T, ApiError>`
pub data ApiResult {ℓ} (T : Type ℓ) : Type ℓ where
  err : ApiError → ApiResult T
  ok : T → ApiResult T

-- The operator `?` of the source.
infixl 5 ◌>>=◌
abbrev pub ◌>>=◌ {ℓ κ} : {T : Type ℓ} {U : Type κ} → ApiResult T → (T → ApiResult U) → ApiResult U
err problem >>= rest = err problem
ok value >>= rest = rest value

-- A chain that succeeds has succeeded in its first step, and goes on from there.
pub chain-ok {ℓ κ} :
    {T : Type ℓ} {U : Type κ} {out : U} (first : ApiResult T) (rest : T → ApiResult U)
    → (first >>= rest) ≡ ok out
    → (value : T) × (first ≡ ok value) × (rest value ≡ ok out)
chain-ok (err problem) rest h = cc
chain-ok (ok value) rest h = (value, refl, h)

pub ok-injective {ℓ} : {T : Type ℓ} {a b : T} → ok a ≡ ok b → a ≡ b
ok-injective h = cc

-- `ok_or_else`
abbrev pub or_bad_request {ℓ} : {A : Type ℓ} → Option A → Text → ApiResult A
or_bad_request (Option.some a) message = ok a
or_bad_request Option.none message = err (record { status = bad_request; message = message })

pub data RolePreset : Type 0 where
  owner operator viewer : RolePreset

unfoldable pub parse_role : Text → Option RolePreset
unfolding match_text trim to_ascii_lowercase
parse_role raw =
    match_text (to_ascii_lowercase (trim raw))
      ((codes "owner", owner) ∷ (codes "operator", operator) ∷ (codes "viewer", viewer) ∷ [])
