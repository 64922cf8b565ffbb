-- ===== src/Worker/Actions.antt =====
-- worker/src/lib.rs: normalising, validating and classifying an action that a skill requests.
use rust_agent.Base.{
  ℕ, Bool, true, false, not, ◌==◌, Option, none, some, List, [], ◌∷◌, ◌++◌, Text, codes, trim,
  to_ascii_lowercase, text_eq, contains, one_of, if◌then◌else◌, is_empty, any, ◌>>=◌,
}
use rust_agent.Json.{Value, get, as_str, as_bool}
use rust_agent.Worker.Aliases.{normalize_args}
use rust_agent.Policy.{PolicyRequest, DenyReason, invalid_action_contract}

-- `skillrunner::ActionRequest`
pub record ActionRequest : Type 0 where
  pub action_id : Text
  pub action_type : Text
  pub args : Value
  pub justification : Text
  pub action_contract_version : Option Text
  pub action_schema_id : Option Text

pub record ContractValidationError : Type 0 where
  pub reason : DenyReason
  pub detail : Text

pub data Checked {ℓ} (A : Type ℓ) : Type ℓ where
  ok : A → Checked A
  invalid : ContractValidationError → Checked A

abbrev pub fail {ℓ} : {A : Type ℓ} → Text → Checked A
fail detail = invalid (record { reason = invalid_action_contract; detail = detail })

abbrev pub or_fail {ℓ} : {A : Type ℓ} → Option A → Text → Checked A
or_fail none detail = fail detail
or_fail (some a) detail = ok a

abbrev pub then_do {ℓ κ} : {A : Type ℓ} {B : Type κ} → Checked A → (A → Checked B) → Checked B
then_do (ok a) f = f a
then_do (invalid e) f = invalid e

unfoldable pub normalized_action_type : Text → Text
unfolding trim to_ascii_lowercase
normalized_action_type value = to_ascii_lowercase (trim value)

-- `map(str::trim).filter(|value| !value.is_empty())`
unfoldable pub non_empty_trimmed : Option Text → Option Text
unfolding trim
non_empty_trimmed none = none
non_empty_trimmed (some t) = if is_empty (trim t) then none else some (trim t)

unfoldable pub normalize_contract_version : Text → Option Text
unfolding one_of trim
normalize_contract_version raw_version =
    if one_of (trim raw_version) (codes "1" ∷ codes "v1" ∷ codes "V1" ∷ [])
    then some (codes "1")
    else none

abbrev pub checked_action_types : List Text
checked_action_types =
    codes "object.read"
    ∷ codes "memory.read"
    ∷ codes "memory.write"
    ∷ codes "object.write"
    ∷ codes "message.send"
    ∷ codes "message.receive"
    ∷ codes "payment.send"
    ∷ codes "llm.infer"
    ∷ codes "local.exec"
    ∷ []

-- `split_once(':')`
unfoldable pub split_once : ℕ → Text → Option (Text × Text)
split_once c [] = none
split_once c (d ∷ t) =
    let rest = split_once c t in
    if d == c then some ([], t) else elim rest [ none ↦ none | some (a, b) ↦ some (d ∷ a, b) ]

abbrev concat : List Text → Text
concat [] = []
concat (t ∷ ts) = t ++ concat ts

-- The checks of the schema id against the action type and the normalised version.
unfoldable pub check_schema_id : Text → Text → Text → Checked (Unit {0})
unfolding split_once normalize_contract_version normalized_action_type contains text_eq
check_schema_id action_type normalized_version schema_id =
    then_do
      (or_fail (split_once b':' schema_id)
        (codes "action_schema_id must use `<action_type>:<version>` format"))
      λ (schema_action_type, raw_version).
        then_do
          (or_fail (normalize_contract_version raw_version)
            (concat (codes "unsupported action_contract_version `" ∷ schema_id ∷ codes "`" ∷ [])))
          λ schema_version.
            if not (text_eq (normalized_action_type (trim schema_action_type)) action_type)
            then fail (codes "action_schema_id action type does not match action_type")
            else if not (text_eq schema_version normalized_version)
            then fail (codes "action_schema_id version does not match action_contract_version")
            else if contains schema_id (codes "..")
            then fail (codes "action_schema_id contains disallowed path segments")
            else ok tt

-- The second test for a missing schema id of the source is dead: both are present or absent here.
unfoldable pub validate_action_contract : ActionRequest → Checked (Unit {0})
unfolding non_empty_trimmed normalize_contract_version normalized_action_type one_of check_schema_id
validate_action_contract action =
    let action_type = normalized_action_type action.action_type in
    elim (non_empty_trimmed action.action_contract_version) [
      | none ↦ elim (non_empty_trimmed action.action_schema_id) [
        | none ↦ ok tt
        | some schema_id ↦
            fail (codes "action_contract_version and action_schema_id must be provided together")
      ]
      | some version ↦ elim (non_empty_trimmed action.action_schema_id) [
        | none ↦
            fail (codes "action_contract_version and action_schema_id must be provided together")
        | some schema_id ↦
            then_do
              (or_fail (normalize_contract_version version)
                (concat (codes "unsupported action_contract_version `" ∷ version ∷ codes "`" ∷ [])))
              λ normalized_version.
                if not (one_of action_type checked_action_types)
                then ok tt
                else check_schema_id action_type normalized_version schema_id
      ]
    ]

unfoldable pub required_trimmed_arg : ActionRequest → Text → Text → Checked Text
unfolding non_empty_trimmed get
required_trimmed_arg action name label =
    or_fail (non_empty_trimmed (get name action.args >>= as_str))
      (label ++ codes " is required and must not be empty")

-- What `to_policy_request` takes from elsewhere: the size of a JSON value in bytes, and the scope
-- that the model gateway assigns to the arguments of `llm.infer`.
module _ (json_size : Value → ℕ) (llm_scope : Value → Checked Text) where
  unfoldable pub policy_scope : ActionRequest → Checked Text
  unfolding required_trimmed_arg text_eq one_of
  policy_scope action =
      if text_eq action.action_type (codes "object.write")
      then required_trimmed_arg action (codes "path") (codes "object.write args.path")
      else if text_eq action.action_type (codes "message.send")
      then required_trimmed_arg action (codes "destination") (codes "message.send args.destination")
      else if text_eq action.action_type (codes "message.receive")
      then required_trimmed_arg action (codes "source") (codes "message.receive args.source")
      else if text_eq action.action_type (codes "payment.send")
      then required_trimmed_arg action (codes "destination") (codes "payment.send args.destination")
      else if one_of action.action_type (codes "memory.read" ∷ codes "memory.write" ∷ [])
      then required_trimmed_arg action (codes "scope") (codes "memory action args.scope")
      else if text_eq action.action_type (codes "llm.infer")
      then llm_scope action.args
      else if text_eq action.action_type (codes "local.exec")
      then then_do
          (required_trimmed_arg action (codes "template_id") (codes "local.exec args.template_id"))
          (λ template_id. ok (codes "local.exec:" ++ template_id))
      else ok []

  unfoldable pub to_policy_request : ActionRequest → Checked PolicyRequest
  unfolding validate_action_contract policy_scope
  to_policy_request action = then_do (validate_action_contract action) λ _.
      then_do (policy_scope action) λ scope. ok (record {
        action_type = action.action_type;
        scope = scope;
        payload_bytes = json_size action.args;
      })

unfoldable pub normalize_skill_action : ActionRequest → ActionRequest
unfolding normalized_action_type non_empty_trimmed normalize_args
normalize_skill_action action = record action {
  action_type = normalized_action_type action.action_type;
  action_contract_version = non_empty_trimmed action.action_contract_version;
  action_schema_id = non_empty_trimmed action.action_schema_id;
  args = normalize_args action.args;
}

unfoldable pub requires_governance_approval : List Text → Text → Bool
unfolding normalized_action_type text_eq
requires_governance_approval approval_required action_type =
    if is_empty approval_required
    then false
    else any (λ candidate. text_eq candidate (normalized_action_type action_type)) approval_required

abbrev flag : Text → Value → Bool
flag k v = elim (get k v >>= as_bool) [ none ↦ false | some b ↦ b ]

unfoldable pub is_action_governance_approved : ActionRequest → Bool
unfolding get text_eq
is_action_governance_approved action =
    if flag (codes "approved") action.args
    then true
    else if text_eq action.action_type (codes "payment.send")
    then flag (codes "payment_approved") action.args
    else false
