-- ===== src/Secrets/Backends.antt =====
-- core/src/secrets.rs: `CliSecretResolver`. What a process prints, what the environment and the files
-- hold, and the decoding and encoding of JSON are parameters.
use rust_agent.Base.{
  Bool, not, ◌&&◌, ◌||◌, Option, none, some, List, [], ◌∷◌, ◌++◌, Text, codes, trim, if◌then◌else◌,
  is_empty, is_some,
}
use rust_agent.Json.{Value, string, object, Fields, field, end, get, get_field}
use rust_agent.Secrets.{
  env, file, vault, aws_secrets_manager, gcp_secret_manager, azure_key_vault, SecretReference,
  split_once,
}
use rust_agent.Secrets.Params.{
  split_key_and_params, ensure_only_known_params, parse_gcp_secret_key, given_param, trim_end_char,
}

-- What the resolver takes from other code; a process gives what it prints if it succeeds.
pub record Machine : Type 0 where
  pub env_var : Text → Option Text
  pub read_file : Text → Option Text
  pub output : Text → List Text → Option Text
  pub from_json : Text → Option Value
  pub to_json : Value → Option Text

abbrev pub value_from_json : Machine → Value → Option Text
value_from_json m (string t) = some (trim t)
value_from_json m v = m.to_json v

abbrev option_arg : Text → Option Text → List Text
option_arg name none = []
option_arg name (some v) = name ∷ v ∷ []

-- The path of a vault key, and the field that it selects.
abbrev vault_path : Text → Text × Option Text
vault_path base = elim (split_once 35 base) [
  | none ↦ (trim base, none)
  | some r ↦ (trim r.0, some (trim r.1))
]

module _ (machine : Machine) where
  unfoldable pub run_cli : Text → List Text → Option Text
  unfolding trim
  run_cli program args = elim (machine.output program args) [
    | none ↦ none
    | some stdout ↦ if is_empty (trim stdout) then none else some (trim stdout)
  ]

  abbrev single_field : Fields → Option Text
  single_field (field k v end) = value_from_json machine v
  single_field fs = none

  abbrev vault_data : Option Text → Value → Option Text
  vault_data name (object fs) = elim name [
    | none ↦ single_field fs
    | some f ↦ elim (get_field f fs) [ none ↦ none | some v ↦ value_from_json machine v ]
  ]
  vault_data name v = none

  abbrev vault_answer : Option Text → Text → Option Text
  vault_answer name output = elim (machine.from_json output) [
    | none ↦ none
    | some parsed ↦ elim (get (codes "data") parsed) [
      | none ↦ none
      | some outer ↦ elim (get (codes "data") outer) [
        | none ↦ none
        | some data_value ↦ vault_data name data_value
      ]
    ]
  ]

  abbrev vault_args : Option Text → Text → List Text
  vault_args none path = codes "kv" ∷ codes "get" ∷ codes "-format=json" ∷ path ∷ []
  vault_args (some version) path =
      codes "kv" ∷ codes "get" ∷ codes "-format=json" ∷ (codes "-version=" ++ version) ∷ path ∷ []

  abbrev vault_fetch : Option Text → Text × Option Text → Option Text
  vault_fetch version parts = elim (run_cli (codes "vault") (vault_args version parts.0)) [
    | none ↦ none
    | some output ↦ vault_answer parts.1 output
  ]

  unfoldable pub resolve_with_vault_cli : Text → Option Text
  resolve_with_vault_cli key = elim (split_key_and_params key) [
    | none ↦ none
    | some p ↦
        if ensure_only_known_params p.1 (codes "version" ∷ [])
        then vault_fetch (given_param (codes "version") p.1) (vault_path p.0)
        else none
  ]

  unfoldable pub resolve_with_aws_sm_cli : Text → Option Text
  resolve_with_aws_sm_cli key = elim (split_key_and_params key) [
    | none ↦ none
    | some p ↦
        let version_id = given_param (codes "version_id") p.1 in
        let version_stage = given_param (codes "version_stage") p.1 in
        if not (ensure_only_known_params p.1 (codes "version_id" ∷ codes "version_stage" ∷ []))
          || (is_some version_id && is_some version_stage)
        then none
        else run_cli (codes "aws") (
            codes "secretsmanager"
            ∷ codes "get-secret-value"
            ∷ codes "--secret-id"
            ∷ p.0
            ∷ codes "--query"
            ∷ codes "SecretString"
            ∷ codes "--output"
            ∷ codes "text"
            ∷ (option_arg (codes "--version-id") version_id
                ++ option_arg (codes "--version-stage") version_stage))
  ]

  unfoldable pub resolve_with_gcp_sm_cli : Text → Option Text
  resolve_with_gcp_sm_cli key = elim (parse_gcp_secret_key key) [
    | none ↦ none
    | some p ↦ run_cli (codes "gcloud") (
        codes "secrets"
        ∷ codes "versions"
        ∷ codes "access"
        ∷ p.2
        ∷ codes "--secret"
        ∷ p.1
        ∷ codes "--project"
        ∷ p.0
        ∷ codes "--quiet"
        ∷ [])
  ]

  abbrev azure_id : Text → Option Text → Text
  azure_id base none = base
  azure_id base (some version) = trim_end_char 47 base ++ 47 ∷ version

  unfoldable pub resolve_with_azure_kv_cli : Text → Option Text
  resolve_with_azure_kv_cli key = elim (split_key_and_params key) [
    | none ↦ none
    | some p ↦
        if ensure_only_known_params p.1 (codes "version" ∷ [])
        then run_cli (codes "az") (
            codes "keyvault"
            ∷ codes "secret"
            ∷ codes "show"
            ∷ codes "--id"
            ∷ azure_id p.0 (given_param (codes "version") p.1)
            ∷ codes "--query"
            ∷ codes "value"
            ∷ codes "-o"
            ∷ codes "tsv"
            ∷ [])
        else none
  ]

  -- `CliSecretResolver::resolve`; the flag is `enable_cloud_cli_backends`.
  unfoldable pub resolve : Bool → SecretReference → Option Text
  resolve enable_cloud_cli_backends reference = elim reference.backend [
    | env ↦ machine.env_var reference.key
    | file ↦ elim (machine.read_file reference.key) [ none ↦ none | some v ↦ some (trim v) ]
    | vault ↦ if enable_cloud_cli_backends then resolve_with_vault_cli reference.key else none
    | aws_secrets_manager ↦
        if enable_cloud_cli_backends then resolve_with_aws_sm_cli reference.key else none
    | gcp_secret_manager ↦
        if enable_cloud_cli_backends then resolve_with_gcp_sm_cli reference.key else none
    | azure_key_vault ↦
        if enable_cloud_cli_backends then resolve_with_azure_kv_cli reference.key else none
  ]
