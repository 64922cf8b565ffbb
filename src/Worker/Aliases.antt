-- ===== src/Worker/Aliases.antt =====
-- worker/src/lib.rs: the arguments of an action under their canonical names, without blanks.
use rust_agent.Base.{Option, none, some, List, [], ◌∷◌, Text, codes, trim, text_eq, if◌then◌else◌}
use rust_agent.Json.{
  Value, Fields, field, end, object, string, get_field, remove_field, insert_field,
}

-- `canonicalize_action_arg_alias`: the value under the canonical key, else under the first alias
-- that is present; every alias is removed.
unfoldable pub take_alias : List Text → Option Value → Fields → Option Value × Fields
unfolding get_field remove_field
take_alias [] found fs = (found, fs)
take_alias (a ∷ as') (some v) fs = take_alias as' (some v) (remove_field a fs)
take_alias (a ∷ as') none fs = take_alias as' (get_field a fs) (remove_field a fs)

unfoldable pub canonicalize_action_arg_alias : Text → List Text → Fields → Fields
unfolding take_alias insert_field
canonicalize_action_arg_alias canonical aliases fs =
    let (found, rest) = take_alias aliases (get_field canonical fs) (remove_field canonical fs) in
    elim found [ none ↦ rest | some v ↦ insert_field canonical v rest ]

-- `if let Some(Value::String(value)) = map.get_mut(key) { *value = value.trim() }`
unfoldable pub trim_field : Text → Fields → Fields
unfolding text_eq trim
trim_field k end = end
trim_field k (field j v fs) =
    if text_eq j k
    then field j (elim v [ string t ↦ string (trim t) | other ↦ other ]) fs
    else field j v (trim_field k fs)

unfoldable pub canonicalize_action_arg_aliases : Fields → Fields
unfolding canonicalize_action_arg_alias trim_field
canonicalize_action_arg_aliases fs0 =
    let fs1 =
      canonicalize_action_arg_alias (codes "path")
        (codes "file_path" ∷ codes "filepath" ∷ codes "source_path" ∷ []) fs0 in
    let fs2 =
      canonicalize_action_arg_alias (codes "destination")
        (codes "to" ∷ codes "recipient" ∷ codes "recipient_id" ∷ []) fs1 in
    let fs3 =
      canonicalize_action_arg_alias (codes "source")
        (codes "from" ∷ codes "sender" ∷ codes "sender_id" ∷ []) fs2 in
    let fs4 =
      canonicalize_action_arg_alias (codes "scope") (codes "scope_name" ∷ codes "scope-name" ∷ [])
        fs3 in
    let fs5 =
      canonicalize_action_arg_alias (codes "template_id")
        (codes "template" ∷ codes "template-id" ∷ codes "template_name" ∷ []) fs4 in
    trim_field (codes "template_id") (
      trim_field (codes "scope") (trim_field (codes "destination") (trim_field (codes "path") fs5)))

unfoldable pub normalize_args : Value → Value
unfolding canonicalize_action_arg_aliases trim_field
normalize_args (object fs) = object (
    trim_field (codes "template_id") (
      trim_field (codes "scope") (
        trim_field (codes "source") (
          trim_field (codes "destination")
            (trim_field (codes "path") (canonicalize_action_arg_aliases fs))))))
normalize_args v = v
