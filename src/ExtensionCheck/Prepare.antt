-- ===== src/ExtensionCheck/Prepare.antt =====
-- extension_verification.go: the preparation of extension inputs at the start of a ceremony.
use webauthn.Prelude.{
  Bool, true, false, not, Option, none, some, List, [], ◌∷◌, Bytes, bytes_eq, bytes, content,
  length, ltb, lookup, keys, sorted_keys, if◌then◌else◌, map,
}
use webauthn.Prelude.Base64.{encode}
use webauthn.Errors.{
  Error, Result, ok, err, ◌>>=◌, ◌>>◌, refuse_if, wrapped, sentinel, wrap, annotate, annotate_about,
  extension_policy, extension_too_many_entries, extension_binding_mismatch,
  extension_invalid_request,
}
use webauthn.Platform.{Platform}
use webauthn.Protocol.Bytes.{Challenge, new_client_data_json}
use webauthn.Protocol.Types.{CredentialDescriptor}
use webauthn.Protocol.Identifier.{valid_identifier}
use webauthn.Protocol.ClientData.{parse_collected_client_data, challenge_bytes}
use webauthn.Extension.{
  Values, Binding, Registry, built_in_binding, max_entries, id_prf, id_remote_client_data_json,
  registry_binding, registry_contains, registry_validate_input,
}
use webauthn.ExtensionCheck.{Inputs}

abbrev pub policy_error : Error
policy_error = sentinel extension_policy

abbrev pub is_built_in : Bytes → Bool
is_built_in id = elim (built_in_binding id) [ none ↦ false | some _ ↦ true ]

abbrev unhandled_built_in : Bytes → Error
unhandled_built_in id =
    annotate_about policy_error "built-in extension requires its registered handler" id

module _ (v : Values) where
  -- A Go map lookup of a missing key gives a nil input, which `CloneInput` refuses.
  abbrev pub clone_entry : Option v.Input → Result v.Input
  clone_entry none = err (sentinel extension_invalid_request)
  clone_entry (some input) = v.clone_input input

  -- `normalizeRegisteredInput`.
  unfoldable pub normalize_registered_input :
      Option (Registry v) → Bytes → Bytes → v.Input → Result v.Input
  normalize_registered_input registry operation id input = do
    raw ← v.raw_input input
    normalized ← registry_validate_input v registry operation id raw
    v.normalize normalized

  abbrev binding_or_error : Option Binding → Result Binding
  binding_or_error none = err (wrap policy_error (sentinel extension_binding_mismatch))
  binding_or_error (some b) = ok b

  -- One id of the loop: the prepared input, and the binding of a known extension.
  unfoldable pub prepare_extension :
      Bytes
      → Option (Registry v)
      → Bool
      → (Bytes → v.Input → Result v.Input)
      → Inputs v
      → Bytes
      → Result (v.Input × Option Binding)
  prepare_extension operation registry reject_unknown transform inputs id = do
    refuse_if (not (valid_identifier id)) (annotate policy_error "extension id is invalid")
    cloned ← wrapped policy_error (clone_entry (lookup id inputs))
    value ← wrapped policy_error (transform id cloned)
    if not (registry_contains v registry id)
        then (do
          refuse_if (is_built_in id) (unhandled_built_in id)
          refuse_if reject_unknown (annotate_about policy_error "unknown extension input" id)
          ok (value, none))
        else do
          normalized ← wrapped policy_error (normalize_registered_input registry operation id value)
          binding ← binding_or_error (registry_binding v registry id)
          ok (normalized, some binding)

  abbrev pub add_binding : Option Binding → List Binding → List Binding
  add_binding none bs = bs
  add_binding (some b) bs = b ∷ bs

  unfoldable pub prepare_each :
      Bytes
      → Option (Registry v)
      → Bool
      → (Bytes → v.Input → Result v.Input)
      → Inputs v
      → List Bytes
      → Result (Inputs v × List Binding)
  prepare_each operation registry reject_unknown transform inputs [] = ok ([], [])
  prepare_each operation registry reject_unknown transform inputs (id ∷ ids) = do
    (value, binding) ← prepare_extension operation registry reject_unknown transform inputs id
    (out, bindings) ← prepare_each operation registry reject_unknown transform inputs ids
    ok ((id, value) ∷ out, add_binding binding bindings)

  abbrev pub is_nil_registry : Option (Registry v) → Bool
  is_nil_registry none = true
  is_nil_registry (some _) = false

  -- `prepareExtensionInputs`; the transform is the identity where it is nil.
  unfoldable pub prepare_extension_inputs :
      Bytes
      → Inputs v
      → Option (Registry v)
      → Bool
      → (Bytes → v.Input → Result v.Input)
      → Result (Inputs v × List Binding)
  prepare_extension_inputs operation [] registry reject_unknown transform = ok ([], [])
  prepare_extension_inputs operation (e ∷ es) registry reject_unknown transform = do
    refuse_if (ltb max_entries (length (e ∷ es)))
        (wrap policy_error (sentinel extension_too_many_entries))
    refuse_if (is_nil_registry registry)
        (annotate policy_error "extension registry is required when extensions are requested")
    prepare_each operation registry reject_unknown transform (e ∷ es) (sorted_keys (keys (e ∷ es)))

  unfoldable pub clone_extension_inputs : Inputs v → Result (Inputs v)
  clone_extension_inputs [] = ok []
  clone_extension_inputs ((id, value) ∷ rest) = do
    cloned ← v.clone_input value
    out ← clone_extension_inputs rest
    ok ((id, cloned) ∷ out)

  -- `attachAllowedCredentialIDsToPRFInput`, where the id is that of the PRF extension.
  unfoldable pub attach_allowed_credentials :
      List CredentialDescriptor → Bytes → v.Input → Result v.Input
  attach_allowed_credentials allowed id input =
      if bytes_eq id id_prf
      then v.prf_input_with_credentials input (map (λ d. encode (content d.id)) allowed)
      else ok input

  abbrev or_invalid {ℓ} : {A : Type ℓ} → Result A → Result A
  or_invalid (ok a) = ok a
  or_invalid (err e) = err (annotate policy_error "invalid remote client data")

  abbrev same_challenge : Challenge → Result Bytes → Result (Unit {0})
  same_challenge challenge (err e) =
      err (annotate policy_error "remote client data challenge mismatch")
  same_challenge challenge (ok received) =
      refuse_if (not (bytes_eq (content challenge) received))
        (annotate policy_error "remote client data challenge mismatch")

  unfoldable pub validate_remote_client_data_input :
      Platform → Bytes → Inputs v → Option (Registry v) → Challenge → Result (Unit {0})
  validate_remote_client_data_input g operation inputs registry challenge =
      elim (lookup id_remote_client_data_json inputs) [
        | none ↦ ok tt
        | some value ↦
            if not (registry_contains v registry id_remote_client_data_json) then ok tt else do
              raw ← wrapped policy_error (v.raw_input value)
              normalized ← wrapped policy_error (v.remote_client_data operation raw)
              json ← or_invalid (new_client_data_json (bytes normalized))
              d ← or_invalid (parse_collected_client_data g json)
              same_challenge challenge (challenge_bytes d)
      ]
