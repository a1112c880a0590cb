-- ===== src/ExtensionCheck.antt =====
-- extension_verification.go, with the checks of validation.go on requested extensions: how a ceremony
-- prepares, binds and verifies client extensions. Maps are in an order of their iteration.
pub mod Outputs
pub mod Prepare
pub mod Bindings
pub mod State
pub mod Started
use webauthn.Prelude.{
  ℕ, zero, suc, ◌+◌, Bool, true, false, not, ◌&&◌, ◌||◌, Option, none, some, List, [], ◌∷◌, ◌++◌,
  Bytes, ascii, bytes_eq, content, is_empty, any, length, ltb, ◌==◌, Assoc, lookup, keys, bytes_ltb,
  sorted_keys, if◌then◌else◌, map,
}
use webauthn.Prelude.Base64.{encode}
use webauthn.Errors.{
  Error, Result, ok, err, ◌>>=◌, ◌>>◌, refuse_if, each, wrapped, sentinel, wrap, annotate, about,
  annotate_about, message, extension_policy, extension_too_many_entries, extension_binding_mismatch,
  extension_invalid_request, invalid_ceremony_state,
}
use webauthn.Platform.{Platform}
use webauthn.Protocol.Bytes.{Challenge, ClientDataJson, CredentialId, new_client_data_json}
use webauthn.Protocol.Types.{CredentialDescriptor}
use webauthn.Protocol.Identifier.{valid_identifier}
use webauthn.Protocol.ClientData.{parse_collected_client_data, challenge_bytes}
use webauthn.Extension.{
  Values, Binding, Registry, OutputRequest, valid_binding, binding_eq, built_in_binding,
  max_entries, id_large_blob, id_remote_client_data_json, registry_binding, registry_contains,
  registry_validate_input, registry_verify_output,
}

abbrev policy_error : Error
policy_error = sentinel extension_policy

abbrev pub binding_table : List Binding → Assoc Binding
binding_table bs = map (λ b. (b.id, b)) bs

-- `hasExtensionBinding`.
unfoldable pub has_extension_binding : List Binding → Bytes → Bool
has_extension_binding bs id = any (λ b. bytes_eq b.id id) bs

-- The last binding under an id, as in a map that is filled in the list's order.
unfoldable pub bound : List Binding → Bytes → Option Binding
bound [] id = none
bound (b ∷ bs) id = elim (bound bs id) [
  | some later ↦ some later
  | none ↦ if bytes_eq b.id id then some b else none
]

-- The sorted test of `slices.IsSortedFunc`: no element before a smaller one.
unfoldable pub is_sorted : List Binding → Bool
is_sorted [] = true
is_sorted (a ∷ []) = true
is_sorted (a ∷ b ∷ bs) = not (bytes_ltb b.id a.id) && is_sorted (b ∷ bs)

abbrev pub is_requested {ℓ} : {V : Type ℓ} → Assoc V → Bytes → Bool
is_requested inputs id = elim (lookup id inputs) [ none ↦ false | some _ ↦ true ]

abbrev pub matches : Option Binding → Binding → Bool
matches none expected = false
matches (some b) expected = binding_eq b expected

-- The rule for one id: what was bound at the start is bound alike now, and nothing new is.
abbrev pub rebind : Bytes → Option Binding → Option Binding → Result (Unit {0})
rebind id none none = ok tt
rebind id none (some current) =
    err (annotate_about (sentinel extension_binding_mismatch) "was not bound at ceremony start" id)
rebind id (some b) current =
    refuse_if (not (matches current b)) (about (sentinel extension_binding_mismatch) id)

module _ (v : Values) where
  abbrev pub Inputs : Type 0
  Inputs = Assoc v.Input

  abbrev pub ClientOutputs : Type 0
  ClientOutputs = Assoc v.Value

  abbrev pub ExtensionMap : Type 0
  ExtensionMap = Assoc v.Output

  -- `validateRequestedExtensionIDs` of validation.go.
  unfoldable pub validate_requested_extension_ids : Inputs → Result (Unit {0})
  validate_requested_extension_ids inputs = do
    let outer = sentinel invalid_ceremony_state
    refuse_if (ltb max_entries (length inputs)) (wrap outer (sentinel extension_too_many_entries))
    each (λ id. refuse_if (not (valid_identifier id)) (annotate outer "invalid extension id"))
        (keys inputs)

  -- The loop over the bindings; `previous` is the id before.
  unfoldable pub validate_bindings : Inputs → Bytes → List Binding → Result (Unit {0})
  validate_bindings inputs previous [] = ok tt
  validate_bindings inputs previous (b ∷ bs) = do
    let outer = sentinel invalid_ceremony_state
    refuse_if (not (valid_binding b) || bytes_eq b.id previous)
        (annotate outer "extension binding is invalid")
    refuse_if (not (is_requested inputs b.id))
        (annotate outer "extension binding was not requested")
    validate_bindings inputs b.id bs

  -- The loop over the inputs: a built-in extension is bound to its own revision.
  abbrev pub validate_built_in : List Binding → Bytes → Result (Unit {0})
  validate_built_in bindings id = elim (built_in_binding id) [
    | none ↦ ok tt
    | some expected ↦
        refuse_if (not (matches (bound bindings id) expected))
          (about (wrap (sentinel invalid_ceremony_state) (sentinel extension_binding_mismatch)) id)
  ]

  -- `validateExtensionBindingState` of validation.go.
  unfoldable pub validate_extension_binding_state : Inputs → List Binding → Result (Unit {0})
  unfolding validate_bindings
  validate_extension_binding_state inputs bindings = do
    let outer = sentinel invalid_ceremony_state
    refuse_if (ltb max_entries (length bindings)) (wrap outer (sentinel extension_too_many_entries))
    refuse_if (not (is_sorted bindings)) (annotate outer "extension bindings are not sorted")
    validate_bindings inputs [] bindings
    each (validate_built_in bindings) (keys inputs)

  unfoldable pub validate_finish_extension_bindings :
      Inputs → List Binding → Option (Registry v) → Result (Unit {0})
  validate_finish_extension_bindings requested bindings registry =
      each (λ id. rebind id (bound bindings id) (registry_binding v registry id)) (keys requested)

  unfoldable pub validate_client_extension_results : ClientOutputs → Result (Unit {0})
  validate_client_extension_results results = do
    refuse_if (ltb max_entries (length results))
        (wrap policy_error (sentinel extension_too_many_entries))
    each
        (λ entry. do
          refuse_if (not (v.present entry.1)) (annotate policy_error "absent client output value")
          refuse_if (not (valid_identifier entry.0)) (annotate policy_error "invalid extension id"))
        results

  -- `validateLargeBlobCredentialContext`.
  unfoldable pub validate_large_blob_credential_context :
      v.Input → List CredentialDescriptor → Result (Unit {0})
  validate_large_blob_credential_context value allowed = do
    raw ← v.raw_input value
    write ← v.large_blob_write raw
    refuse_if (write && not (length allowed == 1))
        (message "largeBlob write requires exactly one allowed credential")

  unfoldable pub validate_stored_authentication_extension_context :
      Inputs → List CredentialDescriptor → Result (Unit {0})
  validate_stored_authentication_extension_context inputs allowed =
      elim (lookup id_large_blob inputs) [
        | none ↦ ok tt
        | some value ↦ validate_large_blob_credential_context value allowed
      ]

  unfoldable pub validate_authentication_extension_context :
      Inputs → Option (Registry v) → List CredentialDescriptor → Result (Unit {0})
  validate_authentication_extension_context inputs registry allowed =
      elim (lookup id_large_blob inputs) [
        | none ↦ ok tt
        | some value ↦
            if not (registry_contains v registry id_large_blob)
            then err (annotate policy_error "largeBlob handler is required")
            else wrapped policy_error (validate_large_blob_credential_context value allowed)
      ]

  abbrev same_client_data : ClientDataJson → Option Bytes → Bool
  same_client_data raw none = false
  same_client_data raw (some serialized) = bytes_eq (content raw) serialized

  unfoldable pub verify_remote_client_data_binding :
      Inputs → List Binding → ClientDataJson → Result (Unit {0})
  verify_remote_client_data_binding inputs bindings raw =
      elim (lookup id_remote_client_data_json inputs) [
        | none ↦ ok tt
        | some value ↦
            if not (has_extension_binding bindings id_remote_client_data_json)
            then ok tt
            else refuse_if (not (same_client_data raw (v.as_string value)))
                (annotate policy_error "remote client data changed")
      ]
