-- ===== src/Extension.antt =====
-- extension/extension.go: handler bindings, the registry, and what its clients see of values.
pub mod Build
use webauthn.Prelude.{
  ℕ, Bool, true, false, not, ◌&&◌, Option, none, some, List, [], ◌∷◌, String, Bytes, ascii,
  bytes_eq, contains, length, ltb, Assoc, lookup, if◌then◌else◌,
}
use webauthn.Errors.{
  Error, Result, ok, err, ◌>>=◌, ◌>>◌, refuse_if, sentinel, about, annotate_about,
  extension_too_many_entries, extension_invalid_id, extension_invalid_revision,
  extension_duplicate_id, extension_unknown_id,
}
use webauthn.Protocol.Bytes.{CredentialId}
use webauthn.Protocol.Identifier.{valid_identifier}

abbrev pub max_entries : ℕ
max_entries = 64

abbrev pub operation_registration : Bytes
operation_registration = ascii "registration"

abbrev pub operation_authentication : Bytes
operation_authentication = ascii "authentication"

abbrev pub id_app_id : Bytes
id_app_id = ascii "appid"

abbrev pub id_prf : Bytes
id_prf = ascii "prf"

abbrev pub id_large_blob : Bytes
id_large_blob = ascii "largeBlob"

abbrev pub id_remote_client_data_json : Bytes
id_remote_client_data_json = ascii "remoteClientDataJSON"

abbrev revision_level3 : Bytes
revision_level3 = ascii "webauthn-3-20260825"

abbrev revision_remote_client_data : Bytes
revision_remote_client_data = ascii "webauthn-ed-20260730"

pub record Binding : Type 0 where
  pub id : Bytes
  pub revision : Bytes

abbrev pub valid_binding : Binding → Bool
valid_binding b = valid_identifier b.id && valid_identifier b.revision

abbrev pub binding_eq : Binding → Binding → Bool
binding_eq a b = bytes_eq a.id b.id && bytes_eq a.revision b.revision

unfoldable pub built_in_binding : Bytes → Option Binding
built_in_binding id =
    if contains
      (id_app_id
        ∷ ascii "appidExclude"
        ∷ ascii "uvm"
        ∷ ascii "credProps"
        ∷ id_large_blob
        ∷ id_prf
        ∷ [])
      id
    then some (record { id = id; revision = revision_level3 })
    else if bytes_eq id id_remote_client_data_json
    then some (record { id = id; revision = revision_remote_client_data })
    else none

-- The values of the package, as its clients use them: `Input` is `protocol.ExtensionInput`, `Value`
-- is `RawValue`, `Output` is a decoded authenticator output, and `Outcome` is `Result`.
pub record Values : Type 1 where
  pub Input : Type 0
  pub Value : Type 0
  pub Output : Type 0
  pub Outcome : Type 0
  -- `CloneInput`, and `NewRawValue` of an input and of an authenticator output.
  pub clone_input : Input → Result Input
  pub raw_input : Input → Result Value
  pub raw_output : Output → Result Value
  -- `RawValue{}` and `Present`.
  pub absent : Value
  pub present : Value → Bool
  -- `used, _ := As[bool](value)`, and the type assertion `input.(protocol.StringInput)`.
  pub as_bool : Value → Bool
  pub as_string : Input → Option Bytes
  -- `Clone` and then `NormalizeInput`.
  pub normalize : Value → Result Input
  -- `PRFInputWithCredentials`.
  pub prf_input_with_credentials : Input → List Bytes → Result Input
  -- `LargeBlobHandler.ValidateInput` for authentication: whether a write is asked for.
  pub large_blob_write : Value → Result Bool
  -- `RemoteClientDataJSONHandler.ValidateInput` for an operation: the serialized client data.
  pub remote_client_data : Bytes → Value → Result Bytes
  -- `PreserveRaw`: the id, whether it was requested, the client input, the client output, the
  -- authenticator output, and the warning.
  pub preserve_raw : Bytes → Bool → Value → Value → Value → String → Result Outcome
  -- `result.revision = revision`.
  pub with_revision : Bytes → Outcome → Outcome

module _ (v : Values) where
  pub record OutputRequest : Type 0 where
    pub operation : Bytes
    pub id : Bytes
    pub requested : Bool
    pub selected_credential_id : CredentialId
    pub client_input : v.Value
    pub client_output : v.Value
    pub authenticator_output : v.Value

  -- `erasedHandler`, an implementation of the caller. `valid` is false for a nil handler.
  pub record Handler : Type 0 where
    pub id : Bytes
    pub revision : Bytes
    pub valid : Bool
    pub validate_input : Bytes → v.Value → Result v.Value
    pub verify_output : OutputRequest → Result v.Outcome

  -- The entries of a registry, under their ids.
  abbrev pub Registry : Type 0
  Registry = Assoc (Binding × Handler)

  -- A reserved id asks for its own revision.
  abbrev pub reserved_mismatch : Handler → Bool
  reserved_mismatch h = elim (built_in_binding h.id) [
    | none ↦ false
    | some expected ↦ not (bytes_eq h.revision expected.revision)
  ]

  abbrev pub is_registered : Bytes → Registry → Bool
  is_registered id r = elim (lookup id r) [ none ↦ false | some _ ↦ true ]

  unfoldable pub add_handler : Registry → Handler → Result Registry
  add_handler r h = do
    refuse_if (not h.valid) (sentinel extension_invalid_id)
    refuse_if (not (valid_identifier h.id)) (sentinel extension_invalid_id)
    refuse_if (not (valid_identifier h.revision)) (sentinel extension_invalid_revision)
    refuse_if (reserved_mismatch h)
        (annotate_about (sentinel extension_invalid_revision) "reserved extension" h.id)
    refuse_if (is_registered h.id r) (about (sentinel extension_duplicate_id) h.id)
    ok ((h.id, (record { id = h.id; revision = h.revision }, h)) ∷ r)

  unfoldable pub add_handlers : Registry → List Handler → Result Registry
  unfolding add_handler
  add_handlers r [] = ok r
  add_handlers r (h ∷ hs) = do r' ← add_handler r h; add_handlers r' hs

  unfoldable pub new_registry : List Handler → Result Registry
  unfolding add_handlers
  new_registry hs = do
    refuse_if (ltb max_entries (length hs)) (sentinel extension_too_many_entries)
    add_handlers [] hs

  -- A nil registry is `none`.
  unfoldable pub find : Option Registry → Bytes → Option (Binding × Handler)
  find none id = none
  find (some r) id = lookup id r

  abbrev pub binding_of : Option (Binding × Handler) → Option Binding
  binding_of none = none
  binding_of (some (b, h)) = some b

  -- `(*Registry).Binding`.
  unfoldable pub registry_binding : Option Registry → Bytes → Option Binding
  unfolding find
  registry_binding r id = binding_of (find r id)

  -- `(*Registry).Contains`.
  unfoldable pub registry_contains : Option Registry → Bytes → Bool
  unfolding find
  registry_contains r id = elim (find r id) [ none ↦ false | some _ ↦ true ]

  abbrev unknown_id : Bytes → Error
  unknown_id id = about (sentinel extension_unknown_id) id

  unfoldable pub registry_validate_input :
      Option Registry → Bytes → Bytes → v.Value → Result v.Value
  unfolding find
  registry_validate_input r operation id input = elim (find r id) [
    | none ↦ err (unknown_id id)
    | some (b, h) ↦ h.validate_input operation input
  ]

  unfoldable pub registry_verify_output : Option Registry → OutputRequest → Result v.Outcome
  unfolding find
  registry_verify_output r request = elim (find r request.id) [
    | none ↦ err (unknown_id request.id)
    | some (b, h) ↦ do outcome ← h.verify_output request; ok (v.with_revision b.revision outcome)
  ]
