-- ===== src/Credential.antt =====
-- The stored credential of registration.go, its validation and copies in validation.go, and the
-- conditional update of credential_update.go.
pub mod Update
use webauthn.Prelude.{
  ℕ, Bool, true, false, not, ◌&&◌, ◌||◌, List, Bytes, is_empty, bool_eq, bytes_eq, ◌==◌,
  if◌then◌else◌,
}
use webauthn.Errors.{
  Result, ok, err, ◌>>=◌, ◌>>◌, refuse_if, wrapped, sentinel, wrap, annotate,
  invalid_credential_record, invalid_backup_state, credential_update_conflict,
  invalid_credential_update,
}
use webauthn.Protocol.Bytes.{CredentialId, UserHandle, len, equal}
use webauthn.Protocol.Types.{
  CredentialDescriptor, validate_credential_type, known_authenticator_attachment,
}
use webauthn.Codec.Key.{CredentialPublicKey, validate_key}
use webauthn.Attestation.Types.{known_attestation_type}

pub record CredentialRecord : Type 0 where
  pub kind : Bytes
  pub id : CredentialId
  pub public_key : CredentialPublicKey
  pub user_handle : UserHandle
  pub rp_id : Bytes
  pub aaguid : Bytes
  pub sign_count : ℕ
  pub transports : List Bytes
  pub backup_eligible : Bool
  pub backup_state : Bool
  pub uv_initialized : Bool
  pub authenticator_attachment : Bytes
  pub attestation_type : Bytes

unfoldable pub validate_record : CredentialRecord → Result (Unit {0})
validate_record r = do
  let outer = sentinel invalid_credential_record
  wrapped outer (validate_credential_type r.kind)
  refuse_if (len r.id == 0 || len r.user_handle == 0 || is_empty r.rp_id)
      (annotate outer "required field is missing")
  wrapped outer (validate_key r.public_key)
  refuse_if (r.backup_state && not r.backup_eligible) (wrap outer (sentinel invalid_backup_state))
  refuse_if
      (not (is_empty r.authenticator_attachment)
        && not (known_authenticator_attachment r.authenticator_attachment))
      (annotate outer "authenticator attachment")
  refuse_if (not (known_attestation_type r.attestation_type)) (annotate outer "attestation type")

-- The transports are copied.
abbrev pub clone_record : CredentialRecord → CredentialRecord
clone_record r = r

abbrev pub descriptor : CredentialRecord → CredentialDescriptor
descriptor r = record { kind = r.kind; id = r.id; transports = r.transports }

-- `CredentialUpdate` of authentication.go.
pub record CredentialUpdate : Type 0 where
  pub id : CredentialId
  pub previous_sign_count : ℕ
  pub previous_backup_state : Bool
  pub previous_uv_initialized : Bool
  pub previous_authenticator_attachment : Bytes
  pub sign_count : ℕ
  pub sign_count_changed : Bool
  pub backup_state : Bool
  pub backup_state_changed : Bool
  pub uv_initialized : Bool
  pub uv_initialized_changed : Bool
  pub authenticator_attachment : Bytes
  pub authenticator_attachment_changed : Bool

-- The stored record still has the id and the previous values that the update was made from.
unfoldable pub is_current : CredentialUpdate → CredentialRecord → Bool
is_current u r =
    equal r.id u.id
    && r.sign_count == u.previous_sign_count
    && bool_eq r.backup_state u.previous_backup_state
    && bool_eq r.uv_initialized u.previous_uv_initialized
    && bytes_eq r.authenticator_attachment u.previous_authenticator_attachment

unfoldable pub next_record : CredentialUpdate → CredentialRecord → CredentialRecord
next_record u r = record (clone_record r) {
  sign_count = if u.sign_count_changed then u.sign_count else r.sign_count;
  backup_state = if u.backup_state_changed then u.backup_state else r.backup_state;
  uv_initialized = if u.uv_initialized_changed then u.uv_initialized else r.uv_initialized;
  authenticator_attachment =
      if u.authenticator_attachment_changed
      then u.authenticator_attachment
      else r.authenticator_attachment;
}

unfoldable pub apply_to : CredentialUpdate → CredentialRecord → Result CredentialRecord
apply_to u r = do
  validate_record r
  refuse_if (not (is_current u r)) (sentinel credential_update_conflict)
  let next = next_record u r
  wrapped (sentinel invalid_credential_update) (validate_record next)
  ok next
