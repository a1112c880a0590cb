-- ===== src/Protocol/Options.antt =====
-- protocol/types.go: the options that a ceremony sends to the browser, and their validation.
use webauthn.Prelude.{ℕ, Bool, not, ◌||◌, Option, List, Bytes, is_empty, any, bytes_eq, ◌==◌, Assoc}
use webauthn.Errors.{Result, ◌>>◌, refuse_if, each, message}
use webauthn.Protocol.Bytes.{Challenge, len}
use webauthn.Protocol.Identifier.{valid_identifier}
use webauthn.Protocol.Types.{
  RpEntity, UserEntity, CredentialParameter, CredentialDescriptor, AuthenticatorSelection,
  credential_type_public_key, validate_selection, validate_rp, validate_user, validate_parameter,
  validate_descriptor,
}

-- `I` is the type of extension inputs.
pub record CreationOptions (I : Type 0) : Type 0 where
  pub rp : RpEntity
  pub user : UserEntity
  pub challenge : Challenge
  pub pub_key_cred_params : List CredentialParameter
  pub timeout_milliseconds : ℕ
  pub exclude_credentials : List CredentialDescriptor
  pub authenticator_selection : Option AuthenticatorSelection
  pub hints : List Bytes
  pub attestation : Bytes
  pub attestation_formats : List Bytes
  pub extensions : Assoc I

pub record RequestOptions (I : Type 0) : Type 0 where
  pub challenge : Challenge
  pub timeout_milliseconds : ℕ
  pub rp_id : Bytes
  pub allow_credentials : List CredentialDescriptor
  pub user_verification : Bytes
  pub hints : List Bytes
  pub extensions : Assoc I

abbrev pub is_public_key : CredentialParameter → Bool
is_public_key p = bytes_eq p.kind credential_type_public_key

unfoldable pub validate_creation_options : {I : Type 0} → CreationOptions I → Result (Unit {0})
validate_creation_options o = do
  validate_selection o.authenticator_selection
  validate_rp o.rp
  validate_user o.user
  refuse_if (len o.challenge == 0) (message "challenge is required")
  each validate_parameter o.pub_key_cred_params
  refuse_if (not (is_empty o.pub_key_cred_params || any is_public_key o.pub_key_cred_params))
      (message "no supported public key credential parameters")
  each
      (λ format.
        refuse_if (not (valid_identifier format))
          (message "attestation format identifier is invalid"))
      o.attestation_formats
  each validate_descriptor o.exclude_credentials

unfoldable pub validate_request_options : {I : Type 0} → RequestOptions I → Result (Unit {0})
validate_request_options o = do
  refuse_if (len o.challenge == 0) (message "challenge is required")
  each validate_descriptor o.allow_credentials
