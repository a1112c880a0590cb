-- ===== src/Registration.antt =====
-- registration.go and registration_start.go: the state, the inputs and the outputs of a
-- registration ceremony, and the validation of the state in validation.go.
pub mod Checks
pub mod Finish
pub mod Start
use webauthn.Prelude.{ℕ, Bool, true, false, not, ◌&&◌, ◌||◌, Option, List, Bytes, is_empty, ◌==◌}
use webauthn.Prelude.Int.{pos, ltb_ℤ, eq_ℤ}
use webauthn.Errors.{
  Error, Result, ok, err, ◌>>=◌, ◌>>◌, refuse_if, each, wrapped, sentinel, annotate,
  invalid_ceremony_state, ceremony_expired,
}
use webauthn.Platform.{Platform}
use webauthn.Protocol.Bytes.{
  Challenge, RawId, ClientDataJson, AuthenticatorData, AttestationObject, UserHandle, len,
}
use webauthn.Protocol.Types.{CoseAlgorithm, validate_algorithm, known_attestation_conveyance}
use webauthn.Codec.Key.{CredentialPublicKey}
use webauthn.Attestation.Registry.{VerificationResult, TrustResult, TrustPolicy, Registry}
use webauthn.Attestation.Registry as AttestationRegistry
use webauthn.Credential.{CredentialRecord}
use webauthn.Origin.{OriginPolicy, validate_origin_policy, validate_rp_id_origin_policy}
use webauthn.Ceremony.{Time, validate_user_verification}
use webauthn.Extension.{Values, Binding}
use webauthn.Extension as Extensions
use webauthn.ExtensionCheck.{
  Inputs, ClientOutputs, ExtensionMap, validate_requested_extension_ids,
  validate_extension_binding_state,
}

-- `codec.DecodedAttestationObject`; `S` is the type of attestation statements.
pub record DecodedAttestationObject (S : Type 0) : Type 0 where
  pub format : Bytes
  pub authenticator_data : AuthenticatorData
  pub statement : S
  pub raw : AttestationObject

pub record RegistrationExtensionPolicy : Type 0 where
  pub reject_unrequested : Bool
  pub reject_unknown : Bool

module _ (v : Values) where
  pub record RegistrationState : Type 0 where
    pub challenge : Challenge
    pub rp_id : Bytes
    pub origin_policy : OriginPolicy
    pub conditional_mediation : Bool
    pub user_handle : UserHandle
    pub requested_user_verification : Bytes
    pub requested_extensions : Inputs v
    pub extension_bindings : List Binding
    pub allowed_algorithms : List CoseAlgorithm
    pub attestation : Bytes
    pub expires_at : Time

  pub record RegistrationResponse : Type 0 where
    pub kind : Bytes
    pub raw_id : RawId
    pub client_data_json : ClientDataJson
    pub authenticator_data : AuthenticatorData
    pub attestation_object : AttestationObject
    pub public_key_algorithm : CoseAlgorithm
    pub transports : List Bytes
    pub authenticator_attachment : Bytes
    pub client_extension_results : ClientOutputs v

  -- A nil decoder, registry or policy is `none`.
  pub record RegistrationFinishOptions (S E : Type 0) : Type 0 where
    pub state : RegistrationState
    pub response : RegistrationResponse
    pub attestation_object_decoder :
        Option (AttestationObject → Result (DecodedAttestationObject S))
    pub credential_public_key_decoder : Option (Bytes → Result CredentialPublicKey)
    pub extension_map_decoder : Option (Bytes → Result (ExtensionMap v))
    pub attestation_registry : Option (AttestationRegistry.Registry S E)
    pub attestation_trust_policy : Option (TrustPolicy S E)
    pub extension_registry : Option (Extensions.Registry v)
    pub extension_policy : RegistrationExtensionPolicy
    -- What the clock answers.
    pub now : Time

  pub record RegistrationResult (E : Type 0) : Type 0 where
    pub credential : CredentialRecord
    pub attestation : VerificationResult E
    pub attestation_trust : TrustResult
    pub extensions : List v.Outcome
    pub warnings : List Bytes

  module _ (g : Platform) where
    -- `(RegistrationState).Validate` of validation.go.
    unfoldable pub validate_registration : RegistrationState → Result (Unit {0})
    validate_registration s = do
      let outer = sentinel invalid_ceremony_state
      refuse_if (len s.challenge == 0 || is_empty s.rp_id) outer
      wrapped outer (validate_origin_policy g s.origin_policy)
      wrapped outer (validate_rp_id_origin_policy g s.rp_id s.origin_policy)
      refuse_if (len s.user_handle == 0) (annotate outer "user handle is required")
      refuse_if (eq_ℤ s.expires_at (pos 0)) (annotate outer "expiry is required")
      refuse_if (is_empty s.allowed_algorithms) (annotate outer "allowed algorithms are required")
      each (λ a. wrapped outer (validate_algorithm a)) s.allowed_algorithms
      refuse_if (not (known_attestation_conveyance s.attestation))
          (annotate outer "invalid attestation conveyance")
      wrapped outer (validate_user_verification s.requested_user_verification)
      validate_requested_extension_ids v s.requested_extensions
      validate_extension_binding_state v s.requested_extensions s.extension_bindings

    -- `validateRegistrationState`: the expiry is checked first.
    unfoldable pub validate_registration_state : RegistrationState → Time → Result (Unit {0})
    validate_registration_state s now = do
      refuse_if (not (eq_ℤ s.expires_at (pos 0)) && not (ltb_ℤ now s.expires_at))
          (sentinel ceremony_expired)
      validate_registration s
