-- ===== src/Authentication.antt =====
-- authentication.go: the state, the inputs and the outputs of an authentication ceremony, and the
-- validation of the state in validation.go.
pub mod Counter
pub mod Checks
pub mod Finish
pub mod Start
use webauthn.Prelude.{
  ℕ, Bool, true, false, not, ◌&&◌, ◌||◌, Option, List, Bytes, String, is_empty, ◌==◌,
}
use webauthn.Prelude.Int.{pos, ltb_ℤ, eq_ℤ}
use webauthn.Errors.{
  Error, Result, ok, err, ◌>>=◌, ◌>>◌, refuse_if, each, wrapped, sentinel, annotate,
  invalid_ceremony_state, ceremony_expired,
}
use webauthn.Crypto.{SignatureInput, SignatureVerifier}
use webauthn.Platform.{Platform}
use webauthn.Protocol.Bytes.{
  Challenge, RawId, ClientDataJson, AuthenticatorData, Signature, UserHandle, len,
}
use webauthn.Protocol.Types.{CoseAlgorithm, CredentialDescriptor, validate_descriptor}
use webauthn.Codec.Key.{Material}
use webauthn.Credential.{CredentialRecord, CredentialUpdate}
use webauthn.Origin.{OriginPolicy, validate_origin_policy, validate_rp_id_origin_policy}
use webauthn.Ceremony.{Time, validate_user_verification}
use webauthn.Extension.{Values, Binding, Registry}
use webauthn.ExtensionCheck.{
  Inputs, ClientOutputs, ExtensionMap, validate_requested_extension_ids,
  validate_extension_binding_state, validate_stored_authentication_extension_context,
}

-- An interface value: nil, a typed nil, or an implementation.
pub data AlgorithmPolicy : Type 0 where
  unset typed_nil : AlgorithmPolicy
  accepts : (CoseAlgorithm → Bool) → AlgorithmPolicy

pub record AuthenticationExtensionPolicy : Type 0 where
  pub reject_unrequested : Bool
  pub reject_unknown : Bool
  pub app_id : Bytes

pub record CounterPolicy : Type 0 where
  pub reject_clone_risk : Bool
  pub update_on_clone_risk : Bool

pub data CounterStatus : Type 0 where
  unsupported incremented clone_risk_status : CounterStatus

pub record CounterResult : Type 0 where
  pub stored : ℕ
  pub new : ℕ
  pub status : CounterStatus
  pub clone_risk : Bool

module _ (v : Values) where
  pub record AuthenticationState : Type 0 where
    pub challenge : Challenge
    pub rp_id : Bytes
    pub origin_policy : OriginPolicy
    pub requested_user_verification : Bytes
    pub requested_extensions : Inputs v
    pub extension_bindings : List Binding
    pub allow_credentials : List CredentialDescriptor
    pub expected_user_handle : UserHandle
    pub expires_at : Time

  pub record AuthenticationResponse : Type 0 where
    pub kind : Bytes
    pub raw_id : RawId
    pub client_data_json : ClientDataJson
    pub authenticator_data : AuthenticatorData
    pub signature : Signature
    pub user_handle : UserHandle
    pub authenticator_attachment : Bytes
    pub client_extension_results : ClientOutputs v

  pub record AuthenticationFinishOptions : Type 0 where
    pub state : AuthenticationState
    pub response : AuthenticationResponse
    pub credential : CredentialRecord
    pub extension_map_decoder : Option (Bytes → Result (ExtensionMap v))
    pub signature_verifier : Option SignatureVerifier
    pub algorithm_policy : AlgorithmPolicy
    pub extension_registry : Option (Registry v)
    pub extension_policy : AuthenticationExtensionPolicy
    pub counter_policy : CounterPolicy
    pub uv_initialization_authorized : Bool
    -- What the clock answers.
    pub now : Time

  pub record AuthenticationResult : Type 0 where
    pub credential : CredentialRecord
    pub authenticated_as : UserHandle
    pub counter : CounterResult
    pub update : CredentialUpdate
    pub extensions : List v.Outcome
    pub warnings : List Error
    pub user_present : Bool
    pub user_verified : Bool
    pub uv_initialization_pending : Bool

  module _ (g : Platform) where
    -- `(AuthenticationState).Validate` of validation.go.
    unfoldable pub validate_state : AuthenticationState → Result (Unit {0})
    validate_state s = do
      let outer = sentinel invalid_ceremony_state
      refuse_if (len s.challenge == 0 || is_empty s.rp_id) outer
      wrapped outer (validate_origin_policy g s.origin_policy)
      wrapped outer (validate_rp_id_origin_policy g s.rp_id s.origin_policy)
      refuse_if (eq_ℤ s.expires_at (pos 0)) (annotate outer "expiry is required")
      wrapped outer (validate_user_verification s.requested_user_verification)
      each (λ d. wrapped outer (validate_descriptor d)) s.allow_credentials
      validate_requested_extension_ids v s.requested_extensions
      validate_extension_binding_state v s.requested_extensions s.extension_bindings
      wrapped outer (
          validate_stored_authentication_extension_context v s.requested_extensions
            s.allow_credentials)

    -- `validateAuthenticationState`: the expiry is checked first.
    unfoldable pub validate_authentication_state : AuthenticationState → Time → Result (Unit {0})
    validate_authentication_state s now = do
      refuse_if (not (eq_ℤ s.expires_at (pos 0)) && not (ltb_ℤ now s.expires_at))
          (sentinel ceremony_expired)
      validate_state s
