-- ===== src/RelyingParty/Methods.antt =====
-- relying_party.go: the methods of a relying party, which pass its configuration on.
use webauthn.Prelude.{
  Bool, true, false, not, ◌&&◌, bool_eq, Option, none, some, List, [], ◌∷◌, Bytes, nil, bytes_eq,
}
use webauthn.Prelude.Int.{eq_ℤ}
use webauthn.Errors.{
  Error, Result, ok, err, ◌>>=◌, ◌>>◌, refuse_if, sentinel, annotate, invalid_configuration,
  invalid_ceremony_state, unsupported_algorithm,
}
use webauthn.Platform.{Platform}
use webauthn.Protocol.Bytes.{UserHandle}
use webauthn.Protocol.Types.{UserEntity, CredentialDescriptor}
use webauthn.Protocol.Options.{CreationOptions, RequestOptions}
use webauthn.Credential.{CredentialRecord, validate_record}
use webauthn.Origin.{OriginPolicy}
use webauthn.Ceremony.{Time, registration_user_verification}
use webauthn.Challenge.{ReadFull}
use webauthn.Extension.{Values}
use webauthn.ExtensionCheck.{Inputs}
use webauthn.ExtensionCheck.Outputs.{Context}
use webauthn.Authentication.{
  AuthenticationState, AuthenticationResponse, AuthenticationFinishOptions, AuthenticationResult,
}
use webauthn.Authentication.Start.{AuthenticationStartOptions, start_authentication}
use webauthn.Authentication.Finish.{finish_authentication}
use webauthn.Registration.{
  RegistrationState, RegistrationResponse, RegistrationFinishOptions, RegistrationResult,
}
use webauthn.Registration.Start.{RegistrationStartOptions, start_registration}
use webauthn.Registration.Finish.{allows, finish_registration}
use webauthn.RelyingParty.{RelyingParty}

-- `slices.Equal` under a test of elements.
unfoldable pub equal_lists {ℓ} : {A : Type ℓ} → (A → A → Bool) → List A → List A → Bool
equal_lists same [] [] = true
equal_lists same [] (y ∷ ys) = false
equal_lists same (x ∷ xs) [] = false
equal_lists same (x ∷ xs) (y ∷ ys) = same x y && equal_lists same xs ys

module _ (v : Values) where
  pub record RegistrationRequest : Type 0 where
    pub user : UserEntity
    pub exclude_credentials : List CredentialDescriptor
    pub extensions : Inputs v
    pub hints : List Bytes
    pub conditional_mediation : Bool

  pub record AuthenticationRequest : Type 0 where
    pub allow_credentials : List CredentialDescriptor
    pub expected_user_handle : UserHandle
    pub extensions : Inputs v
    pub hints : List Bytes

  pub record AuthenticationVerification : Type 0 where
    pub state : AuthenticationState v
    pub response : AuthenticationResponse v
    pub credential : CredentialRecord
    pub uv_initialization_authorized : Bool

  module _ (S E : Type 0) where
    abbrev mismatch : Error
    mismatch =
        annotate (sentinel invalid_ceremony_state)
          "state does not match relying party configuration"

    -- `matchesOrigin`.
    unfoldable pub matches_origin : RelyingParty v S E → Bytes → OriginPolicy → Bool
    unfolding equal_lists
    matches_origin rp id policy =
        let own = rp.config.origin_policy in
        bytes_eq id rp.config.rp.id
        && equal_lists bytes_eq policy.allowed_origins own.allowed_origins
        && equal_lists bytes_eq policy.allowed_top_origins own.allowed_top_origins
        && bool_eq policy.allow_related_origins own.allow_related_origins
        && bool_eq policy.allow_cross_origin_without_top_origin
            own.allow_cross_origin_without_top_origin

    -- The agreement of a stored state with the configuration.
    unfoldable pub registration_agrees : RelyingParty v S E → RegistrationState v → Bool
    unfolding matches_origin
    registration_agrees rp s =
        let c = rp.config.registration in
        matches_origin rp s.rp_id s.origin_policy
        && bytes_eq s.requested_user_verification
            (registration_user_verification c.authenticator_selection)
        && equal_lists eq_ℤ s.allowed_algorithms rp.algorithms
        && bytes_eq s.attestation c.attestation

    unfoldable pub authentication_agrees : RelyingParty v S E → AuthenticationState v → Bool
    unfolding matches_origin
    authentication_agrees rp s =
        matches_origin rp s.rp_id s.origin_policy
        && bytes_eq s.requested_user_verification rp.config.authentication.user_verification

    abbrev pub registration_start_options :
        RelyingParty v S E → RegistrationRequest → Time → RegistrationStartOptions v
    registration_start_options rp request now =
        let c = rp.config in
        record {
          rp = c.rp;
          user = request.user;
          origin_policy = c.origin_policy;
          conditional_mediation = request.conditional_mediation;
          challenge = nil;
          challenge_generator = c.challenge_generator;
          pub_key_cred_params = c.pub_key_cred_params;
          timeout = c.timeout;
          state_ttl = c.state_ttl;
          exclude_credentials = request.exclude_credentials;
          authenticator_selection = c.registration.authenticator_selection;
          hints = request.hints;
          attestation = c.registration.attestation;
          attestation_formats = c.registration.attestation_formats;
          extensions = request.extensions;
          extension_registry = c.extension_registry;
          reject_unknown = c.registration.reject_unknown;
          now = now;
        }

    abbrev pub authentication_start_options :
        RelyingParty v S E → AuthenticationRequest → Time → AuthenticationStartOptions v
    authentication_start_options rp request now =
        let c = rp.config in
        record {
          rp_id = c.rp.id;
          origin_policy = c.origin_policy;
          challenge = nil;
          challenge_generator = c.challenge_generator;
          timeout = c.timeout;
          state_ttl = c.state_ttl;
          allow_credentials = request.allow_credentials;
          user_verification = c.authentication.user_verification;
          hints = request.hints;
          extensions = request.extensions;
          extension_registry = c.extension_registry;
          reject_unknown = c.authentication.reject_unknown;
          expected_user_handle = request.expected_user_handle;
          now = now;
        }

    abbrev pub registration_finish_options :
        RelyingParty v S E
        → RegistrationState v
        → RegistrationResponse v
        → Time
        → RegistrationFinishOptions v S E
    registration_finish_options rp state response now =
        let c = rp.config in
        record {
          state = state;
          response = response;
          attestation_object_decoder = c.attestation_object_decoder;
          credential_public_key_decoder = c.credential_public_key_decoder;
          extension_map_decoder = c.extension_map_decoder;
          attestation_registry = c.attestation_registry;
          attestation_trust_policy = c.attestation_trust_policy;
          extension_registry = c.extension_registry;
          extension_policy = c.registration.extension_policy;
          now = now;
        }

    abbrev pub authentication_finish_options :
        RelyingParty v S E → AuthenticationVerification → Time → AuthenticationFinishOptions v
    authentication_finish_options rp request now =
        let c = rp.config in
        record {
          state = request.state;
          response = request.response;
          credential = request.credential;
          extension_map_decoder = c.extension_map_decoder;
          signature_verifier = c.signature_verifier;
          algorithm_policy = c.algorithm_policy;
          extension_registry = c.extension_registry;
          extension_policy = c.authentication.extension_policy;
          counter_policy = c.authentication.counter_policy;
          uv_initialization_authorized = request.uv_initialization_authorized;
          now = now;
        }

    -- A relying party that is nil or not ready refuses every call.
    abbrev pub ready : Option (RelyingParty v S E) → Result (RelyingParty v S E)
    ready none = err (sentinel invalid_configuration)
    ready (some rp) = ok rp

    module _ (g : Platform) where
      unfoldable pub rp_start_registration :
          Option (RelyingParty v S E)
          → ReadFull
          → Option Error
          → RegistrationRequest
          → Time
          → Result (CreationOptions v.Input × RegistrationState v)
      rp_start_registration party random cancelled request now = do
        rp ← ready party
        start_registration v g random cancelled (registration_start_options rp request now)

      unfoldable pub rp_finish_registration :
          Option (RelyingParty v S E)
          → Context
          → RegistrationState v
          → RegistrationResponse v
          → Time
          → Result (RegistrationResult v E)
      unfolding registration_agrees
      rp_finish_registration party ctx state response now = do
        rp ← ready party
        refuse_if (not (registration_agrees rp state)) mismatch
        finish_registration v S E g ctx (registration_finish_options rp state response now)

      unfoldable pub rp_start_authentication :
          Option (RelyingParty v S E)
          → ReadFull
          → Option Error
          → AuthenticationRequest
          → Time
          → Result (RequestOptions v.Input × AuthenticationState v)
      rp_start_authentication party random cancelled request now = do
        rp ← ready party
        start_authentication v g random cancelled (authentication_start_options rp request now)

      unfoldable pub rp_finish_authentication :
          Option (RelyingParty v S E)
          → Context
          → AuthenticationVerification
          → Time
          → Result (AuthenticationResult v)
      unfolding authentication_agrees
      rp_finish_authentication party ctx request now = do
        rp ← ready party
        refuse_if (not (authentication_agrees rp request.state)) mismatch
        validate_record request.credential
        refuse_if (not (allows rp.algorithms request.credential.public_key.algorithm))
            (sentinel unsupported_algorithm)
        finish_authentication v g ctx (authentication_finish_options rp request now)
