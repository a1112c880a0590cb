-- ===== src/RelyingParty.antt =====
-- config.go and relying_party.go: a validated configuration that is reused across ceremonies.
pub mod Methods
pub mod Ready
pub mod Agreement
pub mod Accepted
use webauthn.Prelude.{
  ℕ, Bool, true, false, not, ◌&&◌, ◌||◌, Option, none, some, List, [], ◌∷◌, Bytes, is_empty,
  bytes_eq, if◌then◌else◌,
}
use webauthn.Prelude.Int.{pos}
use webauthn.Errors.{
  Error, Result, ok, err, ◌>>=◌, ◌>>◌, refuse_if, each, wrapped, sentinel, message, annotate,
  value_error, invalid_configuration, unsupported_algorithm,
}
use webauthn.Platform.{Platform}
use webauthn.Protocol.Bytes.{AttestationObject}
use webauthn.Protocol.Types.{
  RpEntity, CredentialParameter, AuthenticatorSelection, CoseAlgorithm, validate_rp,
  validate_selection, known_attestation_conveyance, attestation_none, user_verification_preferred,
}
use webauthn.Protocol.Identifier.{valid_identifier}
use webauthn.Codec.Key.{CredentialPublicKey}
use webauthn.Attestation.Registry.{TrustPolicy}
use webauthn.Attestation.Registry as AttestationRegistry
use webauthn.Origin.{OriginPolicy, validate_origin_policy, validate_rp_id_origin_policy}
use webauthn.Ceremony.{
  Duration, default_browser_timeout, default_challenge_ttl, or_default, timeout_state,
  validate_user_verification, registration_credential_parameters, algorithms_from_parameters,
}
use webauthn.Challenge.{
  Generator, no_generator, typed_nil_generator, random_generator, default_generator,
}
use webauthn.Extension.{Values, Registry}
use webauthn.ExtensionCheck.{ExtensionMap}
use webauthn.Crypto.{SignatureVerifier}
use webauthn.Authentication.{
  AlgorithmPolicy, unset, typed_nil, accepts, AuthenticationExtensionPolicy, CounterPolicy,
}
use webauthn.Authentication.Checks.{refuses_algorithm}
use webauthn.Registration.{DecodedAttestationObject, RegistrationExtensionPolicy}

pub record RegistrationConfig : Type 0 where
  pub authenticator_selection : Option AuthenticatorSelection
  pub attestation : Bytes
  pub attestation_formats : List Bytes
  pub reject_unknown : Bool
  pub extension_policy : RegistrationExtensionPolicy

pub record AuthenticationConfig : Type 0 where
  pub user_verification : Bytes
  pub reject_unknown : Bool
  pub extension_policy : AuthenticationExtensionPolicy
  pub counter_policy : CounterPolicy

module _ (v : Values) (S E : Type 0) where
  -- A nil dependency is `none`; the clock is an argument of the methods.
  pub record Config : Type 0 where
    pub rp : RpEntity
    pub origin_policy : OriginPolicy
    pub pub_key_cred_params : List CredentialParameter
    pub attestation_object_decoder :
        Option (AttestationObject → Result (DecodedAttestationObject S))
    pub credential_public_key_decoder : Option (Bytes → Result CredentialPublicKey)
    pub extension_map_decoder : Option (Bytes → Result (ExtensionMap v))
    pub signature_verifier : Option SignatureVerifier
    pub algorithm_policy : AlgorithmPolicy
    pub attestation_registry : Option (AttestationRegistry.Registry S E)
    pub attestation_trust_policy : Option (TrustPolicy S E)
    pub extension_registry : Option (Registry v)
    pub registration : RegistrationConfig
    pub authentication : AuthenticationConfig
    pub timeout : Duration
    pub state_ttl : Duration
    pub challenge_generator : Generator

  -- A relying party that `New` made; a nil or zero one is `none` where a method is called.
  pub record RelyingParty : Type 0 where
    pub config : Config
    pub algorithms : List CoseAlgorithm

  abbrev or_text : Bytes → Bytes → Bytes
  or_text value default = if is_empty value then default else value

  abbrev or_generator : Generator → Generator
  or_generator no_generator = random_generator default_generator
  or_generator g = g

  abbrev or_preferred : Option AuthenticatorSelection → Option AuthenticatorSelection
  or_preferred none = none
  or_preferred (some s) =
      some
        (record s { user_verification = or_text s.user_verification user_verification_preferred })

  -- The defaults of `New`.
  abbrev pub with_defaults : Config → List CredentialParameter → Config
  with_defaults c parameters = record c {
    pub_key_cred_params = parameters;
    timeout = or_default c.timeout default_browser_timeout;
    state_ttl = or_default c.state_ttl default_challenge_ttl;
    challenge_generator = or_generator c.challenge_generator;
    registration = record (c.registration) {
      attestation = or_text c.registration.attestation attestation_none;
      authenticator_selection = or_preferred c.registration.authenticator_selection;
    };
    authentication = record (c.authentication) {
      user_verification = or_text c.authentication.user_verification user_verification_preferred;
    };
  }

  abbrev missing {ℓ} : {A : Type ℓ} → Option A → Bool
  missing none = true
  missing (some _) = false

  abbrev missing_policy : AlgorithmPolicy → Bool
  missing_policy (accepts p) = false
  missing_policy _ = true

  abbrev missing_generator : Generator → Bool
  missing_generator no_generator = true
  missing_generator typed_nil_generator = true
  missing_generator _ = false

  -- The three dependencies that `validateFinishDependencies` asks for.
  abbrev pub check_decoders : Config → Result (Unit {0})
  check_decoders c = do
    let outer = sentinel invalid_configuration
    refuse_if (missing c.attestation_object_decoder)
        (annotate outer "registration attestation object decoder is required")
    refuse_if (missing c.credential_public_key_decoder)
        (annotate outer "registration credential public key decoder is required")
    refuse_if (missing c.attestation_registry) (annotate outer "attestation registry is required")

  -- The loop over the other dependencies.
  abbrev pub check_dependencies : Config → Result (Unit {0})
  check_dependencies c = do
    refuse_if (missing c.extension_map_decoder) (message "extension map decoder is required")
    refuse_if (missing c.signature_verifier) (message "signature verifier is required")
    refuse_if (missing_policy c.algorithm_policy) (message "algorithm policy is required")
    refuse_if (missing c.attestation_trust_policy) (message "attestation trust policy is required")
    refuse_if (missing_generator c.challenge_generator) (message "challenge generator is required")

  unfoldable pub validate_config : Platform → Config → Result (Unit {0})
  validate_config g c = do
    validate_rp c.rp
    validate_origin_policy g c.origin_policy
    validate_rp_id_origin_policy g c.rp.id c.origin_policy
    limits ← timeout_state c.timeout c.state_ttl (pos 0)
    check_decoders c
    check_dependencies c
    validate_selection c.registration.authenticator_selection
    validate_user_verification c.authentication.user_verification
    refuse_if (not (known_attestation_conveyance c.registration.attestation))
        (value_error "attestation" c.registration.attestation)
    each
        (λ format.
          refuse_if (not (valid_identifier format))
            (message "invalid attestation format preference"))
        c.registration.attestation_formats
    refuse_if
        (c.authentication.counter_policy.reject_clone_risk
          && c.authentication.counter_policy.update_on_clone_risk)
        (message "clone-risk policy cannot reject and update")
    each
        (λ p.
          refuse_if (refuses_algorithm c.algorithm_policy p.algorithm)
            (sentinel unsupported_algorithm))
        c.pub_key_cred_params

  -- `New`.
  unfoldable pub new_relying_party : Platform → Config → Result RelyingParty
  new_relying_party g c = do
    let outer = sentinel invalid_configuration
    parameters ← wrapped outer (registration_credential_parameters c.pub_key_cred_params)
    let config = with_defaults c parameters
    wrapped outer (validate_config g config)
    ok (record { config = config; algorithms = algorithms_from_parameters parameters })
