-- ===== src/Registration/Start.antt =====
-- registration_start.go: `StartRegistration`.
pub mod Sound
use webauthn.Prelude.{
  ℕ, Bool, true, false, not, ◌&&◌, Option, none, some, List, Bytes, is_empty, if◌then◌else◌,
}
use webauthn.Errors.{
  Error, Result, ok, err, ◌>>=◌, ◌>>◌, refuse_if, wrapped, sentinel, wrap, value_error,
  invalid_configuration,
}
use webauthn.Platform.{Platform}
use webauthn.Protocol.Bytes.{Challenge}
use webauthn.Protocol.Types.{
  RpEntity, UserEntity, CredentialParameter, CredentialDescriptor, AuthenticatorSelection,
  validate_rp, validate_user, validate_selection, attestation_none, known_attestation_conveyance,
}
use webauthn.Protocol.Options.{CreationOptions, validate_creation_options}
use webauthn.Origin.{OriginPolicy, validate_origin_policy, validate_rp_id_origin_policy}
use webauthn.Ceremony.{
  Duration, Time, timeout_state, validate_user_verification, registration_user_verification,
  registration_credential_parameters, algorithms_from_parameters,
}
use webauthn.Challenge.{ReadFull, Generator, choose_challenge}
use webauthn.Extension.{Values, Binding, Registry, operation_registration}
use webauthn.ExtensionCheck.{Inputs}
use webauthn.ExtensionCheck.Prepare.{
  prepare_extension_inputs, clone_extension_inputs, validate_remote_client_data_input,
}
use webauthn.Registration.{RegistrationState}

module _ (v : Values) where
  pub record RegistrationStartOptions : Type 0 where
    pub rp : RpEntity
    pub user : UserEntity
    pub origin_policy : OriginPolicy
    pub conditional_mediation : Bool
    pub challenge : Challenge
    pub challenge_generator : Generator
    pub pub_key_cred_params : List CredentialParameter
    pub timeout : Duration
    pub state_ttl : Duration
    pub exclude_credentials : List CredentialDescriptor
    pub authenticator_selection : Option AuthenticatorSelection
    pub hints : List Bytes
    pub attestation : Bytes
    pub attestation_formats : List Bytes
    pub extensions : Inputs v
    pub extension_registry : Option (Registry v)
    -- `ExtensionInputPolicy.RejectUnknown`.
    pub reject_unknown : Bool
    -- What the clock answers.
    pub now : Time

  abbrev pub configured {ℓ} : {A : Type ℓ} → Result A → Result A
  configured r = wrapped (sentinel invalid_configuration) r

  -- The selection with its user verification filled in.
  abbrev filled_selection : Option AuthenticatorSelection → Bytes → Option AuthenticatorSelection
  filled_selection none wanted = none
  filled_selection (some s) wanted =
      some (if is_empty s.user_verification then record s { user_verification = wanted } else s)

  abbrev pub wanted_attestation : Bytes → Bytes
  wanted_attestation value = if is_empty value then attestation_none else value

  abbrev pub check_conveyance : Bytes → Result (Unit {0})
  check_conveyance attestation =
      refuse_if (not (known_attestation_conveyance attestation))
        (wrap (sentinel invalid_configuration) (value_error "attestation" attestation))

  -- What the browser is told.
  abbrev pub creation_of :
      RegistrationStartOptions
      → Challenge
      → List CredentialParameter
      → ℕ
      → Inputs v
      → CreationOptions v.Input
  creation_of o challenge parameters milliseconds extensions = record {
    rp = o.rp;
    user = o.user;
    challenge = challenge;
    pub_key_cred_params = parameters;
    timeout_milliseconds = milliseconds;
    exclude_credentials = o.exclude_credentials;
    authenticator_selection =
        filled_selection o.authenticator_selection
          (registration_user_verification o.authenticator_selection);
    hints = o.hints;
    attestation = wanted_attestation o.attestation;
    attestation_formats = o.attestation_formats;
    extensions = extensions;
  }

  -- What the server keeps.
  abbrev pub registration_state_of :
      RegistrationStartOptions
      → Challenge
      → List CredentialParameter
      → Time
      → Inputs v
      → List Binding
      → RegistrationState v
  registration_state_of o challenge parameters expires extensions bindings = record {
    challenge = challenge;
    rp_id = o.rp.id;
    origin_policy = o.origin_policy;
    conditional_mediation = o.conditional_mediation;
    user_handle = o.user.id;
    requested_user_verification = registration_user_verification o.authenticator_selection;
    requested_extensions = extensions;
    extension_bindings = bindings;
    allowed_algorithms = algorithms_from_parameters parameters;
    attestation = wanted_attestation o.attestation;
    expires_at = expires;
  }

  module _ (g : Platform) where
    -- The checks before a challenge is made; the result is the credential parameters.
    unfoldable pub check_registration_start :
        RegistrationStartOptions → Result (List CredentialParameter)
    check_registration_start o = do
      configured (validate_rp o.rp)
      configured (validate_user o.user)
      configured (validate_origin_policy g o.origin_policy)
      configured (validate_rp_id_origin_policy g o.rp.id o.origin_policy)
      configured (validate_selection o.authenticator_selection)
      configured (registration_credential_parameters o.pub_key_cred_params)

    unfoldable pub start_registration_extensions :
        RegistrationStartOptions → Challenge → Result (Inputs v × Inputs v × List Binding)
    start_registration_extensions o challenge = do
      (prepared, bindings) ← configured (
          prepare_extension_inputs v operation_registration o.extensions o.extension_registry
            o.reject_unknown (λ id input. ok input))
      configured (
          validate_remote_client_data_input v g operation_registration prepared o.extension_registry
            challenge)
      for_options ← configured (clone_extension_inputs v prepared)
      for_state ← configured (clone_extension_inputs v prepared)
      ok (for_options, for_state, bindings)

    unfoldable pub start_registration :
        ReadFull
        → Option Error
        → RegistrationStartOptions
        → Result (CreationOptions v.Input × RegistrationState v)
    unfolding check_registration_start start_registration_extensions
    start_registration random cancelled o = do
      parameters ← check_registration_start o
      challenge ← choose_challenge random cancelled o.challenge o.challenge_generator
      configured
          (validate_user_verification (registration_user_verification o.authenticator_selection))
      (for_options, for_state, bindings) ← start_registration_extensions o challenge
      check_conveyance (wanted_attestation o.attestation)
      (milliseconds, expires) ← configured (timeout_state o.timeout o.state_ttl o.now)
      let creation = creation_of o challenge parameters milliseconds for_options
      configured (validate_creation_options creation)
      ok (creation, registration_state_of o challenge parameters expires for_state bindings)
