-- ===== src/Authentication/Start.antt =====
-- authentication.go: `StartAuthentication`.
pub mod Sound
use webauthn.Prelude.{ℕ, Bool, true, false, not, Option, List, Bytes, is_empty, if◌then◌else◌}
use webauthn.Errors.{
  Error, Result, ok, err, ◌>>=◌, ◌>>◌, refuse_if, each, wrapped, sentinel, annotate,
  invalid_configuration,
}
use webauthn.Platform.{Platform}
use webauthn.Protocol.Bytes.{Challenge, UserHandle}
use webauthn.Protocol.Types.{CredentialDescriptor, validate_descriptor, user_verification_preferred}
use webauthn.Protocol.Options.{RequestOptions, validate_request_options}
use webauthn.Origin.{OriginPolicy, validate_origin_policy, validate_rp_id_origin_policy}
use webauthn.Ceremony.{Duration, Time, timeout_state, validate_user_verification}
use webauthn.Challenge.{ReadFull, Generator, choose_challenge}
use webauthn.Extension.{Values, Binding, Registry, operation_authentication}
use webauthn.ExtensionCheck.{Inputs, validate_authentication_extension_context}
use webauthn.ExtensionCheck.Prepare.{
  prepare_extension_inputs, clone_extension_inputs, attach_allowed_credentials,
  validate_remote_client_data_input,
}
use webauthn.Authentication.{AuthenticationState}

module _ (v : Values) where
  pub record AuthenticationStartOptions : Type 0 where
    pub rp_id : Bytes
    pub origin_policy : OriginPolicy
    pub challenge : Challenge
    pub challenge_generator : Generator
    pub timeout : Duration
    pub state_ttl : Duration
    pub allow_credentials : List CredentialDescriptor
    pub user_verification : Bytes
    pub hints : List Bytes
    pub extensions : Inputs v
    pub extension_registry : Option (Registry v)
    -- `ExtensionInputPolicy.RejectUnknown`.
    pub reject_unknown : Bool
    pub expected_user_handle : UserHandle
    -- What the clock answers.
    pub now : Time

  abbrev pub wanted_verification : Bytes → Bytes
  wanted_verification value = if is_empty value then user_verification_preferred else value

  -- `fmt.Errorf("%w: %w", ErrInvalidConfiguration, err)`.
  abbrev pub configured {ℓ} : {A : Type ℓ} → Result A → Result A
  configured r = wrapped (sentinel invalid_configuration) r

  -- What the browser is told.
  abbrev pub request_of :
      AuthenticationStartOptions → Challenge → ℕ → Inputs v → RequestOptions v.Input
  request_of o challenge milliseconds extensions = record {
    challenge = challenge;
    timeout_milliseconds = milliseconds;
    rp_id = o.rp_id;
    allow_credentials = o.allow_credentials;
    user_verification = wanted_verification o.user_verification;
    hints = o.hints;
    extensions = extensions;
  }

  -- What the server keeps.
  abbrev pub authentication_state_of :
      AuthenticationStartOptions
      → Challenge
      → Time
      → Inputs v
      → List Binding
      → AuthenticationState v
  authentication_state_of o challenge expires extensions bindings = record {
    challenge = challenge;
    rp_id = o.rp_id;
    origin_policy = o.origin_policy;
    requested_user_verification = wanted_verification o.user_verification;
    requested_extensions = extensions;
    extension_bindings = bindings;
    allow_credentials = o.allow_credentials;
    expected_user_handle = o.expected_user_handle;
    expires_at = expires;
  }

  module _ (g : Platform) where
    -- The checks before a challenge is made.
    unfoldable pub check_start : AuthenticationStartOptions → Result (Unit {0})
    check_start o = do
      refuse_if (is_empty o.rp_id) (annotate (sentinel invalid_configuration) "rp id is required")
      configured (validate_origin_policy g o.origin_policy)
      configured (validate_rp_id_origin_policy g o.rp_id o.origin_policy)
      each (λ d. configured (validate_descriptor d)) o.allow_credentials

    -- The extensions, prepared for the browser and for the state, with their bindings.
    unfoldable pub start_extensions :
        AuthenticationStartOptions → Challenge → Result (Inputs v × Inputs v × List Binding)
    start_extensions o challenge = do
      (prepared, bindings) ← configured (
          prepare_extension_inputs v operation_authentication o.extensions o.extension_registry
            o.reject_unknown (attach_allowed_credentials v o.allow_credentials))
      configured (
          validate_remote_client_data_input v g operation_authentication prepared
            o.extension_registry challenge)
      configured (
          validate_authentication_extension_context v prepared o.extension_registry
            o.allow_credentials)
      for_options ← configured (clone_extension_inputs v prepared)
      for_state ← configured (clone_extension_inputs v prepared)
      ok (for_options, for_state, bindings)

    -- `random` is what `crypto/rand` answers and `cancelled` the error of a context that is done.
    unfoldable pub start_authentication :
        ReadFull
        → Option Error
        → AuthenticationStartOptions
        → Result (RequestOptions v.Input × AuthenticationState v)
    unfolding check_start start_extensions
    start_authentication random cancelled o = do
      check_start o
      challenge ← choose_challenge random cancelled o.challenge o.challenge_generator
      configured (validate_user_verification (wanted_verification o.user_verification))
      (for_options, for_state, bindings) ← start_extensions o challenge
      (milliseconds, expires) ← configured (timeout_state o.timeout o.state_ttl o.now)
      let request = request_of o challenge milliseconds for_options
      configured (validate_request_options request)
      ok (request, authentication_state_of o challenge expires for_state bindings)
