-- ===== src/Tests/RelyingParty.antt =====
-- A relying party on example.com, its starts and an assertion that it accepts.
use webauthn.Prelude.{
  ◌≡◌, refl, true, false, none, some, [], ◌∷◌, Bytes, bytes, nil, ascii, bytes_eq, contains, take,
  drop, get_or, any, all, split, has_prefix, has_suffix, contains_any, cut_last, lookup,
  sorted_keys,
}
use webauthn.Prelude.Base64
use webauthn.Prelude.Int.{pos, ◌+ℤ◌}
use webauthn.Errors.{ok, each}
use webauthn.Protocol.Types
use webauthn.Protocol.Types.{user_verification_required}
use webauthn.Protocol.Bytes
use webauthn.Protocol.Options
use webauthn.Protocol.Options.{CreationOptions, RequestOptions}
use webauthn.Protocol.AuthData
use webauthn.Protocol.ClientData
use webauthn.Codec.Key
use webauthn.Attestation.Types as AttestationTypes
use webauthn.Credential
use webauthn.Origin
use webauthn.Ceremony
use webauthn.Challenge
use webauthn.Challenge.{ReadFull, no_generator}
use webauthn.ExtensionCheck
use webauthn.ExtensionCheck.Outputs
use webauthn.ExtensionCheck.Prepare
use webauthn.Authentication
use webauthn.Authentication.{AuthenticationState, AuthenticationResult, accepts}
use webauthn.Authentication.Start
use webauthn.Authentication.Counter
use webauthn.Authentication.Checks
use webauthn.Authentication.Finish
use webauthn.Authentication.Finish.{authentication_result, finish_authentication}
use webauthn.Registration.{RegistrationState}
use webauthn.Registration.Start as RegistrationStart
use webauthn.RelyingParty.{Config, RelyingParty, validate_config, new_relying_party}
use webauthn.RelyingParty.Methods
use webauthn.RelyingParty.Methods.{
  RegistrationRequest, AuthenticationRequest, AuthenticationVerification, registration_agrees,
  authentication_agrees, authentication_finish_options, rp_start_registration,
  rp_start_authentication, rp_finish_authentication,
}
use webauthn.RelyingParty.Agreement.{started_authentication_agrees, started_registration_agrees}
use webauthn.RelyingParty.Accepted.{IsAdmitted, rp_finish_authentication_sound}
use webauthn.Tests.Fixtures.{
  repeat, rp_id, platform, values, context, policy, stored, state, response, options,
}
use webauthn.Tests.Authentication.{parsed}

abbrev config : Config values Bytes Bytes
config = record {
  rp = record { id = rp_id; name = ascii "Example" };
  origin_policy = policy;
  pub_key_cred_params = [];
  attestation_object_decoder = some (λ raw.
      ok (record { format = ascii "none"; authenticator_data = nil; statement = []; raw = raw }));
  credential_public_key_decoder = some (λ raw. ok stored.public_key);
  extension_map_decoder = some (λ raw. ok []);
  signature_verifier = some (λ input. ok tt);
  algorithm_policy = accepts (λ a. true);
  attestation_registry = some [];
  attestation_trust_policy =
      some (λ request. ok (record { accepted = true; reason = []; warnings = [] }));
  extension_registry = none;
  registration = record {
    authenticator_selection = none;
    attestation = [];
    attestation_formats = [];
    reject_unknown = true;
    extension_policy = record { reject_unrequested = true; reject_unknown = true };
  };
  authentication = record {
    user_verification = user_verification_required;
    reject_unknown = true;
    extension_policy = options.extension_policy;
    counter_policy = options.counter_policy;
  };
  timeout = pos 0;
  state_ttl = pos 0;
  challenge_generator = no_generator;
}

abbrev party : RelyingParty values Bytes Bytes
party = record {
  config = record config {
    pub_key_cred_params =
        record { kind = ascii "public-key"; algorithm = Types.algorithm_es256 }
        ∷ record { kind = ascii "public-key"; algorithm = Types.algorithm_rs256 }
        ∷ [];
    timeout = pos 300000000000;
    state_ttl = pos 600000000000;
    challenge_generator = Challenge.random_generator Challenge.default_generator;
    registration = record (config.registration) { attestation = ascii "none" };
  };
  algorithms = Types.algorithm_es256 ∷ Types.algorithm_rs256 ∷ [];
}

made : new_relying_party values Bytes Bytes platform config ≡ ok party
unfolding new_relying_party Ceremony.registration_credential_parameters validate_config
    Types.validate_rp Origin.validate_origin_policy each Origin.valid_dns_name has_prefix has_suffix
    drop take get_or contains_any split all any cut_last bytes_eq contains
    Origin.validate_rp_id_origin_policy Origin.valid_rp_id Ceremony.timeout_state
    Types.validate_selection Ceremony.validate_user_verification Types.known_user_verification
    Types.known_attestation_conveyance
made = refl

abbrev zeros : ReadFull
zeros = λ n. ok (repeat n 0)

abbrev login : AuthenticationRequest values
login = record { allow_credentials = []; expected_user_handle = nil; extensions = []; hints = [] }

abbrev login_state : AuthenticationState values
login_state = record state { challenge = bytes (repeat 32 0); expires_at = pos 600000000010 }

abbrev login_options : RequestOptions Bytes
login_options = record {
  challenge = bytes (repeat 32 0);
  timeout_milliseconds = 300000;
  rp_id = rp_id;
  allow_credentials = [];
  user_verification = user_verification_required;
  hints = [];
  extensions = [];
}

login_started :
    rp_start_authentication values Bytes Bytes platform (some party) zeros none login (pos 10)
    ≡ ok (login_options, login_state)
unfolding rp_start_authentication Start.start_authentication Origin.validate_origin_policy each
    Origin.valid_dns_name has_prefix has_suffix drop take get_or contains_any split all any cut_last
    bytes_eq contains Origin.validate_rp_id_origin_policy Origin.valid_rp_id
    Challenge.choose_challenge Challenge.generate_random Bytes.new_challenge
    Ceremony.validate_user_verification Types.known_user_verification
    Prepare.prepare_extension_inputs Prepare.validate_remote_client_data_input
    ExtensionCheck.validate_authentication_extension_context Prepare.clone_extension_inputs lookup
    Ceremony.timeout_state ◌+ℤ◌ Options.validate_request_options
login_started = refl

started_authentication_agrees_example :
    authentication_agrees values Bytes Bytes party login_state ≡ true
started_authentication_agrees_example =
    started_authentication_agrees values Bytes Bytes platform config made zeros none login (pos 10)
      login_started

abbrev signup : RegistrationRequest values
signup = record {
  user = record { id = bytes (5 ∷ []); name = ascii "ann"; display_name = ascii "Ann" };
  exclude_credentials = [];
  extensions = [];
  hints = [];
  conditional_mediation = false;
}

abbrev signup_options : CreationOptions Bytes
signup_options = record {
  rp = config.rp;
  user = signup.user;
  challenge = bytes (repeat 32 0);
  pub_key_cred_params = party.config.pub_key_cred_params;
  timeout_milliseconds = 300000;
  exclude_credentials = [];
  authenticator_selection = none;
  hints = [];
  attestation = ascii "none";
  attestation_formats = [];
  extensions = [];
}

abbrev signup_state : RegistrationState values
signup_state = record {
  challenge = bytes (repeat 32 0);
  rp_id = rp_id;
  origin_policy = policy;
  conditional_mediation = false;
  user_handle = bytes (5 ∷ []);
  requested_user_verification = ascii "preferred";
  requested_extensions = [];
  extension_bindings = [];
  allowed_algorithms = party.algorithms;
  attestation = ascii "none";
  expires_at = pos 600000000010;
}

signup_started :
    rp_start_registration values Bytes Bytes platform (some party) zeros none signup (pos 10)
    ≡ ok (signup_options, signup_state)
unfolding rp_start_registration RegistrationStart.start_registration Types.validate_rp
    Types.validate_user Origin.validate_origin_policy each Origin.valid_dns_name has_prefix
    has_suffix drop take get_or contains_any split all any cut_last bytes_eq contains
    Origin.validate_rp_id_origin_policy Origin.valid_rp_id Types.validate_selection
    Ceremony.registration_credential_parameters Challenge.choose_challenge Challenge.generate_random
    Bytes.new_challenge Ceremony.validate_user_verification Ceremony.registration_user_verification
    Types.known_user_verification Prepare.prepare_extension_inputs
    Prepare.validate_remote_client_data_input Prepare.clone_extension_inputs lookup
    Types.known_attestation_conveyance Ceremony.timeout_state ◌+ℤ◌ Options.validate_creation_options
    Types.validate_parameter Types.validate_algorithm Ceremony.supported_parameters
signup_started = refl

started_registration_agrees_example :
    registration_agrees values Bytes Bytes party signup_state ≡ true
started_registration_agrees_example =
    started_registration_agrees values Bytes Bytes platform config made zeros none signup (pos 10)
      signup_started

abbrev assertion : AuthenticationVerification values
assertion = record {
  state = state;
  response = response;
  credential = stored;
  uv_initialization_authorized = true;
}

abbrev result : AuthenticationResult values
result =
    authentication_result values
      (authentication_finish_options values Bytes Bytes party assertion (pos 10)) parsed []

accepted :
    rp_finish_authentication values Bytes Bytes platform (some party) context assertion (pos 10)
    ≡ ok result
unfolding rp_finish_authentication finish_authentication Methods.equal_lists
    Checks.validate_dependencies Credential.validate_record Types.validate_credential_type
    Types.known_credential_type bytes_eq Key.validate_key Types.validate_algorithm
    AttestationTypes.known_attestation_type contains Authentication.validate_authentication_state
    Authentication.validate_state Origin.validate_origin_policy each Origin.valid_dns_name
    has_prefix has_suffix drop take get_or contains_any split all any
    Origin.validate_rp_id_origin_policy Origin.valid_rp_id Ceremony.validate_user_verification
    Types.known_user_verification ExtensionCheck.validate_requested_extension_ids
    ExtensionCheck.validate_extension_binding_state ExtensionCheck.is_sorted
    ExtensionCheck.validate_stored_authentication_extension_context lookup
    ExtensionCheck.validate_finish_extension_bindings Checks.validate_response_shape
    ExtensionCheck.validate_client_extension_results Checks.verify_credential_binding
    Checks.verify_user_binding Ceremony.verify_client_data ClientData.parse_collected_client_data
    Types.validate_client_data_type ClientData.challenge_bytes Base64.decode Base64.encode
    Origin.verify_collected_client_origin Checks.verify_authenticator_data
    AuthData.parse_authenticator_data AuthData.user_present AuthData.user_verified
    AuthData.backup_eligible AuthData.backup_state AuthData.has_attested_credential_data
    AuthData.has_extension_data AuthData.has_reserved Checks.expected_rp_id_hash
    Checks.decode_extensions Checks.verify_signature Finish.refuses_clone_risk
    Counter.compare_counters Finish.verify_authentication_extensions
    ExtensionCheck.verify_remote_client_data_binding Outputs.verify_extensions
    Outputs.validate_extension_work sorted_keys Outputs.verify_each cut_last
accepted = refl

rp_finish_authentication_sound_example :
    (rp : RelyingParty values Bytes Bytes) × (some party ≡ some rp)
    × IsAdmitted values Bytes Bytes platform rp context assertion (pos 10) result
rp_finish_authentication_sound_example =
    rp_finish_authentication_sound values Bytes Bytes platform (some party) context assertion
      (pos 10) accepted
