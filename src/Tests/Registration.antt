-- ===== src/Tests/Registration.antt =====
-- A registration on example.com, from its start to the new record.
use webauthn.Prelude.{
  ℕ, zero, suc, ◌≤◌, length, arith, ◌≡◌, ◌++◌, refl, true, false, none, some, [], ◌∷◌, Bytes, bytes,
  nil, ascii, bytes_eq, contains, take, drop, get_or, any, all, split, has_prefix, has_suffix,
  contains_any, cut_last, lookup, sorted_keys, is_empty, if◌then◌else◌,
}
use webauthn.Prelude.Base64
use webauthn.Prelude.Int.{pos, ◌+ℤ◌}
use webauthn.Errors.{ok, err, each, message}
use webauthn.Platform.{Platform}
use webauthn.Protocol.Types
use webauthn.Protocol.Types.{
  credential_type_public_key, algorithm_es256, client_data_type_create, user_verification_required,
}
use webauthn.Protocol.Bytes
use webauthn.Protocol.Bytes.{len}
use webauthn.Protocol.Identifier
use webauthn.Protocol.AuthData
use webauthn.Protocol.ClientData
use webauthn.Protocol.Options
use webauthn.Protocol.Options.{CreationOptions}
use webauthn.Codec.Key
use webauthn.Attestation.Types as AttestationTypes
use webauthn.Attestation.Registry
use webauthn.Attestation.Registry.{
  VerificationResult, TrustResult, Verifier, verification, trust_path, no_statements,
}
use webauthn.Credential
use webauthn.Origin
use webauthn.Ceremony
use webauthn.Challenge.{ReadFull, no_generator, default_reader, default_length, generate_random}
use webauthn.Challenge.Length.{generate_random_length}
use webauthn.Challenge
use webauthn.ExtensionCheck
use webauthn.ExtensionCheck.Outputs
use webauthn.ExtensionCheck.Prepare
use webauthn.Registration
use webauthn.Registration.{
  RegistrationState, RegistrationResponse, RegistrationFinishOptions, RegistrationResult,
  DecodedAttestationObject,
}
use webauthn.Registration.Checks
use webauthn.Registration.Checks.Facts.{IsAttested, verify_registration_attestation_sound}
use webauthn.Registration.Finish
use webauthn.Registration.Finish.{finish_registration, registration_result, Evidence}
use webauthn.Registration.Finish.Sound.{Registered, finish_registration_sound}
use webauthn.Registration.Finish.Record.{finish_registration-validate_record}
use webauthn.Registration.Start.{RegistrationStartOptions, start_registration}
use webauthn.Registration.Start.Sound.{IsBegun, start_registration_sound}
use webauthn.Tests.Fixtures.{
  repeat, rp_id, challenge, client_data, digest, platform, values, context, public_key, policy,
}

-- The browser reports a creation.
abbrev creating : Platform
creating = record platform {
  unmarshal_client_data = λ b.
      if is_empty b then none else some (record client_data { kind = client_data_type_create });
}

abbrev start_options : RegistrationStartOptions values
start_options = record {
  rp = record { id = rp_id; name = ascii "Example" };
  user = record { id = bytes (5 ∷ []); name = ascii "ann"; display_name = ascii "Ann" };
  origin_policy = policy;
  conditional_mediation = false;
  challenge = bytes challenge;
  challenge_generator = no_generator;
  pub_key_cred_params = [];
  timeout = pos 0;
  state_ttl = pos 0;
  exclude_credentials = [];
  authenticator_selection = none;
  hints = [];
  attestation = [];
  attestation_formats = [];
  extensions = [];
  extension_registry = none;
  reject_unknown = true;
  now = pos 10;
}

abbrev no_random : ReadFull
no_random = λ n. err (message "no entropy")

abbrev state : RegistrationState values
state = record {
  challenge = bytes challenge;
  rp_id = rp_id;
  origin_policy = policy;
  conditional_mediation = false;
  user_handle = bytes (5 ∷ []);
  requested_user_verification = ascii "preferred";
  requested_extensions = [];
  extension_bindings = [];
  allowed_algorithms = algorithm_es256 ∷ Types.algorithm_rs256 ∷ [];
  attestation = ascii "none";
  expires_at = pos 600000000010;
}

abbrev creation : CreationOptions Bytes
creation = record {
  rp = start_options.rp;
  user = start_options.user;
  challenge = bytes challenge;
  pub_key_cred_params =
      record { kind = credential_type_public_key; algorithm = algorithm_es256 }
      ∷ record { kind = credential_type_public_key; algorithm = Types.algorithm_rs256 }
      ∷ [];
  timeout_milliseconds = 300000;
  exclude_credentials = [];
  authenticator_selection = none;
  hints = [];
  attestation = ascii "none";
  attestation_formats = [];
  extensions = [];
}

begun : start_registration values creating no_random none start_options ≡ ok (creation, state)
unfolding start_registration Types.validate_rp Types.validate_user Origin.validate_origin_policy
    each Origin.valid_dns_name has_prefix has_suffix drop take get_or contains_any split all any
    cut_last bytes_eq contains Origin.validate_rp_id_origin_policy Origin.valid_rp_id
    Types.validate_selection Ceremony.registration_credential_parameters Challenge.choose_challenge
    Ceremony.validate_user_verification Ceremony.registration_user_verification
    Types.known_user_verification Prepare.prepare_extension_inputs
    Prepare.validate_remote_client_data_input Prepare.clone_extension_inputs lookup
    Types.known_attestation_conveyance Ceremony.timeout_state Options.validate_creation_options
    Types.validate_parameter Types.validate_algorithm ◌+ℤ◌
begun = refl

start_registration_sound_example :
    IsBegun values creating start_options no_random none creation state
start_registration_sound_example =
    start_registration_sound values creating start_options no_random none begun

-- UP, UV and AT, a counter of 4, a zero GUID, a credential id of two bytes and the key.
abbrev new_data : Bytes
new_data =
    digest rp_id ++ (0x45 ∷ 0 ∷ 0 ∷ 0 ∷ 4 ∷ (repeat 16 0 ++ (0 ∷ 2 ∷ 9 ∷ 9 ∷ (1 ∷ 2 ∷ 3 ∷ []))))

abbrev decoded : DecodedAttestationObject Bytes
decoded = record {
  format = ascii "none";
  authenticator_data = bytes new_data;
  statement = [];
  raw = bytes (8 ∷ []);
}

abbrev verified : VerificationResult Bytes
verified = verification (ascii "none") (trust_path (ascii "none") [] [] no_statements) true [] []

abbrev trust : TrustResult
trust = record { accepted = true; reason = []; warnings = [] }

abbrev none_verifier : Verifier Bytes Bytes
none_verifier = record { format = ascii "none"; verify_attestation = λ request. ok verified }

abbrev response : RegistrationResponse values
response = record {
  kind = credential_type_public_key;
  raw_id = bytes (9 ∷ 9 ∷ []);
  client_data_json = bytes (ascii "{}");
  authenticator_data = nil;
  attestation_object = bytes (8 ∷ []);
  public_key_algorithm = algorithm_es256;
  transports = ascii "internal" ∷ [];
  authenticator_attachment = ascii "platform";
  client_extension_results = [];
}

abbrev options : RegistrationFinishOptions values Bytes Bytes
options = record {
  state = state;
  response = response;
  attestation_object_decoder = some (λ raw. ok decoded);
  credential_public_key_decoder = some (λ raw. ok public_key);
  extension_map_decoder = none;
  attestation_registry = some ((ascii "none", none_verifier) ∷ []);
  attestation_trust_policy = some (λ request. ok trust);
  extension_registry = none;
  extension_policy = record { reject_unrequested = true; reject_unknown = true };
  now = pos 20;
}

abbrev evidence : Evidence values Bytes Bytes
evidence = record {
  parsed = record {
    raw = bytes new_data;
    rp_id_hash = digest rp_id;
    flags = 0x45;
    sign_count = 4;
    attested = some (record {
      aaguid = repeat 16 0;
      credential_id = bytes (9 ∷ 9 ∷ []);
      credential_public_key_and_extensions = 1 ∷ 2 ∷ 3 ∷ [];
    });
    extension_data = [];
  };
  attested = record {
    aaguid = repeat 16 0;
    credential_id = bytes (9 ∷ 9 ∷ []);
    credential_public_key_and_extensions = 1 ∷ 2 ∷ 3 ∷ [];
  };
  key = public_key;
  authenticator = [];
}

abbrev result : RegistrationResult values Bytes
result = registration_result values Bytes Bytes options evidence verified trust []

registered : finish_registration values Bytes Bytes creating context options ≡ ok result
unfolding finish_registration Checks.validate_finish_dependencies
    Registration.validate_registration_state Registration.validate_registration
    Origin.validate_origin_policy each Origin.valid_dns_name has_prefix has_suffix drop take get_or
    contains_any split all any cut_last bytes_eq contains Origin.validate_rp_id_origin_policy
    Origin.valid_rp_id Types.validate_algorithm Types.known_attestation_conveyance
    Ceremony.validate_user_verification Types.known_user_verification
    ExtensionCheck.validate_requested_extension_ids ExtensionCheck.validate_extension_binding_state
    ExtensionCheck.is_sorted ExtensionCheck.validate_finish_extension_bindings
    Checks.validate_registration_response_shape Types.validate_credential_type
    Types.known_credential_type ExtensionCheck.validate_client_extension_results
    Ceremony.verify_client_data ClientData.parse_collected_client_data
    Types.validate_client_data_type ClientData.challenge_bytes Base64.decode Base64.encode
    Origin.verify_collected_client_origin Checks.verify_registration_authenticator_data
    AuthData.parse_authenticator_data AuthData.parse_attested_credential_data AuthData.user_present
    AuthData.user_verified AuthData.backup_eligible AuthData.backup_state
    AuthData.has_attested_credential_data AuthData.has_extension_data AuthData.has_reserved
    Bytes.new_credential_id Checks.decode_key_and_extensions Key.validate_key
    Checks.verify_registration_attestation Checks.verify_statement Checks.evaluate_trust
    Identifier.valid_identifier Registry.lookup_verifier lookup
    AttestationTypes.known_attestation_type AttestationTypes.known_trust_path_kind
    Finish.verify_registration_extensions ExtensionCheck.verify_remote_client_data_binding
    Outputs.verify_extensions Outputs.validate_extension_work sorted_keys Outputs.verify_each
registered = refl

finish_registration_sound_example : Registered values Bytes Bytes creating options context result
finish_registration_sound_example =
    finish_registration_sound values Bytes Bytes creating options context registered

finish_registration-validate_record_example :
    (Credential.validate_record result.credential ≡ ok tt)
    × (result.credential.user_handle ≡ state.user_handle)
    × (result.credential.rp_id ≡ state.rp_id)
finish_registration-validate_record_example =
    finish_registration-validate_record values Bytes Bytes creating options context registered

-- A reader of zeros.
abbrev zeros : ReadFull
zeros = λ n. ok (repeat n 0)

length-repeat : (n b : ℕ) → length (repeat n b) ≡ n
length-repeat zero b = refl
length-repeat (suc n) b = ground (arith, length-repeat n b)

zeros-length : (n : ℕ) (raw : Bytes) → zeros n ≡ ok raw → length raw ≡ n
zeros-length n raw h = ground (arith, h, length-repeat n 0)

generated :
    generate_random zeros none (record { source = default_reader; length = pos 0 })
    ≡ ok (bytes (repeat 32 0))
unfolding generate_random Bytes.new_challenge
generated = refl

generate_random_length_example :
    (pos (len (bytes (repeat 32 0))) ≡ default_length (pos 0)) × (16 ≤ len (bytes (repeat 32 0)))
generate_random_length_example =
    generate_random_length zeros zeros (record { source = default_reader; length = pos 0 }) refl
      zeros-length generated

abbrev attestation : Checks.AttestationInputs Bytes
attestation = record {
  decoded = decoded;
  credential_public_key = public_key;
  client_data_hash = digest (ascii "{}");
  aaguid = repeat 16 0;
  conveyance = ascii "none";
}

attested :
    Checks.verify_registration_attestation Bytes Bytes options.attestation_trust_policy
      options.attestation_registry attestation
    ≡ ok (verified, trust)
unfolding Checks.verify_registration_attestation Checks.verify_statement Checks.evaluate_trust
    Identifier.valid_identifier Registry.lookup_verifier lookup all contains bytes_eq
    AttestationTypes.known_attestation_type AttestationTypes.known_trust_path_kind
attested = refl

verify_registration_attestation_sound_example :
    IsAttested Bytes Bytes options.attestation_trust_policy options.attestation_registry attestation
      verified trust
verify_registration_attestation_sound_example =
    verify_registration_attestation_sound Bytes Bytes options.attestation_trust_policy
      options.attestation_registry attestation attested
