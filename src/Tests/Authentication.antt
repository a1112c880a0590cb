-- ===== src/Tests/Authentication.antt =====
-- An assertion on example.com, from its bytes to the stored record.
use webauthn.Prelude.{
  ◌≡◌, ◌≤◌, ◌⊎◌, ◌↔◌, refl, true, false, none, [], bytes, bytes_eq, contains, take, drop, get_or,
  any, all, split, has_prefix, has_suffix, contains_any, cut_last, lookup, sorted_keys,
}
use webauthn.Prelude.Base64
use webauthn.Errors.{ok, each}
use webauthn.Protocol.Types
use webauthn.Protocol.AuthData
use webauthn.Protocol.AuthData.{ParsedAuthenticatorData}
use webauthn.Protocol.ClientData
use webauthn.Codec.Key
use webauthn.Attestation.Types as AttestationTypes
use webauthn.Credential
use webauthn.Origin
use webauthn.Ceremony
use webauthn.ExtensionCheck
use webauthn.ExtensionCheck.Outputs
use webauthn.Authentication
use webauthn.Authentication.{AuthenticationResult}
use webauthn.Authentication.Counter
use webauthn.Authentication.Counter.{compare_counters_clone_risk, next_sign_count_grows}
use webauthn.Authentication.Checks
use webauthn.Authentication.Finish.{
  finish_authentication, authentication_result, verify_authentication_extensions,
  refuses_clone_risk,
}
use webauthn.Authentication.Finish.Sound.{Verified, finish_authentication_sound}
use webauthn.Authentication.Finish.Update.{
  finish_authentication-apply_to, finish_authentication_monotone,
}
use webauthn.Tests.Fixtures.{values, platform, context, options, auth_data, digest, rp_id}

abbrev pub parsed : ParsedAuthenticatorData
parsed = record {
  raw = bytes auth_data;
  rp_id_hash = digest rp_id;
  flags = 0x1d;
  sign_count = 4;
  attested = none;
  extension_data = [];
}

abbrev result : AuthenticationResult values
result = authentication_result values options parsed []

accepted : finish_authentication values platform context options ≡ ok result
unfolding finish_authentication Checks.validate_dependencies Credential.validate_record
    Types.validate_credential_type Types.known_credential_type bytes_eq Key.validate_key
    Types.validate_algorithm AttestationTypes.known_attestation_type contains
    Authentication.validate_authentication_state Authentication.validate_state
    Origin.validate_origin_policy each Origin.valid_dns_name has_prefix has_suffix drop take get_or
    contains_any split all any Origin.validate_rp_id_origin_policy Origin.valid_rp_id
    Ceremony.validate_user_verification Types.known_user_verification
    ExtensionCheck.validate_requested_extension_ids ExtensionCheck.validate_extension_binding_state
    ExtensionCheck.is_sorted ExtensionCheck.validate_stored_authentication_extension_context lookup
    ExtensionCheck.validate_finish_extension_bindings Checks.validate_response_shape
    ExtensionCheck.validate_client_extension_results Checks.verify_credential_binding
    Checks.verify_user_binding Ceremony.verify_client_data ClientData.parse_collected_client_data
    Types.validate_client_data_type ClientData.challenge_bytes Base64.decode Base64.encode
    Origin.verify_collected_client_origin Checks.verify_authenticator_data
    AuthData.parse_authenticator_data AuthData.user_present AuthData.user_verified
    AuthData.backup_eligible AuthData.backup_state AuthData.has_attested_credential_data
    AuthData.has_extension_data AuthData.has_reserved Checks.expected_rp_id_hash
    Checks.decode_extensions Checks.verify_signature refuses_clone_risk Counter.compare_counters
    verify_authentication_extensions ExtensionCheck.verify_remote_client_data_binding
    Outputs.verify_extensions Outputs.validate_extension_work sorted_keys Outputs.verify_each
    cut_last
accepted = refl

finish_authentication_sound_example : Verified values platform context options result
finish_authentication_sound_example =
    finish_authentication_sound values platform context options accepted

finish_authentication-apply_to_example :
    Credential.apply_to result.update options.credential ≡ ok result.credential
finish_authentication-apply_to_example =
    finish_authentication-apply_to values platform context options accepted

finish_authentication_monotone_example :
    (options.credential.uv_initialized ≡ true → result.credential.uv_initialized ≡ true)
    × (result.credential.uv_initialized ≡ true
        → (options.credential.uv_initialized ≡ true)
          ⊎ ((result.user_verified ≡ true) × (options.uv_initialization_authorized ≡ true)))
    × (options.counter_policy.update_on_clone_risk ≡ false
        → options.credential.sign_count ≤ result.credential.sign_count)
    × ((result.credential.authenticator_attachment ≡ options.credential.authenticator_attachment)
        ⊎ ((result.credential.authenticator_attachment ≡ options.response.authenticator_attachment)
            × (Types.known_authenticator_attachment options.response.authenticator_attachment
                ≡ true)))
    × (result.credential ≡ record (options.credential) {
      sign_count = result.credential.sign_count;
      backup_state = result.credential.backup_state;
      uv_initialized = result.credential.uv_initialized;
      authenticator_attachment = result.credential.authenticator_attachment;
    })
finish_authentication_monotone_example =
    finish_authentication_monotone values platform context options accepted

compare_counters_clone_risk_example :
    ((Counter.compare_counters 5 5).clone_risk ≡ true) ↔ ((5 ≤ 5) × (1 ≤ 5))
compare_counters_clone_risk_example = compare_counters_clone_risk 5 5

next_sign_count_grows_example :
    (5 ≤ Counter.next_sign_count options.counter_policy 5 2)
    × (2 ≤ Counter.next_sign_count options.counter_policy 5 2)
    × ((Counter.next_sign_count options.counter_policy 5 2 ≡ 5)
        ⊎ (Counter.next_sign_count options.counter_policy 5 2 ≡ 2))
next_sign_count_grows_example = next_sign_count_grows options.counter_policy 5 2 refl
