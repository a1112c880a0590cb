-- ===== src/Registration/Finish.antt =====
-- registration.go: `FinishRegistration`.
pub mod Steps
pub mod Sound
pub mod Record
use webauthn.Prelude.{
  Bool, true, false, not, ◌&&◌, ◌||◌, Option, none, some, List, [], ◌++◌, Bytes, nil, any,
  if◌then◌else◌,
}
use webauthn.Prelude.Int.{pos, eq_ℤ}
use webauthn.Errors.{
  Error, Result, ok, err, ◌>>=◌, ◌>>◌, refuse_if, wrapped, sentinel, invalid_configuration,
  malformed_response, unsupported_algorithm,
}
use webauthn.Platform.{Platform}
use webauthn.Protocol.Bytes.{AttestationObject, is_nil, equal}
use webauthn.Protocol.Types.{CoseAlgorithm, client_data_type_create}
use webauthn.Protocol.AuthData.{
  ParsedAuthenticatorData, AttestedCredentialData, user_verified, backup_eligible, backup_state,
}
use webauthn.Codec.Key.{CredentialPublicKey, validate_key}
use webauthn.Attestation.Registry.{VerificationResult, TrustResult, type_of, warnings_of}
use webauthn.Credential.{CredentialRecord}
use webauthn.Ceremony.{verify_client_data, normalize_authenticator_attachment}
use webauthn.Extension.{Values, operation_registration}
use webauthn.ExtensionCheck.{
  ExtensionMap, validate_finish_extension_bindings, validate_client_extension_results,
  verify_remote_client_data_binding,
}
use webauthn.ExtensionCheck.Outputs.{Context, VerificationInputs, verify_extensions}
use webauthn.Registration.{
  RegistrationState, RegistrationResponse, RegistrationFinishOptions, RegistrationResult,
  DecodedAttestationObject, validate_registration_state,
}
use webauthn.Registration.Checks.{
  validate_finish_dependencies, validate_registration_response_shape,
  verify_registration_authenticator_data, required_attested, decode_key_and_extensions,
  verify_registration_attestation,
}

-- `slices.Contains` on algorithms.
abbrev pub allows : List CoseAlgorithm → CoseAlgorithm → Bool
allows algorithms a = any (λ b. eq_ℤ b a) algorithms

module _ (v : Values) (S E : Type 0) where
  -- What the steps on the attestation object find, in the order of the source.
  pub record Evidence : Type 0 where
    pub parsed : ParsedAuthenticatorData
    pub attested : AttestedCredentialData
    pub key : CredentialPublicKey
    pub authenticator : ExtensionMap v

  abbrev pub new_credential :
      RegistrationFinishOptions v S E → Evidence → VerificationResult E → CredentialRecord
  new_credential o e result = record {
    kind = o.response.kind;
    id = e.attested.credential_id;
    public_key = e.key;
    user_handle = o.state.user_handle;
    rp_id = o.state.rp_id;
    aaguid = e.attested.aaguid;
    sign_count = e.parsed.sign_count;
    transports = o.response.transports;
    backup_eligible = backup_eligible e.parsed.flags;
    backup_state = backup_state e.parsed.flags;
    uv_initialized = user_verified e.parsed.flags;
    authenticator_attachment =
        normalize_authenticator_attachment o.response.authenticator_attachment;
    attestation_type = type_of result;
  }

  abbrev pub registration_result :
      RegistrationFinishOptions v S E
      → Evidence
      → VerificationResult E
      → TrustResult
      → List v.Outcome
      → RegistrationResult v E
  registration_result o e result trust outcomes = record {
    credential = new_credential o e result;
    attestation = result;
    attestation_trust = trust;
    extensions = outcomes;
    warnings = warnings_of result ++ trust.warnings;
  }

  -- The decoded object must spell the response; a nil decoder was refused before.
  unfoldable pub decode_attestation_object :
      RegistrationFinishOptions v S E → Result (DecodedAttestationObject S)
  decode_attestation_object o = elim o.attestation_object_decoder [
    | none ↦ err (sentinel invalid_configuration)
    | some decode ↦ do
      decoded ← wrapped (sentinel malformed_response) (decode o.response.attestation_object)
      refuse_if (not (equal decoded.raw o.response.attestation_object))
          (sentinel malformed_response)
      refuse_if
          (not (is_nil o.response.authenticator_data)
            && not (equal o.response.authenticator_data decoded.authenticator_data))
          (sentinel malformed_response)
      ok decoded
  ]

  -- The checks on the key against the state and the response.
  unfoldable pub check_algorithm :
      RegistrationFinishOptions v S E → CredentialPublicKey → Result (Unit {0})
  check_algorithm o key = do
    wrapped (sentinel malformed_response) (validate_key key)
    refuse_if (not (allows o.state.allowed_algorithms key.algorithm))
        (sentinel unsupported_algorithm)
    refuse_if
        (not (eq_ℤ o.response.public_key_algorithm (pos 0))
          && not (eq_ℤ o.response.public_key_algorithm key.algorithm))
        (sentinel malformed_response)

  module _ (g : Platform) where
    -- From the decoded object to the credential id and the key.
    unfoldable pub verify_evidence :
        RegistrationFinishOptions v S E → DecodedAttestationObject S → Result Evidence
    unfolding check_algorithm
    verify_evidence o decoded = do
      parsed ← verify_registration_authenticator_data v g o.state decoded.authenticator_data
      attested ← required_attested v parsed.attested
      refuse_if (not (equal attested.credential_id o.response.raw_id)) (sentinel malformed_response)
      (key, authenticator) ←
          decode_key_and_extensions v o.credential_public_key_decoder o.extension_map_decoder parsed
            attested
      check_algorithm o key
      ok (record { parsed = parsed; attested = attested; key = key; authenticator = authenticator })

    -- The checks before the client data: configuration, state, bindings and shape.
    unfoldable pub check_registration_request : RegistrationFinishOptions v S E → Result (Unit {0})
    check_registration_request o = do
      validate_finish_dependencies v o
      validate_registration_state v g o.state o.now
      wrapped (sentinel invalid_configuration) (
          validate_finish_extension_bindings v o.state.requested_extensions
            o.state.extension_bindings o.extension_registry)
      validate_registration_response_shape v o.response
      validate_client_extension_results v o.response.client_extension_results

    abbrev pub registration_inputs :
        RegistrationFinishOptions v S E → ExtensionMap v → VerificationInputs v
    registration_inputs o authenticator = record {
      operation = operation_registration;
      selected_credential_id = nil;
      requested = o.state.requested_extensions;
      policy = record {
        reject_unrequested = o.extension_policy.reject_unrequested;
        reject_unknown = o.extension_policy.reject_unknown;
      };
      registry = o.extension_registry;
      client_results = o.response.client_extension_results;
      authenticator = authenticator;
      transform = λ id input. ok input;
    }

    -- `verifyRegistrationExtensions`.
    unfoldable pub verify_registration_extensions :
        Context → RegistrationFinishOptions v S E → ExtensionMap v → Result (List v.Outcome)
    verify_registration_extensions ctx o authenticator = do
      verify_remote_client_data_binding v o.state.requested_extensions o.state.extension_bindings
          o.response.client_data_json
      verify_extensions v ctx (registration_inputs o authenticator)

    unfoldable pub finish_registration :
        Context → RegistrationFinishOptions v S E → Result (RegistrationResult v E)
    unfolding check_registration_request decode_attestation_object verify_evidence
    finish_registration ctx o = do
      check_registration_request o
      client_data_hash ←
          verify_client_data g o.response.client_data_json client_data_type_create o.state.challenge
            o.state.origin_policy
      decoded ← decode_attestation_object o
      e ← verify_evidence o decoded
      (result, trust) ←
          verify_registration_attestation S E o.attestation_trust_policy o.attestation_registry
            (record {
              decoded = decoded;
              credential_public_key = e.key;
              client_data_hash = client_data_hash;
              aaguid = e.attested.aaguid;
              conveyance = o.state.attestation;
            })
      outcomes ← verify_registration_extensions ctx o e.authenticator
      ok (registration_result o e result trust outcomes)
