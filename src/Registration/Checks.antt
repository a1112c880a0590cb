-- ===== src/Registration/Checks.antt =====
-- registration.go: the checks of `FinishRegistration`, one function for each helper.
pub mod Facts
pub mod Trailing
use webauthn.Prelude.{
  ℕ, Bool, true, false, not, ◌&&◌, ◌||◌, Option, none, some, List, [], ◌∷◌, Bytes, ByteSlice, nil,
  content, is_empty, any, bytes_eq, length, take, drop, ltb, lookup, ◌==◌, if◌then◌else◌,
}
use webauthn.Prelude.Int.{pos, eq_ℤ}
use webauthn.Errors.{
  Error, Result, ok, err, ◌>>=◌, ◌>>◌, refuse_if, wrapped, sentinel, wrap, annotate,
  malformed_response, invalid_configuration, rp_id_hash_mismatch, user_presence_required,
  user_verification_required, invalid_backup_state, attested_credential_data_missing,
  invalid_attestation, unsupported_attestation_format, rejected_attestation_policy,
}
use webauthn.Platform.{Platform}
use webauthn.Protocol.Bytes.{len, is_nil, equal, AuthenticatorData, AttestationObject}
use webauthn.Protocol.Types.{CoseAlgorithm, validate_credential_type}
use webauthn.Protocol.Types
use webauthn.Protocol.Identifier.{valid_identifier}
use webauthn.Protocol.AuthData.{
  ParsedAuthenticatorData, AttestedCredentialData, parse_authenticator_data, user_present,
  user_verified, backup_eligible, backup_state, has_attested_credential_data, has_extension_data,
}
use webauthn.Codec.Key.{CredentialPublicKey, validate_key}
use webauthn.Attestation.Types.{known_attestation_type, known_trust_path_kind}
use webauthn.Attestation.Registry.{
  VerificationResult, TrustResult, TrustPolicy, Verifier, Registry, VerificationRequest,
  TrustRequest, lookup_verifier, is_valid, type_of, path_of, kind_of,
}
use webauthn.Extension.{Values, operation_registration}
use webauthn.ExtensionCheck.{ExtensionMap}
use webauthn.Registration.{
  RegistrationState, RegistrationResponse, RegistrationFinishOptions, DecodedAttestationObject,
}

abbrev is_unset {ℓ} : {A : Type ℓ} → Option A → Bool
is_unset none = true
is_unset (some _) = false

-- `verifyRegistrationAttestation`: its inputs other than the policy and the registry.
pub record AttestationInputs (S : Type 0) : Type 0 where
  pub decoded : DecodedAttestationObject S
  pub credential_public_key : CredentialPublicKey
  pub client_data_hash : Bytes
  pub aaguid : Bytes
  pub conveyance : Bytes

module _ (S E : Type 0) where
  -- The statement is checked in full and of a known type, with a known kind of trust path.
  abbrev pub is_acceptable : VerificationResult E → Bool
  is_acceptable r =
      is_valid r
      && known_attestation_type (type_of r)
      && known_trust_path_kind (kind_of (path_of r))

  abbrev pub verification_request : AttestationInputs S → VerificationRequest S E
  verification_request i = record {
    format = i.decoded.format;
    conveyance_preference = i.conveyance;
    authenticator_data = i.decoded.authenticator_data;
    client_data_hash = i.client_data_hash;
    statement = i.decoded.statement;
    credential_public_key = i.credential_public_key;
    raw_attestation_object = i.decoded.raw;
  }

  abbrev pub trust_request : AttestationInputs S → VerificationResult E → TrustRequest S E
  trust_request i r = record {
    format = i.decoded.format;
    result = r;
    aaguid = i.aaguid;
    authenticator_data = i.decoded.authenticator_data;
    credential_public_key = i.credential_public_key;
    raw_attestation_object = i.decoded.raw;
  }

  -- The decision of the relying party; no policy rejects.
  unfoldable pub evaluate_trust : Option (TrustPolicy S E) → TrustRequest S E → Result TrustResult
  evaluate_trust none request = err (sentinel rejected_attestation_policy)
  evaluate_trust (some policy) request = do
    trust ← wrapped (sentinel rejected_attestation_policy) (policy request)
    refuse_if (not trust.accepted) (sentinel rejected_attestation_policy)
    ok trust

  -- The verifier of the format checks the statement.
  unfoldable pub verify_statement :
      Option (Verifier S E) → VerificationRequest S E → Result (VerificationResult E)
  verify_statement none request = err (sentinel unsupported_attestation_format)
  verify_statement (some verifier) request = do
    result ← wrapped (sentinel invalid_attestation) (verifier.verify_attestation request)
    refuse_if (not (is_acceptable result)) (sentinel invalid_attestation)
    ok result

  unfoldable pub verify_registration_attestation :
      Option (TrustPolicy S E)
      → Option (Registry S E)
      → AttestationInputs S
      → Result (VerificationResult E × TrustResult)
  verify_registration_attestation policy registry i = do
    refuse_if (not (valid_identifier i.decoded.format)) (sentinel invalid_attestation)
    result ←
        verify_statement (lookup_verifier S E registry i.decoded.format) (verification_request i)
    trust ← evaluate_trust policy (trust_request i result)
    ok (result, trust)

module _ (v : Values) where
  -- `validateFinishDependencies`.
  unfoldable pub validate_finish_dependencies :
      {S E : Type 0} → RegistrationFinishOptions v S E → Result (Unit {0})
  validate_finish_dependencies o = do
    let outer = sentinel invalid_configuration
    refuse_if (is_unset o.attestation_object_decoder)
        (annotate outer "registration attestation object decoder is required")
    refuse_if (is_unset o.credential_public_key_decoder)
        (annotate outer "registration credential public key decoder is required")
    refuse_if (is_unset o.attestation_registry) (annotate outer "attestation registry is required")

  unfoldable pub validate_registration_response_shape : RegistrationResponse v → Result (Unit {0})
  validate_registration_response_shape r = do
    wrapped (sentinel malformed_response) (validate_credential_type r.kind)
    refuse_if (is_nil r.raw_id || is_nil r.client_data_json || is_nil r.attestation_object)
        (sentinel malformed_response)

  abbrev no_attested_data : Error
  no_attested_data = wrap (sentinel malformed_response) (sentinel attested_credential_data_missing)

  -- The checks on parsed authenticator data, in the order of the source.
  unfoldable pub check_registration_data :
      Platform → RegistrationState v → ParsedAuthenticatorData → Result (Unit {0})
  check_registration_data g s parsed = do
    refuse_if (not (bytes_eq parsed.rp_id_hash (g.sha256 s.rp_id))) (sentinel rp_id_hash_mismatch)
    refuse_if (not s.conditional_mediation && not (user_present parsed.flags))
        (sentinel user_presence_required)
    refuse_if
        (bytes_eq s.requested_user_verification Types.user_verification_required
          && not (user_verified parsed.flags))
        (sentinel user_verification_required)
    refuse_if (backup_state parsed.flags && not (backup_eligible parsed.flags))
        (sentinel invalid_backup_state)
    refuse_if (not (has_attested_credential_data parsed.flags)) no_attested_data

  unfoldable pub verify_registration_authenticator_data :
      Platform → RegistrationState v → AuthenticatorData → Result ParsedAuthenticatorData
  unfolding check_registration_data
  verify_registration_authenticator_data g s raw = do
    parsed ← wrapped (sentinel malformed_response) (parse_authenticator_data raw)
    check_registration_data g s parsed
    ok parsed

  abbrev pub required_attested : Option AttestedCredentialData → Result AttestedCredentialData
  required_attested none = err no_attested_data
  required_attested (some attested) = ok attested

  abbrev pub decode_with : {A : Type 0} → Option (Bytes → Result A) → Error → Bytes → Result A
  decode_with none missing b = err missing
  decode_with (some decode) missing b = wrapped (sentinel malformed_response) (decode b)

  -- What stands behind the key, by the ED flag.
  unfoldable pub decode_trailing_extensions :
      Option (Bytes → Result (ExtensionMap v))
      → ParsedAuthenticatorData
      → Bytes
      → Result (ExtensionMap v)
  decode_trailing_extensions decoder parsed trailing =
      if not (has_extension_data parsed.flags)
      then if not (is_empty trailing) then err (sentinel malformed_response) else ok []
      else if is_empty trailing
      then err (sentinel malformed_response)
      else decode_with decoder
          (annotate (sentinel invalid_configuration)
            "registration extension map decoder is required for authenticator extensions")
          trailing

  abbrev pub is_key_prefix : Bytes → Bytes → Bool
  is_key_prefix raw d =
      not
        (length raw == 0 || ltb (length d) (length raw) || not (bytes_eq raw (take (length raw) d)))

  -- `decodeCredentialPublicKeyAndExtensions`. A nil key decoder was refused before.
  unfoldable pub decode_key_and_extensions :
      Option (Bytes → Result CredentialPublicKey)
      → Option (Bytes → Result (ExtensionMap v))
      → ParsedAuthenticatorData
      → AttestedCredentialData
      → Result (CredentialPublicKey × ExtensionMap v)
  unfolding decode_trailing_extensions
  decode_key_and_extensions key_decoder extension_decoder parsed attested = do
    let d = attested.credential_public_key_and_extensions
    key ← decode_with key_decoder (sentinel invalid_configuration) d
    wrapped (sentinel malformed_response) (validate_key key)
    refuse_if (not (is_key_prefix key.raw d)) (sentinel malformed_response)
    extensions ← decode_trailing_extensions extension_decoder parsed (drop (length key.raw) d)
    ok (key, extensions)
