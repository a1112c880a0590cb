-- ===== src/Authentication/Checks.antt =====
-- authentication.go: the checks of `FinishAuthentication`, one function for each helper.
pub mod Facts
use webauthn.Prelude.{
  ℕ, Bool, true, false, not, ◌&&◌, ◌||◌, Option, none, some, List, [], ◌∷◌, ◌++◌, Bytes, content,
  is_empty, any, bytes_eq, bool_eq, lookup, ◌==◌, if◌then◌else◌,
}
use webauthn.Errors.{
  Error, Result, ok, err, ◌>>=◌, ◌>>◌, refuse_if, wrapped, sentinel, annotate, malformed_response,
  invalid_configuration, credential_rp_id_mismatch, credential_not_allowed,
  credential_ownership_mismatch, user_handle_required, rp_id_hash_mismatch, user_presence_required,
  user_verification_required, invalid_backup_state, backup_eligibility_mismatch, invalid_signature,
  unsupported_algorithm,
}
use webauthn.Platform.{Platform}
use webauthn.Protocol.Bytes.{len, is_nil, equal, append_to}
use webauthn.Protocol.Types.{CoseAlgorithm, CredentialDescriptor, validate_credential_type}
use webauthn.Protocol.Types
use webauthn.Protocol.AuthData.{
  ParsedAuthenticatorData, parse_authenticator_data, user_present, user_verified, backup_eligible,
  backup_state, has_attested_credential_data, has_extension_data,
}
use webauthn.Credential.{CredentialRecord, validate_record}
use webauthn.Extension.{Values, id_app_id}
use webauthn.ExtensionCheck.{ExtensionMap, ClientOutputs}
use webauthn.Crypto.{SignatureVerifier}
use webauthn.Authentication.{
  AuthenticationState, AuthenticationResponse, AuthenticationFinishOptions, AlgorithmPolicy, unset,
  typed_nil, accepts, AuthenticationExtensionPolicy, CounterPolicy,
}

abbrev is_typed_nil : AlgorithmPolicy → Bool
is_typed_nil typed_nil = true
is_typed_nil _ = false

abbrev is_absent {ℓ} : {A : Type ℓ} → Option A → Bool
is_absent none = true
is_absent (some _) = false

-- `options.AlgorithmPolicy != nil && !options.AlgorithmPolicy.AcceptsAlgorithm(algorithm)`.
abbrev pub refuses_algorithm : AlgorithmPolicy → CoseAlgorithm → Bool
refuses_algorithm unset a = false
refuses_algorithm typed_nil a = false
refuses_algorithm (accepts p) a = not (p a)

module _ (v : Values) where
  unfoldable pub validate_dependencies : AuthenticationFinishOptions v → Result (Unit {0})
  validate_dependencies o = do
    let outer = sentinel invalid_configuration
    refuse_if (is_absent o.signature_verifier) (annotate outer "signature verifier is required")
    refuse_if (is_typed_nil o.algorithm_policy) (annotate outer "algorithm policy is typed nil")
    validate_record o.credential
    refuse_if (o.counter_policy.reject_clone_risk && o.counter_policy.update_on_clone_risk)
        (annotate outer "clone-risk counter policy cannot reject and update")

  unfoldable pub validate_response_shape : AuthenticationResponse v → Result (Unit {0})
  validate_response_shape r = do
    wrapped (sentinel malformed_response) (validate_credential_type r.kind)
    refuse_if
        (is_nil r.raw_id
          || is_nil r.client_data_json
          || is_nil r.authenticator_data
          || is_nil r.signature)
        (sentinel malformed_response)

  unfoldable pub verify_credential_binding :
      AuthenticationState v → AuthenticationResponse v → CredentialRecord → Result (Unit {0})
  verify_credential_binding s r c = do
    refuse_if (is_empty c.rp_id || not (bytes_eq c.rp_id s.rp_id))
        (sentinel credential_rp_id_mismatch)
    refuse_if (not (equal c.id r.raw_id)) (sentinel credential_not_allowed)
    refuse_if
        (not (is_empty s.allow_credentials)
          && not (any (λ d. equal d.id r.raw_id) s.allow_credentials))
        (sentinel credential_not_allowed)

  unfoldable pub verify_user_binding :
      AuthenticationState v → AuthenticationResponse v → CredentialRecord → Result (Unit {0})
  verify_user_binding s r c =
      let expected = s.expected_user_handle in
      let mismatch = sentinel credential_ownership_mismatch in
      if not (len expected == 0)
      then (do
        refuse_if (not (equal c.user_handle expected)) mismatch
        refuse_if (not (len r.user_handle == 0) && not (equal r.user_handle expected)) mismatch)
      else do
        refuse_if (len r.user_handle == 0) (sentinel user_handle_required)
        refuse_if (not (equal r.user_handle c.user_handle)) mismatch

  -- `used, _ := extension.As[bool](results[appid])`; a missing key is the absent value.
  abbrev uses_app_id : ClientOutputs v → Bool
  uses_app_id results = elim (lookup id_app_id results) [
    | none ↦ v.as_bool v.absent
    | some value ↦ v.as_bool value
  ]

  -- The AppID of the state, where it is a string, is not empty, and is the policy's.
  abbrev trusted_app_id : Bytes → Option Bytes → Option Bytes
  trusted_app_id policy none = none
  trusted_app_id policy (some app_id) =
      if is_empty app_id || is_empty policy || not (bytes_eq app_id policy)
      then none
      else some app_id

  abbrev requested_string : Option v.Input → Option Bytes
  requested_string none = none
  requested_string (some input) = v.as_string input

  -- The text whose hash the authenticator data must carry.
  unfoldable pub expected_rp_id :
      AuthenticationState v
      → AuthenticationResponse v
      → AuthenticationExtensionPolicy
      → Option Bytes
  expected_rp_id s r p =
      if not (uses_app_id r.client_extension_results)
      then some s.rp_id
      else trusted_app_id p.app_id (requested_string (lookup id_app_id s.requested_extensions))

  module _ (g : Platform) where
    -- `expectedAuthenticationRPIDHash`.
    unfoldable pub expected_rp_id_hash :
        AuthenticationState v
        → AuthenticationResponse v
        → AuthenticationExtensionPolicy
        → Option Bytes
    unfolding expected_rp_id
    expected_rp_id_hash s r p = elim (expected_rp_id s r p) [
      | none ↦ none
      | some text ↦ some (g.sha256 text)
    ]

    abbrev pub is_hash : Bytes → Option Bytes → Bool
    is_hash actual none = false
    is_hash actual (some expected) = bytes_eq actual expected

    -- The checks on parsed authenticator data, in the order of the source.
    unfoldable pub check_parsed :
        AuthenticationState v
        → AuthenticationResponse v
        → CredentialRecord
        → AuthenticationExtensionPolicy
        → ParsedAuthenticatorData
        → Result (Unit {0})
    check_parsed s r c p parsed = do
      refuse_if (has_attested_credential_data parsed.flags) (sentinel malformed_response)
      refuse_if (not (is_hash parsed.rp_id_hash (expected_rp_id_hash s r p)))
          (sentinel rp_id_hash_mismatch)
      refuse_if (not (user_present parsed.flags)) (sentinel user_presence_required)
      refuse_if
          (bytes_eq s.requested_user_verification Types.user_verification_required
            && not (user_verified parsed.flags))
          (sentinel user_verification_required)
      refuse_if (backup_state parsed.flags && not (backup_eligible parsed.flags))
          (sentinel invalid_backup_state)
      refuse_if (not (bool_eq (backup_eligible parsed.flags) c.backup_eligible))
          (sentinel backup_eligibility_mismatch)

    unfoldable pub verify_authenticator_data :
        AuthenticationState v
        → AuthenticationResponse v
        → CredentialRecord
        → AuthenticationExtensionPolicy
        → Result ParsedAuthenticatorData
    unfolding check_parsed
    verify_authenticator_data s r c p = do
      parsed ← wrapped (sentinel malformed_response) (parse_authenticator_data r.authenticator_data)
      check_parsed s r c p parsed
      ok parsed

  unfoldable pub decode_extensions :
      Option (Bytes → Result (ExtensionMap v)) → ParsedAuthenticatorData → Result (ExtensionMap v)
  decode_extensions decoder parsed =
      if not (has_extension_data parsed.flags) then ok [] else elim decoder [
        | none ↦ err (
            annotate (sentinel invalid_configuration)
              "authentication extension map decoder is required for authenticator extensions")
        | some decode ↦ wrapped (sentinel malformed_response) (decode parsed.extension_data)
      ]

  -- The bytes that the assertion signs: the authenticator data, then the client data hash.
  abbrev pub signed_bytes : AuthenticationResponse v → Bytes → Bytes
  signed_bytes r client_data_hash = append_to r.authenticator_data [] ++ client_data_hash

  unfoldable pub verify_signature :
      Option SignatureVerifier
      → CredentialRecord
      → AuthenticationResponse v
      → Bytes
      → Result (Unit {0})
  verify_signature verifier c r client_data_hash = elim verifier [
    -- A nil verifier has been refused by `validate_dependencies`; Go would panic here.
    | none ↦ err (sentinel invalid_configuration)
    | some verify ↦ wrapped (sentinel invalid_signature) (
        verify (record {
          algorithm = c.public_key.algorithm;
          public_key = c.public_key.material;
          raw_credential_public_key = c.public_key.raw;
          signed = signed_bytes r client_data_hash;
          signature = r.signature;
        }))
  ]
