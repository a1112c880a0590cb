-- ===== src/Authentication/Finish.antt =====
-- authentication.go: `FinishAuthentication`.
pub mod Steps
pub mod Sound
pub mod Update
use webauthn.Prelude.{
  ℕ, Bool, true, false, not, ◌&&◌, ◌||◌, List, Bytes, is_empty, bool_eq, bytes_eq, ◌==◌,
  if◌then◌else◌,
}
use webauthn.Errors.{
  Error, Result, ok, err, ◌>>=◌, ◌>>◌, refuse_if, wrapped, sentinel, invalid_configuration,
  unsupported_algorithm, clone_risk,
}
use webauthn.Platform.{Platform}
use webauthn.Protocol.Bytes.{ClientDataJson}
use webauthn.Protocol.Types.{client_data_type_get}
use webauthn.Protocol.AuthData.{ParsedAuthenticatorData, user_present, user_verified, backup_state}
use webauthn.Credential.{CredentialRecord, CredentialUpdate, clone_record}
use webauthn.Ceremony.{verify_client_data, normalize_authenticator_attachment}
use webauthn.Extension.{Values, operation_authentication}
use webauthn.ExtensionCheck.{
  ExtensionMap, validate_finish_extension_bindings, validate_client_extension_results,
  verify_remote_client_data_binding,
}
use webauthn.ExtensionCheck.Outputs.{Context, VerificationInputs, verify_extensions}
use webauthn.ExtensionCheck.Prepare.{attach_allowed_credentials}
use webauthn.Authentication.{
  AuthenticationFinishOptions, AuthenticationResult, CounterPolicy, CounterResult,
  validate_authentication_state,
}
use webauthn.Authentication.Counter.{compare_counters, next_sign_count, authentication_warnings}
use webauthn.Authentication.Checks.{
  refuses_algorithm, validate_dependencies, validate_response_shape, verify_credential_binding,
  verify_user_binding, verify_authenticator_data, decode_extensions, verify_signature,
}

-- The attachment that the response reports if it is known, else the stored one.
abbrev pub next_attachment : Bytes → Bytes → Bytes
next_attachment reported stored =
    let known = normalize_authenticator_attachment reported in
    if not (is_empty known) then known else stored

module _ (v : Values) where
  -- The values that are stored next.
  abbrev pub next_credential :
      AuthenticationFinishOptions v → ParsedAuthenticatorData → CredentialRecord
  next_credential o parsed =
      let c = o.credential in
      record (clone_record c) {
        sign_count = next_sign_count o.counter_policy c.sign_count parsed.sign_count;
        backup_state = backup_state parsed.flags;
        uv_initialized =
            if not c.uv_initialized && user_verified parsed.flags && o.uv_initialization_authorized
            then true
            else c.uv_initialized;
        authenticator_attachment =
            next_attachment o.response.authenticator_attachment c.authenticator_attachment;
      }

  -- The update from the stored record to the next one.
  abbrev pub update_between : CredentialRecord → CredentialRecord → CredentialUpdate
  update_between c next = record {
    id = next.id;
    previous_sign_count = c.sign_count;
    previous_backup_state = c.backup_state;
    previous_uv_initialized = c.uv_initialized;
    previous_authenticator_attachment = c.authenticator_attachment;
    sign_count = next.sign_count;
    sign_count_changed = not (next.sign_count == c.sign_count);
    backup_state = next.backup_state;
    backup_state_changed = not (bool_eq next.backup_state c.backup_state);
    uv_initialized = next.uv_initialized;
    uv_initialized_changed = not (bool_eq next.uv_initialized c.uv_initialized);
    authenticator_attachment = next.authenticator_attachment;
    authenticator_attachment_changed =
        not (bytes_eq next.authenticator_attachment c.authenticator_attachment);
  }

  -- What `FinishAuthentication` returns once every check has passed.
  unfoldable pub authentication_result :
      AuthenticationFinishOptions v
      → ParsedAuthenticatorData
      → List v.Outcome
      → AuthenticationResult v
  authentication_result o parsed outcomes =
      let next = next_credential o parsed in
      let counter = compare_counters o.credential.sign_count parsed.sign_count in
      record {
        credential = next;
        authenticated_as = next.user_handle;
        counter = counter;
        update = update_between o.credential next;
        extensions = outcomes;
        warnings = authentication_warnings counter;
        user_present = user_present parsed.flags;
        user_verified = user_verified parsed.flags;
        uv_initialization_pending =
            not o.credential.uv_initialized
            && user_verified parsed.flags
            && not o.uv_initialization_authorized;
      }

  unfoldable pub refuses_clone_risk : AuthenticationFinishOptions v → ParsedAuthenticatorData → Bool
  refuses_clone_risk o parsed =
      (compare_counters o.credential.sign_count parsed.sign_count).clone_risk
      && o.counter_policy.reject_clone_risk

  abbrev pub authentication_inputs :
      AuthenticationFinishOptions v → ExtensionMap v → VerificationInputs v
  authentication_inputs o authenticator = record {
    operation = operation_authentication;
    selected_credential_id = o.credential.id;
    requested = o.state.requested_extensions;
    policy = record {
      reject_unrequested = o.extension_policy.reject_unrequested;
      reject_unknown = o.extension_policy.reject_unknown;
    };
    registry = o.extension_registry;
    client_results = o.response.client_extension_results;
    authenticator = authenticator;
    transform = attach_allowed_credentials v o.state.allow_credentials;
  }

  -- `verifyAuthenticationExtensions`.
  unfoldable pub verify_authentication_extensions :
      Context → AuthenticationFinishOptions v → ExtensionMap v → Result (List v.Outcome)
  verify_authentication_extensions ctx o authenticator = do
    verify_remote_client_data_binding v o.state.requested_extensions o.state.extension_bindings
        o.response.client_data_json
    verify_extensions v ctx (authentication_inputs o authenticator)

  module _ (g : Platform) where
    -- The checks before the client data: configuration, state, shape and bindings.
    unfoldable pub check_request : AuthenticationFinishOptions v → Result (Unit {0})
    check_request o = do
      validate_dependencies v o
      validate_authentication_state v g o.state o.now
      wrapped (sentinel invalid_configuration) (
          validate_finish_extension_bindings v o.state.requested_extensions
            o.state.extension_bindings o.extension_registry)
      validate_response_shape v o.response
      validate_client_extension_results v o.response.client_extension_results
      verify_credential_binding v o.state o.response o.credential
      verify_user_binding v o.state o.response o.credential

    unfoldable pub finish_authentication :
        Context → AuthenticationFinishOptions v → Result (AuthenticationResult v)
    unfolding check_request
    finish_authentication ctx o = do
      check_request o
      client_data_hash ←
          verify_client_data g o.response.client_data_json client_data_type_get o.state.challenge
            o.state.origin_policy
      parsed ← verify_authenticator_data v g o.state o.response o.credential o.extension_policy
      authenticator ← decode_extensions v o.extension_map_decoder parsed
      refuse_if (refuses_algorithm o.algorithm_policy o.credential.public_key.algorithm)
          (sentinel unsupported_algorithm)
      verify_signature v o.signature_verifier o.credential o.response client_data_hash
      refuse_if (refuses_clone_risk o parsed) (sentinel clone_risk)
      outcomes ← verify_authentication_extensions ctx o authenticator
      ok (authentication_result o parsed outcomes)
