-- ===== src/Authentication/Finish/Sound.antt =====
-- What a successful `FinishAuthentication` has verified.
use webauthn.Prelude.{◌≡◌, refl, arith, true, false, List, content}
use webauthn.Credential.{validate_record}
use webauthn.Errors.{ok, >>=-eq-ok}
use webauthn.Platform.{Platform}
use webauthn.Protocol.Types.{client_data_type_get}
use webauthn.Protocol.AuthData.{ParsedAuthenticatorData, user_present, user_verified}
use webauthn.Extension.{Values}
use webauthn.ExtensionCheck.{
  verify_remote_client_data_binding, ExtensionMap, validate_finish_extension_bindings,
  validate_client_extension_results,
}
use webauthn.ExtensionCheck.Outputs.{Context}
use webauthn.ExtensionCheck.Outputs.Complete.{IsComplete, verify_extensions-Answered}
use webauthn.Prelude.Int.{◌<ℤ◌}
use webauthn.Ceremony.ClientData.{IsGenuine, verify_client_data_sound}
use webauthn.Authentication.Counter.{compare_counters}
use webauthn.Authentication.Checks.Facts.{
  IsBound, verify_credential_binding-IsBound, IsOwned, verify_user_binding-IsOwned, IsTrusted,
  verify_authenticator_data-IsTrusted, IsSigned, verify_signature-IsSigned,
}
use webauthn.Authentication.{AuthenticationFinishOptions, AuthenticationResult, validate_state}
use webauthn.Authentication.Checks.{
  refuses_algorithm, validate_dependencies, validate_response_shape, decode_extensions,
}
use webauthn.Authentication.Finish.{
  authentication_inputs, authentication_result, refuses_clone_risk,
  verify_authentication_extensions, finish_authentication,
}
use webauthn.Authentication.Finish.Steps.{
  finish_authentication-Run, request_parts, dependencies_record,
  validate_authentication_state-valid, fresh_before,
}

module _ (v : Values) (g : Platform) (ctx : Context) (o : AuthenticationFinishOptions v) where
  -- The extensions: those of the request are bound to this registry, the client data are the
  -- requested remote ones, and the outcomes are those of all that was asked for or answered.
  pub record IsExtended (parsed : ParsedAuthenticatorData) (os : List v.Outcome) : Type 0 where
    pub bindings :
        validate_finish_extension_bindings v o.state.requested_extensions o.state.extension_bindings
          o.extension_registry
        ≡ ok tt
    pub results : validate_client_extension_results v o.response.client_extension_results ≡ ok tt
    pub authenticator : ExtensionMap v
    pub decoded : decode_extensions v o.extension_map_decoder parsed ≡ ok authenticator
    pub remote :
        verify_remote_client_data_binding v o.state.requested_extensions o.state.extension_bindings
          o.response.client_data_json
        ≡ ok tt
    pub complete : IsComplete v (authentication_inputs v o authenticator) ctx os

  extensions_parts :
      (authenticator : ExtensionMap v) {os : List v.Outcome}
      → verify_authentication_extensions v ctx o authenticator ≡ ok os
      → (verify_remote_client_data_binding v o.state.requested_extensions o.state.extension_bindings
            o.response.client_data_json
          ≡ ok tt)
        × IsComplete v (authentication_inputs v o authenticator) ctx os
  unfolding verify_authentication_extensions
  extensions_parts authenticator h =
      let (_, remote, h1) =
        >>=-eq-ok
          (verify_remote_client_data_binding v o.state.requested_extensions
            o.state.extension_bindings o.response.client_data_json)
          _ h in
      (remote, verify_extensions-Answered v (authentication_inputs v o authenticator) ctx h1)

  -- What WebAuthn asks a relying party to verify of an assertion.
  pub record Verified (r : AuthenticationResult v) : Type 0 where
    pub parsed : ParsedAuthenticatorData
    pub configured : validate_dependencies v o ≡ ok tt
    pub valid_record : validate_record o.credential ≡ ok tt
    pub fresh : o.now <ℤ o.state.expires_at
    pub valid_state : validate_state v g o.state ≡ ok tt
    pub shape : validate_response_shape v o.response ≡ ok tt
    pub bound : IsBound v o.state o.response o.credential
    pub owned : IsOwned v o.state o.response o.credential
    pub genuine :
        IsGenuine g o.response.client_data_json client_data_type_get o.state.challenge
          o.state.origin_policy
    pub trusted : IsTrusted v g o.state o.response o.credential o.extension_policy parsed
    pub algorithm : refuses_algorithm o.algorithm_policy o.credential.public_key.algorithm ≡ false
    pub signed :
        IsSigned v o.signature_verifier o.response o.credential
          (g.sha256 (content o.response.client_data_json))
    pub counter :
        o.counter_policy.reject_clone_risk ≡ true
        → (compare_counters o.credential.sign_count parsed.sign_count).clone_risk ≡ false
    pub extended : IsExtended parsed r.extensions
    pub reported :
        (r.user_present ≡ user_present parsed.flags)
        × (r.user_verified ≡ user_verified parsed.flags)
        × (r.authenticated_as ≡ o.credential.user_handle)

  refuses_clone_risk-false :
      (p : ParsedAuthenticatorData)
      → refuses_clone_risk v o p ≡ false
      → o.counter_policy.reject_clone_risk ≡ true
      → (compare_counters o.credential.sign_count p.sign_count).clone_risk ≡ false
  unfolding refuses_clone_risk
  refuses_clone_risk-false p h e = ground arith

  -- An assertion that is accepted has passed every check: the options have a verifier and no
  -- contradictory policy; the stored record is valid; the state is valid and has not expired; the
  -- response has its parts; the credential is bound to the RP, named by the response, allowed, and
  -- owned by the user; the client data are of type webauthn.get, carry the challenge and come from
  -- an accepted origin; the authenticator data parse, carry the RP id's or the trusted AppID's hash
  -- and the user presence, the user verification where it is required, and consistent backup flags;
  -- the algorithm policy does not refuse the key; the verifier accepted the signature over the
  -- authenticator data and the hash of the client data; there is no clone risk where the policy
  -- rejects it; the extension bindings and client results pass, the authenticator's extensions
  -- decode, remote client data are those that were asked for, and every extension that was asked
  -- for or answered is verified, with the outcomes of the result. The result reports the parsed
  -- flags and the credential's user.
  pub finish_authentication_sound :
      {r : AuthenticationResult v} → finish_authentication v g ctx o ≡ ok r → Verified r
  unfolding authentication_result
  finish_authentication_sound {r} h =
      let run = finish_authentication-Run v g ctx o h in
      let parts = request_parts v g ctx o run.request in
      let (genuine, hash_eq) =
        verify_client_data_sound g o.response.client_data_json client_data_type_get
          o.state.challenge o.state.origin_policy run.client_data in
      record {
        parsed = run.parsed;
        configured = parts.configured;
        valid_record = dependencies_record v g ctx o parts.configured;
        fresh = fresh_before v g ctx o parts.fresh;
        shape = parts.shape;
        valid_state = validate_authentication_state-valid v g ctx o parts.fresh;
        bound = verify_credential_binding-IsBound v o.state o.response o.credential parts.binding;
        owned = verify_user_binding-IsOwned v o.state o.response o.credential parts.user;
        genuine = genuine;
        trusted =
            verify_authenticator_data-IsTrusted v g o.state o.response o.credential
              o.extension_policy run.parsed run.auth_data;
        algorithm = run.algorithm;
        signed =
            verify_signature-IsSigned v o.signature_verifier o.response o.credential _
              (rw hash_eq at run.signature);
        counter = refuses_clone_risk-false run.parsed run.no_clone;
        extended = rw run.result (record {
          bindings = parts.bindings;
          results = parts.results;
          authenticator = run.authenticator;
          decoded = run.decoded;
          remote = (extensions_parts run.authenticator run.extensions).0;
          complete = (extensions_parts run.authenticator run.extensions).1;
        });
        reported = rw run.result (refl, refl, refl);
      }
