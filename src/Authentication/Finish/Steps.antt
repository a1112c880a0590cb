-- ===== src/Authentication/Finish/Steps.antt =====
-- The steps of a successful `FinishAuthentication`, and what those before the client data checked.
use webauthn.Prelude.{◌≡◌, arith, false, List, Bytes}
use webauthn.Credential.{validate_record}
use webauthn.Errors.{wrapped-eq-ok, ok, >>=-eq-ok, refuse_if, refuse_if-eq-ok, wrapped}
use webauthn.Platform.{Platform}
use webauthn.Protocol.Types.{client_data_type_get}
use webauthn.Protocol.AuthData.{ParsedAuthenticatorData}
use webauthn.Ceremony.{verify_client_data}
use webauthn.Extension.{Values}
use webauthn.ExtensionCheck.{
  ExtensionMap, validate_finish_extension_bindings, validate_client_extension_results,
}
use webauthn.ExtensionCheck.Outputs.{Context}
use webauthn.Prelude.Int.{pos, eq_ℤ, ◌<ℤ◌}
use webauthn.Authentication.{
  AuthenticationFinishOptions, AuthenticationResult, validate_state, validate_authentication_state,
}
use webauthn.Authentication.Checks.{
  refuses_algorithm, validate_dependencies, validate_response_shape, verify_credential_binding,
  verify_user_binding, verify_authenticator_data, decode_extensions, verify_signature,
}
use webauthn.Authentication.Finish.{
  authentication_result, refuses_clone_risk, verify_authentication_extensions, check_request,
  finish_authentication,
}

module _ (v : Values) (g : Platform) (ctx : Context) (o : AuthenticationFinishOptions v) where
  -- The values that the steps of a successful run hand on, with what each step returned.
  pub record Run (r : AuthenticationResult v) : Type 0 where
    pub hash : Bytes
    pub parsed : ParsedAuthenticatorData
    pub authenticator : ExtensionMap v
    pub outcomes : List v.Outcome
    pub request : check_request v g o ≡ ok tt
    pub client_data :
        verify_client_data g o.response.client_data_json client_data_type_get o.state.challenge
          o.state.origin_policy
        ≡ ok hash
    pub auth_data :
        verify_authenticator_data v g o.state o.response o.credential o.extension_policy ≡ ok parsed
    pub decoded : decode_extensions v o.extension_map_decoder parsed ≡ ok authenticator
    pub algorithm : refuses_algorithm o.algorithm_policy o.credential.public_key.algorithm ≡ false
    pub signature : verify_signature v o.signature_verifier o.credential o.response hash ≡ ok tt
    pub no_clone : refuses_clone_risk v o parsed ≡ false
    pub extensions : verify_authentication_extensions v ctx o authenticator ≡ ok outcomes
    pub result : r ≡ authentication_result v o parsed outcomes

  pub finish_authentication-Run :
      {r : AuthenticationResult v} → finish_authentication v g ctx o ≡ ok r → Run r
  unfolding finish_authentication
  finish_authentication-Run h =
      let (_, request, h1) = >>=-eq-ok (check_request v g o) _ h in
      let (hash, client_data, h2) =
        >>=-eq-ok
          (verify_client_data g o.response.client_data_json client_data_type_get o.state.challenge
            o.state.origin_policy)
          _ h1 in
      let (parsed, auth_data, h3) =
        >>=-eq-ok (verify_authenticator_data v g o.state o.response o.credential o.extension_policy)
          _ h2 in
      let (authenticator, decoded, h4) =
        >>=-eq-ok (decode_extensions v o.extension_map_decoder parsed) _ h3 in
      let (_, algorithm, h5) =
        >>=-eq-ok
          (refuse_if (refuses_algorithm o.algorithm_policy o.credential.public_key.algorithm) _) _
          h4 in
      let (_, signature, h6) =
        >>=-eq-ok (verify_signature v o.signature_verifier o.credential o.response hash) _ h5 in
      let (_, no_clone, h7) = >>=-eq-ok (refuse_if (refuses_clone_risk v o parsed) _) _ h6 in
      let (outcomes, extensions, h8) =
        >>=-eq-ok (verify_authentication_extensions v ctx o authenticator) _ h7 in
      record {
        hash = hash;
        parsed = parsed;
        authenticator = authenticator;
        outcomes = outcomes;
        request = request;
        client_data = client_data;
        auth_data = auth_data;
        decoded = decoded;
        algorithm = refuse_if-eq-ok _ _ algorithm;
        signature = signature;
        no_clone = refuse_if-eq-ok _ _ no_clone;
        extensions = extensions;
        result = ground arith;
      }

  -- The parts of the checks before the client data.
  pub record RequestParts : Type 0 where
    pub configured : validate_dependencies v o ≡ ok tt
    pub fresh : validate_authentication_state v g o.state o.now ≡ ok tt
    pub bindings :
        validate_finish_extension_bindings v o.state.requested_extensions o.state.extension_bindings
          o.extension_registry
        ≡ ok tt
    pub shape : validate_response_shape v o.response ≡ ok tt
    pub results : validate_client_extension_results v o.response.client_extension_results ≡ ok tt
    pub binding : verify_credential_binding v o.state o.response o.credential ≡ ok tt
    pub user : verify_user_binding v o.state o.response o.credential ≡ ok tt

  pub request_parts : check_request v g o ≡ ok tt → RequestParts
  unfolding check_request
  request_parts h =
      let (_, e1, h1) = >>=-eq-ok (validate_dependencies v o) _ h in
      let (_, e2, h2) = >>=-eq-ok (validate_authentication_state v g o.state o.now) _ h1 in
      let bindings =
        validate_finish_extension_bindings v o.state.requested_extensions o.state.extension_bindings
          o.extension_registry in
      let (_, e3, h3) = >>=-eq-ok (wrapped _ bindings) _ h2 in
      let (_, e4, h4) = >>=-eq-ok (validate_response_shape v o.response) _ h3 in
      let (_, e5, h5) =
        >>=-eq-ok (validate_client_extension_results v o.response.client_extension_results) _ h4 in
      let (_, e6, h6) =
        >>=-eq-ok (verify_credential_binding v o.state o.response o.credential) _ h5 in
      record {
        configured = e1;
        fresh = e2;
        bindings = wrapped-eq-ok _ bindings e3;
        shape = e4;
        results = e5;
        binding = e6;
        user = h6;
      }

  pub dependencies_record : validate_dependencies v o ≡ ok tt → validate_record o.credential ≡ ok tt
  unfolding validate_dependencies
  dependencies_record h = ground (arith, h)

  validate_state-expiry :
      validate_state v g o.state ≡ ok tt → eq_ℤ o.state.expires_at (pos 0) ≡ false
  unfolding validate_state
  validate_state-expiry h = ground arith

  pub validate_authentication_state-valid :
      validate_authentication_state v g o.state o.now ≡ ok tt → validate_state v g o.state ≡ ok tt
  unfolding validate_authentication_state
  validate_authentication_state-valid h = ground arith

  -- A state that passes has not expired.
  pub fresh_before :
      validate_authentication_state v g o.state o.now ≡ ok tt → o.now <ℤ o.state.expires_at
  unfolding validate_authentication_state
  fresh_before h = ground (arith, validate_state-expiry (validate_authentication_state-valid h))
