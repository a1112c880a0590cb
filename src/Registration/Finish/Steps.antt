-- ===== src/Registration/Finish/Steps.antt =====
-- The steps of a successful `FinishRegistration`, and what each has checked.
use webauthn.Prelude.{
  ◌≡◌, arith, true, false, not, Option, none, some, List, Bytes, content, bytes_eq_iff, sym,
  Option-cases, Bool-cases, ◌⊎◌, inl, inr, drop, length,
}
use webauthn.Prelude.Int.{pos, eq_ℤ, eq_ℤ_iff, ◌<ℤ◌}
use webauthn.Errors.{
  wrapped-eq-ok, Result, ok, >>=-eq-ok, refuse_if, wrapped, sentinel, malformed_response,
}
use webauthn.Platform.{Platform}
use webauthn.Protocol.Bytes.{equal, is_nil, AttestationObject}
use webauthn.Protocol.Types.{client_data_type_create}
use webauthn.Protocol.AuthData.{AttestedCredentialData}
use webauthn.Codec.Key.{CredentialPublicKey}
use webauthn.Attestation.Registry.{VerificationResult, TrustResult}
use webauthn.Ceremony.{verify_client_data}
use webauthn.Extension.{Values}
use webauthn.ExtensionCheck.{validate_finish_extension_bindings, validate_client_extension_results}
use webauthn.ExtensionCheck.Outputs.{Context}
use webauthn.Registration.{
  RegistrationFinishOptions, RegistrationResult, DecodedAttestationObject, validate_registration,
  validate_registration_state,
}
use webauthn.Registration.Checks.{
  AttestationInputs, validate_finish_dependencies, validate_registration_response_shape,
  verify_registration_authenticator_data, required_attested, decode_key_and_extensions,
  verify_registration_attestation,
}
use webauthn.Registration.Checks.Trailing.{IsBehindKey, decode_key-IsBehindKey}
use webauthn.Registration.Checks.Facts.{IsKeyOf, decode_key-IsKeyOf}
use webauthn.Registration.Finish.{
  allows, Evidence, registration_result, decode_attestation_object, check_algorithm,
  verify_evidence, check_registration_request, verify_registration_extensions, finish_registration,
}

module _ (v : Values) (S E : Type 0) (g : Platform) (o : RegistrationFinishOptions v S E) where
  abbrev pub attestation_inputs :
      DecodedAttestationObject S → Evidence v S E → Bytes → AttestationInputs S
  attestation_inputs decoded e hash = record {
    decoded = decoded;
    credential_public_key = e.key;
    client_data_hash = hash;
    aaguid = e.attested.aaguid;
    conveyance = o.state.attestation;
  }

  -- The values that the steps of a successful run hand on, with what each step returned.
  pub record Run (ctx : Context) (r : RegistrationResult v E) : Type 0 where
    pub hash : Bytes
    pub decoded : DecodedAttestationObject S
    pub evidence : Evidence v S E
    pub result : VerificationResult E
    pub trust : TrustResult
    pub outcomes : List v.Outcome
    pub request : check_registration_request v S E g o ≡ ok tt
    pub client_data :
        verify_client_data g o.response.client_data_json client_data_type_create o.state.challenge
          o.state.origin_policy
        ≡ ok hash
    pub object : decode_attestation_object v S E o ≡ ok decoded
    pub found : verify_evidence v S E g o decoded ≡ ok evidence
    pub attested :
        verify_registration_attestation S E o.attestation_trust_policy o.attestation_registry
          (attestation_inputs decoded evidence hash)
        ≡ ok (result, trust)
    pub extensions :
        verify_registration_extensions v S E g ctx o evidence.authenticator ≡ ok outcomes
    pub returned : r ≡ registration_result v S E o evidence result trust outcomes

  pub finish_registration-Run :
      (ctx : Context) {r : RegistrationResult v E}
      → finish_registration v S E g ctx o ≡ ok r
      → Run ctx r
  unfolding finish_registration
  finish_registration-Run ctx h =
      let (_, request, h1) = >>=-eq-ok (check_registration_request v S E g o) _ h in
      let (hash, client_data, h2) =
        >>=-eq-ok
          (verify_client_data g o.response.client_data_json client_data_type_create
            o.state.challenge o.state.origin_policy)
          _ h1 in
      let (decoded, object, h3) = >>=-eq-ok (decode_attestation_object v S E o) _ h2 in
      let (e, found, h4) = >>=-eq-ok (verify_evidence v S E g o decoded) _ h3 in
      let ((result, trust), attested, h5) =
        >>=-eq-ok
          (verify_registration_attestation S E o.attestation_trust_policy o.attestation_registry
            (attestation_inputs decoded e hash))
          _ h4 in
      let (outcomes, extensions, h6) =
        >>=-eq-ok (verify_registration_extensions v S E g ctx o e.authenticator) _ h5 in
      record {
        hash = hash;
        decoded = decoded;
        evidence = e;
        result = result;
        trust = trust;
        outcomes = outcomes;
        request = request;
        client_data = client_data;
        object = object;
        found = found;
        attested = attested;
        extensions = extensions;
        returned = ground (arith, h6);
      }

  -- The parts of the evidence, with what the code checked on each.
  pub record IsEvidence (decoded : DecodedAttestationObject S) (e : Evidence v S E) : Type 0 where
    pub auth_data :
        verify_registration_authenticator_data v g o.state decoded.authenticator_data ≡ ok e.parsed
    pub attested : e.parsed.attested ≡ some e.attested
    pub id : content e.attested.credential_id ≡ content o.response.raw_id
    pub key :
        IsKeyOf v o.credential_public_key_decoder e.attested.credential_public_key_and_extensions
          e.key
    pub trailing :
        IsBehindKey v o.extension_map_decoder e.parsed
          (drop (length e.key.raw) e.attested.credential_public_key_and_extensions)
          e.authenticator
    pub algorithm : check_algorithm v S E o e.key ≡ ok tt

  required_attested-some :
      (a : Option AttestedCredentialData) {b : AttestedCredentialData}
      → required_attested v a ≡ ok b
      → a ≡ some b
  required_attested-some none h = absurd cc
  required_attested-some (some a) h = ground (arith, h)

  pub verify_evidence-IsEvidence :
      (decoded : DecodedAttestationObject S) {e : Evidence v S E}
      → verify_evidence v S E g o decoded ≡ ok e
      → IsEvidence decoded e
  unfolding verify_evidence
  verify_evidence-IsEvidence decoded {e} h =
      let (parsed, auth_data, h1) =
        >>=-eq-ok (verify_registration_authenticator_data v g o.state decoded.authenticator_data) _
          h in
      let (a, attested, h2) = >>=-eq-ok (required_attested v parsed.attested) _ h1 in
      let (_, id, h3) =
        >>=-eq-ok
          (refuse_if (not (equal a.credential_id o.response.raw_id)) (sentinel malformed_response))
          _ h2 in
      let ((key, authenticator), decodes, h4) =
        >>=-eq-ok
          (decode_key_and_extensions v o.credential_public_key_decoder o.extension_map_decoder
            parsed a)
          _ h3 in
      let (_, algorithm, h5) = >>=-eq-ok (check_algorithm v S E o key) _ h4 in
      let e_eq : record { parsed = parsed; attested = a; key = key; authenticator = authenticator }
          ≡ e =
        ground (arith, h5) in
      rw (sym e_eq) (record {
        auth_data = auth_data;
        attested = required_attested-some parsed.attested attested;
        id = ground (arith, id, bytes_eq_iff (content a.credential_id) (content o.response.raw_id));
        key =
            decode_key-IsKeyOf v o.credential_public_key_decoder o.extension_map_decoder parsed a
              decodes;
        trailing =
            decode_key-IsBehindKey v o.credential_public_key_decoder o.extension_map_decoder parsed
              a decodes;
        algorithm = algorithm;
      })

  -- The decoder's object: it spells the response's, and so does its authenticator data where the
  -- response has it.
  pub record IsDecoded (d : DecodedAttestationObject S) : Type 0 where
    pub decode : AttestationObject → Result (DecodedAttestationObject S)
    pub decoder_eq : o.attestation_object_decoder ≡ some decode
    pub decoded : decode o.response.attestation_object ≡ ok d
    pub raw : content d.raw ≡ content o.response.attestation_object
    pub auth_data :
        is_nil o.response.authenticator_data ≡ false
        → content o.response.authenticator_data ≡ content d.authenticator_data

  pub decode_object-IsDecoded :
      (d : DecodedAttestationObject S) → decode_attestation_object v S E o ≡ ok d → IsDecoded d
  unfolding decode_attestation_object
  decode_object-IsDecoded d h = elim (Option-cases o.attestation_object_decoder) [
    | inl e ↦ absurd (ground (arith, e))
    | inr (decode, e) ↦ record {
      decode = decode;
      decoder_eq = e;
      decoded = ground (arith, e);
      raw = ground (arith, e, bytes_eq_iff (content d.raw) (content o.response.attestation_object));
      auth_data = λ given. ground (
        arith,
        e,
        given,
        bytes_eq_iff (content o.response.authenticator_data) (content d.authenticator_data),
      );
    }
  ]

  registration_state-valid :
      validate_registration_state v g o.state o.now ≡ ok tt
      → validate_registration v g o.state ≡ ok tt
  unfolding validate_registration_state
  registration_state-valid h = ground arith

  registration_state-expiry :
      validate_registration v g o.state ≡ ok tt → eq_ℤ o.state.expires_at (pos 0) ≡ false
  unfolding validate_registration
  registration_state-expiry h = ground arith

  registration_state-before :
      validate_registration_state v g o.state o.now ≡ ok tt → o.now <ℤ o.state.expires_at
  unfolding validate_registration_state
  registration_state-before h =
      ground (arith, registration_state-expiry (registration_state-valid h))

  -- What the checks before the client data found.
  pub record IsRequested : Type 0 where
    pub configured : validate_finish_dependencies v o ≡ ok tt
    pub fresh : o.now <ℤ o.state.expires_at
    pub valid_state : validate_registration v g o.state ≡ ok tt
    pub bindings :
        validate_finish_extension_bindings v o.state.requested_extensions o.state.extension_bindings
          o.extension_registry
        ≡ ok tt
    pub shape : validate_registration_response_shape v o.response ≡ ok tt
    pub results : validate_client_extension_results v o.response.client_extension_results ≡ ok tt

  pub registration_request-IsRequested : check_registration_request v S E g o ≡ ok tt → IsRequested
  unfolding check_registration_request
  registration_request-IsRequested h =
      let (_, configured, h1) = >>=-eq-ok (validate_finish_dependencies v o) _ h in
      let (_, state, h2) = >>=-eq-ok (validate_registration_state v g o.state o.now) _ h1 in
      let check =
        validate_finish_extension_bindings v o.state.requested_extensions o.state.extension_bindings
          o.extension_registry in
      let (_, bindings, h3) = >>=-eq-ok (wrapped _ check) _ h2 in
      let (_, shape, h4) = >>=-eq-ok (validate_registration_response_shape v o.response) _ h3 in
      record {
        configured = configured;
        fresh = registration_state-before state;
        valid_state = registration_state-valid state;
        bindings = wrapped-eq-ok _ check bindings;
        shape = shape;
        results = h4;
      }

  -- The algorithm that the response names, where it names one, is that of the key.
  pub check_algorithm-named :
      (key : CredentialPublicKey)
      → check_algorithm v S E o key ≡ ok tt
      → (o.response.public_key_algorithm ≡ pos 0)
        ⊎ (o.response.public_key_algorithm ≡ key.algorithm)
  unfolding check_algorithm
  check_algorithm-named key h = elim (Bool-cases (eq_ℤ o.response.public_key_algorithm (pos 0))) [
    | inl e ↦ inl ((eq_ℤ_iff o.response.public_key_algorithm (pos 0)).0 e)
    | inr ne ↦
        inr ((eq_ℤ_iff o.response.public_key_algorithm key.algorithm).0 (ground (arith, ne, h)))
  ]

  pub allows-algorithm :
      (key : CredentialPublicKey)
      → check_algorithm v S E o key ≡ ok tt
      → allows o.state.allowed_algorithms key.algorithm ≡ true
  unfolding check_algorithm
  allows-algorithm key h = ground arith
