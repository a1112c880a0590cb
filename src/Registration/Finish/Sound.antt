-- ===== src/Registration/Finish/Sound.antt =====
-- What a successful `FinishRegistration` has verified.
use webauthn.Prelude.{◌≡◌, ◌⊎◌, refl, true, some, List, content, drop, length}
use webauthn.Prelude.Int.{pos}
use webauthn.Errors.{ok, >>=-eq-ok}
use webauthn.ExtensionCheck.{ExtensionMap, verify_remote_client_data_binding}
use webauthn.Platform.{Platform}
use webauthn.Protocol.Types.{client_data_type_create}
use webauthn.Ceremony.ClientData.{IsGenuine, verify_client_data_sound}
use webauthn.Extension.{Values}
use webauthn.ExtensionCheck.Outputs.{Context}
use webauthn.ExtensionCheck.Outputs.Complete.{IsComplete, verify_extensions-Answered}
use webauthn.Registration.Checks.Trailing.{IsBehindKey}
use webauthn.Registration.{RegistrationFinishOptions, RegistrationResult, DecodedAttestationObject}
use webauthn.Registration.Checks.Facts.{
  IsAttested, verify_registration_attestation_sound, IsAuthentic, registration_data-IsAuthentic,
  IsKeyOf,
}
use webauthn.Registration.Finish.{
  verify_registration_extensions, registration_inputs, allows, Evidence, new_credential,
  finish_registration,
}
use webauthn.Registration.Finish.Steps.{
  attestation_inputs, finish_registration-Run, registration_request-IsRequested, IsRequested,
  check_algorithm-named, verify_evidence-IsEvidence, IsDecoded, decode_object-IsDecoded,
  allows-algorithm,
}

module _ (v : Values) (S E : Type 0) (g : Platform) (o : RegistrationFinishOptions v S E) where
  -- The extensions: the decoded ones stand behind the key, the client data are the requested remote
  -- ones, and the outcomes are those of all that was asked for or answered.
  pub record IsExtended (ctx : Context) (e : Evidence v S E) (os : List v.Outcome) : Type 0 where
    pub trailing :
        IsBehindKey v o.extension_map_decoder e.parsed
          (drop (length e.key.raw) e.attested.credential_public_key_and_extensions)
          e.authenticator
    pub remote :
        verify_remote_client_data_binding v o.state.requested_extensions o.state.extension_bindings
          o.response.client_data_json
        ≡ ok tt
    pub complete : IsComplete v (registration_inputs v S E g o e.authenticator) ctx os

  extensions_parts :
      (ctx : Context) (authenticator : ExtensionMap v) {os : List v.Outcome}
      → verify_registration_extensions v S E g ctx o authenticator ≡ ok os
      → (verify_remote_client_data_binding v o.state.requested_extensions o.state.extension_bindings
            o.response.client_data_json
          ≡ ok tt)
        × IsComplete v (registration_inputs v S E g o authenticator) ctx os
  unfolding verify_registration_extensions
  extensions_parts ctx authenticator h =
      let (_, remote, h1) =
        >>=-eq-ok
          (verify_remote_client_data_binding v o.state.requested_extensions
            o.state.extension_bindings o.response.client_data_json)
          _ h in
      (remote, verify_extensions-Answered v (registration_inputs v S E g o authenticator) ctx h1)

  -- What WebAuthn asks a relying party to verify of a registration.
  pub record Registered (ctx : Context) (r : RegistrationResult v E) : Type 0 where
    pub evidence : Evidence v S E
    pub decoded : DecodedAttestationObject S
    pub requested : IsRequested v S E g o
    pub genuine :
        IsGenuine g o.response.client_data_json client_data_type_create o.state.challenge
          o.state.origin_policy
    pub object : IsDecoded v S E g o decoded
    pub authentic : IsAuthentic v g o.state decoded.authenticator_data evidence.parsed
    pub attested : evidence.parsed.attested ≡ some evidence.attested
    pub id : content evidence.attested.credential_id ≡ content o.response.raw_id
    pub key :
        IsKeyOf v o.credential_public_key_decoder
          evidence.attested.credential_public_key_and_extensions evidence.key
    pub algorithm : allows o.state.allowed_algorithms evidence.key.algorithm ≡ true
    pub named_algorithm :
        (o.response.public_key_algorithm ≡ pos 0)
        ⊎ (o.response.public_key_algorithm ≡ evidence.key.algorithm)
    pub extended : IsExtended ctx evidence r.extensions
    pub trusted :
        IsAttested S E o.attestation_trust_policy o.attestation_registry
          (attestation_inputs v S E g o decoded evidence
            (g.sha256 (content o.response.client_data_json)))
          r.attestation
          r.attestation_trust
    pub stored : r.credential ≡ new_credential v S E o evidence r.attestation

  -- A registration that is accepted has passed every check: the options have their decoders and a
  -- registry; the state is valid and has not expired; the response has its parts; the client data
  -- are of type webauthn.create, carry the challenge and come from an accepted origin; the
  -- attestation object decodes to one that spells the response's; its authenticator data parse,
  -- carry the RP id's hash, the user presence unless the mediation is conditional, the user
  -- verification where it is required, consistent backup flags, and a credential with the
  -- response's id; its key was decoded from that credential's bytes, which it begins, is valid, of
  -- an allowed algorithm, and of the one that the response names, if it names one; behind the key
  -- stand extensions that decode if the ED flag is set, and nothing otherwise; the registered
  -- verifier of the format accepted the statement over the hash of the client data, and the relying
  -- party's policy accepted the evidence; the extension bindings and client results pass, remote
  -- client data are those that were asked for, and every extension that was asked for or answered
  -- is verified, with the outcomes of the result. The credential of the result is made of these
  -- values.
  pub finish_registration_sound :
      (ctx : Context) {r : RegistrationResult v E}
      → finish_registration v S E g ctx o ≡ ok r
      → Registered ctx r
  finish_registration_sound ctx {r} h =
      let run = finish_registration-Run v S E g o ctx h in
      let requested = registration_request-IsRequested v S E g o run.request in
      let (genuine, hash_eq) =
        verify_client_data_sound g o.response.client_data_json client_data_type_create
          o.state.challenge o.state.origin_policy run.client_data in
      let ev = verify_evidence-IsEvidence v S E g o run.decoded run.found in
      let trusted =
        verify_registration_attestation_sound S E o.attestation_trust_policy o.attestation_registry
          (attestation_inputs v S E g o run.decoded run.evidence
            (g.sha256 (content o.response.client_data_json)))
          (rw hash_eq at run.attested) in
      record {
        evidence = run.evidence;
        decoded = run.decoded;
        requested = requested;
        genuine = genuine;
        object = decode_object-IsDecoded v S E g o run.decoded run.object;
        authentic =
            registration_data-IsAuthentic v g o.state run.decoded.authenticator_data
              run.evidence.parsed ev.auth_data;
        attested = ev.attested;
        id = ev.id;
        key = ev.key;
        algorithm = allows-algorithm v S E g o run.evidence.key ev.algorithm;
        named_algorithm = check_algorithm-named v S E g o run.evidence.key ev.algorithm;
        extended = rw run.returned (record {
          trailing = ev.trailing;
          remote = (extensions_parts ctx run.evidence.authenticator run.extensions).0;
          complete = (extensions_parts ctx run.evidence.authenticator run.extensions).1;
        });
        trusted = rw run.returned trusted;
        stored = rw run.returned refl;
      }
