-- ===== src/Registration/Finish/Record.antt =====
-- The credential record that `FinishRegistration` returns.
use webauthn.Prelude.{
  ◌≡◌, refl, arith, false, not, ◌&&◌, none, some, Bytes, content, drop, is_empty, ◌==◌, inl, inr,
}
use webauthn.Errors.{ok, Result-cases}
use webauthn.Platform.{Platform}
use webauthn.Protocol.Bytes.{len, new_credential_id, CredentialId, AuthenticatorData}
use webauthn.Protocol.Types.{known_authenticator_attachment, validate_credential_type}
use webauthn.Protocol.AuthData.{
  ParsedAuthenticatorData, AttestedCredentialData, parse_attested_credential_data, parse_rest,
  header_of, parse_authenticator_data,
}
use webauthn.Credential.{validate_record}
use webauthn.Ceremony.{normalize_authenticator_attachment}
use webauthn.Extension.{Values}
use webauthn.ExtensionCheck.Outputs.{Context}
use webauthn.Registration.{RegistrationFinishOptions, RegistrationResult, validate_registration}
use webauthn.Registration.Checks.{validate_registration_response_shape}
use webauthn.Registration.Finish.{finish_registration}
use webauthn.Registration.Finish.Steps.{finish_registration-Run}
use webauthn.Registration.Finish.Sound.{finish_registration_sound}

new_credential_id-pos :
    (b : CredentialId) {id : CredentialId} → new_credential_id b ≡ ok id → (len id == 0) ≡ false
unfolding new_credential_id
new_credential_id-pos b h = ground arith

attested_id-pos :
    (d : Bytes) {a : AttestedCredentialData}
    → parse_attested_credential_data d ≡ ok a
    → (len a.credential_id == 0) ≡ false
unfolding parse_attested_credential_data new_credential_id
attested_id-pos d h = ground arith

rest_id-pos :
    (p : ParsedAuthenticatorData) (rest : Bytes) {q : ParsedAuthenticatorData}
    {a : AttestedCredentialData}
    → p.attested ≡ none
    → parse_rest p rest ≡ ok q
    → q.attested ≡ some a
    → (len a.credential_id == 0) ≡ false
unfolding parse_rest
rest_id-pos p rest fresh h e = elim (Result-cases (parse_attested_credential_data rest)) [
  | inl (b, parsed) ↦ ground (arith, parsed, attested_id-pos rest parsed)
  | inr (x, failed) ↦ absurd (ground (arith, failed))
]

-- A credential id that the parser reports is not empty.
parsed_id-pos :
    (raw : AuthenticatorData) {p : ParsedAuthenticatorData} {a : AttestedCredentialData}
    → parse_authenticator_data raw ≡ ok p
    → p.attested ≡ some a
    → (len a.credential_id == 0) ≡ false
unfolding parse_authenticator_data
parsed_id-pos raw {p} h e =
    let rest : parse_rest (header_of raw) (drop 37 (content raw)) ≡ ok p = ground arith in
    rest_id-pos (header_of raw) (drop 37 (content raw)) refl rest e

normalized-known :
    (reported : Bytes)
    → (not (is_empty (normalize_authenticator_attachment reported))
        && not (known_authenticator_attachment (normalize_authenticator_attachment reported)))
      ≡ false
unfolding normalize_authenticator_attachment
normalized-known reported = ground arith

module _ (v : Values) (S E : Type 0) (g : Platform) (o : RegistrationFinishOptions v S E) where
  shape-kind :
      validate_registration_response_shape v o.response ≡ ok tt
      → validate_credential_type o.response.kind ≡ ok tt
  unfolding validate_registration_response_shape
  shape-kind h = ground arith

  state-names :
      validate_registration v g o.state ≡ ok tt
      → ((len o.state.user_handle == 0) ≡ false) × (is_empty o.state.rp_id ≡ false)
  unfolding validate_registration
  state-names h = (ground arith, ground arith)

  -- The record that an accepted registration returns is valid, as authentication asks of it, and
  -- belongs to the user and the RP id of the state.
  pub finish_registration-validate_record :
      (ctx : Context) {r : RegistrationResult v E}
      → finish_registration v S E g ctx o ≡ ok r
      → (validate_record r.credential ≡ ok tt)
        × (r.credential.user_handle ≡ o.state.user_handle)
        × (r.credential.rp_id ≡ o.state.rp_id)
  unfolding validate_record
  finish_registration-validate_record ctx {r} h =
      let reg = finish_registration_sound v S E g o ctx h in
      let run = finish_registration-Run v S E g o ctx h in
      let shape = reg.requested.shape in
      let kind = shape-kind shape in
      let (user, rp) = state-names reg.requested.valid_state in
      let id = parsed_id-pos reg.decoded.authenticator_data reg.authentic.parses reg.attested in
      rw reg.stored (
        ground (
          arith,
          kind,
          user,
          rp,
          id,
          reg.key.valid,
          reg.authentic.backup,
          reg.trusted.acceptable,
          normalized-known o.response.authenticator_attachment,
        ),
        refl,
        refl,
      )
