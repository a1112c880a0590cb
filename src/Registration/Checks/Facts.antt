-- ===== src/Registration/Checks/Facts.antt =====
-- What each check of `FinishRegistration` means when it passes.
use webauthn.Prelude.{
  ◌≡◌, sym, refl, arith, true, false, not, Option, none, some, ◌++◌, Bytes, bytes_eq_iff, length,
  take, drop, take-append-drop, ◌∙◌, ap,
}
use webauthn.Errors.{
  Error, Result, ok, >>=-eq-ok, wrapped-eq-ok, wrapped, refuse_if, sentinel, invalid_attestation,
  malformed_response, invalid_configuration,
}
use webauthn.Platform.{Platform}
use webauthn.Protocol.Bytes.{AuthenticatorData}
use webauthn.Protocol.Types.{user_verification_required}
use webauthn.Protocol.Identifier.{valid_identifier}
use webauthn.Protocol.AuthData.{
  ParsedAuthenticatorData, AttestedCredentialData, parse_authenticator_data, user_present,
  user_verified, backup_eligible, backup_state,
}
use webauthn.Codec.Key.{CredentialPublicKey, validate_key}
use webauthn.Attestation.Registry.{
  VerificationResult, TrustResult, TrustPolicy, Verifier, Registry, lookup_verifier,
}
use webauthn.Extension.{Values}
use webauthn.ExtensionCheck.{ExtensionMap}
use webauthn.Registration.{RegistrationState}
use webauthn.Registration.Checks.{
  AttestationInputs, is_acceptable, verification_request, trust_request, evaluate_trust,
  verify_statement, verify_registration_attestation, check_registration_data,
  verify_registration_authenticator_data, decode_with, is_key_prefix, decode_trailing_extensions,
  decode_key_and_extensions,
}

module _ (S E : Type 0) where
  -- The verifier of the format accepted the statement, and the relying party accepted the evidence.
  pub record IsAttested (policy : Option (TrustPolicy S E)) (registry : Option (Registry S E))
      (i : AttestationInputs S) (result : VerificationResult E) (trust : TrustResult) : Type 0 where
    pub format : valid_identifier i.decoded.format ≡ true
    pub verifier : Verifier S E
    pub found : lookup_verifier S E registry i.decoded.format ≡ some verifier
    pub verified : verifier.verify_attestation (verification_request S E i) ≡ ok result
    pub acceptable : is_acceptable S E result ≡ true
    pub decide : TrustPolicy S E
    pub policy_eq : policy ≡ some decide
    pub decided : decide (trust_request S E i result) ≡ ok trust
    pub accepted : trust.accepted ≡ true

  evaluate_trust-accepts :
      (policy : Option (TrustPolicy S E)) (i : AttestationInputs S) (result : VerificationResult E)
      {trust : TrustResult}
      → evaluate_trust S E policy (trust_request S E i result) ≡ ok trust
      → (decide : TrustPolicy S E) × (policy ≡ some decide)
        × (decide (trust_request S E i result) ≡ ok trust)
        × (trust.accepted ≡ true)
  unfolding evaluate_trust
  evaluate_trust-accepts none i result h = absurd (ground arith)
  evaluate_trust-accepts (some decide) i result h = (decide, refl, ground arith, ground arith)

  verify_statement-accepts :
      (verifier : Option (Verifier S E)) (i : AttestationInputs S) {result : VerificationResult E}
      → verify_statement S E verifier (verification_request S E i) ≡ ok result
      → (x : Verifier S E) × (verifier ≡ some x)
        × (x.verify_attestation (verification_request S E i) ≡ ok result)
        × (is_acceptable S E result ≡ true)
  unfolding verify_statement
  verify_statement-accepts none i h = absurd (ground arith)
  verify_statement-accepts (some x) i h = (x, refl, ground arith, ground arith)

  -- An attestation that passes was checked by the registered verifier of its format, which found it
  -- valid with a known type and kind of trust path, and was accepted by the relying party's policy;
  -- the policy was asked about the very result that is returned.
  pub verify_registration_attestation_sound :
      (policy : Option (TrustPolicy S E)) (registry : Option (Registry S E))
      (i : AttestationInputs S) {result : VerificationResult E} {trust : TrustResult}
      → verify_registration_attestation S E policy registry i ≡ ok (result, trust)
      → IsAttested policy registry i result trust
  unfolding verify_registration_attestation
  verify_registration_attestation_sound policy registry i {result} {trust} h =
      let (_, format, h1) =
        >>=-eq-ok
          (refuse_if (not (valid_identifier i.decoded.format)) (sentinel invalid_attestation)) _
          h in
      let (r, statement, h2) =
        >>=-eq-ok
          (verify_statement S E (lookup_verifier S E registry i.decoded.format)
            (verification_request S E i))
          _ h1 in
      let (t, trusts, h3) = >>=-eq-ok (evaluate_trust S E policy (trust_request S E i r)) _ h2 in
      let r_eq : r ≡ result = ground (arith, h3) in
      let t_eq : t ≡ trust = ground (arith, h3) in
      let (x, found, verified, acceptable) =
        verify_statement-accepts (lookup_verifier S E registry i.decoded.format) i
          (statement ∙ ap ok r_eq) in
      let (decide, policy_eq, decided, accepted) = evaluate_trust-accepts policy i result (
        sym (
          ap (λ (z : VerificationResult E). evaluate_trust S E policy (trust_request S E i z)) r_eq)
        ∙ trusts
        ∙ ap ok t_eq) in
      record {
        format = ground (arith, format);
        verifier = x;
        found = found;
        verified = verified;
        acceptable = acceptable;
        decide = decide;
        policy_eq = policy_eq;
        decided = decided;
        accepted = accepted;
      }

module _ (v : Values) where
  -- What the authenticator data of a registration must say.
  pub record IsAuthentic (g : Platform) (s : RegistrationState v) (raw : AuthenticatorData)
      (d : ParsedAuthenticatorData) : Type 0 where
    pub parses : parse_authenticator_data raw ≡ ok d
    pub rp_hash : d.rp_id_hash ≡ g.sha256 s.rp_id
    pub present : s.conditional_mediation ≡ false → user_present d.flags ≡ true
    pub verified :
        s.requested_user_verification ≡ user_verification_required → user_verified d.flags ≡ true
    pub backup : backup_state d.flags ≡ true → backup_eligible d.flags ≡ true

  registration_data-parts :
      (g : Platform) (s : RegistrationState v) (raw : AuthenticatorData)
      (d : ParsedAuthenticatorData)
      → verify_registration_authenticator_data v g s raw ≡ ok d
      → (parse_authenticator_data raw ≡ ok d) × (check_registration_data v g s d ≡ ok tt)
  unfolding verify_registration_authenticator_data
  registration_data-parts g s raw d h = (ground arith, ground arith)

  pub registration_data-IsAuthentic :
      (g : Platform) (s : RegistrationState v) (raw : AuthenticatorData)
      (d : ParsedAuthenticatorData)
      → verify_registration_authenticator_data v g s raw ≡ ok d
      → IsAuthentic g s raw d
  unfolding check_registration_data
  registration_data-IsAuthentic g s raw d h =
      let (parses, passed) = registration_data-parts g s raw d h in
      record {
        parses = parses;
        rp_hash = ground (arith, bytes_eq_iff d.rp_id_hash (g.sha256 s.rp_id));
        present = λ e. ground arith;
        verified = λ e.
            ground (arith, bytes_eq_iff s.requested_user_verification user_verification_required);
        backup = λ e. ground arith;
      }

  -- A decoder that is given and answers has accepted the bytes.
  pub decode_with-answers :
      {A : Type 0} (decoder : Option (Bytes → Result A)) (e : Error) (b : Bytes) {a : A}
      → decode_with v decoder e b ≡ ok a
      → (decode : Bytes → Result A) × (decoder ≡ some decode) × (decode b ≡ ok a)
  decode_with-answers none e b h = absurd cc
  decode_with-answers (some decode) e b h =
      (decode, refl, wrapped-eq-ok (sentinel malformed_response) (decode b) h)

  -- The key was decoded from the attested data, is valid, and its raw bytes begin them.
  pub record IsKeyOf (decoder : Option (Bytes → Result CredentialPublicKey)) (d : Bytes)
      (key : CredentialPublicKey) : Type 0 where
    pub decode : Bytes → Result CredentialPublicKey
    pub decoder_eq : decoder ≡ some decode
    pub decoded : decode d ≡ ok key
    pub valid : validate_key key ≡ ok tt
    pub trailing : Bytes
    pub spells : d ≡ key.raw ++ trailing

  is_key_prefix-spells :
      (raw d : Bytes) → is_key_prefix v raw d ≡ true → d ≡ raw ++ drop (length raw) d
  is_key_prefix-spells raw d h =
      let same : raw ≡ take (length raw) d =
        ground (arith, bytes_eq_iff raw (take (length raw) d)) in
      sym (take-append-drop (length raw) d)
      ∙ ap (λ (t : Bytes). t ++ drop (length raw) d) (sym same)

  pub decode_key-IsKeyOf :
      (key_decoder : Option (Bytes → Result CredentialPublicKey))
      (extension_decoder : Option (Bytes → Result (ExtensionMap v)))
      (parsed : ParsedAuthenticatorData) (a : AttestedCredentialData) {key : CredentialPublicKey}
      {extensions : ExtensionMap v}
      → decode_key_and_extensions v key_decoder extension_decoder parsed a ≡ ok (key, extensions)
      → IsKeyOf key_decoder a.credential_public_key_and_extensions key
  unfolding decode_key_and_extensions
  decode_key-IsKeyOf key_decoder extension_decoder parsed a {key} h =
      let d = a.credential_public_key_and_extensions in
      let (k, first, h1) =
        >>=-eq-ok (decode_with v key_decoder (sentinel invalid_configuration) d) _ h in
      let (_, valid, h2) =
        >>=-eq-ok (wrapped (sentinel malformed_response) (validate_key k)) _ h1 in
      let (_, prefix, h3) =
        >>=-eq-ok (refuse_if (not (is_key_prefix v k.raw d)) (sentinel malformed_response)) _ h2 in
      let (ext, trailing, h4) =
        >>=-eq-ok (decode_trailing_extensions v extension_decoder parsed (drop (length k.raw) d)) _
          h3 in
      let k_eq : k ≡ key = ground (arith, h4) in
      let (decode, decoder_eq, decoded) =
        decode_with-answers key_decoder (sentinel invalid_configuration) d first in
      rw (sym k_eq) (record {
        decode = decode;
        decoder_eq = decoder_eq;
        decoded = decoded;
        valid = wrapped-eq-ok (sentinel malformed_response) (validate_key k) valid;
        trailing = drop (length k.raw) d;
        spells = is_key_prefix-spells k.raw d (ground (arith, prefix));
      })
