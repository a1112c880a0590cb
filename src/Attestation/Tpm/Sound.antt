-- ===== src/Attestation/Tpm/Sound.antt =====
-- What an accepted "tpm" statement proves.
pub mod Fields
pub mod Structures
pub mod Chain
use webauthn.Prelude.{
  ℕ, true, false, not, ◌||◌, Option, none, some, List, [], ◌∷◌, Bytes, bytes, ascii, is_empty,
  bytes_eq, bytes_eq_iff, ◌==◌, ◌≡◌, refl, sym, ◌∙◌, arith, All, IsByte, Bool-cases, Option-cases,
  inl, inr,
}
use webauthn.Errors.{
  present, present-eq-ok, Result, ok, wrapped, sentinel, tpm_unsupported_algorithm,
  tpm_unsupported_key, tpm_invalid_signature, refuse_step, call_step, wrapped-eq-ok,
}
use webauthn.Protocol.Bytes.{len}
use webauthn.Protocol.AuthData.{
  AttestedCredentialData, ParsedAuthenticatorData, parse_authenticator_data,
}
use webauthn.Codec.Key.{Material}
use webauthn.Crypto.{SignatureVerifier}
use webauthn.Attestation.Registry.{
  VerificationRequest, VerificationResult, verification, trust_path, no_statements,
}
use webauthn.Attestation.Statement.{
  bytes_field-any_bytes, Statement, field, any_bytes, bytes_field, statement_length, entries,
  entry_keys, only_keys, string_field, algorithm_field, x5c_field, AnyValue, Entries, no_entries,
  entry, entry_at,
}
use webauthn.Attestation.Signature.{
  verify_attestation_signature-verified, signed_data, verify_attestation_signature,
}
use webauthn.Attestation.X509.{
  parse_certificate_chain_leaf, Asn1, Certificate, parse_certificate_chain,
}
use webauthn.Attestation.X509.Keys.{public_key_material}
use webauthn.Attestation.Tpm.Algorithms.{
  CoseAlgorithmSpec, signature_algorithm_spec, Hashes, tpm_hash,
}
use webauthn.Attestation.Tpm.PublicArea.{
  PublicArea, parse_public_area, validate_public_area_binding, public_area_name,
}
use webauthn.Attestation.Tpm.PublicArea.Bound.{IsBound, validate_public_area_binding-IsBound}
use webauthn.Attestation.Tpm.CertInfo.{
  CertifyInfo, parse_cert_info, validate_cert_info_binding, parse_tpm_signature,
}
use webauthn.Attestation.Tpm.CertInfo.Layout.{IsCertInfo, parse_cert_info_iff}
use webauthn.Attestation.Tpm.Certificate.{validate_aik_certificate}
use webauthn.Attestation.Tpm.Verify.{
  TpmStatement, invalid, tpm_format, tpm_keys, parse_tpm_statement, verify_structures,
  verify_certified, verify_tpm_with, verify_tpm,
}
use webauthn.Attestation.Tpm.Sound.Fields.{HasBytes, field-bytes, IsRead, statement-IsRead}
use webauthn.Attestation.Tpm.Sound.Structures.{IsCertified, structures-IsCertified}
use webauthn.Attestation.Tpm.Sound.Chain.{IsSignedBy, certified-IsSignedBy}

module _ (g : Hashes) (asn1 : Asn1) (marshal : ℕ → ℕ → Result Bytes)
    (parse : Bytes → Result Certificate) (E : Type 0) (no_evidence : E) where
  -- An accepted statement: what was read, certified and signed, and the result.
  pub record IsTpmAttested (verify : SignatureVerifier) (r : VerificationRequest Statement E)
      (result : VerificationResult E) : Type 0 where
    pub format : r.format ≡ ascii "tpm"
    pub statement : TpmStatement
    pub spec : CoseAlgorithmSpec
    pub parsed : ParsedAuthenticatorData
    pub parsed_ok : parse_authenticator_data r.authenticator_data ≡ ok parsed
    pub attested : AttestedCredentialData
    pub attested_eq : parsed.attested ≡ some attested
    pub read : IsRead r.statement statement
    pub spec_eq : signature_algorithm_spec statement.algorithm ≡ some spec
    pub certified : IsCertified g asn1 marshal parse E no_evidence r statement spec
    pub signed : IsSignedBy g asn1 marshal parse E no_evidence verify statement spec attested.aaguid
    pub result_eq :
        result
        ≡ verification
            (ascii "attca")
            (trust_path (ascii "x5c") statement.x5c [] no_statements)
            true
            []
            no_evidence

  -- An accepted "tpm" statement has six fields, which are read under their own keys, version 2.0
  -- and a known algorithm. Its public area holds the
  -- key of the credential, a supported point or a valid RSA key with an odd prime exponent. Its
  -- certInfo is a TPMS_ATTEST whose extra data is the hash of authenticator data and client data
  -- hash and whose name is that of the public area, and the key of its first certificate, which
  -- meets the requirements on attestation keys, verified the signature over certInfo. The result
  -- is attestation by a CA with the statement's certificates.
  pub verify_tpm_sound :
      (verifier : Option SignatureVerifier) (r : VerificationRequest Statement E)
      {result : VerificationResult E}
      → HasBytes (entries r.statement)
      → verify_tpm g asn1 marshal parse E no_evidence verifier r ≡ ok result
      → (verify : SignatureVerifier) × (verifier ≡ some verify) × IsTpmAttested verify r result
  unfolding verify_tpm verify_tpm_with
  verify_tpm_sound none r has_bytes h = cc
  verify_tpm_sound (some verify) r {result} has_bytes h =
      refuse_step (not (bytes_eq r.format tpm_format)) invalid h (λ is_tpm h1.
        call_step (parse_tpm_statement r.statement) h1 (λ t e2 h2.
          refuse_step (not (bytes_eq t.version (ascii "2.0"))) invalid h2 (λ is_2_0 h3.
            call_step
              (present (sentinel tpm_unsupported_algorithm) (signature_algorithm_spec t.algorithm))
              h3
              (λ spec e4 h4.
                refuse_step (len r.authenticator_data == 0 || is_empty r.client_data_hash) invalid
                  h4
                  (λ given h5.
                    call_step (wrapped invalid (parse_authenticator_data r.authenticator_data)) h5
                      (λ parsed e6 h6.
                        call_step (present invalid parsed.attested) h6 (λ attested e7 h7.
                          call_step (verify_structures g asn1 marshal parse E no_evidence r t spec)
                            h7
                            (λ done e8 h8.
                              call_step
                                (verify_certified g asn1 marshal parse E no_evidence verify t spec
                                  attested.aaguid)
                                h8
                                (λ certificates e9 h9.
                                  let is_read = statement-IsRead r.statement e2 is_2_0 in
                                  let (chain, signed) =
                                    certified-IsSignedBy g asn1 marshal parse E no_evidence verify t
                                      spec attested.aaguid e9 in
                                  (
                                    verify,
                                    refl,
                                    record {
                                      format =
                                          (bytes_eq_iff r.format (ascii "tpm")).0 (ground arith);
                                      statement = t;
                                      spec = spec;
                                      parsed = parsed;
                                      parsed_ok =
                                          wrapped-eq-ok invalid
                                            (parse_authenticator_data r.authenticator_data) e6;
                                      attested = attested;
                                      attested_eq = present-eq-ok _ _ e7;
                                      read = is_read;
                                      spec_eq = present-eq-ok _ _ e4;
                                      certified =
                                          structures-IsCertified g asn1 marshal parse E no_evidence
                                            r t spec
                                            (field-bytes r.statement _ _ has_bytes
                                              is_read.public_area)
                                            (field-bytes r.statement _ _ has_bytes
                                              is_read.cert_info)
                                            e8;
                                      signed = signed;
                                      result_eq = rw (sym chain) cc;
                                    },
                                  ))))))))))
