-- ===== src/Attestation/Tpm/Sound/Chain.antt =====
-- attestation/tpm/tpm.go: what the checks of the certificates and of the signature prove.
use webauthn.Prelude.{ℕ, some, List, [], ◌∷◌, Bytes, bytes, ◌≡◌, sym, ◌∙◌}
use webauthn.Errors.{
  present, present-eq-ok, Result, ok, sentinel, tpm_unsupported_key, tpm_invalid_signature,
  call_step,
}
use webauthn.Codec.Key.{Material}
use webauthn.Crypto.{SignatureVerifier}
use webauthn.Attestation.Signature.{
  verify_attestation_signature-verified, verify_attestation_signature,
}
use webauthn.Attestation.X509.{
  parse_certificate_chain_leaf, Asn1, Certificate, parse_certificate_chain,
}
use webauthn.Attestation.X509.Keys.{public_key_material}
use webauthn.Attestation.Tpm.Algorithms.{CoseAlgorithmSpec, Hashes}
use webauthn.Attestation.Tpm.CertInfo.{parse_tpm_signature}
use webauthn.Attestation.Tpm.Certificate.{validate_aik_certificate}
use webauthn.Attestation.Tpm.Verify.{TpmStatement, invalid, verify_certified}

module _ (g : Hashes) (asn1 : Asn1) (marshal : ℕ → ℕ → Result Bytes)
    (parse : Bytes → Result Certificate) (E : Type 0) (no_evidence : E) where
  -- The key of the leaf certificate verified the signature over `certInfo`.
  pub record IsSignedBy (verify : SignatureVerifier) (t : TpmStatement) (spec : CoseAlgorithmSpec)
      (aaguid : Bytes) : Type 0 where
    pub leaf : Certificate
    pub leaf_raw : Bytes
    pub issuers : List Bytes
    pub x5c_eq : t.x5c ≡ leaf_raw ∷ issuers
    pub leaf_parsed : parse leaf_raw ≡ ok leaf
    pub leaf_ok : validate_aik_certificate asn1 leaf aaguid ≡ ok tt
    pub material : Material
    pub material_eq : public_key_material leaf.public_key ≡ some material
    pub signature : Bytes
    pub signature_ok : parse_tpm_signature marshal t.signature spec ≡ ok signature
    pub verified :
        verify (record {
          algorithm = t.algorithm;
          public_key = material;
          raw_credential_public_key = [];
          signed = t.cert_info;
          signature = bytes signature;
        })
        ≡ ok tt

  pub certified-IsSignedBy :
      (verify : SignatureVerifier) (t : TpmStatement) (spec : CoseAlgorithmSpec) (aaguid : Bytes)
      {raw_chain : List Bytes}
      → verify_certified g asn1 marshal parse E no_evidence verify t spec aaguid ≡ ok raw_chain
      → (raw_chain ≡ t.x5c) × IsSignedBy verify t spec aaguid
  unfolding verify_certified
  certified-IsSignedBy verify t spec aaguid {raw_chain} h =
      call_step (parse_certificate_chain parse t.x5c invalid) h (λ chain e1 h1.
        call_step (validate_aik_certificate asn1 chain.leaf aaguid) h1 (λ done e2 h2.
          call_step (parse_tpm_signature marshal t.signature spec) h2 (λ signature e3 h3.
            call_step
              (present (sentinel tpm_unsupported_key) (public_key_material chain.leaf.public_key))
              h3
              (λ material e4 h4.
                call_step
                  (verify_attestation_signature (some verify) _ (sentinel tpm_invalid_signature)
                    (sentinel tpm_invalid_signature))
                  h4
                  (λ done' e5 h5.
                    let (kept, leaf_raw, issuers, x5c_eq, leaf_parsed) =
                      parse_certificate_chain_leaf parse t.x5c invalid e1 in
                    let same_chain : chain.raw_chain ≡ raw_chain = cc in
                    (
                      sym same_chain ∙ kept,
                      record {
                        leaf = chain.leaf;
                        leaf_raw = leaf_raw;
                        issuers = issuers;
                        x5c_eq = x5c_eq;
                        leaf_parsed = leaf_parsed;
                        leaf_ok = e2;
                        material = material;
                        material_eq = present-eq-ok _ _ e4;
                        signature = signature;
                        signature_ok = e3;
                        verified = verify_attestation_signature-verified verify _ _ _ e5;
                      },
                    ))))))
