-- ===== src/Attestation/Tpm/Sound/Structures.antt =====
-- attestation/tpm/tpm.go: what the checks of the two TPM structures prove.
use webauthn.Prelude.{ℕ, Bytes, bytes_eq_iff, ◌≡◌, arith, All, IsByte}
use webauthn.Errors.{Result, ok, call_step}
use webauthn.Attestation.Registry.{VerificationRequest}
use webauthn.Attestation.Statement.{Statement}
use webauthn.Attestation.Signature.{signed_data}
use webauthn.Attestation.X509.{Asn1, Certificate}
use webauthn.Attestation.Tpm.Algorithms.{CoseAlgorithmSpec, Hashes, tpm_hash}
use webauthn.Attestation.Tpm.PublicArea.{
  PublicArea, parse_public_area, validate_public_area_binding, public_area_name,
}
use webauthn.Attestation.Tpm.PublicArea.Bound.{IsBound, validate_public_area_binding-IsBound}
use webauthn.Attestation.Tpm.CertInfo.{CertifyInfo, parse_cert_info, validate_cert_info_binding}
use webauthn.Attestation.Tpm.CertInfo.Layout.{IsCertInfo, parse_cert_info_iff}
use webauthn.Attestation.Tpm.Verify.{TpmStatement, verify_structures}

module _ (g : Hashes) (asn1 : Asn1) (marshal : ℕ → ℕ → Result Bytes)
    (parse : Bytes → Result Certificate) (E : Type 0) (no_evidence : E) where
  -- The key of the credential is that of the public area, and `certInfo` is a TPMS_ATTEST that
  -- holds the name of the public area and the hash of the signed data.
  pub record IsCertified (r : VerificationRequest Statement E) (s : TpmStatement)
      (spec : CoseAlgorithmSpec) : Type 0 where
    pub area : PublicArea
    pub area_ok : parse_public_area s.public_area ≡ ok area
    pub bound : IsBound area r.credential_public_key.material
    pub info : CertifyInfo
    pub attests : IsCertInfo s.cert_info info
    pub hashed :
        tpm_hash g spec.hash_alg (signed_data r.authenticator_data r.client_data_hash)
        ≡ ok info.extra_data
    pub named : public_area_name g area ≡ ok info.name

  pub structures-IsCertified :
      (r : VerificationRequest Statement E) (s : TpmStatement) (spec : CoseAlgorithmSpec)
      → All IsByte s.public_area
      → All IsByte s.cert_info
      → verify_structures g asn1 marshal parse E no_evidence r s spec ≡ ok tt
      → IsCertified r s spec
  unfolding verify_structures validate_cert_info_binding
  structures-IsCertified r s spec area_bytes info_bytes h =
      call_step (parse_public_area s.public_area) h (λ area e1 h1.
        call_step (validate_public_area_binding area r.credential_public_key.material) h1
          (λ done e2 h2. call_step (public_area_name g area) h2 (λ name e3 h3.
            call_step
              (tpm_hash g spec.hash_alg (signed_data r.authenticator_data r.client_data_hash)) h3
              (λ extra e4 h4. call_step (parse_cert_info s.cert_info) h4 (λ info e5 h5.
                let same_extra : info.extra_data ≡ extra =
                  (bytes_eq_iff info.extra_data extra).0 (ground (arith, h5)) in
                let same_name : info.name ≡ name =
                  (bytes_eq_iff info.name name).0 (ground (arith, h5)) in
                record {
                  area = area;
                  area_ok = e1;
                  bound =
                      validate_public_area_binding-IsBound s.public_area
                        r.credential_public_key.material area_bytes e1 e2;
                  info = info;
                  attests = (parse_cert_info_iff s.cert_info info info_bytes).0 e5;
                  hashed = rw same_extra e4;
                  named = rw same_name e3;
                })))))
