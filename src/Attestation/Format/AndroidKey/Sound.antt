-- ===== src/Attestation/Format/AndroidKey/Sound.antt =====
-- What an accepted "android-key" statement proves.
use webauthn.Prelude.{
  ◌≡◌, refl, sym, arith, Bool, not, ◌||◌, Option, none, some, List, [], ◌∷◌, Bytes, bytes, ascii,
  is_empty, bytes_eq, bytes_eq_iff, ◌==◌,
}
use webauthn.Errors.{
  Result, ok, present, sentinel, android_key_certificate_requirements,
  android_key_public_key_mismatch, call_step, refuse_step, present-eq-ok,
}
use webauthn.Protocol.Bytes.{len}
use webauthn.Codec.Key.{Material}
use webauthn.Crypto.{SignatureVerifier}
use webauthn.Attestation.Registry.{VerificationRequest, VerificationResult}
use webauthn.Attestation.Statement.{Statement}
use webauthn.Attestation.Signature.{
  signed_data, verify_attestation_signature-verified, verify_attestation_signature,
}
use webauthn.Attestation.X509.{
  Asn1, Certificate, CertificateExtension, find_extension, parse_certificate_chain,
  parse_certificate_chain_leaf,
}
use webauthn.Attestation.X509.Keys.{public_key_material, validate_public_key}
use webauthn.Attestation.X509.Keys.Same.{IsSameKey, validate_public_key-IsSameKey}
use webauthn.Attestation.Format.{with_chain}
use webauthn.Attestation.Format.AndroidKey.Description.{
  KeyDescription, parse_android_key_description, validate_android_key_extension,
}
use webauthn.Attestation.Format.AndroidKey.Exact.{IsExact, validate_android_key_extension-IsExact}
use webauthn.Attestation.Format.AndroidKey.{
  invalid, unsupported, oid_android_key_attestation, AndroidKeyStatement,
  parse_android_key_statement, verify_android_key_chain, verify_android_key_with,
  verify_android_key,
}

module _ (asn1 : Asn1) (parse : Bytes → Result Certificate) (E : Type 0) (no_evidence : E)
    (require_hardware : Bool) where
  pub record IsAndroidKey (verify : SignatureVerifier) (r : VerificationRequest Statement E)
      (s : AndroidKeyStatement) (result : VerificationResult E) : Type 0 where
    pub leaf : Certificate
    pub leaf_raw : Bytes
    pub issuers : List Bytes
    pub x5c_eq : s.x5c ≡ leaf_raw ∷ issuers
    pub leaf_parsed : parse leaf_raw ≡ ok leaf
    pub material : Material
    pub material_eq : public_key_material leaf.public_key ≡ some material
    pub same_key : IsSameKey material r.credential_public_key.material
    pub extension : CertificateExtension
    pub extension_eq : find_extension leaf oid_android_key_attestation ≡ some extension
    pub description : KeyDescription
    pub description_ok :
        parse_android_key_description asn1 extension.extension_value ≡ ok description
    pub is_exact : IsExact description r.client_data_hash require_hardware
    pub verified :
        verify (record {
          algorithm = s.algorithm;
          public_key = material;
          raw_credential_public_key = [];
          signed = signed_data r.authenticator_data r.client_data_hash;
          signature = bytes s.signature;
        })
        ≡ ok tt
    pub result_eq : result ≡ with_chain E no_evidence (ascii "basic") s.x5c

  chain-IsAndroidKey :
      (verify : SignatureVerifier) (r : VerificationRequest Statement E) (s : AndroidKeyStatement)
      {result : VerificationResult E}
      → verify_android_key_chain asn1 parse E no_evidence require_hardware verify r s ≡ ok result
      → IsAndroidKey verify r s result
  unfolding verify_android_key_chain
  chain-IsAndroidKey verify r s {result} h =
      call_step (parse_certificate_chain parse s.x5c invalid) h (λ chain e1 h1.
        call_step
          (validate_public_key unsupported (sentinel android_key_public_key_mismatch)
            chain.leaf.public_key r.credential_public_key.material)
          h1
          (λ done e2 h2.
            call_step
              (present (sentinel android_key_certificate_requirements)
                (find_extension chain.leaf oid_android_key_attestation))
              h2
              (λ extension e3 h3.
                call_step
                  (validate_android_key_extension asn1 extension.extension_value r.client_data_hash
                    require_hardware)
                  h3
                  (λ done' e4 h4.
                    call_step (present unsupported (public_key_material chain.leaf.public_key)) h4
                      (λ material e5 h5.
                        call_step (verify_attestation_signature (some verify) _ _ _) h5
                          (λ done'' e6 h6.
                            let (kept, leaf_raw, issuers, x5c_eq, leaf_parsed) =
                              parse_certificate_chain_leaf parse s.x5c invalid e1 in
                            let (description, description_ok, is_exact) =
                              validate_android_key_extension-IsExact asn1 extension.extension_value
                                r.client_data_hash require_hardware e4 in
                            let made : with_chain E no_evidence (ascii "basic") chain.raw_chain
                                ≡ result =
                              cc in
                            record {
                              leaf = chain.leaf;
                              leaf_raw = leaf_raw;
                              issuers = issuers;
                              x5c_eq = x5c_eq;
                              leaf_parsed = leaf_parsed;
                              material = material;
                              material_eq = present-eq-ok _ _ e5;
                              same_key =
                                  validate_public_key-IsSameKey unsupported
                                    (sentinel android_key_public_key_mismatch) chain.leaf.public_key
                                    r.credential_public_key.material (present-eq-ok _ _ e5) e2;
                              extension = extension;
                              extension_eq = present-eq-ok _ _ e3;
                              description = description;
                              description_ok = description_ok;
                              is_exact = is_exact;
                              verified = verify_attestation_signature-verified verify _ _ _ e6;
                              result_eq = rw kept at (sym made);
                            }))))))

  -- The first certificate of an accepted "android-key" statement holds the credential's key, which
  -- verified the signature over the authenticator data and the hash of the client data. Its key
  -- description has that hash as its challenge, does not give the key to all applications, and
  -- names "generated" as the only origin and "sign" as the only purpose; where hardware is
  -- required, its own list says so and both security levels are those of hardware. The result is
  -- basic attestation with the statement's certificates.
  pub verify_android_key_sound :
      (verifier : Option SignatureVerifier) (r : VerificationRequest Statement E)
      {result : VerificationResult E}
      → verify_android_key asn1 parse E no_evidence require_hardware verifier r ≡ ok result
      → (verify : SignatureVerifier) × (s : AndroidKeyStatement) × (verifier ≡ some verify)
        × (r.format ≡ ascii "android-key")
        × (parse_android_key_statement r.statement ≡ ok s)
        × IsAndroidKey verify r s result
  unfolding verify_android_key verify_android_key_with
  verify_android_key_sound none r h = absurd (ground (arith, h))
  verify_android_key_sound (some verify) r {result} h =
      refuse_step (not (bytes_eq r.format (ascii "android-key"))) invalid h (λ is_format h1.
        call_step (parse_android_key_statement r.statement) h1 (λ s e2 h2.
          refuse_step (len r.authenticator_data == 0 || is_empty r.client_data_hash) invalid h2
            (λ given h3. (
              verify,
              s,
              refl,
              (bytes_eq_iff r.format (ascii "android-key")).0 (ground arith),
              e2,
              chain-IsAndroidKey verify r s h3,
            ))))
