-- ===== src/Attestation/Format/Packed/Sound.antt =====
-- What an accepted "packed" statement proves.
use webauthn.Prelude.{
  ◌≡◌, refl, sym, arith, false, not, ◌||◌, Option, none, some, List, [], ◌∷◌, Bytes, bytes, ascii,
  is_empty, bytes_eq, bytes_eq_iff, ◌==◌,
}
use webauthn.Prelude.Int.{eq_ℤ, eq_ℤ_iff}
use webauthn.Errors.{
  Result, ok, wrapped, present, sentinel, packed_certificate_requirements, call_step, refuse_step,
  present-eq-ok, wrapped-eq-ok,
}
use webauthn.Protocol.Bytes.{len}
use webauthn.Protocol.AuthData.{
  ParsedAuthenticatorData, AttestedCredentialData, parse_authenticator_data,
}
use webauthn.Codec.Key.{Material}
use webauthn.Crypto.{SignatureVerifier}
use webauthn.Attestation.Registry.{VerificationRequest, VerificationResult}
use webauthn.Attestation.Statement.{Statement}
use webauthn.Attestation.Signature.{signed_data, verify_attestation_signature-verified}
use webauthn.Attestation.X509.{
  Asn1, Certificate, parse_certificate_chain, parse_certificate_chain_leaf,
}
use webauthn.Attestation.X509.Keys.{public_key_material}
use webauthn.Attestation.Format.{pathless, with_chain}
use webauthn.Attestation.Format.Packed.Profile.{validate_packed_certificate}
use webauthn.Attestation.Format.Packed.{
  invalid, PackedStatement, parse_packed_statement, verify_packed_signature, verify_self,
  verify_x5c, verify_either, verify_packed,
}

module _ (asn1 : Asn1) (parse : Bytes → Result Certificate) (E : Type 0) (no_evidence : E) where
  -- The verifier accepted the signature of the statement over the authenticator data and the hash
  -- of the client data, under the given key.
  abbrev pub Signed :
      SignatureVerifier
      → VerificationRequest Statement E
      → PackedStatement
      → Material
      → Bytes
      → Type 0
  Signed verify r s material raw =
      verify (record {
        algorithm = s.algorithm;
        public_key = material;
        raw_credential_public_key = raw;
        signed = signed_data r.authenticator_data r.client_data_hash;
        signature = bytes s.signature;
      })
      ≡ ok tt

  -- The key of the first certificate, which meets the requirements for the authenticator's model.
  pub record IsCertificateKey (r : VerificationRequest Statement E) (x5c : List Bytes)
      (material : Material) : Type 0 where
    pub parsed : ParsedAuthenticatorData
    pub parsed_ok : parse_authenticator_data r.authenticator_data ≡ ok parsed
    pub attested : AttestedCredentialData
    pub attested_eq : parsed.attested ≡ some attested
    pub leaf : Certificate
    pub leaf_raw : Bytes
    pub issuers : List Bytes
    pub x5c_eq : x5c ≡ leaf_raw ∷ issuers
    pub leaf_parsed : parse leaf_raw ≡ ok leaf
    pub leaf_ok :
        validate_packed_certificate asn1 leaf attested.aaguid r.conveyance_preference ≡ ok tt
    pub material_eq : public_key_material leaf.public_key ≡ some material

  pub data IsPacked (verify : SignatureVerifier) (r : VerificationRequest Statement E)
      (s : PackedStatement) (result : VerificationResult E) : Type 0 where
    by_credential :
        s.x5c ≡ none
        → s.algorithm ≡ r.credential_public_key.algorithm
        → Signed verify r s r.credential_public_key.material r.credential_public_key.raw
        → result ≡ pathless E no_evidence (ascii "self")
        → IsPacked verify r s result
    by_certificate :
        (x5c : List Bytes) (material : Material)
        → s.x5c ≡ some x5c
        → IsCertificateKey r x5c material
        → Signed verify r s material []
        → result ≡ with_chain E no_evidence (ascii "uncertain") x5c
        → IsPacked verify r s result

  self-IsPacked :
      (verify : SignatureVerifier) (r : VerificationRequest Statement E) (s : PackedStatement)
      {result : VerificationResult E}
      → s.x5c ≡ none
      → verify_self asn1 parse E no_evidence
          (some verify)
          r
          s
          (signed_data r.authenticator_data r.client_data_hash)
        ≡ ok result
      → IsPacked verify r s result
  unfolding verify_self
  self-IsPacked verify r s no_chain h =
      refuse_step (not (eq_ℤ s.algorithm r.credential_public_key.algorithm)) _ h (λ same h1.
        call_step (verify_packed_signature asn1 parse E no_evidence (some verify) _) h1
          (λ done e2 h2.
            by_credential no_chain
              ((eq_ℤ_iff s.algorithm r.credential_public_key.algorithm).0 (ground arith))
              (verify_attestation_signature-verified verify _ _ _ e2) cc))

  x5c-IsPacked :
      (verify : SignatureVerifier) (r : VerificationRequest Statement E) (s : PackedStatement)
      (x5c : List Bytes) {result : VerificationResult E}
      → s.x5c ≡ some x5c
      → verify_x5c asn1 parse E no_evidence
          (some verify)
          r
          s
          x5c
          (signed_data r.authenticator_data r.client_data_hash)
        ≡ ok result
      → IsPacked verify r s result
  unfolding verify_x5c
  x5c-IsPacked verify r s x5c {result} has_chain h =
      call_step (wrapped invalid (parse_authenticator_data r.authenticator_data)) h (λ parsed e1 h1.
        call_step (present invalid parsed.attested) h1 (λ attested e2 h2.
          call_step (parse_certificate_chain parse x5c invalid) h2 (λ chain e3 h3.
            call_step
              (validate_packed_certificate asn1 chain.leaf attested.aaguid r.conveyance_preference)
              h3
              (λ done e4 h4.
                call_step
                  (present (sentinel packed_certificate_requirements)
                    (public_key_material chain.leaf.public_key))
                  h4
                  (λ material e5 h5.
                    call_step (verify_packed_signature asn1 parse E no_evidence (some verify) _) h5
                      (λ done' e6 h6.
                        let (kept, leaf_raw, issuers, x5c_eq, leaf_parsed) =
                          parse_certificate_chain_leaf parse x5c invalid e3 in
                        let made : with_chain E no_evidence (ascii "uncertain") chain.raw_chain
                            ≡ result =
                          cc in
                        by_certificate x5c material has_chain
                          (record {
                            parsed = parsed;
                            parsed_ok =
                                wrapped-eq-ok invalid
                                  (parse_authenticator_data r.authenticator_data) e1;
                            attested = attested;
                            attested_eq = present-eq-ok _ _ e2;
                            leaf = chain.leaf;
                            leaf_raw = leaf_raw;
                            issuers = issuers;
                            x5c_eq = x5c_eq;
                            leaf_parsed = leaf_parsed;
                            leaf_ok = e4;
                            material_eq = present-eq-ok _ _ e5;
                          })
                          (verify_attestation_signature-verified verify _ _ _ e6)
                          (rw kept at (sym made))))))))

  either-IsPacked :
      (verify : SignatureVerifier) (r : VerificationRequest Statement E) (s : PackedStatement)
      (o : Option (List Bytes)) {result : VerificationResult E}
      → s.x5c ≡ o
      → verify_either asn1 parse E no_evidence
          (some verify)
          r
          s
          o
          (signed_data r.authenticator_data r.client_data_hash)
        ≡ ok result
      → IsPacked verify r s result
  either-IsPacked verify r s none e h = self-IsPacked verify r s e h
  either-IsPacked verify r s (some x5c) e h = x5c-IsPacked verify r s x5c e h

  -- An accepted "packed" statement is signed over the authenticator data and the hash of the client
  -- data. Without certificates it is signed by the credential key itself, whose algorithm is that
  -- of the statement, and the result is self attestation. With certificates it is signed by the key
  -- of the first one, which meets the requirements on attestation certificates, and the result has
  -- the chain and leaves the type open.
  pub verify_packed_sound :
      (verifier : Option SignatureVerifier) (r : VerificationRequest Statement E)
      {result : VerificationResult E}
      → verify_packed asn1 parse E no_evidence verifier r ≡ ok result
      → (verify : SignatureVerifier) × (s : PackedStatement) × (verifier ≡ some verify)
        × (r.format ≡ ascii "packed")
        × (parse_packed_statement r.statement ≡ ok s)
        × IsPacked verify r s result
  unfolding verify_packed
  verify_packed_sound none r {result} h = absurd (ground (arith, h))
  verify_packed_sound (some verify) r {result} h =
      refuse_step (not (bytes_eq r.format (ascii "packed")) || false) invalid h (λ is_packed h1.
        call_step (parse_packed_statement r.statement) h1 (λ s e2 h2.
          refuse_step (len r.authenticator_data == 0 || is_empty r.client_data_hash) invalid h2
            (λ given h3. (
              verify,
              s,
              refl,
              (bytes_eq_iff r.format (ascii "packed")).0 (ground arith),
              e2,
              either-IsPacked verify r s s.x5c refl h3,
            ))))
