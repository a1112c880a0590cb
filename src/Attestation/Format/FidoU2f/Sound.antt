-- ===== src/Attestation/Format/FidoU2f/Sound.antt =====
-- What an accepted "fido-u2f" statement proves.
use webauthn.Prelude.{
  ◌≡◌, refl, arith, true, false, not, ◌||◌, Option, none, some, Option-cases, inl, inr, [], ◌∷◌,
  ◌++◌, Bytes, bytes, content, ascii, length, get_or, bytes_eq, bytes_eq_iff, ◌==◌,
}
use webauthn.Prelude.Int.{eq_ℤ, eq_ℤ_iff}
use webauthn.Errors.{
  Result, ok, wrapped, present, call_step, refuse_step, present-eq-ok, wrapped-eq-ok,
}
use webauthn.Protocol.Types.{algorithm_es256}
use webauthn.Protocol.AuthData.{
  ParsedAuthenticatorData, AttestedCredentialData, parse_authenticator_data,
}
use webauthn.Codec.Key.{Ec2Material, Material, CredentialPublicKey, u2f_public_key, ec2_curve_p256}
use webauthn.Crypto.{SignatureVerifier}
use webauthn.Attestation.Registry.{VerificationRequest, VerificationResult}
use webauthn.Attestation.Statement.{Statement}
use webauthn.Attestation.Signature.{
  verify_attestation_signature, verify_attestation_signature-verified,
}
use webauthn.Attestation.X509.{
  Certificate, PublicKey, EcdsaKey, ecdsa_key, rsa_key, ed25519_key, other_key,
}
use webauthn.Attestation.X509.Keys.{public_key_material}
use webauthn.Attestation.Format.{with_chain}
use webauthn.Attestation.Format.FidoU2f.{
  invalid, unsupported, U2fStatement, parse_u2f_statement, is_p256, u2f_verification_data,
  verify_u2f_signed, verify_u2f_with, verify_u2f,
}

-- The credential's key is a point of P-256 with coordinates of 32 bytes.
pub record IsU2fKey (k : CredentialPublicKey) (p : Ec2Material) : Type 0 where
  pub algorithm : k.algorithm ≡ algorithm_es256
  pub point : k.material.ec2 ≡ some p
  pub curve : p.curve ≡ ec2_curve_p256
  pub x : length p.x ≡ 32
  pub y : length p.y ≡ 32

u2f_public_key-IsU2fKey :
    (k : CredentialPublicKey)
    → not (eq_ℤ k.algorithm algorithm_es256) ≡ false
    → length (u2f_public_key k) ≡ 65
    → (p : Ec2Material) × IsU2fKey k p × (u2f_public_key k ≡ 4 ∷ (p.x ++ p.y))
unfolding u2f_public_key
u2f_public_key-IsU2fKey k es256 size = elim (Option-cases k.material.ec2) [
  | inl e ↦ absurd (ground (arith, e, size))
  | inr (p, e) ↦ (
    p,
    record {
      algorithm = (eq_ℤ_iff k.algorithm algorithm_es256).0 (ground (arith, es256));
      point = e;
      curve = (bytes_eq_iff p.curve ec2_curve_p256).0 (ground (arith, e, size));
      x = ground (arith, e, size);
      y = ground (arith, e, size);
    },
    ground (arith, e, size),
  )
]

-- The key of the certificate is an ECDSA key on P-256.
pub record IsOnP256 (k : PublicKey) : Type 0 where
  pub point : EcdsaKey
  pub key_eq : k ≡ ecdsa_key (some point)
  pub curve : point.curve_name ≡ some (ascii "P-256")

is_p256-IsOnP256 : (k : PublicKey) → is_p256 k ≡ true → IsOnP256 k
unfolding is_p256
is_p256-IsOnP256 (ecdsa_key none) h = cc
is_p256-IsOnP256 (ecdsa_key (some p)) h = elim (Option-cases p.curve_name) [
  | inl e ↦ absurd (ground (arith, e, h))
  | inr (name, e) ↦ record {
    point = p;
    key_eq = refl;
    curve =
        let is_name : name ≡ ascii "P-256" =
          (bytes_eq_iff name (ascii "P-256")).0 (ground (arith, e, h)) in
        rw is_name at e;
  }
]
is_p256-IsOnP256 (rsa_key k) h = cc
is_p256-IsOnP256 (ed25519_key k) h = cc
is_p256-IsOnP256 other_key h = cc

module _ (parse : Bytes → Result Certificate) (E : Type 0) (no_evidence : E) where
  -- The certificate's key verified the signature over the registration data of U2F.
  pub record IsU2fSigned (verify : SignatureVerifier) (r : VerificationRequest Statement E)
      (s : U2fStatement) (key : Bytes) (result : VerificationResult E) : Type 0 where
    pub parsed : ParsedAuthenticatorData
    pub parsed_ok : parse_authenticator_data r.authenticator_data ≡ ok parsed
    pub attested : AttestedCredentialData
    pub attested_eq : parsed.attested ≡ some attested
    pub certificate : Certificate
    pub certificate_parsed : parse s.x5c ≡ ok certificate
    pub on_p256 : IsOnP256 certificate.public_key
    pub material : Material
    pub material_eq : public_key_material certificate.public_key ≡ some material
    pub verified :
        verify (record {
          algorithm = algorithm_es256;
          public_key = material;
          raw_credential_public_key = [];
          signed =
              0
              ∷ (parsed.rp_id_hash
                  ++ (r.client_data_hash ++ (content attested.credential_id ++ key)));
          signature = bytes s.signature;
        })
        ≡ ok tt
    pub result_eq : result ≡ with_chain E no_evidence (ascii "uncertain") (s.x5c ∷ [])

  signed-IsU2fSigned :
      (verify : SignatureVerifier) (r : VerificationRequest Statement E) (s : U2fStatement)
      (key : Bytes) {result : VerificationResult E}
      → verify_u2f_signed parse E no_evidence verify r s key ≡ ok result
      → IsU2fSigned verify r s key result
  unfolding verify_u2f_signed u2f_verification_data
  signed-IsU2fSigned verify r s key {result} h =
      call_step (wrapped invalid (parse_authenticator_data r.authenticator_data)) h (λ parsed e1 h1.
        call_step (present invalid parsed.attested) h1 (λ attested e2 h2.
          call_step (wrapped invalid (parse s.x5c)) h2 (λ certificate e3 h3.
            refuse_step (not (is_p256 certificate.public_key)) unsupported h3 (λ on_p256 h4.
              call_step (present unsupported (public_key_material certificate.public_key)) h4
                (λ material e5 h5.
                  call_step (verify_attestation_signature (some verify) _ _ _) h5 (λ done e6 h6.
                    record {
                      parsed = parsed;
                      parsed_ok =
                          wrapped-eq-ok invalid (parse_authenticator_data r.authenticator_data) e1;
                      attested = attested;
                      attested_eq = present-eq-ok _ _ e2;
                      certificate = certificate;
                      certificate_parsed = wrapped-eq-ok invalid (parse s.x5c) e3;
                      on_p256 = is_p256-IsOnP256 certificate.public_key (ground (arith, on_p256));
                      material = material;
                      material_eq = present-eq-ok _ _ e5;
                      verified = verify_attestation_signature-verified verify _ _ _ e6;
                      result_eq = cc;
                    }))))))

  -- An accepted "fido-u2f" statement is for an ES256 credential whose key is a point of P-256 with
  -- coordinates of 32 bytes, and a hash of the client data of 32 bytes. Its one certificate holds a
  -- key on P-256, which verified the signature over a zero byte, the hash of the RP id, the hash of
  -- the client data, the credential id, and the point with a leading 4, where id and hash of the RP
  -- id are those of the parsed authenticator data. The result has the certificate and leaves the
  -- type open.
  pub verify_u2f_sound :
      (verifier : Option SignatureVerifier) (r : VerificationRequest Statement E)
      {result : VerificationResult E}
      → verify_u2f parse E no_evidence verifier r ≡ ok result
      → (verify : SignatureVerifier) × (s : U2fStatement) × (p : Ec2Material) × (verifier
          ≡ some verify)
        × (r.format ≡ ascii "fido-u2f")
        × (parse_u2f_statement r.statement ≡ ok s)
        × (length r.client_data_hash ≡ 32)
        × IsU2fKey r.credential_public_key p
        × IsU2fSigned verify r s (4 ∷ (p.x ++ p.y)) result
  unfolding verify_u2f verify_u2f_with
  verify_u2f_sound none r h = cc
  verify_u2f_sound (some verify) r {result} h =
      refuse_step (not (bytes_eq r.format (ascii "fido-u2f"))) invalid h (λ is_format h1.
        call_step (parse_u2f_statement r.statement) h1 (λ s e2 h2.
          let k = r.credential_public_key in
          let key = u2f_public_key k in
          refuse_step (not (eq_ℤ k.algorithm algorithm_es256)) unsupported h2 (λ es256 h3.
            refuse_step (not (length key == 65) || not (get_or key 0 0 == 4)) unsupported h3
              (λ shape h4.
                refuse_step (not (length r.client_data_hash == 32)) invalid h4 (λ hash h5.
                  let size : length key ≡ 65 = ground (arith, shape) in
                  let (p, is_key, key_eq) = u2f_public_key-IsU2fKey k es256 size in
                  (
                    verify,
                    s,
                    p,
                    refl,
                    (bytes_eq_iff r.format (ascii "fido-u2f")).0 (ground (arith, is_format)),
                    e2,
                    ground (arith, hash),
                    is_key,
                    rw key_eq at (signed-IsU2fSigned verify r s key h5),
                  ))))))
