-- ===== src/Attestation/Format/Packed.antt =====
-- attestation/packed/packed.go and statement.go: the verifier of "packed" statements.
pub mod Profile
pub mod Sound
use webauthn.Prelude.{
  Bool, true, false, not, ◌||◌, Option, none, some, List, [], ◌∷◌, Bytes, ascii, is_empty, bytes_eq,
  ◌==◌, if◌then◌else◌,
}
use webauthn.Prelude.Int.{eq_ℤ}
use webauthn.Errors.{
  Error, Result, ok, err, ◌>>=◌, ◌>>◌, refuse_if, wrapped, present, sentinel,
  packed_invalid_statement, packed_algorithm_mismatch, packed_invalid_signature,
  packed_certificate_requirements,
}
use webauthn.Protocol.Bytes.{len}
use webauthn.Protocol.Types.{CoseAlgorithm}
use webauthn.Protocol.AuthData.{parse_authenticator_data}
use webauthn.Codec.Key.{Material}
use webauthn.Crypto.{SignatureVerifier}
use webauthn.Attestation.Registry.{VerificationRequest, VerificationResult}
use webauthn.Attestation.Statement.{
  Statement, AnyValue, statement_length, entries, entry_keys, entry_at, field, only_keys,
  algorithm_field, bytes_field, x5c_field,
}
use webauthn.Attestation.Signature.{signed_data, SignatureCheck, verify_attestation_signature}
use webauthn.Attestation.X509.{Asn1, Certificate, parse_certificate_chain}
use webauthn.Attestation.X509.Keys.{public_key_material}
use webauthn.Attestation.Format.{pathless, with_chain}
use webauthn.Attestation.Format.Packed.Profile.{validate_packed_certificate}

abbrev pub invalid : Error
invalid = sentinel packed_invalid_statement

-- The chain is `none` where the statement has no member `x5c`.
pub record PackedStatement : Type 0 where
  pub algorithm : CoseAlgorithm
  pub signature : Bytes
  pub x5c : Option (List Bytes)

abbrev pub optional_x5c : Option AnyValue → Result (Option (List Bytes))
optional_x5c none = ok none
optional_x5c (some v) = do x5c ← x5c_field v invalid; ok (some x5c)

abbrev pub packed_keys : List Bytes
packed_keys = ascii "alg" ∷ ascii "sig" ∷ ascii "x5c" ∷ []

unfoldable pub parse_packed_statement : Statement → Result PackedStatement
parse_packed_statement s = do
  refuse_if (statement_length s == 0) invalid
  only_keys invalid packed_keys (entry_keys (entries s))
  algorithm ← algorithm_field (field s (ascii "alg")) invalid
  signature ← bytes_field (field s (ascii "sig")) invalid
  x5c ← optional_x5c (entry_at (ascii "x5c") (entries s))
  ok (record { algorithm = algorithm; signature = signature; x5c = x5c })

module _ (asn1 : Asn1) (parse : Bytes → Result Certificate) (E : Type 0) (no_evidence : E)
    (verifier : Option SignatureVerifier) where
  abbrev pub verify_packed_signature : SignatureCheck → Result (Unit {0})
  verify_packed_signature c =
      verify_attestation_signature verifier c invalid (sentinel packed_invalid_signature)

  unfoldable pub verify_self :
      VerificationRequest Statement E → PackedStatement → Bytes → Result (VerificationResult E)
  verify_self r s signed = do
    refuse_if (not (eq_ℤ s.algorithm r.credential_public_key.algorithm))
        (sentinel packed_algorithm_mismatch)
    verify_packed_signature (record {
      algorithm = s.algorithm;
      public_key = r.credential_public_key.material;
      raw_credential_public_key = r.credential_public_key.raw;
      signed = signed;
      signature = s.signature;
    })
    ok (pathless E no_evidence (ascii "self"))

  unfoldable pub verify_x5c :
      VerificationRequest Statement E
      → PackedStatement
      → List Bytes
      → Bytes
      → Result (VerificationResult E)
  verify_x5c r s x5c signed = do
    parsed ← wrapped invalid (parse_authenticator_data r.authenticator_data)
    attested ← present invalid parsed.attested
    chain ← parse_certificate_chain parse x5c invalid
    validate_packed_certificate asn1 chain.leaf attested.aaguid r.conveyance_preference
    material ←
        present (sentinel packed_certificate_requirements)
          (public_key_material chain.leaf.public_key)
    verify_packed_signature (record {
      algorithm = s.algorithm;
      public_key = material;
      raw_credential_public_key = [];
      signed = signed;
      signature = s.signature;
    })
    ok (with_chain E no_evidence (ascii "uncertain") chain.raw_chain)

  abbrev pub is_missing : Option SignatureVerifier → Bool
  is_missing none = true
  is_missing (some v) = false

  abbrev pub verify_either :
      VerificationRequest Statement E
      → PackedStatement
      → Option (List Bytes)
      → Bytes
      → Result (VerificationResult E)
  verify_either r s none signed = verify_self r s signed
  verify_either r s (some x5c) signed = verify_x5c r s x5c signed

  unfoldable pub verify_packed : VerificationRequest Statement E → Result (VerificationResult E)
  verify_packed r = do
    refuse_if (not (bytes_eq r.format (ascii "packed")) || is_missing verifier) invalid
    s ← parse_packed_statement r.statement
    refuse_if (len r.authenticator_data == 0 || is_empty r.client_data_hash) invalid
    verify_either r s s.x5c (signed_data r.authenticator_data r.client_data_hash)
