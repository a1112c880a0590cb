-- ===== src/Attestation/Format/AndroidKey.antt =====
-- attestation/androidkey/androidkey.go and statement.go: the verifier of "android-key" statements.
pub mod Description
pub mod Exact
pub mod Sound
use webauthn.Prelude.{
  Bool, true, false, not, ◌||◌, Option, none, some, List, [], ◌∷◌, Bytes, ascii, is_empty, bytes_eq,
  ◌==◌,
}
use webauthn.Errors.{
  Error, Result, ok, err, ◌>>=◌, ◌>>◌, refuse_if, present, sentinel, android_key_invalid_statement,
  android_key_unsupported_key, android_key_public_key_mismatch, android_key_invalid_signature,
  android_key_certificate_requirements,
}
use webauthn.Protocol.Bytes.{len}
use webauthn.Protocol.Types.{CoseAlgorithm}
use webauthn.Crypto.{SignatureVerifier}
use webauthn.Attestation.Registry.{VerificationRequest, VerificationResult}
use webauthn.Attestation.Statement.{
  Statement, statement_length, entries, entry_keys, field, only_keys, algorithm_field, bytes_field,
  x5c_field,
}
use webauthn.Attestation.Signature.{signed_data, verify_attestation_signature}
use webauthn.Attestation.X509.{Oid, Asn1, Certificate, find_extension, parse_certificate_chain}
use webauthn.Attestation.X509.Keys.{validate_public_key, public_key_material}
use webauthn.Attestation.Format.{with_chain}
use webauthn.Attestation.Format.AndroidKey.Description.{validate_android_key_extension}

abbrev pub invalid : Error
invalid = sentinel android_key_invalid_statement

abbrev pub unsupported : Error
unsupported = sentinel android_key_unsupported_key

abbrev pub oid_android_key_attestation : Oid
oid_android_key_attestation = 1 ∷ 3 ∷ 6 ∷ 1 ∷ 4 ∷ 1 ∷ 11129 ∷ 2 ∷ 1 ∷ 17 ∷ []

pub record AndroidKeyStatement : Type 0 where
  pub algorithm : CoseAlgorithm
  pub signature : Bytes
  pub x5c : List Bytes

unfoldable pub parse_android_key_statement : Statement → Result AndroidKeyStatement
parse_android_key_statement s = do
  refuse_if (not (statement_length s == 3)) invalid
  only_keys invalid (ascii "alg" ∷ ascii "sig" ∷ ascii "x5c" ∷ []) (entry_keys (entries s))
  algorithm ← algorithm_field (field s (ascii "alg")) invalid
  signature ← bytes_field (field s (ascii "sig")) invalid
  x5c ← x5c_field (field s (ascii "x5c")) invalid
  ok (record { algorithm = algorithm; signature = signature; x5c = x5c })

-- The last argument of the section is `Policy.RequireHardwareEnforced`.
module _ (asn1 : Asn1) (parse : Bytes → Result Certificate) (E : Type 0) (no_evidence : E)
    (require_hardware_enforced : Bool) where
  -- The certificates, and the signature of the key of the first one.
  unfoldable pub verify_android_key_chain :
      SignatureVerifier
      → VerificationRequest Statement E
      → AndroidKeyStatement
      → Result (VerificationResult E)
  verify_android_key_chain verify r s = do
    chain ← parse_certificate_chain parse s.x5c invalid
    validate_public_key unsupported (sentinel android_key_public_key_mismatch) chain.leaf.public_key
        r.credential_public_key.material
    extension ←
        present (sentinel android_key_certificate_requirements)
          (find_extension chain.leaf oid_android_key_attestation)
    validate_android_key_extension asn1 extension.extension_value r.client_data_hash
        require_hardware_enforced
    material ← present unsupported (public_key_material chain.leaf.public_key)
    verify_attestation_signature (some verify)
        (record {
          algorithm = s.algorithm;
          public_key = material;
          raw_credential_public_key = [];
          signed = signed_data r.authenticator_data r.client_data_hash;
          signature = s.signature;
        })
        (sentinel android_key_invalid_signature) (sentinel android_key_invalid_signature)
    ok (with_chain E no_evidence (ascii "basic") chain.raw_chain)

  unfoldable pub verify_android_key_with :
      SignatureVerifier → VerificationRequest Statement E → Result (VerificationResult E)
  verify_android_key_with verify r = do
    refuse_if (not (bytes_eq r.format (ascii "android-key"))) invalid
    s ← parse_android_key_statement r.statement
    refuse_if (len r.authenticator_data == 0 || is_empty r.client_data_hash) invalid
    verify_android_key_chain verify r s

  unfoldable pub verify_android_key :
      Option SignatureVerifier → VerificationRequest Statement E → Result (VerificationResult E)
  verify_android_key none r = err invalid
  verify_android_key (some verify) r = verify_android_key_with verify r
