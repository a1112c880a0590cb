-- ===== src/Attestation/Format/Apple.antt =====
-- attestation/apple: the verifier of "apple" statements.
use webauthn.Prelude.{not, ◌||◌, List, [], ◌∷◌, Bytes, ascii, is_empty, length, bytes_eq, ◌==◌}
use webauthn.Errors.{
  Error, Result, ok, ◌>>=◌, ◌>>◌, refuse_if, present, sentinel, apple_invalid_statement,
  apple_unsupported_key, apple_public_key_mismatch, apple_invalid_nonce,
  apple_certificate_requirements,
}
use webauthn.Protocol.Bytes.{len}
use webauthn.Attestation.Registry.{VerificationRequest, VerificationResult}
use webauthn.Attestation.Statement.{
  Statement, statement_length, entries, entry_keys, field, only_keys, x5c_field,
}
use webauthn.Attestation.Signature.{signed_data}
use webauthn.Attestation.X509.{Oid, Asn1, Certificate, find_extension, parse_certificate_chain}
use webauthn.Attestation.X509.Names.{exactly, is_not}
use webauthn.Attestation.X509.Keys.{validate_public_key}
use webauthn.Attestation.Format.{with_chain}

abbrev pub invalid : Error
invalid = sentinel apple_invalid_statement

abbrev nonce_error : Error
nonce_error = sentinel apple_invalid_nonce

abbrev oid_apple_nonce : Oid
oid_apple_nonce = 1 ∷ 2 ∷ 840 ∷ 113635 ∷ 100 ∷ 8 ∷ 2 ∷ []

unfoldable pub parse_apple_statement : Statement → Result (List Bytes)
parse_apple_statement s = do
  refuse_if (not (statement_length s == 1)) invalid
  only_keys invalid (ascii "x5c" ∷ []) (entry_keys (entries s))
  x5c_field (field s (ascii "x5c")) invalid

module _ (sha256 : Bytes → Bytes) (asn1 : Asn1) (parse : Bytes → Result Certificate) (E : Type 0)
    (no_evidence : E) where
  unfoldable pub validate_nonce_extension : Certificate → Bytes → Result (Unit {0})
  validate_nonce_extension c expected = do
    extension ← present (sentinel apple_certificate_requirements) (find_extension c oid_apple_nonce)
    sequence ← exactly nonce_error (asn1.unmarshal_raw extension.extension_value)
    refuse_if (is_not 0 16 sequence) nonce_error
    explicit_nonce ← exactly nonce_error (asn1.unmarshal_raw sequence.body)
    refuse_if (is_not 2 1 explicit_nonce) nonce_error
    nonce ← exactly nonce_error (asn1.unmarshal_octets explicit_nonce.body)
    refuse_if (not (length nonce == 32)) nonce_error
    refuse_if (not (bytes_eq nonce expected)) nonce_error

  unfoldable pub verify_apple : VerificationRequest Statement E → Result (VerificationResult E)
  verify_apple r = do
    refuse_if (not (bytes_eq r.format (ascii "apple"))) invalid
    x5c ← parse_apple_statement r.statement
    refuse_if (len r.authenticator_data == 0 || is_empty r.client_data_hash) invalid
    chain ← parse_certificate_chain parse x5c invalid
    validate_nonce_extension chain.leaf
        (sha256 (signed_data r.authenticator_data r.client_data_hash))
    validate_public_key (sentinel apple_unsupported_key) (sentinel apple_public_key_mismatch)
        chain.leaf.public_key r.credential_public_key.material
    ok (with_chain E no_evidence (ascii "anonymization-ca") chain.raw_chain)
