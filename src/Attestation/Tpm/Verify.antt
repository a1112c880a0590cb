-- ===== src/Attestation/Tpm/Verify.antt =====
-- attestation/tpm/tpm.go and statement.go: the verifier of "tpm" statements.
use webauthn.Prelude.{
  ℕ, true, not, ◌||◌, Option, none, some, List, [], ◌∷◌, Bytes, ascii, is_empty, bytes_eq, ◌==◌,
}
use webauthn.Errors.{
  present, Error, Result, ok, err, ◌>>=◌, ◌>>◌, refuse_if, wrapped, sentinel, tpm_invalid_statement,
  tpm_unsupported_algorithm, tpm_unsupported_key, tpm_invalid_signature,
}
use webauthn.Protocol.Bytes.{len}
use webauthn.Protocol.Types.{CoseAlgorithm}
use webauthn.Protocol.AuthData.{parse_authenticator_data}
use webauthn.Crypto.{SignatureVerifier}
use webauthn.Attestation.Registry.{
  VerificationRequest, VerificationResult, verification, trust_path, no_statements,
}
use webauthn.Attestation.Statement.{
  Statement, statement_length, entries, entry_keys, field, only_keys, string_field, algorithm_field,
  x5c_field, bytes_field,
}
use webauthn.Attestation.Signature.{signed_data, verify_attestation_signature}
use webauthn.Attestation.X509.{Asn1, Certificate, parse_certificate_chain}
use webauthn.Attestation.X509.Keys.{public_key_material}
use webauthn.Attestation.Tpm.Algorithms.{
  CoseAlgorithmSpec, signature_algorithm_spec, Hashes, tpm_hash,
}
use webauthn.Attestation.Tpm.PublicArea.{
  parse_public_area, validate_public_area_binding, public_area_name,
}
use webauthn.Attestation.Tpm.CertInfo.{
  parse_cert_info, validate_cert_info_binding, parse_tpm_signature,
}
use webauthn.Attestation.Tpm.Certificate.{validate_aik_certificate}

abbrev pub invalid : Error
invalid = sentinel tpm_invalid_statement

abbrev pub tpm_format : Bytes
tpm_format = ascii "tpm"

pub record TpmStatement : Type 0 where
  pub version : Bytes
  pub algorithm : CoseAlgorithm
  pub x5c : List Bytes
  pub signature : Bytes
  pub cert_info : Bytes
  pub public_area : Bytes

abbrev pub tpm_keys : List Bytes
tpm_keys =
    ascii "ver" ∷ ascii "alg" ∷ ascii "x5c" ∷ ascii "sig" ∷ ascii "certInfo" ∷ ascii "pubArea" ∷ []

unfoldable pub parse_tpm_statement : Statement → Result TpmStatement
parse_tpm_statement s = do
  refuse_if (not (statement_length s == 6)) invalid
  only_keys invalid tpm_keys (entry_keys (entries s))
  version ← string_field (field s (ascii "ver")) invalid
  algorithm ← algorithm_field (field s (ascii "alg")) invalid
  x5c ← x5c_field (field s (ascii "x5c")) invalid
  signature ← bytes_field (field s (ascii "sig")) invalid
  cert_info ← bytes_field (field s (ascii "certInfo")) invalid
  public_area ← bytes_field (field s (ascii "pubArea")) invalid
  ok (record {
    version = version;
    algorithm = algorithm;
    x5c = x5c;
    signature = signature;
    cert_info = cert_info;
    public_area = public_area;
  })

-- The hashes, ASN.1 and the parser of certificates, the type of evidence and nil.
module _ (g : Hashes) (asn1 : Asn1) (marshal : ℕ → ℕ → Result Bytes)
    (parse : Bytes → Result Certificate) (E : Type 0) (no_evidence : E) where
  -- `certInfo` signs the name of the public area and the hash of what the client signed.
  unfoldable pub verify_structures :
      VerificationRequest Statement E → TpmStatement → CoseAlgorithmSpec → Result (Unit {0})
  verify_structures r s spec = do
    public_area ← parse_public_area s.public_area
    validate_public_area_binding public_area r.credential_public_key.material
    name ← public_area_name g public_area
    extra_data ← tpm_hash g spec.hash_alg (signed_data r.authenticator_data r.client_data_hash)
    cert_info ← parse_cert_info s.cert_info
    validate_cert_info_binding cert_info extra_data name

  -- The certificate chain, and the signature of the certified key over `certInfo`.
  unfoldable pub verify_certified :
      SignatureVerifier → TpmStatement → CoseAlgorithmSpec → Bytes → Result (List Bytes)
  verify_certified verify s spec aaguid = do
    chain ← parse_certificate_chain parse s.x5c invalid
    validate_aik_certificate asn1 chain.leaf aaguid
    signature ← parse_tpm_signature marshal s.signature spec
    material ← present (sentinel tpm_unsupported_key) (public_key_material chain.leaf.public_key)
    verify_attestation_signature (some verify)
        (record {
          algorithm = s.algorithm;
          public_key = material;
          raw_credential_public_key = [];
          signed = s.cert_info;
          signature = signature;
        })
        (sentinel tpm_invalid_signature) (sentinel tpm_invalid_signature)
    ok chain.raw_chain

  unfoldable pub verify_tpm_with :
      SignatureVerifier → VerificationRequest Statement E → Result (VerificationResult E)
  verify_tpm_with verify r = do
    refuse_if (not (bytes_eq r.format tpm_format)) invalid
    s ← parse_tpm_statement r.statement
    refuse_if (not (bytes_eq s.version (ascii "2.0"))) invalid
    spec ← present (sentinel tpm_unsupported_algorithm) (signature_algorithm_spec s.algorithm)
    refuse_if (len r.authenticator_data == 0 || is_empty r.client_data_hash) invalid
    parsed ← wrapped invalid (parse_authenticator_data r.authenticator_data)
    attested ← present invalid parsed.attested
    verify_structures r s spec
    certificates ← verify_certified verify s spec attested.aaguid
    ok (
        verification (ascii "attca") (trust_path (ascii "x5c") certificates [] no_statements) true
          [] no_evidence)

  unfoldable pub verify_tpm :
      Option SignatureVerifier → VerificationRequest Statement E → Result (VerificationResult E)
  verify_tpm none r = err invalid
  verify_tpm (some verify) r = verify_tpm_with verify r
