-- ===== src/Attestation/Format/FidoU2f.antt =====
-- attestation/fidou2f: the verifier of "fido-u2f" statements.
pub mod Sound
use webauthn.Prelude.{
  Bool, false, not, ◌||◌, Option, none, some, [], ◌∷◌, ◌++◌, Bytes, content, ascii, length, get_or,
  bytes_eq, ◌==◌,
}
use webauthn.Prelude.Int.{eq_ℤ}
use webauthn.Errors.{
  Error, Result, ok, err, ◌>>=◌, ◌>>◌, refuse_if, wrapped, present, sentinel,
  fido_u2f_invalid_statement, fido_u2f_unsupported_key, fido_u2f_invalid_signature,
}
use webauthn.Protocol.Bytes.{CredentialId}
use webauthn.Protocol.Types.{algorithm_es256}
use webauthn.Protocol.AuthData.{parse_authenticator_data}
use webauthn.Codec.Key.{u2f_public_key}
use webauthn.Crypto.{SignatureVerifier}
use webauthn.Attestation.Registry.{VerificationRequest, VerificationResult}
use webauthn.Attestation.Statement.{
  Statement, statement_length, entries, entry_keys, field, only_keys, bytes_field, single_x5c_field,
}
use webauthn.Attestation.Signature.{verify_attestation_signature}
use webauthn.Attestation.X509.{Certificate, PublicKey, ecdsa_key}
use webauthn.Attestation.X509.Keys.{public_key_material}
use webauthn.Attestation.Format.{with_chain}

abbrev pub invalid : Error
invalid = sentinel fido_u2f_invalid_statement

abbrev pub unsupported : Error
unsupported = sentinel fido_u2f_unsupported_key

pub record U2fStatement : Type 0 where
  pub x5c : Bytes
  pub signature : Bytes

unfoldable pub parse_u2f_statement : Statement → Result U2fStatement
parse_u2f_statement s = do
  refuse_if (not (statement_length s == 2)) invalid
  only_keys invalid (ascii "x5c" ∷ ascii "sig" ∷ []) (entry_keys (entries s))
  x5c ← single_x5c_field (field s (ascii "x5c")) invalid
  signature ← bytes_field (field s (ascii "sig")) invalid
  ok (record { x5c = x5c; signature = signature })

abbrev pub is_curve : Option Bytes → Bool
is_curve none = false
is_curve (some name) = bytes_eq name (ascii "P-256")

-- `certificate.PublicKey.(*ecdsa.PublicKey)` and `isP256`.
unfoldable pub is_p256 : PublicKey → Bool
is_p256 (ecdsa_key none) = false
is_p256 (ecdsa_key (some k)) = is_curve k.curve_name
is_p256 _ = false

unfoldable pub u2f_verification_data : Bytes → Bytes → CredentialId → Bytes → Bytes
u2f_verification_data rp_id_hash client_data_hash id public_key_u2f =
    0 ∷ (rp_id_hash ++ (client_data_hash ++ (content id ++ public_key_u2f)))

module _ (parse : Bytes → Result Certificate) (E : Type 0) (no_evidence : E) where
  -- From the authenticator data on, with the key in the form of U2F.
  unfoldable pub verify_u2f_signed :
      SignatureVerifier
      → VerificationRequest Statement E
      → U2fStatement
      → Bytes
      → Result (VerificationResult E)
  verify_u2f_signed verify r s key = do
    parsed ← wrapped invalid (parse_authenticator_data r.authenticator_data)
    attested ← present invalid parsed.attested
    certificate ← wrapped invalid (parse s.x5c)
    refuse_if (not (is_p256 certificate.public_key)) unsupported
    material ← present unsupported (public_key_material certificate.public_key)
    verify_attestation_signature (some verify)
        (record {
          algorithm = algorithm_es256;
          public_key = material;
          raw_credential_public_key = [];
          signed =
              u2f_verification_data parsed.rp_id_hash r.client_data_hash attested.credential_id key;
          signature = s.signature;
        })
        invalid (sentinel fido_u2f_invalid_signature)
    ok (with_chain E no_evidence (ascii "uncertain") (s.x5c ∷ []))

  unfoldable pub verify_u2f_with :
      SignatureVerifier → VerificationRequest Statement E → Result (VerificationResult E)
  verify_u2f_with verify r = do
    refuse_if (not (bytes_eq r.format (ascii "fido-u2f"))) invalid
    s ← parse_u2f_statement r.statement
    refuse_if (not (eq_ℤ r.credential_public_key.algorithm algorithm_es256)) unsupported
    let key = u2f_public_key r.credential_public_key
    refuse_if (not (length key == 65) || not (get_or key 0 0 == 4)) unsupported
    refuse_if (not (length r.client_data_hash == 32)) invalid
    verify_u2f_signed verify r s key

  unfoldable pub verify_u2f :
      Option SignatureVerifier → VerificationRequest Statement E → Result (VerificationResult E)
  verify_u2f none r = err invalid
  verify_u2f (some verify) r = verify_u2f_with verify r
