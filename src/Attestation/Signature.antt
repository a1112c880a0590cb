-- ===== src/Attestation/Signature.antt =====
-- attestation/internal/attcrypto: the signed data and the call of the signature verifier.
use webauthn.Prelude.{◌≡◌, sym, arith, Option, none, some, ◌++◌, Bytes, bytes, content}
use webauthn.Errors.{call_step, wrapped-eq-ok, Error, Result, ok, err, ◌>>=◌, wrapped, annotate}
use webauthn.Protocol.Bytes.{AuthenticatorData, new_signature}
use webauthn.Protocol.Types.{CoseAlgorithm}
use webauthn.Codec.Key.{Material}
use webauthn.Crypto.{SignatureVerifier}

unfoldable pub signed_data : AuthenticatorData → Bytes → Bytes
signed_data authenticator_data client_data_hash = content authenticator_data ++ client_data_hash

-- What a format hands to the shared call.
pub record SignatureCheck : Type 0 where
  pub algorithm : CoseAlgorithm
  pub public_key : Material
  pub raw_credential_public_key : Bytes
  pub signed : Bytes
  pub signature : Bytes

unfoldable pub verify_attestation_signature :
    Option SignatureVerifier → SignatureCheck → Error → Error → Result (Unit {0})
verify_attestation_signature none c malformed_signature invalid_signature =
    err (annotate invalid_signature "signature verifier is nil")
verify_attestation_signature (some verify) c malformed_signature invalid_signature = do
  signature ← wrapped malformed_signature (new_signature (bytes c.signature))
  wrapped invalid_signature (
      verify (record {
        algorithm = c.algorithm;
        public_key = c.public_key;
        raw_credential_public_key = c.raw_credential_public_key;
        signed = c.signed;
        signature = signature;
      }))

-- A signature that passes is not empty, and the verifier accepted it.
pub verify_attestation_signature-verified :
    (verify : SignatureVerifier) (c : SignatureCheck)
    (malformed_signature invalid_signature : Error)
    → verify_attestation_signature (some verify) c malformed_signature invalid_signature ≡ ok tt
    → verify (record {
      algorithm = c.algorithm;
      public_key = c.public_key;
      raw_credential_public_key = c.raw_credential_public_key;
      signed = c.signed;
      signature = bytes c.signature;
    })
      ≡ ok tt
unfolding verify_attestation_signature new_signature
verify_attestation_signature-verified verify c malformed_signature invalid_signature h =
    call_step (wrapped malformed_signature (new_signature (bytes c.signature))) h (λ signature e h1.
      let same : signature ≡ bytes c.signature = ground arith in
      rw (sym same) (wrapped-eq-ok invalid_signature (verify _) h1))
