-- ===== src/Crypto.antt =====
-- crypto/crypto.go: the contracts of the injected cryptography. A certificate is its raw bytes.
use webauthn.Prelude.{Bool, List, Bytes}
use webauthn.Prelude.Int.{ℤ}
use webauthn.Errors.{Result}
use webauthn.Protocol.Bytes.{Signature}
use webauthn.Protocol.Types.{CoseAlgorithm}
use webauthn.Codec.Key.{Material}

pub record SignatureInput : Type 0 where
  pub algorithm : CoseAlgorithm
  pub public_key : Material
  pub raw_credential_public_key : Bytes
  pub signed : Bytes
  pub signature : Signature

-- A verifier returns nil or an error; a nil verifier is `none`.
abbrev pub SignatureVerifier : Type 0
SignatureVerifier = SignatureInput → Result (Unit {0})

-- The time is in nanoseconds, as in the ceremonies.
pub record CertificateVerificationContext : Type 0 where
  pub dns_name : Bytes
  pub current_time : ℤ
  pub roots : List Bytes

pub record CertificateVerification : Type 0 where
  pub trusted : Bool
  pub warnings : List Bytes

abbrev pub CertificateVerifier : Type 0
CertificateVerifier = List Bytes → CertificateVerificationContext → Result CertificateVerification
