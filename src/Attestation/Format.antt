-- ===== src/Attestation/Format.antt =====
-- attestation/: the verifiers of the formats beside "tpm".
pub mod Basic
pub mod Packed
pub mod FidoU2f
pub mod Apple
pub mod AndroidKey
pub mod Compound
use webauthn.Prelude.{Bool, true, List, [], Bytes, ascii}
use webauthn.Attestation.Registry.{VerificationResult, verification, trust_path, no_statements}

-- A valid result without warnings and evidence, by its type: with no path, or with certificates.
module _ (E : Type 0) (no_evidence : E) where
  abbrev pub pathless : Bytes → VerificationResult E
  pathless kind =
      verification kind (trust_path (ascii "none") [] [] no_statements) true [] no_evidence

  abbrev pub with_chain : Bytes → List Bytes → VerificationResult E
  with_chain kind certificates =
      verification kind (trust_path (ascii "x5c") certificates [] no_statements) true [] no_evidence
