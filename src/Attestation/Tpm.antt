-- ===== src/Attestation/Tpm.antt =====
-- attestation/tpm/: the structures that a TPM signs, and the verifier of "tpm" statements.
pub mod Reader
pub mod Algorithms
pub mod PublicArea
pub mod CertInfo
pub mod Certificate
pub mod Verify
pub mod Sound
