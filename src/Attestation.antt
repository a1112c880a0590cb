-- ===== src/Attestation.antt =====
-- attestation/: the names of types and trust paths, and the verifier registry.
pub mod Types
pub mod Registry
pub mod Tpm
pub mod Statement
pub mod X509
pub mod Signature
pub mod Policy
pub mod Format
