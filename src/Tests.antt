-- ===== src/Tests.antt =====
-- Concrete runs, and the theorems at concrete inputs.
mod Fixtures
mod Protocol
mod Registration
mod Extensions
mod RelyingParty
mod Credentials
mod Authentication
mod Attestation
