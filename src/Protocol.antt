-- ===== src/Protocol.antt =====
-- The package protocol: byte values, protocol values and authenticator data.
pub mod Bytes
pub mod Identifier
pub mod Types
pub mod Options
pub mod ClientData
pub mod AuthData
