-- ===== src/Codec.antt =====
-- codec/codec.go: credential public keys and their typed material.
pub mod Key
