-- ===== src/Attestation/Types.antt =====
-- attestation/attestation.go: attestation types and trust path kinds.
use webauthn.Prelude.{Bool, [], ◌∷◌, Bytes, ascii, contains}

unfoldable pub known_attestation_type : Bytes → Bool
known_attestation_type = contains (
    ascii "none"
    ∷ ascii "self"
    ∷ ascii "basic"
    ∷ ascii "attca"
    ∷ ascii "anonymization-ca"
    ∷ ascii "uncertain"
    ∷ [])

unfoldable pub known_trust_path_kind : Bytes → Bool
known_trust_path_kind = contains (ascii "none" ∷ ascii "x5c" ∷ ascii "raw" ∷ ascii "compound" ∷ [])
