-- ===== src/Protocol/Identifier.antt =====
-- internal/protocolidentifier/identifier.go: extension and attestation format identifiers.
use webauthn.Prelude.{ℕ, Bool, not, ◌&&◌, ◌||◌, Bytes, length, all, ltb, ◌==◌}

abbrev pub max_identifier_length : ℕ
max_identifier_length = 32

-- A printable ASCII byte other than the double quote and the backslash.
unfoldable pub is_identifier_byte : ℕ → Bool
is_identifier_byte c = not (ltb c 0x21 || ltb 0x7e c || c == b'"' || c == b'\\')

unfoldable pub valid_identifier : Bytes → Bool
unfolding is_identifier_byte
valid_identifier value =
    not (length value == 0 || ltb max_identifier_length (length value))
    && all is_identifier_byte value
