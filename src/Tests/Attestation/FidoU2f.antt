-- ===== src/Tests/Attestation/FidoU2f.antt =====
-- The format "fido-u2f" at concrete inputs.
use webauthn.Prelude.{
  ℕ, ◌≡◌, refl, some, [], ◌∷◌, ◌++◌, ascii, length, bytes_eq, contains, get_or, take, drop,
  put_uint16, put_uint32,
}
use webauthn.Errors.{ok}
use webauthn.Protocol.Bytes
use webauthn.Protocol.AuthData
use webauthn.Codec.Key
use webauthn.Codec.Key.{Ec2Material}
use webauthn.Crypto.{SignatureVerifier}
use webauthn.Attestation.Registry.{VerificationResult}
use webauthn.Attestation.Statement
use webauthn.Attestation.Statement.{
  Statement, statement_of, no_entries, entry, any_bytes, any_byte_slices,
}
use webauthn.Attestation.Signature
use webauthn.Attestation.X509.Keys
use webauthn.Attestation.Format.{with_chain}
use webauthn.Attestation.Format.FidoU2f
use webauthn.Attestation.Format.FidoU2f.{U2fStatement}
use webauthn.Attestation.Format.FidoU2f.Sound.{IsU2fKey, IsU2fSigned, verify_u2f_sound}
use webauthn.Tests.Fixtures.{repeat}
use webauthn.Tests.Attestation.Fixtures.{parse, credential_key, any_signature}
use webauthn.Tests.Attestation.Formats.{request}

abbrev u2f_statement : Statement
u2f_statement = statement_of (
    entry (ascii "x5c") (any_byte_slices ((1 ∷ []) ∷ []))
      (entry (ascii "sig") (any_bytes (8 ∷ [])) no_entries))

abbrev u2f_result : VerificationResult ℕ
u2f_result = with_chain ℕ 0 (ascii "uncertain") ((1 ∷ []) ∷ [])

u2f_accepted :
    FidoU2f.verify_u2f parse ℕ 0 (some any_signature) (request (ascii "fido-u2f") u2f_statement)
    ≡ ok u2f_result
unfolding FidoU2f.verify_u2f FidoU2f.verify_u2f_with FidoU2f.verify_u2f_signed
    FidoU2f.parse_u2f_statement FidoU2f.is_p256 FidoU2f.u2f_verification_data Statement.entry_keys
    Statement.entry_at Statement.only_keys Statement.bytes_field Statement.x5c_field
    Statement.single_x5c_field Statement.clone_byte_slices Statement.non_empty_slices
    Signature.verify_attestation_signature Bytes.new_byte_value Bytes.new_signature
    Keys.public_key_material Keys.ecdsa_material Keys.curve_material Key.u2f_public_key
    AuthData.has_reserved AuthData.has_attested_credential_data
    AuthData.parse_attested_credential_data Bytes.new_credential_id get_or
    AuthData.parse_authenticator_data take drop bytes_eq contains put_uint16 put_uint32
u2f_accepted = refl

verify_u2f_sound_example :
    (verify : SignatureVerifier) × (s : U2fStatement) × (p : Ec2Material) × (some any_signature
      ≡ some verify)
    × (ascii "fido-u2f" ≡ ascii "fido-u2f")
    × (FidoU2f.parse_u2f_statement u2f_statement ≡ ok s)
    × (length (repeat 32 3) ≡ 32)
    × IsU2fKey credential_key p
    × IsU2fSigned parse ℕ 0 verify
        (request (ascii "fido-u2f") u2f_statement)
        s
        (4 ∷ (p.x ++ p.y))
        u2f_result
verify_u2f_sound_example =
    verify_u2f_sound parse ℕ 0 (some any_signature) (request (ascii "fido-u2f") u2f_statement)
      u2f_accepted
