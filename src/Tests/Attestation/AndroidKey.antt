-- ===== src/Tests/Attestation/AndroidKey.antt =====
-- The format "android-key" at concrete inputs.
use webauthn.Prelude.{
  ℕ, ◌≡◌, refl, true, false, some, [], ◌∷◌, ◌++◌, Bytes, ascii, bytes_eq, contains, take, drop,
  put_uint16, put_uint32,
}
use webauthn.Prelude.Int.{negsuc}
use webauthn.Errors.{Result, ok}
use webauthn.Protocol.Bytes
use webauthn.Protocol.Types
use webauthn.Crypto.{SignatureVerifier}
use webauthn.Attestation.Registry.{VerificationResult}
use webauthn.Attestation.Statement
use webauthn.Attestation.Statement.{
  Statement, statement_of, no_entries, entry, any_int64, any_bytes, any_byte_slices,
}
use webauthn.Attestation.Signature
use webauthn.Attestation.X509
use webauthn.Attestation.X509.{Certificate, ecdsa_key}
use webauthn.Attestation.X509.Keys
use webauthn.Attestation.X509.Names
use webauthn.Attestation.Format.{with_chain}
use webauthn.Attestation.Format.AndroidKey
use webauthn.Attestation.Format.AndroidKey.{AndroidKeyStatement, oid_android_key_attestation}
use webauthn.Attestation.Format.AndroidKey.Description
use webauthn.Attestation.Format.AndroidKey.Sound.{IsAndroidKey, verify_android_key_sound}
use webauthn.Tests.Fixtures.{repeat}
use webauthn.Tests.Attestation.Fixtures.{asn1, aik, tlv, key, coordinate, extension, any_signature}
use webauthn.Tests.Attestation.Formats.{request}

-- The purpose is "sign" (2) and the origin "generated" (0); a number is as long as it is large.
abbrev hardware_list : Bytes
hardware_list = tlv 48 (tlv 161 (tlv 49 (tlv 2 (0 ∷ 0 ∷ []))) ++ tlv 190 (tlv 2 []))

abbrev description : Bytes
description = tlv 48 (
    tlv 2 []
    ++ (tlv 10 (0 ∷ [])
        ++ (tlv 2 []
            ++ (tlv 10 (0 ∷ [])
                ++ (tlv 4 (repeat 32 3) ++ (tlv 4 [] ++ (tlv 48 [] ++ hardware_list)))))))

abbrev leaf : Certificate
leaf = record aik {
  extensions = extension oid_android_key_attestation false description ∷ [];
  public_key = ecdsa_key (some (record key { encoded = ok (4 ∷ (coordinate 1 ++ coordinate 2)) }));
}

abbrev parse : Bytes → Result Certificate
parse raw = ok leaf

abbrev android_statement : Statement
android_statement = statement_of (
    entry (ascii "alg") (any_int64 (negsuc 6)) (
      entry (ascii "sig") (any_bytes (8 ∷ []))
        (entry (ascii "x5c") (any_byte_slices ((1 ∷ []) ∷ [])) no_entries)))

abbrev android_result : VerificationResult ℕ
android_result = with_chain ℕ 0 (ascii "basic") ((1 ∷ []) ∷ [])

android_accepted :
    AndroidKey.verify_android_key asn1 parse ℕ 0 true
      (some any_signature)
      (request (ascii "android-key") android_statement)
    ≡ ok android_result
unfolding AndroidKey.verify_android_key AndroidKey.verify_android_key_with
    AndroidKey.verify_android_key_chain AndroidKey.parse_android_key_statement Statement.entry_keys
    Statement.entry_at Statement.only_keys Statement.algorithm_field Statement.bytes_field
    Statement.x5c_field Signature.signed_data Signature.verify_attestation_signature
    Bytes.new_byte_value Bytes.new_signature Types.validate_algorithm X509.parse_certificate_chain
    X509.find_extension Keys.validate_public_key Keys.public_key_material Keys.ecdsa_material
    Keys.curve_material Names.items_loop Names.items_of Description.set_of
    Description.authorization_lists_exactly_match_webauthn Description.hardware_security_level
    Description.parse_asn1_items Description.parse_sequence_value Description.parse_sequence
    Description.parse_octet_string Description.parse_integer Description.parse_security_level
    Description.parse_explicit_int Description.parse_integers Description.parse_explicit_int_set
    Description.authorization_field Description.authorization_loop
    Description.parse_authorization_list Description.description_of
    Description.parse_android_key_description Description.validate_android_key_extension take drop
    Statement.clone_byte_slices Statement.non_empty_slices X509.parse_certificates bytes_eq contains
    put_uint16 put_uint32
android_accepted = refl

verify_android_key_sound_example :
    (verify : SignatureVerifier) × (s : AndroidKeyStatement) × (some any_signature ≡ some verify)
    × (ascii "android-key" ≡ ascii "android-key")
    × (AndroidKey.parse_android_key_statement android_statement ≡ ok s)
    × IsAndroidKey asn1 parse ℕ 0 true verify
        (request (ascii "android-key") android_statement)
        s
        android_result
verify_android_key_sound_example =
    verify_android_key_sound asn1 parse ℕ 0 true (some any_signature)
      (request (ascii "android-key") android_statement) android_accepted
