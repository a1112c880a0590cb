-- ===== src/Tests/Attestation.antt =====
-- Attestation statements at concrete inputs.
mod Fixtures
mod AndroidKey
mod FidoU2f
mod Formats
use webauthn.Codec.Key.{no_material}
use webauthn.Prelude.{
  ℕ, ◌^◌, ◌<◌, ◌≡◌, ◌≢◌, ◌↔◌, refl, arith, Bool, true, false, not, Option, none, some, List, [],
  ◌∷◌, ◌++◌, Bytes, IsByte, All, bytes, ascii, take, drop, get_or, length, bytes_eq, contains,
  put_uint16, put_uint32, is_empty,
}
use webauthn.Prelude.Int.{negsuc}
use webauthn.Errors.{Result, ok, err, sentinel, tpm_public_key_mismatch}
use webauthn.Protocol.Bytes
use webauthn.Protocol.AuthData
use webauthn.Protocol.AuthData.Layout.{serialize}
use webauthn.Protocol.Types
use webauthn.Crypto.{SignatureVerifier}
use webauthn.Attestation.Registry.{
  VerificationRequest, VerificationResult, verification, trust_path, no_statements,
}
use webauthn.Attestation.Statement
use webauthn.Attestation.Statement.{Statement, entries}
use webauthn.Attestation.Signature
use webauthn.Attestation.X509
use webauthn.Attestation.X509.Names
use webauthn.Attestation.X509.Keys
use webauthn.Attestation.X509.Profile
use webauthn.Attestation.Tpm.Reader
use webauthn.Attestation.Tpm.Algorithms
use webauthn.Attestation.Tpm.PublicArea
use webauthn.Attestation.Tpm.CertInfo
use webauthn.Attestation.Tpm.CertInfo.{CertifyInfo}
use webauthn.Attestation.Tpm.Certificate
use webauthn.Attestation.Tpm.Verify
use webauthn.Attestation.Tpm.CertInfo.Layout.{IsCertInfo, parse_cert_info_iff}
use webauthn.Attestation.Tpm.Algorithms.Exponent.{
  IsOddPrime, valid_tpm_rsa_exponent_iff, divisor_loop_ends,
}
use webauthn.Attestation.Tpm.Sound.{IsTpmAttested, verify_tpm_sound}
use webauthn.Attestation.Tpm.Sound.Fields.{HasBytes}
use webauthn.Tests.Fixtures.{repeat}
use webauthn.Tests.Protocol.{registered}
use webauthn.Tests.Attestation.Fixtures.{
  asn1, parse, hashes, marshal, cert_info, public_area, tpm_statement, credential_key,
  any_signature,
}

abbrev request : Bytes → Statement → VerificationRequest Statement ℕ
request format statement = record {
  format = format;
  conveyance_preference = ascii "direct";
  authenticator_data = bytes (serialize registered);
  client_data_hash = repeat 32 3;
  statement = statement;
  credential_public_key = credential_key;
  raw_attestation_object = bytes (1 ∷ []);
}

abbrev tpm_result : VerificationResult ℕ
tpm_result =
    verification (ascii "attca") (trust_path (ascii "x5c") ((1 ∷ []) ∷ []) [] no_statements) true []
      0

tpm_accepted :
    Verify.verify_tpm hashes asn1 marshal parse ℕ 0
      (some any_signature)
      (request (ascii "tpm") tpm_statement)
    ≡ ok tpm_result
unfolding Verify.verify_tpm Verify.verify_tpm_with Verify.parse_tpm_statement
    Verify.verify_structures Verify.verify_certified Statement.entry_keys Statement.entry_at
    Statement.only_keys Statement.string_field Statement.algorithm_field Statement.bytes_field
    Statement.x5c_field Statement.clone_byte_slices Statement.non_empty_slices Signature.signed_data
    Signature.verify_attestation_signature X509.parse_certificates X509.parse_certificate_chain
    X509.find_extension X509.has_extension Names.items_loop Names.items_of Names.raw_items
    Names.name_attribute Names.name_attributes Names.attributes_of_sets Names.parse_name_attributes
    Keys.public_key_material Keys.ecdsa_material Keys.curve_material Profile.is_end_entity
    Profile.validate_aaguid_extension Reader.read_uint16 Reader.read_uint32 Reader.read_uint64
    Reader.sized_bytes Reader.skip Algorithms.signature_algorithm_spec Algorithms.tpm_curve
    Algorithms.tpm_hash PublicArea.parse_symmetric_definition PublicArea.parse_scheme_hash
    PublicArea.parse_scheme PublicArea.check_point PublicArea.parse_ecc_public_area
    PublicArea.parse_key PublicArea.parse_public_area PublicArea.validate_public_area_binding
    PublicArea.public_area_name CertInfo.parse_cert_info CertInfo.validate_cert_info_binding
    CertInfo.set_bytes CertInfo.parse_ecdsa_signature CertInfo.parse_signature_value
    CertInfo.parse_tpm_signature Certificate.subject_empty Certificate.has_aik_eku
    Certificate.all_upper_hex Certificate.valid_tpm_hex_id Certificate.tpm_attribute
    Certificate.tpm_attributes_loop Certificate.name_has_tpm_attributes Certificate.san_attributes
    Certificate.has_tpm_san_attributes Certificate.validate_aik_certificate
    AuthData.parse_authenticator_data AuthData.has_reserved AuthData.has_attested_credential_data
    AuthData.has_extension_data AuthData.parse_rest AuthData.parse_attested_credential_data
    Bytes.new_credential_id Bytes.new_byte_value Bytes.new_signature Types.validate_algorithm take
    drop get_or bytes_eq contains put_uint16 put_uint32
tpm_accepted = refl

cert_info-IsByte : All IsByte cert_info
cert_info-IsByte = omega arith

public_area-IsByte : All IsByte public_area
public_area-IsByte = omega arith

statement-HasBytes : HasBytes (entries tpm_statement)
statement-HasBytes = (tt, (tt, (tt, (omega arith, (cert_info-IsByte, (public_area-IsByte, tt))))))

verify_tpm_sound_example :
    (verify : SignatureVerifier) × (some any_signature ≡ some verify)
    × IsTpmAttested hashes asn1 marshal parse ℕ 0 verify
        (request (ascii "tpm") tpm_statement)
        tpm_result
verify_tpm_sound_example =
    verify_tpm_sound hashes asn1 marshal parse ℕ 0 (some any_signature)
      (request (ascii "tpm") tpm_statement) statement-HasBytes tpm_accepted

abbrev certified : CertifyInfo
certified = record { extra_data = 1 ∷ 1 ∷ 1 ∷ 1 ∷ []; name = 0 ∷ 0x0b ∷ 0 ∷ 0x23 ∷ 0 ∷ 0x0b ∷ [] }

parse_cert_info_iff_example :
    (CertInfo.parse_cert_info cert_info ≡ ok certified) ↔ IsCertInfo cert_info certified
parse_cert_info_iff_example = parse_cert_info_iff cert_info certified cert_info-IsByte

valid_tpm_rsa_exponent_iff_example :
    (Algorithms.valid_tpm_rsa_exponent 65537 ≡ true) ↔ IsOddPrime 65537
valid_tpm_rsa_exponent_iff_example = valid_tpm_rsa_exponent_iff 65537 (omega arith)

divisor_loop_ends_example : Algorithms.divisor_loop 4294967291 ≢ none
divisor_loop_ends_example = divisor_loop_ends 4294967291 (omega arith)

-- The usual exponents, a composite one and an even one.
exponents :
    (Algorithms.valid_tpm_rsa_exponent 3 ≡ true)
    × (Algorithms.valid_tpm_rsa_exponent 65537 ≡ true)
    × (Algorithms.valid_tpm_rsa_exponent 9 ≡ false)
    × (Algorithms.valid_tpm_rsa_exponent 4 ≡ false)
unfolding Algorithms.valid_tpm_rsa_exponent Algorithms.divisor_loop Algorithms.has_no_divisor
exponents = (refl, refl, refl, refl)

-- Another key than that of the public area is a mismatch.
other_key :
    Verify.verify_structures hashes asn1 marshal parse ℕ 0
      (record (request (ascii "tpm") tpm_statement) {
        credential_public_key = record credential_key {
          material = record no_material {
            ec2 = some (record { curve = ascii "P-256"; x = repeat 32 1; y = repeat 32 3 });
          };
        };
      })
      (record {
        version = ascii "2.0";
        algorithm = negsuc 6;
        x5c = (1 ∷ []) ∷ [];
        signature = [];
        cert_info = cert_info;
        public_area = public_area;
      })
      (record { cose = negsuc 6; signature_alg = 0x18; hash_alg = 0x0b })
    ≡ err (sentinel tpm_public_key_mismatch)
unfolding Verify.verify_structures Reader.read_uint16 Reader.read_uint32 Reader.sized_bytes
    Algorithms.tpm_curve PublicArea.parse_symmetric_definition PublicArea.parse_scheme
    PublicArea.check_point PublicArea.parse_ecc_public_area PublicArea.parse_key
    PublicArea.parse_public_area PublicArea.validate_public_area_binding take drop get_or bytes_eq
other_key = refl
