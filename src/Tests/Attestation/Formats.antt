-- ===== src/Tests/Attestation/Formats.antt =====
-- The formats "packed" and "compound" and the trust policies at concrete inputs.
use webauthn.Prelude.{
  ℕ, ◌≡◌, ◌↔◌, refl, true, false, Option, none, some, [], ◌∷◌, Bytes, bytes, ascii, bytes_eq,
  contains, lookup, all, put_uint16, put_uint32,
}
use webauthn.Prelude.Int.{pos, negsuc}
use webauthn.Errors.{Error, ok}
use webauthn.Protocol.Bytes
use webauthn.Protocol.Identifier
use webauthn.Protocol.AuthData.Layout.{serialize}
use webauthn.Protocol.Types
use webauthn.Crypto.{SignatureVerifier}
use webauthn.Attestation.Types as AttestationTypes
use webauthn.Attestation.Registry
use webauthn.Attestation.Registry.{
  VerificationRequest, VerificationResult, verification, trust_path, no_statements, statement,
  Registry, TrustRequest, TrustResult, TrustPolicy, Verifier,
}
use webauthn.Attestation.Statement
use webauthn.Attestation.Statement.{
  Statement, statement_of, no_entries, entry, any_int64, any_bytes, any_byte_slices,
  any_sub_statements, sub_statement, no_sub_statements,
}
use webauthn.Attestation.Signature
use webauthn.Attestation.Format.Packed
use webauthn.Attestation.Format.Packed.{PackedStatement}
use webauthn.Attestation.Format.Packed.Sound.{IsPacked, verify_packed_sound}
use webauthn.Attestation.Format.Compound
use webauthn.Attestation.Format.Compound.Sound.{IsCompound, verify_compound_sound}
use webauthn.Attestation.Policy
use webauthn.Attestation.Policy.Compose
use webauthn.Attestation.Policy.Compose.{IsFirst, IsAccepted, any_of_accepts_iff}
use webauthn.Tests.Fixtures.{repeat}
use webauthn.Tests.Protocol.{registered}
use webauthn.Tests.Attestation.Fixtures.{asn1, parse, credential_key, any_signature}

abbrev pub request : Bytes → Statement → VerificationRequest Statement ℕ
request format s = record {
  format = format;
  conveyance_preference = ascii "direct";
  authenticator_data = bytes (serialize registered);
  client_data_hash = repeat 32 3;
  statement = s;
  credential_public_key = credential_key;
  raw_attestation_object = bytes (1 ∷ []);
}

abbrev self_statement : Statement
self_statement = statement_of (
    entry (ascii "alg") (any_int64 (negsuc 6))
      (entry (ascii "sig") (any_bytes (8 ∷ [])) no_entries))

abbrev self_result : VerificationResult ℕ
self_result = verification (ascii "self") (trust_path (ascii "none") [] [] no_statements) true [] 0

self_accepted :
    Packed.verify_packed asn1 parse ℕ 0
      (some any_signature)
      (request (ascii "packed") self_statement)
    ≡ ok self_result
unfolding Packed.verify_packed Packed.verify_self Packed.parse_packed_statement Statement.entry_keys
    Statement.entry_at Statement.only_keys Statement.algorithm_field Statement.bytes_field
    Signature.signed_data Signature.verify_attestation_signature Bytes.new_byte_value
    Bytes.new_signature Types.validate_algorithm bytes_eq contains put_uint16 put_uint32
self_accepted = refl

verify_packed_sound_example :
    (verify : SignatureVerifier) × (s : PackedStatement) × (some any_signature ≡ some verify)
    × (ascii "packed" ≡ ascii "packed")
    × (Packed.parse_packed_statement self_statement ≡ ok s)
    × IsPacked asn1 parse ℕ 0 verify (request (ascii "packed") self_statement) s self_result
verify_packed_sound_example =
    verify_packed_sound asn1 parse ℕ 0 (some any_signature)
      (request (ascii "packed") self_statement) self_accepted

-- Two sub-statements, of "packed" and of a format without a verifier.
abbrev compound_statement : Statement
compound_statement = statement_of (
    entry (ascii "statements")
      (any_sub_statements (
        sub_statement (ascii "packed") self_statement
          (sub_statement (ascii "tpm") (statement_of no_entries) no_sub_statements)))
      no_entries)

abbrev registry : Registry Statement ℕ
registry =
    (
      ascii "packed",
      record {
        format = ascii "packed";
        verify_attestation = Packed.verify_packed asn1 parse ℕ 0 (some any_signature);
      },
    )
    ∷ []

abbrev one_of_two : Compound.Policy
one_of_two = record { minimum_successful = pos 1; require_all = false; max_statements = pos 0 }

abbrev never : ℕ → Option Error
never round = none

abbrev compound_accepted_result : VerificationResult ℕ
compound_accepted_result =
    verification (ascii "uncertain")
      (trust_path (ascii "compound") [] [] (statement self_result no_statements)) true
      (ascii "compound sub-statement verifier missing: tpm" ∷ []) 1

compound_accepted :
    Compound.verify_compound ℕ
      (λ got want. got)
      never
      (some registry)
      one_of_two
      (request (ascii "compound") compound_statement)
    ≡ ok compound_accepted_result
unfolding Packed.verify_packed Packed.verify_self Packed.parse_packed_statement Statement.entry_keys
    Statement.entry_at Statement.only_keys Statement.algorithm_field Statement.bytes_field
    Signature.signed_data Signature.verify_attestation_signature Bytes.new_byte_value
    Bytes.new_signature Types.validate_algorithm Compound.verify_compound
    Compound.verify_compound_with Compound.required_successes Compound.check_sub_statements
    Compound.compound_sub_statements Compound.sub_statements_loop Registry.lookup_verifier
    AttestationTypes.known_attestation_type AttestationTypes.known_trust_path_kind
    Identifier.valid_identifier lookup bytes_eq contains all put_uint16 put_uint32
compound_accepted = refl

verify_compound_sound_example :
    (g : Registry Statement ℕ) × (some registry ≡ some g)
    × IsCompound ℕ
        (λ got want. got)
        never
        g
        (request (ascii "compound") compound_statement)
        one_of_two
        compound_accepted_result
verify_compound_sound_example =
    verify_compound_sound ℕ (λ got want. got) never (some registry) one_of_two
      (request (ascii "compound") compound_statement) compound_accepted

abbrev trust_request : TrustRequest Statement ℕ
trust_request = record {
  format = ascii "packed";
  result = self_result;
  aaguid = repeat 16 0;
  authenticator_data = bytes (serialize registered);
  credential_public_key = credential_key;
  raw_attestation_object = bytes (1 ∷ []);
}

any_of_accepts_iff_example :
    (Compose.any_of Statement ℕ
        (some (Policy.accept_none Statement ℕ) ∷ some (Policy.accept_self Statement ℕ) ∷ [])
        trust_request
      ≡ ok (Policy.accept (ascii "self attestation accepted by policy")))
    ↔ IsFirst Statement ℕ trust_request
        (Policy.accept (ascii "self attestation accepted by policy"))
        (some (Policy.accept_none Statement ℕ) ∷ some (Policy.accept_self Statement ℕ) ∷ [])
any_of_accepts_iff_example =
    any_of_accepts_iff Statement ℕ
      (some (Policy.accept_none Statement ℕ) ∷ some (Policy.accept_self Statement ℕ) ∷ [])
      trust_request (Policy.accept (ascii "self attestation accepted by policy")) refl

self_is_second :
    Compose.any_of Statement ℕ
      (some (Policy.accept_none Statement ℕ) ∷ some (Policy.accept_self Statement ℕ) ∷ [])
      trust_request
    ≡ ok (Policy.accept (ascii "self attestation accepted by policy"))
unfolding Compose.any_of Compose.any_of_from Policy.accept_none Policy.accept_self
    Policy.allow_types_policy contains bytes_eq
self_is_second = refl
