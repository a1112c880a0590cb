-- ===== src/Tests/Attestation/Fixtures.antt =====
-- A small decoder in place of ASN.1, and a "tpm" statement with a P-256 key.
use webauthn.Prelude.{
  ℕ, ◌/◌, ◌%◌, Bool, true, false, some, List, [], ◌∷◌, ◌++◌, Bytes, ascii, is_empty, take, drop,
  length, ◌==◌, ltb, if◌then◌else◌,
}
use webauthn.Prelude.Int.{ℤ, pos, negsuc}
use webauthn.Errors.{Result, ok, err, message}
use webauthn.Codec.Key.{CredentialPublicKey, no_material}
use webauthn.Crypto.{SignatureVerifier}
use webauthn.Attestation.Statement.{
  Statement, statement_of, no_entries, entry, any_int64, any_string, any_bytes, any_byte_slices,
}
use webauthn.Attestation.X509.{
  Asn1, RawValue, Certificate, CertificateExtension, EcdsaKey, ecdsa_key,
}
use webauthn.Attestation.Tpm.Algorithms.{Hashes}
use webauthn.Tests.Fixtures.{repeat}

-- A tag, a length below 256, and the contents.
abbrev pub tlv : ℕ → Bytes → Bytes
tlv tag body = tag ∷ length body ∷ body

-- The number 30 stands for 702, whose tag takes several bytes.
abbrev tag_number : ℕ → ℕ
tag_number n = if n == 30 then 702 else n

abbrev raw_value : ℕ → Bytes → RawValue
raw_value tag body = record {
  class = tag / 64;
  tag = tag_number (tag % 32);
  is_compound = tag / 32 % 2 == 1;
  body = body;
  full_bytes = tlv tag body;
}

abbrev pub read_tlv : Bytes → Result (RawValue × Bytes)
read_tlv (tag ∷ size ∷ more) =
    if ltb (length more) size
    then err (message "short")
    else ok (raw_value tag (take size more), drop size more)
read_tlv _ = err (message "short")

abbrev contents : Result (RawValue × Bytes) → Result (Bytes × Bytes)
contents (err e) = err e
contents (ok (v, rest)) = ok (v.body, rest)

abbrev as_number : Result (RawValue × Bytes) → Result (ℤ × Bytes)
as_number (err e) = err e
as_number (ok (v, rest)) = ok (pos (length v.body), rest)

abbrev one_item : Result (RawValue × Bytes) → Bytes → Result (List RawValue × Bytes)
one_item (err e) rest = err e
one_item (ok (v, inner)) rest = ok (v ∷ [], rest)

abbrev only_item : Result (RawValue × Bytes) → Result (List RawValue × Bytes)
only_item (err e) = err e
only_item (ok (v, rest)) = one_item (read_tlv v.body) rest

abbrev pub asn1 : Asn1
asn1 = record {
  unmarshal_raw = read_tlv;
  unmarshal_raws = λ b. only_item (read_tlv b);
  unmarshal_oid = λ b. contents (read_tlv b);
  unmarshal_string = λ b. contents (read_tlv b);
  unmarshal_octets = λ b. contents (read_tlv b);
  unmarshal_int = λ b. as_number (read_tlv b);
  unmarshal_enumerated = λ b. as_number (read_tlv b);
}

abbrev attribute : Bytes → Bytes → Bytes
attribute oid text = tlv 49 (tlv 48 (tlv 6 oid ++ tlv 12 text))

abbrev san : Bytes
san = tlv 48 (
    tlv 164 (
      tlv 48 (
        attribute (2 ∷ 23 ∷ 133 ∷ 2 ∷ 1 ∷ []) (ascii "id:FFFFF1D0")
        ++ (attribute (2 ∷ 23 ∷ 133 ∷ 2 ∷ 2 ∷ []) (ascii "chip")
            ++ attribute (2 ∷ 23 ∷ 133 ∷ 2 ∷ 3 ∷ []) (ascii "id:00020008")))))

abbrev pub coordinate : ℕ → Bytes
coordinate b = repeat 32 b

abbrev pub key : EcdsaKey
key = record {
  has_coordinates = true;
  curve_name = some (ascii "P-256");
  encoded = ok (4 ∷ (coordinate 5 ++ coordinate 6));
}

abbrev pub extension : List ℕ → Bool → Bytes → CertificateExtension
extension id critical value = record { id = id; critical = critical; extension_value = value }

abbrev pub aik : Certificate
aik = record {
  version = pos 3;
  raw_subject = [];
  subject = record {
    country = [];
    organization = [];
    organizational_unit = [];
    locality = [];
    province = [];
    street_address = [];
    postal_code = [];
    serial_number = [];
    common_name = [];
    names_count = 0;
    extra_names_count = 0;
  };
  extensions =
      extension (2 ∷ 5 ∷ 29 ∷ 17 ∷ []) true san
      ∷ extension (2 ∷ 5 ∷ 29 ∷ 19 ∷ []) true (tlv 48 [])
      ∷ [];
  unknown_ext_key_usage = (2 ∷ 23 ∷ 133 ∷ 8 ∷ 3 ∷ []) ∷ [];
  basic_constraints_valid = true;
  is_ca = false;
  public_key = ecdsa_key (some key);
}

abbrev pub parse : Bytes → Result Certificate
parse raw = if is_empty raw then err (message "no certificate") else ok aik

abbrev pub hashes : Hashes
hashes = record { sum256 = λ m. take 4 m; sum384 = λ m. take 5 m; sum512 = λ m. take 6 m }

abbrev pub marshal : ℕ → ℕ → Result Bytes
marshal r s = ok (48 ∷ r % 256 ∷ s % 256 ∷ [])

-- An unrestricted P-256 key whose name is made with SHA-256.
abbrev pub public_area : Bytes
public_area =
    0
    ∷ 0x23
    ∷ 0
    ∷ 0x0b
    ∷ 0
    ∷ 0
    ∷ 0
    ∷ 0
    ∷ 0
    ∷ 0
    ∷ 0
    ∷ 0x10
    ∷ 0
    ∷ 0x10
    ∷ 0
    ∷ 3
    ∷ 0
    ∷ 0x10
    ∷ 0
    ∷ 32
    ∷ (coordinate 1 ++ (0 ∷ 32 ∷ coordinate 2))

-- The hash of the signed data, and the name of the public area.
abbrev pub cert_info : Bytes
cert_info =
    0xff
    ∷ 0x54
    ∷ 0x43
    ∷ 0x47
    ∷ 0x80
    ∷ 0x17
    ∷ 0
    ∷ 0
    ∷ 0
    ∷ 4
    ∷ 1
    ∷ 1
    ∷ 1
    ∷ 1
    ∷ (repeat 17 0 ++ (repeat 8 0 ++ (0 ∷ 6 ∷ 0 ∷ 0x0b ∷ 0 ∷ 0x23 ∷ 0 ∷ 0x0b ∷ 0 ∷ 0 ∷ [])))

abbrev pub signature : Bytes
signature = 0 ∷ 0x18 ∷ 0 ∷ 0x0b ∷ 0 ∷ 1 ∷ 7 ∷ 0 ∷ 1 ∷ 9 ∷ []

abbrev pub tpm_statement : Statement
tpm_statement = statement_of (
    entry (ascii "ver") (any_string (ascii "2.0")) (
      entry (ascii "alg") (any_int64 (negsuc 6)) (
        entry (ascii "x5c") (any_byte_slices ((1 ∷ []) ∷ [])) (
          entry (ascii "sig") (any_bytes signature) (
            entry (ascii "certInfo") (any_bytes cert_info)
              (entry (ascii "pubArea") (any_bytes public_area) no_entries))))))

abbrev pub credential_key : CredentialPublicKey
credential_key = record {
  algorithm = negsuc 6;
  raw = 0xa0 ∷ [];
  material = record no_material {
    ec2 = some (record { curve = ascii "P-256"; x = coordinate 1; y = coordinate 2 });
  };
}

abbrev pub any_signature : SignatureVerifier
any_signature s = ok tt
