-- ===== src/Attestation/Tpm/Certificate.antt =====
-- attestation/tpm/certificate.go: the requirements on the certificate of an attestation key.
use webauthn.Prelude.{
  ℕ, Bool, true, false, not, ◌||◌, ◌&&◌, Option, none, some, List, [], ◌∷◌, Bytes, ascii, is_empty,
  length, take, drop, bytes_eq, leb, ◌==◌, if◌then◌else◌,
}
use webauthn.Prelude.Int.{pos, eq_ℤ}
use webauthn.Errors.{
  Error, Result, ok, err, ◌>>=◌, ◌>>◌, refuse_if, sentinel, tpm_certificate_requirements,
}
use webauthn.Attestation.X509.{
  Oid, RawValue, Asn1, Subject, Certificate, CertificateExtension, find_extension, has_extension,
}
use webauthn.Attestation.X509.Names.{NameAttribute, exactly, is_not, parse_name_attributes}
use webauthn.Attestation.X509.Profile.{is_end_entity, validate_aaguid_extension}

abbrev pub requirements : Error
requirements = sentinel tpm_certificate_requirements

abbrev oid_subject_alt_name : Oid
oid_subject_alt_name = 2 ∷ 5 ∷ 29 ∷ 17 ∷ []

abbrev oid_aik_eku : Oid
oid_aik_eku = 2 ∷ 23 ∷ 133 ∷ 8 ∷ 3 ∷ []

abbrev pub oid_tpm_manufacturer : Oid
oid_tpm_manufacturer = 2 ∷ 23 ∷ 133 ∷ 2 ∷ 1 ∷ []

abbrev pub oid_tpm_model : Oid
oid_tpm_model = 2 ∷ 23 ∷ 133 ∷ 2 ∷ 2 ∷ []

abbrev pub oid_tpm_version : Oid
oid_tpm_version = 2 ∷ 23 ∷ 133 ∷ 2 ∷ 3 ∷ []

unfoldable pub subject_empty : Subject → Bool
subject_empty s =
    is_empty s.country
    && is_empty s.organization
    && is_empty s.organizational_unit
    && is_empty s.locality
    && is_empty s.province
    && is_empty s.street_address
    && is_empty s.postal_code
    && is_empty s.serial_number
    && is_empty s.common_name
    && s.names_count == 0
    && s.extra_names_count == 0

abbrev has_oid : Oid → List Oid → Bool
has_oid o [] = false
has_oid o (x ∷ xs) = bytes_eq x o || has_oid o xs

unfoldable pub has_aik_eku : Certificate → Bool
has_aik_eku c = has_oid oid_aik_eku c.unknown_ext_key_usage

-- A byte from `0` to `9` or from `A` to `F`.
abbrev is_upper_hex : ℕ → Bool
is_upper_hex b = (leb 48 b && leb b 57) || (leb 65 b && leb b 70)

unfoldable pub all_upper_hex : Bytes → Bool
all_upper_hex [] = true
all_upper_hex (b ∷ bs) = is_upper_hex b && all_upper_hex bs

unfoldable pub valid_tpm_hex_id : Bytes → Bool
valid_tpm_hex_id value =
    if not (length value == 11) || not (bytes_eq (take 3 value) (ascii "id:"))
    then false
    else all_upper_hex (drop 3 value)

-- The attributes that are still to be found.
pub record Required : Type 0 where
  pub manufacturer : Bool
  pub model : Bool
  pub version : Bool

abbrev when : Bool → Required → Option Required
when true r = some r
when false r = none

-- A round of the loop: what is found then, or `none` where the name is refused.
unfoldable pub tpm_attribute : Required → NameAttribute → Option Required
tpm_attribute r a =
    if bytes_eq a.kind oid_tpm_manufacturer
    then when (not r.manufacturer && a.tag == 12 && valid_tpm_hex_id a.text)
        (record r { manufacturer = true })
    else if bytes_eq a.kind oid_tpm_model
    then when (not r.model && a.tag == 12 && not (is_empty a.text)) (record r { model = true })
    else if bytes_eq a.kind oid_tpm_version
    then when (not r.version && a.tag == 12 && valid_tpm_hex_id a.text)
        (record r { version = true })
    else some r

unfoldable pub tpm_attributes_loop : Required → List NameAttribute → Bool
tpm_attributes_loop r [] = r.manufacturer && r.model && r.version
tpm_attributes_loop r (a ∷ attributes) = elim (tpm_attribute r a) [
  | none ↦ false
  | some found ↦ tpm_attributes_loop found attributes
]

unfoldable pub name_has_tpm_attributes : List NameAttribute → Bool
name_has_tpm_attributes =
    tpm_attributes_loop (record { manufacturer = false; model = false; version = false })

module _ (asn1 : Asn1) where
  abbrev only_name : List RawValue → Result RawValue
  only_name (v ∷ []) = ok v
  only_name _ = err requirements

  -- The attributes of the only general name, which must be a directory name.
  unfoldable pub san_attributes : CertificateExtension → Result (List NameAttribute)
  san_attributes x = do
    refuse_if (not x.critical) requirements
    names ← exactly requirements (asn1.unmarshal_raws x.extension_value)
    name ← only_name names
    refuse_if (is_not 2 4 name) requirements
    parse_name_attributes asn1 name.body

  abbrev has_all : Result (List NameAttribute) → Bool
  has_all (ok attributes) = name_has_tpm_attributes attributes
  has_all (err e) = false

  abbrev san_has_all : Option CertificateExtension → Bool
  san_has_all none = false
  san_has_all (some x) = has_all (san_attributes x)

  unfoldable pub has_tpm_san_attributes : Certificate → Bool
  has_tpm_san_attributes c = san_has_all (find_extension c oid_subject_alt_name)

  unfoldable pub validate_aik_certificate : Certificate → Bytes → Result (Unit {0})
  validate_aik_certificate c aaguid = do
    refuse_if (not (eq_ℤ c.version (pos 3))) requirements
    refuse_if (not (subject_empty c.subject)) requirements
    refuse_if (not (has_extension c oid_subject_alt_name) || not (has_tpm_san_attributes c))
        requirements
    refuse_if (not (has_aik_eku c)) requirements
    refuse_if (not (is_end_entity c)) requirements
    validate_aaguid_extension asn1 requirements c aaguid
