-- ===== src/Attestation/Format/Packed/Profile.antt =====
-- attestation/packed/certificate.go: the requirements on an attestation certificate.
use webauthn.Prelude.{
  ℕ, Bool, true, false, not, ◌||◌, ◌&&◌, Option, none, some, List, [], ◌∷◌, Bytes, ascii, is_empty,
  length, get_or, bytes_eq, leb, ◌==◌, if◌then◌else◌,
}
use webauthn.Prelude.Int.{pos, eq_ℤ, ltb_ℤ}
use webauthn.Errors.{
  Error, Result, ok, err, ◌>>=◌, ◌>>◌, refuse_if, sentinel, packed_certificate_requirements,
}
use webauthn.Attestation.X509.{Oid, Asn1, Certificate, CertificateExtension, find_extension}
use webauthn.Attestation.X509.Names.{NameAttribute, exactly, replaced, parse_name_attributes}
use webauthn.Attestation.X509.Profile.{is_end_entity, validate_aaguid_extension}

abbrev pub requirements : Error
requirements = sentinel packed_certificate_requirements

abbrev oid_fido_firmware : Oid
oid_fido_firmware = 1 ∷ 3 ∷ 6 ∷ 1 ∷ 4 ∷ 1 ∷ 45724 ∷ 1 ∷ 1 ∷ 5 ∷ []

abbrev oid_fido_serial_number : Oid
oid_fido_serial_number = 1 ∷ 3 ∷ 6 ∷ 1 ∷ 4 ∷ 1 ∷ 45724 ∷ 1 ∷ 1 ∷ 2 ∷ []

abbrev pub oid_country : Oid
oid_country = 2 ∷ 5 ∷ 4 ∷ 6 ∷ []

abbrev pub oid_organization : Oid
oid_organization = 2 ∷ 5 ∷ 4 ∷ 10 ∷ []

abbrev pub oid_organizational_unit : Oid
oid_organizational_unit = 2 ∷ 5 ∷ 4 ∷ 11 ∷ []

abbrev pub oid_common_name : Oid
oid_common_name = 2 ∷ 5 ∷ 4 ∷ 3 ∷ []

abbrev is_upper : ℕ → Bool
is_upper b = leb 65 b && leb b 90

unfoldable pub valid_country_code : Bytes → Bool
valid_country_code value =
    length value == 2 && is_upper (get_or value 0 0) && is_upper (get_or value 1 0)

-- The subject attributes that were found so far.
pub record Subjects : Type 0 where
  pub country : Bool
  pub organization : Bool
  pub organizational_unit : Bool
  pub common_name : Bool

abbrev when : Bool → Subjects → Result Subjects
when true s = ok s
when false s = err requirements

abbrev utf8_text : NameAttribute → Bool
utf8_text a = a.tag == 12 && not (is_empty a.text)

-- A round of the loop of `validatePackedSubject`.
unfoldable pub subject_attribute : Subjects → NameAttribute → Result Subjects
subject_attribute s a =
    if bytes_eq a.kind oid_country
    then when (not s.country && a.tag == 19 && valid_country_code a.text)
        (record s { country = true })
    else if bytes_eq a.kind oid_organization
    then when (not s.organization && utf8_text a) (record s { organization = true })
    else if bytes_eq a.kind oid_organizational_unit
    then when
        (not s.organizational_unit
          && a.tag == 12
          && bytes_eq a.text (ascii "Authenticator Attestation"))
        (record s { organizational_unit = true })
    else if bytes_eq a.kind oid_common_name
    then when (not s.common_name && utf8_text a) (record s { common_name = true })
    else ok s

unfoldable pub subject_loop : Subjects → List NameAttribute → Result (Unit {0})
subject_loop s [] =
    refuse_if (not (s.country && s.organization && s.organizational_unit && s.common_name))
      requirements
subject_loop s (a ∷ attributes) = do found ← subject_attribute s a; subject_loop found attributes

abbrev pub no_subjects : Subjects
no_subjects = record {
  country = false;
  organization = false;
  organizational_unit = false;
  common_name = false;
}

module _ (asn1 : Asn1) where
  unfoldable pub validate_packed_subject : Certificate → Result (Unit {0})
  validate_packed_subject c = do
    attributes ← replaced requirements (parse_name_attributes asn1 c.raw_subject)
    subject_loop no_subjects attributes

  -- The version is read into a `*big.Int`, which the parameter gives whole.
  abbrev check_firmware : Option CertificateExtension → Result (Unit {0})
  check_firmware none = ok tt
  check_firmware (some x) = do
    refuse_if x.critical requirements
    version ← exactly requirements (asn1.unmarshal_int x.extension_value)
    refuse_if (ltb_ℤ version (pos 0)) requirements

  unfoldable pub validate_firmware_extension : Certificate → Result (Unit {0})
  validate_firmware_extension c = check_firmware (find_extension c oid_fido_firmware)

  abbrev check_serial : Bytes → Option CertificateExtension → Result (Unit {0})
  check_serial conveyance none = ok tt
  check_serial conveyance (some x) = do
    refuse_if (not (bytes_eq conveyance (ascii "enterprise")) || x.critical) requirements
    serial ← exactly requirements (asn1.unmarshal_octets x.extension_value)
    refuse_if (is_empty serial) requirements

  unfoldable pub validate_enterprise_serial_extension : Certificate → Bytes → Result (Unit {0})
  validate_enterprise_serial_extension c conveyance =
      check_serial conveyance (find_extension c oid_fido_serial_number)

  unfoldable pub validate_packed_certificate : Certificate → Bytes → Bytes → Result (Unit {0})
  validate_packed_certificate c aaguid conveyance = do
    refuse_if (not (eq_ℤ c.version (pos 3))) requirements
    replaced requirements (validate_packed_subject c)
    refuse_if (not (is_end_entity c)) requirements
    validate_aaguid_extension asn1 requirements c aaguid
    validate_firmware_extension c
    validate_enterprise_serial_extension c conveyance
