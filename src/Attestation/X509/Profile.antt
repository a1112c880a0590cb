-- ===== src/Attestation/X509/Profile.antt =====
-- attestation/packed/certificate.go and attestation/tpm/certificate.go: the checks of certificates
-- that the two formats share, by the error of the format.
use webauthn.Prelude.{Bool, not, ◌&&◌, Option, none, some, [], ◌∷◌, Bytes, length, bytes_eq, ◌==◌}
use webauthn.Errors.{Error, Result, ok, ◌>>=◌, ◌>>◌, refuse_if}
use webauthn.Attestation.X509.{
  Oid, Asn1, Certificate, CertificateExtension, find_extension, has_extension,
}
use webauthn.Attestation.X509.Names.{exactly}

abbrev pub oid_basic_constraints : Oid
oid_basic_constraints = 2 ∷ 5 ∷ 29 ∷ 19 ∷ []

abbrev pub oid_fido_aaguid : Oid
oid_fido_aaguid = 1 ∷ 3 ∷ 6 ∷ 1 ∷ 4 ∷ 1 ∷ 45724 ∷ 1 ∷ 1 ∷ 4 ∷ []

unfoldable pub is_end_entity : Certificate → Bool
is_end_entity c = has_extension c oid_basic_constraints && c.basic_constraints_valid && not c.is_ca

module _ (asn1 : Asn1) (requirements : Error) where
  abbrev check_aaguid : Bytes → Option CertificateExtension → Result (Unit {0})
  check_aaguid aaguid none = ok tt
  check_aaguid aaguid (some x) = do
    refuse_if x.critical requirements
    extension_aaguid ← exactly requirements (asn1.unmarshal_octets x.extension_value)
    refuse_if (not (length extension_aaguid == 16)) requirements
    refuse_if (not (bytes_eq aaguid extension_aaguid)) requirements

  unfoldable pub validate_aaguid_extension : Certificate → Bytes → Result (Unit {0})
  validate_aaguid_extension c aaguid = check_aaguid aaguid (find_extension c oid_fido_aaguid)
