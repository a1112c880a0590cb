-- ===== src/Attestation/Tpm/CertInfo.antt =====
-- attestation/tpm/structures.go: the parser of TPMS_ATTEST structures and of TPMT_SIGNATURE.
pub mod Layout
use webauthn.Prelude.{
  ℕ, ◌+◌, ◌*◌, [], ◌∷◌, Bool, true, false, not, ◌||◌, Bytes, length, ◌==◌, if◌then◌else◌, bytes_eq,
}
use webauthn.Errors.{
  Error, Result, ok, err, ◌>>=◌, ◌>>◌, refuse_if, wrapped, sentinel, tpm_invalid_cert_info,
  tpm_invalid_signature,
}
use webauthn.Attestation.Tpm.Reader.{
  Reader, new_reader, remaining, read_uint16, read_uint32, read_uint64, sized_bytes, skip,
}
use webauthn.Attestation.Tpm.Algorithms.{CoseAlgorithmSpec, alg_rsassa, alg_rsapss, alg_ecdsa}

abbrev pub tpm_generated_value : ℕ
tpm_generated_value = 0xff544347

abbrev pub tpm_st_attest_certify : ℕ
tpm_st_attest_certify = 0x8017

pub record CertifyInfo : Type 0 where
  pub extra_data : Bytes
  pub name : Bytes

abbrev pub cert_info_error {ℓ} : {A : Type ℓ} → Result A → Result A
cert_info_error = wrapped (sentinel tpm_invalid_cert_info)

unfoldable pub parse_cert_info : Bytes → Result CertifyInfo
parse_cert_info raw = do
  (magic, r1) ← cert_info_error (read_uint32 (new_reader raw))
  refuse_if (not (magic == tpm_generated_value)) (sentinel tpm_invalid_cert_info)
  (attest_type, r2) ← cert_info_error (read_uint16 r1)
  refuse_if (not (attest_type == tpm_st_attest_certify)) (sentinel tpm_invalid_cert_info)
  (signer, r3) ← cert_info_error (sized_bytes r2)
  (extra_data, r4) ← cert_info_error (sized_bytes r3)
  r5 ← cert_info_error (skip 17 r4)
  (firmware, r6) ← cert_info_error (read_uint64 r5)
  (name, r7) ← cert_info_error (sized_bytes r6)
  (qualified_name, r8) ← cert_info_error (sized_bytes r7)
  refuse_if (not (remaining r8 == 0)) (sentinel tpm_invalid_cert_info)
  ok (record { extra_data = extra_data; name = name })

unfoldable pub validate_cert_info_binding : CertifyInfo → Bytes → Bytes → Result (Unit {0})
validate_cert_info_binding parsed extra_data name =
    refuse_if (not (bytes_eq parsed.extra_data extra_data) || not (bytes_eq parsed.name name))
      (sentinel tpm_invalid_cert_info)

abbrev pub signature_error {ℓ} : {A : Type ℓ} → Result A → Result A
signature_error = wrapped (sentinel tpm_invalid_signature)

-- `(*big.Int).SetBytes`, behind the value of the bytes before.
unfoldable pub set_bytes : ℕ → Bytes → ℕ
set_bytes n [] = n
set_bytes n (x ∷ xs) = set_bytes (n * 256 + x) xs

-- `asn1.Marshal` of the structure of the integers `R` and `S` is a parameter.
module _ (marshal : ℕ → ℕ → Result Bytes) where
  unfoldable pub parse_ecdsa_signature : Reader → Result (Bytes × Reader)
  parse_ecdsa_signature r0 = do
    (r_bytes, r1) ← sized_bytes r0
    (s_bytes, r2) ← sized_bytes r1
    refuse_if (length r_bytes == 0 || length s_bytes == 0) (sentinel tpm_invalid_signature)
    der ← signature_error (marshal (set_bytes 0 r_bytes) (set_bytes 0 s_bytes))
    ok (der, r2)

  unfoldable pub parse_signature_value : ℕ → Reader → Result (Bytes × Reader)
  parse_signature_value alg r =
      if alg == alg_ecdsa
      then signature_error (parse_ecdsa_signature r)
      else if alg == alg_rsassa || alg == alg_rsapss
      then signature_error (sized_bytes r)
      else err (sentinel tpm_invalid_signature)

  unfoldable pub parse_tpm_signature : Bytes → CoseAlgorithmSpec → Result Bytes
  parse_tpm_signature raw spec = do
    (signature_alg, r1) ← signature_error (read_uint16 (new_reader raw))
    refuse_if (not (signature_alg == spec.signature_alg)) (sentinel tpm_invalid_signature)
    (hash_alg, r2) ← signature_error (read_uint16 r1)
    refuse_if (not (hash_alg == spec.hash_alg)) (sentinel tpm_invalid_signature)
    (signature, r3) ← parse_signature_value signature_alg r2
    refuse_if (length signature == 0 || not (remaining r3 == 0)) (sentinel tpm_invalid_signature)
    ok signature
