-- ===== src/Attestation/Tpm/CertInfo/Layout.antt =====
-- The layout of TPMS_ATTEST: what the parser of certInfo accepts is exactly that layout.
use webauthn.Prelude.{
  ℕ, ◌^◌, ◌<◌, ◌≡◌, ◌↔◌, refl, sym, ap, ◌∙◌, arith, not, ◌++◌, Bytes, IsByte, All, length, ◌==◌,
  put_uint16, put_uint32, drop, append-nil,
}
use webauthn.Errors.{refuse_step, Error, ok, sentinel, tpm_invalid_cert_info}
use webauthn.Attestation.Tpm.Reader.{new_reader, remaining}
use webauthn.Attestation.Tpm.Reader.Facts.{rest, sized, rest-end, remaining-end}
use webauthn.Attestation.Tpm.Reader.Rebuild.{
  refuse_back, uint16_back, uint32_back, uint64_back, skip_back, sized_back,
}
use webauthn.Attestation.Tpm.Reader.Steps.{
  uint16_step, uint32_step, uint64_step, skip_step, sized_step,
}
use webauthn.Attestation.Tpm.CertInfo.{
  CertifyInfo, parse_cert_info, tpm_generated_value, tpm_st_attest_certify,
}

-- TPMS_ATTEST of a certified object. The clock information has 17 bytes, the firmware version 8.
abbrev pub attest_bytes : Bytes → Bytes → Bytes → Bytes → Bytes → Bytes → Bytes
attest_bytes signer extra_data clock firmware name qualified_name =
    put_uint32 tpm_generated_value
    ++ (put_uint16 tpm_st_attest_certify
        ++ (sized signer
            ++ (sized extra_data ++ (clock ++ (firmware ++ (sized name ++ sized qualified_name))))))

pub record IsCertInfo (raw : Bytes) (info : CertifyInfo) : Type 0 where
  pub signer : Bytes
  pub clock : Bytes
  pub firmware : Bytes
  pub qualified_name : Bytes
  pub clock_size : length clock ≡ 17
  pub firmware_size : length firmware ≡ 8
  pub signer_max : length signer < 2 ^ 16
  pub extra_data_max : length info.extra_data < 2 ^ 16
  pub name_max : length info.name < 2 ^ 16
  pub qualified_name_max : length qualified_name < 2 ^ 16
  pub spells : raw ≡ attest_bytes signer info.extra_data clock firmware info.name qualified_name

spelled :
    (raw : Bytes) (magic kind : ℕ) (signer extra clock firmware name qualified : Bytes)
    {t1 t2 t3 t4 t5 t6 t7 : Bytes}
    → magic ≡ tpm_generated_value
    → kind ≡ tpm_st_attest_certify
    → rest (new_reader raw) ≡ put_uint32 magic ++ t1
    → t1 ≡ put_uint16 kind ++ t2
    → t2 ≡ sized signer ++ t3
    → t3 ≡ sized extra ++ t4
    → t4 ≡ clock ++ t5
    → t5 ≡ firmware ++ t6
    → t6 ≡ sized name ++ t7
    → t7 ≡ sized qualified
    → raw ≡ attest_bytes signer extra clock firmware name qualified
unfolding drop
spelled raw magic kind signer extra clock firmware name qualified e0 e1 s1 s2 s3 s4 s5 s6 s7 s8 =
    s1 ∙ rw (e0, s2, e1, s3, s4, s5, s6, s7, s8) refl

abbrev outer : Error
outer = sentinel tpm_invalid_cert_info

parse→IsCertInfo :
    (raw : Bytes) (info : CertifyInfo)
    → All IsByte raw
    → parse_cert_info raw ≡ ok info
    → IsCertInfo raw info
unfolding parse_cert_info
parse→IsCertInfo raw info b0 h = uint32_step outer (new_reader raw) b0 _ h (λ magic r1 b1 s1 m1 h1.
    refuse_step (not (magic == tpm_generated_value)) outer h1 (λ is_magic h2.
      uint16_step outer r1 b1 _ h2 (λ kind r2 b2 s2 m2 h3.
        refuse_step (not (kind == tpm_st_attest_certify)) outer h3 (λ is_kind h4.
          sized_step outer r2 b2 _ h4 (λ signer r3 b3 s3 m3 h5.
            sized_step outer r3 b3 _ h5 (λ extra r4 b4 s4 m4 h6.
              skip_step outer r4 b4 17 _ h6 (λ clock r5 b5 s5 m5 h7.
                uint64_step outer r5 b5 _ h7 (λ version firmware r6 b6 s6 m6 h8.
                  sized_step outer r6 b6 _ h8 (λ name r7 b7 s7 m7 h9.
                    sized_step outer r7 b7 _ h9 (λ qualified r8 b8 s8 m8 h10.
                      refuse_step (not (remaining r8 == 0)) outer h10 (λ at_end h11.
                        let extra_eq : info.extra_data ≡ extra = cc in
                        let name_eq : info.name ≡ name = cc in
                        record {
                          signer = signer;
                          clock = clock;
                          firmware = firmware;
                          qualified_name = qualified;
                          clock_size = m5;
                          firmware_size = m6;
                          signer_max = m3;
                          extra_data_max = rw extra_eq m4;
                          name_max = rw name_eq m7;
                          qualified_name_max = m8;
                          spells =
                              rw (extra_eq, name_eq)
                                (spelled raw magic kind signer extra clock firmware name qualified
                                  (ground arith) (ground arith) s1 s2 s3 s4 s5 s6 s7
                                  (s8
                                    ∙ ap (λ (t : Bytes). sized qualified ++ t)
                                        (rest-end r8 (ground arith))
                                    ∙ append-nil (sized qualified)));
                        })))))))))))

IsCertInfo→parse :
    (raw : Bytes) (info : CertifyInfo) → IsCertInfo raw info → parse_cert_info raw ≡ ok info
unfolding parse_cert_info drop
IsCertInfo→parse raw info w =
    uint32_back outer (new_reader raw) _ tpm_generated_value (omega arith) w.spells (λ r1 e1.
      uint16_back outer r1 _ tpm_st_attest_certify (omega arith) e1 (λ r2 e2.
        sized_back outer r2 _ w.signer w.signer_max e2 (λ r3 e3.
          sized_back outer r3 _ info.extra_data w.extra_data_max e3 (λ r4 e4.
            skip_back outer r4 17 _ w.clock w.clock_size e4 (λ r5 e5.
              uint64_back outer r5 _ w.firmware w.firmware_size e5 (λ version r6 e6.
                sized_back outer r6 _ info.name w.name_max e6 (λ r7 e7.
                  sized_back outer r7 _ w.qualified_name w.qualified_name_max
                    (e7 ∙ sym (append-nil (sized w.qualified_name)))
                    (λ r8 e8.
                      refuse_back (not (remaining r8 == 0)) outer
                        (ground (arith, remaining-end r8 e8)) refl))))))))

-- The parser of certInfo accepts a byte string, with a given result, exactly if the string is a
-- TPMS_ATTEST of a certified object whose extra data and name are that result.
pub parse_cert_info_iff :
    (raw : Bytes) (info : CertifyInfo)
    → All IsByte raw
    → (parse_cert_info raw ≡ ok info) ↔ IsCertInfo raw info
parse_cert_info_iff raw info byte = (parse→IsCertInfo raw info byte, IsCertInfo→parse raw info)
