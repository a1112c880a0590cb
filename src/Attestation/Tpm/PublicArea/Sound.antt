-- ===== src/Attestation/Tpm/PublicArea/Sound.antt =====
-- What a parsed TPMT_PUBLIC holds, and what its binding to a credential key means.
use webauthn.Prelude.{
  List, ℕ, ◌^◌, ◌<◌, ◌≡◌, inl, inr, refl, sym, ap, ◌∙◌, arith, true, false, not, none, some, [],
  ◌∷◌, Bytes, IsByte, All, length, ◌==◌, Bool-cases, Option-cases,
}
use webauthn.Errors.{
  refuse_step, call_step, Error, ok, ◌>>=◌, wrapped, sentinel, tpm_invalid_public_area,
  tpm_unsupported_key, tpm_unsupported_algorithm,
}
use webauthn.Codec.Key.{valid_rsa}
use webauthn.Attestation.Tpm.Reader.{Reader, new_reader, remaining, read_uint16, sized_bytes}
use webauthn.Attestation.Tpm.Reader.Steps.{uint16_step, uint32_step, sized_step}
use webauthn.Attestation.Tpm.Algorithms.{
  alg_rsa, alg_null, alg_rsassa, alg_rsapss, alg_ecdsa, alg_ecc, tpm_curve,
  valid_tpm_hash_algorithm,
}
use webauthn.Attestation.Tpm.Algorithms.Exponent.{IsOddPrime, valid_tpm_rsa_exponent_iff}
use webauthn.Attestation.Tpm.PublicArea.{
  PublicArea, PublicAreaEc2, PublicAreaRsa, parse_symmetric_definition, parse_scheme,
  parse_scheme_hash, check_point, parse_ecc_public_area, default_exponent, unsupported_rsa,
  parse_rsa_public_area, parse_key, ecc_area, rsa_area, parse_public_area,
}

abbrev outer : Error
outer = sentinel tpm_invalid_public_area

-- A supported curve, and coordinates of its size.
pub record IsPoint (p : PublicAreaEc2) : Type 0 where
  pub curve_id : ℕ
  pub size : ℕ
  pub supported : tpm_curve curve_id ≡ some (p.curve, size)
  pub x_size : length p.x ≡ size
  pub y_size : length p.y ≡ size

-- A valid modulus of at most 8191 bytes, and an exponent that is an odd prime.
pub record IsRsaKey (p : PublicAreaRsa) : Type 0 where
  pub valid : valid_rsa (some (record { modulus = p.modulus; exponent = p.exponent })) ≡ true
  pub prime : IsOddPrime p.exponent
  pub exponent_max : p.exponent < 2 ^ 32

check_point-IsPoint :
    (id : ℕ) (x y : Bytes) {p : PublicAreaEc2} → check_point id x y ≡ ok p → IsPoint p
unfolding check_point
check_point-IsPoint id x y {p} h = elim (Option-cases (tpm_curve id)) [
  | inl e ↦ absurd (ground (arith, e))
  | inr ((curve, size), e) ↦
      let p_eq : p ≡ record { curve = curve; x = x; y = y } = ground (arith, e) in
      rw p_eq (record {
        curve_id = id;
        size = size;
        supported = e;
        x_size = ground (arith, e);
        y_size = ground (arith, e);
      })
]

parse_ecc-IsPoint :
    (r : Reader) {p : PublicAreaEc2} {next : Reader}
    → parse_ecc_public_area r ≡ ok (p, next)
    → IsPoint p
unfolding parse_ecc_public_area
parse_ecc-IsPoint r {p} h = call_step (parse_symmetric_definition r) h (λ r1 e1 h1.
    call_step (parse_scheme (alg_ecdsa ∷ []) r1) h1 (λ r2 e2 h2.
      call_step (wrapped outer (read_uint16 r2)) h2 (λ v3 e3 h3.
        call_step (parse_scheme [] v3.1) h3 (λ r4 e4 h4.
          call_step (wrapped outer (sized_bytes r4)) h4 (λ v5 e5 h5.
            call_step (wrapped outer (sized_bytes v5.1)) h5 (λ v6 e6 h6.
              call_step (check_point v3.0 v5.0 v6.0) h6 (λ q e7 h7.
                let same : q ≡ p = cc in check_point-IsPoint v3.0 v5.0 v6.0 (e7 ∙ ap ok same))))))))

module _ (r : Reader) (byte : All IsByte r.buffer) {next : Reader} where
  symmetric-IsByte : parse_symmetric_definition r ≡ ok next → All IsByte next.buffer
  unfolding parse_symmetric_definition
  symmetric-IsByte h = uint16_step outer r byte _ h (λ algorithm r1 b1 s1 m1 h1.
      refuse_step (not (algorithm == alg_null)) (sentinel tpm_unsupported_key) h1
        (λ passed h2. let same : r1 ≡ next = cc in rw (sym same) b1))

  scheme_hash-IsByte : parse_scheme_hash r ≡ ok next → All IsByte next.buffer
  unfolding parse_scheme_hash
  scheme_hash-IsByte h = uint16_step outer r byte _ h (λ hash r1 b1 s1 m1 h1.
      refuse_step (not (valid_tpm_hash_algorithm hash)) (sentinel tpm_unsupported_algorithm) h1
        (λ passed h2. let same : r1 ≡ next = cc in rw (sym same) b1))

scheme-IsByte :
    (allowed : List ℕ) (r : Reader) {next : Reader}
    → All IsByte r.buffer
    → parse_scheme allowed r ≡ ok next
    → All IsByte next.buffer
unfolding parse_scheme
scheme-IsByte allowed r {next} byte h = uint16_step outer r byte _ h (λ scheme r1 b1 s1 m1 h1.
    elim (Bool-cases (scheme == alg_null)) [
      | inl null ↦ let same : r1 ≡ next = ground (arith, h1) in rw (sym same) b1
      | inr other ↦
          let hash : parse_scheme_hash r1 ≡ ok next = ground (arith, h1) in
          scheme_hash-IsByte r1 b1 hash
    ])

default_exponent_max : (n : ℕ) → n < 2 ^ 32 → default_exponent n < 2 ^ 32
default_exponent_max n h = ground arith

rsa_guards :
    (bits e : ℕ) (m : Bytes)
    → e < 2 ^ 32
    → unsupported_rsa bits e m ≡ false
    → IsRsaKey (record { modulus = m; exponent = e })
rsa_guards bits e m small h = record {
  valid = ground arith;
  prime = (valid_tpm_rsa_exponent_iff e small).0 (ground arith);
  exponent_max = small;
}

parse_rsa-IsRsaKey :
    (r : Reader) {p : PublicAreaRsa} {next : Reader}
    → All IsByte r.buffer
    → parse_rsa_public_area r ≡ ok (p, next)
    → IsRsaKey p
unfolding parse_rsa_public_area
parse_rsa-IsRsaKey r {p} b0 h = call_step (parse_symmetric_definition r) h (λ r1 e1 h1.
    call_step (parse_scheme (alg_rsassa ∷ alg_rsapss ∷ []) r1) h1 (λ r2 e2 h2.
      uint16_step outer r2 (scheme-IsByte _ r1 (symmetric-IsByte r b0 e1) e2) _ h2
        (λ bits r3 b3 s3 m3 h3. uint32_step outer r3 b3 _ h3 (λ stored r4 b4 s4 m4 h4.
          sized_step outer r4 b4 _ h4 (λ modulus r5 b5 s5 m5 h5.
            refuse_step (unsupported_rsa bits (default_exponent stored) modulus)
              (sentinel tpm_unsupported_key) h5
              (λ supported h6.
                let p_eq : p ≡ record { modulus = modulus; exponent = default_exponent stored } =
                  cc in
                rw p_eq (
                  rsa_guards bits (default_exponent stored) modulus (default_exponent_max stored m4)
                    supported)))))))

-- The key of a public area: a point, or an RSA key, by its type.
pub data IsKey (p : PublicArea) : Type 0 where
  point :
      p.key_type ≡ alg_ecc
      → (q : PublicAreaEc2) → p.ec2 ≡ some q
      → p.rsa ≡ none
      → IsPoint q
      → IsKey p
  rsa_key :
      p.key_type ≡ alg_rsa
      → (q : PublicAreaRsa) → p.rsa ≡ some q
      → p.ec2 ≡ none
      → IsRsaKey q
      → IsKey p

parse_key-IsKey :
    (raw : Bytes) (kind name : ℕ) (r : Reader) {p : PublicArea} {next : Reader}
    → All IsByte r.buffer
    → parse_key raw kind name r ≡ ok (p, next)
    → IsKey p × (p.raw ≡ raw) × (p.name_alg ≡ name)
unfolding parse_key
parse_key-IsKey raw kind name r {p} {next} byte h = elim (Bool-cases (kind == alg_ecc)) [
  | inl ecc ↦
      let h' : (◌>>=◌ {B = PublicArea × Reader} (parse_ecc_public_area r)
            (λ v. ok (ecc_area raw kind name v.0, v.1)))
          ≡ ok (p, next) =
        ground (arith, h, ecc) in
      call_step (parse_ecc_public_area r) h' (λ v e done.
        let p_eq : p ≡ ecc_area raw kind name v.0 = cc in
        rw p_eq (point (ground arith) v.0 refl refl (parse_ecc-IsPoint r e), refl, refl))
  | inr not_ecc ↦ elim (Bool-cases (kind == alg_rsa)) [
    | inl rsa ↦
        let h' : (◌>>=◌ {B = PublicArea × Reader} (parse_rsa_public_area r)
              (λ v. ok (rsa_area raw kind name v.0, v.1)))
            ≡ ok (p, next) =
          ground (arith, h, not_ecc, rsa) in
        call_step (parse_rsa_public_area r) h' (λ v e done.
          let p_eq : p ≡ rsa_area raw kind name v.0 = cc in
          rw p_eq (rsa_key (ground arith) v.0 refl refl (parse_rsa-IsRsaKey r byte e), refl, refl))
    | inr other ↦ absurd (ground (arith, h, not_ecc, other))
  ]
]

-- A TPMT_PUBLIC that parses keeps its bytes and holds one supported key, of the type that it
-- names: a point of a supported curve with coordinates of the curve's size, or an RSA key that is
-- valid and whose exponent is an odd prime below 2 ^ 32.
pub parse_public_area-IsKey :
    (raw : Bytes) {p : PublicArea}
    → All IsByte raw
    → parse_public_area raw ≡ ok p
    → IsKey p × (p.raw ≡ raw)
unfolding parse_public_area
parse_public_area-IsKey raw {p} b0 h =
    uint16_step outer (new_reader raw) b0 _ h (λ kind r1 b1 s1 m1 h1.
      uint16_step outer r1 b1 _ h1 (λ name r2 b2 s2 m2 h2.
        uint32_step outer r2 b2 _ h2 (λ attributes r3 b3 s3 m3 h3.
          sized_step outer r3 b3 _ h3 (λ policy r4 b4 s4 m4 h4.
            call_step (parse_key raw kind name r4) h4 (λ v e h5.
              refuse_step (not (remaining v.1 == 0)) outer h5 (λ at_end h6.
                let same : v.0 ≡ p = cc in
                let (key, kept, named) = parse_key-IsKey raw kind name r4 b4 e in
                rw (sym same) (key, kept)))))))
