-- ===== src/Attestation/Tpm/PublicArea.antt =====
-- attestation/tpm/structures.go: the parser of TPMT_PUBLIC structures and their binding to a key.
pub mod Sound
pub mod Bound
use webauthn.Prelude.{
  ℕ, ◌+◌, ◌*◌, ◌%◌, Bool, true, false, not, ◌&&◌, ◌||◌, Option, none, some, List, [], ◌∷◌, ◌++◌,
  Bytes, length, ltb, ◌==◌, if◌then◌else◌, bytes_eq, put_uint16,
}
use webauthn.Errors.{
  Result, ok, err, ◌>>=◌, ◌>>◌, refuse_if, wrapped, sentinel, tpm_invalid_public_area,
  tpm_unsupported_key, tpm_unsupported_algorithm, tpm_public_key_mismatch,
}
use webauthn.Codec.Key.{Ec2Material, RsaMaterial, Material, valid_rsa}
use webauthn.Attestation.Tpm.Reader.{
  Reader, new_reader, remaining, read_uint16, read_uint32, sized_bytes,
}
use webauthn.Attestation.Tpm.Algorithms.{
  alg_rsa, alg_null, alg_rsassa, alg_rsapss, alg_ecdsa, alg_ecc, valid_tpm_hash_algorithm,
  tpm_curve, Hashes, tpm_hash, valid_tpm_rsa_exponent,
}

pub record PublicAreaEc2 : Type 0 where
  pub curve : Bytes
  pub x : Bytes
  pub y : Bytes

pub record PublicAreaRsa : Type 0 where
  pub modulus : Bytes
  pub exponent : ℕ

pub record PublicArea : Type 0 where
  pub raw : Bytes
  pub key_type : ℕ
  pub name_alg : ℕ
  pub ec2 : Option PublicAreaEc2
  pub rsa : Option PublicAreaRsa

abbrev pub public_area_error {ℓ} : {A : Type ℓ} → Result A → Result A
public_area_error = wrapped (sentinel tpm_invalid_public_area)

unfoldable pub parse_symmetric_definition : Reader → Result Reader
parse_symmetric_definition r = do
  (algorithm, next) ← public_area_error (read_uint16 r)
  refuse_if (not (algorithm == alg_null)) (sentinel tpm_unsupported_key)
  ok next

-- `slices.Contains` on numbers.
abbrev pub has_scheme : List ℕ → ℕ → Bool
has_scheme [] scheme = false
has_scheme (x ∷ xs) scheme = x == scheme || has_scheme xs scheme

unfoldable pub parse_scheme_hash : Reader → Result Reader
parse_scheme_hash r = do
  (hash, next) ← public_area_error (read_uint16 r)
  refuse_if (not (valid_tpm_hash_algorithm hash)) (sentinel tpm_unsupported_algorithm)
  ok next

unfoldable pub parse_scheme : List ℕ → Reader → Result Reader
parse_scheme allowed r = do
  (scheme, next) ← public_area_error (read_uint16 r)
  if scheme == alg_null
      then ok next
      else if not (has_scheme allowed scheme)
      then err (sentinel tpm_unsupported_key)
      else parse_scheme_hash next

-- The curve and the lengths of the coordinates.
unfoldable pub check_point : ℕ → Bytes → Bytes → Result PublicAreaEc2
check_point curve_id x y = elim (tpm_curve curve_id) [
  | none ↦ err (sentinel tpm_unsupported_key)
  | some (curve, size) ↦
      if not (length x == size) || not (length y == size)
      then err (sentinel tpm_unsupported_key)
      else ok (record { curve = curve; x = x; y = y })
]

unfoldable pub parse_ecc_public_area : Reader → Result (PublicAreaEc2 × Reader)
parse_ecc_public_area r0 = do
  r1 ← parse_symmetric_definition r0
  r2 ← parse_scheme (alg_ecdsa ∷ []) r1
  (curve_id, r3) ← public_area_error (read_uint16 r2)
  r4 ← parse_scheme [] r3
  (x, r5) ← public_area_error (sized_bytes r4)
  (y, r6) ← public_area_error (sized_bytes r5)
  ec2 ← check_point curve_id x y
  ok (ec2, r6)

abbrev pub default_exponent : ℕ → ℕ
default_exponent exponent = if exponent == 0 then 65537 else exponent

abbrev pub unsupported_rsa : ℕ → ℕ → Bytes → Bool
unsupported_rsa key_bits exponent modulus =
    not (valid_rsa (some (record { modulus = modulus; exponent = exponent })))
    || not (key_bits % 8 == 0)
    || not (key_bits == length modulus * 8)
    || not (valid_tpm_rsa_exponent exponent)

unfoldable pub parse_rsa_public_area : Reader → Result (PublicAreaRsa × Reader)
parse_rsa_public_area r0 = do
  r1 ← parse_symmetric_definition r0
  r2 ← parse_scheme (alg_rsassa ∷ alg_rsapss ∷ []) r1
  (key_bits, r3) ← public_area_error (read_uint16 r2)
  (stored, r4) ← public_area_error (read_uint32 r3)
  let exponent = default_exponent stored
  (modulus, r5) ← public_area_error (sized_bytes r4)
  refuse_if (unsupported_rsa key_bits exponent modulus) (sentinel tpm_unsupported_key)
  ok (record { modulus = modulus; exponent = exponent }, r5)

abbrev pub ecc_area : Bytes → ℕ → ℕ → PublicAreaEc2 → PublicArea
ecc_area raw key_type name_alg ec2 = record {
  raw = raw;
  key_type = key_type;
  name_alg = name_alg;
  ec2 = some ec2;
  rsa = none;
}

abbrev pub rsa_area : Bytes → ℕ → ℕ → PublicAreaRsa → PublicArea
rsa_area raw key_type name_alg rsa = record {
  raw = raw;
  key_type = key_type;
  name_alg = name_alg;
  ec2 = none;
  rsa = some rsa;
}

-- The part that depends on the type of the key, and the reader behind it.
unfoldable pub parse_key : Bytes → ℕ → ℕ → Reader → Result (PublicArea × Reader)
parse_key raw key_type name_alg r =
    if key_type == alg_ecc
    then (do (ec2, next) ← parse_ecc_public_area r; ok (ecc_area raw key_type name_alg ec2, next))
    else if key_type == alg_rsa
    then (do (rsa, next) ← parse_rsa_public_area r; ok (rsa_area raw key_type name_alg rsa, next))
    else err (sentinel tpm_unsupported_key)

unfoldable pub parse_public_area : Bytes → Result PublicArea
parse_public_area raw = do
  (key_type, r1) ← public_area_error (read_uint16 (new_reader raw))
  (name_alg, r2) ← public_area_error (read_uint16 r1)
  (attributes, r3) ← public_area_error (read_uint32 r2)
  (policy, r4) ← public_area_error (sized_bytes r3)
  (parsed, r5) ← parse_key raw key_type name_alg r4
  refuse_if (not (remaining r5 == 0)) (sentinel tpm_invalid_public_area)
  ok parsed

abbrev ec2_mismatch : PublicAreaEc2 → Ec2Material → Bool
ec2_mismatch p m =
    not (bytes_eq p.curve m.curve) || not (bytes_eq p.x m.x) || not (bytes_eq p.y m.y)

abbrev rsa_mismatch : PublicAreaRsa → RsaMaterial → Bool
rsa_mismatch p m = not (p.exponent == m.exponent) || not (bytes_eq p.modulus m.modulus)

abbrev bind_ec2 : Option PublicAreaEc2 → Option Ec2Material → Result (Unit {0})
bind_ec2 (some p) (some m) = refuse_if (ec2_mismatch p m) (sentinel tpm_public_key_mismatch)
bind_ec2 _ _ = err (sentinel tpm_unsupported_key)

abbrev bind_rsa : Option PublicAreaRsa → Option RsaMaterial → Result (Unit {0})
bind_rsa (some p) (some m) =
    if not (valid_rsa (some m))
    then err (sentinel tpm_unsupported_key)
    else refuse_if (rsa_mismatch p m) (sentinel tpm_public_key_mismatch)
bind_rsa _ _ = err (sentinel tpm_unsupported_key)

unfoldable pub validate_public_area_binding : PublicArea → Material → Result (Unit {0})
validate_public_area_binding parsed material =
    if parsed.key_type == alg_ecc
    then bind_ec2 parsed.ec2 material.ec2
    else if parsed.key_type == alg_rsa
    then bind_rsa parsed.rsa material.rsa
    else err (sentinel tpm_unsupported_key)

-- `publicArea.name`: the algorithm of the name and the digest of the structure.
unfoldable pub public_area_name : Hashes → PublicArea → Result Bytes
public_area_name g p = do digest ← tpm_hash g p.name_alg p.raw; ok (put_uint16 p.name_alg ++ digest)
