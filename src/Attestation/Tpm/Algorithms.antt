-- ===== src/Attestation/Tpm/Algorithms.antt =====
-- attestation/tpm/structures.go: the algorithm and curve identifiers, hashes, and RSA exponents.
pub mod Exponent
use webauthn.Prelude.{
  ℕ, suc, zero, ◌+◌, ◌-◌, ◌/◌, ◌%◌, ◌^◌, Bool, true, false, not, ◌||◌, Option, none, some, Bytes,
  ltb, leb, ◌==◌, if◌then◌else◌,
}
use webauthn.Prelude.Int.{ℤ, negsuc, eq_ℤ}
use webauthn.Errors.{Result, ok, err, sentinel, tpm_unsupported_algorithm}
use webauthn.Codec.Key.{ec2_curve_p256, ec2_curve_p384, ec2_curve_p521}
use webauthn.Protocol.Types.{CoseAlgorithm}

abbrev pub alg_rsa : ℕ
alg_rsa = 0x0001

abbrev pub alg_sha256 : ℕ
alg_sha256 = 0x000b

abbrev pub alg_sha384 : ℕ
alg_sha384 = 0x000c

abbrev pub alg_sha512 : ℕ
alg_sha512 = 0x000d

abbrev pub alg_null : ℕ
alg_null = 0x0010

abbrev pub alg_rsassa : ℕ
alg_rsassa = 0x0014

abbrev pub alg_rsapss : ℕ
alg_rsapss = 0x0016

abbrev pub alg_ecdsa : ℕ
alg_ecdsa = 0x0018

abbrev pub alg_ecc : ℕ
alg_ecc = 0x0023

pub record CoseAlgorithmSpec : Type 0 where
  pub cose : CoseAlgorithm
  pub signature_alg : ℕ
  pub hash_alg : ℕ

abbrev spec : CoseAlgorithm → ℕ → ℕ → Option CoseAlgorithmSpec
spec a s h = some (record { cose = a; signature_alg = s; hash_alg = h })

-- `negsuc n` is `- 1 - n`.
unfoldable pub signature_algorithm_spec : CoseAlgorithm → Option CoseAlgorithmSpec
signature_algorithm_spec a =
    if eq_ℤ a (negsuc 6)
    then spec a alg_ecdsa alg_sha256
    else if eq_ℤ a (negsuc 34)
    then spec a alg_ecdsa alg_sha384
    else if eq_ℤ a (negsuc 35)
    then spec a alg_ecdsa alg_sha512
    else if eq_ℤ a (negsuc 256)
    then spec a alg_rsassa alg_sha256
    else if eq_ℤ a (negsuc 257)
    then spec a alg_rsassa alg_sha384
    else if eq_ℤ a (negsuc 258)
    then spec a alg_rsassa alg_sha512
    else if eq_ℤ a (negsuc 36)
    then spec a alg_rsapss alg_sha256
    else if eq_ℤ a (negsuc 37)
    then spec a alg_rsapss alg_sha384
    else if eq_ℤ a (negsuc 38)
    then spec a alg_rsapss alg_sha512
    else none

abbrev pub valid_tpm_hash_algorithm : ℕ → Bool
valid_tpm_hash_algorithm a = a == alg_sha256 || a == alg_sha384 || a == alg_sha512

-- The name of a curve and the length of its coordinates.
unfoldable pub tpm_curve : ℕ → Option (Bytes × ℕ)
tpm_curve id =
    if id == 0x0003
    then some (ec2_curve_p256, 32)
    else if id == 0x0004
    then some (ec2_curve_p384, 48)
    else if id == 0x0005
    then some (ec2_curve_p521, 66)
    else none

-- `crypto/sha256` and `crypto/sha512`.
pub record Hashes : Type 0 where
  pub sum256 : Bytes → Bytes
  pub sum384 : Bytes → Bytes
  pub sum512 : Bytes → Bytes

unfoldable pub tpm_hash : Hashes → ℕ → Bytes → Result Bytes
tpm_hash g a message =
    if a == alg_sha256
    then ok (g.sum256 message)
    else if a == alg_sha384
    then ok (g.sum384 message)
    else if a == alg_sha512
    then ok (g.sum512 message)
    else err (sentinel tpm_unsupported_algorithm)

-- The loop over odd divisors from `divisor` on; `none` if the fuel ends first.
unfoldable pub has_no_divisor : ℕ → ℕ → ℕ → Option Bool
has_no_divisor zero exponent divisor = none
has_no_divisor (suc fuel) exponent divisor = elim (leb divisor (exponent / divisor)) [
  | true ↦ elim (exponent % divisor == 0) [
    | true ↦ some false
    | false ↦ has_no_divisor fuel exponent ((divisor + 2) % 2 ^ 32)
  ]
  | false ↦ some true
]

-- The divisor stays below 2 ^ 16 + 2, since the exponent is below 2 ^ 32.
abbrev pub divisor_fuel : ℕ
divisor_fuel = 32768

unfoldable pub divisor_loop : ℕ → Option Bool
divisor_loop exponent = has_no_divisor divisor_fuel exponent 3

unfoldable pub valid_tpm_rsa_exponent : ℕ → Bool
valid_tpm_rsa_exponent exponent =
    if ltb exponent 3 || exponent % 2 == 0
    then false
    else elim (divisor_loop exponent) [ none ↦ false | some b ↦ b ]
