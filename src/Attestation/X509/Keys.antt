-- ===== src/Attestation/X509/Keys.antt =====
-- attestation/internal/x509util: the key material of a certificate's public key, and its
-- comparison with that of a credential.
pub mod Same
use webauthn.Prelude.{
  ℕ, ◌+◌, ◌-◌, ◌*◌, ◌%◌, ◌^◌, Bool, true, false, not, ◌||◌, Option, none, some, Bytes, ascii,
  length, get_or, slice, drop, bytes_eq, ltb, ◌==◌, if◌then◌else◌,
}
use webauthn.Prelude.Int.{ℤ, pos, negsuc}
use webauthn.Errors.{Error, Result, ok, err, ◌>>◌, refuse_if}
use webauthn.Codec.Key.{
  Ec2Material, RsaMaterial, OkpMaterial, Material, valid_rsa, len8, ec2_curve_p256, ec2_curve_p384,
  ec2_curve_p521, okp_curve_ed25519, no_material, min_rsa_modulus_bits, max_rsa_modulus_bits,
}
use webauthn.Attestation.X509.{
  EcdsaKey, RsaKey, PublicKey, ecdsa_key, rsa_key, ed25519_key, other_key,
}

-- `BitLen` of an integer, by its bytes without leading zeros.
unfoldable pub bit_len : Bytes → ℕ
bit_len n = if length n == 0 then 0 else (length n - 1) * 8 + len8 (get_or n 0 0)

unfoldable pub curve_material : Option Bytes → Option (Bytes × ℕ)
curve_material none = none
curve_material (some name) =
    if bytes_eq name (ascii "P-256")
    then some (ec2_curve_p256, 32)
    else if bytes_eq name (ascii "P-384")
    then some (ec2_curve_p384, 48)
    else if bytes_eq name (ascii "P-521")
    then some (ec2_curve_p521, 66)
    else none

-- `encoded[1:1+n]` and `encoded[1+n:]` of the uncompressed point.
abbrev ec2_of : Bytes → ℕ → Result Bytes → Option Ec2Material
ec2_of curve n (err e) = none
ec2_of curve n (ok encoded) =
    some (record { curve = curve; x = slice 1 (1 + n) encoded; y = drop (1 + n) encoded })

abbrev ec2_on : Result Bytes → Option (Bytes × ℕ) → Option Ec2Material
ec2_on encoded none = none
ec2_on encoded (some (curve, n)) = ec2_of curve n encoded

unfoldable pub ecdsa_material : Option EcdsaKey → Option Ec2Material
ecdsa_material none = none
ecdsa_material (some k) =
    if not k.has_coordinates then none else ec2_on k.encoded (curve_material k.curve_name)

abbrev bits_out_of_range : Bytes → Bool
bits_out_of_range n = ltb (bit_len n) min_rsa_modulus_bits || ltb max_rsa_modulus_bits (bit_len n)

abbrev rsa_of : Bytes → ℤ → Option RsaMaterial
rsa_of n (negsuc e) = none
rsa_of n (pos e) =
    if bits_out_of_range n || ltb e 3 || e % 2 == 0 || ltb (2 ^ 32 - 1) e
    then none
    else some (record { modulus = n; exponent = e })

abbrev rsa_by : ℤ → Option Bytes → Option RsaMaterial
rsa_by e none = none
rsa_by e (some n) = rsa_of n e

unfoldable pub rsa_key_material : Option RsaKey → Option RsaMaterial
rsa_key_material none = none
rsa_key_material (some k) = rsa_by k.e k.n

abbrev with_ec2 : Option Ec2Material → Option Material
with_ec2 none = none
with_ec2 (some m) = some (record no_material { ec2 = some m })

abbrev with_rsa : Option RsaMaterial → Option Material
with_rsa none = none
with_rsa (some m) = some (record no_material { rsa = some m })

unfoldable pub public_key_material : PublicKey → Option Material
unfolding ecdsa_material rsa_key_material
public_key_material (ecdsa_key k) = with_ec2 (ecdsa_material k)
public_key_material (rsa_key k) = with_rsa (rsa_key_material k)
public_key_material (ed25519_key k) =
    if not (length k == 32)
    then none
    else some (record no_material { okp = some (record { curve = okp_curve_ed25519; x = k }) })
public_key_material other_key = none

module _ (unsupported mismatch : Error) where
  abbrev compare_ec2 : Option Ec2Material → Option Ec2Material → Result (Unit {0})
  compare_ec2 (some actual) (some m) = do
    refuse_if (not (bytes_eq actual.curve m.curve)) unsupported
    refuse_if (not (bytes_eq actual.x m.x) || not (bytes_eq actual.y m.y)) mismatch
  compare_ec2 _ _ = err unsupported

  abbrev compare_exponent : Bytes → ℤ → RsaMaterial → Result (Unit {0})
  compare_exponent n (negsuc e) m = err unsupported
  compare_exponent n (pos e) m = do
    refuse_if (bits_out_of_range n || e == 0 || ltb (2 ^ 32 - 1) e) unsupported
    refuse_if (not (e == m.exponent) || not (bytes_eq n m.modulus)) mismatch

  abbrev compare_rsa : Option Bytes → ℤ → Option RsaMaterial → Result (Unit {0})
  compare_rsa (some n) e (some m) = do
    refuse_if (not (valid_rsa (some m))) unsupported
    compare_exponent n e m
  compare_rsa _ e _ = err unsupported

  abbrev compare_rsa_key : Option RsaKey → Option RsaMaterial → Result (Unit {0})
  compare_rsa_key none m = err unsupported
  compare_rsa_key (some k) m = compare_rsa k.n k.e m

  abbrev other_than_okp : Material → Bool
  other_than_okp m = elim (m.ec2) [
    | some _ ↦ true
    | none ↦ elim (m.rsa) [ some _ ↦ true | none ↦ false ]
  ]

  abbrev compare_ed25519 : Bytes → Bool → Option OkpMaterial → Result (Unit {0})
  compare_ed25519 k others none = err unsupported
  compare_ed25519 k others (some m) = do
    refuse_if
        (not (length k == 32)
          || others
          || not (bytes_eq m.curve okp_curve_ed25519)
          || not (length m.x == 32))
        unsupported
    refuse_if (not (bytes_eq k m.x)) mismatch

  unfoldable pub validate_public_key : PublicKey → Material → Result (Unit {0})
  validate_public_key (ecdsa_key k) m = compare_ec2 (ecdsa_material k) m.ec2
  validate_public_key (rsa_key k) m = compare_rsa_key k m.rsa
  validate_public_key (ed25519_key k) m = compare_ed25519 k (other_than_okp m) m.okp
  validate_public_key other_key m = err unsupported
