-- ===== src/Codec/Key.antt =====
-- codec/codec.go: `CredentialPublicKey` and the material behind it. Copies are the values.
use webauthn.Prelude.{
  ℕ, ◌+◌, ◌-◌, ◌*◌, ◌%◌, ◌≡◌, arith, Bool, false, not, ◌&&◌, ◌||◌, Option, none, some, [], ◌∷◌,
  Bytes, ascii, ◌++◌, length, take, drop, slice, get_or, bytes_eq, ltb, leb, ◌==◌, if◌then◌else◌,
  drop-zero, drop-drop, sym, ap, ◌∙◌, take-append-drop, length-take, length-drop, drop-get_or,
  bytes_eq_refl,
}
use webauthn.Prelude.Int.{pos, eq_ℤ}
use webauthn.Errors.{Result, ◌>>◌, refuse_if, sentinel, invalid_credential_public_key}
use webauthn.Protocol.Types.{CoseAlgorithm, algorithm_es256, validate_algorithm}

abbrev pub max_credential_public_key_bytes : ℕ
max_credential_public_key_bytes = 65536

abbrev pub ec2_curve_p256 : Bytes
ec2_curve_p256 = ascii "P-256"

abbrev pub ec2_curve_p384 : Bytes
ec2_curve_p384 = ascii "P-384"

abbrev pub ec2_curve_p521 : Bytes
ec2_curve_p521 = ascii "P-521"

abbrev pub okp_curve_ed25519 : Bytes
okp_curve_ed25519 = ascii "Ed25519"

pub record Ec2Material : Type 0 where
  pub curve : Bytes
  pub x : Bytes
  pub y : Bytes

pub record RsaMaterial : Type 0 where
  pub modulus : Bytes
  pub exponent : ℕ

pub record OkpMaterial : Type 0 where
  pub curve : Bytes
  pub x : Bytes

pub record Material : Type 0 where
  pub ec2 : Option Ec2Material
  pub rsa : Option RsaMaterial
  pub okp : Option OkpMaterial

pub record CredentialPublicKey : Type 0 where
  pub algorithm : CoseAlgorithm
  pub raw : Bytes
  pub material : Material

abbrev pub new_credential_public_key : CoseAlgorithm → Bytes → Material → CredentialPublicKey
new_credential_public_key a raw m = record { algorithm = a; raw = raw; material = m }

abbrev pub no_material : Material
no_material = record { ec2 = none; rsa = none; okp = none }

unfoldable pub new_credential_public_key_with_u2f :
    CoseAlgorithm → Bytes → Bytes → CredentialPublicKey
new_credential_public_key_with_u2f a raw u2f =
    if length u2f == 65 && get_or u2f 0 0 == 4
    then new_credential_public_key a raw (record no_material {
      ec2 = some (record { curve = ec2_curve_p256; x = slice 1 33 u2f; y = drop 33 u2f });
    })
    else new_credential_public_key a raw no_material

-- The key `0x04 || x || y` of an EC2 material, or nil.
abbrev u2f_of : CoseAlgorithm → Option Ec2Material → Bytes
u2f_of a none = []
u2f_of a (some m) =
    if not (eq_ℤ a algorithm_es256)
      || not (bytes_eq m.curve ec2_curve_p256)
      || not (length m.x == 32)
      || not (length m.y == 32)
    then []
    else 4 ∷ (m.x ++ m.y)

unfoldable pub u2f_public_key : CredentialPublicKey → Bytes
u2f_public_key k = u2f_of k.algorithm k.material.ec2

unfoldable pub validate_key : CredentialPublicKey → Result (Unit {0})
validate_key k = do
  refuse_if
      (eq_ℤ k.algorithm (pos 0)
        || length k.raw == 0
        || ltb max_credential_public_key_bytes (length k.raw))
      (sentinel invalid_credential_public_key)
  validate_algorithm k.algorithm

-- `bits.Len8`: the number of bits that a byte needs.
unfoldable pub len8 : ℕ → ℕ
len8 x =
    if ltb x 1
    then 0
    else if ltb x 2
    then 1
    else if ltb x 4
    then 2
    else if ltb x 8
    then 3
    else if ltb x 16
    then 4
    else if ltb x 32
    then 5
    else if ltb x 64
    then 6
    else if ltb x 128
    then 7
    else 8

abbrev pub min_rsa_modulus_bits : ℕ
min_rsa_modulus_bits = 2048

abbrev pub max_rsa_modulus_bits : ℕ
max_rsa_modulus_bits = 16384

-- `(*RSAPublicKeyMaterial).Valid`.
unfoldable pub valid_rsa : Option RsaMaterial → Bool
unfolding len8
valid_rsa none = false
valid_rsa (some m) =
    let n = length m.modulus in
    let bits = (n - 1) * 8 + len8 (get_or m.modulus 0 0) in
    if n == 0
      || get_or m.modulus 0 0 == 0
      || get_or m.modulus (n - 1) 0 % 2 == 0
      || ltb m.exponent 3
      || m.exponent % 2 == 0
    then false
    else leb min_rsa_modulus_bits bits && leb bits max_rsa_modulus_bits

split_u2f :
    (u : Bytes) → length u ≡ 65 → get_or u 0 0 ≡ 4 → 4 ∷ (take 32 (drop 1 u) ++ drop 33 u) ≡ u
split_u2f u size head =
    ap (◌∷◌ 4) (
      ap (λ (t : Bytes). take 32 (drop 1 u) ++ t) (sym (drop-drop 32 1 u))
      ∙ take-append-drop 32 (drop 1 u))
    ∙ ap (λ (n : ℕ). n ∷ drop 1 u) (sym head)
    ∙ sym (drop-get_or 0 u 0 (omega arith))
    ∙ drop-zero u

-- An uncompressed U2F key, 65 bytes that begin with 4, is given back whole by an ES256 credential
-- key that was made from it.
pub u2f_public_key-new :
    (raw u2f : Bytes)
    → length u2f ≡ 65
    → get_or u2f 0 0 ≡ 4
    → u2f_public_key (new_credential_public_key_with_u2f algorithm_es256 raw u2f) ≡ u2f
unfolding u2f_public_key new_credential_public_key_with_u2f
u2f_public_key-new raw u2f size head = ground (
  arith,
  split_u2f u2f size head,
  length-take 32 (drop 1 u2f),
  length-drop 1 u2f,
  length-drop 33 u2f,
  bytes_eq_refl ec2_curve_p256,
)
