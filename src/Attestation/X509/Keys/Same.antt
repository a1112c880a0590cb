-- ===== src/Attestation/X509/Keys/Same.antt =====
-- attestation/internal/x509util: what the comparison of a certificate's key with a credential's
-- finds.
use webauthn.Prelude.{
  ℕ, ◌≡◌, sym, arith, Option, none, some, Option-cases, inl, inr, Bytes, bytes_eq_iff,
}
use webauthn.Prelude.Int.{ℤ, pos, negsuc}
use webauthn.Errors.{Error, ok}
use webauthn.Codec.Key.{Ec2Material, RsaMaterial, OkpMaterial, Material, okp_curve_ed25519}
use webauthn.Attestation.X509.{PublicKey, EcdsaKey, ecdsa_key, rsa_key, ed25519_key, other_key}
use webauthn.Attestation.X509.Keys.{ecdsa_material, public_key_material, validate_public_key}

-- Both materials hold the same point, the same RSA key, or the same Ed25519 key.
pub data IsSameKey (m n : Material) : Type 0 where
  same_ec2 :
      (k l : Ec2Material)
      → m.ec2 ≡ some k
      → n.ec2 ≡ some l
      → (k.curve ≡ l.curve) × (k.x ≡ l.x) × (k.y ≡ l.y)
      → IsSameKey m n
  same_rsa :
      (k l : RsaMaterial)
      → m.rsa ≡ some k
      → n.rsa ≡ some l
      → (k.modulus ≡ l.modulus) × (k.exponent ≡ l.exponent)
      → IsSameKey m n
  same_okp :
      (k l : OkpMaterial)
      → m.okp ≡ some k
      → n.okp ≡ some l
      → (k.curve ≡ l.curve) × (k.x ≡ l.x)
      → IsSameKey m n

module _ (unsupported mismatch : Error) where
  ecdsa-IsSameKey :
      (k : Option EcdsaKey) {m : Material} (n : Material)
      → public_key_material (ecdsa_key k) ≡ some m
      → validate_public_key unsupported mismatch (ecdsa_key k) n ≡ ok tt
      → IsSameKey m n
  unfolding public_key_material validate_public_key
  ecdsa-IsSameKey k {m} n made agrees = elim (Option-cases (ecdsa_material k)) [
    | inl e ↦ absurd (ground (arith, e, made))
    | inr (c, e) ↦ elim (Option-cases n.ec2) [
      | inl e' ↦ absurd (ground (arith, e, e', agrees))
      | inr (d, e') ↦ same_ec2 c d (ground (arith, e, made)) e' (
        (bytes_eq_iff c.curve d.curve).0 (ground (arith, e, e', agrees)),
        (bytes_eq_iff c.x d.x).0 (ground (arith, e, e', agrees)),
        (bytes_eq_iff c.y d.y).0 (ground (arith, e, e', agrees)),
      )
    ]
  ]

  rsa-IsSameKey :
      (modulus : Bytes) (e : ℕ) {m : Material} (n : Material)
      → public_key_material (rsa_key (some (record { n = some modulus; e = pos e }))) ≡ some m
      → validate_public_key unsupported mismatch
          (rsa_key (some (record { n = some modulus; e = pos e })))
          n
        ≡ ok tt
      → IsSameKey m n
  unfolding public_key_material validate_public_key
  rsa-IsSameKey modulus e {m} n made agrees = elim (Option-cases n.rsa) [
    | inl none_there ↦ absurd (ground (arith, none_there, agrees))
    | inr (d, there) ↦
        same_rsa (record { modulus = modulus; exponent = e }) d (ground (arith, made)) there
          (
            (bytes_eq_iff modulus d.modulus).0 (ground (arith, there, agrees)),
            ground (arith, there, agrees),
          )
  ]

  rsa_by-IsSameKey :
      (o : Option Bytes) (e : ℤ) {m : Material} (n : Material)
      → public_key_material (rsa_key (some (record { n = o; e = e }))) ≡ some m
      → validate_public_key unsupported mismatch (rsa_key (some (record { n = o; e = e }))) n
        ≡ ok tt
      → IsSameKey m n
  unfolding public_key_material
  rsa_by-IsSameKey none e n made agrees = absurd (ground (arith, made))
  rsa_by-IsSameKey (some modulus) (negsuc e) n made agrees = absurd (ground (arith, made))
  rsa_by-IsSameKey (some modulus) (pos e) n made agrees = rsa-IsSameKey modulus e n made agrees

  okp-IsSameKey :
      (key : Bytes) {m : Material} (n : Material)
      → public_key_material (ed25519_key key) ≡ some m
      → validate_public_key unsupported mismatch (ed25519_key key) n ≡ ok tt
      → IsSameKey m n
  unfolding public_key_material validate_public_key
  okp-IsSameKey key {m} n made agrees = elim (Option-cases n.okp) [
    | inl none_there ↦ absurd (ground (arith, none_there, agrees))
    | inr (d, there) ↦
        same_okp (record { curve = okp_curve_ed25519; x = key }) d (ground (arith, made)) there
          (
            sym ((bytes_eq_iff d.curve okp_curve_ed25519).0 (ground (arith, there, agrees))),
            (bytes_eq_iff key d.x).0 (ground (arith, there, agrees)),
          )
  ]

  -- The key of a certificate that passes is the key of the credential.
  pub validate_public_key-IsSameKey :
      (k : PublicKey) {m : Material} (n : Material)
      → public_key_material k ≡ some m
      → validate_public_key unsupported mismatch k n ≡ ok tt
      → IsSameKey m n
  unfolding public_key_material validate_public_key
  validate_public_key-IsSameKey (ecdsa_key k) n made agrees = ecdsa-IsSameKey k n made agrees
  validate_public_key-IsSameKey (rsa_key none) n made agrees = absurd (ground (arith, made))
  validate_public_key-IsSameKey (rsa_key (some k)) n made agrees =
      rsa_by-IsSameKey k.n k.e n made agrees
  validate_public_key-IsSameKey (ed25519_key k) n made agrees = okp-IsSameKey k n made agrees
  validate_public_key-IsSameKey other_key n made agrees = absurd (ground (arith, made))
