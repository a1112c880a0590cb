-- ===== src/Attestation/Tpm/PublicArea/Bound.antt =====
-- attestation/tpm/structures.go: what the comparison of a public area with a credential proves.
use webauthn.Prelude.{◌≡◌, inl, inr, arith, some, Bytes, IsByte, All, bytes_eq_iff, Option-cases}
use webauthn.Errors.{ok}
use webauthn.Codec.Key.{Ec2Material, RsaMaterial, Material}
use webauthn.Attestation.Tpm.Algorithms.{alg_rsa, alg_ecc}
use webauthn.Attestation.Tpm.PublicArea.{
  PublicArea, PublicAreaEc2, PublicAreaRsa, parse_public_area, validate_public_area_binding,
}
use webauthn.Attestation.Tpm.PublicArea.Sound.{
  IsPoint, IsRsaKey, point, rsa_key, parse_public_area-IsKey,
}

-- The key of the credential is the key of the public area.
pub data IsBound (p : PublicArea) (m : Material) : Type 0 where
  bound_point :
      (c : Ec2Material) (q : PublicAreaEc2)
      → m.ec2 ≡ some c
      → p.ec2 ≡ some q
      → (q.curve ≡ c.curve) × (q.x ≡ c.x) × (q.y ≡ c.y)
      → IsPoint q
      → IsBound p m
  bound_rsa :
      (c : RsaMaterial) (q : PublicAreaRsa)
      → m.rsa ≡ some c
      → p.rsa ≡ some q
      → (q.modulus ≡ c.modulus) × (q.exponent ≡ c.exponent)
      → IsRsaKey q
      → IsBound p m

bind-point :
    (p : PublicArea) (m : Material) (q : PublicAreaEc2)
    → p.key_type ≡ alg_ecc
    → p.ec2 ≡ some q
    → IsPoint q
    → validate_public_area_binding p m ≡ ok tt
    → IsBound p m
unfolding validate_public_area_binding
bind-point p m q kind ec2 is_point binds = elim (Option-cases m.ec2) [
  | inl e ↦ absurd (ground (arith, e, kind, ec2, binds))
  | inr (c, e) ↦
      let curve : q.curve ≡ c.curve =
        (bytes_eq_iff q.curve c.curve).0 (ground (arith, e, kind, ec2, binds)) in
      let x : q.x ≡ c.x = (bytes_eq_iff q.x c.x).0 (ground (arith, e, kind, ec2, binds)) in
      let y : q.y ≡ c.y = (bytes_eq_iff q.y c.y).0 (ground (arith, e, kind, ec2, binds)) in
      bound_point c q e ec2 (curve, x, y) is_point
]

bind-rsa :
    (p : PublicArea) (m : Material) (q : PublicAreaRsa)
    → p.key_type ≡ alg_rsa
    → p.rsa ≡ some q
    → IsRsaKey q
    → validate_public_area_binding p m ≡ ok tt
    → IsBound p m
unfolding validate_public_area_binding
bind-rsa p m q kind rsa is_rsa binds = elim (Option-cases m.rsa) [
  | inl e ↦ absurd (ground (arith, e, kind, rsa, binds))
  | inr (c, e) ↦
      let modulus : q.modulus ≡ c.modulus =
        (bytes_eq_iff q.modulus c.modulus).0 (ground (arith, e, kind, rsa, binds)) in
      let exponent : q.exponent ≡ c.exponent = ground (arith, e, kind, rsa, binds) in
      bound_rsa c q e rsa (modulus, exponent) is_rsa
]

-- A parsed TPMT_PUBLIC binds only key material that is the key it holds: a point of a supported
-- curve, or a valid RSA key whose exponent is an odd prime.
pub validate_public_area_binding-IsBound :
    (raw : Bytes) {p : PublicArea} (m : Material)
    → All IsByte raw
    → parse_public_area raw ≡ ok p
    → validate_public_area_binding p m ≡ ok tt
    → IsBound p m
validate_public_area_binding-IsBound raw {p} m byte parses binds =
    elim (parse_public_area-IsKey raw byte parses).0 [
      | point kind q ec2 no_rsa is_point ↦ bind-point p m q kind ec2 is_point binds
      | rsa_key kind q rsa no_ec2 is_rsa ↦ bind-rsa p m q kind rsa is_rsa binds
    ]
