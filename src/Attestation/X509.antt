-- ===== src/Attestation/X509.antt =====
-- attestation/internal/x509util: certificate chains, extensions, names and public keys. The parser
-- of certificates and `asn1.Unmarshal` into each type are parameters.
pub mod Keys
pub mod Names
pub mod Profile
use webauthn.Prelude.{
  ◌≡◌, refl, sym, ℕ, ◌+◌, ◌-◌, ◌*◌, Bool, true, false, not, ◌&&◌, ◌||◌, Option, none, some, List,
  [], ◌∷◌, ◌++◌, Bytes, is_empty, length, bytes_eq, ltb, leb, ◌==◌, if◌then◌else◌,
}
use webauthn.Prelude.Int.{ℤ}
use webauthn.Errors.{
  call_step, wrapped-eq-ok, Error, Result, ok, err, ◌>>=◌, ◌>>◌, refuse_if, wrapped, message,
}

-- `asn1.ObjectIdentifier`.
abbrev pub Oid : Type 0
Oid = List ℕ

-- `asn1.RawValue`.
pub record RawValue : Type 0 where
  pub class : ℕ
  pub tag : ℕ
  pub is_compound : Bool
  pub body : Bytes
  pub full_bytes : Bytes

-- `asn1.Unmarshal`, by the type of its target: the value and the bytes behind it.
pub record Asn1 : Type 0 where
  pub unmarshal_raw : Bytes → Result (RawValue × Bytes)
  pub unmarshal_raws : Bytes → Result (List RawValue × Bytes)
  pub unmarshal_oid : Bytes → Result (Oid × Bytes)
  pub unmarshal_string : Bytes → Result (Bytes × Bytes)
  pub unmarshal_octets : Bytes → Result (Bytes × Bytes)
  pub unmarshal_int : Bytes → Result (ℤ × Bytes)
  pub unmarshal_enumerated : Bytes → Result (ℤ × Bytes)

-- `pkix.Extension`.
pub record CertificateExtension : Type 0 where
  pub id : Oid
  pub critical : Bool
  pub extension_value : Bytes

-- `*ecdsa.PublicKey`: the name of its curve, if it has one, and the result of `Bytes`.
pub record EcdsaKey : Type 0 where
  pub has_coordinates : Bool
  pub curve_name : Option Bytes
  pub encoded : Result Bytes

-- `*rsa.PublicKey`: the bytes of `N`, if it is not nil, and `E`.
pub record RsaKey : Type 0 where
  pub n : Option Bytes
  pub e : ℤ

-- The public key of a certificate, by its dynamic type.
pub data PublicKey : Type 0 where
  ecdsa_key : Option EcdsaKey → PublicKey
  rsa_key : Option RsaKey → PublicKey
  ed25519_key : Bytes → PublicKey
  other_key : PublicKey

-- `pkix.Name`. The attributes in `Names` and `ExtraNames` are counted only.
pub record Subject : Type 0 where
  pub country : List Bytes
  pub organization : List Bytes
  pub organizational_unit : List Bytes
  pub locality : List Bytes
  pub province : List Bytes
  pub street_address : List Bytes
  pub postal_code : List Bytes
  pub serial_number : Bytes
  pub common_name : Bytes
  pub names_count : ℕ
  pub extra_names_count : ℕ

-- `*x509.Certificate`, as far as the formats read it.
pub record Certificate : Type 0 where
  pub version : ℤ
  pub raw_subject : Bytes
  pub subject : Subject
  pub extensions : List CertificateExtension
  pub unknown_ext_key_usage : List Oid
  pub basic_constraints_valid : Bool
  pub is_ca : Bool
  pub public_key : PublicKey

-- A parsed chain: the leaf, which is there, and the certificates behind it.
pub record Chain : Type 0 where
  pub raw_chain : List Bytes
  pub leaf : Certificate
  pub issuers : List Certificate

module _ (parse : Bytes → Result Certificate) where
  unfoldable pub parse_certificates : Error → List Bytes → Result (List Certificate)
  parse_certificates invalid [] = ok []
  parse_certificates invalid (raw ∷ raws) = do
    certificate ← wrapped invalid (parse raw)
    rest ← parse_certificates invalid raws
    ok (certificate ∷ rest)

  abbrev as_chain : Error → List Bytes → List Certificate → Result Chain
  as_chain invalid raws [] = err invalid
  as_chain invalid raws (c ∷ cs) = ok (record { raw_chain = raws; leaf = c; issuers = cs })

  unfoldable pub parse_certificate_chain : List Bytes → Error → Result Chain
  parse_certificate_chain raws invalid = do
    certificates ← parse_certificates invalid raws
    as_chain invalid raws certificates

  -- A chain that parses keeps its bytes, and its leaf is the first certificate.
  pub parse_certificate_chain_leaf :
      (raws : List Bytes) (invalid : Error) {c : Chain}
      → parse_certificate_chain raws invalid ≡ ok c
      → (c.raw_chain ≡ raws)
        × (raw : Bytes) × (more : List Bytes) × (raws ≡ raw ∷ more)
        × (parse raw ≡ ok c.leaf)
  unfolding parse_certificate_chain parse_certificates
  parse_certificate_chain_leaf [] invalid h = cc
  parse_certificate_chain_leaf (raw ∷ raws) invalid {c} h =
      call_step (parse_certificates invalid (raw ∷ raws)) h (λ certificates e h1.
        call_step (wrapped invalid (parse raw)) e (λ first e1 h2.
          call_step (parse_certificates invalid raws) h2 (λ others e2 h3.
            let list : certificates ≡ first ∷ others = cc in
            let c_eq : c ≡ record { raw_chain = raw ∷ raws; leaf = first; issuers = others } = cc in
            rw c_eq (refl, raw, raws, refl, wrapped-eq-ok invalid (parse raw) e1))))

abbrev find_in : Oid → List CertificateExtension → Option CertificateExtension
find_in oid [] = none
find_in oid (x ∷ xs) = if bytes_eq x.id oid then some x else find_in oid xs

unfoldable pub find_extension : Certificate → Oid → Option CertificateExtension
find_extension c oid = find_in oid c.extensions

abbrev is_found : Option CertificateExtension → Bool
is_found none = false
is_found (some x) = true

unfoldable pub has_extension : Certificate → Oid → Bool
unfolding find_extension
has_extension c oid = is_found (find_extension c oid)
