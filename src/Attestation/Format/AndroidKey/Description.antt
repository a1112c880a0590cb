-- ===== src/Attestation/Format/AndroidKey/Description.antt =====
-- attestation/androidkey/extension.go: the key description of an attestation certificate.
use webauthn.Prelude.{
  ℕ, Bool, true, false, not, ◌||◌, ◌&&◌, List, [], ◌∷◌, ◌++◌, Bytes, is_empty, length, bytes_eq,
  ◌==◌, if◌then◌else◌,
}
use webauthn.Prelude.Int.{ℤ, pos, eq_ℤ}
use webauthn.Errors.{
  Error, Result, ok, err, ◌>>=◌, ◌>>◌, refuse_if, wrap, sentinel, android_key_invalid_extension,
  android_key_certificate_requirements,
}
use webauthn.Attestation.X509.{RawValue, Asn1}
use webauthn.Attestation.X509.Names.{exactly, is_not, items_of}

abbrev pub bad_extension : Error
bad_extension = sentinel android_key_invalid_extension

abbrev pub requirements : Error
requirements = sentinel android_key_certificate_requirements

pub record AuthorizationList : Type 0 where
  pub purposes : List ℤ
  pub origins : List ℤ
  pub all_applications : Bool

pub record KeyDescription : Type 0 where
  pub attestation_security_level : ℤ
  pub keymaster_security_level : ℤ
  pub attestation_challenge : Bytes
  pub software_enforced : AuthorizationList
  pub hardware_enforced : AuthorizationList

-- A failed call is wrapped, and bytes that are left are refused.
abbrev whole {ℓ} : {A : Type ℓ} → Result (A × Bytes) → Result A
whole (err failure) = err (wrap bad_extension failure)
whole (ok (a, rest)) = if is_empty rest then ok a else err bad_extension

-- The set of a list, with each value once.
abbrev pub has_int : ℤ → List ℤ → Bool
has_int x [] = false
has_int x (y ∷ ys) = eq_ℤ x y || has_int x ys

unfoldable pub set_of : List ℤ → List ℤ
set_of [] = []
set_of (x ∷ xs) = let rest = set_of xs in if has_int x rest then rest else x ∷ rest

abbrev pub all_purposes : List AuthorizationList → List ℤ
all_purposes [] = []
all_purposes (l ∷ ls) = l.purposes ++ all_purposes ls

abbrev pub all_origins : List AuthorizationList → List ℤ
all_origins [] = []
all_origins (l ∷ ls) = l.origins ++ all_origins ls

-- The origin is "generated" (0) and the purpose "sign" (2), and there is no other.
unfoldable pub authorization_lists_exactly_match_webauthn : List AuthorizationList → Bool
authorization_lists_exactly_match_webauthn ls =
    let origins = set_of (all_origins ls) in
    let purposes = set_of (all_purposes ls) in
    has_int (pos 0) origins
    && has_int (pos 2) purposes
    && length origins == 1
    && length purposes == 1

unfoldable pub hardware_security_level : ℤ → Bool
hardware_security_level level = eq_ℤ level (pos 1) || eq_ℤ level (pos 2)

abbrev pub selected : Bool → KeyDescription → List AuthorizationList
selected true d = d.hardware_enforced ∷ []
selected false d = d.software_enforced ∷ d.hardware_enforced ∷ []

abbrev pub lacks_hardware : KeyDescription → Bool
lacks_hardware d =
    not (hardware_security_level d.attestation_security_level)
    || not (hardware_security_level d.keymaster_security_level)

abbrev is_seen : ℕ → List ℕ → Bool
is_seen tag [] = false
is_seen tag (t ∷ ts) = t == tag || is_seen tag ts

-- `Class != ClassContextSpecific || !IsCompound`.
abbrev not_explicit : RawValue → Bool
not_explicit v = not (v.class == 2) || not v.is_compound

module _ (asn1 : Asn1) where
  unfoldable pub parse_asn1_items : Bytes → Result (List RawValue)
  parse_asn1_items = items_of asn1 (wrap bad_extension) bad_extension

  unfoldable pub parse_sequence_value : RawValue → Result (List RawValue)
  parse_sequence_value v = do refuse_if (is_not 0 16 v) bad_extension; parse_asn1_items v.body

  unfoldable pub parse_sequence : Bytes → Result (List RawValue)
  parse_sequence raw = do outer ← whole (asn1.unmarshal_raw raw); parse_sequence_value outer

  unfoldable pub parse_octet_string : RawValue → Result Bytes
  parse_octet_string v = whole (asn1.unmarshal_octets v.full_bytes)

  unfoldable pub parse_integer : RawValue → Result ℤ
  parse_integer v = whole (asn1.unmarshal_int v.full_bytes)

  unfoldable pub parse_security_level : RawValue → Result ℤ
  parse_security_level v = do
    level ← exactly bad_extension (asn1.unmarshal_enumerated v.full_bytes)
    refuse_if (not (eq_ℤ level (pos 0)) && not (eq_ℤ level (pos 1)) && not (eq_ℤ level (pos 2)))
        bad_extension
    ok level

  unfoldable pub parse_explicit_int : RawValue → Result ℤ
  parse_explicit_int v = do
    refuse_if (not_explicit v) bad_extension
    whole (asn1.unmarshal_int v.body)

  unfoldable pub parse_integers : List RawValue → Result (List ℤ)
  parse_integers [] = ok []
  parse_integers (v ∷ vs) = do x ← parse_integer v; rest ← parse_integers vs; ok (x ∷ rest)

  unfoldable pub parse_explicit_int_set : RawValue → Result (List ℤ)
  parse_explicit_int_set v = do
    refuse_if (not_explicit v) bad_extension
    set ← whole (asn1.unmarshal_raw v.body)
    refuse_if (is_not 0 17 set) bad_extension
    items ← parse_asn1_items set.body
    parse_integers items

  unfoldable pub parse_explicit_null : RawValue → Result (Unit {0})
  parse_explicit_null v = do
    refuse_if (not_explicit v) bad_extension
    null ← whole (asn1.unmarshal_raw v.body)
    refuse_if
        (not (null.class == 0)
          || not (null.tag == 5)
          || null.is_compound
          || not (is_empty null.body))
        bad_extension

  -- The switch on the tag of a field.
  unfoldable pub authorization_field : RawValue → AuthorizationList → Result AuthorizationList
  authorization_field v l =
      if v.tag == 1
      then (do
        purposes ← parse_explicit_int_set v
        ok (record l { purposes = l.purposes ++ purposes }))
      else if v.tag == 600
      then (do parse_explicit_null v; ok (record l { all_applications = true }))
      else if v.tag == 702
      then (do
        origin ← parse_explicit_int v
        ok (record l { origins = l.origins ++ (origin ∷ []) }))
      else ok l

  -- The loop over the fields, with the tags seen and the list so far.
  unfoldable pub authorization_loop :
      List RawValue → List ℕ → AuthorizationList → Result AuthorizationList
  authorization_loop [] seen l = ok l
  authorization_loop (v ∷ vs) seen l = do
    refuse_if (not_explicit v || is_seen v.tag seen) bad_extension
    inner ← exactly bad_extension (asn1.unmarshal_raw v.body)
    next ← authorization_field v l
    authorization_loop vs (v.tag ∷ seen) next

  abbrev no_authorizations : AuthorizationList
  no_authorizations = record { purposes = []; origins = []; all_applications = false }

  unfoldable pub parse_authorization_list : RawValue → Result AuthorizationList
  parse_authorization_list v = do
    fields ← parse_sequence_value v
    authorization_loop fields [] no_authorizations

  -- The eight fields of a description, read in the order of the source.
  unfoldable pub description_of : List RawValue → Result KeyDescription
  description_of (f0 ∷ f1 ∷ f2 ∷ f3 ∷ f4 ∷ f5 ∷ f6 ∷ f7 ∷ []) = do
    attestation_version ← parse_integer f0
    keymaster_version ← parse_integer f2
    unique_id ← parse_octet_string f5
    challenge ← parse_octet_string f4
    software_enforced ← parse_authorization_list f6
    hardware_enforced ← parse_authorization_list f7
    attestation_level ← parse_security_level f1
    keymaster_level ← parse_security_level f3
    ok (record {
      attestation_security_level = attestation_level;
      keymaster_security_level = keymaster_level;
      attestation_challenge = challenge;
      software_enforced = software_enforced;
      hardware_enforced = hardware_enforced;
    })
  description_of _ = err bad_extension

  unfoldable pub parse_android_key_description : Bytes → Result KeyDescription
  parse_android_key_description raw = do fields ← parse_sequence raw; description_of fields

  unfoldable pub validate_android_key_extension : Bytes → Bytes → Bool → Result (Unit {0})
  validate_android_key_extension raw client_data_hash require_hardware = do
    d ← parse_android_key_description raw
    refuse_if (not (bytes_eq d.attestation_challenge client_data_hash)) requirements
    refuse_if (d.software_enforced.all_applications || d.hardware_enforced.all_applications)
        requirements
    refuse_if (require_hardware && lacks_hardware d) requirements
    refuse_if (not (authorization_lists_exactly_match_webauthn (selected require_hardware d)))
        requirements
