-- ===== src/Attestation/X509/Names.antt =====
-- attestation/internal/x509util: the attributes of an X.509 name, with the ASN.1 tag of each value.
use webauthn.Prelude.{
  inl, inr, ℕ, zero, suc, Bool, true, false, not, ◌||◌, Option, none, some, List, [], ◌∷◌, ◌++◌,
  Bytes, is_empty, length, ◌==◌, if◌then◌else◌, ◌<◌, ◌≤◌, ◌≡◌, ◌≢◌, arith,
}
use webauthn.Errors.{Error, Result, ok, err, ◌>>=◌, ◌>>◌, refuse_if, message, Result-cases}
use webauthn.Attestation.X509.{Oid, RawValue, Asn1}

-- `!(class == c && tag == t && compound)`.
abbrev pub is_not : ℕ → ℕ → RawValue → Bool
is_not class tag v = not (v.class == class) || not (v.tag == tag) || not v.is_compound

-- A failed call, or one that leaves bytes, is the given error.
abbrev pub exactly {ℓ} : {A : Type ℓ} → Error → Result (A × Bytes) → Result A
exactly e (err failure) = err e
exactly e (ok (a, rest)) = if is_empty rest then ok a else err e

-- A failed call is the given error.
abbrev pub replaced {ℓ} : {A : Type ℓ} → Error → Result A → Result A
replaced e (err failure) = err e
replaced e (ok a) = ok a

pub record NameAttribute : Type 0 where
  pub kind : Oid
  pub text : Bytes
  pub tag : ℕ

module _ (asn1 : Asn1) where
  -- The loops of `rawItems` and `parseASN1Items`, by the error for a failed call and that for a
  -- round that takes nothing. `none` if the fuel ends first.
  unfoldable pub items_loop : (Error → Error) → Error → ℕ → Bytes → Option (Result (List RawValue))
  items_loop failed stuck zero input = none
  items_loop failed stuck (suc fuel) input = elim (is_empty input) [
    | true ↦ some (ok [])
    | false ↦ elim (asn1.unmarshal_raw input) [
      | err failure ↦ some (err (failed failure))
      | ok (item, rest) ↦ elim (length rest == length input) [
        | true ↦ some (err stuck)
        | false ↦ elim (items_loop failed stuck fuel rest) [
          | none ↦ none
          | some (err failure) ↦ some (err failure)
          | some (ok items) ↦ some (ok (item ∷ items))
        ]
      ]
    ]
  ]

  abbrev settled : Error → Option (Result (List RawValue)) → Result (List RawValue)
  settled stuck none = err stuck
  settled stuck (some r) = r

  -- A round for each byte, and one for the end.
  unfoldable pub items_of : (Error → Error) → Error → Bytes → Result (List RawValue)
  items_of failed stuck input = settled stuck (items_loop failed stuck (suc (length input)) input)

  abbrev invalid_items : Error
  invalid_items = message "invalid asn1 items"

  unfoldable pub raw_items : Bytes → Result (List RawValue)
  raw_items = items_of (λ failure. invalid_items) invalid_items

  unfoldable pub name_attribute : RawValue → Result NameAttribute
  name_attribute item = do
    refuse_if (is_not 0 16 item) (message "invalid x509 name attribute")
    (oid, remainder) ←
        replaced (message "invalid x509 name attribute oid") (asn1.unmarshal_oid item.body)
    refuse_if (is_empty remainder) (message "invalid x509 name attribute oid")
    value ← exactly (message "invalid x509 name attribute value") (asn1.unmarshal_raw remainder)
    text ←
        exactly (message "invalid x509 name attribute string")
          (asn1.unmarshal_string value.full_bytes)
    ok (record { kind = oid; text = text; tag = value.tag })

  unfoldable pub name_attributes : List RawValue → Result (List NameAttribute)
  name_attributes [] = ok []
  name_attributes (item ∷ items) = do
    attribute ← name_attribute item
    rest ← name_attributes items
    ok (attribute ∷ rest)

  unfoldable pub attributes_of_sets : List RawValue → Result (List NameAttribute)
  attributes_of_sets [] = ok []
  attributes_of_sets (set ∷ sets) = do
    refuse_if (is_not 0 17 set) (message "invalid x509 name set")
    items ← raw_items set.body
    attributes ← name_attributes items
    rest ← attributes_of_sets sets
    ok (attributes ++ rest)

  unfoldable pub parse_name_attributes : Bytes → Result (List NameAttribute)
  parse_name_attributes raw = do
    sequence ← exactly (message "invalid x509 name") (asn1.unmarshal_raw raw)
    refuse_if (is_not 0 16 sequence) (message "invalid x509 name")
    sets ← raw_items sequence.body
    attributes_of_sets sets

  -- What `asn1.Unmarshal` leaves is never longer than its input.
  abbrev pub Shortens : Type 0
  Shortens =
      (input : Bytes) (v : RawValue) (rest : Bytes)
      → asn1.unmarshal_raw input ≡ ok (v, rest)
      → length rest ≤ length input

  -- The loop over the items of a value ends: each round leaves fewer bytes than it found.
  pub items_loop_ends :
      Shortens
      → (failed : Error → Error) (stuck : Error) (fuel : ℕ) (input : Bytes) → length input < fuel
      → items_loop failed stuck fuel input ≢ none
  unfolding items_loop
  items_loop_ends shortens failed stuck zero input room = λ out. absurd (omega arith)
  items_loop_ends shortens failed stuck (suc fuel) [] room = λ out. cc
  items_loop_ends shortens failed stuck (suc fuel) (x ∷ xs) room = λ out.
      elim (Result-cases (asn1.unmarshal_raw (x ∷ xs))) [
        | inr (e, failed_here) ↦ ground (arith, failed_here, out)
        | inl ((item, rest), reads) ↦
            let ends : length rest < length (x ∷ xs) → items_loop failed stuck fuel rest ≢ none =
              λ less. items_loop_ends shortens failed stuck fuel rest (omega arith) in
            let le = shortens (x ∷ xs) item rest reads in ground (arith, reads, out, ends, le)
      ]
