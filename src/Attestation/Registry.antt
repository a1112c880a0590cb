-- ===== src/Attestation/Registry.antt =====
-- attestation/attestation.go: requests, results and trust, and the registry of format verifiers.
pub mod Lookup
use webauthn.Prelude.{
  Bool, true, false, not, ◌||◌, Option, none, some, List, [], ◌∷◌, Bytes, Assoc, lookup,
  if◌then◌else◌,
}
use webauthn.Errors.{
  Result, ok, err, ◌>>=◌, ◌>>◌, refuse_if, sentinel, about, attestation_invalid_format,
  attestation_duplicate_format,
}
use webauthn.Protocol.Bytes.{AuthenticatorData, AttestationObject}
use webauthn.Protocol.Identifier.{valid_identifier}
use webauthn.Codec.Key.{CredentialPublicKey}

-- `E` is the type of evidence. A trust path holds its kind, certificates, raw bytes and statements.
mutual
  pub data VerificationResult (E : Type 0) : Type 0 where
    verification : Bytes → TrustPath E → Bool → List Bytes → E → VerificationResult E

  pub data TrustPath (E : Type 0) : Type 0 where
    trust_path : Bytes → List Bytes → Bytes → Statements E → TrustPath E

  pub data Statements (E : Type 0) : Type 0 where
    no_statements : Statements E
    statement : VerificationResult E → Statements E → Statements E

abbrev pub kind_of : {E : Type 0} → TrustPath E → Bytes
kind_of (trust_path kind certificates raw nested) = kind

abbrev pub type_of : {E : Type 0} → VerificationResult E → Bytes
type_of (verification type path valid warnings evidence) = type

abbrev pub path_of : {E : Type 0} → VerificationResult E → TrustPath E
path_of (verification type path valid warnings evidence) = path

abbrev pub is_valid : {E : Type 0} → VerificationResult E → Bool
is_valid (verification type path valid warnings evidence) = valid

abbrev pub warnings_of : {E : Type 0} → VerificationResult E → List Bytes
warnings_of (verification type path valid warnings evidence) = warnings

pub record TrustResult : Type 0 where
  pub accepted : Bool
  pub reason : Bytes
  pub warnings : List Bytes

-- `S` is the type of decoded attestation statements.
module _ (S E : Type 0) where
  pub record VerificationRequest : Type 0 where
    pub format : Bytes
    pub conveyance_preference : Bytes
    pub authenticator_data : AuthenticatorData
    pub client_data_hash : Bytes
    pub statement : S
    pub credential_public_key : CredentialPublicKey
    pub raw_attestation_object : AttestationObject

  pub record TrustRequest : Type 0 where
    pub format : Bytes
    pub result : VerificationResult E
    pub aaguid : Bytes
    pub authenticator_data : AuthenticatorData
    pub credential_public_key : CredentialPublicKey
    pub raw_attestation_object : AttestationObject

  -- A nil policy is `none` where one is asked for.
  abbrev pub TrustPolicy : Type 0
  TrustPolicy = TrustRequest → Result TrustResult

  pub record Verifier : Type 0 where
    pub format : Bytes
    pub verify_attestation : VerificationRequest → Result (VerificationResult E)

  abbrev pub Registry : Type 0
  Registry = Assoc Verifier

  abbrev is_taken : Registry → Bytes → Bool
  is_taken r format = elim (lookup format r) [ none ↦ false | some _ ↦ true ]

  -- One round of the loop; a nil verifier is `none`.
  unfoldable pub add_verifier : Registry → Option Verifier → Result Registry
  add_verifier r none = err (sentinel attestation_invalid_format)
  add_verifier r (some x) = do
    refuse_if (not (valid_identifier x.format)) (sentinel attestation_invalid_format)
    refuse_if (is_taken r x.format) (about (sentinel attestation_duplicate_format) x.format)
    ok ((x.format, x) ∷ r)

  unfoldable pub add_verifiers : Registry → List (Option Verifier) → Result Registry
  unfolding add_verifier
  add_verifiers r [] = ok r
  add_verifiers r (x ∷ xs) = do r' ← add_verifier r x; add_verifiers r' xs

  unfoldable pub new_verifier_registry : List (Option Verifier) → Result Registry
  unfolding add_verifiers
  new_verifier_registry xs = add_verifiers [] xs

  -- `Lookup`; a nil registry is `none`.
  unfoldable pub lookup_verifier : Option Registry → Bytes → Option Verifier
  lookup_verifier none format = none
  lookup_verifier (some r) format = lookup format r
