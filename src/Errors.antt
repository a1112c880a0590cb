-- ===== src/Errors.antt =====
-- Go's error values (the sentinels of the packages, `errors.New`, the typed protocol errors and the
-- chains that `fmt.Errorf` builds with `%w`), and the value-or-error results of the sources.
use webauthn.Prelude.{
  Option, none, some, ℕ, ◌≡◌, refl, Bool, true, false, ◌⊎◌, inl, inr, String, Bytes, List, [], ◌∷◌,
}
use webauthn.Prelude.Int.{ℤ}

-- The exported error variables that the modelled code returns.
pub data Sentinel : Type 0 where
  malformed_response invalid_configuration invalid_ceremony_state : Sentinel
  challenge_mismatch origin_mismatch rp_id_hash_mismatch : Sentinel
  user_presence_required user_verification_required : Sentinel
  unsupported_algorithm unsupported_attestation_format : Sentinel
  invalid_attestation rejected_attestation_policy extension_policy : Sentinel
  ceremony_expired invalid_backup_state backup_eligibility_mismatch : Sentinel
  credential_rp_id_mismatch credential_not_allowed user_handle_required : Sentinel
  credential_ownership_mismatch invalid_signature clone_risk : Sentinel
  credential_update_conflict invalid_credential_update invalid_credential_record : Sentinel
  malformed_authenticator_data attested_credential_data_missing : Sentinel
  malformed_client_data invalid_credential_public_key unsupported_value : Sentinel
  extension_too_many_entries extension_invalid_id extension_invalid_revision : Sentinel
  extension_duplicate_id extension_unknown_id extension_binding_mismatch : Sentinel
  extension_invalid_request : Sentinel
  attestation_invalid_format attestation_duplicate_format : Sentinel
  trust_policy_configuration : Sentinel
  packed_invalid_statement packed_algorithm_mismatch packed_invalid_signature : Sentinel
  packed_certificate_requirements : Sentinel
  tpm_invalid_statement tpm_unsupported_algorithm tpm_unsupported_key : Sentinel
  tpm_public_key_mismatch tpm_invalid_public_area tpm_invalid_cert_info : Sentinel
  none_invalid_statement : Sentinel
  fido_u2f_invalid_statement fido_u2f_unsupported_key fido_u2f_invalid_signature : Sentinel
  apple_invalid_statement apple_unsupported_key apple_public_key_mismatch : Sentinel
  apple_invalid_nonce apple_certificate_requirements : Sentinel
  android_key_invalid_statement android_key_unsupported_key : Sentinel
  android_key_public_key_mismatch android_key_invalid_signature : Sentinel
  android_key_invalid_extension android_key_certificate_requirements : Sentinel
  compound_invalid_statement compound_verifier compound_insufficient_statements : Sentinel
  tpm_invalid_signature tpm_certificate_requirements tpm_truncated : Sentinel

pub data Error : Type 0 where
  sentinel : Sentinel → Error
  message : String → Error
  -- `protocol.ValueError`: the field and the value.
  value_error : String → Bytes → Error
  -- The same where the value is the decimal form of an integer.
  int_value_error : String → ℤ → Error
  -- `protocol.ByteLengthError`: the field, the length, and the bounds.
  byte_length_error : String → ℕ → ℕ → ℕ → Error
  -- The same for a configured length, which may be negative.
  byte_length_error_int : String → ℤ → ℕ → ℕ → Error
  -- `%w: %w`.
  wrap : Error → Error → Error
  -- `%w: text`.
  annotate : Error → String → Error
  -- `%w: %s` for a string value.
  about : Error → Bytes → Error
  -- A text that names a value, after `%w: `.
  annotate_about : Error → String → Bytes → Error
  -- A text that names numbers, after `%w: `.
  annotate_numbers : Error → String → List ℕ → Error

pub data Result {ℓ} (A : Type ℓ) : Type ℓ where
  ok : A → Result A
  err : Error → Result A

infixl 5 ◌>>=◌ ◌>>◌
-- An early return: the error of a call is the error of its caller.
abbrev pub ◌>>=◌ {κ ℓ} : {B : Type κ} {A : Type ℓ} → Result A → (A → Result B) → Result B
err failure >>= continue = err failure
ok value >>= continue = continue value

-- A check that returns nothing but its error.
abbrev pub ◌>>◌ {κ} : {B : Type κ} → Result (Unit {0}) → Result B → Result B
check >> rest = check >>= λ done. rest

-- `if cond { return err }`.
abbrev pub refuse_if : Bool → Error → Result (Unit {0})
refuse_if true e = err e
refuse_if false e = ok tt

-- `if err != nil { return fmt.Errorf("%w: %w", outer, err) }`.
abbrev pub wrapped {ℓ} : {A : Type ℓ} → Error → Result A → Result A
wrapped outer (ok a) = ok a
wrapped outer (err e) = err (wrap outer e)

abbrev pub is_ok {ℓ} : {A : Type ℓ} → Result A → Bool
is_ok (ok a) = true
is_ok (err e) = false

-- `if !ok { return err }` on a value with its `ok`.
abbrev pub present {ℓ} : {A : Type ℓ} → Error → Option A → Result A
present e none = err e
present e (some a) = ok a

-- A loop that validates each element and returns the first error.
unfoldable pub each {ℓ} : {A : Type ℓ} → (A → Result (Unit {0})) → List A → Result (Unit {0})
each f [] = ok tt
each f (x ∷ xs) = f x >> each f xs

-- A chain that succeeds has succeeded in its first call and in what follows it.
pub >>=-eq-ok {κ ℓ} :
    {B : Type κ} {A : Type ℓ} (call : Result A) (continue : A → Result B) {final : B}
    → (call >>= continue) ≡ ok final
    → (value : A) × (call ≡ ok value) × (continue value ≡ ok final)
>>=-eq-ok (err failure) continue succeeds = cc
>>=-eq-ok (ok value) continue succeeds = (value, refl, succeeds)

pub Result-cases {ℓ} :
    {A : Type ℓ} (r : Result A) → ((a : A) × (r ≡ ok a)) ⊎ ((e : Error) × (r ≡ err e))
Result-cases (ok a) = inl (a, refl)
Result-cases (err e) = inr (e, refl)

pub refuse_if-eq-ok : (b : Bool) (e : Error) {u : Unit {0}} → refuse_if b e ≡ ok u → b ≡ false
refuse_if-eq-ok true e h = cc
refuse_if-eq-ok false e h = refl

pub wrapped-eq-ok {ℓ} :
    {A : Type ℓ} (outer : Error) (r : Result A) {a : A} → wrapped outer r ≡ ok a → r ≡ ok a
wrapped-eq-ok outer (ok a) h = h
wrapped-eq-ok outer (err e) h = cc

pub present-eq-ok {ℓ} :
    {A : Type ℓ} (e : Error) (o : Option A) {a : A} → present e o ≡ ok a → o ≡ some a
present-eq-ok e none h = cc
present-eq-ok e (some a) h = cc

-- A chain that succeeds, read step by step with the values as variables: a guard, and a call.
module _ {B : Type 0} {final : B} {C : Type 0} where
  pub refuse_step :
      (b : Bool) (e : Error) {more : Result B}
      → (refuse_if b e >> more) ≡ ok final
      → (b ≡ false → more ≡ ok final → C)
      → C
  refuse_step b e h continue =
      let (done, passed, h') = >>=-eq-ok (refuse_if b e) _ h in
      continue (refuse_if-eq-ok b e passed) h'

  pub call_step :
      {A : Type 0} (call : Result A) {more : A → Result B}
      → (call >>= more) ≡ ok final
      → ((a : A) → call ≡ ok a → more a ≡ ok final → C)
      → C
  call_step call h continue = let (a, e, h') = >>=-eq-ok call _ h in continue a e h'
