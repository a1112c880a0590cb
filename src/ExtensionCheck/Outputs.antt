-- ===== src/ExtensionCheck/Outputs.antt =====
-- extension_verification.go: the verification of extension outputs at the end of a ceremony.
pub mod Complete
use webauthn.Prelude.{
  ℕ, suc, ◌≡◌, arith, inl, inr, Bool, true, false, not, ◌&&◌, ◌||◌, Option, none, some, List, [],
  ◌∷◌, ◌++◌, Bytes, length, ltb, lookup, keys, sorted_keys, if◌then◌else◌,
}
use webauthn.Errors.{
  Error, Result, ok, err, ◌>>=◌, ◌>>◌, refuse_if, each, wrapped, sentinel, wrap, annotate,
  Result-cases, extension_policy, extension_too_many_entries,
}
use webauthn.Protocol.Bytes.{CredentialId}
use webauthn.Protocol.Identifier.{valid_identifier}
use webauthn.Extension.{Values, Registry, max_entries, registry_contains, registry_verify_output}
use webauthn.ExtensionCheck.{Inputs, ClientOutputs, ExtensionMap}

abbrev pub policy_error : Error
policy_error = sentinel extension_policy

pub record OutputPolicy : Type 0 where
  pub reject_unrequested : Bool
  pub reject_unknown : Bool

-- A context as its `Err` answers: the value at each of the polls that follow one another.
abbrev pub Context : Type 0
Context = ℕ → Option Error

abbrev pub check_context : Option Error → Result (Unit {0})
check_context none = ok tt
check_context (some e) = err (wrap policy_error e)

module _ (v : Values) where
  pub record VerificationInputs : Type 0 where
    pub operation : Bytes
    pub selected_credential_id : CredentialId
    pub requested : Inputs v
    pub policy : OutputPolicy
    pub registry : Option (Registry v)
    pub client_results : ClientOutputs v
    pub authenticator : ExtensionMap v
    -- `clientInputTransform`; the identity where it is nil.
    pub transform : Bytes → v.Input → Result v.Input

  -- `validateExtensionWork`: the sorted ids of all that there is to verify.
  unfoldable pub validate_extension_work :
      Inputs v → ClientOutputs v → ExtensionMap v → Result (List Bytes)
  validate_extension_work requested client authenticator = do
    refuse_if
        (ltb max_entries (length requested)
          || ltb max_entries (length client)
          || ltb max_entries (length authenticator))
        (wrap policy_error (sentinel extension_too_many_entries))
    let all_keys = keys requested ++ (keys client ++ keys authenticator)
    each
        (λ id. refuse_if (not (valid_identifier id)) (annotate policy_error "invalid extension id"))
        all_keys
    let ids = sorted_keys all_keys
    refuse_if (ltb max_entries (length ids))
        (wrap policy_error (sentinel extension_too_many_entries))
    ok ids

  abbrev pub found {ℓ} : {A : Type ℓ} → Option A → Bool
  found none = false
  found (some _) = true

  -- The raw value of a client input after the transform, absent where it was not requested.
  abbrev input_value : VerificationInputs → Bytes → Option v.Input → Result v.Value
  input_value inputs id none = ok v.absent
  input_value inputs id (some input) = do
    transformed ← wrapped policy_error (inputs.transform id input)
    wrapped policy_error (v.raw_input transformed)

  abbrev client_value : Option v.Value → v.Value
  client_value none = v.absent
  client_value (some value) = value

  abbrev authenticator_value : Option v.Output → Result v.Value
  authenticator_value none = ok v.absent
  authenticator_value (some output) = wrapped policy_error (v.raw_output output)

  -- `verifyExtension`, on what each map holds under the id.
  unfoldable pub verify_found :
      VerificationInputs
      → Bytes
      → Option v.Input
      → Option v.Value
      → Option v.Output
      → Result v.Outcome
  verify_found inputs id input client authenticator = do
    let known = registry_contains v inputs.registry id
    let has_output = found client || found authenticator
    refuse_if (not known && has_output && inputs.policy.reject_unknown) policy_error
    refuse_if (not (found input) && has_output && inputs.policy.reject_unrequested) policy_error
    client_input ← input_value inputs id input
    authenticator_output ← authenticator_value authenticator
    let client_output = client_value client
    if not (found input) && has_output
        then wrapped policy_error (
            v.preserve_raw id false client_input client_output authenticator_output
              "unrequested extension output ignored")
        else if not known
        then wrapped policy_error (
            v.preserve_raw id (found input) client_input client_output authenticator_output
              "unknown extension preserved")
        else wrapped policy_error (
            registry_verify_output v inputs.registry (record {
              operation = inputs.operation;
              id = id;
              requested = found input;
              selected_credential_id = inputs.selected_credential_id;
              client_input = client_input;
              client_output = client_output;
              authenticator_output = authenticator_output;
            }))

  unfoldable pub verify_extension : VerificationInputs → Bytes → Result v.Outcome
  unfolding verify_found
  verify_extension inputs id =
      verify_found inputs id (lookup id inputs.requested) (lookup id inputs.client_results)
        (lookup id inputs.authenticator)

  -- The loop over the sorted ids; `poll` counts the reads of the context.
  unfoldable pub verify_each :
      Context → ℕ → VerificationInputs → List Bytes → Result (List v.Outcome)
  verify_each ctx poll inputs [] = ok []
  verify_each ctx poll inputs (id ∷ ids) = do
    check_context (ctx poll)
    outcome ← verify_extension inputs id
    outcomes ← verify_each ctx (suc poll) inputs ids
    ok (outcome ∷ outcomes)

  unfoldable pub verify_extensions : Context → VerificationInputs → Result (List v.Outcome)
  verify_extensions ctx inputs = do
    check_context (ctx 0)
    ids ← validate_extension_work inputs.requested inputs.client_results inputs.authenticator
    verify_each ctx 1 inputs ids
