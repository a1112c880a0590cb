-- ===== src/Ceremony/Parameters.antt =====
-- `registrationCredentialParameters` of ceremony.go on parameters that it has chosen.
use webauthn.Prelude.{
  ◌≡◌, sym, ◌∙◌, refl, arith, List, [], ◌∷◌, bytes_eq, Bool-cases, inl, inr, ◌⊎◌,
}
use webauthn.Errors.{ok, >>=-eq-ok, each}
use webauthn.Protocol.Types.{
  CredentialParameter, credential_type_public_key, validate_parameter, validate_algorithm,
  algorithm_es256, algorithm_rs256,
}
use webauthn.Ceremony.{
  public_key_parameter, supported_parameters, registration_credential_parameters,
}

each-supported :
    (ps : List CredentialParameter)
    → each validate_parameter ps ≡ ok tt
    → each validate_parameter (supported_parameters ps) ≡ ok tt
unfolding each supported_parameters
each-supported [] h = refl
each-supported (p ∷ ps) h =
    let (_, first, rest) = >>=-eq-ok (validate_parameter p) _ h in
    elim (Bool-cases (bytes_eq p.kind credential_type_public_key)) [
      | inl e ↦ ground (arith, e, first, each-supported ps rest)
      | inr e ↦ ground (arith, e, each-supported ps rest)
    ]

supported-supported :
    (ps : List CredentialParameter)
    → supported_parameters (supported_parameters ps) ≡ supported_parameters ps
unfolding supported_parameters
supported-supported [] = refl
supported-supported (p ∷ ps) = elim (Bool-cases (bytes_eq p.kind credential_type_public_key)) [
  | inl e ↦ ground (arith, e, supported-supported ps)
  | inr e ↦ ground (arith, e, supported-supported ps)
]

chosen_again :
    (qs : List CredentialParameter)
    → each validate_parameter qs ≡ ok tt
    → supported_parameters qs ≡ qs
    → (qs ≡ []) ⊎ (registration_credential_parameters qs ≡ ok qs)
unfolding registration_credential_parameters
chosen_again [] h e = inl refl
chosen_again (q ∷ qs) h e = inr (ground (arith, h, e))

chosen_defaults :
    registration_credential_parameters
      (public_key_parameter algorithm_es256 ∷ public_key_parameter algorithm_rs256 ∷ [])
    ≡ ok (public_key_parameter algorithm_es256 ∷ public_key_parameter algorithm_rs256 ∷ [])
unfolding registration_credential_parameters each validate_parameter validate_algorithm
    supported_parameters bytes_eq
chosen_defaults = refl

-- Parameters that were chosen are chosen again as they are.
pub registration_parameters_again :
    (ps : List CredentialParameter) {qs : List CredentialParameter}
    → registration_credential_parameters ps ≡ ok qs
    → registration_credential_parameters qs ≡ ok qs
unfolding registration_credential_parameters
registration_parameters_again [] {qs} h =
    let defaults : List CredentialParameter =
      public_key_parameter algorithm_es256 ∷ public_key_parameter algorithm_rs256 ∷ [] in
    let chosen : defaults ≡ qs = ground (arith, h) in rw (sym chosen) (chosen_defaults)
registration_parameters_again (p ∷ ps) {qs} h =
    let (_, valid, h1) = >>=-eq-ok (each validate_parameter (p ∷ ps)) _ h in
    let chosen : supported_parameters (p ∷ ps) ≡ qs = ground (arith, h1) in
    let valid_again : each validate_parameter qs ≡ ok tt =
      rw (sym chosen) (each-supported (p ∷ ps) valid) in
    let same : supported_parameters qs ≡ qs = rw (sym chosen) (supported-supported (p ∷ ps)) in
    elim (chosen_again qs valid_again same) [
      | inl none_left ↦
          let nothing : supported_parameters (p ∷ ps) ≡ [] = chosen ∙ none_left in
          absurd (ground (arith, h1, nothing))
      | inr again ↦ again
    ]
