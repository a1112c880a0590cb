-- ===== src/Attestation/Policy/Compose.antt =====
-- attestation/policy.go: the policies that combine others, and what they accept.
use webauthn.Prelude.{
  ℕ, ◌+◌, ◌≡◌, ◌↔◌, ◌⊎◌, inl, inr, refl, ◌∙◌, arith, true, false, not, Bool-cases, Option, none,
  some, List, [], ◌∷◌, ◌++◌, Bytes, ascii, is_empty, if◌then◌else◌, All,
}
use webauthn.Errors.{Error, Result, ok, err, ◌>>=◌, annotate, annotate_numbers, call_step}
use webauthn.Attestation.Registry.{TrustResult, TrustRequest, TrustPolicy}
use webauthn.Attestation.Policy.{configuration, trust_result}

module _ (S E : Type 0) where
  abbrev nil_policy : ℕ → Error
  nil_policy index = annotate_numbers configuration "nil policy at index" (index ∷ [])

  -- The loop of `allOfPolicy` from a position on, with the warnings so far.
  unfoldable pub all_of_from :
      List (Option (TrustPolicy S E)) → ℕ → List Bytes → TrustRequest S E → Result TrustResult
  all_of_from [] index warnings r =
      ok (trust_result true (ascii "all trust policies accepted") warnings)
  all_of_from (none ∷ policies) index warnings r = err (nil_policy index)
  all_of_from (some policy ∷ policies) index warnings r = do
    result ← policy r
    let gathered = warnings ++ result.warnings
    let rest = all_of_from policies (index + 1) gathered r
    if not result.accepted then ok (record result { warnings = gathered }) else rest

  unfoldable pub all_of : List (Option (TrustPolicy S E)) → TrustPolicy S E
  all_of [] r = err (annotate configuration "all-of policy requires at least one child policy")
  all_of (policy ∷ policies) r = all_of_from (policy ∷ policies) 0 [] r

  unfoldable pub any_of_from :
      List (Option (TrustPolicy S E)) → ℕ → List Bytes → TrustRequest S E → Result TrustResult
  any_of_from [] index warnings r =
      ok (trust_result false (ascii "no trust policy accepted attestation") warnings)
  any_of_from (none ∷ policies) index warnings r = err (nil_policy index)
  any_of_from (some policy ∷ policies) index warnings r = do
    result ← policy r
    let rest = any_of_from policies (index + 1) (warnings ++ result.warnings) r
    if result.accepted then ok result else rest

  unfoldable pub any_of : List (Option (TrustPolicy S E)) → TrustPolicy S E
  any_of [] r = err (annotate configuration "any-of policy requires at least one child policy")
  any_of (policy ∷ policies) r = any_of_from (policy ∷ policies) 0 [] r

  -- A policy that is there and accepts.
  abbrev Accepts : TrustRequest S E → Option (TrustPolicy S E) → Type 0
  Accepts r none = ⊥
  Accepts r (some policy) =
      (result : TrustResult) × (policy r ≡ ok result) × (result.accepted ≡ true)

  -- A policy accepts the request.
  abbrev pub IsAccepted : Result TrustResult → Type 0
  IsAccepted outcome = (result : TrustResult) × (outcome ≡ ok result) × (result.accepted ≡ true)

  all_of_from-All :
      (policies : List (Option (TrustPolicy S E))) (index : ℕ) (warnings : List Bytes)
      (r : TrustRequest S E)
      → IsAccepted (all_of_from policies index warnings r)
      → All (Accepts r) policies
  unfolding all_of_from
  all_of_from-All [] index warnings r h = tt
  all_of_from-All (none ∷ policies) index warnings r (result, e, says_yes) = cc
  all_of_from-All (some policy ∷ policies) index warnings r (result, e, says_yes) =
      call_step (policy r) e (λ first e1 h1. elim (Bool-cases first.accepted) [
        | inl accepted ↦
            let later : all_of_from policies (index + 1) (warnings ++ first.warnings) r
                ≡ ok result =
              ground (arith, h1, accepted) in
            (
              (first, e1, accepted),
              all_of_from-All policies (index + 1) (warnings ++ first.warnings) r
                  (result, later, says_yes),
            )
        | inr refused ↦
            let same : ok (record first { warnings = warnings ++ first.warnings }) ≡ ok result =
              ground (arith, h1, refused) in
            ground (arith, same, refused, says_yes)
      ])

  All→all_of_from :
      (policies : List (Option (TrustPolicy S E))) (index : ℕ) (warnings : List Bytes)
      (r : TrustRequest S E)
      → All (Accepts r) policies
      → IsAccepted (all_of_from policies index warnings r)
  unfolding all_of_from
  All→all_of_from [] index warnings r h = (_, refl, refl)
  All→all_of_from (none ∷ policies) index warnings r h = absurd h.0
  All→all_of_from (some policy ∷ policies) index warnings r ((first, e1, accepted), later) =
      let (result, e, says_yes) =
        All→all_of_from policies (index + 1) (warnings ++ first.warnings) r later in
      (result, ground (arith, e1, accepted, e), says_yes)

  -- An all-of policy accepts a request exactly if it has a child policy, no child is nil, and every
  -- child accepts the request.
  pub all_of-Accepts_iff :
      (policies : List (Option (TrustPolicy S E))) (r : TrustRequest S E)
      → IsAccepted (all_of policies r) ↔ ((is_empty policies ≡ false) × All (Accepts r) policies)
  unfolding all_of
  all_of-Accepts_iff [] r = (λ h. cc (h.1), λ h. cc (h.0))
  all_of-Accepts_iff (policy ∷ policies) r = (
    λ h. (refl, all_of_from-All (policy ∷ policies) 0 [] r h),
    λ h. All→all_of_from (policy ∷ policies) 0 [] r h.1,
  )

  -- The first policy that accepts gives the result, and those before it refuse without an error.
  abbrev pub IsFirst : TrustRequest S E → TrustResult → List (Option (TrustPolicy S E)) → Type 0
  IsFirst r result [] = ⊥
  IsFirst r result (none ∷ policies) = ⊥
  IsFirst r result (some policy ∷ policies) =
      (policy r ≡ ok result)
      ⊎ (((refusal : TrustResult) × (policy r ≡ ok refusal) × (refusal.accepted ≡ false))
          × IsFirst r result policies)

  any_of_from→IsFirst :
      (policies : List (Option (TrustPolicy S E))) (index : ℕ) (warnings : List Bytes)
      (r : TrustRequest S E) (result : TrustResult)
      → any_of_from policies index warnings r ≡ ok result
      → result.accepted ≡ true
      → IsFirst r result policies
  unfolding any_of_from
  any_of_from→IsFirst [] index warnings r result e says_yes = ground (arith, e, says_yes)
  any_of_from→IsFirst (none ∷ policies) index warnings r result e says_yes = cc
  any_of_from→IsFirst (some policy ∷ policies) index warnings r result e says_yes =
      call_step (policy r) e (λ first e1 h1. elim (Bool-cases first.accepted) [
        | inl accepted ↦
            let same : ok first ≡ ok result = ground (arith, h1, accepted) in inl (e1 ∙ same)
        | inr refused ↦
            let later : any_of_from policies (index + 1) (warnings ++ first.warnings) r
                ≡ ok result =
              ground (arith, h1, refused) in
            inr (
              (first, e1, refused),
              any_of_from→IsFirst policies (index + 1) (warnings ++ first.warnings) r result later
                  says_yes,
            )
      ])

  IsFirst→any_of_from :
      (policies : List (Option (TrustPolicy S E))) (index : ℕ) (warnings : List Bytes)
      (r : TrustRequest S E) (result : TrustResult)
      → IsFirst r result policies
      → result.accepted ≡ true
      → any_of_from policies index warnings r ≡ ok result
  unfolding any_of_from
  IsFirst→any_of_from [] index warnings r result h says_yes = absurd h
  IsFirst→any_of_from (none ∷ policies) index warnings r result h says_yes = absurd h
  IsFirst→any_of_from (some policy ∷ policies) index warnings r result (inl e) says_yes =
      ground (arith, e, says_yes)
  IsFirst→any_of_from (some policy ∷ policies) index warnings r result
        (inr ((refusal, e, refused), later)) says_yes =
      ground (
        arith,
        e,
        refused,
        IsFirst→any_of_from policies (index + 1) (warnings ++ refusal.warnings) r result later
            says_yes,
      )

  -- An any-of policy accepts with a result exactly if that is the accepting result of its first
  -- child that accepts, where the children before it are not nil and refuse without an error.
  pub any_of_accepts_iff :
      (policies : List (Option (TrustPolicy S E))) (r : TrustRequest S E) (result : TrustResult)
      → result.accepted ≡ true
      → (any_of policies r ≡ ok result) ↔ IsFirst r result policies
  unfolding any_of
  any_of_accepts_iff [] r result says_yes = (λ h. cc, λ h. absurd h)
  any_of_accepts_iff (policy ∷ policies) r result says_yes = (
    λ h. any_of_from→IsFirst (policy ∷ policies) 0 [] r result h says_yes,
    λ h. IsFirst→any_of_from (policy ∷ policies) 0 [] r result h says_yes,
  )
