-- ===== src/Attestation/Format/Compound/Sound.antt =====
-- What an accepted "compound" statement proves.
use webauthn.Prelude.{
  ℕ, ◌+◌, ◌≤◌, ◌≡◌, ◌⊎◌, inl, inr, refl, sym, ap, ◌∙◌, arith, true, false, Bool-cases, Option-cases,
  Option, none, some, List, [], ◌∷◌, ◌++◌, append_assoc, Bytes, ascii, length, bytes_eq,
  bytes_eq_iff, ltb, append-nil,
}
use webauthn.Prelude.Int.{pos, eq_ℤ, eq_ℤ_iff, ◌≤ℤ◌}
use webauthn.Errors.{Error, ok, call_step, refuse_step, Result-cases}
use webauthn.Attestation.Registry.{
  VerificationRequest, VerificationResult, verification, trust_path, Verifier, Registry,
  lookup_verifier,
}
use webauthn.Attestation.Statement.{Statement, SubStatements, no_sub_statements, sub_statement}
use webauthn.Attestation.Format.Compound.{
  effective_maximum, invalid, compound_format, Policy, required_successes, sub_count,
  compound_sub_statements, Progress, is_usable, sub_request, after_lookup, succeed,
  sub_statements_loop, statements_of, compound_result, verify_compound_with, verify_compound,
  refuse_when,
}

-- The number of required statements is that of the policy's minimum, and all of them where the policy
-- asks for all or has no minimum. It is at least 1 and at most the number of statements, which is at
-- least 2 and at most the policy's maximum, and never above 64.
pub record IsRequired (p : Policy) (total required : ℕ) : Type 0 where
  pub asked :
      ((p.require_all ≡ true) × (required ≡ total))
      ⊎ ((p.minimum_successful ≡ pos 0) × (required ≡ total))
      ⊎ ((p.require_all ≡ false) × (p.minimum_successful ≡ pos required))
  pub at_least : 1 ≤ required
  pub at_most : required ≤ total
  pub several : 2 ≤ total
  pub allowed : pos total ≤ℤ effective_maximum p
  pub bounded : total ≤ 64

asked_for :
    (p : Policy) (total : ℕ) {required : ℕ}
    → required_successes p total ≡ ok required
    → ((p.require_all ≡ true) × (required ≡ total))
      ⊎ ((p.minimum_successful ≡ pos 0) × (required ≡ total))
      ⊎ ((p.require_all ≡ false) × (p.minimum_successful ≡ pos required))
unfolding required_successes
asked_for p total {required} h = elim (Bool-cases p.require_all) [
  | inl every ↦ inl (every, ground (arith, every, h))
  | inr some_of ↦ elim (Bool-cases (eq_ℤ p.minimum_successful (pos 0))) [
    | inl e ↦ inr (inl ((eq_ℤ_iff p.minimum_successful (pos 0)).0 e, ground (arith, some_of, e, h)))
    | inr ne ↦ inr (inr (some_of, ground (arith, some_of, ne, h)))
  ]
]

required_successes-IsRequired :
    (p : Policy) (total : ℕ) {required : ℕ}
    → required_successes p total ≡ ok required
    → IsRequired p total required
unfolding required_successes
required_successes-IsRequired p total {required} h = record {
  asked = asked_for p total h;
  at_least = ground arith;
  at_most = ground arith;
  several = ground arith;
  allowed = ground arith;
  bounded = ground arith;
}

module _ (E : Type 0) (evidence : ℕ → ℕ → E) (cancelled : ℕ → Option Error) where
  module _ (g : Registry Statement E) (r : VerificationRequest Statement E) where
    -- Results of sub-statements, in their order: each was accepted by the registered verifier of
    -- its format and is valid and of known types.
    pub data Verified : SubStatements → List (VerificationResult E) → Type 0 where
      at_end : Verified no_sub_statements []
      passed_over :
          (format : Bytes) (s : Statement) {more : SubStatements} {xs : List (VerificationResult E)}
          → bytes_eq format compound_format ≡ false
          → Verified more xs
          → Verified (sub_statement format s more) xs
      verified :
          (format : Bytes) (s : Statement) (v : Verifier Statement E) {more : SubStatements}
          {x : VerificationResult E} {xs : List (VerificationResult E)}
          → bytes_eq format compound_format ≡ false
          → lookup_verifier Statement E (some g) format ≡ some v
          → v.verify_attestation (sub_request E evidence cancelled r format s) ≡ ok x
          → is_usable E evidence cancelled x ≡ true
          → Verified more xs
          → Verified (sub_statement format s more) (x ∷ xs)

    -- What the loop adds to its progress.
    abbrev Adds :
        SubStatements → Progress E evidence cancelled → Progress E evidence cancelled → Type 0
    Adds ss p q =
        (xs : List (VerificationResult E)) × Verified ss xs
        × (q.results ≡ p.results ++ xs)
        × (q.successes ≡ p.successes + length xs)

    -- A round either passes a sub-statement over or adds its verified result.
    round_adds :
        (p : Progress E evidence cancelled) (format : Bytes) (s : Statement)
        → (((after_lookup E evidence cancelled r p format s
                (lookup_verifier Statement E (some g) format)).results
              ≡ p.results)
            × ((after_lookup E evidence cancelled r p format s
                  (lookup_verifier Statement E (some g) format)).successes
                ≡ p.successes))
          ⊎ ((v : Verifier Statement E) × (x : VerificationResult E) × (lookup_verifier Statement E
                  (some g)
                  format
                ≡ some v)
              × (v.verify_attestation (sub_request E evidence cancelled r format s) ≡ ok x)
              × (is_usable E evidence cancelled x ≡ true)
              × (after_lookup E evidence cancelled r p format s
                    (lookup_verifier Statement E (some g) format)
                  ≡ succeed E evidence cancelled p x))
    round_adds p format s = elim (Option-cases (lookup_verifier Statement E (some g) format)) [
      | inl missing ↦ inl (rw missing (refl, refl))
      | inr (v, found) ↦
          elim (Result-cases (v.verify_attestation (sub_request E evidence cancelled r format s))) [
            | inr (e, failed) ↦ inl (rw (found, failed) (refl, refl))
            | inl (x, accepted) ↦ elim (Bool-cases (is_usable E evidence cancelled x)) [
              | inl usable ↦
                  inr (v, x, found, accepted, usable, rw (found, accepted) (ground (arith, usable)))
              | inr unusable ↦ inl (rw (found, accepted) (ground (arith, unusable)))
            ]
          ]
    ]

    loop-Adds :
        (ss : SubStatements) (round : ℕ) (p : Progress E evidence cancelled)
        {q : Progress E evidence cancelled}
        → sub_statements_loop E evidence cancelled g r ss round p ≡ ok q
        → Adds ss p q
    unfolding sub_statements_loop
    loop-Adds no_sub_statements round p {q} h =
        let same : p ≡ q = cc in
        ([], at_end, rw same (sym (append-nil q.results)), rw same (omega arith))
    loop-Adds (sub_statement format s more) round p {q} h =
        call_step (refuse_when E evidence cancelled (cancelled round)) h (λ done e1 h1.
          refuse_step (bytes_eq format compound_format) invalid h1 (λ other h2.
            let (xs, ok_xs, results, successes) =
              loop-Adds more (round + 1)
                (after_lookup E evidence cancelled r p format s
                  (lookup_verifier Statement E (some g) format))
                h2 in
            elim (round_adds p format s) [
              | inl (kept, count) ↦ (
                xs,
                passed_over format s other ok_xs,
                results ∙ ap (λ (ys : List (VerificationResult E)). ys ++ xs) kept,
                successes ∙ ap (λ (n : ℕ). n + length xs) count,
              )
              | inr (v, x, found, accepted, usable, next) ↦ (
                x ∷ xs,
                verified format s v other found accepted usable ok_xs,
                results ∙ rw next (append_assoc p.results (x ∷ []) xs),
                successes ∙ rw next (omega arith),
              )
            ]))

    -- An accepted "compound" statement: enough results, each verified, and no others.
    pub record IsCompound (p : Policy) (result : VerificationResult E) : Type 0 where
      pub format : r.format ≡ ascii "compound"
      pub statements : SubStatements
      pub statements_eq : compound_sub_statements r.statement ≡ ok statements
      pub required : ℕ
      pub is_required : IsRequired p (sub_count statements) required
      pub results : List (VerificationResult E)
      pub all_verified : Verified statements results
      pub enough : required ≤ length results
      pub warnings : List Bytes
      pub result_eq :
          result
          ≡ verification
              (ascii "uncertain")
              (trust_path (ascii "compound") [] [] (statements_of E evidence cancelled results))
              true
              warnings
              (evidence (length results) required)

  -- An accepted "compound" statement has 2 to 64 sub-statements, no more than the policy's maximum.
  -- Its result lists, in their order, results that the registered verifiers of the sub-statements'
  -- formats, none of which is "compound", gave for this request, each valid and of known types.
  -- They are at least as many as the policy's minimum, which is at least one, and all of them where
  -- the policy asks for all or sets no minimum.
  pub verify_compound_sound :
      (registry : Option (Registry Statement E)) (p : Policy) (r : VerificationRequest Statement E)
      {result : VerificationResult E}
      → verify_compound E evidence cancelled registry p r ≡ ok result
      → (g : Registry Statement E) × (registry ≡ some g) × IsCompound g r p result
  unfolding verify_compound verify_compound_with
  verify_compound_sound none p r {result} h = absurd (ground (arith, h))
  verify_compound_sound (some g) p r {result} h =
      let h0 : verify_compound_with E evidence cancelled g p r ≡ ok result = ground (arith, h) in
      let is_compound : bytes_eq r.format compound_format ≡ true = ground (arith, h) in
      call_step (compound_sub_statements r.statement) h0 (λ statements e1 h1.
        call_step (required_successes p (sub_count statements)) h1 (λ required e2 h2.
          call_step
            (sub_statements_loop E evidence cancelled g r statements 0
              (record { successes = 0; results = []; warnings = [] }))
            h2
            (λ q e3 h3. refuse_step (ltb q.successes required) _ h3 (λ enough h4.
              let (xs, all_verified, results, successes) =
                loop-Adds g r statements 0 (record { successes = 0; results = []; warnings = [] })
                  e3 in
              let count : q.successes ≡ length xs = omega (arith, successes) in
              let made : compound_result E evidence cancelled q required ≡ result = cc in
              (
                g,
                refl,
                record {
                  format = (bytes_eq_iff r.format compound_format).0 is_compound;
                  statements = statements;
                  statements_eq = e1;
                  required = required;
                  is_required = required_successes-IsRequired p (sub_count statements) e2;
                  results = xs;
                  all_verified = all_verified;
                  enough = ground (arith, enough, successes);
                  warnings = q.warnings;
                  result_eq = rw (results, count) at (sym made);
                },
              )))))
