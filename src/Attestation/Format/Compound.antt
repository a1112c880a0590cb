-- ===== src/Attestation/Format/Compound.antt =====
-- attestation/compound: the verifier of "compound" statements.
pub mod Sound
use webauthn.Prelude.{
  ℕ, ◌+◌, Bool, true, false, not, ◌||◌, ◌&&◌, Option, none, some, List, [], ◌∷◌, ◌++◌, Bytes, ascii,
  is_empty, length, bytes_eq, ltb, ◌==◌, if◌then◌else◌,
}
use webauthn.Prelude.Int.{ℤ, pos, negsuc, eq_ℤ, ltb_ℤ}
use webauthn.Errors.{
  Error, Result, ok, err, ◌>>=◌, ◌>>◌, refuse_if, present, sentinel, annotate_numbers,
  compound_invalid_statement, compound_verifier, compound_insufficient_statements,
}
use webauthn.Protocol.Identifier.{valid_identifier}
use webauthn.Attestation.Types.{known_attestation_type, known_trust_path_kind}
use webauthn.Attestation.Registry.{
  VerificationRequest, VerificationResult, verification, trust_path, Statements, no_statements,
  statement, Verifier, Registry, lookup_verifier, type_of, path_of, kind_of, is_valid,
}
use webauthn.Attestation.Statement.{
  Statement, nil_statement, statement_of, AnyValue, any_sub_statements, SubStatements,
  no_sub_statements, sub_statement, statement_length, entries, entry_at,
}

abbrev pub invalid : Error
invalid = sentinel compound_invalid_statement

abbrev pub compound_format : Bytes
compound_format = ascii "compound"

-- `Policy`; the numbers are Go's `int`.
pub record Policy : Type 0 where
  pub minimum_successful : ℤ
  pub require_all : Bool
  pub max_statements : ℤ

abbrev pub max_configured_statements : ℕ
max_configured_statements = 64

abbrev pub effective_maximum : Policy → ℤ
effective_maximum p = if eq_ℤ p.max_statements (pos 0) then pos 16 else p.max_statements

abbrev minimum_of : ℤ → ℕ → Result ℕ
minimum_of (negsuc n) total = err invalid
minimum_of (pos n) total = if ltb total n then err invalid else ok n

unfoldable pub required_successes : Policy → ℕ → Result ℕ
required_successes p total =
    let maximum = effective_maximum p in
    if ltb total 2
    then err invalid
    else if ltb_ℤ maximum (pos 2)
        || ltb_ℤ (pos max_configured_statements) maximum
        || ltb_ℤ maximum (pos total)
    then err invalid
    else if p.require_all || eq_ℤ p.minimum_successful (pos 0)
    then ok total
    else minimum_of p.minimum_successful total

abbrev pub sub_count : SubStatements → ℕ
sub_count no_sub_statements = 0
sub_count (sub_statement format s more) = 1 + sub_count more

abbrev is_nil_statement : Statement → Bool
is_nil_statement nil_statement = true
is_nil_statement (statement_of es) = false

unfoldable pub check_sub_statements : SubStatements → Result (Unit {0})
check_sub_statements no_sub_statements = ok tt
check_sub_statements (sub_statement format s more) =
    refuse_if (not (valid_identifier format) || is_nil_statement s) invalid
    >> check_sub_statements more

abbrev as_sub_statements : AnyValue → Result SubStatements
as_sub_statements (any_sub_statements ss) = ok ss
as_sub_statements _ = err invalid

-- `codec.CompoundSubStatementsKey`.
abbrev pub compound_sub_statements_key : Bytes
compound_sub_statements_key = ascii "statements"

unfoldable pub compound_sub_statements : Statement → Result SubStatements
compound_sub_statements s = do
  refuse_if (not (statement_length s == 1)) invalid
  raw ← present invalid (entry_at compound_sub_statements_key (entries s))
  statements ← as_sub_statements raw
  refuse_if (ltb (sub_count statements) 2) invalid
  check_sub_statements statements
  ok statements

-- `evidence` makes the evidence of the numbers of successful and of required statements, and
-- `cancelled` is the error of the context before each round, if it is done by then.
module _ (E : Type 0) (evidence : ℕ → ℕ → E) (cancelled : ℕ → Option Error) where
  -- What the loop has gathered: the results and the warnings.
  pub record Progress : Type 0 where
    pub successes : ℕ
    pub results : List (VerificationResult E)
    pub warnings : List Bytes

  abbrev pub warn : Progress → Bytes → Bytes → Progress
  warn p text format = record p { warnings = p.warnings ++ ((text ++ format) ∷ []) }

  abbrev pub succeed : Progress → VerificationResult E → Progress
  succeed p x = record {
    successes = p.successes + 1;
    results = p.results ++ (x ∷ []);
    warnings = p.warnings;
  }

  abbrev pub is_usable : VerificationResult E → Bool
  is_usable x =
      is_valid x
      && known_attestation_type (type_of x)
      && known_trust_path_kind (kind_of (path_of x))

  abbrev pub sub_request :
      VerificationRequest Statement E → Bytes → Statement → VerificationRequest Statement E
  sub_request r format s = record r { format = format; statement = s }

  abbrev pub after_verification : Progress → Bytes → Result (VerificationResult E) → Progress
  after_verification p format (err e) = warn p (ascii "compound sub-statement failed: ") format
  after_verification p format (ok x) =
      if not (is_usable x)
      then warn p (ascii "compound sub-statement invalid: ") format
      else succeed p x

  abbrev pub after_lookup :
      VerificationRequest Statement E
      → Progress
      → Bytes
      → Statement
      → Option (Verifier Statement E)
      → Progress
  after_lookup r p format s none = warn p (ascii "compound sub-statement verifier missing: ") format
  after_lookup r p format s (some v) =
      after_verification p format (v.verify_attestation (sub_request r format s))

  abbrev refuse_when : Option Error → Result (Unit {0})
  refuse_when none = ok tt
  refuse_when (some e) = err e

  unfoldable pub sub_statements_loop :
      Registry Statement E
      → VerificationRequest Statement E
      → SubStatements
      → ℕ
      → Progress
      → Result Progress
  sub_statements_loop g r no_sub_statements round p = ok p
  sub_statements_loop g r (sub_statement format s more) round p = do
    refuse_when (cancelled round)
    refuse_if (bytes_eq format compound_format) invalid
    sub_statements_loop g r more (round + 1)
        (after_lookup r p format s (lookup_verifier Statement E (some g) format))

  abbrev pub statements_of : List (VerificationResult E) → Statements E
  statements_of [] = no_statements
  statements_of (x ∷ xs) = statement x (statements_of xs)

  abbrev pub compound_result : Progress → ℕ → VerificationResult E
  compound_result p required =
      verification (ascii "uncertain")
        (trust_path (ascii "compound") [] [] (statements_of p.results)) true p.warnings
        (evidence p.successes required)

  unfoldable pub verify_compound_with :
      Registry Statement E
      → Policy
      → VerificationRequest Statement E
      → Result (VerificationResult E)
  verify_compound_with g policy r = do
    statements ← compound_sub_statements r.statement
    required ← required_successes policy (sub_count statements)
    p ← sub_statements_loop g r statements 0 (record { successes = 0; results = []; warnings = [] })
    refuse_if (ltb p.successes required) (
        annotate_numbers (sentinel compound_insufficient_statements) "got, want"
          (p.successes ∷ required ∷ []))
    ok (compound_result p required)

  abbrev with_registry :
      Option (Registry Statement E)
      → Policy
      → VerificationRequest Statement E
      → Result (VerificationResult E)
  with_registry none policy r = err (sentinel compound_verifier)
  with_registry (some g) policy r = verify_compound_with g policy r

  unfoldable pub verify_compound :
      Option (Registry Statement E)
      → Policy
      → VerificationRequest Statement E
      → Result (VerificationResult E)
  verify_compound g policy r =
      if not (bytes_eq r.format compound_format) then err invalid else with_registry g policy r
