-- ===== src/Attestation/Format/Basic.antt =====
-- attestation/none: the verifier of "none" statements.
use webauthn.Prelude.{not, ◌||◌, ascii, bytes_eq, ◌==◌}
use webauthn.Errors.{Result, ok, ◌>>◌, refuse_if, sentinel, none_invalid_statement}
use webauthn.Attestation.Registry.{VerificationRequest, VerificationResult}
use webauthn.Attestation.Statement.{Statement, statement_length}
use webauthn.Attestation.Format.{pathless}

module _ (E : Type 0) (no_evidence : E) where
  unfoldable pub verify_none : VerificationRequest Statement E → Result (VerificationResult E)
  verify_none r = do
    refuse_if (not (bytes_eq r.format (ascii "none")) || not (statement_length r.statement == 0))
        (sentinel none_invalid_statement)
    ok (pathless E no_evidence (ascii "none"))
