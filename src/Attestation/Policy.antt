-- ===== src/Attestation/Policy.antt =====
-- attestation/policy.go: the built-in trust policies. Copies are the values, and a set is a list.
pub mod Compose
use webauthn.Prelude.{
  ℕ, ◌+◌, Bool, true, false, not, ◌||◌, ◌&&◌, Option, none, some, List, [], ◌∷◌, ◌++◌, Bytes, ascii,
  is_empty, bytes_eq, contains, if◌then◌else◌,
}
use webauthn.Prelude.Int.{ℤ, pos}
use webauthn.Errors.{
  Error, Result, ok, err, ◌>>=◌, ◌>>◌, refuse_if, sentinel, annotate, trust_policy_configuration,
}
use webauthn.Crypto.{CertificateVerificationContext, CertificateVerification, CertificateVerifier}
use webauthn.Attestation.Registry.{
  TrustPath, TrustResult, TrustRequest, TrustPolicy, kind_of, type_of, path_of, trust_path,
  VerificationResult, verification,
}

abbrev pub configuration : Error
configuration = sentinel trust_policy_configuration

abbrev pub trust_result : Bool → Bytes → List Bytes → TrustResult
trust_result accepted reason warnings = record {
  accepted = accepted;
  reason = reason;
  warnings = warnings;
}

abbrev pub accept : Bytes → TrustResult
accept reason = trust_result true reason []

abbrev pub reject : Bytes → TrustResult
reject reason = trust_result false reason []

abbrev pub reason_or_default : Bytes → Bytes → Bytes
reason_or_default reason fallback = if not (is_empty reason) then reason else fallback

-- The policies that look for a value in a set.
abbrev decide : Bool → Bytes → Bytes → TrustResult
decide true accept_reason reject_reason = accept accept_reason
decide false accept_reason reject_reason = reject reject_reason

pub record CertificateStatusResult : Type 0 where
  pub status : Bytes
  pub status_reason : Bytes
  pub status_warnings : List Bytes

pub record MetadataResult : Type 0 where
  pub found : Bool
  pub trusted : Bool
  pub metadata_reason : Bytes
  pub metadata_warnings : List Bytes

-- `S` is the type of statements and `E` that of evidence.
module _ (S E : Type 0) where
  pub record MetadataRequest : Type 0 where
    pub format : Bytes
    pub kind : Bytes
    pub aaguid : Bytes
    pub path : TrustPath E
    pub evidence : E

  abbrev pub MetadataProvider : Type 0
  MetadataProvider = MetadataRequest → Result MetadataResult

  pub record CertificateStatusRequest : Type 0 where
    pub format : Bytes
    pub kind : Bytes
    pub aaguid : Bytes
    pub path : TrustPath E
    pub certificates : List Bytes
    pub evidence : E

  abbrev pub CertificateStatusProvider : Type 0
  CertificateStatusProvider = CertificateStatusRequest → Result CertificateStatusResult

  abbrev decide_by : (TrustRequest S E → Bool) → Bytes → Bytes → TrustPolicy S E
  decide_by test accept_reason reject_reason r = ok (decide (test r) accept_reason reject_reason)

  unfoldable pub allow_types_policy : List Bytes → Bytes → Bytes → TrustPolicy S E
  allow_types_policy allowed accept_reason reject_reason =
      decide_by (λ r. contains allowed (type_of r.result)) accept_reason reject_reason

  unfoldable pub reject_types_policy : List Bytes → Bytes → Bytes → TrustPolicy S E
  reject_types_policy rejected accept_reason reject_reason =
      decide_by (λ r. not (contains rejected (type_of r.result))) accept_reason reject_reason

  unfoldable pub accept_none : TrustPolicy S E
  unfolding allow_types_policy
  accept_none =
      allow_types_policy (ascii "none" ∷ []) (ascii "none attestation accepted by policy")
        (ascii "none attestation required by policy")

  unfoldable pub reject_none : TrustPolicy S E
  unfolding reject_types_policy
  reject_none =
      reject_types_policy (ascii "none" ∷ []) (ascii "non-none attestation accepted by policy")
        (ascii "none attestation rejected by policy")

  unfoldable pub accept_self : TrustPolicy S E
  unfolding allow_types_policy
  accept_self =
      allow_types_policy (ascii "self" ∷ []) (ascii "self attestation accepted by policy")
        (ascii "self attestation required by policy")

  unfoldable pub reject_self : TrustPolicy S E
  unfolding reject_types_policy
  reject_self =
      reject_types_policy (ascii "self" ∷ []) (ascii "non-self attestation accepted by policy")
        (ascii "self attestation rejected by policy")

  unfoldable pub allow_types : List Bytes → TrustPolicy S E
  unfolding allow_types_policy
  allow_types types =
      allow_types_policy types (ascii "attestation type accepted by policy")
        (ascii "attestation type rejected by policy")

  unfoldable pub allow_formats : List Bytes → TrustPolicy S E
  allow_formats formats =
      decide_by (λ r. contains formats r.format) (ascii "attestation format accepted by policy")
        (ascii "attestation format rejected by policy")

  unfoldable pub require_aaguid : List Bytes → TrustPolicy S E
  require_aaguid aaguids =
      decide_by (λ r. contains aaguids r.aaguid) (ascii "aaguid accepted by policy")
        (ascii "aaguid rejected by policy")

  abbrev pub certificates_of : TrustPath E → List Bytes
  certificates_of (trust_path kind certificates raw nested) = certificates

  abbrev pub evidence_of : VerificationResult E → E
  evidence_of (verification kind path valid warnings evidence) = evidence

  -- `Kind != TrustPathX509 || len(Certificates) == 0`.
  abbrev pub lacks_x5c : VerificationResult E → Bool
  lacks_x5c v =
      not (bytes_eq (kind_of (path_of v)) (ascii "x5c")) || is_empty (certificates_of (path_of v))

  abbrev path_required : TrustResult
  path_required = reject (ascii "x5c trust path required by policy")

  abbrev verified_path : CertificateVerification → TrustResult
  verified_path v =
      if not v.trusted
      then trust_result false (ascii "x5c trust path rejected by policy") v.warnings
      else trust_result true (ascii "x5c trust path accepted by policy") v.warnings

  unfoldable pub require_trusted_roots :
      Option CertificateVerifier → CertificateVerificationContext → TrustPolicy S E
  require_trusted_roots none context r = err configuration
  require_trusted_roots (some verify) context r =
      if lacks_x5c r.result
      then ok path_required
      else (do v ← verify (certificates_of (path_of r.result)) context; ok (verified_path v))

  abbrev metadata_decision : MetadataResult → TrustResult
  metadata_decision m =
      if not m.found
      then trust_result false
          (reason_or_default m.metadata_reason (ascii "attestation metadata not found"))
          m.metadata_warnings
      else if not m.trusted
      then trust_result false
          (reason_or_default m.metadata_reason (ascii "attestation metadata rejected by policy"))
          m.metadata_warnings
      else trust_result true
          (reason_or_default m.metadata_reason (ascii "attestation metadata accepted by policy"))
          m.metadata_warnings

  unfoldable pub require_trusted_metadata : Option MetadataProvider → TrustPolicy S E
  require_trusted_metadata none r = err configuration
  require_trusted_metadata (some look_up) r = do
    m ← look_up (record {
      format = r.format;
      kind = type_of r.result;
      aaguid = r.aaguid;
      path = path_of r.result;
      evidence = evidence_of r.result;
    })
    ok (metadata_decision m)

  abbrev pub default_status : Bytes → Bytes
  default_status status = if is_empty status then ascii "unknown" else status

  -- `quote` is the verb `%q`.
  abbrev status_decision : (Bytes → Bytes) → List Bytes → CertificateStatusResult → TrustResult
  status_decision quote allowed s =
      let status = default_status s.status in
      if not (contains allowed status)
      then trust_result false
          (reason_or_default s.status_reason
            (ascii "certificate status " ++ (quote status ++ ascii " rejected by policy")))
          s.status_warnings
      else trust_result true
          (reason_or_default s.status_reason
            (ascii "certificate status " ++ (quote status ++ ascii " accepted by policy")))
          s.status_warnings

  abbrev default_statuses : List Bytes → List Bytes
  default_statuses allowed = if is_empty allowed then ascii "good" ∷ [] else allowed

  unfoldable pub require_certificate_status :
      (Bytes → Bytes) → Option CertificateStatusProvider → List Bytes → TrustPolicy S E
  require_certificate_status quote none allowed r = err configuration
  require_certificate_status quote (some check) allowed r =
      if lacks_x5c r.result then ok path_required else (do
        s ← check (record {
          format = r.format;
          kind = type_of r.result;
          aaguid = r.aaguid;
          path = path_of r.result;
          certificates = certificates_of (path_of r.result);
          evidence = evidence_of r.result;
        })
        ok (status_decision quote (default_statuses allowed) s))
