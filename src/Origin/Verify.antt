-- ===== src/Origin/Verify.antt =====
-- `verifyCollectedClientOrigin` of origin.go, against a description of the accepted client data.
use webauthn.Prelude.{◌≡◌, ◌⊎◌, inl, inr, ◌↔◌, arith, true, false, Listed, contains_iff}
use webauthn.Errors.{ok, err, sentinel, origin_mismatch}
use webauthn.Protocol.Types.{CollectedClientData}
use webauthn.Origin.{OriginPolicy, cross_origin_of, verify_collected_client_origin}

-- The origin is allowed; a top origin is there only for cross-origin data and is allowed; and
-- cross-origin data without a top origin needs the policy's permission.
pub record IsAccepted (p : OriginPolicy) (d : CollectedClientData) : Type 0 where
  pub origin : Listed d.origin p.allowed_origins
  pub top_cross : d.top_origin_set ≡ true → cross_origin_of d ≡ true
  pub top_listed : d.top_origin_set ≡ true → Listed d.top_origin p.allowed_top_origins
  pub no_top :
      d.top_origin_set ≡ false
      → cross_origin_of d ≡ true
      → p.allow_cross_origin_without_top_origin ≡ true

-- The check passes exactly the accepted client data.
pub verify_origin_iff :
    (p : OriginPolicy) (d : CollectedClientData)
    → (verify_collected_client_origin p d ≡ ok tt) ↔ IsAccepted p d
unfolding verify_collected_client_origin
verify_origin_iff p d = (
  λ h. record {
    origin = (contains_iff p.allowed_origins d.origin).0 (ground arith);
    top_cross = λ t. ground arith;
    top_listed = λ t. (contains_iff p.allowed_top_origins d.top_origin).0 (ground arith);
    no_top = λ t c. ground arith;
  },
  λ a. verify a,
)
  where
    verify : IsAccepted p d → verify_collected_client_origin p d ≡ ok tt
    verify a = ground (
      arith,
      (contains_iff p.allowed_origins d.origin).1 a.origin,
      λ (t : d.top_origin_set ≡ true).
          (contains_iff p.allowed_top_origins d.top_origin).1 (a.top_listed t),
      a.top_cross,
      a.no_top,
    )

-- Whatever the check does not pass is an origin mismatch.
pub verify_origin_mismatch :
    (p : OriginPolicy) (d : CollectedClientData)
    → ¬ (IsAccepted p d)
    → verify_collected_client_origin p d ≡ err (sentinel origin_mismatch)
verify_origin_mismatch p d no_accept = elim (outcome) [
  | inl passed ↦ absurd (no_accept ((verify_origin_iff p d).0 passed))
  | inr refused ↦ refused
]
  where
    outcome :
        (verify_collected_client_origin p d ≡ ok tt)
        ⊎ (verify_collected_client_origin p d ≡ err (sentinel origin_mismatch))
    outcome = unfold verify_collected_client_origin in ground arith
