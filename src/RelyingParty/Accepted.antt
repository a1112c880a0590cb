-- ===== src/RelyingParty/Accepted.antt =====
-- What an authentication that a relying party of relying_party.go accepts has to do with its
-- configuration.
use webauthn.Prelude.{
  ◌≡◌, ◌∙◌, refl, arith, true, false, not, Option, some, none, List, [], ◌∷◌, Bytes, bytes_eq,
  bytes_eq_iff, any, ◌⊎◌, inl, inr, Bool-cases, content,
}
use webauthn.Prelude.Int.{eq_ℤ, eq_ℤ_iff}
use webauthn.Errors.{ok, >>=-eq-ok, refuse_if}
use webauthn.Platform.{Platform}
use webauthn.Protocol.Types.{CoseAlgorithm, client_data_type_get, user_verification_required}
use webauthn.Credential.{validate_record}
use webauthn.Origin.{OriginPolicy}
use webauthn.Ceremony.{Time}
use webauthn.Ceremony.ClientData.{IsGenuine}
use webauthn.Extension.{Values}
use webauthn.ExtensionCheck.Outputs.{Context}
use webauthn.Authentication.{AuthenticationState, AuthenticationResult}
use webauthn.Authentication.Checks.Facts.{IsSigned}
use webauthn.Authentication.Counter.{compare_counters}
use webauthn.Authentication.Finish.Sound.{Verified, finish_authentication_sound}
use webauthn.Registration.Finish.{allows}
use webauthn.RelyingParty.{RelyingParty}
use webauthn.RelyingParty.Methods.{
  AuthenticationVerification, equal_lists, matches_origin, authentication_agrees,
  authentication_finish_options, rp_finish_authentication,
}

equal_lists-bytes : (xs ys : List Bytes) → equal_lists bytes_eq xs ys ≡ true → xs ≡ ys
unfolding equal_lists
equal_lists-bytes [] [] h = refl
equal_lists-bytes [] (y ∷ ys) h = cc
equal_lists-bytes (x ∷ xs) [] h = cc
equal_lists-bytes (x ∷ xs) (y ∷ ys) h =
    let head : x ≡ y = (bytes_eq_iff x y).0 (ground (arith, h)) in
    let tail : xs ≡ ys = equal_lists-bytes xs ys (ground (arith, h)) in cc

-- The algorithm is one of the list.
abbrev pub AlgorithmAmong : CoseAlgorithm → List CoseAlgorithm → Type 0
AlgorithmAmong a [] = ⊥
AlgorithmAmong a (b ∷ bs) = (b ≡ a) ⊎ AlgorithmAmong a bs

allows-AlgorithmAmong :
    (bs : List CoseAlgorithm) (a : CoseAlgorithm) → allows bs a ≡ true → AlgorithmAmong a bs
unfolding any
allows-AlgorithmAmong [] a h = cc
allows-AlgorithmAmong (b ∷ bs) a h = elim (Bool-cases (eq_ℤ b a)) [
  | inl e ↦ inl ((eq_ℤ_iff b a).0 e)
  | inr ne ↦ inr (allows-AlgorithmAmong bs a (ground (arith, ne, h)))
]

module _ (v : Values) (S E : Type 0) (g : Platform) where
  matches_origin-policy :
      (rp : RelyingParty v S E) (id : Bytes) (policy : OriginPolicy)
      → matches_origin v S E rp id policy ≡ true
      → (id ≡ rp.config.rp.id) × (policy ≡ rp.config.origin_policy)
  unfolding matches_origin
  matches_origin-policy rp id policy h =
      let own = rp.config.origin_policy in
      let origins : policy.allowed_origins ≡ own.allowed_origins =
        equal_lists-bytes policy.allowed_origins own.allowed_origins (ground (arith, h)) in
      let tops : policy.allowed_top_origins ≡ own.allowed_top_origins =
        equal_lists-bytes policy.allowed_top_origins own.allowed_top_origins (ground (arith, h)) in
      let related : policy.allow_related_origins ≡ own.allow_related_origins = ground (arith, h) in
      let framed : policy.allow_cross_origin_without_top_origin
          ≡ own.allow_cross_origin_without_top_origin =
        ground (arith, h) in
      ((bytes_eq_iff id rp.config.rp.id).0 (ground (arith, h)), cc)

  -- What the configuration of the party decided: the state was made for its RP id, its origins and
  -- its demand for user verification, and the finish used its verifier and its policies.
  pub record IsAdmitted (rp : RelyingParty v S E) (ctx : Context)
      (request : AuthenticationVerification v) (now : Time) (r : AuthenticationResult v)
      : Type 0 where
    pub rp_id : request.state.rp_id ≡ rp.config.rp.id
    pub own_credential : request.credential.rp_id ≡ rp.config.rp.id
    pub algorithm : AlgorithmAmong request.credential.public_key.algorithm rp.algorithms
    pub genuine :
        IsGenuine g request.response.client_data_json client_data_type_get request.state.challenge
          rp.config.origin_policy
    pub present : r.user_present ≡ true
    pub verified :
        rp.config.authentication.user_verification ≡ user_verification_required
        → r.user_verified ≡ true
    pub signed :
        IsSigned v rp.config.signature_verifier request.response request.credential
          (g.sha256 (content request.response.client_data_json))
    pub finished : Verified v g ctx (authentication_finish_options v S E rp request now) r
    pub counter :
        rp.config.authentication.counter_policy.reject_clone_risk ≡ true
        → (compare_counters request.credential.sign_count finished.parsed.sign_count).clone_risk
          ≡ false

  agrees-parts :
      (rp : RelyingParty v S E) (s : AuthenticationState v)
      → authentication_agrees v S E rp s ≡ true
      → (matches_origin v S E rp s.rp_id s.origin_policy ≡ true)
        × (s.requested_user_verification ≡ rp.config.authentication.user_verification)
  unfolding authentication_agrees
  agrees-parts rp s h = (
    ground (arith, h),
    (bytes_eq_iff s.requested_user_verification rp.config.authentication.user_verification).0
        (ground (arith, h)),
  )

  verified-IsAdmitted :
      (rp : RelyingParty v S E) (ctx : Context) (request : AuthenticationVerification v)
      (now : Time) {r : AuthenticationResult v}
      → authentication_agrees v S E rp request.state ≡ true
      → allows rp.algorithms request.credential.public_key.algorithm ≡ true
      → Verified v g ctx (authentication_finish_options v S E rp request now) r
      → IsAdmitted rp ctx request now r
  verified-IsAdmitted rp ctx request now {r} agrees allowed done =
      let (origin, verification) = agrees-parts rp request.state agrees in
      let (rp_id, policy) =
        matches_origin-policy rp request.state.rp_id request.state.origin_policy origin in
      record {
        rp_id = rp_id;
        own_credential = done.bound.rp ∙ rp_id;
        algorithm =
            allows-AlgorithmAmong rp.algorithms request.credential.public_key.algorithm allowed;
        genuine = rw policy at done.genuine;
        present = done.reported.0 ∙ done.trusted.present;
        verified = λ wanted. done.reported.1 ∙ done.trusted.verified (verification ∙ wanted);
        signed = done.signed;
        finished = done;
        counter = done.counter;
      }

  -- An authentication that a relying party accepts was started for its RP id and accepted for a
  -- credential of that RP id with one of its algorithms. The client data carry the challenge of the
  -- state and come from an origin that its policy accepts, its verifier accepted the signature, the
  -- user was present, and verified where it demands that, and there is no clone risk where its
  -- policy rejects it. All checks of FinishAuthentication passed under its configuration.
  pub rp_finish_authentication_sound :
      (party : Option (RelyingParty v S E)) (ctx : Context) (request : AuthenticationVerification v)
      (now : Time) {r : AuthenticationResult v}
      → rp_finish_authentication v S E g party ctx request now ≡ ok r
      → (rp : RelyingParty v S E) × (party ≡ some rp) × IsAdmitted rp ctx request now r
  unfolding rp_finish_authentication
  rp_finish_authentication_sound none ctx request now h = absurd (ground arith)
  rp_finish_authentication_sound (some rp) ctx request now h =
      let (_, agrees, h1) =
        >>=-eq-ok (refuse_if (not (authentication_agrees v S E rp request.state)) _) _ h in
      let (_, valid, h2) = >>=-eq-ok (validate_record request.credential) _ h1 in
      let (_, allowed, h3) =
        >>=-eq-ok (refuse_if (not (allows rp.algorithms request.credential.public_key.algorithm)) _)
          _ h2 in
      (
        rp,
        refl,
        verified-IsAdmitted rp ctx request now (ground (arith, agrees)) (ground (arith, allowed)) (
            finish_authentication_sound v g ctx (authentication_finish_options v S E rp request now)
              h3),
      )
