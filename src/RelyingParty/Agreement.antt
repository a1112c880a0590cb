-- ===== src/RelyingParty/Agreement.antt =====
-- The two ends of a ceremony under one relying party of relying_party.go.
use webauthn.Prelude.{
  ◌≡◌, sym, ap, ◌∙◌, refl, arith, Bool, true, false, Option, some, List, [], ◌∷◌, Bytes, bytes_eq,
  bytes_eq_refl, bytes_eq_iff, is_empty,
}
use webauthn.Prelude.Int.{eq_ℤ, eq_ℤ_iff}
use webauthn.Errors.{Error, ok}
use webauthn.Platform.{Platform}
use webauthn.Protocol.Options.{CreationOptions, RequestOptions}
use webauthn.Origin.{OriginPolicy}
use webauthn.Ceremony.{Time, algorithms_from_parameters, registration_user_verification}
use webauthn.Challenge.{ReadFull}
use webauthn.Extension.{Values}
use webauthn.Authentication.{AuthenticationState}
use webauthn.Authentication.Start.{wanted_verification}
use webauthn.Registration.Start.{wanted_attestation}
use webauthn.Authentication.Start.Sound.{start_authentication_sound}
use webauthn.Registration.{RegistrationState}
use webauthn.Registration.Start.Sound.{start_registration_sound}
use webauthn.RelyingParty.{Config, RelyingParty, new_relying_party}
use webauthn.RelyingParty.Methods.{
  RegistrationRequest, AuthenticationRequest, equal_lists, matches_origin, registration_agrees,
  authentication_agrees, registration_start_options, authentication_start_options,
  rp_start_registration, rp_start_authentication,
}
use webauthn.RelyingParty.Ready.{new_relying_party-IsReady}

equal_lists_refl {ℓ} :
    {A : Type ℓ} (same : A → A → Bool)
    → ((x : A) → same x x ≡ true)
    → (xs : List A) → equal_lists same xs xs ≡ true
unfolding equal_lists
equal_lists_refl same reflexive [] = refl
equal_lists_refl same reflexive (x ∷ xs) =
    ground (arith, reflexive x, equal_lists_refl same reflexive xs)

module _ (v : Values) (S E : Type 0) (g : Platform) where
  -- The policy of a party's own configuration matches it.
  own_origin :
      (rp : RelyingParty v S E) (id : Bytes) (policy : OriginPolicy)
      → id ≡ rp.config.rp.id
      → policy ≡ rp.config.origin_policy
      → matches_origin v S E rp id policy ≡ true
  unfolding matches_origin
  own_origin rp id policy id_eq policy_eq =
      let own = rp.config.origin_policy in
      rw (id_eq, policy_eq)
        (ground (
          arith,
          bytes_eq_refl rp.config.rp.id,
          equal_lists_refl bytes_eq bytes_eq_refl own.allowed_origins,
          equal_lists_refl bytes_eq bytes_eq_refl own.allowed_top_origins,
        ))

  wanted-full : (x : Bytes) → is_empty x ≡ false → wanted_verification v x ≡ x
  wanted-full x h = ground (arith, h)

  conveyance-full : (x : Bytes) → is_empty x ≡ false → wanted_attestation v x ≡ x
  conveyance-full x h = ground (arith, h)

  agrees_authentication :
      (rp : RelyingParty v S E) (s : AuthenticationState v)
      → matches_origin v S E rp s.rp_id s.origin_policy ≡ true
      → s.requested_user_verification ≡ rp.config.authentication.user_verification
      → authentication_agrees v S E rp s ≡ true
  unfolding authentication_agrees
  agrees_authentication rp s origin uv = ground (
    arith,
    origin,
    (bytes_eq_iff s.requested_user_verification rp.config.authentication.user_verification).1 uv,
  )

  agrees_registration :
      (rp : RelyingParty v S E) (s : RegistrationState v)
      → matches_origin v S E rp s.rp_id s.origin_policy ≡ true
      → s.requested_user_verification
        ≡ registration_user_verification rp.config.registration.authenticator_selection
      → s.allowed_algorithms ≡ rp.algorithms
      → s.attestation ≡ rp.config.registration.attestation
      → registration_agrees v S E rp s ≡ true
  unfolding registration_agrees
  agrees_registration rp s origin uv algorithms attestation =
      let wanted = registration_user_verification rp.config.registration.authenticator_selection in
      let same : equal_lists eq_ℤ s.allowed_algorithms rp.algorithms ≡ true =
        rw algorithms (equal_lists_refl eq_ℤ (λ a. (eq_ℤ_iff a a).1 refl) rp.algorithms) in
      ground (
        arith,
        origin,
        same,
        (bytes_eq_iff s.requested_user_verification wanted).1 uv,
        (bytes_eq_iff s.attestation rp.config.registration.attestation).1 attestation,
      )

  -- The state of an authentication that a relying party started agrees with its configuration, so
  -- the finish does not refuse it as a state of another configuration, if the party was made by New.
  pub started_authentication_agrees :
      (c : Config v S E) {rp : RelyingParty v S E}
      → new_relying_party v S E g c ≡ ok rp
      → (random : ReadFull) (cancelled : Option Error) (request : AuthenticationRequest v)
        (now : Time) {options : RequestOptions v.Input} {s : AuthenticationState v}
      → rp_start_authentication v S E g (some rp) random cancelled request now ≡ ok (options, s)
      → authentication_agrees v S E rp s ≡ true
  unfolding rp_start_authentication
  started_authentication_agrees c {rp} made random cancelled request now {options} {s} h =
      let is_ready = new_relying_party-IsReady v S E g c made in
      let started =
        start_authentication_sound v g (authentication_start_options v S E rp request now) random
          cancelled h in
      agrees_authentication rp s
        (own_origin rp s.rp_id s.origin_policy started.rp.1 started.origins.0)
        (started.verification.1
          ∙ wanted-full rp.config.authentication.user_verification is_ready.verification)

  -- The state of a registration that a relying party started agrees with its configuration, its
  -- algorithms and its attestation conveyance included, if the party was made by New.
  pub started_registration_agrees :
      (c : Config v S E) {rp : RelyingParty v S E}
      → new_relying_party v S E g c ≡ ok rp
      → (random : ReadFull) (cancelled : Option Error) (request : RegistrationRequest v)
        (now : Time) {creation : CreationOptions v.Input} {s : RegistrationState v}
      → rp_start_registration v S E g (some rp) random cancelled request now ≡ ok (creation, s)
      → registration_agrees v S E rp s ≡ true
  unfolding rp_start_registration
  started_registration_agrees c {rp} made random cancelled request now {creation} {s} h =
      let is_ready = new_relying_party-IsReady v S E g c made in
      let begun =
        start_registration_sound v g (registration_start_options v S E rp request now) random
          cancelled h in
      let parameters : creation.pub_key_cred_params ≡ rp.config.pub_key_cred_params =
        ground (arith, is_ready.parameters, begun.algorithms.0) in
      agrees_registration rp s (own_origin rp s.rp_id s.origin_policy begun.rp.1 begun.origins.0)
        begun.verification.0
        (begun.algorithms.1 ∙ ap algorithms_from_parameters parameters ∙ sym is_ready.algorithms)
        (begun.attestation.1
          ∙ conveyance-full rp.config.registration.attestation is_ready.attestation)
