-- ===== src/Registration/Start/Sound.antt =====
-- What `StartRegistration` hands out: the options for the browser against the state for the server.
use webauthn.Prelude.{
  ◌≡◌, sym, ◌≤◌, ◌<◌, ◌^◌, refl, arith, true, false, Option, List, Bytes, is_empty, map,
}
use webauthn.Prelude.Int.{◌≤ℤ◌, ◌+ℤ◌}
use webauthn.Errors.{Error, ok, >>=-eq-ok, wrapped-eq-ok, sentinel, invalid_configuration}
use webauthn.Platform.{Platform}
use webauthn.Protocol.Bytes.{len}
use webauthn.Protocol.Types.{
  CredentialParameter, validate_rp, validate_user, known_attestation_conveyance,
}
use webauthn.Protocol.Options.{CreationOptions, validate_creation_options}
use webauthn.Origin.{validate_origin_policy, validate_rp_id_origin_policy}
use webauthn.Ceremony.{
  timeout_state, validate_user_verification, or_default, default_challenge_ttl,
  default_browser_timeout, registration_user_verification, registration_credential_parameters,
}
use webauthn.Ceremony.Timeout.{timeout_state_sound}
use webauthn.Challenge.{ReadFull, choose_challenge}
use webauthn.Extension.{Values}
use webauthn.Registration.{RegistrationState}
use webauthn.Registration.Start.{
  RegistrationStartOptions, configured, wanted_attestation, check_conveyance, creation_of,
  registration_state_of, check_registration_start, start_registration_extensions,
  start_registration,
}

module _ (v : Values) (g : Platform) (o : RegistrationStartOptions v) where
  -- The browser and the server are told the same, and what the server keeps was checked.
  pub record IsBegun (random : ReadFull) (cancelled : Option Error)
      (creation : CreationOptions v.Input) (s : RegistrationState v) : Type 0 where
    pub chosen :
        choose_challenge random cancelled o.challenge o.challenge_generator ≡ ok s.challenge
    pub challenge : (creation.challenge ≡ s.challenge) × (1 ≤ len s.challenge)
    pub rp : (creation.rp ≡ o.rp) × (s.rp_id ≡ o.rp.id) × (is_empty s.rp_id ≡ false)
    pub user : (creation.user ≡ o.user) × (s.user_handle ≡ o.user.id) × (1 ≤ len s.user_handle)
    pub origins :
        (s.origin_policy ≡ o.origin_policy)
        × (validate_origin_policy g s.origin_policy ≡ ok tt)
        × (validate_rp_id_origin_policy g s.rp_id s.origin_policy ≡ ok tt)
    pub verification :
        (s.requested_user_verification ≡ registration_user_verification o.authenticator_selection)
        × (validate_user_verification s.requested_user_verification ≡ ok tt)
    pub algorithms :
        (registration_credential_parameters o.pub_key_cred_params ≡ ok creation.pub_key_cred_params)
        × (s.allowed_algorithms ≡ map (λ p. p.algorithm) creation.pub_key_cred_params)
    pub attestation :
        (creation.attestation ≡ s.attestation)
        × (s.attestation ≡ wanted_attestation v o.attestation)
        × (known_attestation_conveyance s.attestation ≡ true)
    pub mediation : s.conditional_mediation ≡ o.conditional_mediation
    pub extensions :
        start_registration_extensions v g o s.challenge
        ≡ ok (creation.extensions, s.requested_extensions, s.extension_bindings)
    pub hint : (1 ≤ creation.timeout_milliseconds) × (creation.timeout_milliseconds < 2 ^ 32)
    pub expiry : s.expires_at ≡ o.now +ℤ or_default o.state_ttl default_challenge_ttl
    pub outlives :
        or_default o.timeout default_browser_timeout ≤ℤ or_default o.state_ttl default_challenge_ttl

  -- What the first checks leave.
  begin_policies :
      {parameters : List CredentialParameter}
      → check_registration_start v g o ≡ ok parameters
      → (validate_rp o.rp ≡ ok tt)
        × (validate_user o.user ≡ ok tt)
        × (validate_origin_policy g o.origin_policy ≡ ok tt)
        × (validate_rp_id_origin_policy g o.rp.id o.origin_policy ≡ ok tt)
        × (registration_credential_parameters o.pub_key_cred_params ≡ ok parameters)
  unfolding check_registration_start
  begin_policies h = (ground arith, ground arith, ground arith, ground arith, ground arith)

  rp_id-full : validate_rp o.rp ≡ ok tt → is_empty o.rp.id ≡ false
  unfolding validate_rp
  rp_id-full h = ground arith

  user_id-pos : validate_user o.user ≡ ok tt → 1 ≤ len o.user.id
  unfolding validate_user
  user_id-pos h = ground arith

  creation_challenge :
      (creation : CreationOptions v.Input)
      → validate_creation_options creation ≡ ok tt
      → 1 ≤ len creation.challenge
  unfolding validate_creation_options
  creation_challenge creation h = ground arith

  conveyance-known :
      {u : Unit {0}} (attestation : Bytes)
      → check_conveyance v attestation ≡ ok u
      → known_attestation_conveyance attestation ≡ true
  conveyance-known attestation h = ground arith

  moved :
      (random : ReadFull) (cancelled : Option Error) {q q' : CreationOptions v.Input}
      {s s' : RegistrationState v}
      → q ≡ q'
      → s ≡ s'
      → IsBegun random cancelled q s
      → IsBegun random cancelled q' s'
  moved random cancelled same_creation same_state begun =
      rw (sym same_creation, sym same_state) begun

  -- A started registration tells the browser and the server the same challenge, RP, user,
  -- algorithms and attestation conveyance, which are the configured ones or their defaults; the challenge is the chosen one and is not empty, RP id
  -- and user handle are not empty, the policies are valid, the extensions and bindings are those
  -- that the preparation made, and the state expires after its lifetime, which is not shorter than
  -- the browser's hint.
  pub start_registration_sound :
      (random : ReadFull) (cancelled : Option Error) {creation : CreationOptions v.Input}
      {s : RegistrationState v}
      → start_registration v g random cancelled o ≡ ok (creation, s)
      → IsBegun random cancelled creation s
  unfolding start_registration
  start_registration_sound random cancelled {creation} {s} h =
      let outer = sentinel invalid_configuration in
      let (parameters, checked, h1) = >>=-eq-ok (check_registration_start v g o) _ h in
      let (challenge, chosen, h2) =
        >>=-eq-ok (choose_challenge random cancelled o.challenge o.challenge_generator) _ h1 in
      let (_, known, h3) =
        >>=-eq-ok
          (configured v
            (validate_user_verification (registration_user_verification o.authenticator_selection)))
          _ h2 in
      let ((for_options, for_state, bindings), extensions, h4) =
        >>=-eq-ok (start_registration_extensions v g o challenge) _ h3 in
      let (_, conveyance, h5) =
        >>=-eq-ok (check_conveyance v (wanted_attestation v o.attestation)) _ h4 in
      let ((ms, expires), limits, h6) =
        >>=-eq-ok (configured v (timeout_state o.timeout o.state_ttl o.now)) _ h5 in
      let (_, valid, h7) =
        >>=-eq-ok
          (configured v
            (validate_creation_options (creation_of v o challenge parameters ms for_options)))
          _ h6 in
      let (rp, user, origins, scoped, chosen_parameters) = begin_policies checked in
      let (ms_pos, ms_max, _, expiry, outlives, _, _, _) =
        timeout_state_sound o.timeout o.state_ttl o.now (wrapped-eq-ok outer _ limits) in
      let creation_eq : creation_of v o challenge parameters ms for_options ≡ creation =
        ground (arith, h7) in
      let state_eq : registration_state_of v o challenge parameters expires for_state bindings ≡ s =
        ground (arith, h7) in
      moved random cancelled creation_eq state_eq (record {
        chosen = chosen;
        challenge = (refl, creation_challenge _ (wrapped-eq-ok outer _ valid));
        rp = (refl, refl, rp_id-full rp);
        user = (refl, refl, user_id-pos user);
        origins = (refl, origins, scoped);
        verification = (refl, wrapped-eq-ok outer _ known);
        algorithms = (chosen_parameters, refl);
        attestation =
            (refl, refl, conveyance-known (wanted_attestation v o.attestation) conveyance);
        mediation = refl;
        extensions = extensions;
        hint = (ms_pos, ms_max);
        expiry = expiry;
        outlives = outlives;
      })
