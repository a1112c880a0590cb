-- ===== src/Authentication/Start/Sound.antt =====
-- What `StartAuthentication` hands out: the options for the browser against the state for the server.
use webauthn.Prelude.{◌≡◌, sym, ◌≤◌, ◌<◌, ◌^◌, refl, arith, false, Option, is_empty}
use webauthn.Prelude.Int.{◌≤ℤ◌, ◌+ℤ◌}
use webauthn.Errors.{Error, ok, >>=-eq-ok, wrapped-eq-ok, sentinel, invalid_configuration}
use webauthn.Platform.{Platform}
use webauthn.Protocol.Bytes.{len}
use webauthn.Protocol.Options.{RequestOptions, validate_request_options}
use webauthn.Origin.{validate_origin_policy, validate_rp_id_origin_policy}
use webauthn.Ceremony.{
  timeout_state, validate_user_verification, or_default, default_challenge_ttl,
  default_browser_timeout,
}
use webauthn.Ceremony.Timeout.{timeout_state_sound}
use webauthn.Challenge.{ReadFull, choose_challenge}
use webauthn.Extension.{Values}
use webauthn.Authentication.{AuthenticationState}
use webauthn.Authentication.Start.{
  AuthenticationStartOptions, wanted_verification, configured, check_start, start_extensions,
  start_authentication, request_of, authentication_state_of,
}

module _ (v : Values) (g : Platform) (o : AuthenticationStartOptions v) where
  -- The browser and the server are told the same, and what the server keeps was checked.
  pub record IsStarted (random : ReadFull) (cancelled : Option Error)
      (request : RequestOptions v.Input) (s : AuthenticationState v) : Type 0 where
    pub chosen :
        choose_challenge random cancelled o.challenge o.challenge_generator ≡ ok s.challenge
    pub challenge : (request.challenge ≡ s.challenge) × (1 ≤ len s.challenge)
    pub rp : (request.rp_id ≡ s.rp_id) × (s.rp_id ≡ o.rp_id) × (is_empty s.rp_id ≡ false)
    pub origins :
        (s.origin_policy ≡ o.origin_policy)
        × (validate_origin_policy g s.origin_policy ≡ ok tt)
        × (validate_rp_id_origin_policy g s.rp_id s.origin_policy ≡ ok tt)
    pub verification :
        (request.user_verification ≡ s.requested_user_verification)
        × (s.requested_user_verification ≡ wanted_verification v o.user_verification)
        × (validate_user_verification s.requested_user_verification ≡ ok tt)
    pub credentials :
        (request.allow_credentials ≡ s.allow_credentials)
        × (s.allow_credentials ≡ o.allow_credentials)
        × (s.expected_user_handle ≡ o.expected_user_handle)
    pub extensions :
        start_extensions v g o s.challenge
        ≡ ok (request.extensions, s.requested_extensions, s.extension_bindings)
    pub hint : (1 ≤ request.timeout_milliseconds) × (request.timeout_milliseconds < 2 ^ 32)
    pub expiry : s.expires_at ≡ o.now +ℤ or_default o.state_ttl default_challenge_ttl
    pub outlives :
        or_default o.timeout default_browser_timeout ≤ℤ or_default o.state_ttl default_challenge_ttl

  -- What the first checks leave.
  start_policies :
      check_start v g o ≡ ok tt
      → (is_empty o.rp_id ≡ false)
        × (validate_origin_policy g o.origin_policy ≡ ok tt)
        × (validate_rp_id_origin_policy g o.rp_id o.origin_policy ≡ ok tt)
  unfolding check_start
  start_policies h = (ground arith, ground arith, ground arith)

  request_challenge :
      (request : RequestOptions v.Input)
      → validate_request_options request ≡ ok tt
      → 1 ≤ len request.challenge
  unfolding validate_request_options
  request_challenge request h = ground arith

  moved :
      (random : ReadFull) (cancelled : Option Error) {q q' : RequestOptions v.Input}
      {s s' : AuthenticationState v}
      → q ≡ q'
      → s ≡ s'
      → IsStarted random cancelled q s
      → IsStarted random cancelled q' s'
  moved random cancelled same_request same_state started =
      rw (sym same_request, sym same_state) started

  -- A started authentication tells the browser and the server the same challenge, RP id, user
  -- verification and credentials; the challenge is the chosen one and is not empty, the policies are
  -- valid, the extensions and bindings are those that the preparation made, and the state expires
  -- after its lifetime, which is not shorter than the browser's hint.
  pub start_authentication_sound :
      (random : ReadFull) (cancelled : Option Error) {request : RequestOptions v.Input}
      {s : AuthenticationState v}
      → start_authentication v g random cancelled o ≡ ok (request, s)
      → IsStarted random cancelled request s
  unfolding start_authentication
  start_authentication_sound random cancelled {request} {s} h =
      let (_, checked, h1) = >>=-eq-ok (check_start v g o) _ h in
      let (challenge, chosen, h2) =
        >>=-eq-ok (choose_challenge random cancelled o.challenge o.challenge_generator) _ h1 in
      let (_, known, h3) =
        >>=-eq-ok
          (configured v (validate_user_verification (wanted_verification v o.user_verification))) _
          h2 in
      let ((for_options, for_state, bindings), extensions, h4) =
        >>=-eq-ok (start_extensions v g o challenge) _ h3 in
      let ((ms, expires), limits, h5) =
        >>=-eq-ok (configured v (timeout_state o.timeout o.state_ttl o.now)) _ h4 in
      let (_, valid, h6) =
        >>=-eq-ok
          (configured v (validate_request_options (request_of v o challenge ms for_options))) _
          h5 in
      let (rp, origins, scoped) = start_policies checked in
      let (ms_pos, ms_max, _, expiry, outlives, _, _, _) =
        timeout_state_sound o.timeout o.state_ttl o.now
          (wrapped-eq-ok (sentinel invalid_configuration) _ limits) in
      let request_eq : request_of v o challenge ms for_options ≡ request = ground (arith, h6) in
      let state_eq : authentication_state_of v o challenge expires for_state bindings ≡ s =
        ground (arith, h6) in
      moved random cancelled request_eq state_eq (record {
        chosen = chosen;
        challenge = (
          refl,
          request_challenge (request_of v o challenge ms for_options)
              (wrapped-eq-ok (sentinel invalid_configuration) _ valid),
        );
        rp = (refl, refl, rp);
        origins = (refl, origins, scoped);
        verification = (refl, refl, wrapped-eq-ok (sentinel invalid_configuration) _ known);
        credentials = (refl, refl, refl);
        extensions = extensions;
        hint = (ms_pos, ms_max);
        expiry = expiry;
        outlives = outlives;
      })
