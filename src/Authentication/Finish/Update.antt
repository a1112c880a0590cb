-- ===== src/Authentication/Finish/Update.antt =====
-- The update that `FinishAuthentication` returns, against the conditional update of a stored record.
use webauthn.Prelude.{
  ℕ, ◌≡◌, ◌≤◌, refl, arith, Bool, true, false, not, ◌&&◌, List, Bytes, is_empty, bytes_eq_iff, ◌⊎◌,
  if◌then◌else◌,
}
use webauthn.Errors.{ok}
use webauthn.Platform.{Platform}
use webauthn.Protocol.Types.{known_authenticator_attachment}
use webauthn.Protocol.AuthData.{ParsedAuthenticatorData, backup_state, user_verified}
use webauthn.Credential.{CredentialRecord, validate_record, is_current, next_record, apply_to}
use webauthn.Credential.Update.{IsCurrent→is_current}
use webauthn.Ceremony.{normalize_authenticator_attachment}
use webauthn.Extension.{Values}
use webauthn.ExtensionCheck.Outputs.{Context}
use webauthn.Authentication.{AuthenticationFinishOptions, AuthenticationResult}
use webauthn.Authentication.Counter.{next_sign_count, next_sign_count_grows}
use webauthn.Authentication.Checks.{validate_dependencies}
use webauthn.Authentication.Checks.Facts.{IsTrusted, verify_authenticator_data-IsTrusted}
use webauthn.Authentication.Finish.{
  authentication_result, next_credential, next_attachment, update_between, finish_authentication,
  check_request,
}
use webauthn.Authentication.Finish.Steps.{finish_authentication-Run}

-- Applying the update between two records that differ only in the mutable fields gives the second.
next_record-update_between :
    (v : Values) (c n : CredentialRecord)
    → n ≡ record c {
      sign_count = n.sign_count;
      backup_state = n.backup_state;
      uv_initialized = n.uv_initialized;
      authenticator_attachment = n.authenticator_attachment;
    }
    → next_record (update_between v c n) c ≡ n
unfolding next_record
next_record-update_between v c n same =
    ground (arith, bytes_eq_iff n.authenticator_attachment c.authenticator_attachment)

-- A next attachment is empty or known where the stored one is.
next_attachment-valid :
    (reported stored : Bytes)
    → (not (is_empty stored) && not (known_authenticator_attachment stored)) ≡ false
    → (not (is_empty (next_attachment reported stored))
        && not (known_authenticator_attachment (next_attachment reported stored)))
      ≡ false
unfolding normalize_authenticator_attachment
next_attachment-valid reported stored h = ground arith

-- The next attachment is the stored one, or the reported one if that is known.
next_attachment-either :
    (reported stored : Bytes)
    → (next_attachment reported stored ≡ stored)
      ⊎ ((next_attachment reported stored ≡ reported)
          × (known_authenticator_attachment reported ≡ true))
unfolding normalize_authenticator_attachment
next_attachment-either reported stored = ground arith

-- A valid record stays valid under a new counter, a UV flag, a backup state that the eligibility
-- allows, and a valid attachment.
validate_record-moved :
    (c : CredentialRecord) (count : ℕ) (backup uv : Bool) (attachment : Bytes)
    → validate_record c ≡ ok tt
    → (backup && not c.backup_eligible) ≡ false
    → ((not (is_empty c.authenticator_attachment)
            && not (known_authenticator_attachment c.authenticator_attachment))
          ≡ false
        → (not (is_empty attachment) && not (known_authenticator_attachment attachment)) ≡ false)
    → validate_record (record c {
      sign_count = count;
      backup_state = backup;
      uv_initialized = uv;
      authenticator_attachment = attachment;
    })
      ≡ ok tt
unfolding validate_record
validate_record-moved c count backup uv attachment valid allowed known = ground arith

module _ (v : Values) (g : Platform) (ctx : Context) (o : AuthenticationFinishOptions v) where
  stored_valid : check_request v g o ≡ ok tt → validate_record o.credential ≡ ok tt
  unfolding check_request validate_dependencies
  stored_valid h = ground arith

  backup_allowed :
      {p : ParsedAuthenticatorData}
      → IsTrusted v g o.state o.response o.credential o.extension_policy p
      → (backup_state p.flags && not o.credential.backup_eligible) ≡ false
  backup_allowed t = ground (arith, t.backup, t.eligibility)

  next-valid :
      {r : AuthenticationResult v}
      → finish_authentication v g ctx o ≡ ok r
      → validate_record r.credential ≡ ok tt
  unfolding authentication_result
  next-valid h =
      let run = finish_authentication-Run v g ctx o h in
      let c = o.credential in
      rw run.result (
        validate_record-moved c
          (next_sign_count o.counter_policy c.sign_count run.parsed.sign_count)
          (backup_state run.parsed.flags)
          (if not c.uv_initialized
              && user_verified run.parsed.flags
              && o.uv_initialization_authorized
            then true
            else c.uv_initialized)
          (next_attachment o.response.authenticator_attachment c.authenticator_attachment)
          (stored_valid run.request)
          (backup_allowed (
            verify_authenticator_data-IsTrusted v g o.state o.response c o.extension_policy
              run.parsed run.auth_data))
          (next_attachment-valid o.response.authenticator_attachment c.authenticator_attachment))

  -- The update carries the previous values of the credential that was verified.
  update-IsCurrent :
      (p : ParsedAuthenticatorData) (outcomes : List v.Outcome)
      → is_current (authentication_result v o p outcomes).update o.credential ≡ true
  unfolding authentication_result
  update-IsCurrent p outcomes = IsCurrent→is_current _ o.credential (record {
    id = refl;
    sign_count = refl;
    backup_state = refl;
    uv_initialized = refl;
    attachment = refl;
  })

  update-next :
      (p : ParsedAuthenticatorData) (outcomes : List v.Outcome)
      → next_record (authentication_result v o p outcomes).update o.credential
        ≡ (authentication_result v o p outcomes).credential
  unfolding authentication_result
  update-next p outcomes = next_record-update_between v o.credential (next_credential v o p) refl

  -- The update that an accepted assertion returns applies to the credential that was verified, and
  -- gives the credential of the result.
  pub finish_authentication-apply_to :
      {r : AuthenticationResult v}
      → finish_authentication v g ctx o ≡ ok r
      → apply_to r.update o.credential ≡ ok r.credential
  unfolding apply_to
  finish_authentication-apply_to {r} h =
      let run = finish_authentication-Run v g ctx o h in
      let valid = next-valid h in
      let current : is_current r.update o.credential ≡ true =
        rw run.result (update-IsCurrent run.parsed run.outcomes) in
      let moved : next_record r.update o.credential ≡ r.credential =
        rw run.result (update-next run.parsed run.outcomes) in
      ground (arith, stored_valid run.request, current, moved, valid)

  -- An accepted assertion never clears the UV flag of the credential, and sets it only when the user
  -- was verified and the caller authorised it. Unless the policy updates on a clone risk, the stored
  -- counter does not fall. The attachment stays, or becomes the one that the response reports, which
  -- is then a known one. Beside these and the backup state every field stays.
  pub finish_authentication_monotone :
      {r : AuthenticationResult v}
      → finish_authentication v g ctx o ≡ ok r
      → (o.credential.uv_initialized ≡ true → r.credential.uv_initialized ≡ true)
        × (r.credential.uv_initialized ≡ true
            → (o.credential.uv_initialized ≡ true)
              ⊎ ((r.user_verified ≡ true) × (o.uv_initialization_authorized ≡ true)))
        × (o.counter_policy.update_on_clone_risk ≡ false
            → o.credential.sign_count ≤ r.credential.sign_count)
        × ((r.credential.authenticator_attachment ≡ o.credential.authenticator_attachment)
            ⊎ ((r.credential.authenticator_attachment ≡ o.response.authenticator_attachment)
                × (known_authenticator_attachment o.response.authenticator_attachment ≡ true)))
        × (r.credential ≡ record o.credential {
          sign_count = r.credential.sign_count;
          backup_state = r.credential.backup_state;
          uv_initialized = r.credential.uv_initialized;
          authenticator_attachment = r.credential.authenticator_attachment;
        })
  unfolding authentication_result
  finish_authentication_monotone {r} h =
      let run = finish_authentication-Run v g ctx o h in
      rw run.result (
        (λ e. ground arith),
        (λ e. ground arith),
        (λ e.
            (next_sign_count_grows o.counter_policy o.credential.sign_count run.parsed.sign_count
              e).0),
        next_attachment-either o.response.authenticator_attachment
            o.credential.authenticator_attachment,
        refl,
      )
