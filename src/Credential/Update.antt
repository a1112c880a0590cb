-- ===== src/Credential/Update.antt =====
-- Conditional updates of a stored credential.
use webauthn.Prelude.{◌≡◌, ◌≢◌, ◌⊎◌, inl, inr, arith, true, content, bytes_eq_iff, Bool-cases}
use webauthn.Errors.{ok, err, sentinel, credential_update_conflict}
use webauthn.Credential.{
  CredentialRecord, CredentialUpdate, validate_record, is_current, next_record, apply_to,
}

-- The values that the update was computed from are the record's.
pub record IsCurrent (u : CredentialUpdate) (r : CredentialRecord) : Type 0 where
  pub id : content r.id ≡ content u.id
  pub sign_count : r.sign_count ≡ u.previous_sign_count
  pub backup_state : r.backup_state ≡ u.previous_backup_state
  pub uv_initialized : r.uv_initialized ≡ u.previous_uv_initialized
  pub attachment : r.authenticator_attachment ≡ u.previous_authenticator_attachment

pub is_current→IsCurrent :
    (u : CredentialUpdate) (r : CredentialRecord) → is_current u r ≡ true → IsCurrent u r
unfolding is_current
is_current→IsCurrent u r h = record {
  id = ground (arith, bytes_eq_iff (content r.id) (content u.id));
  sign_count = ground arith;
  backup_state = ground arith;
  uv_initialized = ground arith;
  attachment =
      ground (arith, bytes_eq_iff r.authenticator_attachment u.previous_authenticator_attachment);
}

pub IsCurrent→is_current :
    (u : CredentialUpdate) (r : CredentialRecord) → IsCurrent u r → is_current u r ≡ true
unfolding is_current
IsCurrent→is_current u r c = ground (
  arith,
  bytes_eq_iff (content r.id) (content u.id),
  bytes_eq_iff r.authenticator_attachment u.previous_authenticator_attachment,
)

-- An update that is applied finds a valid record with the id and the previous values it was made
-- from, leaves a valid record, and changes none of the key, owner, RP id, id, type, GUID,
-- transports, backup eligibility and attestation type.
pub apply_to_sound :
    (u : CredentialUpdate) (r : CredentialRecord) {r' : CredentialRecord}
    → apply_to u r ≡ ok r'
    → IsCurrent u r
      × (validate_record r ≡ ok tt)
      × (validate_record r' ≡ ok tt)
      × (r' ≡ record r {
        sign_count = r'.sign_count;
        backup_state = r'.backup_state;
        uv_initialized = r'.uv_initialized;
        authenticator_attachment = r'.authenticator_attachment;
      })
unfolding apply_to next_record
apply_to_sound u r h =
    (is_current→IsCurrent u r (ground arith), ground arith, ground arith, ground arith)

-- A change that the update carries: a changed flag with a value other than the previous one.
abbrev pub Changes : CredentialUpdate → Type 0
Changes u =
    ((u.sign_count_changed ≡ true) × (u.sign_count ≢ u.previous_sign_count))
    ⊎ ((u.backup_state_changed ≡ true) × (u.backup_state ≢ u.previous_backup_state))
    ⊎ ((u.uv_initialized_changed ≡ true) × (u.uv_initialized ≢ u.previous_uv_initialized))
    ⊎ ((u.authenticator_attachment_changed ≡ true)
        × (u.authenticator_attachment ≢ u.previous_authenticator_attachment))

next_record-conflicts :
    (u : CredentialUpdate) (r : CredentialRecord) → Changes u → ¬ (IsCurrent u (next_record u r))
unfolding next_record
next_record-conflicts u r (inl (f, ne)) c = ne (ground (arith, c.sign_count))
next_record-conflicts u r (inr (inl (f, ne))) c = ne (ground (arith, c.backup_state))
next_record-conflicts u r (inr (inr (inl (f, ne)))) c = ne (ground (arith, c.uv_initialized))
next_record-conflicts u r (inr (inr (inr (f, ne)))) c = ne (ground (arith, c.attachment))

-- An update that changes something is applied at most once: on the record that it leaves, it is a
-- conflict.
pub apply_to_once :
    (u : CredentialUpdate) (r : CredentialRecord) {r' : CredentialRecord}
    → Changes u
    → apply_to u r ≡ ok r'
    → apply_to u r' ≡ err (sentinel credential_update_conflict)
unfolding apply_to
apply_to_once u r {r'} change h = elim (Bool-cases (is_current u r')) [
  | inl current ↦
      let moved : r' ≡ next_record u r = ground arith in
      absurd (next_record-conflicts u r change (rw moved at (is_current→IsCurrent u r' current)))
  | inr stale ↦ ground arith
]

-- A valid record that no longer has the previous values makes the update a conflict.
pub apply_to_conflict :
    (u : CredentialUpdate) (r : CredentialRecord)
    → validate_record r ≡ ok tt
    → ¬ (IsCurrent u r)
    → apply_to u r ≡ err (sentinel credential_update_conflict)
unfolding apply_to
apply_to_conflict u r valid moved = elim (Bool-cases (is_current u r)) [
  | inl current ↦ absurd (moved (is_current→IsCurrent u r current))
  | inr stale ↦ ground arith
]
