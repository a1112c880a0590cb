-- ===== src/Tests/Credentials.antt =====
-- Conditional updates of a stored record.
use webauthn.Prelude.{ℕ, ◌≡◌, refl, inl, arith, true, false, [], ◌∷◌, bytes, bytes_eq, contains}
use webauthn.Errors.{ok, err, sentinel, credential_update_conflict}
use webauthn.Protocol.Types
use webauthn.Codec.Key
use webauthn.Attestation.Types as AttestationTypes
use webauthn.Credential
use webauthn.Credential.{CredentialRecord, CredentialUpdate, apply_to, validate_record}
use webauthn.Credential.Update.{IsCurrent, apply_to_sound, apply_to_once, apply_to_conflict}
use webauthn.Tests.Fixtures.{stored}

-- The counter goes from 3 to 4.
abbrev update : CredentialUpdate
update = record {
  id = bytes (9 ∷ 9 ∷ []);
  previous_sign_count = 3;
  previous_backup_state = false;
  previous_uv_initialized = false;
  previous_authenticator_attachment = [];
  sign_count = 4;
  sign_count_changed = true;
  backup_state = false;
  backup_state_changed = false;
  uv_initialized = false;
  uv_initialized_changed = false;
  authenticator_attachment = [];
  authenticator_attachment_changed = false;
}

abbrev moved : CredentialRecord
moved = record stored { sign_count = 4 }

stored_valid : validate_record stored ≡ ok tt
unfolding validate_record Types.validate_credential_type Types.known_credential_type bytes_eq
    Key.validate_key Types.validate_algorithm AttestationTypes.known_attestation_type contains
stored_valid = refl

applied : apply_to update stored ≡ ok moved
unfolding apply_to validate_record Credential.is_current Credential.next_record
    Types.validate_credential_type Types.known_credential_type bytes_eq Key.validate_key
    Types.validate_algorithm AttestationTypes.known_attestation_type contains
applied = refl

apply_to_sound_example :
    IsCurrent update stored
    × (validate_record stored ≡ ok tt)
    × (validate_record moved ≡ ok tt)
    × (moved ≡ record stored {
      sign_count = moved.sign_count;
      backup_state = moved.backup_state;
      uv_initialized = moved.uv_initialized;
      authenticator_attachment = moved.authenticator_attachment;
    })
apply_to_sound_example = apply_to_sound update stored applied

four_ne_three : ¬ (◌≡◌ {A = ℕ} 4 3)
four_ne_three h = omega arith

apply_to_once_example : apply_to update moved ≡ err (sentinel credential_update_conflict)
apply_to_once_example = apply_to_once update stored (inl (refl, four_ne_three)) applied

-- A record whose counter has moved on to 9.
abbrev ahead : CredentialRecord
ahead = record stored { sign_count = 9 }

ahead_valid : validate_record ahead ≡ ok tt
unfolding validate_record Types.validate_credential_type Types.known_credential_type bytes_eq
    Key.validate_key Types.validate_algorithm AttestationTypes.known_attestation_type contains
ahead_valid = refl

ahead-conflicts : ¬ (IsCurrent update ahead)
ahead-conflicts c = absurd (omega (arith, c.sign_count))

apply_to_conflict_example : apply_to update ahead ≡ err (sentinel credential_update_conflict)
apply_to_conflict_example = apply_to_conflict update ahead ahead_valid ahead-conflicts
