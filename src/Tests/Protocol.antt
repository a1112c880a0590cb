-- ===== src/Tests/Protocol.antt =====
-- Runs of the protocol values: authenticator data, client data, origins, time limits, keys.
use webauthn.Prelude.{
  ℕ, ◌^◌, ◌≤◌, ◌<◌, ◌≡◌, ◌↔◌, ◌⊎◌, ◌*◌, refl, arith, true, false, none, some, [], ◌∷◌, ◌++◌, Bytes,
  IsByte, All, bytes, ascii, take, drop, get_or, bytes_eq, contains, has_prefix,
}
use webauthn.Prelude.Int.{pos, ◌+ℤ◌, ◌≤ℤ◌}
use webauthn.Prelude.Base64
use webauthn.Errors.{ok, err, sentinel, origin_mismatch}
use webauthn.Protocol.AuthData
use webauthn.Protocol.AuthData.{ParsedAuthenticatorData, AttestedCredentialData}
use webauthn.Protocol.AuthData.Layout.{IsLaidOut, serialize, parse_sound}
use webauthn.Protocol.AuthData.RoundTrip.{parse-serialize}
use webauthn.Protocol.Types
use webauthn.Protocol.Types.{CollectedClientData, client_data_type_get, algorithm_es256}
use webauthn.Protocol.ClientData
use webauthn.Protocol.ClientData.{challenge_bytes_iff, HasMembers, parse_collected_sound}
use webauthn.Codec.Key.{u2f_public_key, new_credential_public_key_with_u2f, u2f_public_key-new}
use webauthn.Origin
use webauthn.Origin.{OriginPolicy}
use webauthn.Origin.Verify.{IsAccepted, verify_origin_iff, verify_origin_mismatch}
use webauthn.Ceremony
use webauthn.Ceremony.{or_default, milliseconds_of, default_browser_timeout, default_challenge_ttl}
use webauthn.Ceremony.Timeout.{timeout_state_sound}
use webauthn.Ceremony.ClientData.{IsGenuine, verify_client_data_sound}
use webauthn.Tests.Fixtures.{repeat, auth_data, digest, rp_id, platform, challenge, origin, policy}

-- Registration data: UP, BE and AT, a two-byte id and a three-byte key.
abbrev pub attested : AttestedCredentialData
attested = record {
  aaguid = repeat 16 0;
  credential_id = bytes (9 ∷ 9 ∷ []);
  credential_public_key_and_extensions = 1 ∷ 2 ∷ 3 ∷ [];
}

abbrev pub registered : ParsedAuthenticatorData
registered = record {
  raw = bytes [];
  rp_id_hash = repeat 32 1;
  flags = 0x49;
  sign_count = 300;
  attested = some attested;
  extension_data = [];
}

registered-IsLaidOut : IsLaidOut registered
unfolding AuthData.has_reserved AuthData.has_attested_credential_data
registered-IsLaidOut = record {
  hash_size = refl;
  no_reserved = refl;
  count_max = omega arith;
  follows = (
    refl,
    record {
      aaguid_size = refl;
      id = 9 ∷ 9 ∷ [];
      id_eq = refl;
      id_pos = omega arith;
      id_max = omega arith;
      key_pos = omega arith;
    },
    refl,
  );
}

parse-serialize_example :
    AuthData.parse_authenticator_data (bytes (serialize registered))
    ≡ ok (record registered { raw = bytes (serialize registered) })
parse-serialize_example = parse-serialize registered registered-IsLaidOut

abbrev assertion : ParsedAuthenticatorData
assertion = record {
  raw = bytes auth_data;
  rp_id_hash = digest rp_id;
  flags = 0x1d;
  sign_count = 4;
  attested = none;
  extension_data = [];
}

assertion_parses : AuthData.parse_authenticator_data (bytes auth_data) ≡ ok assertion
unfolding AuthData.parse_authenticator_data AuthData.has_reserved take drop get_or
    AuthData.has_attested_credential_data AuthData.has_extension_data
assertion_parses = refl

auth_data-IsByte : All IsByte auth_data
unfolding take
auth_data-IsByte = omega arith

parse_sound_example :
    IsLaidOut assertion × (serialize assertion ≡ auth_data) × (assertion.raw ≡ bytes auth_data)
parse_sound_example = parse_sound (bytes auth_data) auth_data-IsByte assertion_parses

-- Truncated, reserved and surplus bytes are refused.
refused :
    (AuthData.parse_authenticator_data (bytes (repeat 36 0)) ≡ err AuthData.malformed)
    × (AuthData.parse_authenticator_data (bytes (repeat 32 0 ++ (0x03 ∷ repeat 4 0)))
        ≡ err AuthData.malformed)
    × (AuthData.parse_authenticator_data (bytes (repeat 32 0 ++ (0x01 ∷ repeat 5 0)))
        ≡ err AuthData.malformed)
unfolding AuthData.parse_authenticator_data AuthData.has_reserved take drop get_or
    AuthData.has_attested_credential_data AuthData.has_extension_data
refused = (refl, refl, refl)

abbrev collected : CollectedClientData
collected = record {
  kind = client_data_type_get;
  challenge = ascii "BwcHBwcHBwcHBwcHBwcHBw";
  origin = origin;
  cross_origin = none;
  top_origin = [];
  raw = bytes (ascii "{}");
  top_origin_set = false;
}

challenge_bytes_iff_example :
    (ClientData.challenge_bytes collected ≡ ok challenge)
    ↔ (collected.challenge ≡ Base64.encode challenge)
challenge_bytes_iff_example = challenge_bytes_iff collected challenge (omega arith)

collected_parses :
    ClientData.parse_collected_client_data platform (bytes (ascii "{}")) ≡ ok collected
unfolding ClientData.parse_collected_client_data has_prefix
collected_parses = refl

parse_collected_sound_example : HasMembers platform (bytes (ascii "{}")) collected
parse_collected_sound_example = parse_collected_sound platform (bytes (ascii "{}")) collected_parses

client_data_verified :
    Ceremony.verify_client_data platform
      (bytes (ascii "{}"))
      client_data_type_get
      (bytes challenge)
      policy
    ≡ ok (digest (ascii "{}"))
unfolding Ceremony.verify_client_data ClientData.parse_collected_client_data has_prefix
    Types.validate_client_data_type ClientData.challenge_bytes Base64.decode Base64.encode
    Origin.verify_collected_client_origin contains bytes_eq
client_data_verified = refl

verify_client_data_sound_example :
    IsGenuine platform (bytes (ascii "{}")) client_data_type_get (bytes challenge) policy
    × (digest (ascii "{}") ≡ platform.sha256 (ascii "{}"))
verify_client_data_sound_example =
    verify_client_data_sound platform (bytes (ascii "{}")) client_data_type_get (bytes challenge)
      policy client_data_verified

verify_origin_iff_example :
    (Origin.verify_collected_client_origin policy collected ≡ ok tt) ↔ IsAccepted policy collected
verify_origin_iff_example = verify_origin_iff policy collected

-- Cross-origin data without a top origin, which the policy does not permit.
abbrev framed : CollectedClientData
framed = record collected { cross_origin = some true }

framed_not_accepted : ¬ (IsAccepted policy framed)
framed_not_accepted a = cc (a.no_top refl refl)

verify_origin_mismatch_example :
    Origin.verify_collected_client_origin policy framed ≡ err (sentinel origin_mismatch)
verify_origin_mismatch_example = verify_origin_mismatch policy framed framed_not_accepted

default_limits : Ceremony.timeout_state (pos 0) (pos 0) (pos 7) ≡ ok (300000, pos 600000000007)
unfolding Ceremony.timeout_state ◌+ℤ◌
default_limits = refl

timeout_state_sound_example :
    (1 ≤ 300000)
    × (300000 < 2 ^ 32)
    × (300000 ≡ milliseconds_of (or_default (pos 0) default_browser_timeout))
    × (pos 600000000007 ≡ pos 7 +ℤ or_default (pos 0) default_challenge_ttl)
    × (or_default (pos 0) default_browser_timeout ≤ℤ or_default (pos 0) default_challenge_ttl)
    × (pos 0 ≤ℤ pos 0)
    × (pos 0 ≤ℤ pos 0)
    × (◌≡◌ {A = ℕ} 300000 1 ⊎ (pos (300000 * 1000000) ≤ℤ or_default (pos 0) default_challenge_ttl))
timeout_state_sound_example = timeout_state_sound (pos 0) (pos 0) (pos 7) default_limits

abbrev u2f : Bytes
u2f = 4 ∷ repeat 64 1

u2f_public_key-new_example :
    u2f_public_key (new_credential_public_key_with_u2f algorithm_es256 [] u2f) ≡ u2f
unfolding get_or
u2f_public_key-new_example = u2f_public_key-new [] u2f refl refl
