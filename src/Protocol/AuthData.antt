-- ===== src/Protocol/AuthData.antt =====
-- protocol/authenticator_data.go: the flags and the layout of authenticator data.
pub mod Layout
pub mod RoundTrip
use webauthn.Prelude.{
  ℕ, ◌+◌, Bool, not, ◌&&◌, ◌||◌, Option, none, some, Bytes, bytes, content, length, get_or, take,
  drop, slice, ltb, ◌==◌, if◌then◌else◌, is_empty, bit_and, be_uint16, be_uint32, [],
}
use webauthn.Errors.{
  Result, ok, err, ◌>>=◌, ◌>>◌, refuse_if, sentinel, malformed_authenticator_data, Error,
}
use webauthn.Protocol.Bytes.{
  AuthenticatorData, CredentialId, new_credential_id, min_authenticator_data_length,
}

abbrev pub aaguid_length : ℕ
aaguid_length = 16

abbrev pub rp_id_hash_length : ℕ
rp_id_hash_length = 32

-- `byte(f)&mask != 0`.
abbrev pub has_bit : ℕ → ℕ → Bool
has_bit f mask = not (bit_and f mask == 0)

-- A value of Go's `AuthenticatorFlags` is a byte.
unfoldable pub user_present : ℕ → Bool
user_present f = has_bit f 0x01

unfoldable pub user_verified : ℕ → Bool
user_verified f = has_bit f 0x04

unfoldable pub backup_eligible : ℕ → Bool
backup_eligible f = has_bit f 0x08

unfoldable pub backup_state : ℕ → Bool
backup_state f = has_bit f 0x10

unfoldable pub has_attested_credential_data : ℕ → Bool
has_attested_credential_data f = has_bit f 0x40

unfoldable pub has_extension_data : ℕ → Bool
has_extension_data f = has_bit f 0x80

-- `byte(parsed.Flags)&authDataRFUMask != 0`.
unfoldable pub has_reserved : ℕ → Bool
has_reserved f = has_bit f 0x22

pub record AttestedCredentialData : Type 0 where
  pub aaguid : Bytes
  pub credential_id : CredentialId
  pub credential_public_key_and_extensions : Bytes

pub record ParsedAuthenticatorData : Type 0 where
  pub raw : AuthenticatorData
  pub rp_id_hash : Bytes
  pub flags : ℕ
  pub sign_count : ℕ
  pub attested : Option AttestedCredentialData
  pub extension_data : Bytes

abbrev pub malformed : Error
malformed = sentinel malformed_authenticator_data

-- The end of the credential id in attested credential data.
abbrev pub credential_id_end : Bytes → ℕ
credential_id_end d = aaguid_length + 2 + be_uint16 d aaguid_length

unfoldable pub parse_attested_credential_data : Bytes → Result AttestedCredentialData
parse_attested_credential_data d = do
  refuse_if (ltb (length d) (aaguid_length + 2)) malformed
  let stop = credential_id_end d
  refuse_if (be_uint16 d aaguid_length == 0 || ltb (length d) stop) malformed
  refuse_if (length d == stop) malformed
  id ← new_credential_id (bytes (slice (aaguid_length + 2) stop d))
  ok (record {
    aaguid = take aaguid_length d;
    credential_id = id;
    credential_public_key_and_extensions = drop stop d;
  })

abbrev pub header_of : AuthenticatorData → ParsedAuthenticatorData
header_of raw =
    let b = content raw in
    record {
      raw = raw;
      rp_id_hash = take rp_id_hash_length b;
      flags = get_or b rp_id_hash_length 0;
      sign_count = be_uint32 b (rp_id_hash_length + 1);
      attested = none;
      extension_data = [];
    }

-- What follows the header, by the AT and the ED flag.
unfoldable pub parse_rest : ParsedAuthenticatorData → Bytes → Result ParsedAuthenticatorData
parse_rest parsed rest =
    if not (has_attested_credential_data parsed.flags)
    then if has_extension_data parsed.flags && is_empty rest
      then err malformed
      else if has_extension_data parsed.flags
      then ok (record parsed { extension_data = rest })
      else if not (is_empty rest)
      then err malformed
      else ok parsed
    else do
      attested ← parse_attested_credential_data rest
      ok (record parsed { attested = some attested })

unfoldable pub parse_authenticator_data : AuthenticatorData → Result ParsedAuthenticatorData
unfolding parse_rest
parse_authenticator_data raw =
    if ltb (length (content raw)) min_authenticator_data_length
    then err malformed
    else if has_reserved (header_of raw).flags
    then err malformed
    else parse_rest (header_of raw) (drop min_authenticator_data_length (content raw))
