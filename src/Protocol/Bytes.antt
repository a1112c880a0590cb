-- ===== src/Protocol/Bytes.antt =====
-- protocol/bytes.go: byte values with a checked length. Each Go type of the file is a struct around
-- a `byteValue`, so each is the slice in it here; a defensive copy of a value is the value.
use webauthn.Prelude.{
  ℕ, Bool, true, false, ◌&&◌, ◌||◌, String, Bytes, ByteSlice, nil, bytes, content, ◌++◌, length,
  ltb, bytes_eq, if◌then◌else◌,
}
use webauthn.Errors.{Result, ok, err, byte_length_error}

abbrev pub min_challenge_length : ℕ
min_challenge_length = 16

abbrev pub recommended_challenge_length : ℕ
recommended_challenge_length = 32

abbrev pub max_credential_id_length : ℕ
max_credential_id_length = 1023

abbrev pub max_user_handle_length : ℕ
max_user_handle_length = 64

abbrev pub min_authenticator_data_length : ℕ
min_authenticator_data_length = 37

-- `max_length` 0 means that there is no bound above.
unfoldable pub new_byte_value : String → ByteSlice → ℕ → ℕ → Result ByteSlice
new_byte_value field value min_length max_length =
    let n = length (content value) in
    if ltb n min_length || (ltb 0 max_length && ltb max_length n)
    then err (byte_length_error field n min_length max_length)
    else ok value

abbrev pub len : ByteSlice → ℕ
len v = length (content v)

abbrev pub is_nil : ByteSlice → Bool
is_nil nil = true
is_nil (bytes _) = false

-- `equalBytes`, behind `Equal`, `EqualBytes` and `EqualRawID`.
abbrev pub equal : ByteSlice → ByteSlice → Bool
equal a b = bytes_eq (content a) (content b)

abbrev pub append_to : ByteSlice → Bytes → Bytes
append_to v out = out ++ content v

abbrev pub Challenge : Type 0
Challenge = ByteSlice

abbrev pub CredentialId : Type 0
CredentialId = ByteSlice

abbrev pub UserHandle : Type 0
UserHandle = ByteSlice

abbrev pub RawId : Type 0
RawId = ByteSlice

abbrev pub AuthenticatorData : Type 0
AuthenticatorData = ByteSlice

abbrev pub ClientDataJson : Type 0
ClientDataJson = ByteSlice

abbrev pub AttestationObject : Type 0
AttestationObject = ByteSlice

abbrev pub Signature : Type 0
Signature = ByteSlice

unfoldable pub new_challenge : ByteSlice → Result Challenge
unfolding new_byte_value
new_challenge value = new_byte_value "challenge" value min_challenge_length 0

unfoldable pub new_credential_id : ByteSlice → Result CredentialId
unfolding new_byte_value
new_credential_id value = new_byte_value "credential id" value 1 max_credential_id_length

unfoldable pub new_user_handle : ByteSlice → Result UserHandle
unfolding new_byte_value
new_user_handle value = new_byte_value "user handle" value 1 max_user_handle_length

unfoldable pub new_raw_id : ByteSlice → Result RawId
unfolding new_byte_value
new_raw_id value = new_byte_value "raw id" value 1 max_credential_id_length

unfoldable pub new_authenticator_data : ByteSlice → Result AuthenticatorData
unfolding new_byte_value
new_authenticator_data value =
    new_byte_value "authenticator data" value min_authenticator_data_length 0

unfoldable pub new_client_data_json : ByteSlice → Result ClientDataJson
unfolding new_byte_value
new_client_data_json value = new_byte_value "client data json" value 1 0

unfoldable pub new_attestation_object : ByteSlice → Result AttestationObject
unfolding new_byte_value
new_attestation_object value = new_byte_value "attestation object" value 1 0

unfoldable pub new_signature : ByteSlice → Result Signature
unfolding new_byte_value
new_signature value = new_byte_value "signature" value 1 0
