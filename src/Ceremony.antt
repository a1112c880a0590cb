-- ===== src/Ceremony.antt =====
-- ceremony.go: what both ceremonies share, their time limits, parameters and client data.
pub mod Timeout
pub mod Parameters
pub mod ClientData
use webauthn.Prelude.{
  ℕ, ◌+◌, ◌*◌, ◌/◌, ◌%◌, ◌^◌, Bool, true, false, not, ◌&&◌, Option, none, some, List, [], ◌∷◌,
  Bytes, content, is_empty, bytes_eq, ltb, ◌==◌, map, if◌then◌else◌,
}
use webauthn.Prelude.Int.{ℤ, pos, pos_part, ltb_ℤ, eq_ℤ, ◌+ℤ◌}
use webauthn.Errors.{
  Result, ok, err, ◌>>=◌, ◌>>◌, refuse_if, each, wrapped, message, value_error, sentinel,
  malformed_response, challenge_mismatch,
}
use webauthn.Platform.{Platform}
use webauthn.Protocol.Bytes.{Challenge, ClientDataJson}
use webauthn.Protocol.Types.{
  AuthenticatorSelection, CredentialParameter, CredentialDescriptor, CoseAlgorithm,
  user_verification_preferred, known_user_verification, credential_type_public_key, algorithm_es256,
  algorithm_rs256, validate_parameter, known_authenticator_attachment, validate_client_data_type,
}
use webauthn.Protocol.ClientData.{parse_collected_client_data, challenge_bytes}
use webauthn.Origin.{OriginPolicy, verify_collected_client_origin}

-- Durations and instants are int64 nanoseconds; an instant counts from Go's zero time.
abbrev pub Duration : Type 0
Duration = ℤ

abbrev pub Time : Type 0
Time = ℤ

abbrev pub default_browser_timeout : Duration
default_browser_timeout = pos 300000000000

abbrev pub default_challenge_ttl : Duration
default_challenge_ttl = pos 600000000000

unfoldable pub registration_user_verification : Option AuthenticatorSelection → Bytes
registration_user_verification none = user_verification_preferred
registration_user_verification (some selection) =
    if not (is_empty selection.user_verification)
    then selection.user_verification
    else user_verification_preferred

unfoldable pub validate_user_verification : Bytes → Result (Unit {0})
validate_user_verification value =
    refuse_if (not (known_user_verification value)) (value_error "user verification" value)

abbrev pub algorithms_from_parameters : List CredentialParameter → List CoseAlgorithm
algorithms_from_parameters = map (λ p. p.algorithm)

abbrev pub or_default : Duration → Duration → Duration
or_default d default = if eq_ℤ d (pos 0) then default else d

-- `timeout.Milliseconds()` of a duration that is not negative, 1 if that is 0.
abbrev pub milliseconds_of : Duration → ℕ
milliseconds_of timeout = let ms = pos_part timeout / 1000000 in if ms == 0 then 1 else ms

unfoldable pub timeout_state : Duration → Duration → Time → Result (ℕ × Time)
timeout_state timeout state_ttl now = do
  refuse_if (ltb_ℤ timeout (pos 0)) (message "timeout must not be negative")
  refuse_if (ltb_ℤ state_ttl (pos 0)) (message "state ttl must not be negative")
  let hint = or_default timeout default_browser_timeout
  let ttl = or_default state_ttl default_challenge_ttl
  refuse_if (ltb_ℤ ttl hint) (message "state ttl must not be shorter than timeout")
  let milliseconds = milliseconds_of hint
  refuse_if (ltb 4294967295 milliseconds) (message "timeout exceeds uint32 milliseconds")
  ok (milliseconds % 2 ^ 32, now +ℤ ttl)

abbrev pub public_key_parameter : CoseAlgorithm → CredentialParameter
public_key_parameter a = record { kind = credential_type_public_key; algorithm = a }

-- The parameters of the supported type, in order.
unfoldable pub supported_parameters : List CredentialParameter → List CredentialParameter
supported_parameters [] = []
supported_parameters (p ∷ ps) =
    let rest = supported_parameters ps in
    if not (bytes_eq p.kind credential_type_public_key) then rest else p ∷ rest

unfoldable pub registration_credential_parameters :
    List CredentialParameter → Result (List CredentialParameter)
unfolding supported_parameters
registration_credential_parameters [] =
    ok (public_key_parameter algorithm_es256 ∷ public_key_parameter algorithm_rs256 ∷ [])
registration_credential_parameters (p ∷ ps) = do
  each validate_parameter (p ∷ ps)
  let out = supported_parameters (p ∷ ps)
  refuse_if (is_empty out) (message "no supported public key credential parameters")
  ok out

unfoldable pub normalize_authenticator_attachment : Bytes → Bytes
normalize_authenticator_attachment value =
    if known_authenticator_attachment value then value else []

module _ (g : Platform) where
  unfoldable pub verify_client_data :
      ClientDataJson → Bytes → Challenge → OriginPolicy → Result Bytes
  verify_client_data raw expected_type challenge policy = do
    let outer = sentinel malformed_response
    d ← wrapped outer (parse_collected_client_data g raw)
    wrapped outer (validate_client_data_type d expected_type)
    received ← wrapped outer (challenge_bytes d)
    refuse_if (not (bytes_eq (content challenge) received)) (sentinel challenge_mismatch)
    verify_collected_client_origin policy d
    ok (g.sha256 (content raw))
