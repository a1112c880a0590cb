-- ===== src/Protocol/Types.antt =====
-- protocol/types.go: the DOMString values and the dictionaries of the protocol. A Go string type is
-- the bytes of the string; a nil pointer to a dictionary is `none`.
use webauthn.Prelude.{
  Bool, not, ◌&&◌, ◌||◌, Option, none, some, List, [], ◌∷◌, String, Bytes, ascii, contains,
  bytes_eq, is_empty, ◌==◌,
}
use webauthn.Prelude.Int.{ℤ, pos, negsuc, ltb_ℤ}
use webauthn.Errors.{Result, ok, ◌>>◌, refuse_if, message, value_error, int_value_error}
use webauthn.Protocol.Bytes.{CredentialId, UserHandle, ClientDataJson, len}

abbrev pub credential_type_public_key : Bytes
credential_type_public_key = ascii "public-key"

unfoldable pub known_credential_type : Bytes → Bool
known_credential_type t = bytes_eq t credential_type_public_key

unfoldable pub validate_credential_type : Bytes → Result (Unit {0})
validate_credential_type t =
    refuse_if (not (known_credential_type t)) (value_error "credential type" t)

unfoldable pub known_transport : Bytes → Bool
known_transport = contains (
    ascii "usb"
    ∷ ascii "nfc"
    ∷ ascii "ble"
    ∷ ascii "smart-card"
    ∷ ascii "hybrid"
    ∷ ascii "internal"
    ∷ [])

unfoldable pub known_hint : Bytes → Bool
known_hint = contains (ascii "security-key" ∷ ascii "client-device" ∷ ascii "hybrid" ∷ [])

abbrev pub attestation_none : Bytes
attestation_none = ascii "none"

unfoldable pub known_attestation_conveyance : Bytes → Bool
known_attestation_conveyance =
    contains (attestation_none ∷ ascii "indirect" ∷ ascii "direct" ∷ ascii "enterprise" ∷ [])

abbrev pub user_verification_required : Bytes
user_verification_required = ascii "required"

abbrev pub user_verification_preferred : Bytes
user_verification_preferred = ascii "preferred"

abbrev pub user_verification_discouraged : Bytes
user_verification_discouraged = ascii "discouraged"

unfoldable pub known_user_verification : Bytes → Bool
known_user_verification =
    contains (
      user_verification_required ∷ user_verification_preferred ∷ user_verification_discouraged ∷ [])

unfoldable pub known_authenticator_attachment : Bytes → Bool
known_authenticator_attachment = contains (ascii "platform" ∷ ascii "cross-platform" ∷ [])

unfoldable pub known_resident_key : Bytes → Bool
known_resident_key = contains (ascii "discouraged" ∷ ascii "preferred" ∷ ascii "required" ∷ [])

-- COSE algorithm identifiers are int64 values.
abbrev pub CoseAlgorithm : Type 0
CoseAlgorithm = ℤ

abbrev pub algorithm_eddsa : CoseAlgorithm
algorithm_eddsa = negsuc 7

abbrev pub algorithm_es256 : CoseAlgorithm
algorithm_es256 = negsuc 6

abbrev pub algorithm_rs256 : CoseAlgorithm
algorithm_rs256 = negsuc 256

-- -2^31 and 2^31 - 1.
abbrev pub min_cose_algorithm : CoseAlgorithm
min_cose_algorithm = negsuc 2147483647

abbrev pub max_cose_algorithm : CoseAlgorithm
max_cose_algorithm = pos 2147483647

unfoldable pub validate_algorithm : CoseAlgorithm → Result (Unit {0})
validate_algorithm a =
    refuse_if (ltb_ℤ a min_cose_algorithm || ltb_ℤ max_cose_algorithm a)
      (int_value_error "COSE algorithm" a)

pub record CredentialParameter : Type 0 where
  pub kind : Bytes
  pub algorithm : CoseAlgorithm

abbrev pub recommended_level3_credential_parameters : List CredentialParameter
recommended_level3_credential_parameters =
    record { kind = credential_type_public_key; algorithm = algorithm_eddsa }
    ∷ record { kind = credential_type_public_key; algorithm = algorithm_es256 }
    ∷ record { kind = credential_type_public_key; algorithm = algorithm_rs256 }
    ∷ []

unfoldable pub validate_parameter : CredentialParameter → Result (Unit {0})
validate_parameter p = do
  refuse_if (is_empty p.kind) (value_error "credential type" [])
  validate_algorithm p.algorithm

pub record RpEntity : Type 0 where
  pub id : Bytes
  pub name : Bytes

unfoldable pub validate_rp : RpEntity → Result (Unit {0})
validate_rp e = do
  refuse_if (is_empty e.id) (message "rp id is required")
  refuse_if (is_empty e.name) (message "rp name is required")

pub record UserEntity : Type 0 where
  pub id : UserHandle
  pub name : Bytes
  pub display_name : Bytes

unfoldable pub validate_user : UserEntity → Result (Unit {0})
validate_user e = do
  refuse_if (len e.id == 0) (message "user id is required")
  refuse_if (is_empty e.name) (message "user name is required")

pub record CredentialDescriptor : Type 0 where
  pub kind : Bytes
  pub id : CredentialId
  pub transports : List Bytes

unfoldable pub validate_descriptor : CredentialDescriptor → Result (Unit {0})
validate_descriptor d = do
  validate_credential_type d.kind
  refuse_if (len d.id == 0) (message "credential id is required")

pub record AuthenticatorSelection : Type 0 where
  pub authenticator_attachment : Bytes
  pub resident_key : Bytes
  pub require_resident_key : Bool
  pub user_verification : Bytes

abbrev selection_field : String → Bytes → Bool → Result (Unit {0})
selection_field name value known =
    refuse_if (not (is_empty value) && not known) (value_error name value)

unfoldable pub validate_selection : Option AuthenticatorSelection → Result (Unit {0})
validate_selection none = ok tt
validate_selection (some c) = do
  selection_field "authenticatorAttachment" c.authenticator_attachment
      (known_authenticator_attachment c.authenticator_attachment)
  selection_field "residentKey" c.resident_key (known_resident_key c.resident_key)
  selection_field "userVerification" c.user_verification
      (known_user_verification c.user_verification)

abbrev pub client_data_type_create : Bytes
client_data_type_create = ascii "webauthn.create"

abbrev pub client_data_type_get : Bytes
client_data_type_get = ascii "webauthn.get"

-- `CollectedClientData`. The reserved token binding, which no verification reads, is left out.
pub record CollectedClientData : Type 0 where
  pub kind : Bytes
  pub challenge : Bytes
  pub origin : Bytes
  pub cross_origin : Option Bool
  pub top_origin : Bytes
  pub raw : ClientDataJson
  pub top_origin_set : Bool

unfoldable pub validate_client_data_type : CollectedClientData → Bytes → Result (Unit {0})
validate_client_data_type d expected =
    refuse_if (not (bytes_eq d.kind expected)) (value_error "client data type" d.kind)
