-- ===== src/Tests/Fixtures.antt =====
-- A concrete platform, concrete extension values, and the parts of a ceremony on example.com.
use webauthn.Prelude.{
  ℕ, zero, suc, true, false, Option, none, some, [], ◌∷◌, ◌++◌, Bytes, bytes, nil, ascii, take,
  if◌then◌else◌, bytes_eq, is_empty,
}
use webauthn.Prelude.Int.{pos}
use webauthn.Errors.{ok, err, message}
use webauthn.Platform.{Platform, Url, DecodedClientData}
use webauthn.Protocol.Types.{
  credential_type_public_key, algorithm_es256, client_data_type_get, user_verification_required,
}
use webauthn.Codec.Key.{CredentialPublicKey}
use webauthn.Credential.{CredentialRecord}
use webauthn.Origin.{OriginPolicy}
use webauthn.Extension.{Values}
use webauthn.ExtensionCheck.Outputs.{Context}
use webauthn.Authentication.{
  AuthenticationState, AuthenticationResponse, AuthenticationFinishOptions, unset,
}

abbrev pub repeat : ℕ → ℕ → Bytes
repeat zero b = []
repeat (suc n) b = b ∷ repeat n b

abbrev pub rp_id : Bytes
rp_id = ascii "example.com"

abbrev pub origin : Bytes
origin = ascii "https://example.com"

abbrev pub challenge : Bytes
challenge = repeat 16 7

abbrev example_url : Url
example_url = record {
  scheme = ascii "https";
  opaque = [];
  has_user = false;
  host = rp_id;
  path = [];
  raw_query = [];
  fragment = [];
  hostname = rp_id;
  text = origin;
}

abbrev pub client_data : DecodedClientData
client_data = record {
  kind = client_data_type_get;
  challenge = ascii "BwcHBwcHBwcHBwcHBwcHBw";
  origin = origin;
  cross_origin = none;
  top_origin = none;
}

-- A stand-in for SHA-256: 32 bytes that begin as the text does.
abbrev pub digest : Bytes → Bytes
digest b = take 32 (b ++ repeat 32 0)

abbrev pub platform : Platform
platform = record {
  to_lower = λ b. b;
  trim_space = λ b. b;
  parse_url = λ b. if bytes_eq b origin then some example_url else none;
  parse_ip = λ b. none;
  sha256 = digest;
  unmarshal_client_data = λ b. if is_empty b then none else some client_data;
  unmarshal_bool = λ b. none;
  unmarshal_string = λ b. none;
}

-- Values that are bytes.
abbrev pub values : Values
values = record {
  Input = Bytes;
  Value = Option Bytes;
  Output = Bytes;
  Outcome = Bytes;
  clone_input = λ b. ok b;
  raw_input = λ b. ok (some b);
  raw_output = λ b. ok (some b);
  absent = none;
  present = λ v. elim v [ none ↦ false | some _ ↦ true ];
  as_bool = λ v. elim v [ none ↦ false | some b ↦ bytes_eq b (ascii "true") ];
  as_string = λ b. some b;
  normalize = λ v. elim v [ none ↦ err (message "absent") | some b ↦ ok b ];
  prf_input_with_credentials = λ b ids. ok b;
  large_blob_write = λ v. ok false;
  remote_client_data = λ op v. elim v [ none ↦ err (message "absent") | some b ↦ ok b ];
  preserve_raw = λ id requested input client authenticator warning. ok id;
  with_revision = λ revision outcome. outcome;
}

abbrev pub context : Context
context = λ poll. none

abbrev pub public_key : CredentialPublicKey
public_key = record {
  algorithm = algorithm_es256;
  raw = 1 ∷ 2 ∷ 3 ∷ [];
  material = record { ec2 = none; rsa = none; okp = none };
}

abbrev pub stored : CredentialRecord
stored = record {
  kind = credential_type_public_key;
  id = bytes (9 ∷ 9 ∷ []);
  public_key = public_key;
  user_handle = bytes (5 ∷ []);
  rp_id = rp_id;
  aaguid = repeat 16 0;
  sign_count = 3;
  transports = [];
  backup_eligible = true;
  backup_state = false;
  uv_initialized = false;
  authenticator_attachment = [];
  attestation_type = ascii "none";
}

abbrev pub policy : OriginPolicy
policy = record {
  allowed_origins = origin ∷ [];
  allowed_top_origins = [];
  allow_cross_origin_without_top_origin = false;
  allow_related_origins = false;
}

abbrev pub state : AuthenticationState values
state = record {
  challenge = bytes challenge;
  rp_id = rp_id;
  origin_policy = policy;
  requested_user_verification = user_verification_required;
  requested_extensions = [];
  extension_bindings = [];
  allow_credentials = [];
  expected_user_handle = nil;
  expires_at = pos 1000;
}

-- UP, UV, BE and BS, and a counter of 4.
abbrev pub auth_data : Bytes
auth_data = digest rp_id ++ (0x1d ∷ (0 ∷ 0 ∷ 0 ∷ 4 ∷ []))

abbrev pub response : AuthenticationResponse values
response = record {
  kind = credential_type_public_key;
  raw_id = bytes (9 ∷ 9 ∷ []);
  client_data_json = bytes (ascii "{}");
  authenticator_data = bytes auth_data;
  signature = bytes (1 ∷ []);
  user_handle = bytes (5 ∷ []);
  authenticator_attachment = ascii "platform";
  client_extension_results = [];
}

abbrev pub options : AuthenticationFinishOptions values
options = record {
  state = state;
  response = response;
  credential = stored;
  extension_map_decoder = none;
  signature_verifier = some (λ input. ok tt);
  algorithm_policy = unset;
  extension_registry = none;
  extension_policy = record { reject_unrequested = true; reject_unknown = true; app_id = [] };
  counter_policy = record { reject_clone_risk = true; update_on_clone_risk = false };
  uv_initialization_authorized = true;
  now = pos 10;
}
