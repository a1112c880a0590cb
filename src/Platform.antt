-- ===== src/Platform.antt =====
-- What the program takes from outside: Go's standard library where it computes by Unicode tables,
-- address parsers, JSON or SHA-256, as an interface that the modelled code is generic in. No law of
-- it is assumed here; a theorem that needs one states it.
use webauthn.Prelude.{Bool, Option, Bytes}

-- `*url.URL` with its methods `Hostname` and `String`.
pub record Url : Type 0 where
  pub scheme : Bytes
  pub opaque : Bytes
  pub has_user : Bool
  pub host : Bytes
  pub path : Bytes
  pub raw_query : Bytes
  pub fragment : Bytes
  pub hostname : Bytes
  pub text : Bytes

-- `net.IP` with its methods `String` and `IsLoopback`.
pub record Address : Type 0 where
  pub text : Bytes
  pub is_loopback : Bool

-- What `json.Unmarshal` makes of client data. The members that stay raw are `none` when absent.
pub record DecodedClientData : Type 0 where
  pub kind : Bytes
  pub challenge : Bytes
  pub origin : Bytes
  pub cross_origin : Option Bytes
  pub top_origin : Option Bytes

pub record Platform : Type 0 where
  -- `strings.ToLower`, `strings.TrimSpace` and `bytes.TrimSpace`.
  pub to_lower : Bytes → Bytes
  pub trim_space : Bytes → Bytes
  -- `url.Parse` and `net.ParseIP`.
  pub parse_url : Bytes → Option Url
  pub parse_ip : Bytes → Option Address
  -- `sha256.Sum256`.
  pub sha256 : Bytes → Bytes
  -- `json.Unmarshal` into the client data struct, a bool and a string.
  pub unmarshal_client_data : Bytes → Option DecodedClientData
  pub unmarshal_bool : Bytes → Option Bool
  pub unmarshal_string : Bytes → Option Bytes
