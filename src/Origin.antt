-- ===== src/Origin.antt =====
-- origin.go: origin policies, RP ids, and the origin check of a ceremony.
pub mod Verify
use webauthn.Prelude.{
  ℕ, Bool, true, false, not, ◌&&◌, ◌||◌, Option, none, some, List, [], ◌∷◌, ◌++◌, Bytes, ascii,
  is_empty, bytes_eq, contains, any, all, length, ltb, ◌==◌, if◌then◌else◌, has_prefix, has_suffix,
  has_byte, contains_any, split, cut_last, atoi, itoa,
}
use webauthn.Errors.{
  Result, ok, err, ◌>>=◌, ◌>>◌, refuse_if, each, message, annotate, sentinel, origin_mismatch,
  Error, wrap,
}
use webauthn.Platform.{Platform, Url, Address}
use webauthn.Protocol.Types.{CollectedClientData}

pub record OriginPolicy : Type 0 where
  pub allowed_origins : List Bytes
  pub allowed_top_origins : List Bytes
  pub allow_cross_origin_without_top_origin : Bool
  pub allow_related_origins : Bool

-- A byte that a DNS label may hold: a lower-case letter, a digit or a dash.
unfoldable pub is_label_byte : ℕ → Bool
is_label_byte c = not ((ltb c b'a' || ltb b'z' c) && (ltb c b'0' || ltb b'9' c) && not (c == b'-'))

unfoldable pub valid_label : Bytes → Bool
unfolding is_label_byte
valid_label label =
    not (
      is_empty label
      || ltb 63 (length label)
      || has_prefix label (ascii "-")
      || has_suffix label (ascii "-"))
    && all is_label_byte label

unfoldable pub valid_dns_name : Bytes → Bool
unfolding valid_label
valid_dns_name value =
    not (
      is_empty value
      || ltb 253 (length value)
      || has_prefix value (ascii ".")
      || has_suffix value (ascii ".")
      || contains_any value (ascii "/:@?#"))
    && all valid_label (split b'.' value)

-- The port, whether it is written, and whether it is canonical, from the text behind the colon.
unfoldable pub explicit_port : Bytes → ℕ × Bool × Bool
explicit_port raw = elim (atoi raw) [
  | none ↦ (0, true, false)
  | some port ↦
      if ltb port 1 || ltb 65535 port || not (bytes_eq (itoa 5 port) raw)
      then (0, true, false)
      else (port, true, true)
]

-- What stands behind the bracket of an IPv6 host.
abbrev bracket_port : Bytes → ℕ × Bool × Bool
bracket_port [] = (0, false, true)
bracket_port (c ∷ raw) = if c == b':' then explicit_port raw else (0, false, false)

abbrev port_behind_bracket : Option (Bytes × Bytes) → ℕ × Bool × Bool
port_behind_bracket none = (0, false, false)
port_behind_bracket (some (before, suffix)) = bracket_port suffix

abbrev port_behind_colon : Option (Bytes × Bytes) → ℕ × Bool × Bool
port_behind_colon none = (0, false, true)
port_behind_colon (some (before, after)) =
    if has_byte b':' before then (0, false, false) else explicit_port after

unfoldable pub canonical_origin_port : Bytes → ℕ × Bool × Bool
unfolding explicit_port
canonical_origin_port host =
    if has_prefix host (ascii "[")
    then port_behind_bracket (cut_last b']' host)
    else port_behind_colon (cut_last b':' host)

module _ (g : Platform) where
  unfoldable pub canonical_origin_host : Bytes → Bool
  canonical_origin_host hostname = elim (g.parse_ip hostname) [
    | some address ↦ bytes_eq address.text hostname
    | none ↦ valid_dns_name hostname
  ]

  unfoldable pub valid_rp_id : Bytes → Bool
  valid_rp_id value =
      bytes_eq value (g.to_lower value)
      && bytes_eq (g.trim_space value) value
      && (elim (g.parse_ip value) [ none ↦ true | some _ ↦ false ])
      && valid_dns_name value

  abbrev is_loopback_host : Bytes → Bool
  is_loopback_host hostname = elim (g.parse_ip hostname) [
    | none ↦ false
    | some address ↦ address.is_loopback
  ]

  -- The switch on the scheme.
  unfoldable pub validate_scheme : Url → Result (Unit {0})
  validate_scheme u =
      if bytes_eq u.scheme (ascii "https")
      then ok tt
      else if bytes_eq u.scheme (ascii "http")
          && (bytes_eq u.hostname (ascii "localhost") || is_loopback_host u.hostname)
      then ok tt
      else err (message "origin must use https or loopback http")

  unfoldable pub validate_parsed_origin : Bytes → Url → Result (Unit {0})
  unfolding validate_scheme canonical_origin_host canonical_origin_port
  validate_parsed_origin value u = do
    refuse_if
        (not (is_empty u.opaque)
          || is_empty u.scheme
          || is_empty u.host
          || u.has_user
          || not (is_empty u.path)
          || not (is_empty u.raw_query)
          || not (is_empty u.fragment))
        (message "origin must be a canonical scheme and authority")
    refuse_if
        (is_empty u.hostname
          || not (bytes_eq u.hostname (g.to_lower u.hostname))
          || not (bytes_eq u.text value)
          || not (canonical_origin_host u.hostname))
        (message "origin is not canonical")
    let (port, explicit, canonical) = canonical_origin_port u.host
    refuse_if
        (not canonical
          || (explicit
              && ((bytes_eq u.scheme (ascii "https") && port == 443)
                  || (bytes_eq u.scheme (ascii "http") && port == 80))))
        (message "origin port is not canonical")
    validate_scheme u

  unfoldable pub validate_webauthn_origin : Bytes → Result (Unit {0})
  unfolding validate_parsed_origin
  validate_webauthn_origin value =
      if is_empty value then err (message "origin is empty") else elim (g.parse_url value) [
        | none ↦ err (message "origin must be a canonical scheme and authority")
        | some u ↦ validate_parsed_origin value u
      ]

  -- `fmt.Errorf("allowed origin: %w", err)`.
  abbrev labelled : Error → Result (Unit {0}) → Result (Unit {0})
  labelled label (ok a) = ok a
  labelled label (err e) = err (wrap label e)

  unfoldable pub validate_origin_policy : OriginPolicy → Result (Unit {0})
  unfolding validate_webauthn_origin
  validate_origin_policy policy = do
    refuse_if (is_empty policy.allowed_origins) (message "allowed origins are required")
    each (λ origin. labelled (message "allowed origin") (validate_webauthn_origin origin))
        policy.allowed_origins
    each (λ origin. labelled (message "allowed top origin") (validate_webauthn_origin origin))
        policy.allowed_top_origins

  -- An allowed origin's host is the RP id or a subdomain of it.
  unfoldable pub validate_scoped_origin : Bytes → Bytes → Result (Unit {0})
  validate_scoped_origin rp_id origin = elim (g.parse_url origin) [
    | none ↦ err (message "allowed origin is invalid")
    | some u ↦
        let host = g.to_lower u.hostname in
        refuse_if (not (bytes_eq host rp_id) && not (has_suffix host (b'.' ∷ rp_id)))
          (message "allowed origin is not scoped to rp id")
  ]

  unfoldable pub validate_rp_id_origin_policy : Bytes → OriginPolicy → Result (Unit {0})
  unfolding validate_scoped_origin
  validate_rp_id_origin_policy rp_id policy = do
    refuse_if (not (valid_rp_id rp_id)) (message "rp id is invalid")
    if policy.allow_related_origins
        then ok tt
        else each (validate_scoped_origin rp_id) policy.allowed_origins

-- The cross-origin rule, on the value of `crossOrigin` (false when absent).
abbrev pub cross_origin_of : CollectedClientData → Bool
cross_origin_of d = elim d.cross_origin [ none ↦ false | some b ↦ b ]

unfoldable pub verify_collected_client_origin :
    OriginPolicy → CollectedClientData → Result (Unit {0})
verify_collected_client_origin policy d =
    let mismatch = err (sentinel origin_mismatch) in
    if not (contains policy.allowed_origins d.origin)
    then mismatch
    else if d.top_origin_set
    then if not (cross_origin_of d)
      then mismatch
      else if not (contains policy.allowed_top_origins d.top_origin)
      then mismatch
      else ok tt
    else if cross_origin_of d && not policy.allow_cross_origin_without_top_origin
    then mismatch
    else ok tt
