-- ===== src/Protocol/AuthData/RoundTrip.antt =====
-- The parser of authenticator data reads back every well laid out value.
use webauthn.Prelude.{
  ℕ, ◌+◌, ◌-◌, ◌^◌, ◌≤◌, ◌<◌, ◌≡◌, refl, sym, ◌∙◌, arith, Option, none, some, [], ◌∷◌, ◌++◌, Bytes,
  bytes, content, length, get_or, take, drop, be_uint16, be_uint32, put_uint16, put_uint32,
  take-append, drop-append, get_or-append, length-append, drop-drop, drop-append_self,
}
use webauthn.Errors.{ok}
use webauthn.Protocol.Bytes.{new_credential_id}
use webauthn.Protocol.AuthData.{
  AttestedCredentialData, ParsedAuthenticatorData, parse_attested_credential_data, header_of,
  parse_rest, parse_authenticator_data,
}
use webauthn.Protocol.AuthData.Layout.{
  attested_bytes, rest_bytes, serialize, IsAttested, Follows, IsLaidOut,
}

be_uint32-put :
    (hash : Bytes) (f n : ℕ) (rest : Bytes)
    → length hash ≡ 32
    → n < 2 ^ 32
    → be_uint32 (hash ++ (f ∷ (put_uint32 n ++ rest))) 33 ≡ n
unfolding put_uint32 get_or
be_uint32-put hash f n rest h small =
    let t : Bytes = f ∷ (put_uint32 n ++ rest) in
    omega (
      arith,
      get_or-append 32 1 hash t 0 h,
      get_or-append 32 2 hash t 0 h,
      get_or-append 32 3 hash t 0 h,
      get_or-append 32 4 hash t 0 h,
    )

be_uint16-put :
    (guid : Bytes) (n : ℕ) (rest : Bytes)
    → length guid ≡ 16
    → be_uint16 (guid ++ (put_uint16 n ++ rest)) 16 ≡ n
unfolding put_uint16 get_or
be_uint16-put guid n rest h =
    let t : Bytes = put_uint16 n ++ rest in
    omega (arith, get_or-append 16 0 guid t 0 h, get_or-append 16 1 guid t 0 h)

flags-serialize : (p : ParsedAuthenticatorData) → IsLaidOut p → get_or (serialize p) 32 0 ≡ p.flags
unfolding get_or
flags-serialize p w = get_or-append 32 0 p.rp_id_hash _ 0 w.hash_size

header_of-serialize :
    (p : ParsedAuthenticatorData)
    → IsLaidOut p
    → header_of (bytes (serialize p))
      ≡ record p { raw = bytes (serialize p); attested = none; extension_data = [] }
header_of-serialize p w =
    let t : Bytes = p.flags ∷ (put_uint32 p.sign_count ++ rest_bytes p.attested p.extension_data) in
    cc (
      take-append 32 p.rp_id_hash t w.hash_size,
      flags-serialize p w,
      be_uint32-put p.rp_id_hash p.flags p.sign_count _ w.hash_size w.count_max,
    )

drop-serialize :
    (p : ParsedAuthenticatorData)
    → IsLaidOut p
    → drop 37 (serialize p) ≡ rest_bytes p.attested p.extension_data
unfolding drop put_uint32
drop-serialize p w = drop-append 32 5 p.rp_id_hash _ w.hash_size

length-serialize : (p : ParsedAuthenticatorData) → IsLaidOut p → 37 ≤ length (serialize p)
unfolding put_uint32
length-serialize p w = omega (arith, length-append p.rp_id_hash _, w.hash_size)

-- The data as the parser sees it, behind its fixed-size prefix.
drop-attested_bytes :
    (a : AttestedCredentialData)
    → IsAttested a
    → drop 18 (attested_bytes a) ≡ content a.credential_id ++ a.credential_public_key_and_extensions
unfolding drop put_uint16
drop-attested_bytes a w = drop-append 16 2 a.aaguid _ w.aaguid_size

length-attested_bytes :
    (a : AttestedCredentialData)
    → IsAttested a
    → length (attested_bytes a)
      ≡ 18 + length (content a.credential_id) + length a.credential_public_key_and_extensions
unfolding put_uint16
length-attested_bytes a w = omega (
  arith,
  length-append a.aaguid _,
  length-append (content a.credential_id) a.credential_public_key_and_extensions,
  w.aaguid_size,
)

module _ (a : AttestedCredentialData) (w : IsAttested a) where
  d : Bytes
  d = attested_bytes a

  n-eq : be_uint16 d 16 ≡ length (content a.credential_id)
  unfolding d
  n-eq = be_uint16-put a.aaguid _ _ w.aaguid_size

  id-eq : take (18 + be_uint16 d 16 - 18) (drop 18 d) ≡ content a.credential_id
  unfolding d
  id-eq = rw (drop-attested_bytes a w) (take-append _ _ _ (omega (arith, n-eq)))

  key-eq : drop (18 + be_uint16 d 16) d ≡ a.credential_public_key_and_extensions
  unfolding d
  key-eq =
      sym (drop-drop (be_uint16 d 16) 18 d)
      ∙ rw (drop-attested_bytes a w) (drop-append_self _ _ _ (sym n-eq))

  guid-eq : take 16 d ≡ a.aaguid
  unfolding d
  guid-eq = take-append 16 a.aaguid _ w.aaguid_size

  size : length d ≡ 18 + be_uint16 d 16 + length a.credential_public_key_and_extensions
  unfolding d
  size = omega (arith, length-attested_bytes a w, n-eq)

  n_bounds : (1 ≤ be_uint16 d 16) × (be_uint16 d 16 ≤ 1023)
  n_bounds = rw n-eq (rw w.id_eq (w.id_pos, w.id_max))

  parse-attested_bytes : parse_attested_credential_data d ≡ ok a
  unfolding parse_attested_credential_data new_credential_id
  parse-attested_bytes =
      ground (arith, size, n_bounds, n-eq, id-eq, key-eq, guid-eq, w.id_eq, w.key_pos)

-- Attested credential data of the right sizes is parsed back from its bytes.
parse_attested-bytes :
    (a : AttestedCredentialData)
    → IsAttested a
    → parse_attested_credential_data (attested_bytes a) ≡ ok a
unfolding d
parse_attested-bytes a w = parse-attested_bytes a w

parse_rest-bytes :
    (q : ParsedAuthenticatorData) (at : Option AttestedCredentialData) (ext : Bytes)
    → q.attested ≡ none
    → q.extension_data ≡ []
    → Follows q.flags at ext
    → parse_rest q (rest_bytes at ext) ≡ ok (record q { attested = at; extension_data = ext })
unfolding parse_rest
parse_rest-bytes q none ext no_at no_ext w = ground arith
parse_rest-bytes q (some a) ext no_at no_ext w = ground (arith, parse_attested-bytes a w.1)

-- Every well laid out value is parsed back from its bytes, and the result carries those bytes.
pub parse-serialize :
    (p : ParsedAuthenticatorData)
    → IsLaidOut p
    → parse_authenticator_data (bytes (serialize p)) ≡ ok (record p { raw = bytes (serialize p) })
unfolding parse_authenticator_data
parse-serialize p w = ground (
  arith,
  length-serialize p w,
  header_of-serialize p w,
  drop-serialize p w,
  w.no_reserved,
  parse_rest-bytes (header_of (bytes (serialize p))) p.attested p.extension_data refl refl
      (rw (flags-serialize p w) w.follows),
)
