-- ===== src/Protocol/AuthData/Layout.antt =====
-- The layout of authenticator data: what the parser accepts, and that it loses nothing.
use webauthn.Prelude.{
  ℕ, suc, inl, inr, ◌+◌, ◌-◌, ◌^◌, ◌≤◌, ◌<◌, ◌≡◌, refl, sym, ap, ◌∙◌, arith, true, false, Option,
  none, some, [], ◌∷◌, ◌++◌, Bytes, bytes, content, IsByte, length, get_or, take, drop, All,
  is_empty, be_uint16, put_uint16, put_uint32, put_uint32-be_uint32, put_uint16-be_uint16,
  get_or-IsByte, All-drop, Bool-cases, take-append-drop, drop-get_or, length-take, length-drop,
  drop-drop,
}
use webauthn.Errors.{ok, Result-cases}
use webauthn.Protocol.Bytes.{AuthenticatorData, new_credential_id}
use webauthn.Protocol.AuthData.{
  AttestedCredentialData, ParsedAuthenticatorData, has_attested_credential_data, has_extension_data,
  has_reserved, parse_attested_credential_data, header_of, parse_rest, parse_authenticator_data,
}

-- The bytes that the fields of a parse result stand for.
abbrev pub attested_bytes : AttestedCredentialData → Bytes
attested_bytes a =
    a.aaguid
    ++ (put_uint16 (length (content a.credential_id))
        ++ (content a.credential_id ++ a.credential_public_key_and_extensions))

abbrev pub rest_bytes : Option AttestedCredentialData → Bytes → Bytes
rest_bytes none extension_data = extension_data
rest_bytes (some a) extension_data = attested_bytes a

abbrev pub serialize : ParsedAuthenticatorData → Bytes
serialize p =
    p.rp_id_hash ++ (p.flags ∷ (put_uint32 p.sign_count ++ rest_bytes p.attested p.extension_data))

-- Attested credential data of the right sizes: a GUID, an id of 1 to 1023 bytes, and a key.
pub record IsAttested (a : AttestedCredentialData) : Type 0 where
  pub aaguid_size : length a.aaguid ≡ 16
  pub id : Bytes
  pub id_eq : a.credential_id ≡ bytes id
  pub id_pos : 1 ≤ length id
  pub id_max : length id ≤ 1023
  pub key_pos : 1 ≤ length a.credential_public_key_and_extensions

-- The presence of each part follows its flag.
abbrev pub Follows : ℕ → Option AttestedCredentialData → Bytes → Type 0
Follows flags none extension_data =
    (has_attested_credential_data flags ≡ false)
    × (is_empty extension_data ≡ false → has_extension_data flags ≡ true)
    × (has_extension_data flags ≡ true → is_empty extension_data ≡ false)
Follows flags (some a) extension_data =
    (has_attested_credential_data flags ≡ true) × IsAttested a × (extension_data ≡ [])

pub record IsLaidOut (p : ParsedAuthenticatorData) : Type 0 where
  pub hash_size : length p.rp_id_hash ≡ 32
  pub no_reserved : has_reserved p.flags ≡ false
  pub count_max : p.sign_count < 2 ^ 32
  pub follows : Follows p.flags p.attested p.extension_data

split_header :
    (b : Bytes)
    → 37 ≤ length b
    → b
      ≡ take 32 b
        ++ (get_or b 32 0
            ∷ (get_or b 33 0 ∷ get_or b 34 0 ∷ get_or b 35 0 ∷ get_or b 36 0 ∷ drop 37 b))
split_header b h =
    sym (take-append-drop 32 b)
    ∙ ap (λ (t : Bytes). take 32 b ++ t)
        (drop-get_or 32 b 0 (omega arith)
          ∙ ap (◌∷◌ (get_or b 32 0)) (
              drop-get_or 33 b 0 (omega arith)
              ∙ ap (◌∷◌ (get_or b 33 0)) (
                  drop-get_or 34 b 0 (omega arith)
                  ∙ ap (◌∷◌ (get_or b 34 0)) (
                      drop-get_or 35 b 0 (omega arith)
                      ∙ ap (◌∷◌ (get_or b 35 0)) (drop-get_or 36 b 0 (omega arith))))))

split_attested :
    (d : Bytes) (n : ℕ)
    → 18 + n ≤ length d
    → d
      ≡ take 16 d
        ++ (get_or d 16 0 ∷ (get_or d 17 0 ∷ (take (18 + n - 18) (drop 18 d) ++ drop (18 + n) d)))
split_attested d n h =
    sym (take-append-drop 16 d)
    ∙ ap (λ (t : Bytes). take 16 d ++ t)
        (drop-get_or 16 d 0 (omega arith)
          ∙ ap (◌∷◌ (get_or d 16 0)) (
              drop-get_or 17 d 0 (omega arith)
              ∙ ap (◌∷◌ (get_or d 17 0)) (
                  sym (take-append-drop (18 + n - 18) (drop 18 d))
                  ∙ ap (λ (t : Bytes). take (18 + n - 18) (drop 18 d) ++ t)
                      (drop-drop (18 + n - 18) 18 d ∙ ap (λ (k : ℕ). drop k d) (omega arith)))))

-- What the guards of `parseAttestedCredentialData` leave when they let the data through.
record AttestedGuards (d : Bytes) (a : AttestedCredentialData) : Type 0 where
  n_pos : 1 ≤ be_uint16 d 16
  n_max : be_uint16 d 16 ≤ 1023
  room : suc (18 + be_uint16 d 16) ≤ length d
  a_eq : a ≡ record {
    aaguid = take 16 d;
    credential_id = bytes (take (18 + be_uint16 d 16 - 18) (drop 18 d));
    credential_public_key_and_extensions = drop (18 + be_uint16 d 16) d;
  }

length-id : (d : Bytes) (n : ℕ) → 18 + n ≤ length d → length (take (18 + n - 18) (drop 18 d)) ≡ n
length-id d n h = omega (arith, length-take (18 + n - 18) (drop 18 d), length-drop 18 d)

attested_guards :
    (d : Bytes) (a : AttestedCredentialData)
    → parse_attested_credential_data d ≡ ok a
    → AttestedGuards d a
unfolding parse_attested_credential_data new_credential_id
attested_guards d a h = record {
  n_pos = ground arith;
  n_max = ground (arith, length-id d (be_uint16 d 16));
  room = ground arith;
  a_eq = ground arith;
}

-- Attested credential data that parses has the right sizes, and its fields spell the input.
parse_attested_credential_data-IsAttested :
    (d : Bytes) (a : AttestedCredentialData)
    → All IsByte d
    → parse_attested_credential_data d ≡ ok a
    → IsAttested a × (attested_bytes a ≡ d)
parse_attested_credential_data-IsAttested d a byte h =
    let g = attested_guards d a h in
    let n : ℕ = be_uint16 d 16 in
    let size : length (take (18 + n - 18) (drop 18 d)) ≡ n =
      length-id d n (omega (arith, g.room)) in
    rw g.a_eq (
      record {
        aaguid_size = omega (arith, length-take 16 d, g.room);
        id = take (18 + n - 18) (drop 18 d);
        id_eq = refl;
        id_pos = omega (arith, size, g.n_pos);
        id_max = omega (arith, size, g.n_max);
        key_pos = omega (arith, length-drop (18 + n) d, g.room);
      },
      rw size
          (rw (put_uint16-be_uint16 d 16 byte) (sym (split_attested d n (omega (arith, g.room))))),
    )

-- What the guards of `ParseAuthenticatorData` leave when they let the data through.
record HeaderGuards (raw : AuthenticatorData) (p : ParsedAuthenticatorData) : Type 0 where
  room : 37 ≤ length (content raw)
  no_reserved : has_reserved (get_or (content raw) 32 0) ≡ false
  rest_ok : parse_rest (header_of raw) (drop 37 (content raw)) ≡ ok p

parse-guards :
    (raw : AuthenticatorData) (p : ParsedAuthenticatorData)
    → parse_authenticator_data raw ≡ ok p
    → HeaderGuards raw p
unfolding parse_authenticator_data
parse-guards raw p h = record {
  room = ground arith;
  no_reserved = ground arith;
  rest_ok = ground arith;
}

-- The part of the parser behind the header keeps the header and lays out the rest.
record RestSound (q p : ParsedAuthenticatorData) (rest : Bytes) : Type 0 where
  raw : p.raw ≡ q.raw
  hash : p.rp_id_hash ≡ q.rp_id_hash
  flags : p.flags ≡ q.flags
  count : p.sign_count ≡ q.sign_count
  follows : Follows p.flags p.attested p.extension_data
  spells : rest_bytes p.attested p.extension_data ≡ rest

parse_rest-attested :
    (q p : ParsedAuthenticatorData) (rest : Bytes)
    → All IsByte rest
    → has_attested_credential_data q.flags ≡ true
    → q.extension_data ≡ []
    → parse_rest q rest ≡ ok p
    → RestSound q p rest
unfolding parse_rest
parse_rest-attested q p rest byte at no_ext h =
    elim (Result-cases (parse_attested_credential_data rest)) [
      | inl (a, e) ↦
          let (sizes, spelled) = parse_attested_credential_data-IsAttested rest a byte e in
          let p_eq : p ≡ record q { attested = some a } = ground (arith, e) in
          rw p_eq (record {
            raw = refl;
            hash = refl;
            flags = refl;
            count = refl;
            follows = (at, sizes, no_ext);
            spells = spelled;
          })
      | inr (x, e) ↦ absurd (ground (arith, e))
    ]

parse_rest-plain :
    (q p : ParsedAuthenticatorData) (rest : Bytes)
    → has_attested_credential_data q.flags ≡ false
    → q.attested ≡ none
    → q.extension_data ≡ []
    → parse_rest q rest ≡ ok p
    → RestSound q p rest
unfolding parse_rest
parse_rest-plain q p rest at none_yet no_ext h = record {
  raw = ground arith;
  hash = ground arith;
  flags = ground arith;
  count = ground arith;
  follows = ground arith;
  spells = ground arith;
}

parse_rest_sound :
    (raw : AuthenticatorData) (p : ParsedAuthenticatorData) (rest : Bytes)
    → All IsByte rest
    → parse_rest (header_of raw) rest ≡ ok p
    → RestSound (header_of raw) p rest
parse_rest_sound raw p rest byte h =
    elim (Bool-cases (has_attested_credential_data (header_of raw).flags)) [
      | inl at ↦ parse_rest-attested (header_of raw) p rest byte at refl h
      | inr at ↦ parse_rest-plain (header_of raw) p rest at refl refl h
    ]

-- Whatever the parser accepts is laid out as WebAuthn says, the fields of the result spell every
-- byte of the input, and the result keeps the raw value.
pub parse_sound :
    (raw : AuthenticatorData) {p : ParsedAuthenticatorData}
    → All IsByte (content raw)
    → parse_authenticator_data raw ≡ ok p
    → IsLaidOut p × (serialize p ≡ content raw) × (p.raw ≡ raw)
parse_sound raw {p} byte h =
    let b : Bytes = content raw in
    let g = parse-guards raw p h in
    let s = parse_rest_sound raw p (drop 37 b) (All-drop IsByte 37 b byte) g.rest_ok in
    (
      record {
        hash_size = rw s.hash (omega (arith, length-take 32 b, g.room));
        no_reserved = rw s.flags g.no_reserved;
        count_max = rw s.count (
            omega (
              arith,
              get_or-IsByte 33 b byte,
              get_or-IsByte 34 b byte,
              get_or-IsByte 35 b byte,
              get_or-IsByte 36 b byte,
            ));
        follows = s.follows;
      },
      rw (s.hash, s.flags, s.count, s.spells, put_uint32-be_uint32 b 33 byte)
          (sym (split_header b g.room)),
      s.raw,
    )
