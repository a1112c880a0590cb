-- ===== src/Protocol/ClientData.antt =====
-- protocol/client_data.go: collected client data, and the challenge in it.
use webauthn.Prelude.{
  ◌≡◌, ◌↔◌, arith, Bool, true, false, ◌||◌, Option, none, some, ◌∷◌, [], Bytes, IsByte, All, ascii,
  content, is_empty, bytes_eq, bytes_eq_iff, has_prefix, drop, if◌then◌else◌, Option-cases, inl,
  inr,
}
use webauthn.Prelude.Base64.{encode, decode, decode-encode}
use webauthn.Errors.{
  call_step, refuse_step, Result, ok, err, Error, ◌>>=◌, ◌>>◌, refuse_if, sentinel, message,
  malformed_client_data,
}
use webauthn.Platform.{Platform, DecodedClientData}
use webauthn.Protocol.Bytes.{ClientDataJson}
use webauthn.Protocol.Types.{CollectedClientData}

abbrev malformed : Error
malformed = sentinel malformed_client_data

-- `bytes.TrimPrefix(raw.value, {0xef, 0xbb, 0xbf})`.
abbrev byte_order_mark : Bytes
byte_order_mark = 0xef ∷ 0xbb ∷ 0xbf ∷ []

unfoldable pub json_text : ClientDataJson → Bytes
json_text raw =
    if has_prefix (content raw) byte_order_mark then drop 3 (content raw) else content raw

abbrev or_malformed {ℓ} : {A : Type ℓ} → Option A → Result A
or_malformed none = err malformed
or_malformed (some a) = ok a

module _ (g : Platform) where
  unfoldable pub decode_cross_origin : Option Bytes → Result (Option Bool)
  decode_cross_origin none = ok none
  decode_cross_origin (some raw) =
      if bytes_eq (g.trim_space raw) (ascii "null")
      then err malformed
      else do b ← or_malformed (g.unmarshal_bool raw); ok (some b)

  unfoldable pub decode_top_origin : Option Bytes → Result Bytes
  decode_top_origin none = ok []
  decode_top_origin (some raw) =
      if bytes_eq (g.trim_space raw) (ascii "null") then err malformed else do
        origin ← or_malformed (g.unmarshal_string raw)
        refuse_if (is_empty origin) malformed
        ok origin

  abbrev is_present : Option Bytes → Bool
  is_present none = false
  is_present (some _) = true

  abbrev or_json_error : Option DecodedClientData → Result DecodedClientData
  or_json_error none = err (message "json: invalid client data")
  or_json_error (some d) = ok d

  unfoldable pub parse_collected_client_data : ClientDataJson → Result CollectedClientData
  unfolding decode_cross_origin decode_top_origin json_text
  parse_collected_client_data raw = do
    d ← or_json_error (g.unmarshal_client_data (json_text raw))
    refuse_if (is_empty d.kind || is_empty d.challenge || is_empty d.origin) malformed
    cross_origin ← decode_cross_origin d.cross_origin
    top_origin ← decode_top_origin d.top_origin
    ok (record {
      kind = d.kind;
      challenge = d.challenge;
      origin = d.origin;
      cross_origin = cross_origin;
      top_origin = top_origin;
      raw = raw;
      top_origin_set = is_present d.top_origin;
    })

  -- A top origin that is absent is empty and marked as absent. One that is present is not null and
  -- a string that is not empty, which the result has, and it is marked as present.
  pub data HasTopOrigin (d : CollectedClientData) : Option Bytes → Type 0 where
    no_top_origin : d.top_origin ≡ [] → d.top_origin_set ≡ false → HasTopOrigin d none
    is_top_origin :
        (member : Bytes)
        → bytes_eq (g.trim_space member) (ascii "null") ≡ false
        → g.unmarshal_string member ≡ some d.top_origin
        → is_empty d.top_origin ≡ false
        → d.top_origin_set ≡ true
        → HasTopOrigin d (some member)

  -- The same for the Boolean of cross-origin data.
  pub data HasCrossOrigin (d : CollectedClientData) : Option Bytes → Type 0 where
    no_cross_origin : d.cross_origin ≡ none → HasCrossOrigin d none
    is_cross_origin :
        (member : Bytes) (b : Bool)
        → bytes_eq (g.trim_space member) (ascii "null") ≡ false
        → g.unmarshal_bool member ≡ some b
        → d.cross_origin ≡ some b
        → HasCrossOrigin d (some member)

  top_origin-HasTopOrigin :
      (o : Option Bytes) (d : CollectedClientData)
      → decode_top_origin o ≡ ok d.top_origin
      → d.top_origin_set ≡ is_present o
      → HasTopOrigin d o
  unfolding decode_top_origin
  top_origin-HasTopOrigin none d h e = no_top_origin (ground (arith, h)) e
  top_origin-HasTopOrigin (some member) d h e = elim (Option-cases (g.unmarshal_string member)) [
    | inl fails ↦ absurd (ground (arith, h, fails))
    | inr (origin, reads) ↦
        let same : origin ≡ d.top_origin = ground (arith, h, reads) in
        is_top_origin member (ground (arith, h)) (rw same at reads) (ground (arith, h, reads, same))
          e
  ]

  cross_origin-HasCrossOrigin :
      (o : Option Bytes) (d : CollectedClientData)
      → decode_cross_origin o ≡ ok d.cross_origin
      → HasCrossOrigin d o
  unfolding decode_cross_origin
  cross_origin-HasCrossOrigin none d h = no_cross_origin (ground (arith, h))
  cross_origin-HasCrossOrigin (some member) d h = elim (Option-cases (g.unmarshal_bool member)) [
    | inl fails ↦ absurd (ground (arith, h, fails))
    | inr (b, reads) ↦ is_cross_origin member b (ground (arith, h)) reads (ground (arith, h, reads))
  ]

  -- The members of the decoded JSON object, against the result.
  pub record HasMembers (raw : ClientDataJson) (d : CollectedClientData) : Type 0 where
    pub object : DecodedClientData
    pub object_eq : g.unmarshal_client_data (json_text raw) ≡ some object
    pub kind : (d.kind ≡ object.kind) × (is_empty object.kind ≡ false)
    pub challenge : (d.challenge ≡ object.challenge) × (is_empty object.challenge ≡ false)
    pub origin : (d.origin ≡ object.origin) × (is_empty object.origin ≡ false)
    pub cross_origin : HasCrossOrigin d object.cross_origin
    pub top_origin : HasTopOrigin d object.top_origin
    pub raw_eq : d.raw ≡ raw

  json-object :
      (o : Option DecodedClientData) {j : DecodedClientData} → or_json_error o ≡ ok j → o ≡ some j
  json-object none h = cc
  json-object (some j) h = ground (arith, h)

  -- Client data that parses has the type, the challenge and the origin of the decoded JSON object,
  -- none of them empty, and keeps the raw bytes. It has a top origin, and the cross-origin flag,
  -- exactly if the object has that member, which is then not null, and its value is that of the
  -- member.
  pub parse_collected_sound :
      (raw : ClientDataJson) {d : CollectedClientData}
      → parse_collected_client_data raw ≡ ok d
      → HasMembers raw d
  unfolding parse_collected_client_data
  parse_collected_sound raw {d} h =
      call_step (or_json_error (g.unmarshal_client_data (json_text raw))) h (λ j e1 h1.
        refuse_step (is_empty j.kind || is_empty j.challenge || is_empty j.origin) _ h1 (λ full h2.
          call_step (decode_cross_origin j.cross_origin) h2 (λ cross e3 h3.
            call_step (decode_top_origin j.top_origin) h3 (λ top e4 h4.
              let cross_eq : cross ≡ d.cross_origin = ground (arith, h4) in
              let top_eq : top ≡ d.top_origin = ground (arith, h4) in
              let set_eq : d.top_origin_set ≡ is_present j.top_origin = ground (arith, h4) in
              record {
                object = j;
                object_eq = json-object _ e1;
                kind = (ground (arith, h4), ground (arith, full));
                challenge = (ground (arith, h4), ground (arith, full));
                origin = (ground (arith, h4), ground (arith, full));
                cross_origin = cross_origin-HasCrossOrigin j.cross_origin d (rw cross_eq at e3);
                top_origin = top_origin-HasTopOrigin j.top_origin d (rw top_eq at e4) set_eq;
                raw_eq = ground (arith, h4);
              }))))

unfoldable pub challenge_bytes : CollectedClientData → Result Bytes
challenge_bytes d = elim (decode d.challenge) [
  | none ↦ err (message "illegal base64 data")
  | some challenge ↦ if bytes_eq (encode challenge) d.challenge then ok challenge else err malformed
]

challenge_bytes_spelled :
    (d : CollectedClientData) (b : Bytes) → challenge_bytes d ≡ ok b → d.challenge ≡ encode b
unfolding challenge_bytes
challenge_bytes_spelled d b h = elim (Option-cases (decode d.challenge)) [
  | inl e ↦ absurd (ground (arith, e))
  | inr (c, e) ↦ ground (arith, e, bytes_eq_iff (encode c) d.challenge)
]

challenge_bytes-encode :
    (d : CollectedClientData) (b : Bytes)
    → All IsByte b
    → d.challenge ≡ encode b
    → challenge_bytes d ≡ ok b
unfolding challenge_bytes
challenge_bytes-encode d b byte e =
    let found : decode d.challenge ≡ some b = rw e (decode-encode b byte) in
    ground (arith, found, bytes_eq_iff (encode b) d.challenge)

-- The challenge decodes to some bytes exactly if it is their unpadded base64url text, character by
-- character.
pub challenge_bytes_iff :
    (d : CollectedClientData) (b : Bytes)
    → All IsByte b
    → (challenge_bytes d ≡ ok b) ↔ (d.challenge ≡ encode b)
challenge_bytes_iff d b byte = (challenge_bytes_spelled d b, challenge_bytes-encode d b byte)
