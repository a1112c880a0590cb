-- ===== src/Prelude/Base64.antt =====
-- `base64.RawURLEncoding`, and its strict decoder, of Go's package encoding/base64.
use Prim.Native.Nat.{ℕ, ◌+◌, ◌-◌, ◌*◌, ◌/◌, ◌%◌, ◌<◌}
use mathlib.Core.Path.{◌≡◌, refl}
use mathlib.Core.Bool.{◌&&◌, ◌||◌}
use mathlib.Core.List.{List, [], ◌∷◌, map}
use mathlib.Core.Option.{Option, none, some}
use native.Mathlib.Omega.{arith}
use webauthn.Prelude.Tests.{ltb, leb, ◌==◌, if◌then◌else◌}
use webauthn.Prelude.Lists.{All}
use webauthn.Prelude.Slices.{Bytes, IsByte}

-- The character of a value below 64.
unfoldable pub encode_char : ℕ → ℕ
encode_char v =
    if ltb v 26
    then v + 65
    else if ltb v 52
    then v - 26 + 97
    else if ltb v 62
    then v - 52 + 48
    else if v == 62
    then b'-'
    else b'_'

-- The values of six bits that the bytes are regrouped into, the last padded with zero bits.
unfoldable pub sextets : Bytes → List ℕ
sextets [] = []
sextets (a ∷ []) = (a / 4) ∷ (a % 4 * 16) ∷ []
sextets (a ∷ b ∷ []) = (a / 4) ∷ (a % 4 * 16 + b / 16) ∷ (b % 16 * 4) ∷ []
sextets (a ∷ b ∷ c ∷ rest) =
    (a / 4) ∷ (a % 4 * 16 + b / 16) ∷ (b % 16 * 4 + c / 64) ∷ (c % 64) ∷ sextets rest

unfoldable pub encode : Bytes → Bytes
unfolding sextets encode_char
encode b = map encode_char (sextets b)

unfoldable pub decode_char : ℕ → Option ℕ
decode_char c =
    if leb 65 c && leb c 90
    then some (c - 65)
    else if leb 97 c && leb c 122
    then some (c - 97 + 26)
    else if leb 48 c && leb c 57
    then some (c - 48 + 52)
    else if c == b'-'
    then some 62
    else if c == b'_'
    then some 63
    else none

abbrev prepend : Option ℕ → Option (List ℕ) → Option (List ℕ)
prepend none vs = none
prepend (some v) none = none
prepend (some v) (some vs) = some (v ∷ vs)

-- The values of the characters; line ends are skipped.
unfoldable pub values : Bytes → Option (List ℕ)
values [] = some []
values (c ∷ s) =
    let rest = values s in if c == b'\n' || c == b'\r' then rest else prepend (decode_char c) rest

abbrev prepend3 : ℕ → ℕ → ℕ → Option Bytes → Option Bytes
prepend3 a b c none = none
prepend3 a b c (some rest) = some (a ∷ b ∷ c ∷ rest)

-- The bytes of a sequence of values. Bits beyond the last byte must be zero (`Strict`).
unfoldable pub ungroup : List ℕ → Option Bytes
ungroup [] = some []
ungroup (x ∷ []) = none
ungroup (x ∷ y ∷ []) = if y % 16 == 0 then some ((x * 4 + y / 16) ∷ []) else none
ungroup (x ∷ y ∷ z ∷ []) =
    if z % 4 == 0 then some ((x * 4 + y / 16) ∷ (y % 16 * 16 + z / 4) ∷ []) else none
ungroup (x ∷ y ∷ z ∷ w ∷ rest) =
    prepend3 (x * 4 + y / 16) (y % 16 * 16 + z / 4) (z % 4 * 64 + w) (ungroup rest)

abbrev and_then : Option (List ℕ) → (List ℕ → Option Bytes) → Option Bytes
and_then none f = none
and_then (some v) f = f v

unfoldable pub decode : Bytes → Option Bytes
unfolding values decode_char ungroup
decode s = and_then (values s) ungroup

-- A character of the alphabet is no line end, and decodes to its value.
values-encode_char :
    (v : ℕ) (s : Bytes) → v < 64 → values (encode_char v ∷ s) ≡ prepend (some v) (values s)
unfolding values decode_char encode_char
values-encode_char v s h = ground arith

values-encode : (vs : List ℕ) → All (λ (v : ℕ). v < 64) vs → values (map encode_char vs) ≡ some vs
values-encode [] h = unfold values in refl
values-encode (v ∷ vs) (hv, hs) =
    ground (arith, values-encode_char v (map encode_char vs) hv, values-encode vs hs)

sextets-small : (b : Bytes) → All IsByte b → All (λ (v : ℕ). v < 64) (sextets b)
unfolding sextets
sextets-small [] h = h
sextets-small (a ∷ []) h = omega arith
sextets-small (a ∷ b ∷ []) h = omega arith
sextets-small (a ∷ b ∷ c ∷ rest) h =
    (omega arith, (omega arith, (omega arith, (omega arith, sextets-small rest h.1.1.1))))

ungroup-sextets : (b : Bytes) → All IsByte b → ungroup (sextets b) ≡ some b
unfolding ungroup sextets
ungroup-sextets [] h = refl
ungroup-sextets (a ∷ []) h = ground arith
ungroup-sextets (a ∷ b ∷ []) h = ground arith
ungroup-sextets (a ∷ b ∷ c ∷ rest) h = ground (arith, ungroup-sextets rest h.1.1.1)

-- The strict decoder reads back every encoded byte string.
pub decode-encode : (b : Bytes) → All IsByte b → decode (encode b) ≡ some b
unfolding decode encode
decode-encode b h =
    ground (arith, values-encode (sextets b) (sextets-small b h), ungroup-sextets b h)
