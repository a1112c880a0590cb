-- ===== src/Prelude/Text.antt =====
-- What the sources use of Go's packages strings and strconv, on the bytes of a string.
use Prim.Native.Nat.{ℕ, zero, suc, ◌+◌, ◌-◌, ◌*◌, ◌/◌, ◌%◌}
use mathlib.Core.Bool.{Bool, true, false, ◌&&◌, ◌||◌}
use mathlib.Core.List.{List, [], ◌∷◌, ◌++◌}
use mathlib.Core.Option.{Option, none, some}
use webauthn.Prelude.Tests.{ltb, leb, ◌==◌, if◌then◌else◌}
use webauthn.Prelude.Lists.{length, drop}
use webauthn.Prelude.Slices.{Bytes, bytes_eq}

-- `strings.HasPrefix`.
unfoldable pub has_prefix : Bytes → Bytes → Bool
has_prefix s [] = true
has_prefix [] (c ∷ p) = false
has_prefix (b ∷ s) (c ∷ p) = b == c && has_prefix s p

-- `strings.HasSuffix`.
unfoldable pub has_suffix : Bytes → Bytes → Bool
has_suffix s t = leb (length t) (length s) && bytes_eq (drop (length s - length t) s) t

-- `strings.Contains` and `strings.ContainsAny` for one byte and for a set of bytes.
unfoldable pub has_byte : ℕ → Bytes → Bool
has_byte c [] = false
has_byte c (b ∷ s) = b == c || has_byte c s

unfoldable pub contains_any : Bytes → Bytes → Bool
unfolding has_byte
contains_any [] set = false
contains_any (b ∷ s) set = has_byte b set || contains_any s set

abbrev pub grow : ℕ → List Bytes → List Bytes
grow b [] = (b ∷ []) ∷ []
grow b (w ∷ ws) = (b ∷ w) ∷ ws

-- `strings.SplitSeq` at one byte: the pieces between the separators, one at least.
unfoldable pub split : ℕ → Bytes → List Bytes
split sep [] = [] ∷ []
split sep (b ∷ s) = let rest = split sep s in if b == sep then [] ∷ rest else grow b rest

-- `strings.CutLast` at one byte.
unfoldable pub cut_last : ℕ → Bytes → Option (Bytes × Bytes)
cut_last sep [] = none
cut_last sep (b ∷ s) = elim (cut_last sep s) [
  | some (before, after) ↦ some (b ∷ before, after)
  | none ↦ if b == sep then some ([], s) else none
]

-- The value of decimal digits behind `acc`, or `none` at another byte.
unfoldable pub digits_value : ℕ → Bytes → Option ℕ
digits_value acc [] = some acc
digits_value acc (c ∷ s) =
    let rest = digits_value (acc * 10 + (c - 48)) s in if leb 48 c && leb c 57 then rest else none

-- `strconv.Atoi` as the sources use it: the value if the text is one or more decimal digits, and
-- `none` for text that is no number. A sign, which `Atoi` takes and `Itoa` does not print for the
-- numbers that the sources accept, is `none` too.
unfoldable pub atoi : Bytes → Option ℕ
unfolding digits_value
atoi [] = none
atoi (c ∷ s) = digits_value 0 (c ∷ s)

-- `strconv.Itoa` on numbers below 10 ^ (fuel + 1).
unfoldable pub itoa : ℕ → ℕ → Bytes
itoa zero n = (n % 10 + 48) ∷ []
itoa (suc fuel) n =
    let front = itoa fuel (n / 10) in
    if ltb n 10 then (n + 48) ∷ [] else front ++ ((n % 10 + 48) ∷ [])
