-- ===== src/Prelude/Words.antt =====
-- Big-endian words on bytes.
use Prim.Native.Nat.{ℕ, zero, suc, ◌+◌, ◌*◌, ◌/◌, ◌%◌, ◌^◌, ◌<◌}
use mathlib.Core.Path.{◌≡◌}
use mathlib.Core.List.{[], ◌∷◌}
use native.Mathlib.Omega.{arith}
use webauthn.Prelude.Lists.{get_or, All}
use webauthn.Prelude.Slices.{Bytes, IsByte}

-- `binary.BigEndian.Uint16` and `Uint32` on the bytes from `i` on.
abbrev pub be_uint16 : Bytes → ℕ → ℕ
be_uint16 b i = get_or b i 0 * 256 + get_or b (i + 1) 0

abbrev pub be_uint32 : Bytes → ℕ → ℕ
be_uint32 b i =
    get_or b i 0 * 2 ^ 24
    + get_or b (i + 1) 0 * 2 ^ 16
    + get_or b (i + 2) 0 * 256
    + get_or b (i + 3) 0

abbrev pub be_uint64 : Bytes → ℕ → ℕ
be_uint64 b i = be_uint32 b i * 2 ^ 32 + be_uint32 b (i + 4)

-- The bytes of a word, the highest first.
unfoldable pub put_uint16 : ℕ → Bytes
put_uint16 n = (n / 256) ∷ (n % 256) ∷ []

unfoldable pub put_uint32 : ℕ → Bytes
put_uint32 n = (n / 2 ^ 24) ∷ (n / 2 ^ 16 % 256) ∷ (n / 256 % 256) ∷ (n % 256) ∷ []

pub get_or-IsByte : (i : ℕ) (b : Bytes) → All IsByte b → get_or b i 0 < 256
unfolding get_or
get_or-IsByte i [] h = omega arith
get_or-IsByte zero (x ∷ b) h = h.0
get_or-IsByte (suc i) (x ∷ b) h = get_or-IsByte i b h.1

pub put_uint16-be_uint16 :
    (b : Bytes) (i : ℕ)
    → All IsByte b
    → put_uint16 (be_uint16 b i) ≡ get_or b i 0 ∷ get_or b (i + 1) 0 ∷ []
unfolding put_uint16
put_uint16-be_uint16 b i h = ground (arith, get_or-IsByte i b h, get_or-IsByte (i + 1) b h)

pub put_uint32-be_uint32 :
    (b : Bytes) (i : ℕ)
    → All IsByte b
    → put_uint32 (be_uint32 b i)
      ≡ get_or b i 0 ∷ get_or b (i + 1) 0 ∷ get_or b (i + 2) 0 ∷ get_or b (i + 3) 0 ∷ []
unfolding put_uint32
put_uint32-be_uint32 b i h = ground (
  arith,
  get_or-IsByte i b h,
  get_or-IsByte (i + 1) b h,
  get_or-IsByte (i + 2) b h,
  get_or-IsByte (i + 3) b h,
)
