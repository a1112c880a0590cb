-- ===== src/Prelude/Slices.antt =====
-- Bytes, strings and byte slices. A Go string is the list of its bytes, and `""` is the empty list; a `[]byte` whose
-- nilness the sources test is a `ByteSlice`.
use Prim.Native.Nat.{ℕ, ◌<◌}
use Prim.Native.Char.{code}
use Prim.Native.String.{String}
use mathlib.Core.Path.{◌≡◌, refl}
use mathlib.Core.Logic.{◌↔◌, ◌⊎◌, inl, inr}
use mathlib.Core.Bool.{Bool, true, false, ◌&&◌, ◌||◌}
use mathlib.Core.List.{List, [], ◌∷◌}
use native.Mathlib.Omega.{arith}
use webauthn.Prelude.Tests.{◌==◌, Bool-cases}

abbrev pub Bytes : Type 0
Bytes = List ℕ

abbrev pub IsByte : ℕ → Type 0
IsByte b = b < 256

-- The bytes of an ASCII literal.
abbrev pub ascii : String → Bytes
ascii String.[] = []
ascii (String.◌∷◌ c s) = code c ∷ ascii s

abbrev pub is_empty {ℓ} : {A : Type ℓ} → List A → Bool
is_empty [] = true
is_empty (_ ∷ _) = false

-- `==` on strings, `bytes.Equal`, and the result of `subtle.ConstantTimeCompare`.
unfoldable pub bytes_eq : Bytes → Bytes → Bool
bytes_eq [] [] = true
bytes_eq (x ∷ xs) (y ∷ ys) = x == y && bytes_eq xs ys
bytes_eq _ _ = false

pub bytes_eq_iff : (a b : Bytes) → (bytes_eq a b ≡ true) ↔ (a ≡ b)
unfolding bytes_eq
bytes_eq_iff (x ∷ a) (y ∷ b) = ground (arith, bytes_eq_iff a b)
bytes_eq_iff _ _ = ground arith

pub bytes_eq_refl : (a : Bytes) → bytes_eq a a ≡ true
bytes_eq_refl a = (bytes_eq_iff a a).1 refl

-- `slices.Contains` on strings.
unfoldable pub contains : List Bytes → Bytes → Bool
contains [] v = false
contains (x ∷ xs) v = bytes_eq v x || contains xs v

-- A `[]byte`: nil, or the bytes.
pub data ByteSlice : Type 0 where
  nil : ByteSlice
  bytes : Bytes → ByteSlice

abbrev pub content : ByteSlice → Bytes
content nil = []
content (bytes b) = b

-- The value stands in the list.
abbrev pub Listed : Bytes → List Bytes → Type 0
Listed v [] = ⊥
Listed v (x ∷ xs) = (v ≡ x) ⊎ Listed v xs

pub contains→Listed : (xs : List Bytes) (v : Bytes) → contains xs v ≡ true → Listed v xs
unfolding contains
contains→Listed [] v h = cc
contains→Listed (x ∷ xs) v h = elim (Bool-cases (bytes_eq v x)) [
  | inl e ↦ inl ((bytes_eq_iff v x).0 e)
  | inr ne ↦ inr (contains→Listed xs v (ground arith))
]

pub Listed→contains : (xs : List Bytes) (v : Bytes) → Listed v xs → contains xs v ≡ true
unfolding contains
Listed→contains [] v h = absurd h
Listed→contains (x ∷ xs) v (inl e) = ground (arith, bytes_eq_iff v x)
Listed→contains (x ∷ xs) v (inr l) = ground (arith, Listed→contains xs v l)

pub contains_iff : (xs : List Bytes) (v : Bytes) → (contains xs v ≡ true) ↔ Listed v xs
contains_iff xs v = (contains→Listed xs v, Listed→contains xs v)
