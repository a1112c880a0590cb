-- ===== src/Prelude/Maps.antt =====
-- Go maps with string keys as association lists, in an order of their iteration, and the sorted
-- keys of several maps.
use mathlib.Core.Bool.{Bool, true, false}
use mathlib.Core.List.{List, [], ◌∷◌}
use mathlib.Core.Option.{Option, none, some}
use webauthn.Prelude.Tests.{ltb, ◌==◌, if◌then◌else◌}
use webauthn.Prelude.Slices.{Bytes, bytes_eq}

abbrev pub Assoc {ℓ} : Type ℓ → Type ℓ
Assoc V = List (Bytes × V)

module _ {ℓ} {V : Type ℓ} where
  unfoldable pub lookup : Bytes → Assoc V → Option V
  lookup k [] = none
  lookup k ((j, v) ∷ m) = if bytes_eq j k then some v else lookup k m

  abbrev pub keys : Assoc V → List Bytes
  keys [] = []
  keys ((j, v) ∷ m) = j ∷ keys m

-- `<` on strings: the order of their bytes.
unfoldable pub bytes_ltb : Bytes → Bytes → Bool
bytes_ltb [] [] = false
bytes_ltb [] (y ∷ ys) = true
bytes_ltb (x ∷ xs) [] = false
bytes_ltb (x ∷ xs) (y ∷ ys) = if ltb x y then true else if x == y then bytes_ltb xs ys else false

-- A key joins a sorted set of keys.
unfoldable pub insert_key : Bytes → List Bytes → List Bytes
unfolding bytes_ltb
insert_key k [] = k ∷ []
insert_key k (j ∷ js) =
    let rest = insert_key k js in
    if bytes_eq k j then j ∷ js else if bytes_ltb k j then k ∷ (j ∷ js) else j ∷ rest

-- `slices.Sorted(maps.Keys(m))` for the set of the given keys.
unfoldable pub sorted_keys : List Bytes → List Bytes
unfolding insert_key
sorted_keys [] = []
sorted_keys (k ∷ ks) = insert_key k (sorted_keys ks)
