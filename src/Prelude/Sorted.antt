-- ===== src/Prelude/Sorted.antt =====
-- The order of strings, and the sorted keys of maps.
use Prim.Native.Nat.{suc, ◌≤◌}
use mathlib.Core.Path.{◌≡◌, refl, ◌∙◌}
use mathlib.Core.Logic.{inl, inr, ◌⊎◌, ◌↔◌}
use mathlib.Core.Bool.{true, false}
use mathlib.Core.List.{List, [], ◌∷◌, ◌++◌}
use native.Mathlib.Omega.{arith}
use webauthn.Prelude.Tests.{Bool-cases}
use webauthn.Prelude.Lists.{length}
use webauthn.Prelude.Slices.{Bytes, bytes_eq, bytes_eq_iff, Listed}
use webauthn.Prelude.Maps.{bytes_ltb, insert_key, sorted_keys}

pub bytes_ltb_irrefl : (x : Bytes) → bytes_ltb x x ≡ false
unfolding bytes_ltb
bytes_ltb_irrefl [] = refl
bytes_ltb_irrefl (x ∷ xs) = ground (arith, bytes_ltb_irrefl xs)

pub bytes_ltb_trans :
    (x y z : Bytes) → bytes_ltb x y ≡ true → bytes_ltb y z ≡ true → bytes_ltb x z ≡ true
unfolding bytes_ltb
bytes_ltb_trans [] [] [] h k = absurd cc
bytes_ltb_trans [] (b ∷ y) [] h k = absurd cc
bytes_ltb_trans [] y (c ∷ z) h k = refl
bytes_ltb_trans (a ∷ x) [] z h k = absurd cc
bytes_ltb_trans (a ∷ x) (b ∷ y) [] h k = absurd cc
bytes_ltb_trans (a ∷ x) (b ∷ y) (c ∷ z) h k = ground (arith, bytes_ltb_trans x y z)

pub bytes_ltb_total :
    (x y : Bytes) → bytes_eq x y ≡ false → bytes_ltb x y ≡ false → bytes_ltb y x ≡ true
unfolding bytes_ltb bytes_eq
bytes_ltb_total [] [] ne h = absurd cc
bytes_ltb_total [] (b ∷ y) ne h = absurd cc
bytes_ltb_total (a ∷ x) [] ne h = refl
bytes_ltb_total (a ∷ x) (b ∷ y) ne h = ground (arith, bytes_ltb_total x y)

-- Every key is above the given one.
abbrev pub AllAbove : Bytes → List Bytes → Type 0
AllAbove k [] = Unit {0}
AllAbove k (j ∷ js) = (bytes_ltb k j ≡ true) × AllAbove k js

abbrev pub Ordered : List Bytes → Type 0
Ordered [] = Unit {0}
Ordered (k ∷ ks) = AllAbove k ks × Ordered ks

AllAbove-bytes_ltb :
    (k j : Bytes) (js : List Bytes) → bytes_ltb k j ≡ true → AllAbove j js → AllAbove k js
AllAbove-bytes_ltb k j [] h above = tt
AllAbove-bytes_ltb k j (i ∷ is) h (first, rest) =
    (bytes_ltb_trans k j i h first, AllAbove-bytes_ltb k j is h rest)

-- A key above which a new key is stays below the extended set.
insert_key-AllAbove :
    (i k : Bytes) (js : List Bytes)
    → bytes_ltb i k ≡ true
    → AllAbove i js
    → AllAbove i (insert_key k js)
unfolding insert_key
insert_key-AllAbove i k [] h above = (h, tt)
insert_key-AllAbove i k (j ∷ js) h (first, rest) = elim (Bool-cases (bytes_eq k j)) [
  | inl e ↦ rw e (first, rest)
  | inr ne ↦ elim (Bool-cases (bytes_ltb k j)) [
    | inl below ↦ rw (ne, below) (h, (first, rest))
    | inr over ↦ rw (ne, over) (first, insert_key-AllAbove i k js h rest)
  ]
]

insert_key-Ordered : (k : Bytes) (js : List Bytes) → Ordered js → Ordered (insert_key k js)
unfolding insert_key
insert_key-Ordered k [] o = (tt, tt)
insert_key-Ordered k (j ∷ js) (above, o) = elim (Bool-cases (bytes_eq k j)) [
  | inl e ↦ rw e (above, o)
  | inr ne ↦ elim (Bool-cases (bytes_ltb k j)) [
    | inl below ↦ rw (ne, below) ((below, AllAbove-bytes_ltb k j js below above), (above, o))
    | inr over ↦
        rw (ne, over)
          (
            insert_key-AllAbove j k js (bytes_ltb_total k j ne over) above,
            insert_key-Ordered k js o,
          )
  ]
]

pub sorted_keys-Ordered : (ks : List Bytes) → Ordered (sorted_keys ks)
unfolding sorted_keys
sorted_keys-Ordered [] = tt
sorted_keys-Ordered (k ∷ ks) = insert_key-Ordered k (sorted_keys ks) (sorted_keys-Ordered ks)

insert_key-length : (k : Bytes) (js : List Bytes) → length (insert_key k js) ≤ suc (length js)
unfolding insert_key
insert_key-length k [] = omega arith
insert_key-length k (j ∷ js) = ground (arith, insert_key-length k js)

pub sorted_keys-length : (ks : List Bytes) → length (sorted_keys ks) ≤ length ks
unfolding sorted_keys
sorted_keys-length [] = omega arith
sorted_keys-length (k ∷ ks) =
    omega (arith, sorted_keys-length ks, insert_key-length k (sorted_keys ks))

insert_key-Listed :
    (k : Bytes) (js : List Bytes) (x : Bytes) → Listed x (insert_key k js) → Listed x (k ∷ js)
unfolding insert_key
insert_key-Listed k [] x l = l
insert_key-Listed k (j ∷ js) x l = elim (Bool-cases (bytes_eq k j)) [
  | inl e ↦ inr (rw e at l)
  | inr ne ↦ elim (Bool-cases (bytes_ltb k j)) [
    | inl below ↦ rw (ne, below) at l
    | inr over ↦ elim (rw (ne, over) at l) as (λ _. Listed x (k ∷ j ∷ js)) [
      | inl e ↦ inr (inl e)
      | inr rest ↦ elim (insert_key-Listed k js x rest) [
        | inl e ↦ inl e
        | inr there ↦ inr (inr there)
      ]
    ]
  ]
]

Listed-insert_key :
    (k : Bytes) (js : List Bytes) (x : Bytes) → Listed x (k ∷ js) → Listed x (insert_key k js)
unfolding insert_key
Listed-insert_key k [] x l = l
Listed-insert_key k (j ∷ js) x l = elim (Bool-cases (bytes_eq k j)) [
  | inl e ↦ rw e (elim l [ inl first ↦ inl (first ∙ (bytes_eq_iff k j).0 e) | inr there ↦ there ])
  | inr ne ↦ elim (Bool-cases (bytes_ltb k j)) [
    | inl below ↦ rw (ne, below) l
    | inr over ↦
        rw (ne, over)
          (elim l [
            | inl first ↦ inr (Listed-insert_key k js x (inl first))
            | inr (inl second) ↦ inl second
            | inr (inr there) ↦ inr (Listed-insert_key k js x (inr there))
          ])
  ]
]

-- Sorting keeps every key and adds none.
pub sorted_keys-Listed_iff : (ks : List Bytes) (x : Bytes) → Listed x (sorted_keys ks) ↔ Listed x ks
unfolding sorted_keys
sorted_keys-Listed_iff [] x = (λ l. l, λ l. l)
sorted_keys-Listed_iff (k ∷ ks) x =
    let (to, from) = sorted_keys-Listed_iff ks x in
    (
      λ l. elim (insert_key-Listed k (sorted_keys ks) x l) [
        | inl e ↦ inl e
        | inr there ↦ inr (to there)
      ],
      λ l.
          Listed-insert_key k (sorted_keys ks) x
            (elim l [ inl e ↦ inl e | inr there ↦ inr (from there) ]),
    )

pub append-Listed_iff :
    (xs ys : List Bytes) (x : Bytes) → Listed x (xs ++ ys) ↔ (Listed x xs ⊎ Listed x ys)
append-Listed_iff [] ys x =
    (λ l. inr l, λ l. elim l [ inl none_there ↦ absurd none_there | inr there ↦ there ])
append-Listed_iff (y ∷ xs) ys x =
    let (to, from) = append-Listed_iff xs ys x in
    (
      λ l. elim l [
        | inl e ↦ inl (inl e)
        | inr later ↦ elim (to later) [ inl there ↦ inl (inr there) | inr there ↦ inr there ]
      ],
      λ l. elim l [
        | inl (inl e) ↦ inl e
        | inl (inr there) ↦ inr (from (inl there))
        | inr there ↦ inr (from (inr there))
      ],
    )
