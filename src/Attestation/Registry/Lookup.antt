-- ===== src/Attestation/Registry/Lookup.antt =====
-- What `Lookup` finds in a registry that `NewRegistry` built.
use webauthn.Prelude.{
  ◌≡◌, sym, ap, ◌∙◌, ◌⊎◌, ◌↔◌, inl, inr, arith, true, Option, none, some, List, [], ◌∷◌, Bytes,
  bytes_eq, bytes_eq_iff, bytes_eq_refl, lookup, Bool-cases,
}
use webauthn.Errors.{ok, >>=-eq-ok}
use webauthn.Protocol.Identifier.{valid_identifier}
use webauthn.Attestation.Registry.{
  Verifier, Registry, add_verifier, add_verifiers, new_verifier_registry, lookup_verifier,
}

module _ (S E : Type 0) where
  -- The verifier is one of those that the registry is built from.
  abbrev pub Given : Verifier S E → List (Option (Verifier S E)) → Type 0
  Given x [] = ⊥
  Given x (y ∷ ys) = (y ≡ some x) ⊎ Given x ys

  -- A verifier that is added is found under its format, which was free.
  added :
      (r : Registry S E) (x : Verifier S E) {r' : Registry S E}
      → add_verifier S E r (some x) ≡ ok r'
      → (r' ≡ (x.format, x) ∷ r) × (valid_identifier x.format ≡ true) × (lookup x.format r ≡ none)
  unfolding add_verifier
  added r x h = ground arith

  -- A verifier that was found is still found after an addition.
  add_verifier-lookup :
      (r : Registry S E) (y : Option (Verifier S E)) {r' : Registry S E}
      → add_verifier S E r y ≡ ok r'
      → (f : Bytes) (x : Verifier S E) → lookup f r ≡ some x
      → lookup f r' ≡ some x
  add_verifier-lookup r none h f x found = absurd (unfold add_verifier in cc)
  add_verifier-lookup r (some y) h f x found =
      let (shape, valid, free) = added r y h in
      elim (Bool-cases (bytes_eq y.format f)) [
        | inl e ↦ let same = (bytes_eq_iff y.format f).0 e in absurd (cc (free, found, same))
        | inr ne ↦ rw shape (unfold lookup in ground (arith, ne))
      ]

  add_verifiers-lookup :
      (r : Registry S E) (ys : List (Option (Verifier S E))) {r' : Registry S E}
      → add_verifiers S E r ys ≡ ok r'
      → (f : Bytes) (x : Verifier S E) → lookup f r ≡ some x
      → lookup f r' ≡ some x
  unfolding add_verifiers
  add_verifiers-lookup r [] h f x found = ground (arith, found)
  add_verifiers-lookup r (y ∷ ys) h f x found =
      let (r1, first, rest) = >>=-eq-ok (add_verifier S E r y) _ h in
      add_verifiers-lookup r1 ys rest f x (add_verifier-lookup r y first f x found)

  -- Every verifier that is added is found in the end.
  add_verifiers-Given :
      (r : Registry S E) (ys : List (Option (Verifier S E))) {r' : Registry S E}
      → add_verifiers S E r ys ≡ ok r'
      → (x : Verifier S E) → Given x ys
      → (lookup x.format r' ≡ some x) × (valid_identifier x.format ≡ true)
  unfolding add_verifiers
  add_verifiers-Given r [] h x given = elim given [ ]
  add_verifiers-Given r (y ∷ ys) h x (inr given) =
      let (r1, first, rest) = >>=-eq-ok (add_verifier S E r y) _ h in
      add_verifiers-Given r1 ys rest x given
  add_verifiers-Given r (y ∷ ys) h x (inl e) =
      let (r1, first, rest) = >>=-eq-ok (add_verifier S E r y) _ h in
      let (shape, valid, free) = added r x (rw e at first) in
      let here : lookup x.format r1 ≡ some x =
        rw shape (unfold lookup in ground (arith, bytes_eq_refl x.format)) in
      (add_verifiers-lookup r1 ys rest x.format x here, valid)

  -- Whatever is found was there before, or was added under its own format.
  add_verifiers-found :
      (r : Registry S E) (ys : List (Option (Verifier S E))) {r' : Registry S E}
      → add_verifiers S E r ys ≡ ok r'
      → (f : Bytes) (x : Verifier S E) → lookup f r' ≡ some x
      → (lookup f r ≡ some x) ⊎ ((x.format ≡ f) × Given x ys)
  unfolding add_verifiers
  add_verifiers-found r [] h f x found = inl (ground (arith, found))
  add_verifiers-found r (none ∷ ys) h f x found = absurd (unfold add_verifier in cc)
  add_verifiers-found r (some y ∷ ys) h f x found =
      let (r1, first, rest) = >>=-eq-ok (add_verifier S E r (some y)) _ h in
      let (shape, valid, free) = added r y first in
      elim (add_verifiers-found r1 ys rest f x found) [
        | inr (e, given) ↦ inr (e, inr given)
        | inl before ↦
            let seen : lookup f ((y.format, y) ∷ r) ≡ some x = rw shape at before in
            elim (Bool-cases (bytes_eq y.format f)) [
              | inl e ↦
                  let y_eq : y ≡ x = unfold lookup in ground (arith, e, seen) in
                  let same = (bytes_eq_iff y.format f).0 e in
                  inr (ap (λ z. z.format) (sym y_eq) ∙ same, inl (ap some y_eq))
              | inr ne ↦ inl (unfold lookup in ground (arith, ne, seen))
            ]
      ]

  -- No verifier is nil, and the format of each is a valid identifier.
  abbrev pub AllNamed : List (Option (Verifier S E)) → Type 0
  AllNamed [] = Unit {0}
  AllNamed (none ∷ ys) = ⊥
  AllNamed (some y ∷ ys) = (valid_identifier y.format ≡ true) × AllNamed ys

  add_verifiers-AllNamed :
      (r : Registry S E) (ys : List (Option (Verifier S E))) {r' : Registry S E}
      → add_verifiers S E r ys ≡ ok r'
      → AllNamed ys
  unfolding add_verifiers
  add_verifiers-AllNamed r [] h = tt
  add_verifiers-AllNamed r (none ∷ ys) h = absurd (unfold add_verifier in cc)
  add_verifiers-AllNamed r (some y ∷ ys) h =
      let (r1, first, rest) = >>=-eq-ok (add_verifier S E r (some y)) _ h in
      let (shape, valid, free) = added r y first in (valid, add_verifiers-AllNamed r1 ys rest)

  -- A registry that is built was given verifiers whose formats are all valid identifiers. It finds
  -- each of them under its format, and whatever it finds is a given verifier of the format asked
  -- for.
  pub new_verifier_registry-lookup :
      (xs : List (Option (Verifier S E))) {r : Registry S E}
      → new_verifier_registry S E xs ≡ ok r
      → (f : Bytes) (x : Verifier S E)
      → AllNamed xs × ((lookup_verifier S E (some r) f ≡ some x) ↔ ((x.format ≡ f) × Given x xs))
  unfolding new_verifier_registry lookup_verifier
  new_verifier_registry-lookup xs {r} h f x = (
    add_verifiers-AllNamed [] xs h,
    (
      λ found. elim (add_verifiers-found [] xs h f x found) [
        | inl e ↦ absurd (unfold lookup in cc)
        | inr both ↦ both
      ],
      λ (e, given).
          ap (λ (t : Bytes). lookup_verifier S E (some r) t) (sym e)
          ∙ (add_verifiers-Given [] xs h x given).0,
    ),
  )
