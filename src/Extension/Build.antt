-- ===== src/Extension/Build.antt =====
-- What a registry that `NewRegistry` of extension/extension.go built finds.
use webauthn.Prelude.{
  ◌≡◌, sym, refl, arith, true, false, some, List, [], ◌∷◌, Bytes, bytes_eq, bytes_eq_iff, lookup,
  length, ltb, Bool-cases, ◌⊎◌, inl, inr,
}
use webauthn.Errors.{ok, >>=-eq-ok, refuse_if}
use webauthn.Extension.{
  Values, Binding, Handler, Registry, valid_binding, built_in_binding, reserved_mismatch,
  add_handler, add_handlers, new_registry, find, max_entries,
}

module _ (v : Values) where
  -- The handler is one of those that the registry is built from.
  abbrev pub Given : Handler v → List (Handler v) → Type 0
  Given h [] = ⊥
  Given h (x ∷ xs) = (x ≡ h) ⊎ Given h xs

  -- An entry is bound to its handler's id and revision, which are identifiers, and a reserved id to
  -- the revision that the package asks for.
  pub record IsEntry (id : Bytes) (b : Binding) (h : Handler v) : Type 0 where
    pub id_eq : b.id ≡ id
    pub handler_id : h.id ≡ id
    pub handler_revision : h.revision ≡ b.revision
    pub valid : valid_binding b ≡ true
    pub usable : h.valid ≡ true
    pub reserved :
        (expected : Binding) → built_in_binding id ≡ some expected → b.revision ≡ expected.revision

  abbrev binding_for : Handler v → Binding
  binding_for h = record { id = h.id; revision = h.revision }

  IsEntry-moved :
      {id id' : Bytes} {b b' : Binding} {h h' : Handler v}
      → b ≡ b'
      → h ≡ h'
      → id ≡ id'
      → IsEntry id b h
      → IsEntry id' b' h'
  IsEntry-moved b_eq h_eq id_eq entry = rw (sym b_eq, sym h_eq, sym id_eq) entry

  reserved-revision :
      (h : Handler v)
      → reserved_mismatch v h ≡ false
      → (expected : Binding) → built_in_binding h.id ≡ some expected
      → h.revision ≡ expected.revision
  reserved-revision h match expected e =
      ground (arith, match, e, bytes_eq_iff h.revision expected.revision)

  added-IsEntry :
      (r : Registry v) (h : Handler v) {r' : Registry v}
      → add_handler v r h ≡ ok r'
      → (r' ≡ (h.id, (binding_for h, h)) ∷ r) × IsEntry h.id (binding_for h) h
  unfolding add_handler
  added-IsEntry r h e = (
    ground (arith, e),
    record {
      id_eq = refl;
      handler_id = refl;
      handler_revision = refl;
      valid = ground (arith, e);
      usable = ground (arith, e);
      reserved = reserved-revision h (ground (arith, e));
    },
  )

  from_first :
      (r : Registry v) (x : Handler v) (xs : List (Handler v)) (id : Bytes) (b : Binding)
      (h : Handler v)
      → IsEntry x.id (binding_for x) x
      → lookup id ((x.id, (binding_for x, x)) ∷ r) ≡ some (b, h)
      → (lookup id r ≡ some (b, h)) ⊎ (IsEntry id b h × Given h (x ∷ xs))
  unfolding lookup
  from_first r x xs id b h entry found = elim (Bool-cases (bytes_eq x.id id)) [
    | inl same ↦
        let b_eq : binding_for x ≡ b = ground (arith, same, found) in
        let h_eq : x ≡ h = ground (arith, same, found) in
        let id_eq = (bytes_eq_iff x.id id).0 same in
        inr (IsEntry-moved b_eq h_eq id_eq entry, inl h_eq)
    | inr other ↦ inl (ground (arith, other, found))
  ]

  -- Whatever is found was there before, or is the entry of a handler that was added.
  add_handlers-found :
      (r : Registry v) (hs : List (Handler v)) {r' : Registry v}
      → add_handlers v r hs ≡ ok r'
      → (id : Bytes) (b : Binding) (h : Handler v) → lookup id r' ≡ some (b, h)
      → (lookup id r ≡ some (b, h)) ⊎ (IsEntry id b h × Given h hs)
  unfolding add_handlers
  add_handlers-found r [] e id b h found = inl (ground (arith, e, found))
  add_handlers-found r (x ∷ xs) e id b h found =
      let (r1, first, rest) = >>=-eq-ok (add_handler v r x) _ e in
      let (shape, entry) = added-IsEntry r x first in
      elim (add_handlers-found r1 xs rest id b h found) [
        | inr (is_entry, given) ↦ inr (is_entry, inr given)
        | inl before ↦ from_first r x xs id b h entry (rw shape at before)
      ]

  -- Whatever a built registry finds under an id is the entry of a handler that was given: it is bound
  -- to that id and to the handler's revision, both are identifiers, and a reserved id has the
  -- revision that the package asks for.
  pub new_registry_sound :
      (hs : List (Handler v)) {r : Registry v}
      → new_registry v hs ≡ ok r
      → (id : Bytes) (b : Binding) (h : Handler v) → find v (some r) id ≡ some (b, h)
      → IsEntry id b h × Given h hs
  unfolding new_registry find
  new_registry_sound hs e id b h found =
      let (_, _, built) = >>=-eq-ok (refuse_if (ltb max_entries (length hs)) _) _ e in
      elim (add_handlers-found [] hs built id b h found) [
        | inl before ↦ absurd (unfold lookup in cc)
        | inr both ↦ both
      ]
