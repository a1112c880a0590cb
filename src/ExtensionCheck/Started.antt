-- ===== src/ExtensionCheck/Started.antt =====
-- A stored state gets its extensions from extension_verification.go and is validated by validation.go.
use webauthn.Prelude.{
  ◌≤◌, ◌≡◌, sym, ◌∙◌, refl, arith, Bool, true, not, Option, some, List, [], ◌∷◌, Bytes, bytes_eq,
  bytes_eq_iff, lookup, keys, sorted_keys, length, ltb, Bool-cases, Option-cases, inl, inr,
  contains,
}
use webauthn.Prelude.Sorted.{sorted_keys-Ordered, sorted_keys-length}
use webauthn.Errors.{Result, ok, >>=-eq-ok, refuse_if, wrapped}
use webauthn.Protocol.Identifier.{valid_identifier}
use webauthn.Extension.{
  Values, Binding, Handler, Registry, new_registry, binding_eq, built_in_binding, registry_binding,
  registry_contains, find, max_entries,
}
use webauthn.Extension.Build.{IsEntry, new_registry_sound}
use webauthn.ExtensionCheck.{Inputs, validate_extension_binding_state}
use webauthn.ExtensionCheck.Prepare.{
  prepare_extension, prepare_each, prepare_extension_inputs, clone_extension_inputs, clone_entry,
  policy_error, is_nil_registry,
}
use webauthn.ExtensionCheck.Bindings.{prepare_inputs-bindings, clone_inputs-keys}
use webauthn.ExtensionCheck.State.{IsBinding, Reserved, bindings_at-validated}

built_in-id : (id : Bytes) (e : Binding) → built_in_binding id ≡ some e → e.id ≡ id
unfolding built_in_binding
built_in-id id e h = ground (arith, h)

module _ (v : Values) (r : Option (Registry v)) where
  -- A reserved id is prepared only if the registry has a handler for it.
  prepare_extension-reserved :
      (operation : Bytes) (reject : Bool) (transform : Bytes → v.Input → Result v.Input)
      (inputs : Inputs v) (id : Bytes) {out : v.Input × Option Binding}
      → prepare_extension v operation r reject transform inputs id ≡ ok out
      → (e : Binding) → built_in_binding id ≡ some e
      → registry_contains v r id ≡ true
  unfolding prepare_extension
  prepare_extension-reserved operation reject transform inputs id h e reserved =
      let (_, _, h1) = >>=-eq-ok (refuse_if (not (valid_identifier id)) _) _ h in
      let (cloned, _, h2) =
        >>=-eq-ok (wrapped policy_error (clone_entry v (lookup id inputs))) _ h1 in
      let (value, _, h3) = >>=-eq-ok (wrapped policy_error (transform id cloned)) _ h2 in
      ground (arith, h3, reserved)

  prepare_each-reserved :
      (operation : Bytes) (reject : Bool) (transform : Bytes → v.Input → Result v.Input)
      (inputs : Inputs v) (ids : List Bytes) {out : Inputs v × List Binding}
      → prepare_each v operation r reject transform inputs ids ≡ ok out
      → (id : Bytes) (e : Binding) → contains ids id ≡ true
      → built_in_binding id ≡ some e
      → registry_contains v r id ≡ true
  unfolding prepare_each contains
  prepare_each-reserved operation reject transform inputs [] h id e listed reserved = absurd cc
  prepare_each-reserved operation reject transform inputs (j ∷ js) h id e listed reserved =
      let ((value, b), first, h1) =
        >>=-eq-ok (prepare_extension v operation r reject transform inputs j) _ h in
      let ((out, bs), rest, h2) =
        >>=-eq-ok (prepare_each v operation r reject transform inputs js) _ h1 in
      elim (Bool-cases (bytes_eq id j)) [
        | inl same ↦
            let id_eq = (bytes_eq_iff id j).0 same in
            rw id_eq (
              prepare_extension-reserved operation reject transform inputs j first e
                (rw id_eq at reserved))
        | inr other ↦
            prepare_each-reserved operation reject transform inputs js rest id e
              (ground (arith, listed, other)) reserved
      ]

  -- Where inputs are prepared, there are at most as many as the package allows, and reserved ids
  -- have a handler.
  prepare_inputs-reserved :
      (operation : Bytes) (inputs : Inputs v) (reject : Bool)
      (transform : Bytes → v.Input → Result v.Input) {out : Inputs v × List Binding}
      → prepare_extension_inputs v operation inputs r reject transform ≡ ok out
      → (length inputs ≤ 64)
        × ((id : Bytes) (e : Binding)
            → contains (sorted_keys (keys inputs)) id ≡ true
            → built_in_binding id ≡ some e
            → registry_contains v r id ≡ true)
  unfolding prepare_extension_inputs
  prepare_inputs-reserved operation [] reject transform h =
      (omega arith, λ id e listed reserved. absurd (unfold sorted_keys contains in cc))
  prepare_inputs-reserved operation (x ∷ xs) reject transform h =
      let (_, small, h1) = >>=-eq-ok (refuse_if (ltb max_entries (length (x ∷ xs))) _) _ h in
      let (_, _, h2) = >>=-eq-ok (refuse_if (is_nil_registry v r) _) _ h1 in
      (
        ground (arith, small),
        prepare_each-reserved operation reject transform (x ∷ xs) (sorted_keys (keys (x ∷ xs))) h2,
      )

  bound_of :
      (id : Bytes)
      → registry_contains v r id ≡ true
      → (b : Binding) × (registry_binding v r id ≡ some b)
  unfolding registry_contains registry_binding
  bound_of id h = elim (Option-cases (find v r id)) [
    | inl none_eq ↦ absurd (ground (arith, h, none_eq))
    | inr ((b, x), found) ↦ (b, ground (arith, found))
  ]

keys-length : (v : Values) (inputs : Inputs v) → length (keys inputs) ≡ length inputs
keys-length v [] = refl
keys-length v ((id, x) ∷ rest) = ground (arith, keys-length v rest)

module _ (v : Values) (hs : List (Handler v)) {r : Registry v} where
  registry_binding-IsEntry :
      new_registry v hs ≡ ok r
      → (id : Bytes) (b : Binding) → registry_binding v (some r) id ≡ some b
      → (h : Handler v) × IsEntry v id b h
  unfolding registry_binding
  registry_binding-IsEntry built id b e = elim (Option-cases (find v (some r) id)) [
    | inl none_eq ↦ absurd (ground (arith, e, none_eq))
    | inr ((b', h), found) ↦
        let same : b' ≡ b = ground (arith, e, found) in
        (h, rw (sym same) (new_registry_sound v hs built id b' h found).0)
  ]

  new_registry-IsBinding :
      new_registry v hs ≡ ok r → (inputs : Inputs v) → IsBinding v (some r) inputs
  new_registry-IsBinding built inputs = record {
    keyed = λ id b e. (registry_binding-IsEntry built id b e).1.id_eq;
    valid = λ id b e. (registry_binding-IsEntry built id b e).1.valid;
  }

  reserved_of :
      new_registry v hs ≡ ok r
      → (id : Bytes) (e : Binding) → built_in_binding id ≡ some e
      → registry_contains v (some r) id ≡ true
      → (b : Binding) × (registry_binding v (some r) id ≡ some b) × (binding_eq b e ≡ true)
  reserved_of built id e reserved known =
      let (b, b_eq) = bound_of v (some r) id known in
      let (h, entry) = registry_binding-IsEntry built id b b_eq in
      let ids : b.id ≡ e.id = entry.id_eq ∙ sym (built_in-id id e reserved) in
      let revisions = entry.reserved e reserved in
      (
        b,
        b_eq,
        ground (
          arith,
          (bytes_eq_iff b.id e.id).1 ids,
          (bytes_eq_iff b.revision e.revision).1 revisions,
        ),
      )

  -- The bindings that a ceremony's start hands out, with the inputs it copies into the state, pass
  -- the validation of a stored state, if the registry was built by the package: they are sorted,
  -- distinct, valid, requested, within the bound, and reserved ids have the package's revisions.
  pub start_bindings-state :
      new_registry v hs ≡ ok r
      → (operation : Bytes) (inputs : Inputs v) (reject : Bool)
        (transform : Bytes → v.Input → Result v.Input) {prepared stored : Inputs v}
        {bs : List Binding}
      → prepare_extension_inputs v operation inputs (some r) reject transform ≡ ok (prepared, bs)
      → clone_extension_inputs v prepared ≡ ok stored
      → validate_extension_binding_state v stored bs ≡ ok tt
  start_bindings-state built operation inputs reject transform {prepared} {stored} {bs} started
        copied =
      let ids = sorted_keys (keys inputs) in
      let (keys_eq, bs_eq) =
        prepare_inputs-bindings v (some r) operation inputs reject transform started in
      let stored_keys : keys stored ≡ ids =
        clone_inputs-keys v (some r) prepared copied ∙ keys_eq in
      let (small, handled) =
        prepare_inputs-reserved v (some r) operation inputs reject transform started in
      let reserved : Reserved v (some r) stored ids = λ id e listed is_reserved.
        reserved_of built id e is_reserved (handled id e listed is_reserved) in
      rw bs_eq (
        bindings_at-validated v (some r) stored (new_registry-IsBinding built stored) ids
          stored_keys (sorted_keys-Ordered (keys inputs))
          (omega (arith, sorted_keys-length (keys inputs), keys-length v inputs, small)) reserved)
