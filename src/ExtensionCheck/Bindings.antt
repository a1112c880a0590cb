-- ===== src/ExtensionCheck/Bindings.antt =====
-- The bindings that the preparation of extensions makes, against their check at the finish.
use webauthn.Prelude.{
  ◌≡◌, sym, ap, ◌∙◌, refl, arith, Bool, true, false, not, Option, none, some, List, [], ◌∷◌, Bytes,
  bytes_eq, bytes_eq_iff, bytes_eq_refl, lookup, keys, sorted_keys, length, ltb, Bool-cases,
  Option-cases, inl, inr, if◌then◌else◌, contains,
}
use webauthn.Errors.{Result, ok, >>=-eq-ok, refuse_if, wrapped, each}
use webauthn.Protocol.Identifier.{valid_identifier}
use webauthn.Extension.{
  Values, Binding, Handler, Registry, new_registry, binding_eq, registry_binding, registry_contains,
  find, max_entries,
}
use webauthn.Extension.Build.{new_registry_sound}
use webauthn.ExtensionCheck.{Inputs, bound, rebind, validate_finish_extension_bindings}
use webauthn.ExtensionCheck.Prepare.{
  prepare_extension, prepare_each, prepare_extension_inputs, clone_extension_inputs, add_binding,
  clone_entry, policy_error, is_nil_registry,
}

module _ (v : Values) (r : Option (Registry v)) where
  -- What a registry that was built finds under an id carries that id.
  pub record IsKeyed : Type 0 where
    pub keyed : (id : Bytes) (b : Binding) → registry_binding v r id ≡ some b → b.id ≡ id

  -- The bindings of the registry under some ids, in their order.
  abbrev pub bindings_at : List Bytes → List Binding
  bindings_at [] = []
  bindings_at (id ∷ ids) = add_binding v (registry_binding v r id) (bindings_at ids)

  pub contains-binding :
      (id : Bytes) → registry_contains v r id ≡ false → registry_binding v r id ≡ none
  unfolding registry_contains registry_binding
  contains-binding id h = elim (Option-cases (find v r id)) [
    | inl e ↦ rw e refl
    | inr (x, e) ↦ absurd (ground (arith, e))
  ]

  -- One prepared extension has the registry's binding.
  prepare_extension-binding :
      (operation : Bytes) (reject : Bool) (transform : Bytes → v.Input → Result v.Input)
      (inputs : Inputs v) (id : Bytes) {value : v.Input} {b : Option Binding}
      → prepare_extension v operation r reject transform inputs id ≡ ok (value, b)
      → b ≡ registry_binding v r id
  unfolding prepare_extension
  prepare_extension-binding operation reject transform inputs id h =
      let (_, _, h1) = >>=-eq-ok (refuse_if (not (valid_identifier id)) _) _ h in
      let (cloned, _, h2) =
        >>=-eq-ok (wrapped policy_error (clone_entry v (lookup id inputs))) _ h1 in
      let (value, _, h3) = >>=-eq-ok (wrapped policy_error (transform id cloned)) _ h2 in
      elim (Bool-cases (registry_contains v r id)) [
        | inl e ↦ elim (Option-cases (registry_binding v r id)) [
          | inl none_eq ↦ absurd (ground (arith, e, h3, none_eq))
          | inr (x, some_eq) ↦ ground (arith, e, h3, some_eq)
        ]
        | inr e ↦ ground (arith, e, h3, contains-binding id e)
      ]

  prepare_each-bindings :
      (operation : Bytes) (reject : Bool) (transform : Bytes → v.Input → Result v.Input)
      (inputs : Inputs v) (ids : List Bytes) {out : Inputs v} {bs : List Binding}
      → prepare_each v operation r reject transform inputs ids ≡ ok (out, bs)
      → (keys out ≡ ids) × (bs ≡ bindings_at ids)
  unfolding prepare_each
  prepare_each-bindings operation reject transform inputs [] h =
      (ground (arith, h), ground (arith, h))
  prepare_each-bindings operation reject transform inputs (id ∷ ids) h =
      let ((value, b), first, h1) =
        >>=-eq-ok (prepare_extension v operation r reject transform inputs id) _ h in
      let ((out, bs), rest, h2) =
        >>=-eq-ok (prepare_each v operation r reject transform inputs ids) _ h1 in
      let b_eq = prepare_extension-binding operation reject transform inputs id first in
      let (keys_eq, bs_eq) = prepare_each-bindings operation reject transform inputs ids rest in
      (ground (arith, h2, keys_eq), ground (arith, h2, b_eq, bs_eq))

  pub clone_inputs-keys :
      (inputs : Inputs v) {out : Inputs v}
      → clone_extension_inputs v inputs ≡ ok out
      → keys out ≡ keys inputs
  unfolding clone_extension_inputs
  clone_inputs-keys [] h = ground (arith, h)
  clone_inputs-keys ((id, value) ∷ rest) h =
      let (cloned, _, h1) = >>=-eq-ok (v.clone_input value) _ h in
      let (out, copied, h2) = >>=-eq-ok (clone_extension_inputs v rest) _ h1 in
      ground (arith, h2, clone_inputs-keys rest copied)

  -- The prepared inputs and the bindings are those of the sorted ids.
  pub prepare_inputs-bindings :
      (operation : Bytes) (inputs : Inputs v) (reject : Bool)
      (transform : Bytes → v.Input → Result v.Input) {out : Inputs v} {bs : List Binding}
      → prepare_extension_inputs v operation inputs r reject transform ≡ ok (out, bs)
      → (keys out ≡ sorted_keys (keys inputs)) × (bs ≡ bindings_at (sorted_keys (keys inputs)))
  unfolding prepare_extension_inputs
  prepare_inputs-bindings operation [] reject transform h =
      unfold sorted_keys in (ground (arith, h), ground (arith, h))
  prepare_inputs-bindings operation (e ∷ es) reject transform h =
      let (_, _, h1) = >>=-eq-ok (refuse_if (ltb max_entries (length (e ∷ es))) _) _ h in
      let (_, _, h2) = >>=-eq-ok (refuse_if (is_nil_registry v r) _) _ h1 in
      prepare_each-bindings operation reject transform (e ∷ es) (sorted_keys (keys (e ∷ es))) h2

  -- The last binding under an id that is in the list is the registry's, and none is otherwise.
  pub bound-at :
      IsKeyed
      → (id : Bytes) (ids : List Bytes)
      → bound (bindings_at ids) id ≡ (if contains ids id then registry_binding v r id else none)
  unfolding bound contains
  bound-at k id [] = refl
  bound-at k id (j ∷ js) = elim (Option-cases (registry_binding v r j)) [
    | inl e ↦ elim (Bool-cases (bytes_eq id j)) [
      | inl same ↦
          let here : registry_binding v r id ≡ none =
            ap (λ (t : Bytes). registry_binding v r t) ((bytes_eq_iff id j).0 same) ∙ e in
          ground (arith, e, same, here, bound-at k id js)
      | inr other ↦ ground (arith, e, other, bound-at k id js)
    ]
    | inr (b, e) ↦ elim (Bool-cases (bytes_eq id j)) [
      | inl same ↦
          let here : registry_binding v r id ≡ some b =
            ap (λ (t : Bytes). registry_binding v r t) ((bytes_eq_iff id j).0 same) ∙ e in
          let own : bytes_eq b.id id ≡ true =
            (bytes_eq_iff b.id id).1 (k.keyed j b e ∙ sym ((bytes_eq_iff id j).0 same)) in
          ground (arith, e, same, here, own, bound-at k id js)
      | inr other ↦
          let distinct : bytes_eq b.id id ≡ false =
            ground (arith, bytes_eq_iff b.id id, bytes_eq_iff id j, other, k.keyed j b e) in
          ground (arith, e, other, distinct, bound-at k id js)
    ]
  ]

  binding_eq_refl : (b : Binding) → binding_eq b b ≡ true
  binding_eq_refl b = ground (arith, bytes_eq_refl b.id, bytes_eq_refl b.revision)

  -- What is bound alike at both ends passes.
  rebind-same : (id : Bytes) (b : Option Binding) → rebind id b b ≡ ok tt
  rebind-same id none = refl
  rebind-same id (some b) = ground (arith, binding_eq_refl b)

  rebind-each :
      IsKeyed
      → (all ids : List Bytes) → ((id : Bytes) → contains ids id ≡ true → contains all id ≡ true)
      → each (λ id. rebind id (bound (bindings_at all) id) (registry_binding v r id)) ids ≡ ok tt
  unfolding each
  rebind-each k all [] within = refl
  rebind-each k all (id ∷ ids) within =
      let listed : contains all id ≡ true =
        within id (unfold contains in ground (arith, bytes_eq_refl id)) in
      let found : bound (bindings_at all) id ≡ registry_binding v r id =
        ground (arith, listed, bound-at k id all) in
      let rest = rebind-each k all ids (λ j h. within j (unfold contains in ground (arith, h))) in
      rw found (ground (arith, rebind-same id (registry_binding v r id), rest))

  -- What was prepared, and copied for the state, is bound as the registry still binds it.
  prepared_inputs-finish :
      IsKeyed
      → (operation : Bytes) (inputs : Inputs v) (reject : Bool)
        (transform : Bytes → v.Input → Result v.Input) {prepared stored : Inputs v}
        {bs : List Binding}
      → prepare_extension_inputs v operation inputs r reject transform ≡ ok (prepared, bs)
      → clone_extension_inputs v prepared ≡ ok stored
      → validate_finish_extension_bindings v stored bs r ≡ ok tt
  unfolding validate_finish_extension_bindings
  prepared_inputs-finish k operation inputs reject transform {prepared} {stored} {bs} h copied =
      let ids = sorted_keys (keys inputs) in
      let (keys_eq, bs_eq) = prepare_inputs-bindings operation inputs reject transform h in
      let stored_keys : keys stored ≡ ids = clone_inputs-keys prepared copied ∙ keys_eq in
      rw (stored_keys, bs_eq) (rebind-each k ids ids (λ id listed. listed))

pub new_registry-IsKeyed :
    (v : Values) (hs : List (Handler v)) {r : Registry v}
    → new_registry v hs ≡ ok r
    → IsKeyed v (some r)
unfolding registry_binding
new_registry-IsKeyed v hs {r} built = record {
  keyed = λ id b e. elim (Option-cases (find v (some r) id)) [
    | inl none_eq ↦ absurd (ground (arith, e, none_eq))
    | inr ((b', h), found) ↦
        let same : b' ≡ b = ground (arith, e, found) in
        sym (ap (λ (z : Binding). z.id) same)
        ∙ (new_registry_sound v hs built id b' h found).0.id_eq
  ];
}

-- The bindings that a ceremony's start hands out for the inputs it copies into the state pass the
-- check at its finish, if the registry was built by the package and is the same at both ends.
pub start_bindings-finish :
    (v : Values) (hs : List (Handler v)) {r : Registry v}
    → new_registry v hs ≡ ok r
    → (operation : Bytes) (inputs : Inputs v) (reject : Bool)
      (transform : Bytes → v.Input → Result v.Input) {prepared stored : Inputs v}
      {bs : List Binding}
    → prepare_extension_inputs v operation inputs (some r) reject transform ≡ ok (prepared, bs)
    → clone_extension_inputs v prepared ≡ ok stored
    → validate_finish_extension_bindings v stored bs (some r) ≡ ok tt
start_bindings-finish v hs {r} built operation inputs reject transform started copied =
    prepared_inputs-finish v (some r) (new_registry-IsKeyed v hs built) operation inputs reject
      transform started copied
