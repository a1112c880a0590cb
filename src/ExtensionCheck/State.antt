-- ===== src/ExtensionCheck/State.antt =====
-- The bindings that a start hands out, against the validation of a stored state in validation.go.
use webauthn.Prelude.{
  ◌≤◌, ◌≡◌, sym, ◌∙◌, refl, arith, true, false, Option, some, List, [], ◌∷◌, Bytes, bytes_eq,
  bytes_eq_iff, bytes_eq_refl, bytes_ltb, lookup, keys, length, ltb, Bool-cases, Option-cases, inl,
  inr, contains, Assoc,
}
use webauthn.Prelude.Sorted.{AllAbove, Ordered, bytes_ltb_irrefl, bytes_ltb_trans}
use webauthn.Errors.{ok, each}
use webauthn.Protocol.Identifier.{valid_identifier}
use webauthn.Extension.{
  Values, Binding, Registry, valid_binding, binding_eq, built_in_binding, registry_binding,
}
use webauthn.ExtensionCheck.{
  Inputs, bound, is_sorted, is_requested, matches, validate_bindings, validate_built_in,
  validate_extension_binding_state,
}
use webauthn.ExtensionCheck.Bindings.{IsKeyed, bindings_at, bound-at}

lookup-keys :
    {V : Type 0} (m : Assoc V) (id : Bytes) → contains (keys m) id ≡ true → is_requested m id ≡ true
unfolding contains lookup
lookup-keys [] id h = absurd cc
lookup-keys ((j, x) ∷ m) id h = elim (Bool-cases (bytes_eq j id)) [
  | inl e ↦ ground (arith, e)
  | inr ne ↦ ground (arith, ne, lookup-keys m id, bytes_eq_iff j id, bytes_eq_iff id j)
]

identifier-above : (id : Bytes) → valid_identifier id ≡ true → bytes_ltb [] id ≡ true
unfolding valid_identifier bytes_ltb
identifier-above [] h = absurd (ground arith)
identifier-above (c ∷ id) h = refl

bytes_ltb_asym : (x y : Bytes) → bytes_ltb x y ≡ true → bytes_ltb y x ≡ false
bytes_ltb_asym x y h = elim (Bool-cases (bytes_ltb y x)) [
  | inl back ↦ let loop = bytes_ltb_trans x y x h back in absurd (cc (loop, bytes_ltb_irrefl x))
  | inr none_back ↦ none_back
]

apart : (x y : Bytes) → bytes_ltb x y ≡ true → bytes_eq y x ≡ false
apart x y h = elim (Bool-cases (bytes_eq y x)) [
  | inl e ↦
      let same = (bytes_eq_iff y x).0 e in
      let loop : bytes_ltb x x ≡ true = rw same at h in absurd (cc (loop, bytes_ltb_irrefl x))
  | inr other ↦ other
]

module _ (v : Values) (r : Option (Registry v)) (inputs : Inputs v) where
  -- What a built registry binds.
  pub record IsBinding : Type 0 where
    pub keyed : (id : Bytes) (b : Binding) → registry_binding v r id ≡ some b → b.id ≡ id
    pub valid :
        (id : Bytes) (b : Binding) → registry_binding v r id ≡ some b → valid_binding b ≡ true

  -- Bindings above an id, each above the one before, valid, and of a requested extension.
  abbrev pub Fine : Bytes → List Binding → Type 0
  Fine previous [] = Unit {0}
  Fine previous (b ∷ bs) =
      (bytes_ltb previous b.id ≡ true)
      × (valid_binding b ≡ true)
      × (is_requested inputs b.id ≡ true)
      × Fine b.id bs

  abbrev Requested : List Bytes → Type 0
  Requested [] = Unit {0}
  Requested (id ∷ ids) = (is_requested inputs id ≡ true) × Requested ids

  bindings_at-Fine :
      IsBinding
      → (previous : Bytes) (ids : List Bytes) → AllAbove previous ids
      → Ordered ids
      → Requested ids
      → Fine previous (bindings_at v r ids)
  bindings_at-Fine k previous [] above o req = tt
  bindings_at-Fine k previous (id ∷ ids) (first, above) (next, o) (req, reqs) =
      elim (Option-cases (registry_binding v r id)) [
        | inl e ↦ rw e (bindings_at-Fine k previous ids above o reqs)
        | inr (b, e) ↦
            let id_eq = k.keyed id b e in
            rw e (
              rw (sym id_eq) at first,
              k.valid id b e,
              rw (sym id_eq) at req,
              bindings_at-Fine k b.id ids (rw (sym id_eq) at next) o reqs,
            )
      ]

  start-Fine :
      IsBinding → (ids : List Bytes) → Ordered ids → Requested ids → Fine [] (bindings_at v r ids)
  start-Fine k [] o req = tt
  start-Fine k (id ∷ ids) (next, o) (req, reqs) = elim (Option-cases (registry_binding v r id)) [
    | inl e ↦ rw e (start-Fine k ids o reqs)
    | inr (b, e) ↦
        let id_eq = k.keyed id b e in
        let valid = k.valid id b e in
        rw e (
          identifier-above b.id (ground (arith, valid)),
          valid,
          rw (sym id_eq) at req,
          bindings_at-Fine k b.id ids (rw (sym id_eq) at next) o reqs,
        )
  ]

  Fine-sorted : (previous : Bytes) (bs : List Binding) → Fine previous bs → is_sorted bs ≡ true
  unfolding is_sorted
  Fine-sorted previous [] fine = refl
  Fine-sorted previous (a ∷ []) fine = refl
  Fine-sorted previous (a ∷ b ∷ bs) (_, _, _, rest) =
      ground (arith, bytes_ltb_asym a.id b.id rest.0, Fine-sorted a.id (b ∷ bs) rest)

  Fine-validated :
      (previous : Bytes) (bs : List Binding)
      → Fine previous bs
      → validate_bindings v inputs previous bs ≡ ok tt
  unfolding validate_bindings
  Fine-validated previous [] fine = refl
  Fine-validated previous (b ∷ bs) (above, valid, req, rest) =
      let distinct : bytes_eq b.id previous ≡ false = apart previous b.id above in
      ground (arith, valid, distinct, req, Fine-validated b.id bs rest)

  Requested-all :
      (ids : List Bytes)
      → ((id : Bytes) → contains ids id ≡ true → is_requested inputs id ≡ true)
      → Requested ids
  unfolding contains
  Requested-all [] within = tt
  Requested-all (id ∷ ids) within = (
    within id (ground (arith, bytes_eq_refl id)),
    Requested-all ids (λ j h. within j (ground (arith, h))),
  )

  -- A reserved id of the list is bound to what the package asks for.
  abbrev pub Reserved : List Bytes → Type 0
  Reserved ids =
      (id : Bytes) (expected : Binding)
      → contains ids id ≡ true
      → built_in_binding id ≡ some expected
      → (b : Binding) × (registry_binding v r id ≡ some b) × (binding_eq b expected ≡ true)

  built_in-passes :
      (bs : List Binding) (id : Bytes)
      → ((expected : Binding)
          → built_in_binding id ≡ some expected
          → matches (bound bs id) expected ≡ true)
      → validate_built_in v bs id ≡ ok tt
  built_in-passes bs id matched = elim (Option-cases (built_in_binding id)) [
    | inl e ↦ ground (arith, e)
    | inr (expected, e) ↦ ground (arith, e, matched expected e)
  ]

  built_ins-pass :
      IsKeyed v r
      → (every ids : List Bytes) → Reserved every
      → ((id : Bytes) → contains ids id ≡ true → contains every id ≡ true)
      → each (validate_built_in v (bindings_at v r every)) ids ≡ ok tt
  unfolding each
  built_ins-pass k every [] reserved within = refl
  built_ins-pass k every (id ∷ ids) reserved within =
      let listed : contains every id ≡ true =
        within id (unfold contains in ground (arith, bytes_eq_refl id)) in
      let found : bound (bindings_at v r every) id ≡ registry_binding v r id =
        ground (arith, listed, bound-at v r k id every) in
      let matched : (expected : Binding)
          → built_in_binding id ≡ some expected
          → matches (bound (bindings_at v r every) id) expected ≡ true =
        λ expected e.
          let (b, b_eq, same) = reserved id expected listed e in rw (found ∙ b_eq) same in
      let rest =
        built_ins-pass k every ids reserved
          (λ j h. within j (unfold contains in ground (arith, h))) in
      ground (arith, built_in-passes (bindings_at v r every) id matched, rest)

  bindings_at-length : (ids : List Bytes) → length (bindings_at v r ids) ≤ length ids
  bindings_at-length [] = omega arith
  bindings_at-length (id ∷ ids) = elim (Option-cases (registry_binding v r id)) [
    | inl e ↦ rw e (omega (arith, bindings_at-length ids))
    | inr (b, e) ↦ rw e (omega (arith, bindings_at-length ids))
  ]

  -- The bindings of the sorted ids of the inputs pass the validation of a state.
  pub bindings_at-validated :
      IsBinding
      → (ids : List Bytes) → keys inputs ≡ ids
      → Ordered ids
      → length ids ≤ 64
      → Reserved ids
      → validate_extension_binding_state v inputs (bindings_at v r ids) ≡ ok tt
  unfolding validate_extension_binding_state
  bindings_at-validated k ids keys_eq o small reserved =
      let requested = Requested-all ids (λ id h. lookup-keys inputs id (rw keys_eq h)) in
      let fine = start-Fine k ids o requested in
      let keyed : IsKeyed v r = record { keyed = k.keyed } in
      let built : each (validate_built_in v (bindings_at v r ids)) (keys inputs) ≡ ok tt =
        rw keys_eq (built_ins-pass keyed ids ids reserved (λ id h. h)) in
      let short : ltb 64 (length (bindings_at v r ids)) ≡ false =
        ground (arith, bindings_at-length ids, small) in
      ground (
        arith,
        short,
        Fine-sorted [] (bindings_at v r ids) fine,
        Fine-validated [] (bindings_at v r ids) fine,
        built,
      )
