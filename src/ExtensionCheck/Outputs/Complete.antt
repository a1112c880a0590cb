-- ===== src/ExtensionCheck/Outputs/Complete.antt =====
-- What `verifyExtensions` of extension_verification.go has verified when it succeeds.
use webauthn.Prelude.{
  ℕ, suc, ◌≡◌, ◌≤◌, ◌↔◌, ◌⊎◌, inl, inr, sym, some, refl, arith, none, List, [], ◌∷◌, ◌++◌, Bytes,
  Option, true, false, not, ◌&&◌, ◌||◌, Listed, keys, lookup, length, sorted_keys, ltb,
}
use webauthn.Prelude.Sorted.{
  Ordered, sorted_keys-Ordered, sorted_keys-Listed_iff, append-Listed_iff,
}
use webauthn.Errors.{
  Error, Result, ok, >>=-eq-ok, refuse_if, each, annotate, call_step, refuse_step,
}
use webauthn.Protocol.Identifier.{valid_identifier}
use webauthn.Extension.{Values, max_entries, registry_contains}
use webauthn.ExtensionCheck.{Inputs, ClientOutputs, ExtensionMap}
use webauthn.ExtensionCheck.Outputs.{
  Context, check_context, VerificationInputs, validate_extension_work, verify_extension,
  verify_each, verify_extensions, found, policy_error,
}

each-Listed :
    (f : Bytes → Result (Unit {0})) (xs : List Bytes)
    → each f xs ≡ ok tt
    → (x : Bytes) → Listed x xs
    → f x ≡ ok tt
unfolding each
each-Listed f [] h x l = absurd l
each-Listed f (y ∷ ys) h x l =
    let (_, first, rest) = >>=-eq-ok (f y) _ h in
    elim l [ inl e ↦ rw e first | inr there ↦ each-Listed f ys rest x there ]

module _ (v : Values) where
  -- The ids of what was requested and of what either side returned, each once, in the order of
  -- strings. All are valid identifiers, and neither the maps nor the ids are more than the bound.
  pub record IsWork (requested : Inputs v) (client : ClientOutputs v)
      (authenticator : ExtensionMap v) (ids : List Bytes) : Type 0 where
    pub ordered : Ordered ids
    pub covers :
        (id : Bytes)
        → Listed id ids ↔ (
            Listed id (keys requested) ⊎ (Listed id (keys client) ⊎ Listed id (keys authenticator)))
    pub named : (id : Bytes) → Listed id ids → valid_identifier id ≡ true
    pub few_requested : length requested ≤ max_entries
    pub few_results : length client ≤ max_entries
    pub few_outputs : length authenticator ≤ max_entries
    pub few_ids : length ids ≤ max_entries

  covers-sorted :
      (requested : Inputs v) (client : ClientOutputs v) (authenticator : ExtensionMap v)
      (id : Bytes)
      → Listed id (sorted_keys (keys requested ++ (keys client ++ keys authenticator)))
        ↔ (Listed id (keys requested) ⊎ (Listed id (keys client) ⊎ Listed id (keys authenticator)))
  covers-sorted requested client authenticator id =
      let answers = keys client ++ keys authenticator in
      let (unsorted, sorted) = sorted_keys-Listed_iff (keys requested ++ answers) id in
      let (split, join) = append-Listed_iff (keys requested) answers id in
      let (split', join') = append-Listed_iff (keys client) (keys authenticator) id in
      (
        λ l. elim (split (unsorted l)) [ inl a ↦ inl a | inr b ↦ inr (split' b) ],
        λ l. sorted (join (elim l [ inl a ↦ inl a | inr b ↦ inr (join' b) ])),
      )

  validate_extension_work-IsWork :
      (requested : Inputs v) (client : ClientOutputs v) (authenticator : ExtensionMap v)
      {ids : List Bytes}
      → validate_extension_work v requested client authenticator ≡ ok ids
      → IsWork requested client authenticator ids
  unfolding validate_extension_work
  validate_extension_work-IsWork requested client authenticator {ids} h =
      let all_keys = keys requested ++ (keys client ++ keys authenticator) in
      refuse_step
        (ltb max_entries (length requested)
          || ltb max_entries (length client)
          || ltb max_entries (length authenticator))
        _ h
        (λ few h1.
          call_step
            (each
              (λ id.
                refuse_if (not (valid_identifier id))
                  (annotate policy_error "invalid extension id"))
              all_keys)
            h1
            (λ done valid h2.
              refuse_step (ltb max_entries (length (sorted_keys all_keys))) _ h2 (λ few_ids h3.
                let same : sorted_keys all_keys ≡ ids = ground (arith, h3) in
                rw (sym same) (record {
                  ordered = sorted_keys-Ordered all_keys;
                  covers = covers-sorted requested client authenticator;
                  named = λ id l. ground (
                    arith,
                    each-Listed _ all_keys valid id ((sorted_keys-Listed_iff all_keys id).0 l),
                  );
                  few_requested = ground (arith, few);
                  few_results = ground (arith, few);
                  few_outputs = ground (arith, few);
                  few_ids = ground (arith, few_ids);
                }))))

module _ (v : Values) (inputs : VerificationInputs v) where
  -- Under a policy that rejects them, no side returned something for an unknown id, or for one that
  -- was not requested.
  abbrev pub Permitted : Bytes → Type 0
  Permitted id =
      let has_output =
        found v (lookup id inputs.client_results) || found v (lookup id inputs.authenticator) in
      ((inputs.policy.reject_unknown && has_output && not (registry_contains v inputs.registry id))
        ≡ false)
      × ((inputs.policy.reject_unrequested
            && has_output
            && not (found v (lookup id inputs.requested)))
          ≡ false)

  verify_extension-Permitted :
      (id : Bytes) {o : v.Outcome} → verify_extension v inputs id ≡ ok o → Permitted id
  unfolding verify_extension
  verify_extension-Permitted id h = (ground (arith, h), ground (arith, h))

  -- The context lets each id through, from a poll on, and its verification gives its outcome.
  abbrev pub Answered : Context → ℕ → List Bytes → List v.Outcome → Type 0
  Answered ctx poll [] [] = Unit {0}
  Answered ctx poll [] (o ∷ os) = ⊥
  Answered ctx poll (id ∷ ids) [] = ⊥
  Answered ctx poll (id ∷ ids) (o ∷ os) =
      (ctx poll ≡ none)
      × (verify_extension v inputs id ≡ ok o)
      × Permitted id
      × Answered ctx (suc poll) ids os

  context-open : (e : Option Error) → check_context e ≡ ok tt → e ≡ none
  context-open none h = refl
  context-open (some x) h = cc

  Answered-moved :
      (ctx : Context) (poll : ℕ) (ids : List Bytes) {os os' : List v.Outcome}
      → os ≡ os'
      → Answered ctx poll ids os
      → Answered ctx poll ids os'
  Answered-moved ctx poll ids same answered = rw (sym same) answered

  verify_each-Answered :
      (ctx : Context) (poll : ℕ) (ids : List Bytes) {os : List v.Outcome}
      → verify_each v ctx poll inputs ids ≡ ok os
      → Answered ctx poll ids os
  unfolding verify_each
  verify_each-Answered ctx poll [] {os = all_outcomes} h =
      let same : [] ≡ all_outcomes = ground (arith, h) in Answered-moved ctx poll [] same tt
  verify_each-Answered ctx poll (id ∷ ids) {os = all_outcomes} h =
      let (_, open_at, h1) = >>=-eq-ok (check_context (ctx poll)) _ h in
      let (o, verified, h2) = >>=-eq-ok (verify_extension v inputs id) _ h1 in
      let (os, rest, h3) = >>=-eq-ok (verify_each v ctx (suc poll) inputs ids) _ h2 in
      let same : o ∷ os ≡ all_outcomes = ground (arith, h3) in
      Answered-moved ctx poll (id ∷ ids) same (
        context-open (ctx poll) open_at,
        verified,
        verify_extension-Permitted id verified,
        verify_each-Answered ctx (suc poll) ids rest,
      )

  -- The outcomes of a run: the context was open from the first poll to the last, and there is one
  -- outcome for each id of the work.
  pub record IsComplete (ctx : Context) (os : List v.Outcome) : Type 0 where
    pub open_at_start : ctx 0 ≡ none
    pub ids : List Bytes
    pub work : IsWork v inputs.requested inputs.client_results inputs.authenticator ids
    pub answered : Answered ctx 1 ids os

  -- Extensions that pass are verified one by one: the context was open at every poll, and the
  -- outcomes are those of the requested ids and of all ids that either side returned, each id once
  -- and in the order of strings, with none left out. All ids are valid identifiers, and inputs,
  -- outputs and ids are within the bound. An output of an unknown extension, or of one that was
  -- not requested, was not refused by the policy.
  pub verify_extensions-Answered :
      (ctx : Context) {os : List v.Outcome}
      → verify_extensions v ctx inputs ≡ ok os
      → IsComplete ctx os
  unfolding verify_extensions
  verify_extensions-Answered ctx h =
      let (_, open_at, h1) = >>=-eq-ok (check_context (ctx 0)) _ h in
      let (ids, work, h2) =
        >>=-eq-ok
          (validate_extension_work v inputs.requested inputs.client_results inputs.authenticator) _
          h1 in
      record {
        open_at_start = context-open (ctx 0) open_at;
        ids = ids;
        work =
            validate_extension_work-IsWork v inputs.requested inputs.client_results
              inputs.authenticator work;
        answered = verify_each-Answered ctx 1 ids h2;
      }
