-- ===== src/Attestation/Format/AndroidKey/Exact.antt =====
-- attestation/androidkey/extension.go: what the check of the key description requires.
use webauthn.Prelude.{
  ◌≡◌, ◌≤◌, refl, sym, arith, Bool, true, false, not, ◌||◌, ◌&&◌, Bool-cases, inl, inr, List, [],
  ◌∷◌, Bytes, length, bytes_eq, bytes_eq_iff, All,
}
use webauthn.Prelude.Int.{ℤ, pos, eq_ℤ, eq_ℤ_iff}
use webauthn.Errors.{ok, refuse_step, call_step}
use webauthn.Attestation.X509.{Asn1}
use webauthn.Attestation.Format.AndroidKey.Description.{
  requirements, KeyDescription, AuthorizationList, has_int, set_of, all_purposes, all_origins,
  selected, lacks_hardware, hardware_security_level, authorization_lists_exactly_match_webauthn,
  parse_android_key_description, validate_android_key_extension,
}

-- A list that is not empty and holds one value only.
abbrev pub OnlyHas : ℤ → List ℤ → Type 0
OnlyHas x xs = (1 ≤ length xs) × All (λ y. y ≡ x) xs

no_int : (x : ℤ) (xs : List ℤ) → length xs ≡ 0 → has_int x xs ≡ false
no_int x [] e = refl
no_int x (y ∷ ys) e = absurd (omega (arith, e))

set_of-empty : (xs : List ℤ) → length (set_of xs) ≡ 0 → xs ≡ []
unfolding set_of
set_of-empty [] e = refl
set_of-empty (x ∷ xs) e = elim (Bool-cases (has_int x (set_of xs))) [
  | inl found ↦ absurd (ground (arith, e, found, no_int x (set_of xs)))
  | inr other ↦ absurd (ground (arith, e, other))
]

-- Whatever a list of one value has is that value.
one_int :
    (x y : ℤ) (xs : List ℤ) → has_int x xs ≡ true → has_int y xs ≡ true → length xs ≡ 1 → y ≡ x
one_int x y [] has_x has_y one = absurd (omega (arith, one))
one_int x y (z ∷ []) has_x has_y one =
    let x_is : x ≡ z = (eq_ℤ_iff x z).0 (ground (arith, has_x)) in
    let y_is : y ≡ z = (eq_ℤ_iff y z).0 (ground (arith, has_y)) in cc
one_int x y (z ∷ w ∷ zs) has_x has_y one = absurd (omega (arith, one))

set_of-OnlyHas :
    (x : ℤ) (xs : List ℤ) → has_int x (set_of xs) ≡ true → length (set_of xs) ≡ 1 → OnlyHas x xs
unfolding set_of
set_of-OnlyHas x [] has one = absurd (omega (arith, one))
set_of-OnlyHas x (y ∷ ys) has one = elim (Bool-cases (has_int y (set_of ys))) [
  | inl found ↦
      let has_x : has_int x (set_of ys) ≡ true = ground (arith, has, found) in
      let single : length (set_of ys) ≡ 1 = ground (arith, one, found) in
      (
        omega arith,
        (one_int x y (set_of ys) has_x found single, (set_of-OnlyHas x ys has_x single).1),
      )
  | inr other ↦
      let alone : length (set_of ys) ≡ 0 = ground (arith, one, other) in
      let nothing : ys ≡ [] = set_of-empty ys alone in
      let same : eq_ℤ x y ≡ true = ground (arith, has, other, no_int x (set_of ys) alone) in
      (omega arith, (sym ((eq_ℤ_iff x y).0 same), rw nothing tt))
]

-- The key description names the hash of the client data as its challenge, and no list allows all
-- applications. The selected lists, that of the hardware alone where it is required, have the
-- origin "generated" and the purpose "sign" and no other, and then both security levels are those
-- of hardware.
pub record IsExact (d : KeyDescription) (client_data_hash : Bytes) (require_hardware : Bool)
    : Type 0 where
  pub challenge : d.attestation_challenge ≡ client_data_hash
  pub software_bound : d.software_enforced.all_applications ≡ false
  pub hardware_bound : d.hardware_enforced.all_applications ≡ false
  pub generated : OnlyHas (pos 0) (all_origins (selected require_hardware d))
  pub signs : OnlyHas (pos 2) (all_purposes (selected require_hardware d))
  pub attested_in_hardware :
      require_hardware ≡ true → hardware_security_level d.attestation_security_level ≡ true
  pub kept_in_hardware :
      require_hardware ≡ true → hardware_security_level d.keymaster_security_level ≡ true

matches-OnlyHas :
    (ls : List AuthorizationList)
    → authorization_lists_exactly_match_webauthn ls ≡ true
    → OnlyHas (pos 0) (all_origins ls) × OnlyHas (pos 2) (all_purposes ls)
unfolding authorization_lists_exactly_match_webauthn
matches-OnlyHas ls h = (
  set_of-OnlyHas (pos 0) (all_origins ls) (ground (arith, h)) (ground (arith, h)),
  set_of-OnlyHas (pos 2) (all_purposes ls) (ground (arith, h)) (ground (arith, h)),
)

module _ (asn1 : Asn1) where
  pub validate_android_key_extension-IsExact :
      (raw client_data_hash : Bytes) (require_hardware : Bool)
      → validate_android_key_extension asn1 raw client_data_hash require_hardware ≡ ok tt
      → (d : KeyDescription) × (parse_android_key_description asn1 raw ≡ ok d)
        × IsExact d client_data_hash require_hardware
  unfolding validate_android_key_extension
  validate_android_key_extension-IsExact raw client_data_hash require_hardware h =
      call_step (parse_android_key_description asn1 raw) h (λ d e1 h1.
        refuse_step (not (bytes_eq d.attestation_challenge client_data_hash)) requirements h1
          (λ challenge h2.
            refuse_step
              (d.software_enforced.all_applications || d.hardware_enforced.all_applications)
              requirements h2
              (λ bound h3.
                refuse_step (require_hardware && lacks_hardware d) requirements h3 (λ levels h4.
                  let matches =
                    matches-OnlyHas (selected require_hardware d) (ground (arith, h4)) in
                  (
                    d,
                    e1,
                    record {
                      challenge =
                          (bytes_eq_iff d.attestation_challenge client_data_hash).0
                            (ground (arith, challenge));
                      software_bound = ground (arith, bound);
                      hardware_bound = ground (arith, bound);
                      generated = matches.0;
                      signs = matches.1;
                      attested_in_hardware = λ wanted. ground (arith, levels, wanted);
                      kept_in_hardware = λ wanted. ground (arith, levels, wanted);
                    },
                  )))))
