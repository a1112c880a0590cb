-- ===== src/RelyingParty/Ready.antt =====
-- What `New` of config.go has made sure of.
use webauthn.Prelude.{◌≡◌, sym, refl, arith, false, List, Bytes, is_empty, if◌then◌else◌}
use webauthn.Errors.{ok, >>=-eq-ok, wrapped, wrapped-eq-ok, sentinel, invalid_configuration}
use webauthn.Platform.{Platform}
use webauthn.Protocol.Types.{CredentialParameter, attestation_none, user_verification_preferred}
use webauthn.Ceremony.{registration_credential_parameters, algorithms_from_parameters}
use webauthn.Ceremony.Parameters.{registration_parameters_again}
use webauthn.Extension.{Values}
use webauthn.RelyingParty.{Config, RelyingParty, validate_config, new_relying_party, with_defaults}

module _ (v : Values) (S E : Type 0) (g : Platform) where
  -- What `New` has made sure of.
  pub record IsReady (rp : RelyingParty v S E) : Type 0 where
    pub valid : validate_config v S E g rp.config ≡ ok tt
    pub parameters :
        registration_credential_parameters rp.config.pub_key_cred_params
        ≡ ok rp.config.pub_key_cred_params
    pub algorithms : rp.algorithms ≡ algorithms_from_parameters rp.config.pub_key_cred_params
    pub attestation : is_empty rp.config.registration.attestation ≡ false
    pub verification : is_empty rp.config.authentication.user_verification ≡ false

  or_default-full :
      (x d : Bytes) → is_empty d ≡ false → is_empty (if is_empty x then d else x) ≡ false
  or_default-full x d h = ground (arith, h)

  -- A party of checked parts is ready.
  party-IsReady :
      (c : Config v S E) (ps : List CredentialParameter)
      → registration_credential_parameters c.pub_key_cred_params ≡ ok ps
      → validate_config v S E g (with_defaults v S E c ps) ≡ ok tt
      → {rp : RelyingParty v S E}
      → record { config = with_defaults v S E c ps; algorithms = algorithms_from_parameters ps }
        ≡ rp
      → IsReady rp
  party-IsReady c ps chosen valid same = rw (sym same) (record {
    valid = valid;
    parameters = registration_parameters_again c.pub_key_cred_params chosen;
    algorithms = refl;
    attestation = or_default-full c.registration.attestation attestation_none refl;
    verification =
        or_default-full c.authentication.user_verification user_verification_preferred refl;
  })

  pub new_relying_party-IsReady :
      (c : Config v S E) {rp : RelyingParty v S E}
      → new_relying_party v S E g c ≡ ok rp
      → IsReady rp
  unfolding new_relying_party
  new_relying_party-IsReady c {rp} h =
      let outer = sentinel invalid_configuration in
      let (ps, chosen, h1) =
        >>=-eq-ok (wrapped outer (registration_credential_parameters c.pub_key_cred_params)) _ h in
      let (_, valid, h2) =
        >>=-eq-ok (wrapped outer (validate_config v S E g (with_defaults v S E c ps))) _ h1 in
      party-IsReady c ps (wrapped-eq-ok outer _ chosen) (wrapped-eq-ok outer _ valid)
        (ground (arith, h2))
