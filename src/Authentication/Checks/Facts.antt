-- ===== src/Authentication/Checks/Facts.antt =====
-- What each check of `FinishAuthentication` means when it passes.
use webauthn.Prelude.{
  ◌≡◌, ◌≢◌, refl, arith, true, false, Option, none, some, List, [], ◌∷◌, ◌++◌, ◌⊎◌, inl, inr, Bytes,
  ByteSlice, content, is_empty, any, bytes_eq_iff, Bool-cases,
}
use webauthn.Errors.{ok, wrapped-eq-ok, sentinel, invalid_signature}
use webauthn.Platform.{Platform}
use webauthn.Protocol.Bytes.{len, equal}
use webauthn.Protocol.Types.{CredentialDescriptor, user_verification_required}
use webauthn.Protocol.AuthData.{
  ParsedAuthenticatorData, parse_authenticator_data, user_present, user_verified, backup_eligible,
  backup_state, has_attested_credential_data,
}
use webauthn.Credential.{CredentialRecord}
use webauthn.Extension.{Values}
use webauthn.Crypto.{SignatureVerifier}
use webauthn.Authentication.{
  AuthenticationState, AuthenticationResponse, AuthenticationExtensionPolicy,
}
use webauthn.Authentication.Checks.{
  expected_rp_id, expected_rp_id_hash, is_hash, check_parsed, verify_authenticator_data,
  verify_credential_binding, verify_user_binding, verify_signature,
}

-- The id of one of the descriptors is the given one.
abbrev pub IdAmong : Bytes → List CredentialDescriptor → Type 0
IdAmong id [] = ⊥
IdAmong id (d ∷ ds) = (content d.id ≡ id) ⊎ IdAmong id ds

any→IdAmong :
    (id : ByteSlice) (ds : List CredentialDescriptor)
    → any (λ d. equal d.id id) ds ≡ true
    → IdAmong (content id) ds
unfolding any
any→IdAmong id [] h = cc
any→IdAmong id (d ∷ ds) h = elim (Bool-cases (equal d.id id)) [
  | inl e ↦ inl ((bytes_eq_iff (content d.id) (content id)).0 e)
  | inr ne ↦ inr (any→IdAmong id ds (ground arith))
]

module _ (v : Values) where
  -- The credential belongs to the state's RP, is the one that the response names, and is allowed.
  pub record IsBound (s : AuthenticationState v) (r : AuthenticationResponse v)
      (c : CredentialRecord) : Type 0 where
    pub rp : c.rp_id ≡ s.rp_id
    pub id : content c.id ≡ content r.raw_id
    pub allowed :
        is_empty s.allow_credentials ≡ false → IdAmong (content r.raw_id) s.allow_credentials

  pub verify_credential_binding-IsBound :
      (s : AuthenticationState v) (r : AuthenticationResponse v) (c : CredentialRecord)
      → verify_credential_binding v s r c ≡ ok tt
      → IsBound s r c
  unfolding verify_credential_binding
  verify_credential_binding-IsBound s r c h = record {
    rp = ground (arith, bytes_eq_iff c.rp_id s.rp_id);
    id = ground (arith, bytes_eq_iff (content c.id) (content r.raw_id));
    allowed = λ e. any→IdAmong r.raw_id s.allow_credentials (ground arith);
  }

  -- The user: an expected handle is the credential's, and the response's if it has one; with none
  -- expected the response has one, which is the credential's.
  pub record IsOwned (s : AuthenticationState v) (r : AuthenticationResponse v)
      (c : CredentialRecord) : Type 0 where
    pub expected :
        len s.expected_user_handle ≢ 0
        → (content c.user_handle ≡ content s.expected_user_handle)
          × (len r.user_handle ≢ 0 → content r.user_handle ≡ content c.user_handle)
    pub discovered :
        len s.expected_user_handle ≡ 0
        → (len r.user_handle ≢ 0) × (content r.user_handle ≡ content c.user_handle)

  pub verify_user_binding-IsOwned :
      (s : AuthenticationState v) (r : AuthenticationResponse v) (c : CredentialRecord)
      → verify_user_binding v s r c ≡ ok tt
      → IsOwned s r c
  unfolding verify_user_binding
  verify_user_binding-IsOwned s r c h = record {
    expected = λ ne. (
      ground (arith, bytes_eq_iff (content c.user_handle) (content s.expected_user_handle)),
      λ some_handle. ground (
        arith,
        bytes_eq_iff (content c.user_handle) (content s.expected_user_handle),
        bytes_eq_iff (content r.user_handle) (content s.expected_user_handle),
      ),
    );
    discovered = λ e. (
      ground arith,
      ground (arith, bytes_eq_iff (content r.user_handle) (content c.user_handle)),
    );
  }

  -- What the authenticator data must say.
  pub record IsTrusted (g : Platform) (s : AuthenticationState v) (r : AuthenticationResponse v)
      (c : CredentialRecord) (p : AuthenticationExtensionPolicy) (d : ParsedAuthenticatorData)
      : Type 0 where
    pub parses : parse_authenticator_data r.authenticator_data ≡ ok d
    pub no_attested : has_attested_credential_data d.flags ≡ false
    pub hashed : Bytes
    pub hashed_eq : expected_rp_id v s r p ≡ some hashed
    pub rp_hash : d.rp_id_hash ≡ g.sha256 hashed
    pub present : user_present d.flags ≡ true
    pub verified :
        s.requested_user_verification ≡ user_verification_required → user_verified d.flags ≡ true
    pub backup : backup_state d.flags ≡ true → backup_eligible d.flags ≡ true
    pub eligibility : backup_eligible d.flags ≡ c.backup_eligible

  is_hash-text :
      (g : Platform) (s : AuthenticationState v) (r : AuthenticationResponse v)
      (p : AuthenticationExtensionPolicy) (actual : Bytes)
      → is_hash v g actual (expected_rp_id_hash v g s r p) ≡ true
      → (text : Bytes) × (expected_rp_id v s r p ≡ some text) × (actual ≡ g.sha256 text)
  unfolding expected_rp_id_hash
  is_hash-text g s r p actual h = go (expected_rp_id v s r p) refl
    where
      go :
          (o : Option Bytes)
          → expected_rp_id v s r p ≡ o
          → (text : Bytes) × (expected_rp_id v s r p ≡ some text) × (actual ≡ g.sha256 text)
      go none e = absurd (ground (arith, e))
      go (some text) e = (text, e, ground (arith, e, bytes_eq_iff actual (g.sha256 text)))

  module _ (g : Platform) (s : AuthenticationState v) (r : AuthenticationResponse v)
      (c : CredentialRecord) (p : AuthenticationExtensionPolicy) (d : ParsedAuthenticatorData) where
    check_parsed-hash :
        check_parsed v g s r c p d ≡ ok tt
        → is_hash v g d.rp_id_hash (expected_rp_id_hash v g s r p) ≡ true
    unfolding check_parsed
    check_parsed-hash h = ground arith

    verify_data-parts :
        verify_authenticator_data v g s r c p ≡ ok d
        → (parse_authenticator_data r.authenticator_data ≡ ok d)
          × (check_parsed v g s r c p d ≡ ok tt)
    unfolding verify_authenticator_data
    verify_data-parts h = (ground arith, ground arith)

    pub verify_authenticator_data-IsTrusted :
        verify_authenticator_data v g s r c p ≡ ok d → IsTrusted g s r c p d
    unfolding check_parsed
    verify_authenticator_data-IsTrusted h =
        let (parses, passed) = verify_data-parts h in
        let (text, text_eq, hash_eq) =
          is_hash-text g s r p d.rp_id_hash (check_parsed-hash passed) in
        record {
          parses = parses;
          no_attested = ground arith;
          hashed = text;
          hashed_eq = text_eq;
          rp_hash = hash_eq;
          present = ground arith;
          verified = λ e.
              ground (arith, bytes_eq_iff s.requested_user_verification user_verification_required);
          backup = λ e. ground arith;
          eligibility = ground arith;
        }

  -- The verifier has accepted the signature over the signed bytes, under the stored key.
  pub record IsSigned (o : Option SignatureVerifier) (r : AuthenticationResponse v)
      (c : CredentialRecord) (hash : Bytes) : Type 0 where
    pub verify : SignatureVerifier
    pub verifier : o ≡ some verify
    pub accepted :
        verify (record {
          algorithm = c.public_key.algorithm;
          public_key = c.public_key.material;
          raw_credential_public_key = c.public_key.raw;
          signed = content r.authenticator_data ++ hash;
          signature = r.signature;
        })
        ≡ ok tt

  pub verify_signature-IsSigned :
      (o : Option SignatureVerifier) (r : AuthenticationResponse v) (c : CredentialRecord)
      (hash : Bytes)
      → verify_signature v o c r hash ≡ ok tt
      → IsSigned o r c hash
  unfolding verify_signature
  verify_signature-IsSigned none r c hash h = absurd (ground arith)
  verify_signature-IsSigned (some verify) r c hash h = record {
    verify = verify;
    verifier = refl;
    accepted = wrapped-eq-ok (sentinel invalid_signature) _ h;
  }
