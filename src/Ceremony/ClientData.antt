-- ===== src/Ceremony/ClientData.antt =====
-- What `verifyClientData` of ceremony.go has checked when it passes.
use webauthn.Prelude.{◌≡◌, arith, not, Bytes, content, bytes_eq, bytes_eq_iff}
use webauthn.Errors.{ok, wrapped, refuse_if, >>=-eq-ok, wrapped-eq-ok, refuse_if-eq-ok}
use webauthn.Platform.{Platform}
use webauthn.Protocol.Bytes.{Challenge, ClientDataJson}
use webauthn.Protocol.Types.{CollectedClientData, validate_client_data_type}
use webauthn.Protocol.ClientData.{parse_collected_client_data, challenge_bytes}
use webauthn.Origin.{OriginPolicy, verify_collected_client_origin}
use webauthn.Origin.Verify.{IsAccepted, verify_origin_iff}
use webauthn.Ceremony.{verify_client_data}

-- The client data are of the ceremony's type, carry its challenge, and come from an accepted origin.
pub record IsGenuine (g : Platform) (raw : ClientDataJson) (kind : Bytes) (challenge : Challenge)
    (policy : OriginPolicy) : Type 0 where
  pub client : CollectedClientData
  pub parses : parse_collected_client_data g raw ≡ ok client
  pub kind_eq : client.kind ≡ kind
  pub challenge_eq : challenge_bytes client ≡ ok (content challenge)
  pub origin : IsAccepted policy client

module _ (g : Platform) (raw : ClientDataJson) (kind : Bytes) (challenge : Challenge)
    (policy : OriginPolicy) where
  -- The type test.
  type_of : (d : CollectedClientData) → validate_client_data_type d kind ≡ ok tt → d.kind ≡ kind
  unfolding validate_client_data_type
  type_of d h = ground (arith, bytes_eq_iff d.kind kind)

  -- Client data that pass are genuine, and the hash is that of their serialized bytes.
  pub verify_client_data_sound :
      {hash : Bytes}
      → verify_client_data g raw kind challenge policy ≡ ok hash
      → IsGenuine g raw kind challenge policy × (hash ≡ g.sha256 (content raw))
  unfolding verify_client_data
  verify_client_data_sound h =
      let (d, e1, h1) = >>=-eq-ok (wrapped _ (parse_collected_client_data g raw)) _ h in
      let (_, e2, h2) = >>=-eq-ok (wrapped _ (validate_client_data_type d kind)) _ h1 in
      let (received, e3, h3) = >>=-eq-ok (wrapped _ (challenge_bytes d)) _ h2 in
      let (_, e4, h4) =
        >>=-eq-ok (refuse_if (not (bytes_eq (content challenge) received)) _) _ h3 in
      let (_, e5, h5) = >>=-eq-ok (verify_collected_client_origin policy d) _ h4 in
      let same : content challenge ≡ received =
        ground (arith, refuse_if-eq-ok _ _ e4, bytes_eq_iff (content challenge) received) in
      (
        record {
          client = d;
          parses = wrapped-eq-ok _ _ e1;
          kind_eq = type_of d (wrapped-eq-ok _ _ e2);
          challenge_eq = rw same (wrapped-eq-ok _ _ e3);
          origin = (verify_origin_iff policy d).0 e5;
        },
        ground arith,
      )
