-- ===== src/Registration/Checks/Trailing.antt =====
-- registration.go: what stands behind the key in the attested credential data.
use webauthn.Prelude.{
  ◌≡◌, sym, arith, true, false, not, Option, some, [], Bytes, Bool-cases, inl, inr, drop, length,
  is_empty,
}
use webauthn.Errors.{
  Result, ok, >>=-eq-ok, refuse_if, wrapped, sentinel, malformed_response, invalid_configuration,
}
use webauthn.Protocol.AuthData.{ParsedAuthenticatorData, AttestedCredentialData, has_extension_data}
use webauthn.Codec.Key.{CredentialPublicKey, validate_key}
use webauthn.Extension.{Values}
use webauthn.ExtensionCheck.{ExtensionMap}
use webauthn.Registration.Checks.{
  decode_with, decode_trailing_extensions, is_key_prefix, decode_key_and_extensions,
}
use webauthn.Registration.Checks.Facts.{decode_with-answers}

module _ (v : Values) where
  -- Without the ED flag nothing stands behind the key; with it something does, and the decoder of
  -- extensions accepted it.
  pub data IsBehindKey (decoder : Option (Bytes → Result (ExtensionMap v)))
      (parsed : ParsedAuthenticatorData) (trailing : Bytes) (extensions : ExtensionMap v)
      : Type 0 where
    no_trailing :
        has_extension_data parsed.flags ≡ false
        → is_empty trailing ≡ true
        → extensions ≡ []
        → IsBehindKey decoder parsed trailing extensions
    decoded_trailing :
        (decode : Bytes → Result (ExtensionMap v))
        → has_extension_data parsed.flags ≡ true
        → is_empty trailing ≡ false
        → decoder ≡ some decode
        → decode trailing ≡ ok extensions
        → IsBehindKey decoder parsed trailing extensions

  decode_trailing-IsBehindKey :
      (decoder : Option (Bytes → Result (ExtensionMap v))) (parsed : ParsedAuthenticatorData)
      (trailing : Bytes) {extensions : ExtensionMap v}
      → decode_trailing_extensions v decoder parsed trailing ≡ ok extensions
      → IsBehindKey decoder parsed trailing extensions
  unfolding decode_trailing_extensions
  decode_trailing-IsBehindKey decoder parsed trailing {extensions} h =
      elim (Bool-cases (has_extension_data parsed.flags)) [
        | inr absent ↦ no_trailing absent (ground (arith, absent, h)) (ground (arith, absent, h))
        | inl present ↦ elim (Bool-cases (is_empty trailing)) [
          | inl nothing ↦ absurd (ground (arith, present, nothing, h))
          | inr something ↦
              let (decode, decoder_eq, decoded) =
                decode_with-answers v decoder _ trailing (rw (present, something) at h) in
              decoded_trailing decode present something decoder_eq decoded
        ]
      ]

  pub decode_key-IsBehindKey :
      (key_decoder : Option (Bytes → Result CredentialPublicKey))
      (extension_decoder : Option (Bytes → Result (ExtensionMap v)))
      (parsed : ParsedAuthenticatorData) (a : AttestedCredentialData) {key : CredentialPublicKey}
      {extensions : ExtensionMap v}
      → decode_key_and_extensions v key_decoder extension_decoder parsed a ≡ ok (key, extensions)
      → IsBehindKey extension_decoder parsed
          (drop (length key.raw) a.credential_public_key_and_extensions)
          extensions
  unfolding decode_key_and_extensions
  decode_key-IsBehindKey key_decoder extension_decoder parsed a {key} {extensions} h =
      let d = a.credential_public_key_and_extensions in
      let (k, first, h1) =
        >>=-eq-ok (decode_with v key_decoder (sentinel invalid_configuration) d) _ h in
      let (_, valid, h2) =
        >>=-eq-ok (wrapped (sentinel malformed_response) (validate_key k)) _ h1 in
      let (_, prefix, h3) =
        >>=-eq-ok (refuse_if (not (is_key_prefix v k.raw d)) (sentinel malformed_response)) _ h2 in
      let (ext, trailing, h4) =
        >>=-eq-ok (decode_trailing_extensions v extension_decoder parsed (drop (length k.raw) d)) _
          h3 in
      let k_eq : k ≡ key = ground (arith, h4) in
      let ext_eq : ext ≡ extensions = ground (arith, h4) in
      rw (sym k_eq, sym ext_eq)
        (decode_trailing-IsBehindKey extension_decoder parsed (drop (length k.raw) d) trailing)
