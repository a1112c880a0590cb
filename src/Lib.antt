-- ===== src/Lib.antt =====
-- A model of the relying-party core of the webauthn library, in a functional style: every operation
-- is a function from its inputs to a result, and an error is a value that keeps the sentinel that
-- `errors.Is` finds. Byte strings are lists of natural numbers, an int64 or a time.Time is an
-- integer, a nil slice is told apart from an empty one where the code does so.
--
-- A ceremony has two ends. The start fixes a challenge, an origin policy, the extensions and an
-- expiry in a state that the caller keeps; the finish takes that state, the browser's response and
-- the stored credential, and either fails or returns a new record with a conditional update, which
-- the caller applies to its store. The parts, and the files that model them:
--
--   Prelude          byte strings, lists, maps, integers, and what the code uses of Go's strings,
--                    strconv, maps and encoding/base64 packages
--   Errors           the sentinels of all packages, wrapped errors, and the result type
--   Platform         the packages of the Go standard library that stay parameters: net/url,
--                    net/netip, crypto/sha256, encoding/json, and case and space of unicode text
--   Protocol         protocol/: bytes.go in Bytes, types.go in Types, client_data.go in ClientData,
--                    authenticator_data.go in AuthData, with the layout of what it parses in
--                    AuthData/Layout and the way back in AuthData/RoundTrip; the grammar of
--                    internal/protocolidentifier in Identifier
--   Codec/Key        codec/codec.go: credential public keys and their material
--   Attestation      attestation/attestation.go: the names of types and trust paths
--   Attestation/Registry  the rest of that file: requests, results, trust and the verifier registry,
--                    with what it finds in Registry/Lookup
--   Attestation/Statement, Signature  attestation/internal/attstmt, the fields of a statement,
--                    and attestation/internal/attcrypto, the signed data and the signature check
--   Attestation/X509  attestation/internal/x509util: certificate chains, with keys and
--                    their comparison, names, and the profile of attestation certificates in its
--                    child modules
--   Attestation/Policy  the trust policies; Compose has what a composed policy accepts
--   Attestation/Tpm  attestation/tpm: Reader is the cursor on TPM structures, Algorithms the
--                    tables and the check of an RSA exponent, PublicArea and CertInfo the two
--                    structures, Certificate the attestation key's certificate, Verify the
--                    verifier and Sound what it accepts
--   Attestation/Format  the other formats: Basic is "none", then Packed, FidoU2f, Apple, AndroidKey
--                    and Compound; a Sound module has what a verifier accepts
--   Crypto           the inputs and results of the verifiers of signatures and of certificate
--                    chains that the caller gives
--   Credential       the stored record of registration.go and validation.go, and
--                    credential_update.go, whose `ApplyTo` is `apply_to`
--   Origin           origin.go
--   Ceremony         ceremony.go
--   Challenge        registration_start.go: the challenge generators
--   Extension        extension/extension.go: bindings, registry and dispatch to handlers; Build
--                    has what a built registry finds
--   ExtensionCheck   extension_verification.go and the extension checks of validation.go: Prepare is
--                    the start, Outputs the finish, with what it covers in Outputs/Complete, Bindings
--                    what holds between them, and State and Started what holds between the start
--                    and a stored state
--   Authentication   authentication.go: Start has the start of the ceremony, Checks the
--                    helpers of its end, Counter the signature counter, and Finish the handler
--   Registration     registration.go and registration_start.go, in the same modules
--   RelyingParty     config.go, and relying_party.go in Methods; Ready has what New makes sure of,
--                    Agreement what holds between the two ends of a ceremony, and Accepted what an
--                    accepted authentication has to do with the configuration
--   Tests            concrete ceremonies and values on which the theorems are applied
--
-- Names are those of the source in snake_case, so `validateRPIDOriginPolicy` is
-- `validate_rp_id_origin_policy`. A Go map is an association list, in an order that its iteration
-- could take. Every copy that the source makes to avoid sharing is the value itself. A context is
-- what its `Err` answers at each poll that follows another.
--
-- Three loops run on fuel: `strconv.Itoa` for five digits, which is enough for a port; the trial
-- division of an RSA exponent for 32768 rounds, since the divisors are odd and their squares below
-- 2 ^ 32; and the items of an ASN.1 value for a round per byte and one more, since a round that takes
-- nothing is an error, as in the source.
--
-- Extension values, which the source keeps behind `any`, are behind the record `Values` of Extension,
-- with the operations that the ceremonies call on them; handlers and signature verifiers are functions
-- that the caller gives, and so are the parsers and encoders of ASN.1, `x509.ParseCertificate`, the
-- SHA-2 functions and what `%q` prints. The built-in handlers, the SafetyNet format, CBOR, the
-- browser, storage and HTTP packages, presets, tools, examples and the demo application are not
-- modelled.
pub mod Prelude
pub mod Errors
pub mod Platform
pub mod Protocol
pub mod Codec
pub mod Crypto
pub mod Attestation
pub mod Credential
pub mod Origin
pub mod Ceremony
pub mod Challenge
pub mod Extension
pub mod ExtensionCheck
pub mod Authentication
pub mod Registration
pub mod RelyingParty
mod Tests
