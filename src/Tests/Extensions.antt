-- ===== src/Tests/Extensions.antt =====
-- Registries of handlers and verifiers, and a start that binds an extension.
use webauthn.Prelude.{
  ◌≡◌, ◌↔◌, refl, true, none, some, [], ◌∷◌, Bytes, bytes, nil, ascii, bytes_eq, contains, take,
  drop, get_or, any, all, split, has_prefix, has_suffix, contains_any, cut_last, lookup,
  sorted_keys, Assoc,
}
use webauthn.Prelude.Int.{pos, ◌+ℤ◌}
use webauthn.Errors.{ok, err, each, message, Result}
use webauthn.Protocol.Identifier
use webauthn.Protocol.Types
use webauthn.Protocol.Options
use webauthn.Protocol.Options.{RequestOptions}
use webauthn.Attestation.Registry.{
  Verifier, verification, trust_path, no_statements, new_verifier_registry, lookup_verifier,
}
use webauthn.Attestation.Registry.Lookup as Lookup
use webauthn.Attestation.Registry.Lookup.{new_verifier_registry-lookup}
use webauthn.Origin
use webauthn.Ceremony
use webauthn.Challenge.{ReadFull, no_generator, choose_challenge}
use webauthn.Extension
use webauthn.Extension.{Binding, Handler, Registry, new_registry, find}
use webauthn.Extension.Build
use webauthn.Extension.Build.{IsEntry, new_registry_sound}
use webauthn.ExtensionCheck
use webauthn.ExtensionCheck.{validate_finish_extension_bindings}
use webauthn.ExtensionCheck.Prepare
use webauthn.ExtensionCheck.Prepare.{prepare_extension_inputs, clone_extension_inputs}
use webauthn.ExtensionCheck.Bindings.{start_bindings-finish}
use webauthn.ExtensionCheck.Started.{start_bindings-state}
use webauthn.ExtensionCheck.Outputs
use webauthn.ExtensionCheck.Outputs.{VerificationInputs, verify_extensions}
use webauthn.ExtensionCheck.Outputs.Complete.{IsComplete, verify_extensions-Answered}
use webauthn.Authentication.{AuthenticationState}
use webauthn.Authentication.Start.{AuthenticationStartOptions, start_authentication}
use webauthn.Authentication.Start.Sound.{IsStarted, start_authentication_sound}
use webauthn.Tests.Fixtures.{context, rp_id, challenge, platform, values, policy}

abbrev none_verifier : Verifier Bytes Bytes
none_verifier = record {
  format = ascii "none";
  verify_attestation = λ request.
      ok (verification (ascii "none") (trust_path (ascii "none") [] [] no_statements) true [] []);
}

registry_built :
    new_verifier_registry Bytes Bytes (some none_verifier ∷ [])
    ≡ ok ((ascii "none", none_verifier) ∷ [])
unfolding new_verifier_registry Identifier.valid_identifier all lookup
registry_built = refl

new_verifier_registry-lookup_example :
    Lookup.AllNamed Bytes Bytes (some none_verifier ∷ [])
    × ((lookup_verifier Bytes Bytes (some ((ascii "none", none_verifier) ∷ [])) (ascii "none")
          ≡ some none_verifier)
        ↔ ((none_verifier.format ≡ ascii "none")
            × Lookup.Given Bytes Bytes none_verifier (some none_verifier ∷ [])))
new_verifier_registry-lookup_example =
    new_verifier_registry-lookup Bytes Bytes (some none_verifier ∷ []) registry_built (ascii "none")
      none_verifier

-- A handler of the reserved extension credProps.
abbrev cred_props : Handler values
cred_props = record {
  id = ascii "credProps";
  revision = ascii "webauthn-3-20260825";
  valid = true;
  validate_input = λ operation value. ok value;
  verify_output = λ request. ok [];
}

abbrev cred_props_binding : Binding
cred_props_binding = record { id = ascii "credProps"; revision = ascii "webauthn-3-20260825" }

abbrev handlers : Registry values
handlers = (ascii "credProps", (cred_props_binding, cred_props)) ∷ []

handlers_built : new_registry values (cred_props ∷ []) ≡ ok handlers
unfolding new_registry Identifier.valid_identifier all lookup Extension.built_in_binding contains
    bytes_eq
handlers_built = refl

handler_found :
    find values (some handlers) (ascii "credProps") ≡ some (cred_props_binding, cred_props)
unfolding find lookup bytes_eq
handler_found = refl

new_registry_sound_example :
    IsEntry values (ascii "credProps") cred_props_binding cred_props
    × Build.Given values cred_props (cred_props ∷ [])
new_registry_sound_example =
    new_registry_sound values (cred_props ∷ []) handlers_built (ascii "credProps")
      cred_props_binding cred_props handler_found

abbrev inputs : Assoc Bytes
inputs = (ascii "credProps", ascii "true") ∷ []

abbrev unchanged : Bytes → Bytes → Result Bytes
unchanged id input = ok input

prepared :
    prepare_extension_inputs values Extension.operation_registration inputs
      (some handlers)
      true
      unchanged
    ≡ ok (inputs, cred_props_binding ∷ [])
unfolding prepare_extension_inputs sorted_keys Prepare.prepare_each Prepare.prepare_extension
    Identifier.valid_identifier all lookup bytes_eq Extension.registry_contains
    Prepare.normalize_registered_input Extension.registry_validate_input Extension.registry_binding
prepared = refl

copied : clone_extension_inputs values inputs ≡ ok inputs
unfolding clone_extension_inputs
copied = refl

start_bindings-finish_example :
    validate_finish_extension_bindings values inputs (cred_props_binding ∷ []) (some handlers)
    ≡ ok tt
start_bindings-finish_example =
    start_bindings-finish values (cred_props ∷ []) handlers_built Extension.operation_registration
      inputs true unchanged prepared copied

abbrev start_options : AuthenticationStartOptions values
start_options = record {
  rp_id = rp_id;
  origin_policy = policy;
  challenge = bytes challenge;
  challenge_generator = no_generator;
  timeout = pos 0;
  state_ttl = pos 0;
  allow_credentials = [];
  user_verification = [];
  hints = [];
  extensions = [];
  extension_registry = none;
  reject_unknown = true;
  expected_user_handle = nil;
  now = pos 10;
}

abbrev no_random : ReadFull
no_random = λ n. err (message "no entropy")

abbrev started_request : RequestOptions Bytes
started_request = record {
  challenge = bytes challenge;
  timeout_milliseconds = 300000;
  rp_id = rp_id;
  allow_credentials = [];
  user_verification = ascii "preferred";
  hints = [];
  extensions = [];
}

abbrev started_state : AuthenticationState values
started_state = record {
  challenge = bytes challenge;
  rp_id = rp_id;
  origin_policy = policy;
  requested_user_verification = ascii "preferred";
  requested_extensions = [];
  extension_bindings = [];
  allow_credentials = [];
  expected_user_handle = nil;
  expires_at = pos 600000000010;
}

started :
    start_authentication values platform no_random none start_options
    ≡ ok (started_request, started_state)
unfolding start_authentication Origin.validate_origin_policy each Origin.valid_dns_name has_prefix
    has_suffix drop take get_or contains_any split all any cut_last bytes_eq contains
    Origin.validate_rp_id_origin_policy Origin.valid_rp_id choose_challenge
    Ceremony.validate_user_verification Types.known_user_verification prepare_extension_inputs
    Prepare.validate_remote_client_data_input
    ExtensionCheck.validate_authentication_extension_context clone_extension_inputs lookup
    Ceremony.timeout_state ◌+ℤ◌ Options.validate_request_options
started = refl

start_authentication_sound_example :
    IsStarted values platform start_options no_random none started_request started_state
start_authentication_sound_example =
    start_authentication_sound values platform start_options no_random none started

-- The browser answers credProps, and the handler turns that into an empty outcome.
abbrev outputs : VerificationInputs values
outputs = record {
  operation = Extension.operation_registration;
  selected_credential_id = nil;
  requested = inputs;
  policy = record { reject_unrequested = true; reject_unknown = true };
  registry = some handlers;
  client_results = (ascii "credProps", some (ascii "true")) ∷ [];
  authenticator = [];
  transform = unchanged;
}

outputs_pass : verify_extensions values context outputs ≡ ok ([] ∷ [])
unfolding verify_extensions Outputs.validate_extension_work Identifier.valid_identifier all each
    sorted_keys bytes_eq Outputs.verify_each Outputs.verify_extension lookup
    Extension.registry_contains Extension.registry_verify_output
outputs_pass = refl

verify_extensions-Answered_example : IsComplete values outputs context ([] ∷ [])
verify_extensions-Answered_example = verify_extensions-Answered values outputs context outputs_pass

start_bindings-state_example :
    ExtensionCheck.validate_extension_binding_state values inputs (cred_props_binding ∷ []) ≡ ok tt
start_bindings-state_example =
    start_bindings-state values (cred_props ∷ []) handlers_built Extension.operation_registration
      inputs true unchanged prepared copied
