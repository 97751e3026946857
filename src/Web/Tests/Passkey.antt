-- ===== src/Web/Tests/Passkey.antt =====
-- Concrete passkey operations, and their theorems at concrete inputs.
use secure_keyboard.Prelude.{◌≡◌, refl, true, false, [], ◌∷◌, some, none, arith}
use secure_keyboard.Js.{
  js, text_eq, includes, property, has_only_keys, Value, null, number, natural, negative, string,
  array, cons, nil, object, end, field,
}
use secure_keyboard.Js.Coerce.{text_of}
use secure_keyboard.Contracts.Checks.{is_bounded_integer}
use secure_keyboard.Web.Extensions.{copy_value, copy_record}
use secure_keyboard.Web.Mode.{ClientErrorCode, aborted, credential_api_failure}
use secure_keyboard.Web.Mode.Allowed.{IsPasskeyReady}
use secure_keyboard.Web.Base64.{encode_groups, encode_base64_url, decode_loop, decode_base64_url}
use secure_keyboard.Web.Outcome.{
  ok, throws, client_error, other_error, ◌>>=◌, map_outcome, normalize_web_authn_error,
}
use secure_keyboard.Web.Options.{
  required_string, optional_string, binary_option, bounded_timeout,
  to_native_authenticator_selection, descriptor_transports, to_native_descriptor,
  to_native_credentials, RequestOptions, to_native_request_options, relying_party, user_of,
  credential_parameters, CreationOptions, to_native_creation_options,
}
use secure_keyboard.Web.Options.Accepted.{IsRequest, to_native_request_options_iff}
use secure_keyboard.Web.Options.Creation.{IsCreation, to_native_creation_options_iff}
use secure_keyboard.Web.Credential.{
  array_buffer, other, Response, Credential, encoded_credential_binary, extension_results, Base,
  base_credential, SerializedRegistration, serialize_registration_credential, SerializedAssertion,
  serialize_assertion_credential,
}
use secure_keyboard.Web.Credential.Decoded.{HasCredentialBytes}
use secure_keyboard.Web.Credential.Registration.{
  IsRegistration, serialize_registration_credential_iff,
}
use secure_keyboard.Web.Credential.Assertion.{IsAssertion, serialize_assertion_credential_iff}
use secure_keyboard.Web.Passkey.{
  Signal, CredentialApi, caught, attempt, create_passkey, get_passkey,
}
use secure_keyboard.Web.Passkey.Settled.{IsAttempt, create_passkey_iff, get_passkey_iff}
use secure_keyboard.Web.Passkey.Failed.{IsError, IsFailure, create_passkey_fails_iff}
use secure_keyboard.Web.Tests.{browser, modes}

conversions : Unit {0}
unfolding js text_eq includes property has_only_keys text_of is_bounded_integer decode_loop
    decode_base64_url copy_value copy_record ◌>>=◌ map_outcome required_string optional_string
    binary_option bounded_timeout to_native_authenticator_selection descriptor_transports
    to_native_descriptor to_native_credentials to_native_request_options relying_party user_of
    credential_parameters to_native_creation_options
conversions = tt

abbrev descriptors : Value
descriptors = array (
    cons
      (object
        (field (js "type") (string (js "public-key")) (field (js "id") (string (js "AP8")) end)))
      nil)

abbrev request : Value
request = object (
    field (js "challenge") (string (js "AP8QgAc")) (
      field (js "timeout") (number (natural 60_000)) (
        field (js "allowCredentials") descriptors
          (field (js "userVerification") (string (js "required")) end))))

abbrev native_request : RequestOptions
native_request = record {
  challenge = 0 ∷ 255 ∷ 16 ∷ 128 ∷ 7 ∷ [];
  timeout = some (number (natural 60_000));
  rp_id = none;
  allow_credentials = some (record { id = 0 ∷ 255 ∷ []; transports = none } ∷ []);
  user_verification = some (js "required");
  hints = none;
  extensions = none;
}

to_native_request_options_iff_example : IsRequest request native_request
unfolding conversions
to_native_request_options_iff_example =
    (to_native_request_options_iff request native_request).0 refl

abbrev creation : Value
creation = object (
    field (js "challenge") (string (js "AP8QgAc")) (
      field (js "rp") (object (field (js "name") (string (js "Bank")) end)) (
        field (js "user")
          (object (
            field (js "id") (string (js "AP8")) (
              field (js "name") (string (js "ada"))
                (field (js "displayName") (string (js "Ada")) end))))
          (field (js "pubKeyCredParams")
            (array (
              cons
                (object (
                  field (js "type") (string (js "public-key"))
                    (field (js "alg") (number (negative 6)) end)))
                nil))
            (field (js "attestation") (string (js "none")) end)))))

abbrev native_creation : CreationOptions
native_creation = record {
  challenge = 0 ∷ 255 ∷ 16 ∷ 128 ∷ 7 ∷ [];
  rp = record { name = js "Bank"; id = none; icon = none };
  user = record { id = 0 ∷ 255 ∷ []; name = js "ada"; display_name = js "Ada"; icon = none };
  algorithms = negative 6 ∷ [];
  timeout = none;
  exclude_credentials = none;
  authenticator_selection = none;
  attestation = some (js "none");
  hints = none;
  extensions = none;
}

to_native_creation_options_iff_example : IsCreation creation native_creation
unfolding conversions
to_native_creation_options_iff_example =
    (to_native_creation_options_iff creation native_creation).0 refl

serialization : Unit {0}
unfolding conversions encode_groups encode_base64_url encoded_credential_binary extension_results
    base_credential serialize_registration_credential serialize_assertion_credential
serialization = tt

abbrev response : Response
response = record {
  client_data_json = array_buffer (123 ∷ 125 ∷ []);
  attestation_object = array_buffer (160 ∷ []);
  authenticator_data = array_buffer (1 ∷ []);
  signature = array_buffer (2 ∷ []);
  user_handle = other null;
  get_transports = some (ok (array (cons (string (js "usb")) nil)));
}

abbrev credential : Credential
credential = record {
  id = string (js "AP8");
  raw_id = array_buffer (0 ∷ 255 ∷ []);
  type = string (js "public-key");
  response = some response;
  authenticator_attachment = null;
  client_extension_results = ok (object end);
}

abbrev base : Base
base = record {
  id = js "AP8";
  raw_id = js "AP8";
  client_extension_results = object end;
  authenticator_attachment = null;
}

abbrev registration : SerializedRegistration
registration = record {
  base = base;
  client_data_json = js "e30";
  attestation_object = js "oA";
  transports = some (string (js "usb") ∷ []);
}

abbrev assertion : SerializedAssertion
assertion = record {
  base = base;
  client_data_json = js "e30";
  authenticator_data = js "AQ";
  signature = js "Ag";
  user_handle = none;
}

credential-HasCredentialBytes : HasCredentialBytes credential credential.response
credential-HasCredentialBytes = (
  (omega arith, (omega arith, tt)),
  record {
    client_data_json = (omega arith, (omega arith, tt));
    attestation_object = (omega arith, tt);
    authenticator_data = (omega arith, tt);
    signature = (omega arith, tt);
    user_handle = tt;
  },
)

serialize_registration_credential_iff_example :
    IsRegistration credential credential.response registration
unfolding serialization
serialize_registration_credential_iff_example =
    (serialize_registration_credential_iff credential registration credential-HasCredentialBytes).0
      refl

serialize_assertion_credential_iff_example : IsAssertion credential credential.response assertion
unfolding serialization
serialize_assertion_credential_iff_example =
    (serialize_assertion_credential_iff credential assertion credential-HasCredentialBytes).0 refl

-- A browser that returns the credential.
abbrev answering : {O : Type 0} → CredentialApi O
answering = ok (λ o. ok (some credential))

-- A browser that throws an error of its own.
abbrev failing : {O : Type 0} → CredentialApi O
failing = ok (λ o. throws other_error)

abbrev never : Signal
never = record { at_start = false; after_call = false; at_catch = false }

abbrev at_end : Signal
at_end = record never { at_catch = true }

operations : Unit {0}
unfolding modes serialization caught attempt normalize_web_authn_error create_passkey get_passkey
operations = tt

create_passkey_iff_example :
    IsPasskeyReady browser
    × (false ≡ false)
    × IsAttempt IsCreation serialize_registration_credential answering false creation registration
unfolding operations
create_passkey_iff_example =
    (create_passkey_iff browser never answering creation registration).0 refl

get_passkey_iff_example :
    IsPasskeyReady browser
    × (false ≡ false)
    × IsAttempt IsRequest serialize_assertion_credential answering false request assertion
unfolding operations
get_passkey_iff_example = (get_passkey_iff browser never answering request assertion).0 refl

-- The browser's error is an abort where the signal is aborted, and a failure of the API otherwise.
failed_calls :
    (create_passkey browser at_end failing creation ≡ throws (client_error aborted))
    × (create_passkey browser never failing creation ≡ throws (client_error credential_api_failure))
unfolding operations
failed_calls = (refl, refl)

create_passkey_fails_iff_example :
    (code : ClientErrorCode) × (client_error aborted ≡ client_error code)
    × IsFailure browser at_end
        (IsError IsCreation serialize_registration_credential failing false creation)
        code
unfolding operations
create_passkey_fails_iff_example =
    (create_passkey_fails_iff browser at_end failing creation (client_error aborted)).0 refl
