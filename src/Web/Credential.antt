-- ===== src/Web/Credential.antt =====
-- The serialization of a browser credential into the server's JSON envelope.
--
-- A credential's fields are read as data; what its two methods do is a call of browser code.
pub mod Decoded
pub mod Registration
pub mod Assertion
use secure_keyboard.Prelude.{
  ℕ, Bool, true, false, not, ◌&&◌, ◌||◌, List, [], ◌∷◌, Option, none, some, ltb, if◌then◌else◌,
  length, any,
}
use secure_keyboard.Js.{
  JsString, js, includes, Value, undefined, null, boolean, number, string, array, object, function,
  items, is_text,
}
use secure_keyboard.Web.Mode.{ClientErrorCode, invalid_credential}
use secure_keyboard.Web.Base64.{Bytes, max_webauthn_binary_bytes, encode_base64_url}
use secure_keyboard.Web.Extensions.{copy_record}
use secure_keyboard.Web.Options.{is_empty_text, transport_words}
use secure_keyboard.Web.Outcome.{Outcome, ok, throws, ◌>>=◌, fail, unless, from_option, normalized}

-- A field that should hold an ArrayBuffer.
pub data Binary : Type 0 where
  array_buffer : Bytes → Binary
  other : Value → Binary

-- The two kinds of response together; a field that a response does not have is other undefined.
-- getTransports is none where it is no function.
pub record Response : Type 0 where
  pub client_data_json : Binary
  pub attestation_object : Binary
  pub authenticator_data : Binary
  pub signature : Binary
  pub user_handle : Binary
  pub get_transports : Option (Outcome Value)

-- The response is none where it is no object.
pub record Credential : Type 0 where
  pub id : Value
  pub raw_id : Binary
  pub type : Value
  pub response : Option Response
  pub authenticator_attachment : Value
  pub client_extension_results : Outcome Value

abbrev pub invalid {ℓ} : {A : Type ℓ} → Outcome A
invalid = fail invalid_credential

unfoldable pub encoded_credential_binary : Binary → Outcome JsString
encoded_credential_binary (array_buffer bytes) =
    from_option invalid_credential (encode_base64_url bytes)
encoded_credential_binary (other v) = invalid

abbrev pub max_credential_id_length : ℕ
max_credential_id_length = 2048

-- A call that throws, a result that is no object, and one past its bounds all end alike.
unfoldable pub extension_results : Outcome Value → Outcome Value
extension_results (throws e) = invalid
extension_results (ok v) = from_option invalid_credential (copy_record v)

abbrev pub credential_id : Value → Outcome JsString
credential_id (string t) =
    unless (is_empty_text t || ltb max_credential_id_length (length t)) invalid_credential (ok t)
credential_id _ = invalid

abbrev pub is_array_buffer : Binary → Bool
is_array_buffer (array_buffer bytes) = true
is_array_buffer (other v) = false

abbrev pub is_attachment : Value → Bool
is_attachment undefined = true
is_attachment null = true
is_attachment v = is_text v (js "platform") || is_text v (js "cross-platform")

-- The type is always "public-key"; an attachment that is undefined is left out.
pub record Base : Type 0 where
  pub id : JsString
  pub raw_id : JsString
  pub client_extension_results : Value
  pub authenticator_attachment : Value

unfoldable pub base_credential : Credential → Outcome Base
base_credential c = credential_id c.id >>= λ id.
    unless (not (is_text c.type (js "public-key") && is_array_buffer c.raw_id)) invalid_credential (
      encoded_credential_binary c.raw_id >>= λ raw_id.
      extension_results c.client_extension_results >>= λ results.
      unless (not (is_attachment c.authenticator_attachment)) invalid_credential (
        ok (record {
          id = id;
          raw_id = raw_id;
          client_extension_results = results;
          authenticator_attachment = c.authenticator_attachment;
        })))

-- `includes` on the transports themselves.
abbrev pub is_transport : Value → Bool
is_transport (string t) = includes transport_words t
is_transport _ = false

abbrev pub checked_transports : Value → Outcome (List Value)
checked_transports (array vs) =
    unless (ltb 5 (length (items vs)) || any (λ v. not (is_transport v)) (items vs))
      invalid_credential (ok (items vs))
checked_transports _ = invalid

abbrev pub transports_of : Option (Outcome Value) → Outcome (Option (List Value))
transports_of none = ok none
transports_of (some call) = call >>= λ v. checked_transports v >>= λ ts. ok (some ts)

pub record SerializedRegistration : Type 0 where
  pub base : Base
  pub client_data_json : JsString
  pub attestation_object : JsString
  pub transports : Option (List Value)

abbrev pub registration_response : Credential → Option Response → Outcome SerializedRegistration
registration_response c none = invalid
registration_response c (some r) =
    unless (not (is_array_buffer r.client_data_json && is_array_buffer r.attestation_object))
      invalid_credential
      (base_credential c >>= λ base.
        encoded_credential_binary r.client_data_json >>= λ client_data_json.
        encoded_credential_binary r.attestation_object >>= λ attestation_object.
        transports_of r.get_transports >>= λ transports. ok (record {
          base = base;
          client_data_json = client_data_json;
          attestation_object = attestation_object;
          transports = transports;
        }))

unfoldable pub serialize_registration_credential : Credential → Outcome SerializedRegistration
serialize_registration_credential c =
    normalized invalid_credential (registration_response c c.response)

-- null, or the encoded handle.
abbrev pub user_handle_of : Binary → Outcome (Option JsString)
user_handle_of (other null) = ok none
user_handle_of b = encoded_credential_binary b >>= λ t. ok (some t)

abbrev pub is_user_handle : Binary → Bool
is_user_handle (other null) = true
is_user_handle b = is_array_buffer b

pub record SerializedAssertion : Type 0 where
  pub base : Base
  pub client_data_json : JsString
  pub authenticator_data : JsString
  pub signature : JsString
  pub user_handle : Option JsString

abbrev pub are_assertion_buffers : Response → Bool
are_assertion_buffers r =
    is_array_buffer r.client_data_json
    && is_array_buffer r.authenticator_data
    && is_array_buffer r.signature
    && is_user_handle r.user_handle

abbrev pub assertion_response : Credential → Option Response → Outcome SerializedAssertion
assertion_response c none = invalid
assertion_response c (some r) = unless (not (are_assertion_buffers r)) invalid_credential (
    base_credential c >>= λ base.
    encoded_credential_binary r.client_data_json >>= λ client_data_json.
    encoded_credential_binary r.authenticator_data >>= λ authenticator_data.
    encoded_credential_binary r.signature >>= λ signature.
    user_handle_of r.user_handle >>= λ user_handle. ok (record {
      base = base;
      client_data_json = client_data_json;
      authenticator_data = authenticator_data;
      signature = signature;
      user_handle = user_handle;
    }))

unfoldable pub serialize_assertion_credential : Credential → Outcome SerializedAssertion
serialize_assertion_credential c = normalized invalid_credential (assertion_response c c.response)
