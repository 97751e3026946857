-- ===== src/Web/Options.antt =====
-- The conversion of the server's JSON options into the browser's.
--
-- Every throw of these functions is a WebAuthnClientError with the code "invalid-options".
pub mod Parts
pub mod Lists
pub mod Accepted
pub mod Creation
pub mod Rejected
use secure_keyboard.Prelude.{
  ℕ, String, Bool, true, false, not, ◌&&◌, ◌||◌, ◌==◌, List, [], ◌∷◌, Option, none, some, ltb,
  if◌then◌else◌, length, any,
}
use secure_keyboard.Js.{
  copied, JsString, js, includes, Value, undefined, null, boolean, number, string, array, object,
  function, Fields, end, items, get, has_only_keys, is_text, is_boolean, JsNumber, is_integer,
}
use secure_keyboard.Js.Coerce.{text_of}
use secure_keyboard.Contracts.Checks.{is_bounded_integer}
use secure_keyboard.Contracts.Checks
use secure_keyboard.Web.Mode.{invalid_options}
use secure_keyboard.Web.Base64.{Bytes, max_webauthn_binary_bytes, decode_base64_url}
use secure_keyboard.Web.Extensions.{copy_record}
use secure_keyboard.Web.Outcome.{
  Outcome, ok, throws, ◌>>=◌, fail, unless, from_option, optional, map_outcome,
}

abbrev pub invalid {ℓ} : {A : Type ℓ} → Outcome A
invalid = fail invalid_options

abbrev pub is_empty_text : JsString → Bool
is_empty_text [] = true
is_empty_text (c ∷ cs) = false

unfoldable pub required_string : ℕ → Value → Outcome JsString
required_string maximum (string t) =
    unless (is_empty_text t || ltb maximum (length t)) invalid_options (ok t)
required_string maximum _ = invalid

unfoldable pub optional_string : ℕ → Value → Outcome (Option JsString)
optional_string maximum = optional (required_string maximum)

unfoldable pub binary_option : Value → Outcome Bytes
binary_option v = required_string 16384 v >>= λ encoded.
    from_option invalid_options (decode_base64_url encoded max_webauthn_binary_bytes)

abbrev pub timeout_of : Value → Outcome Value
timeout_of v = unless (not (is_bounded_integer 1 120_000 v)) invalid_options (ok v)

unfoldable pub bounded_timeout : Value → Outcome (Option Value)
bounded_timeout = optional timeout_of

abbrev pub selection_fields : List JsString
selection_fields =
    js "authenticatorAttachment"
    ∷ js "residentKey"
    ∷ js "requireResidentKey"
    ∷ js "userVerification"
    ∷ []

abbrev pub requirement_words : List JsString
requirement_words = js "discouraged" ∷ js "preferred" ∷ js "required" ∷ []

abbrev pub is_attachment : Value → Bool
is_attachment v = is_text v (js "cross-platform") || is_text v (js "platform")

-- The words are compared with `String(value)`.
abbrev pub reads_as_requirement : Value → Bool
reads_as_requirement v = includes requirement_words (text_of v)

abbrev pub is_selection : Fields → Bool
is_selection fs =
    has_only_keys fs selection_fields
    && Checks.optional is_attachment (get fs "authenticatorAttachment")
    && Checks.optional reads_as_requirement (get fs "residentKey")
    && Checks.optional is_boolean (get fs "requireResidentKey")
    && Checks.optional reads_as_requirement (get fs "userVerification")

abbrev pub selection_of : Fields → Fields
selection_of fs = copied (js "authenticatorAttachment") (get fs "authenticatorAttachment") (
    copied (js "residentKey") (get fs "residentKey") (
      copied (js "requireResidentKey") (get fs "requireResidentKey")
        (copied (js "userVerification") (get fs "userVerification") end)))

unfoldable pub to_native_authenticator_selection : Value → Outcome Fields
to_native_authenticator_selection (object fs) =
    unless (not (is_selection fs)) invalid_options (ok (selection_of fs))
to_native_authenticator_selection _ = invalid

-- The fields of the result, whose type is always "public-key".
pub record Descriptor : Type 0 where
  pub id : Bytes
  pub transports : Option (List Value)

abbrev pub transport_words : List JsString
transport_words = js "ble" ∷ js "hybrid" ∷ js "internal" ∷ js "nfc" ∷ js "usb" ∷ []

unfoldable pub descriptor_transports : Value → Outcome (List Value)
descriptor_transports (array vs) =
    unless
      (ltb 5 (length (items vs))
        || any (λ v. not (includes transport_words (text_of v))) (items vs))
      invalid_options (ok (items vs))
descriptor_transports _ = invalid

unfoldable pub to_native_descriptor : Value → Outcome Descriptor
to_native_descriptor (object fs) =
    unless (not (is_text (get fs "type") (js "public-key"))) invalid_options (
      binary_option (get fs "id") >>= λ id.
      optional descriptor_transports (get fs "transports") >>= λ transports.
      ok (record { id = id; transports = transports }))
to_native_descriptor _ = invalid

abbrev pub max_webauthn_credentials : ℕ
max_webauthn_credentials = 64

abbrev pub descriptors_of : Value → Outcome (List Descriptor)
descriptors_of (array vs) =
    unless (ltb max_webauthn_credentials (length (items vs))) invalid_options
      (map_outcome to_native_descriptor (items vs))
descriptors_of _ = invalid

unfoldable pub to_native_credentials : Value → Outcome (Option (List Descriptor))
to_native_credentials = optional descriptors_of

-- A word of a list, compared as it is.
abbrev pub word_of : List JsString → Value → Outcome JsString
word_of words (string t) = unless (not (includes words t)) invalid_options (ok t)
word_of words _ = invalid

abbrev pub hint_words : List JsString
hint_words = js "client-device" ∷ js "hybrid" ∷ js "security-key" ∷ []

abbrev pub hints_of : Value → Outcome (List JsString)
hints_of (array vs) =
    unless (ltb 3 (length (items vs))) invalid_options (map_outcome (word_of hint_words) (items vs))
hints_of _ = invalid

abbrev pub extensions_of : Value → Outcome Value
extensions_of v = from_option invalid_options (copy_record v)

-- The `publicKey` of a request.
pub record RequestOptions : Type 0 where
  pub challenge : Bytes
  pub timeout : Option Value
  pub rp_id : Option JsString
  pub allow_credentials : Option (List Descriptor)
  pub user_verification : Option JsString
  pub hints : Option (List JsString)
  pub extensions : Option Value

unfoldable pub to_native_request_options : Value → Outcome RequestOptions
to_native_request_options (object fs) = do
  challenge ← binary_option (get fs "challenge")
  timeout ← bounded_timeout (get fs "timeout")
  rp_id ← optional_string 253 (get fs "rpId")
  allow_credentials ← to_native_credentials (get fs "allowCredentials")
  user_verification ← optional (word_of requirement_words) (get fs "userVerification")
  hints ← optional hints_of (get fs "hints")
  extensions ← optional extensions_of (get fs "extensions")
  ok (record {
    challenge = challenge;
    timeout = timeout;
    rp_id = rp_id;
    allow_credentials = allow_credentials;
    user_verification = user_verification;
    hints = hints;
    extensions = extensions;
  })
to_native_request_options _ = invalid

pub record Named : Type 0 where
  pub name : JsString
  pub id : Option JsString
  pub icon : Option JsString

unfoldable pub relying_party : Value → Outcome Named
relying_party (object rp) = do
  name ← required_string 256 (get rp "name")
  id ← optional_string 253 (get rp "id")
  icon ← optional_string 2048 (get rp "icon")
  ok (record { name = name; id = id; icon = icon })
relying_party _ = invalid

pub record User : Type 0 where
  pub id : Bytes
  pub name : JsString
  pub display_name : JsString
  pub icon : Option JsString

unfoldable pub user_of : Value → Outcome User
user_of (object user) = do
  id ← binary_option (get user "id")
  name ← required_string 320 (get user "name")
  display_name ← required_string 256 (get user "displayName")
  icon ← optional_string 2048 (get user "icon")
  ok (record { id = id; name = name; display_name = display_name; icon = icon })
user_of _ = invalid

abbrev pub algorithm_of : Value → Outcome JsNumber
algorithm_of (number x) = unless (not (is_integer x)) invalid_options (ok x)
algorithm_of _ = invalid

-- The algorithm of a parameter of type "public-key".
abbrev pub parameter_of : Value → Outcome JsNumber
parameter_of (object fs) =
    unless (not (is_text (get fs "type") (js "public-key"))) invalid_options
      (algorithm_of (get fs "alg"))
parameter_of _ = invalid

abbrev pub is_parameter_count : ℕ → Bool
is_parameter_count n = n == 0 || ltb 32 n

unfoldable pub credential_parameters : Value → Outcome (List JsNumber)
credential_parameters (array vs) =
    unless (is_parameter_count (length (items vs))) invalid_options
      (map_outcome parameter_of (items vs))
credential_parameters _ = invalid

abbrev pub attestation_words : List JsString
attestation_words = js "none" ∷ js "indirect" ∷ js "direct" ∷ js "enterprise" ∷ []

-- The `publicKey` of a creation.
pub record CreationOptions : Type 0 where
  pub challenge : Bytes
  pub rp : Named
  pub user : User
  pub algorithms : List JsNumber
  pub timeout : Option Value
  pub exclude_credentials : Option (List Descriptor)
  pub authenticator_selection : Option Fields
  pub attestation : Option JsString
  pub hints : Option (List JsString)
  pub extensions : Option Value

-- All failures have one code, so the checks of the shapes are made with the fields.
unfoldable pub to_native_creation_options : Value → Outcome CreationOptions
to_native_creation_options (object fs) = do
  challenge ← binary_option (get fs "challenge")
  rp ← relying_party (get fs "rp")
  user ← user_of (get fs "user")
  algorithms ← credential_parameters (get fs "pubKeyCredParams")
  timeout ← bounded_timeout (get fs "timeout")
  exclude_credentials ← to_native_credentials (get fs "excludeCredentials")
  authenticator_selection ←
      optional to_native_authenticator_selection (get fs "authenticatorSelection")
  attestation ← optional (word_of attestation_words) (get fs "attestation")
  hints ← optional hints_of (get fs "hints")
  extensions ← optional extensions_of (get fs "extensions")
  ok (record {
    challenge = challenge;
    rp = rp;
    user = user;
    algorithms = algorithms;
    timeout = timeout;
    exclude_credentials = exclude_credentials;
    authenticator_selection = authenticator_selection;
    attestation = attestation;
    hints = hints;
    extensions = extensions;
  })
to_native_creation_options _ = invalid
