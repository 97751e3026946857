-- ===== src/ReactNative/Props.antt =====
-- `validateSecureKeypadProps` and `getSecureKeypadNativeProps`.
pub mod Valid
pub mod Native
use secure_keyboard.Prelude.{
  ℕ, ◌-◌, ◌^◌, String, Bool, true, false, not, ◌&&◌, ◌||◌, ◌==◌, List, [], ◌∷◌, ◌++◌, Option, none,
  some, length, if◌then◌else◌,
}
use secure_keyboard.Js.{
  copied, max_safe_integer, JsString, js, includes, Value, undefined, null, string, object, Fields,
  end, field, keys, get, property, has_only_keys, is_text, is_true, is_boolean, is_function,
  is_undefined, is_record,
}
use secure_keyboard.Contracts.Checks.{
  max_rendered_length, ValidationResult, result, report, is_bounded_integer, optional, is_key_id,
}
use secure_keyboard.Contracts.Policy.{
  InputPolicy, numeric, ascii, hangul, validate_layout_for_policy,
}
use secure_keyboard.Contracts.Theme.{validate_theme}

-- ALLOWED_PROP_NAMES
abbrev pub allowed_prop_names : List JsString
allowed_prop_names =
    js "style"
    ∷ js "layout"
    ∷ js "theme"
    ∷ js "inputPolicy"
    ∷ js "mode"
    ∷ js "securityMode"
    ∷ js "acknowledgeLowerAssurance"
    ∷ js "maxTokens"
    ∷ js "timeoutMs"
    ∷ js "cancelRequest"
    ∷ js "headlessKeyPress"
    ∷ js "onMaskedStateChange"
    ∷ js "onResult"
    ∷ []

abbrev pub key_press_fields : List JsString
key_press_fields = js "token" ∷ js "keyId" ∷ []

-- `validateHeadlessKeyPress`
unfoldable pub validate_headless_key_press : Value → Bool
validate_headless_key_press (object fs) =
    length (keys fs) == 2
    && has_only_keys fs key_press_fields
    && is_bounded_integer 0 max_safe_integer (get fs "token")
    && is_key_id (get fs "keyId")
validate_headless_key_press _ = false

-- The policy that the layout is checked for.
abbrev pub policy_of : Value → InputPolicy
policy_of v =
    if is_text v (js "ascii") then ascii else if is_text v (js "hangul") then hangul else numeric

abbrev pub is_input_policy : Value → Bool
is_input_policy v = is_text v (js "numeric") || is_text v (js "ascii") || is_text v (js "hangul")

-- `value.mode ?? "secure-native"`
abbrev pub default_mode : Value → Value
default_mode undefined = string (js "secure-native")
default_mode null = string (js "secure-native")
default_mode v = v

abbrev pub is_secure_native : Value → Bool
is_secure_native mode = is_text (default_mode mode) (js "secure-native")

abbrev pub is_headless : Value → Bool
is_headless mode = is_text (default_mode mode) (js "headless-host")

abbrev pub is_security_mode : Value → Bool
is_security_mode v = is_text v (js "standard") || is_text v (js "strict")

-- `if (!result.valid) errors.push(...result.errors)`
abbrev pub errors_of : ValidationResult → List JsString
errors_of r = if r.valid then [] else r.errors

-- The errors of the mode and of the two fields that depend on it.
unfoldable pub mode_errors : Fields → List JsString
mode_errors fs =
    report (not (is_secure_native (get fs "mode") || is_headless (get fs "mode")))
      (js "props.mode is invalid")
    ++ report (not (optional is_boolean (get fs "acknowledgeLowerAssurance")))
        (js "props.acknowledgeLowerAssurance is invalid")
    ++ report
        (not
          (not (is_headless (get fs "mode") && not (is_true (get fs "acknowledgeLowerAssurance")))))
        (js "headless-host mode requires explicit lower-assurance acknowledgement")
    ++ report
        (not
          (not (is_secure_native (get fs "mode") && is_true (get fs "acknowledgeLowerAssurance"))))
        (js "lower-assurance acknowledgement requires headless-host mode")
    ++ report (not (optional is_security_mode (get fs "securityMode")))
        (js "props.securityMode is invalid")
    ++ report (not (optional validate_headless_key_press (get fs "headlessKeyPress")))
        (js "props.headlessKeyPress is invalid")
    ++ report (not (is_undefined (get fs "headlessKeyPress") || is_headless (get fs "mode")))
        (js "headlessKeyPress requires headless-host mode")

unfoldable pub bounds_errors : Fields → List JsString
bounds_errors fs =
    report (not (optional (is_bounded_integer 1 max_rendered_length) (get fs "maxTokens")))
      (js "props.maxTokens is invalid")
    ++ report (not (optional (is_bounded_integer 1 86_400_000) (get fs "timeoutMs")))
        (js "props.timeoutMs is invalid")
    ++ report (not (optional (is_bounded_integer 0 max_safe_integer) (get fs "cancelRequest")))
        (js "props.cancelRequest is invalid")
    ++ report (not (optional is_function (get fs "onMaskedStateChange")))
        (js "props.onMaskedStateChange is invalid")
    ++ report (not (optional is_function (get fs "onResult"))) (js "props.onResult is invalid")

unfoldable pub validate_secure_keypad_props : Value → ValidationResult
validate_secure_keypad_props (object fs) = result (
    report (not (has_only_keys fs allowed_prop_names)) (js "props contains an unsupported field")
    ++ errors_of (validate_layout_for_policy (get fs "layout") (policy_of (get fs "inputPolicy")))
    ++ errors_of (validate_theme (get fs "theme"))
    ++ report (not (optional is_input_policy (get fs "inputPolicy")))
        (js "props.inputPolicy is invalid")
    ++ mode_errors fs
    ++ bounds_errors fs)
validate_secure_keypad_props _ = result (js "props must be an object" ∷ [])

-- The props that are copied where they are given, in the order of the spreads.
abbrev pub optional_native_names : List JsString
optional_native_names =
    js "style"
    ∷ js "inputPolicy"
    ∷ js "mode"
    ∷ js "securityMode"
    ∷ js "acknowledgeLowerAssurance"
    ∷ js "maxTokens"
    ∷ js "timeoutMs"
    ∷ js "cancelRequest"
    ∷ js "headlessKeyPress"
    ∷ []

-- One spread for each name.
unfoldable pub copied_all : List JsString → Fields → Fields
copied_all [] fs = end
copied_all (name ∷ names) fs = copied name (property fs name) (copied_all names fs)

-- The object that may cross into the native view.
abbrev pub native_fields : Fields → Fields
native_fields fs =
    field (js "layout") (get fs "layout")
      (field (js "theme") (get fs "theme") (copied_all optional_native_names fs))

-- `getSecureKeypadNativeProps`; none stands for the TypeError of `assertSecureKeypadProps`.
unfoldable pub get_secure_keypad_native_props : Value → Option Fields
get_secure_keypad_native_props (object fs) =
    if (validate_secure_keypad_props (object fs)).valid then some (native_fields fs) else none
get_secure_keypad_native_props _ = none
