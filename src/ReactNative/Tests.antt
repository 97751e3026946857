-- ===== src/ReactNative/Tests.antt =====
-- Concrete props and events, and the theorems on the React Native package at them.
use secure_keyboard.Prelude.{◌≡◌, refl, List, [], ◌∷◌, All}
use secure_keyboard.Js.{
  js, text_eq, includes, property, has_only_keys, Value, number, natural, string, object, function,
  Fields, end, field,
}
use secure_keyboard.Js.Coerce.{text_of}
use secure_keyboard.Contracts.Patterns.{
  matches_key_id, matches_locale, matches_color, utf8_byte_length,
}
use secure_keyboard.Contracts.Checks.{
  report, is_bounded_number, is_bounded_integer, is_key_id, is_label,
}
use secure_keyboard.Contracts.Events.{validate_masked_state, validate_result_event}
use secure_keyboard.Contracts.Layout.{
  validate_key, key_path, scan_key, scan_keys, scan_row, scan_rows, rows_errors, slots_errors,
  validate_layout,
}
use secure_keyboard.Contracts.Policy.{
  after, hangul_input_key_ids, is_canonical_input_key_id, policy_key_errors, policy_row_errors,
  policy_errors, validate_layout_for_policy,
}
use secure_keyboard.Contracts.Theme.{
  colors_errors, metrics_errors, typography_errors, animation_errors, feedback_errors,
  validate_theme,
}
use secure_keyboard.Contracts.Defaults.{
  default_numeric_layout, default_hangul_layout, default_theme,
}
use secure_keyboard.ReactNative.Props.{
  validate_headless_key_press, mode_errors, bounds_errors, validate_secure_keypad_props, copied_all,
  native_fields, get_secure_keypad_native_props,
}
use secure_keyboard.ReactNative.Props.Valid.{IsProps, validate_secure_keypad_props_iff}
use secure_keyboard.ReactNative.Props.Native.{
  IsNativeProps, get_secure_keypad_native_props-IsNativeProps,
}
use secure_keyboard.ReactNative.Events.{
  validate_masked_state_event, validate_result_envelope, NativeEvent, masked_state_event,
  result_event, result_call, error_envelope, handle_event, handle_events,
}
use secure_keyboard.ReactNative.Events.Safe.{IsSafeCall}
use secure_keyboard.ReactNative.View.{render, session}
use secure_keyboard.ReactNative.View.Render.{IsRender, render-IsRender, session_safe}

react_native : Unit {0}
unfolding js text_eq includes property has_only_keys text_of matches_key_id matches_locale
    matches_color utf8_byte_length report is_bounded_number is_bounded_integer is_key_id is_label
    validate_masked_state validate_result_event validate_key key_path scan_key scan_keys scan_row
    scan_rows rows_errors slots_errors validate_layout after hangul_input_key_ids
    is_canonical_input_key_id policy_key_errors policy_row_errors policy_errors
    validate_layout_for_policy colors_errors metrics_errors typography_errors animation_errors
    feedback_errors validate_theme default_numeric_layout default_hangul_layout default_theme
    validate_headless_key_press mode_errors bounds_errors validate_secure_keypad_props copied_all
    get_secure_keypad_native_props validate_masked_state_event validate_result_envelope handle_event
    handle_events render session
react_native = tt

abbrev props : Fields
props = field (js "layout") default_hangul_layout (
    field (js "theme") default_theme (
      field (js "inputPolicy") (string (js "hangul")) (
        field (js "maxTokens") (number (natural 64))
          (field (js "onResult") (function (js "() => {}")) end))))

-- A prop that would carry a secret.
abbrev secret_props : Fields
secret_props = field (js "password") (string (js "1234")) props

validate_secure_keypad_props_iff_example : IsProps (object props)
unfolding react_native
validate_secure_keypad_props_iff_example = (validate_secure_keypad_props_iff (object props)).0 refl

get_secure_keypad_native_props-IsNativeProps_example :
    IsNativeProps (object props) (native_fields props)
unfolding react_native
get_secure_keypad_native_props-IsNativeProps_example =
    get_secure_keypad_native_props-IsNativeProps (object props) (native_fields props) refl

render-IsRender_example : IsRender secret_props (render secret_props)
render-IsRender_example = render-IsRender secret_props

secret_props_refused : session secret_props [] ≡ result_call error_envelope ∷ []
unfolding react_native
secret_props_refused = refl

abbrev masked_event : Value
masked_event = object (
    field (js "nativeEvent")
      (object (
        field (js "length") (number (natural 3))
          (field (js "displayState") (string (js "masked")) end)))
      end)

abbrev events : List NativeEvent
events = masked_state_event masked_event ∷ result_event masked_event ∷ []

session_safe_example : All IsSafeCall (session props events)
session_safe_example = session_safe props events
