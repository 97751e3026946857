-- ===== src/Contracts/Tests.antt =====
-- Concrete runs of the contracts package, and its theorems at concrete inputs.
use secure_keyboard.Prelude.{◌≡◌, refl, true, false, List, [], ◌∷◌}
use secure_keyboard.Js.{
  js, text_eq, includes, property, has_only_keys, Value, number, natural, string, object, end,
  field,
}
use secure_keyboard.Js.Coerce.{text_of}
use secure_keyboard.Contracts.Patterns.{
  matches_key_id, matches_locale, matches_color, utf8_byte_length,
}
use secure_keyboard.Contracts.Checks.{
  report, is_bounded_number, is_bounded_integer, is_key_id, is_label,
}
use secure_keyboard.Contracts.Events.{validate_masked_state, validate_result_event}
use secure_keyboard.Contracts.Layout.{
  validate_key, key_path, scan_key, scan_keys, scan_row, scan_rows, rows_errors, slots_errors,
  validate_layout,
}
use secure_keyboard.Contracts.Policy.{
  after, hangul_input_key_ids, is_canonical_input_key_id, policy_key_errors, policy_row_errors,
  policy_errors, numeric, ascii, hangul, validate_layout_for_policy,
}
use secure_keyboard.Contracts.Theme.{
  colors_errors, metrics_errors, typography_errors, animation_errors, feedback_errors,
  validate_theme,
}
use secure_keyboard.Contracts.Defaults.{
  default_numeric_layout, default_hangul_layout, default_theme,
}
use secure_keyboard.Contracts.Patterns.Utf8.{utf16, utf8, utf8_byte_length-utf16}
use secure_keyboard.Contracts.Events.Valid.{IsResultEvent, validate_result_event_iff}
use secure_keyboard.Contracts.Layout.Shape.{IsLayout}
use secure_keyboard.Contracts.Layout.Valid.{validate_layout_iff}
use secure_keyboard.Contracts.Policy.Valid.{IsPolicyLayout, validate_layout_for_policy_iff}
use secure_keyboard.Contracts.Theme.Shape.{IsTheme}
use secure_keyboard.Contracts.Theme.Valid.{validate_theme_iff}
use secure_keyboard.Prelude.{ℕ, length, inl, inr, arith}

contracts : Unit {0}
unfolding js text_eq includes property has_only_keys text_of matches_key_id matches_locale
    matches_color utf8_byte_length report is_bounded_number is_bounded_integer is_key_id is_label
    validate_masked_state validate_result_event validate_key key_path scan_key scan_keys scan_row
    scan_rows rows_errors slots_errors validate_layout after hangul_input_key_ids
    is_canonical_input_key_id policy_key_errors policy_row_errors policy_errors
    validate_layout_for_policy colors_errors metrics_errors typography_errors animation_errors
    feedback_errors validate_theme default_numeric_layout default_hangul_layout default_theme
contracts = tt

default_layouts_valid :
    (validate_layout_for_policy default_numeric_layout numeric
      ≡ record { valid = true; errors = [] })
    × (validate_layout_for_policy default_hangul_layout hangul
        ≡ record { valid = true; errors = [] })
    × ((validate_layout_for_policy default_hangul_layout ascii).valid ≡ false)
unfolding contracts
default_layouts_valid = (refl, refl, refl)

default_theme_valid : validate_theme default_theme ≡ record { valid = true; errors = [] }
unfolding contracts
default_theme_valid = refl

ascii_ids :
    (is_canonical_input_key_id (js "ascii-7e") ascii ≡ true)
    × (is_canonical_input_key_id (js "ascii-7f") ascii ≡ false)
    × (is_canonical_input_key_id (js "ascii-1f") ascii ≡ false)
    × (is_canonical_input_key_id (js "digit-12") numeric ≡ false)
unfolding contracts
ascii_ids = (refl, refl, refl, refl)

validate_layout_iff_example : IsLayout default_numeric_layout
unfolding contracts
validate_layout_iff_example = (validate_layout_iff default_numeric_layout).0 refl

validate_layout_for_policy_iff_example :
    IsLayout default_hangul_layout × IsPolicyLayout hangul default_hangul_layout
unfolding contracts
validate_layout_for_policy_iff_example =
    (validate_layout_for_policy_iff default_hangul_layout hangul).0 refl

validate_theme_iff_example : IsTheme default_theme
unfolding contracts
validate_theme_iff_example = (validate_theme_iff default_theme).0 refl

abbrev masked_state : Value
masked_state = object (
    field (js "length") (number (natural 4096))
      (field (js "displayState") (string (js "masked")) end))

abbrev locked_event : Value
locked_event =
    object (field (js "type") (string (js "result")) (field (js "code") (string (js "locked")) end))

validate_result_event_iff_example : IsResultEvent locked_event
unfolding contracts
validate_result_event_iff_example = (validate_result_event_iff locked_event).0 refl

-- A letter, a Hangul syllable and a character outside the basic plane.
abbrev three_characters : List ℕ
three_characters = 0x41 ∷ 0xac00 ∷ 0x1f512 ∷ []

utf8_byte_length-utf16_example :
    utf8_byte_length (utf16 three_characters) ≡ length (utf8 three_characters)
utf8_byte_length-utf16_example =
    utf8_byte_length-utf16 three_characters
      (inl (omega arith), (inl (omega arith), (inr (omega arith, omega arith), tt)))
