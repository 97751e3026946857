-- ===== src/ReactNative/Props/Valid.antt =====
-- `validateSecureKeypadProps` accepts exactly the well-formed props.
use secure_keyboard.Prelude.{
  ℕ, ◌≡◌, ◌≢◌, sym, ap, ◌∙◌, ◌↔◌, ◌⊎◌, true, List, [], ◌∷◌, arith, All, append-eq-nil_iff, length,
  ==_iff,
}
use secure_keyboard.Js.{
  max_safe_integer, JsString, js, Value, undefined, boolean, string, object, function, Fields, keys,
  get, is_function, is_true, is_undefined,
}
use secure_keyboard.Contracts.Checks.{max_rendered_length, result}
use secure_keyboard.Contracts.Reports.{
  OneOf, AsText, Optional, valid_iff, report-eq-nil_iff, has_only_keys_iff, optional_iff, iff_trans,
}
use secure_keyboard.Contracts.Patterns.Words.{IsKeyId}
use secure_keyboard.Contracts.Events.Valid.{IsInteger, is_bounded_integer_iff}
use secure_keyboard.Contracts.Layout.Shape.{IsText, IsBoolean, IsLayout}
use secure_keyboard.Contracts.Layout.Parts.{is_text_iff, is_boolean_iff, is_key_id_iff}
use secure_keyboard.Contracts.Policy.{InputPolicy, validate_layout_for_policy}
use secure_keyboard.Contracts.Policy.Valid.{IsPolicyLayout, validate_layout_for_policy_iff}
use secure_keyboard.Contracts.Theme.{validate_theme}
use secure_keyboard.Contracts.Theme.Valid.{validate_theme_iff}
use secure_keyboard.Contracts.Theme.Shape.{IsTheme}
use secure_keyboard.ReactNative.Props.{
  allowed_prop_names, key_press_fields, validate_headless_key_press, policy_of, is_input_policy,
  default_mode, is_security_mode, errors_of, mode_errors, bounds_errors,
  validate_secure_keypad_props,
}

-- A public key press: a token and a key ID, and nothing else.
abbrev pub IsKeyPress : Value → Type 0
IsKeyPress (object fs) =
    (length (keys fs) ≡ 2)
    × All (OneOf key_press_fields) (keys fs)
    × IsInteger 0 max_safe_integer (get fs "token")
    × AsText IsKeyId (get fs "keyId")
IsKeyPress _ = ⊥

pub validate_headless_key_press_iff :
    (v : Value) → (validate_headless_key_press v ≡ true) ↔ IsKeyPress v
unfolding validate_headless_key_press
validate_headless_key_press_iff (object fs) = ground (
  arith,
  ==_iff (length (keys fs)) 2,
  has_only_keys_iff fs key_press_fields,
  is_bounded_integer_iff 0 max_safe_integer (get fs "token"),
  is_key_id_iff (get fs "keyId"),
)
validate_headless_key_press_iff _ = ground arith

abbrev pub IsInputPolicy : Value → Type 0
IsInputPolicy v = IsText (js "numeric") v ⊎ IsText (js "ascii") v ⊎ IsText (js "hangul") v

abbrev pub IsFunction : Value → Type 0
IsFunction (function t) = Unit
IsFunction _ = ⊥

-- The default renderer takes no acknowledgement and no public key press.
abbrev pub IsSecureNative : Fields → Type 0
IsSecureNative fs =
    IsText (js "secure-native") (default_mode (get fs "mode"))
    × (get fs "acknowledgeLowerAssurance" ≢ boolean true)
    × (get fs "headlessKeyPress" ≡ undefined)

-- The lower-assurance renderer needs the acknowledgement.
abbrev pub IsHeadless : Fields → Type 0
IsHeadless fs =
    IsText (js "headless-host") (default_mode (get fs "mode"))
    × (get fs "acknowledgeLowerAssurance" ≡ boolean true)

pub record IsModeFields (fs : Fields) : Type 0 where
  pub renderer : IsSecureNative fs ⊎ IsHeadless fs
  pub acknowledged : Optional IsBoolean (get fs "acknowledgeLowerAssurance")
  pub security_mode :
      Optional (λ v. IsText (js "standard") v ⊎ IsText (js "strict") v) (get fs "securityMode")
  pub key_press : Optional IsKeyPress (get fs "headlessKeyPress")

pub record IsBoundsFields (fs : Fields) : Type 0 where
  pub max_tokens : Optional (IsInteger 1 max_rendered_length) (get fs "maxTokens")
  pub timeout_ms : Optional (IsInteger 1 86_400_000) (get fs "timeoutMs")
  pub cancel_request : Optional (IsInteger 0 max_safe_integer) (get fs "cancelRequest")
  pub on_masked_state_change : Optional IsFunction (get fs "onMaskedStateChange")
  pub on_result : Optional IsFunction (get fs "onResult")

pub record IsPropsFields (fs : Fields) : Type 0 where
  pub known : All (OneOf allowed_prop_names) (keys fs)
  pub layout : IsLayout (get fs "layout")
  pub layout_policy : IsPolicyLayout (policy_of (get fs "inputPolicy")) (get fs "layout")
  pub theme : IsTheme (get fs "theme")
  pub input_policy : Optional IsInputPolicy (get fs "inputPolicy")
  pub mode : IsModeFields fs
  pub bounds : IsBoundsFields fs

abbrev pub IsProps : Value → Type 0
IsProps (object fs) = IsPropsFields fs
IsProps _ = ⊥

is_input_policy_iff : (v : Value) → (is_input_policy v ≡ true) ↔ IsInputPolicy v
is_input_policy_iff v =
    ground
      (arith, is_text_iff v (js "numeric"), is_text_iff v (js "ascii"), is_text_iff v (js "hangul"))

is_security_mode_iff :
    (v : Value) → (is_security_mode v ≡ true) ↔ (IsText (js "standard") v ⊎ IsText (js "strict") v)
is_security_mode_iff v = ground (arith, is_text_iff v (js "standard"), is_text_iff v (js "strict"))

is_function_iff : (v : Value) → (is_function v ≡ true) ↔ IsFunction v
is_function_iff (function t) = ground arith
is_function_iff _ = ground arith

is_true_iff : (v : Value) → (is_true v ≡ true) ↔ (v ≡ boolean true)
is_true_iff (boolean b) = ground arith
is_true_iff _ = ground arith

is_undefined_iff : (v : Value) → (is_undefined v ≡ true) ↔ (v ≡ undefined)
is_undefined_iff undefined = ground arith
is_undefined_iff _ = ground arith

abbrev first_unit : Value → ℕ
first_unit (string (c ∷ cs)) = c
first_unit _ = 0

modes_differ : (v : Value) → IsText (js "secure-native") v → IsText (js "headless-host") v → ⊥
unfolding js
modes_differ v p q = let e : 115 ≡ 104 = ap first_unit (sym p ∙ q) in omega (arith, e)

mode_iff : (fs : Fields) → (mode_errors fs ≡ []) ↔ IsModeFields fs
unfolding mode_errors
mode_iff fs =
    simp (append-eq-nil_iff, report-eq-nil_iff)
      (ground (
        arith,
        is_text_iff (default_mode (get fs "mode")) (js "secure-native"),
        is_text_iff (default_mode (get fs "mode")) (js "headless-host"),
        modes_differ (default_mode (get fs "mode")),
        is_true_iff (get fs "acknowledgeLowerAssurance"),
        is_undefined_iff (get fs "headlessKeyPress"),
        optional_iff _ _ is_boolean_iff (get fs "acknowledgeLowerAssurance"),
        optional_iff _ _ is_security_mode_iff (get fs "securityMode"),
        optional_iff _ _ validate_headless_key_press_iff (get fs "headlessKeyPress"),
      ))

bounds_iff : (fs : Fields) → (bounds_errors fs ≡ []) ↔ IsBoundsFields fs
unfolding bounds_errors
bounds_iff fs =
    simp (append-eq-nil_iff, report-eq-nil_iff)
      (ground (
        arith,
        optional_iff _ _ (is_bounded_integer_iff 1 max_rendered_length) (get fs "maxTokens"),
        optional_iff _ _ (is_bounded_integer_iff 1 86_400_000) (get fs "timeoutMs"),
        optional_iff _ _ (is_bounded_integer_iff 0 max_safe_integer) (get fs "cancelRequest"),
        optional_iff _ _ is_function_iff (get fs "onMaskedStateChange"),
        optional_iff _ _ is_function_iff (get fs "onResult"),
      ))

errors_of_iff : (es : List JsString) → (errors_of (result es) ≡ []) ↔ ((result es).valid ≡ true)
errors_of_iff [] = ground arith
errors_of_iff (e ∷ es) = ground arith

layout_iff :
    (v : Value) (policy : InputPolicy)
    → (errors_of (validate_layout_for_policy v policy) ≡ [])
      ↔ (IsLayout v × IsPolicyLayout policy v)
unfolding validate_layout_for_policy
layout_iff v policy = iff_trans (errors_of_iff _) (validate_layout_for_policy_iff v policy)

IsTheme-iff : (v : Value) → (errors_of (validate_theme v) ≡ []) ↔ IsTheme v
unfolding validate_theme
IsTheme-iff (object fs) = iff_trans (errors_of_iff _) (validate_theme_iff (object fs))
IsTheme-iff _ = ground arith

-- Props are valid exactly when they are an object with known fields only, a layout that is valid for
-- the input policy, a valid theme, and optional fields in range; the acknowledgement of lower
-- assurance is given for the headless renderer and only there, and a public key press may be given
-- only there.
pub validate_secure_keypad_props_iff :
    (v : Value) → ((validate_secure_keypad_props v).valid ≡ true) ↔ IsProps v
unfolding validate_secure_keypad_props
validate_secure_keypad_props_iff (object fs) =
    simp (valid_iff, append-eq-nil_iff, report-eq-nil_iff)
      (ground (
        arith,
        has_only_keys_iff fs allowed_prop_names,
        layout_iff (get fs "layout") (policy_of (get fs "inputPolicy")),
        IsTheme-iff (get fs "theme"),
        optional_iff _ _ is_input_policy_iff (get fs "inputPolicy"),
        mode_iff fs,
        bounds_iff fs,
      ))
validate_secure_keypad_props_iff _ = ground arith
