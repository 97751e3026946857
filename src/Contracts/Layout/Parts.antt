-- ===== src/Contracts/Layout/Parts.antt =====
-- The checks on single fields decide the parts of the specification.
use secure_keyboard.Prelude.{
  ℕ, ◌≡◌, ◌↔◌, ◌⊎◌, true, false, not, List, [], ◌∷◌, arith, leb_iff, append-eq-nil_iff, All, any,
}
use secure_keyboard.Js.{
  JsString, js, text_eq_iff, Value, undefined, boolean, number, natural, string, object, is_boolean,
  is_text, is_natural, get, members,
}
use secure_keyboard.Contracts.Patterns.Words.{
  IsKeyId, IsLocale, matches_key_id_iff, matches_locale_iff,
}
use secure_keyboard.Contracts.Checks.{
  max_key_label_bytes, max_accessibility_label_bytes, report, is_key_id, is_label,
}
use secure_keyboard.Contracts.Reports.{
  report-eq-nil_iff, OneOf, AsText, includes_iff, has_only_keys_iff, optional_iff,
}
use secure_keyboard.Contracts.Layout.{
  key_fields, key_roles, is_key_role, is_locale, is_direction, slot_fields, slots_errors,
  validate_key,
}
use secure_keyboard.Contracts.Layout.Shape.{IsLabel, IsKey, IsBoolean, IsSlots, IsText}

pub is_key_id_iff : (v : Value) → (is_key_id v ≡ true) ↔ AsText IsKeyId v
unfolding is_key_id
is_key_id_iff (string t) = matches_key_id_iff t
is_key_id_iff _ = ground arith

pub is_label_iff : (most : ℕ) (v : Value) → (is_label most v ≡ true) ↔ IsLabel most v
unfolding is_label
is_label_iff most (string t) = leb_iff _ most
is_label_iff most _ = ground arith

pub is_key_role_iff : (v : Value) → (is_key_role v ≡ true) ↔ AsText (OneOf key_roles) v
is_key_role_iff (string t) = includes_iff key_roles t
is_key_role_iff _ = ground arith

pub is_locale_iff : (v : Value) → (is_locale v ≡ true) ↔ AsText IsLocale v
is_locale_iff (string t) = matches_locale_iff t
is_locale_iff _ = ground arith

pub is_text_iff : (v : Value) (w : JsString) → (is_text v w ≡ true) ↔ IsText w v
is_text_iff (string t) w = ground (arith, text_eq_iff t w)
is_text_iff _ w = ground arith

pub is_direction_iff :
    (v : Value) → (is_direction v ≡ true) ↔ (IsText (js "ltr") v ⊎ IsText (js "rtl") v)
is_direction_iff v = ground (arith, is_text_iff v (js "ltr"), is_text_iff v (js "rtl"))

pub is_boolean_iff : (v : Value) → (is_boolean v ≡ true) ↔ IsBoolean v
is_boolean_iff (boolean b) = ground arith
is_boolean_iff _ = ground arith

pub is_natural_iff : (v : Value) (n : ℕ) → (is_natural v n ≡ true) ↔ (v ≡ number (natural n))
is_natural_iff (number (natural k)) n = ground arith
is_natural_iff (number x) n = ground arith
is_natural_iff _ n = ground arith

any-not-IsBoolean_iff :
    (vs : List Value) → (any (λ slot. not (is_boolean slot)) vs ≡ false) ↔ All IsBoolean vs
any-not-IsBoolean_iff [] = ground arith
any-not-IsBoolean_iff (v ∷ vs) = ground (arith, is_boolean_iff v, any-not-IsBoolean_iff vs)

pub slots_errors_iff : (v : Value) → (slots_errors v ≡ []) ↔ IsSlots v
unfolding slots_errors report
slots_errors_iff undefined = ground arith
slots_errors_iff (object fs) =
    ground (arith, has_only_keys_iff fs slot_fields, any-not-IsBoolean_iff (members fs))
slots_errors_iff _ = ground arith

-- A key adds no error exactly when it is well formed.
pub validate_key_iff : (key : Value) (path : JsString) → (validate_key key path ≡ []) ↔ IsKey key
unfolding validate_key
validate_key_iff (object fs) path =
    simp (append-eq-nil_iff, report-eq-nil_iff)
      (ground (
        arith,
        has_only_keys_iff fs key_fields,
        is_key_id_iff (get fs "id"),
        optional_iff _ _ (is_label_iff max_key_label_bytes) (get fs "label"),
        optional_iff is_key_id _ is_key_id_iff (get fs "icon"),
        is_key_role_iff (get fs "role"),
        optional_iff _ _ (is_label_iff max_accessibility_label_bytes) (get fs "accessibilityLabel"),
        optional_iff is_key_id _ is_key_id_iff (get fs "testId"),
      ))
validate_key_iff _ path = ground arith
