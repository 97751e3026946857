-- ===== src/ReactNative/Props/Native.antt =====
-- What crosses into the native view.
use secure_keyboard.Prelude.{
  ◌≡◌, refl, sym, ap, ◌∙◌, Bool, true, false, List, [], ◌∷◌, none, some, arith, All, if◌then◌else◌,
}
use secure_keyboard.Js.{
  copied, JsString, js, text_eq, text_eq_iff, includes, Value, undefined, object, Fields, keys,
  property,
}
use secure_keyboard.Contracts.Reports.{OneOf, includes_iff, all_iff}
use secure_keyboard.ReactNative.Props.{
  copied_all, optional_native_names, native_fields, validate_secure_keypad_props,
  get_secure_keypad_native_props,
}
use secure_keyboard.ReactNative.Props.Valid.{IsPropsFields, validate_secure_keypad_props_iff}

-- The names that the native view may see: no callback is one of them.
abbrev pub native_names : List JsString
native_names =
    js "layout"
    ∷ js "theme"
    ∷ js "style"
    ∷ js "inputPolicy"
    ∷ js "mode"
    ∷ js "securityMode"
    ∷ js "acknowledgeLowerAssurance"
    ∷ js "maxTokens"
    ∷ js "timeoutMs"
    ∷ js "cancelRequest"
    ∷ js "headlessKeyPress"
    ∷ []

-- The native object has public names only, and each has the value that the host gave.
pub record IsNativeOf (fs out : Fields) : Type 0 where
  pub valid : IsPropsFields fs
  pub names : All (OneOf native_names) (keys out)
  pub values : All (λ name. property out name ≡ property fs name) native_names

abbrev pub IsNativeProps : Value → Fields → Type 0
IsNativeProps (object fs) out = IsNativeOf fs out
IsNativeProps _ out = ⊥

property-copied :
    (name key : JsString) (v : Value) (rest : Fields)
    → (name ≡ key → v ≡ undefined → property rest key ≡ undefined)
    → property (copied name v rest) key ≡ (if text_eq name key then v else property rest key)
unfolding property
property-copied name key undefined rest h = ground (arith, text_eq_iff name key, h)
property-copied name key v rest h = refl

property-copied_all :
    (names : List JsString) (fs : Fields) (key : JsString)
    → property (copied_all names fs) key
      ≡ (if includes names key then property fs key else undefined)
unfolding copied_all includes property
property-copied_all [] fs key = refl
property-copied_all (name ∷ names) fs key =
    property-copied name key (property fs name) (copied_all names fs) (λ same gone. ground (
      arith,
      property-copied_all names fs key,
      sym (ap (λ (k : JsString). property fs k) same) ∙ gone,
    ))
    ∙ ground (
      arith,
      text_eq_iff name key,
      property-copied_all names fs key,
      λ (same : name ≡ key). ap (λ (k : JsString). property fs k) same,
    )

keys-copied :
    (P : JsString → Type 0) (name : JsString) (v : Value) (rest : Fields)
    → P name
    → All P (keys rest)
    → All P (keys (copied name v rest))
keys-copied P name undefined rest p h = h
keys-copied P name v rest p h = (p, h)

keys-copied_all :
    (P : JsString → Type 0) (names : List JsString) (fs : Fields)
    → All P names
    → All P (keys (copied_all names fs))
unfolding copied_all
keys-copied_all P [] fs h = tt
keys-copied_all P (name ∷ names) fs (p, h) =
    keys-copied P name (property fs name) (copied_all names fs) p (keys-copied_all P names fs h)

listed : All (OneOf native_names) native_names
unfolding includes text_eq js
listed =
    (all_iff (λ k. includes native_names k) (OneOf native_names) (includes_iff native_names)
        native_names).0
      refl

property-native_fields :
    (fs : Fields) (key : JsString)
    → includes native_names key ≡ true
    → property (native_fields fs) key ≡ property fs key
unfolding property includes
property-native_fields fs key h = ground (
  arith,
  text_eq_iff (js "layout") key,
  text_eq_iff (js "theme") key,
  property-copied_all optional_native_names fs key,
  λ (same : js "layout" ≡ key). ap (λ (k : JsString). property fs k) same,
  λ (same : js "theme" ≡ key). ap (λ (k : JsString). property fs k) same,
)

listed_values :
    (fs : Fields) (names : List JsString)
    → All (λ n. includes native_names n ≡ true) names
    → All (λ n. property (native_fields fs) n ≡ property fs n) names
listed_values fs [] h = tt
listed_values fs (n ∷ names) (p, h) = (property-native_fields fs n p, listed_values fs names h)

includes_listed : All (λ n. includes native_names n ≡ true) native_names
unfolding includes text_eq js
includes_listed =
    (all_iff (λ k. includes native_names k) (λ n. includes native_names n ≡ true)
        (λ n. (λ h. h, λ h. h)) native_names).0
      refl

native_fields-IsNativeOf : (fs : Fields) → IsPropsFields fs → IsNativeOf fs (native_fields fs)
native_fields-IsNativeOf fs valid =
    let (layout, (theme, optional)) = listed in
    record {
      valid = valid;
      names =
          (layout, (theme, keys-copied_all (OneOf native_names) optional_native_names fs optional));
      values = listed_values fs native_names includes_listed;
    }

guarded_inv :
    (b : Bool) (x out : Fields) → (if b then some x else none) ≡ some out → (b ≡ true) × (x ≡ out)
guarded_inv true x out h = (refl, cc)
guarded_inv false x out h = cc

-- What crosses into the native view comes from valid props, has public names only, never a
-- callback, and keeps the value of each.
pub get_secure_keypad_native_props-IsNativeProps :
    (props : Value) (out : Fields)
    → get_secure_keypad_native_props props ≡ some out
    → IsNativeProps props out
unfolding get_secure_keypad_native_props
get_secure_keypad_native_props-IsNativeProps (object fs) out h =
    let (valid, same) =
      guarded_inv (validate_secure_keypad_props (object fs)).valid (native_fields fs) out h in
    rw (← same)
      (native_fields-IsNativeOf fs ((validate_secure_keypad_props_iff (object fs)).0 valid))
get_secure_keypad_native_props-IsNativeProps _ out h = cc
