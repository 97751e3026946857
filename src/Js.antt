-- ===== src/Js.antt =====
-- The JavaScript values that cross the packages' boundaries.
--
-- A value is undefined, null, a Boolean, a number, a string, a dense array, a plain object with
-- own data properties of distinct names, or a function with its source text. Symbols, bigints,
-- accessors, proxies and inherited properties are left out.
mod Text
pub mod Coerce
pub use Text.{JsString, decimal, is_digit, is_lower, is_upper}
pub use Text.{text_eq_iff, text_eq_refl}
unfoldable pub use Text.{js, text_eq, includes}
use secure_keyboard.Prelude.{
  ℕ, zero, suc, ◌-◌, ◌^◌, ◌≡◌, refl, Bool, true, false, not, ◌&&◌, ◌||◌, List, [], ◌∷◌, ◌++◌, leb,
  ltb, ◌==◌, if◌then◌else◌, all, String,
}

-- A call of host or platform code, or the read of an accessor: it returns or it throws.
pub data Call {ℓ} (A : Type ℓ) : Type ℓ where
  returns : A → Call A
  throws : Call A

-- Number.MAX_SAFE_INTEGER
abbrev pub max_safe_integer : ℕ
max_safe_integer = 2 ^ 53 - 1

-- A double by what the code can tell of it: `negative n` is -(n + 1); `fraction s n t` is no
-- integer, lies between n and n + 1 in magnitude, is below 0 if `s`, and prints as `t`.
pub data JsNumber : Type 0 where
  natural : ℕ → JsNumber
  negative : ℕ → JsNumber
  fraction : Bool → ℕ → JsString → JsNumber
  infinity : Bool → JsNumber
  nan : JsNumber

mutual
  pub data Value : Type 0 where
    undefined : Value
    null : Value
    boolean : Bool → Value
    number : JsNumber → Value
    string : JsString → Value
    array : Values → Value
    object : Fields → Value
    function : JsString → Value

  pub data Values : Type 0 where
    nil : Values
    cons : Value → Values → Values

  pub data Fields : Type 0 where
    end : Fields
    field : JsString → Value → Fields → Fields

-- The elements of an array.
abbrev pub items : Values → List Value
items nil = []
items (cons v vs) = v ∷ items vs

abbrev pub values_of : List Value → Values
values_of [] = nil
values_of (v ∷ vs) = cons v (values_of vs)

-- `Object.keys` and `Object.values`.
abbrev pub keys : Fields → List JsString
keys end = []
keys (field k v fs) = k ∷ keys fs

abbrev pub members : Fields → List Value
members end = []
members (field k v fs) = v ∷ members fs

-- `object[key]`: undefined where there is no such property.
unfoldable pub property : Fields → JsString → Value
property end key = undefined
property (field k v fs) key = if text_eq k key then v else property fs key

-- `value.name` on an object.
abbrev pub get : Fields → String → Value
get fs name = property fs (js name)

-- `...(value.name === undefined ? {} : { name: value.name })`
abbrev pub copied : JsString → Value → Fields → Fields
copied name undefined rest = rest
copied name v rest = field name v rest

-- `Object.keys(value).every((key) => allowed.includes(key))`.
unfoldable pub has_only_keys : Fields → List JsString → Bool
has_only_keys fs allowed = all (λ k. includes allowed k) (keys fs)

abbrev pub is_undefined : Value → Bool
is_undefined undefined = true
is_undefined _ = false

abbrev pub is_boolean : Value → Bool
is_boolean (boolean b) = true
is_boolean _ = false

abbrev pub is_function : Value → Bool
is_function (function t) = true
is_function _ = false

abbrev pub is_string : Value → Bool
is_string (string t) = true
is_string _ = false

-- `isRecord`, which each package declares anew.
abbrev pub is_record : Value → Bool
is_record (object fs) = true
is_record _ = false

-- `if (value)`
abbrev pub truthy : Value → Bool
truthy undefined = false
truthy null = false
truthy (boolean b) = b
truthy (number (natural zero)) = false
truthy (number nan) = false
truthy (string []) = false
truthy _ = true

-- `value === "text"`.
abbrev pub is_text : Value → JsString → Bool
is_text (string t) w = text_eq t w
is_text _ w = false

-- `value === true`.
abbrev pub is_true : Value → Bool
is_true (boolean b) = b
is_true _ = false

-- `value === n` for a natural number n.
abbrev pub is_natural : Value → ℕ → Bool
is_natural (number (natural k)) n = k == n
is_natural _ n = false

-- `Number.isInteger`.
abbrev pub is_integer : JsNumber → Bool
is_integer (natural n) = true
is_integer (negative n) = true
is_integer _ = false

abbrev pub is_finite : JsNumber → Bool
is_finite (infinity s) = false
is_finite nan = false
is_finite _ = true

-- `x >= lo` and `x <= hi` for natural bounds.
abbrev pub at_least : ℕ → JsNumber → Bool
at_least lo (natural n) = leb lo n
at_least lo (negative n) = false
at_least lo (fraction s n t) = not s && leb lo n
at_least lo (infinity s) = not s
at_least lo nan = false

abbrev pub at_most : ℕ → JsNumber → Bool
at_most hi (natural n) = leb n hi
at_most hi (negative n) = true
at_most hi (fraction s n t) = s || ltb n hi
at_most hi (infinity s) = s
at_most hi nan = false
