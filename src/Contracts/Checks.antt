-- ===== src/Contracts/Checks.antt =====
-- The small checks that the validators of the contracts package share.
use secure_keyboard.Prelude.{ℕ, Bool, true, false, ◌&&◌, List, [], ◌∷◌, leb}
use secure_keyboard.Js.{
  JsString, Value, undefined, number, string, is_integer, is_finite, at_least, at_most,
}
use secure_keyboard.Contracts.Patterns.{matches_key_id, utf8_byte_length}

abbrev pub max_rendered_length : ℕ
max_rendered_length = 4096

abbrev pub max_key_label_bytes : ℕ
max_key_label_bytes = 16

abbrev pub max_accessibility_label_bytes : ℕ
max_accessibility_label_bytes = 80

pub record ValidationResult : Type 0 where
  pub valid : Bool
  pub errors : List JsString

abbrev pub is_empty : List JsString → Bool
is_empty [] = true
is_empty (e ∷ es) = false

-- `{ valid: errors.length === 0, errors }`
abbrev pub result : List JsString → ValidationResult
result errors = record { valid = is_empty errors; errors = errors }

-- `if (bad) errors.push(message);` what one test adds to the errors.
unfoldable pub report : Bool → JsString → List JsString
report true message = message ∷ []
report false message = []

unfoldable pub is_bounded_number : ℕ → ℕ → Value → Bool
is_bounded_number minimum maximum (number x) =
    is_finite x && at_least minimum x && at_most maximum x
is_bounded_number minimum maximum _ = false

unfoldable pub is_bounded_integer : ℕ → ℕ → Value → Bool
unfolding is_bounded_number
is_bounded_integer minimum maximum (number x) =
    is_integer x && is_bounded_number minimum maximum (number x)
is_bounded_integer minimum maximum _ = false

-- `value === undefined || test(value)`, the negation of each guard on an optional field.
abbrev pub optional : (Value → Bool) → Value → Bool
optional test undefined = true
optional test v = test v

-- `typeof value === "string" && KEY_ID_PATTERN.test(value)`
unfoldable pub is_key_id : Value → Bool
is_key_id (string t) = matches_key_id t
is_key_id _ = false

-- `typeof value === "string" && utf8ByteLength(value) <= most`
unfoldable pub is_label : ℕ → Value → Bool
is_label most (string t) = leb (utf8_byte_length t) most
is_label most _ = false
