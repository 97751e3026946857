-- ===== src/Web/Tests.antt =====
-- Concrete runs of the web package, and its theorems at concrete inputs.
pub mod Passkey
use secure_keyboard.Prelude.{ℕ, suc, ◌≡◌, ◌≢◌, ◌≤◌, refl, List, [], ◌∷◌, some, none, arith, length}
use secure_keyboard.Js.{JsString, js}
use secure_keyboard.Js.{
  returns, text_eq, property, Value, boolean, string, object, function, end, field,
}
use secure_keyboard.Prelude.{true, false}
use secure_keyboard.Js.{array, cons, nil, null, number, nan}
use secure_keyboard.Web.Extensions.{copy_value, copy_values, copy_fields, copy_record}
use secure_keyboard.Web.Extensions.Complete.{IsExtensions, copy_record_iff}
use secure_keyboard.Web.Controller.Settles.{finish, steps_settle}
use secure_keyboard.Web.Controller.{
  registration, authentication, Action, Operation, pending, run, cancel, settle, continue, success,
  presentation, new_controller, step, steps,
}
use secure_keyboard.Web.Controller.Backed.{
  IsBacked, started_early, IsHidden, steps-IsBacked, started_early-IsHidden,
}
use secure_keyboard.Web.Mode.{
  Environment, detect_web_authn_support, invalid_mode, unsupported, fallback_not_acknowledged,
  assert_web_authn_mode,
}
use secure_keyboard.Web.Mode.Allowed.{IsAllowed, assert_web_authn_mode_iff}
use secure_keyboard.Web.Base64.{
  Bytes, digit_char, encode_groups, encode_base64_url, decode_loop, decode_base64_url,
}
use secure_keyboard.Web.Base64.RoundTrip.{decode-encode_base64_url}
use secure_keyboard.Web.Base64.Canonical.{encode-decode_base64_url}

pub base64 : Unit {0}
unfolding js encode_groups encode_base64_url decode_loop decode_base64_url
base64 = tt

abbrev alphabet_from : ℕ → List ℕ → JsString
alphabet_from d [] = []
alphabet_from d (c ∷ cs) = digit_char d ∷ alphabet_from (suc d) cs

-- The digits spell the alphabet of the source.
alphabet_spelled :
    alphabet_from 0 (js "ABCDEFGHIJKLMNOPQRSTUVWXYZabcdefghijklmnopqrstuvwxyz0123456789-_")
    ≡ js "ABCDEFGHIJKLMNOPQRSTUVWXYZabcdefghijklmnopqrstuvwxyz0123456789-_"
unfolding base64
alphabet_spelled = refl

abbrev five_bytes : Bytes
five_bytes = 0 ∷ 255 ∷ 16 ∷ 128 ∷ 7 ∷ []

-- A canonical text decodes; one with bits left over, a lone digit or a padding does not.
decoded_texts :
    (encode_base64_url five_bytes ≡ some (js "AP8QgAc"))
    × (decode_base64_url (js "AP8QgAc") 5 ≡ some five_bytes)
    × (decode_base64_url (js "AP8QgAd") 5 ≡ none)
    × (decode_base64_url (js "AP8QgAc") 4 ≡ none)
    × (decode_base64_url (js "AP8Qg") 8 ≡ none)
    × (decode_base64_url (js "AP8QgAc=") 8 ≡ none)
unfolding base64
decoded_texts = (refl, refl, refl, refl, refl, refl)

decode-encode_base64_url_example :
    (text : JsString) × (encode_base64_url five_bytes ≡ some text)
    × (decode_base64_url text 5 ≡ some five_bytes)
decode-encode_base64_url_example =
    decode-encode_base64_url five_bytes 5
      (omega arith, (omega arith, (omega arith, (omega arith, (omega arith, tt))))) (omega arith)
      (omega arith)

encode-decode_base64_url_example :
    (encode_base64_url five_bytes ≡ some (js "AP8QgAc")) × (length five_bytes ≤ 5)
unfolding base64
encode-decode_base64_url_example = encode-decode_base64_url (js "AP8QgAc") 5 five_bytes refl

abbrev credentials : Value
credentials =
    object
      (field (js "create") (function (js "create")) (field (js "get") (function (js "get")) end))

abbrev pub browser : Environment
browser = record {
  is_secure_context = returns (boolean true);
  has_public_key_credential = returns (boolean true);
  credentials = returns credentials;
}

abbrev old_browser : Environment
old_browser = record browser { has_public_key_credential = returns (boolean false) }

pub modes : Unit {0}
unfolding js text_eq property detect_web_authn_support assert_web_authn_mode
modes = tt

checked_modes :
    (assert_web_authn_mode (string (js "passkey")) old_browser (boolean true) ≡ some unsupported)
    × (assert_web_authn_mode (string (js "custom-keypad-fallback")) old_browser (boolean true)
        ≡ none)
    × (assert_web_authn_mode (string (js "custom-keypad-fallback")) browser (boolean false)
        ≡ some fallback_not_acknowledged)
    × (assert_web_authn_mode (string (js "pin")) browser (boolean true) ≡ some invalid_mode)
unfolding modes
checked_modes = (refl, refl, refl, refl)

assert_web_authn_mode_iff_example : IsAllowed (string (js "passkey")) browser (boolean false)
unfolding modes
assert_web_authn_mode_iff_example =
    (assert_web_authn_mode_iff (string (js "passkey")) browser (boolean false)).0 refl

-- A record with a list of the value twice.
abbrev extensions_of : Value → Value
extensions_of v = object (field (js "credProps") (array (cons v (cons v nil))) end)

pub extensions : Unit {0}
unfolding js text_eq copy_value copy_values copy_fields copy_record
extensions = tt

abbrev four_levels : Value
four_levels = extensions_of (extensions_of (boolean true))

copied_records :
    (copy_record four_levels ≡ some four_levels)
    × (copy_record (extensions_of four_levels) ≡ none)
    × (copy_record (extensions_of (number nan)) ≡ none)
    × (copy_record (object (field (js "__proto__") null end)) ≡ none)
unfolding extensions
copied_records = (refl, refl, refl, refl)

copy_record_iff_example : IsExtensions four_levels four_levels
unfolding extensions
copy_record_iff_example = (copy_record_iff four_levels four_levels).0 refl

abbrev actions : List Action
actions = run registration ∷ cancel ∷ run authentication ∷ settle none ∷ run authentication ∷ []

steps-IsBacked_example : IsBacked (steps actions new_controller)
steps-IsBacked_example = steps-IsBacked actions

started_early-IsHidden_example :
    IsHidden authentication none
      (record { operation = registration; cancelled = false })
      (started_early authentication none (steps (run registration ∷ []) new_controller))
unfolding steps step
started_early-IsHidden_example =
    started_early-IsHidden (steps (run registration ∷ []) new_controller)
      (record { operation = registration; cancelled = false }) authentication none refl refl

steps_settle_example :
    (let c = steps actions new_controller in
      let d = steps (finish none (suc (length c.waiting))) c in
      (d.active_operation ≡ none)
      × (d.waiting ≡ [])
      × (d.state.phase ≢ pending)
      × ((step (run registration) d).state.phase ≡ pending))
steps_settle_example = steps_settle actions none registration
