-- ===== src/Contracts/Events/Valid.antt =====
-- The two event validators accept exactly the events of their types.
use secure_keyboard.Prelude.{ℕ, ◌≤◌, ◌≡◌, ◌↔◌, ◌⊎◌, true, arith, All, append-eq-nil_iff}
use secure_keyboard.Js.{js, Value, number, natural, string, object, keys, get}
use secure_keyboard.Contracts.Checks.{max_rendered_length, is_bounded_integer}
use secure_keyboard.Contracts.Reports.{
  OneOf, AsText, valid_iff, report-eq-nil_iff, has_only_keys_iff, includes_iff,
}
use secure_keyboard.Contracts.Layout.Shape.{IsText}
use secure_keyboard.Contracts.Layout.Parts.{is_text_iff}
use secure_keyboard.Contracts.Events.{
  display_states, masked_state_fields, is_display_state, validate_masked_state, result_event_fields,
  is_result_code, validate_result_event,
}

-- A whole number between two natural bounds.
abbrev pub IsInteger : ℕ → ℕ → Value → Type 0
IsInteger lo hi (number (natural n)) = (lo ≤ n) × (n ≤ hi)
IsInteger lo hi _ = ⊥

pub is_bounded_integer_iff :
    (lo hi : ℕ) (v : Value) → (is_bounded_integer lo hi v ≡ true) ↔ IsInteger lo hi v
unfolding is_bounded_integer
is_bounded_integer_iff lo hi (number (natural n)) = ground arith
is_bounded_integer_iff lo hi (number _) = ground arith
is_bounded_integer_iff lo hi _ = ground arith

is_display_state_iff : (v : Value) → (is_display_state v ≡ true) ↔ AsText (OneOf display_states) v
is_display_state_iff (string t) = includes_iff display_states t
is_display_state_iff _ = ground arith

abbrev pub IsMaskedState : Value → Type 0
IsMaskedState (object fs) =
    All (OneOf masked_state_fields) (keys fs)
    × IsInteger 0 max_rendered_length (get fs "length")
    × AsText (OneOf display_states) (get fs "displayState")
IsMaskedState _ = ⊥

-- A masked state is valid exactly when it has no field but a whole length of at most 4096 and one
-- of the four display states.
pub validate_masked_state_iff :
    (v : Value) → ((validate_masked_state v).valid ≡ true) ↔ IsMaskedState v
unfolding validate_masked_state
validate_masked_state_iff (object fs) =
    simp (valid_iff, append-eq-nil_iff, report-eq-nil_iff)
      (ground (
        arith,
        has_only_keys_iff fs masked_state_fields,
        is_bounded_integer_iff 0 max_rendered_length (get fs "length"),
        is_display_state_iff (get fs "displayState"),
      ))
validate_masked_state_iff _ = ground arith

abbrev pub IsResultCode : Value → Type 0
IsResultCode v =
    IsText (js "success") v
    ⊎ IsText (js "cancelled") v
    ⊎ IsText (js "invalid") v
    ⊎ IsText (js "locked") v
    ⊎ IsText (js "error") v

is_result_code_iff : (v : Value) → (is_result_code v ≡ true) ↔ IsResultCode v
is_result_code_iff v = ground (
  arith,
  is_text_iff v (js "success"),
  is_text_iff v (js "cancelled"),
  is_text_iff v (js "invalid"),
  is_text_iff v (js "locked"),
  is_text_iff v (js "error"),
)

abbrev pub IsResultEvent : Value → Type 0
IsResultEvent (object fs) =
    All (OneOf result_event_fields) (keys fs)
    × IsText (js "result") (get fs "type")
    × IsResultCode (get fs "code")
IsResultEvent _ = ⊥

-- A result event is valid exactly when it has no field but the type "result" and one of the five
-- result codes.
pub validate_result_event_iff :
    (v : Value) → ((validate_result_event v).valid ≡ true) ↔ IsResultEvent v
unfolding validate_result_event
validate_result_event_iff (object fs) =
    simp (valid_iff, append-eq-nil_iff, report-eq-nil_iff)
      (ground (
        arith,
        has_only_keys_iff fs result_event_fields,
        is_text_iff (get fs "type") (js "result"),
        is_result_code_iff (get fs "code"),
      ))
validate_result_event_iff _ = ground arith
