-- ===== src/Contracts/Events.antt =====
-- `validateMaskedState` and `validateResultEvent`.
pub mod Valid
use secure_keyboard.Prelude.{Bool, false, not, ◌||◌, List, [], ◌∷◌, ◌++◌}
use secure_keyboard.Js.{JsString, js, includes, Value, string, object, get, has_only_keys, is_text}
use secure_keyboard.Contracts.Checks.{
  max_rendered_length, ValidationResult, result, report, is_bounded_integer,
}

abbrev pub display_states : List JsString
display_states = js "empty" ∷ js "masked" ∷ js "submitted" ∷ js "cancelled" ∷ []

abbrev pub masked_state_fields : List JsString
masked_state_fields = js "length" ∷ js "displayState" ∷ []

abbrev pub is_display_state : Value → Bool
is_display_state (string t) = includes display_states t
is_display_state _ = false

unfoldable pub validate_masked_state : Value → ValidationResult
validate_masked_state (object fs) = result (
    report (not (has_only_keys fs masked_state_fields))
      (js "masked state contains an unsupported field")
    ++ report (not (is_bounded_integer 0 max_rendered_length (get fs "length")))
        (js "masked state.length is invalid")
    ++ report (not (is_display_state (get fs "displayState")))
        (js "masked state.displayState is invalid"))
validate_masked_state _ = result (js "masked state must be an object" ∷ [])

abbrev pub result_event_fields : List JsString
result_event_fields = js "type" ∷ js "code" ∷ []

abbrev pub is_result_code : Value → Bool
is_result_code v =
    is_text v (js "success")
    || is_text v (js "cancelled")
    || is_text v (js "invalid")
    || is_text v (js "locked")
    || is_text v (js "error")

unfoldable pub validate_result_event : Value → ValidationResult
validate_result_event (object fs) = result (
    report (not (has_only_keys fs result_event_fields))
      (js "result event contains an unsupported field")
    ++ report (not (is_text (get fs "type") (js "result"))) (js "result event.type is invalid")
    ++ report (not (is_result_code (get fs "code"))) (js "result event.code is invalid"))
validate_result_event _ = result (js "result event must be an object" ∷ [])
