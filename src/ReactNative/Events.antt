-- ===== src/ReactNative/Events.antt =====
-- The event envelopes and `createSecureKeypadEventHandlers`.
pub mod Safe
use secure_keyboard.Prelude.{
  Bool, true, false, ◌&&◌, ◌==◌, not, List, [], ◌∷◌, ◌++◌, length, if◌then◌else◌,
}
use secure_keyboard.Js.{
  JsString, js, Value, string, object, Fields, end, field, keys, get, has_only_keys,
}
use secure_keyboard.Contracts.Checks.{ValidationResult, result}
use secure_keyboard.Contracts.Events.{validate_masked_state, validate_result_event}

abbrev pub envelope_fields : List JsString
envelope_fields = js "nativeEvent" ∷ []

-- `hasExactKeys`
abbrev pub has_exact_keys : Fields → List JsString → Bool
has_exact_keys fs expected = length (keys fs) == length expected && has_only_keys fs expected

unfoldable pub validate_masked_state_event : Value → ValidationResult
validate_masked_state_event (object fs) =
    if has_exact_keys fs envelope_fields
    then validate_masked_state (get fs "nativeEvent")
    else result (js "masked state event contains an unsupported field" ∷ [])
validate_masked_state_event _ = result (js "masked state event must be an object" ∷ [])

-- `validateResultEvent` of this package.
unfoldable pub validate_result_envelope : Value → ValidationResult
validate_result_envelope (object fs) =
    if has_exact_keys fs envelope_fields
    then validate_result_event (get fs "nativeEvent")
    else result (js "result event contains an unsupported field" ∷ [])
validate_result_envelope _ = result (js "result event must be an object" ∷ [])

-- A call of one of the two callbacks of the application.
pub data HostCall : Type 0 where
  masked_state_call : Value → HostCall
  result_call : Value → HostCall

-- What the native view emits.
pub data NativeEvent : Type 0 where
  masked_state_event : Value → NativeEvent
  result_event : Value → NativeEvent

-- Which callbacks the application gave.
pub record Callbacks : Type 0 where
  pub has_masked_state : Bool
  pub has_result : Bool

-- `{ nativeEvent: { type: "result", code: "error" } }`
abbrev pub error_envelope : Value
error_envelope = object (
    field (js "nativeEvent")
      (object
        (field (js "type") (string (js "result")) (field (js "code") (string (js "error")) end)))
      end)

-- `callback?.(event)`
abbrev pub optional_call : Bool → HostCall → List HostCall
optional_call given call = if given then call ∷ [] else []

abbrev pub emit_generic_error : Callbacks → List HostCall
emit_generic_error c = optional_call c.has_result (result_call error_envelope)

-- The two handlers: the calls that an event from the native view leads to.
unfoldable pub handle_event : Callbacks → NativeEvent → List HostCall
handle_event c (masked_state_event v) =
    if not (validate_masked_state_event v).valid
    then emit_generic_error c
    else optional_call c.has_masked_state (masked_state_call v)
handle_event c (result_event v) =
    if not (validate_result_envelope v).valid
    then emit_generic_error c
    else optional_call c.has_result (result_call v)

-- The calls that a sequence of events leads to.
unfoldable pub handle_events : Callbacks → List NativeEvent → List HostCall
unfolding handle_event
handle_events c [] = []
handle_events c (e ∷ es) = handle_event c e ++ handle_events c es
