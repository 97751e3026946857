-- ===== src/ReactNative/Events/Safe.antt =====
-- The application only ever sees well-formed events.
use secure_keyboard.Prelude.{
  ◌≡◌, refl, ◌↔◌, ◌⊎◌, inl, inr, Bool, true, false, not, List, [], ◌∷◌, arith, length, All,
  All-append, if◌then◌else◌, ==_iff,
}
use secure_keyboard.Js.{
  JsString, js, text_eq, includes, property, Value, object, Fields, keys, get, has_only_keys,
}
use secure_keyboard.Contracts.Checks.{ValidationResult, result, report}
use secure_keyboard.Contracts.Reports.{OneOf, has_only_keys_iff}
use secure_keyboard.Contracts.Events.{validate_result_event}
use secure_keyboard.Contracts.Events.Valid.{
  IsMaskedState, validate_masked_state_iff, IsResultEvent, validate_result_event_iff,
}
use secure_keyboard.ReactNative.Events.{
  envelope_fields, has_exact_keys, validate_masked_state_event, validate_result_envelope, HostCall,
  masked_state_call, result_call, NativeEvent, masked_state_event, result_event, Callbacks,
  error_envelope, optional_call, emit_generic_error, handle_event, handle_events,
}

-- An object whose one field, `nativeEvent`, satisfies `P`.
abbrev pub IsEnvelope : (Value → Type 0) → Value → Type 0
IsEnvelope P (object fs) =
    (length (keys fs) ≡ 1) × All (OneOf envelope_fields) (keys fs) × P (get fs "nativeEvent")
IsEnvelope P _ = ⊥

envelope_iff :
    (fs : Fields) (r : ValidationResult) (message : JsString) (P : Value → Type 0)
    → ((r.valid ≡ true) ↔ P (get fs "nativeEvent"))
    → ((if has_exact_keys fs envelope_fields then r else result (message ∷ [])).valid ≡ true)
      ↔ ((length (keys fs) ≡ 1) × All (OneOf envelope_fields) (keys fs) × P (get fs "nativeEvent"))
envelope_iff fs r message P e =
    ground (arith, ==_iff (length (keys fs)) 1, has_only_keys_iff fs envelope_fields, e)

-- A masked-state envelope is valid exactly when its one field holds a masked state.
pub validate_masked_state_event_iff :
    (v : Value) → ((validate_masked_state_event v).valid ≡ true) ↔ IsEnvelope IsMaskedState v
unfolding validate_masked_state_event
validate_masked_state_event_iff (object fs) =
    envelope_iff fs _ _ IsMaskedState (validate_masked_state_iff (get fs "nativeEvent"))
validate_masked_state_event_iff _ = ground arith

-- A result envelope is valid exactly when its one field holds a result event.
pub validate_result_envelope_iff :
    (v : Value) → ((validate_result_envelope v).valid ≡ true) ↔ IsEnvelope IsResultEvent v
unfolding validate_result_envelope
validate_result_envelope_iff (object fs) =
    envelope_iff fs _ _ IsResultEvent (validate_result_event_iff (get fs "nativeEvent"))
validate_result_envelope_iff _ = ground arith

-- A call of the application carries a well-formed event.
abbrev pub IsSafeCall : HostCall → Type 0
IsSafeCall (masked_state_call v) = IsEnvelope IsMaskedState v
IsSafeCall (result_call v) = IsEnvelope IsResultEvent v

error_envelope-valid : (validate_result_envelope error_envelope).valid ≡ true
unfolding validate_result_envelope validate_result_event has_only_keys property text_eq js includes
    report
error_envelope-valid = refl

optional_call-safe :
    (given : Bool) (call : HostCall) → IsSafeCall call → All IsSafeCall (optional_call given call)
optional_call-safe true call h = (h, tt)
optional_call-safe false call h = tt

pub error-safe : (c : Callbacks) → All IsSafeCall (emit_generic_error c)
error-safe c =
    optional_call-safe c.has_result (result_call error_envelope)
      ((validate_result_envelope_iff error_envelope).0 error_envelope-valid)

choose_safe :
    (ok : Bool) (bad good : List HostCall)
    → All IsSafeCall bad
    → (ok ≡ true → All IsSafeCall good)
    → All IsSafeCall (if not ok then bad else good)
choose_safe true bad good h k = k refl
choose_safe false bad good h k = h

handle_event-safe : (c : Callbacks) (e : NativeEvent) → All IsSafeCall (handle_event c e)
unfolding handle_event
handle_event-safe c (masked_state_event v) =
    choose_safe (validate_masked_state_event v).valid _ _ (error-safe c) (λ ok.
      optional_call-safe c.has_masked_state (masked_state_call v)
        ((validate_masked_state_event_iff v).0 ok))
handle_event-safe c (result_event v) =
    choose_safe (validate_result_envelope v).valid _ _ (error-safe c) (λ ok.
      optional_call-safe c.has_result (result_call v) ((validate_result_envelope_iff v).0 ok))

-- Whatever the native view emits, in any order, each call of the application carries a well-formed
-- masked state or result event.
pub handle_events_safe :
    (c : Callbacks) (es : List NativeEvent) → All IsSafeCall (handle_events c es)
unfolding handle_events
handle_events_safe c [] = tt
handle_events_safe c (e ∷ es) =
    All-append IsSafeCall (handle_event c e) (handle_events c es) (handle_event-safe c e)
      (handle_events_safe c es)

-- The calls are the event's own, or the generic error.
abbrev pub IsForwarded : NativeEvent → List HostCall → Type 0
IsForwarded (masked_state_event v) calls =
    (IsEnvelope IsMaskedState v × (calls ≡ masked_state_call v ∷ []))
    ⊎ ((¬ IsEnvelope IsMaskedState v) × (calls ≡ result_call error_envelope ∷ []))
IsForwarded (result_event v) calls =
    (IsEnvelope IsResultEvent v × (calls ≡ result_call v ∷ []))
    ⊎ ((¬ IsEnvelope IsResultEvent v) × (calls ≡ result_call error_envelope ∷ []))

choose_forwarded :
    (ok : Bool) (P : Type 0) (bad good : List HostCall)
    → (ok ≡ true) ↔ P
    → (P × ((if not ok then bad else good) ≡ good))
      ⊎ ((¬ P) × ((if not ok then bad else good) ≡ bad))
choose_forwarded true P bad good e = inl (e.0 refl, refl)
choose_forwarded false P bad good e = inr (λ p. cc (e.1 p), refl)

-- With both callbacks given, each event leads to exactly one call: its own callback with the event
-- unchanged where it is well formed, and the generic error result otherwise.
pub handle_event-IsForwarded :
    (e : NativeEvent)
    → IsForwarded e (handle_event (record { has_masked_state = true; has_result = true }) e)
unfolding handle_event
handle_event-IsForwarded (masked_state_event v) =
    choose_forwarded _ _ _ _ (validate_masked_state_event_iff v)
handle_event-IsForwarded (result_event v) =
    choose_forwarded _ _ _ _ (validate_result_envelope_iff v)
