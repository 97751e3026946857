-- ===== src/ReactNative/View/Render.antt =====
-- The wrapped view fails closed.
use secure_keyboard.Prelude.{
  ◌≡◌, ◌≢◌, refl, ◌⊎◌, inl, inr, Bool, true, false, List, [], Option, none, some, All, All-append,
  if◌then◌else◌,
}
use secure_keyboard.Js.{object, Fields}
use secure_keyboard.ReactNative.Props.{
  native_fields, validate_secure_keypad_props, get_secure_keypad_native_props,
}
use secure_keyboard.ReactNative.Props.Valid.{IsPropsFields, validate_secure_keypad_props_iff}
use secure_keyboard.ReactNative.Props.Native.{
  IsNativeOf, get_secure_keypad_native_props-IsNativeProps,
}
use secure_keyboard.ReactNative.Events.{NativeEvent, Callbacks, emit_generic_error}
use secure_keyboard.ReactNative.Events.Safe.{IsSafeCall, error-safe, handle_events_safe}
use secure_keyboard.ReactNative.View.{
  Element, Rendered, callbacks_of, render_with, render, element_calls, session,
}

-- Invalid props render nothing and report one generic error; valid props render the native view
-- with the public props only.
abbrev pub IsRender : Fields → Rendered → Type 0
IsRender fs x =
    ((¬ IsPropsFields fs) × (x.element ≡ none) × (x.calls ≡ emit_generic_error (callbacks_of fs)))
    ⊎ ((native_props : Fields) × IsNativeOf fs native_props
        × (x.element ≡ some (record { native_props = native_props; callbacks = callbacks_of fs }))
        × (x.calls ≡ []))

given_when_valid : (b : Bool) (x : Fields) → b ≡ true → (if b then some x else none) ≢ none
given_when_valid true x p h = cc
given_when_valid false x p h = cc

refused_props :
    (fs : Fields) → get_secure_keypad_native_props (object fs) ≡ none → ¬ IsPropsFields fs
unfolding get_secure_keypad_native_props
refused_props fs h p =
    given_when_valid (validate_secure_keypad_props (object fs)).valid (native_fields fs)
      ((validate_secure_keypad_props_iff (object fs)).1 p) h

render_with-IsRender :
    (fs : Fields) (o : Option Fields)
    → get_secure_keypad_native_props (object fs) ≡ o
    → IsRender fs (render_with (callbacks_of fs) o)
render_with-IsRender fs none h = inl (refused_props fs h, refl, refl)
render_with-IsRender fs (some out) h =
    inr (out, get_secure_keypad_native_props-IsNativeProps (object fs) out h, refl, refl)

-- A render either finds valid props and creates the native view with the public props and no call,
-- or finds invalid props, creates nothing and reports the generic error where a callback is given.
pub render-IsRender : (fs : Fields) → IsRender fs (render fs)
unfolding render
render-IsRender fs = render_with-IsRender fs (get_secure_keypad_native_props (object fs)) refl

element_calls-safe :
    (o : Option Element) (es : List NativeEvent) → All IsSafeCall (element_calls o es)
element_calls-safe none es = tt
element_calls-safe (some e) es = handle_events_safe e.callbacks es

render_with-safe : (c : Callbacks) (o : Option Fields) → All IsSafeCall (render_with c o).calls
render_with-safe c none = error-safe c
render_with-safe c (some out) = tt

-- Whatever the props, and whatever the native view emits after the render, the application is only
-- called with well-formed masked states and result events.
pub session_safe : (fs : Fields) (es : List NativeEvent) → All IsSafeCall (session fs es)
unfolding session render
session_safe fs es =
    All-append IsSafeCall (render fs).calls (element_calls (render fs).element es)
      (render_with-safe (callbacks_of fs) (get_secure_keypad_native_props (object fs)))
      (element_calls-safe (render fs).element es)
