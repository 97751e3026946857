-- ===== src/ReactNative/View.antt =====
-- `getSecureKeypadView`: the wrapper that renders the native view, and its cached component.
pub mod Render
use secure_keyboard.Prelude.{Bool, true, false, List, [], ◌∷◌, ◌++◌, Option, none, some}
use secure_keyboard.Js.{Value, object, Fields, get, is_function}
use secure_keyboard.Js.{Call, returns, throws}
use secure_keyboard.ReactNative.Props.{get_secure_keypad_native_props}
use secure_keyboard.ReactNative.Events.{
  HostCall, NativeEvent, Callbacks, emit_generic_error, handle_events,
}

-- What a render creates: the native element with its props and handlers, or nothing.
pub record Element : Type 0 where
  pub native_props : Fields
  pub callbacks : Callbacks

pub record Rendered : Type 0 where
  pub element : Option Element
  pub calls : List HostCall

abbrev pub callbacks_of : Fields → Callbacks
callbacks_of fs = record {
  has_masked_state = is_function (get fs "onMaskedStateChange");
  has_result = is_function (get fs "onResult");
}

abbrev pub render_with : Callbacks → Option Fields → Rendered
render_with c none = record { element = none; calls = emit_generic_error c }
render_with c (some native_props) = record {
  element = some (record { native_props = native_props; callbacks = c });
  calls = [];
}

-- The function given to `forwardRef`, on the props that React passes.
unfoldable pub render : Fields → Rendered
render fs = render_with (callbacks_of fs) (get_secure_keypad_native_props (object fs))

abbrev pub element_calls : Option Element → List NativeEvent → List HostCall
element_calls none es = []
element_calls (some e) es = handle_events e.callbacks es

-- All calls of the application: those of the render, then those of the element's events.
unfoldable pub session : Fields → List NativeEvent → List HostCall
unfolding render
session fs es = (render fs).calls ++ element_calls (render fs).element es

-- The module's variable `secureKeypadComponent`, and one call: it resolves the component only where
-- none is kept, and keeps what it resolved. The component is whatever React makes.
unfoldable pub get_secure_keypad_view {ℓ} :
    {Component : Type ℓ} → Call Component → Option Component → Call Component × Option Component
get_secure_keypad_view resolve (some component) = (returns component, some component)
get_secure_keypad_view (returns component) none = (returns component, some component)
get_secure_keypad_view throws none = (throws, none)
