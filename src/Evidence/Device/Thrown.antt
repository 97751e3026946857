-- ===== src/Evidence/Device/Thrown.antt =====
-- When the validation of a device record throws.
use secure_keyboard.Prelude.{◌≡◌, refl, true}
use secure_keyboard.Js.{
  JsString, Value, undefined, string, array, object, Fields, get, Call, throws,
}
use secure_keyboard.Evidence.Checks.{◌>>=◌}
use secure_keyboard.Evidence.Origin.{is_native}
use secure_keyboard.Evidence.Device.{Options, host_logs, iterated_logs, validate_device_evidence}

-- Given, and neither an array nor a string.
abbrev pub IsNoList : Value → Type 0
IsNoList undefined = ⊥
IsNoList (array vs) = ⊥
IsNoList (string t) = ⊥
IsNoList _ = Unit

host_logs-throws : (v : Value) → IsNoList v → host_logs true v ≡ throws
unfolding iterated_logs
host_logs-throws undefined h = elim h [ ]
host_logs-throws (array vs) h = elim h [ ]
host_logs-throws (string t) h = elim h [ ]
host_logs-throws _ h = refl

-- For a native platform, host modes that are given and neither an array nor a string make the
-- validation throw, whatever the options and the other fields are, instead of returning the finding
-- that they must be a list of one to three records.
pub validate_device_evidence-throws :
    (date_text : JsString → Call JsString) (policy : Value) (o : Options) (fs : Fields)
    → is_native (get fs "platform") ≡ true
    → IsNoList (get fs "hostModes")
    → validate_device_evidence date_text policy o (object fs) ≡ throws
unfolding validate_device_evidence ◌>>=◌
validate_device_evidence-throws date_text policy o fs native wrong =
    rw (native, host_logs-throws (get fs "hostModes") wrong) refl
