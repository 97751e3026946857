-- ===== src/Evidence/Origin.antt =====
-- What a device record says of its commit, its gate and its platform.
use secure_keyboard.Prelude.{
  Bool, true, false, not, ◌||◌, List, [], ◌∷◌, Option, none, some, if◌then◌else◌,
}
use secure_keyboard.Js.{JsString, js, text_eq, includes, Value, undefined, string, is_text}
use secure_keyboard.Js.Coerce.{text_of}
use secure_keyboard.Evidence.Checks.{add_if, is_hex_text}
use secure_keyboard.Evidence.HostModes.{native_frameworks}

-- DEVICE_RELEASE_GATES
unfoldable pub gate_platform : JsString → Option JsString
gate_platform gate =
    if text_eq gate (js "ios-device-matrix")
    then some (js "ios")
    else if text_eq gate (js "android-device-matrix")
    then some (js "android")
    else if text_eq gate (js "web-browser-matrix")
    then some (js "web")
    else none

-- A value that is given and is not the text.
abbrev pub differs : Value → JsString → Bool
differs undefined t = false
differs v t = not (is_text v t)

abbrev pub commit_findings : Value → Value → List JsString
commit_findings (string commit) expected =
    if not (is_hex_text 40 commit)
    then add_if true (js "commit") (js "must be a 40-character lowercase commit SHA")
    else add_if (differs expected commit) (js "commit")
        (js "must match the expected checkout commit")
commit_findings _ expected =
    add_if true (js "commit") (js "must be a 40-character lowercase commit SHA")

abbrev pub expected_commit_findings : Value → List JsString
expected_commit_findings undefined = []
expected_commit_findings v =
    add_if (not (is_hex_text 40 (text_of v))) (js "expectedCommit")
      (js "must be a 40-character lowercase commit SHA")

abbrev pub known_gate_findings : Option JsString → JsString → Value → List JsString
known_gate_findings none gate expected =
    add_if true (js "gate") (js "must be a supported device release gate")
known_gate_findings (some platform) gate expected =
    add_if (differs expected gate) (js "gate") (js "must match the expected release gate")

abbrev pub gate_findings : Value → Value → List JsString
gate_findings (string gate) expected = known_gate_findings (gate_platform gate) gate expected
gate_findings _ expected = add_if true (js "gate") (js "must be a supported device release gate")

-- ALLOWED_FRAMEWORKS, for the platforms that it has.
abbrev pub platforms : List JsString
platforms = js "ios" ∷ js "android" ∷ js "web" ∷ []

unfoldable pub allowed_frameworks : JsString → List JsString
allowed_frameworks platform =
    if text_eq platform (js "web") then js "web" ∷ [] else native_frameworks

-- `set.has(value)`
abbrev pub has_text : List JsString → Value → Bool
has_text ws (string t) = includes ws t
has_text ws _ = false

abbrev pub is_platform : Option JsString → Value → Bool
is_platform none platform = false
is_platform (some p) platform = is_text platform p

-- The gate is a string of another platform, or of none.
abbrev pub is_foreign_gate : Value → Value → Bool
is_foreign_gate (string gate) platform = not (is_platform (gate_platform gate) platform)
is_foreign_gate _ platform = false

-- The platform is looked up by its coerced text.
abbrev pub platform_findings : Value → Value → Value → List JsString
platform_findings platform framework gate =
    if not (includes platforms (text_of platform))
    then add_if true (js "platform") (js "must be ios, android, or web")
    else if not (has_text (allowed_frameworks (text_of platform)) framework)
    then add_if true (js "framework") (js "is not supported for the selected platform")
    else add_if (is_foreign_gate gate platform) (js "gate") (js "must match the evidence platform")

unfoldable pub is_native : Value → Bool
is_native platform = is_text platform (js "ios") || is_text platform (js "android")
