-- ===== src/Evidence/TestCases.antt =====
-- `validateTests` and `validateTestEvidence`.
pub mod Passed
use secure_keyboard.Prelude.{
  ℕ, zero, suc, ◌+◌, ◌==◌, Bool, true, false, not, ◌&&◌, ◌||◌, List, [], ◌∷◌, ◌++◌, Option, none,
  some, ltb, length, any, if◌then◌else◌,
}
use secure_keyboard.Js.{
  JsString, js, decimal, text_eq, includes, Value, array, object, string, Fields, items, keys,
  property, is_text,
}
use secure_keyboard.Contracts.Checks.{report}
use secure_keyboard.Evidence.Checks.{add_if, safe_relative_path}

abbrev pub native_tests : List JsString
native_tests =
    js "maskedStateOnly"
    ∷ js "captureAndBackground"
    ∷ js "screenshotsAndBackgroundSnapshots"
    ∷ js "autofillAndClipboard"
    ∷ js "accessibility"
    ∷ js "crashReportReview"
    ∷ js "lifecycleAndZeroization"
    ∷ js "serverReplayRateLimit"
    ∷ js "protocolDowngrade"
    ∷ []

abbrev pub web_tests : List JsString
web_tests =
    js "passkeySecureContext" ∷ js "originAndRpId" ∷ js "boundedOptions" ∷ js "fallbackWarning" ∷ []

-- A map from texts to texts, the latest entry first.
abbrev pub Entries : Type 0
Entries = List (JsString × JsString)

-- `map.get(key)`
unfoldable pub lookup : JsString → Entries → Option JsString
lookup key [] = none
lookup key ((k, v) ∷ m) = if text_eq k key then some v else lookup key m

abbrev pub test_findings : Fields → List JsString → List JsString
test_findings fs [] = []
test_findings fs (name ∷ names) =
    add_if (not (is_text (property fs name) (js "pass"))) (js "testCases." ++ name)
      (js "must be exactly 'pass'")
    ++ test_findings fs names

unfoldable pub validate_tests : Value → List JsString → List JsString
validate_tests (object fs) required = test_findings fs required
validate_tests _ required = add_if true (js "testCases") (js "must be an object")

-- REQUIRED_TEST_EVIDENCE_ARTIFACT_KINDS
unfoldable pub required_kinds : JsString → List JsString
required_kinds name =
    if text_eq name (js "captureAndBackground")
      || text_eq name (js "screenshotsAndBackgroundSnapshots")
    then js "screen-capture" ∷ js "background-snapshot" ∷ []
    else if text_eq name (js "autofillAndClipboard")
    then js "autofill-clipboard-report" ∷ []
    else if text_eq name (js "accessibility")
    then js "accessibility-report" ∷ []
    else if text_eq name (js "crashReportReview")
    then js "crash-report-review" ∷ []
    else []

abbrev pub indexed : JsString → ℕ → JsString
indexed path index = path ++ js "[" ++ decimal index ++ js "]"

-- One path of a test case: the findings, and the paths seen so far.
abbrev pub path_finding :
    JsString → ℕ → List JsString → List JsString → Option JsString → List JsString × List JsString
path_finding field index seen available none =
    (add_if true (indexed field index) (js "must be a safe relative path"), seen)
path_finding field index seen available (some path) =
    if includes seen path
    then (
      add_if true (indexed field index) (js "must not repeat a path within one test case"),
      seen,
    )
    else (
      add_if (not (includes available path)) (indexed field index)
          (js "must reference the aggregate log, a host log, or a declared artifact"),
      path ∷ seen,
    )

unfoldable pub path_findings :
    JsString → ℕ → List JsString → List JsString → List Value → List JsString
path_findings field index seen available [] = []
path_findings field index seen available (v ∷ vs) =
    let (found, seen') = path_finding field index seen available (safe_relative_path v) in
    found ++ path_findings field (index + 1) seen' available vs

abbrev pub is_same_kind : JsString → Option JsString → Bool
is_same_kind kind none = false
is_same_kind kind (some k) = text_eq k kind

-- `artifactKindsByPath.get(path) === kind`, which no value but a string can pass.
abbrev pub has_kind : Entries → JsString → Value → Bool
has_kind kinds kind (string path) = is_same_kind kind (lookup path kinds)
has_kind kinds kind _ = false

abbrev pub kind_findings : JsString → Entries → List Value → List JsString → List JsString
kind_findings field kinds paths [] = []
kind_findings field kinds paths (kind ∷ rest) =
    add_if (not (any (has_kind kinds kind) paths)) field
      (js "must reference artifact kind " ++ kind)
    ++ kind_findings field kinds paths rest

abbrev pub is_path_count : ℕ → Bool
is_path_count n = not (n == 0 || ltb 8 n)

abbrev pub entry_findings : List JsString → Entries → JsString → Value → List JsString
entry_findings available kinds name (array vs) =
    if is_path_count (length (items vs))
    then path_findings (js "testEvidence." ++ name) 0 [] available (items vs)
      ++ kind_findings (js "testEvidence." ++ name) kinds (items vs) (required_kinds name)
    else add_if true (js "testEvidence." ++ name)
        (js "must contain one to eight declared evidence paths")
entry_findings available kinds name _ =
    add_if true (js "testEvidence." ++ name)
      (js "must contain one to eight declared evidence paths")

abbrev pub foreign_keys : JsString → JsString → List JsString → List JsString → List JsString
foreign_keys path detail allowed [] = []
foreign_keys path detail allowed (key ∷ rest) =
    add_if (not (includes allowed key)) (path ++ js "." ++ key) detail
    ++ foreign_keys path detail allowed rest

abbrev pub entries_findings : List JsString → Entries → Fields → List JsString → List JsString
entries_findings available kinds fs [] = []
entries_findings available kinds fs (name ∷ names) =
    entry_findings available kinds name (property fs name)
    ++ entries_findings available kinds fs names

unfoldable pub validate_test_evidence :
    Value → List JsString → List JsString → Entries → List JsString
validate_test_evidence (object fs) required available kinds =
    foreign_keys (js "testEvidence") (js "is not a supported test case") required (keys fs)
    ++ entries_findings available kinds fs required
validate_test_evidence _ required available kinds =
    add_if true (js "testEvidence")
      (js "must map every physical test case to declared evidence paths")
