-- ===== src/Evidence/HostModes.antt =====
-- `validateHostModeEvidence` and `validateNativeHostModes`.
--
-- The set of the paths that a record names is threaded through as a list.
pub mod Accepted
use secure_keyboard.Prelude.{
  ℕ, zero, suc, ◌+◌, ◌==◌, Bool, true, false, not, ◌&&◌, ◌||◌, List, [], ◌∷◌, ◌++◌, Option, none,
  some, ltb, length, if◌then◌else◌,
}
use secure_keyboard.Js.{
  JsString, js, text_eq, includes, Value, undefined, array, object, string, Fields, items, keys,
  get, property, is_text, is_string, is_undefined,
}
use secure_keyboard.Js.Coerce.{text_of}
use secure_keyboard.Contracts.Checks.{report}
use secure_keyboard.Evidence.Checks.{add_if, non_empty_string, safe_relative_path, is_hex_digest}
use secure_keyboard.Evidence.TestCases.{indexed, foreign_keys}

-- A path that must be safe and new: the findings, and the paths named so far.
abbrev pub new_path :
    JsString → JsString → List JsString → Option JsString → List JsString × List JsString
new_path field detail referenced none = (add_if true field detail, referenced)
new_path field detail referenced (some path) =
    if includes referenced path
    then (add_if true field (js "must be unique across evidence files"), referenced)
    else ([], path ∷ referenced)

abbrev pub digest_finding : JsString → Value → List JsString
digest_finding field v =
    add_if (not (is_hex_digest 64 v)) field (js "must be a lowercase SHA-256 digest")

unfoldable pub validate_host_mode_evidence :
    Value → JsString → Bool → List JsString → List JsString × List JsString
validate_host_mode_evidence (object fs) field required referenced =
    let (found, referenced') =
      new_path (field ++ js ".logPath") (js "must be a relative, non-parent path") referenced
        (safe_relative_path (get fs "logPath")) in
    (
      foreign_keys field (js "unsupported host-mode evidence field")
            (js "logPath" ∷ js "logSha256" ∷ []) (keys fs)
          ++ found
          ++ digest_finding (field ++ js ".logSha256") (get fs "logSha256"),
      referenced',
    )
validate_host_mode_evidence _ field required referenced =
    (add_if required field (js "must contain a host-mode log path and digest"), referenced)

abbrev pub native_frameworks : List JsString
native_frameworks = js "native" ∷ js "react-native" ∷ js "flutter" ∷ []

abbrev pub host_mode_fields : List JsString
host_mode_fields = js "framework" ∷ js "frameworkVersion" ∷ js "status" ∷ js "evidence" ∷ []

-- A framework that must be supported and new: the findings, and the frameworks seen so far.
abbrev pub framework_finding : JsString → List JsString → Value → List JsString × List JsString
framework_finding field frameworks (string f) =
    if not (includes native_frameworks f)
    then (add_if true field (js "must be a supported native host mode"), frameworks)
    else if includes frameworks f
    then (add_if true field (js "must not be duplicated"), frameworks)
    else ([], f ∷ frameworks)
framework_finding field frameworks _ =
    (add_if true field (js "must be a supported native host mode"), frameworks)

-- The expected version is a text that the given one differs from.
abbrev pub is_other_version : Value → Value → Bool
is_other_version (string t) version = not (is_text version t)
is_other_version _ version = false

abbrev pub expected_version : Value → Value → Value
expected_version (object es) framework = property es (text_of framework)
expected_version _ framework = undefined

abbrev pub version_finding : JsString → Value → Value → Value → List JsString
version_finding field expected framework version =
    if not (non_empty_string version)
    then add_if true field (js "must be non-empty")
    else add_if (is_other_version (expected_version expected framework) version) field
        (js "must match the manifest toolchain version")

-- What the loop over the host modes carries: the frameworks seen and the paths named.
abbrev pub Seen : Type 0
Seen = List JsString × List JsString

-- The evidence of a host mode, where it is given or required.
abbrev pub mode_evidence : Value → JsString → Bool → List JsString → List JsString × List JsString
mode_evidence v field required referenced =
    if not (is_undefined v) || required
    then validate_host_mode_evidence v field required referenced
    else ([], referenced)

unfoldable pub host_mode_findings : Bool → Value → JsString → Seen → Value → List JsString × Seen
host_mode_findings required expected field (frameworks, referenced) (object fs) =
    let (found, frameworks') =
      framework_finding (field ++ js ".framework") frameworks (get fs "framework") in
    let (logged, referenced') =
      mode_evidence (get fs "evidence") (field ++ js ".evidence") required referenced in
    (
      foreign_keys field (js "unsupported host-mode field") host_mode_fields (keys fs)
          ++ found
          ++ version_finding (field ++ js ".frameworkVersion") expected (get fs "framework")
              (get fs "frameworkVersion")
          ++ add_if (not (is_text (get fs "status") (js "pass"))) (field ++ js ".status")
              (js "must be exactly 'pass'")
          ++ logged,
      (frameworks', referenced'),
    )
host_mode_findings required expected field seen _ =
    (add_if true field (js "must be an object"), seen)

unfoldable pub modes_findings : Bool → Value → ℕ → Seen → List Value → List JsString × Seen
modes_findings required expected index seen [] = ([], seen)
modes_findings required expected index seen (v ∷ vs) =
    let (found, seen') =
      host_mode_findings required expected (indexed (js "hostModes") index) seen v in
    let (more, seen'') = modes_findings required expected (index + 1) seen' vs in
    (found ++ more, seen'')

abbrev pub required_native_host_modes : List JsString
required_native_host_modes = js "react-native" ∷ js "flutter" ∷ []

abbrev pub missing_modes : List JsString → List JsString → List JsString
missing_modes frameworks [] = []
missing_modes frameworks (f ∷ rest) =
    add_if (not (includes frameworks f)) (js "hostModes") (js "must contain " ++ f)
    ++ missing_modes frameworks rest

abbrev pub is_mode_count : ℕ → Bool
is_mode_count n = not (n == 0 || ltb 3 n)

abbrev pub modes_of : Bool → Value → List JsString → List Value → List JsString × List JsString
modes_of required expected referenced vs =
    let (found, (frameworks, referenced')) =
      modes_findings required expected 0 ([], referenced) vs in
    (
      found ++ (if required then missing_modes frameworks required_native_host_modes else []),
      referenced',
    )

abbrev pub no_modes : List JsString → List JsString × List JsString
no_modes referenced =
    (add_if true (js "hostModes") (js "must contain one to three host-mode records"), referenced)

unfoldable pub validate_native_host_modes :
    Value → Bool → Value → List JsString → List JsString × List JsString
unfolding modes_findings
validate_native_host_modes (array vs) required expected referenced =
    if is_mode_count (length (items vs))
    then modes_of required expected referenced (items vs)
    else no_modes referenced
validate_native_host_modes _ required expected referenced = no_modes referenced
