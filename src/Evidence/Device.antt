-- ===== src/Evidence/Device.antt =====
-- `validateDeviceEvidence`: one record of a device or browser run.
--
-- It returns the findings, or throws where it iterates over host modes that are no list, and where a
-- date has the right shape and is none. What `new Date(text).toISOString()` returns or throws is a
-- parameter, as is the support policy that is read from a file.
pub mod Thrown
pub mod Parts
pub mod Physical
use secure_keyboard.Prelude.{
  ℕ, zero, suc, Bool, true, false, not, ◌&&◌, ◌||◌, List, [], ◌∷◌, ◌++◌, Option, none, some,
  if◌then◌else◌,
}
use secure_keyboard.Js.{
  JsString, js, text_eq, includes, Value, undefined, null, boolean, array, object, string, Fields,
  items, get, property, is_text, is_natural, is_true, is_boolean, is_undefined, is_string,
  is_record, Call, returns, throws,
}
use secure_keyboard.Js.Coerce.{text_of}
use secure_keyboard.Contracts.Checks.{report}
use secure_keyboard.Evidence.Checks.{
  add_if, ◌>>=◌, non_empty_string, is_non_empty_text, safe_relative_path, is_hex_text,
  is_hex_digest, is_timestamp,
}
use secure_keyboard.Evidence.Secrets.{reject_secret_keys}
use secure_keyboard.Evidence.TestCases.{
  native_tests, web_tests, validate_tests, validate_test_evidence,
}
use secure_keyboard.Evidence.HostModes.{
  native_frameworks, new_path, digest_finding, validate_native_host_modes,
}
use secure_keyboard.Evidence.Artifacts.{Named, canonical_path_detail, validate_artifacts}
use secure_keyboard.Evidence.Origin.{
  gate_platform, differs, commit_findings, expected_commit_findings, known_gate_findings,
  gate_findings, platforms, allowed_frameworks, has_text, is_platform, is_foreign_gate,
  platform_findings, is_native,
}
use secure_keyboard.Evidence.Platform.{validate_platform_support_device}

-- The options; a missing Boolean is false, any other missing option undefined.
pub record Options : Type 0 where
  pub require_physical_device : Bool
  pub require_native_host_modes : Bool
  pub require_platform_support : Bool
  pub expected_commit : Value
  pub expected_gate : Value
  pub expected_host_mode_versions : Value

abbrev pub host_mode_part : Bool → Bool → Value → Value → List JsString × List JsString
host_mode_part native required expected modes =
    if native && not (is_undefined modes)
    then validate_native_host_modes modes required expected []
    else (
      add_if (native && required) (js "hostModes")
          (js "must contain both react-native and flutter host modes"),
      [],
    )

abbrev pub cons_path : Option JsString → List JsString → List JsString
cons_path none paths = paths
cons_path (some path) paths = path ∷ paths

-- The safe log path of a host mode whose evidence is a record.
abbrev pub evidence_log : Value → Option JsString
evidence_log (object es) = safe_relative_path (get es "logPath")
evidence_log _ = none

abbrev pub mode_log : Value → Option JsString
mode_log (object fs) = evidence_log (get fs "evidence")
mode_log _ = none

abbrev pub mode_logs : List Value → List JsString
mode_logs [] = []
mode_logs (v ∷ vs) = cons_path (mode_log v) (mode_logs vs)

-- `for (const hostMode of evidence.hostModes)`; only arrays and strings can be iterated over.
unfoldable pub iterated_logs : Value → Call (List JsString)
iterated_logs (array vs) = returns (mode_logs (items vs))
iterated_logs (string t) = returns []
iterated_logs _ = throws

abbrev pub host_logs : Bool → Value → Call (List JsString)
host_logs native modes =
    if native && not (is_undefined modes) then iterated_logs modes else returns []

abbrev pub empty_fields : Fields → List JsString → List JsString
empty_fields device [] = []
empty_fields device (name ∷ names) =
    add_if (not (non_empty_string (property device name))) (js "device." ++ name)
      (js "must be non-empty")
    ++ empty_fields device names

abbrev pub physical_findings : Bool → Bool → Value → List JsString
physical_findings required native v =
    add_if (not (is_boolean v)) (js "physicalDevice") (js "must be boolean")
    ++ add_if (required && native && not (is_true v)) (js "physicalDevice")
        (js "must be true for the physical-device release gate")

-- The log path of the record itself, and the artifacts: the findings, and what is named then.
unfoldable pub file_findings : Bool → Fields → List JsString → List JsString → List JsString × Named
file_findings physical fs referenced logs =
    let path = safe_relative_path (get fs "logPath") in
    let (found, referenced') = new_path (js "logPath") canonical_path_detail referenced path in
    let (more, named) = validate_artifacts physical (get fs "artifacts") (record {
      referenced = referenced';
      available = cons_path path logs;
      kinds_by_path = [];
      kinds = [];
    }) in
    (found ++ digest_finding (js "logSha256") (get fs "logSha256") ++ more, named)

-- The blocks that need no date, in the order of the source from the test cases on.
abbrev pub run_findings : Bool → Bool → Fields → List JsString → List JsString → List JsString
run_findings web physical fs referenced logs =
    let (found, named) = file_findings physical fs referenced logs in
    validate_tests (get fs "testCases") (if web then web_tests else native_tests)
    ++ add_if (not (is_true (get fs "sanitizedLogs"))) (js "sanitizedLogs") (js "must be true")
    ++ found
    ++ (if physical
        then validate_test_evidence (get fs "testEvidence") native_tests named.available
            named.kinds_by_path
        else [])

-- The first blocks of the source.
abbrev pub head_findings : Options → Fields → List JsString
head_findings o fs =
    reject_secret_keys (js "root") (object fs)
    ++ add_if (not (is_natural (get fs "schemaVersion") 1)) (js "schemaVersion") (js "must be 1")
    ++ add_if (not (is_text (get fs "status") (js "pass"))) (js "status")
        (js "must be exactly 'pass'")
    ++ commit_findings (get fs "commit") o.expected_commit
    ++ expected_commit_findings o.expected_commit
    ++ gate_findings (get fs "gate") o.expected_gate
    ++ platform_findings (get fs "platform") (get fs "framework") (get fs "gate")
    ++ add_if (not (non_empty_string (get fs "frameworkVersion"))) (js "frameworkVersion")
        (js "must be non-empty")

module _ (date_text : JsString → Call JsString) (policy : Value) where
  unfoldable pub is_recorded : Value → Call Bool
  is_recorded (string t) =
      if not (is_non_empty_text t && is_timestamp t)
      then returns false
      else (date_text t >>= λ iso. returns (text_eq iso t))
  is_recorded _ = returns false

  unfoldable pub device_findings : Bool → Value → Value → Call (List JsString)
  device_findings support platform (object device) =
      if is_text platform (js "web")
      then returns (
          empty_fields device (js "browser" ∷ js "browserVersion" ∷ js "osVersion" ∷ [])
          ++ add_if (not (is_true (get device "secureContext"))) (js "device.secureContext")
              (js "must be true"))
      else ((if support
            then validate_platform_support_device date_text policy platform device
            else returns [])
          >>= λ more.
              returns
                (empty_fields device (js "model" ∷ js "osVersion" ∷ js "osBuild" ∷ []) ++ more))
  device_findings support platform _ = returns (add_if true (js "device") (js "must be an object"))

  abbrev pub fields_findings : Options → Fields → Call (List JsString)
  fields_findings o fs =
      let native = is_native (get fs "platform") in
      let physical = o.require_physical_device && native in
      let required = o.require_native_host_modes || physical in
      let (modes, referenced) =
        host_mode_part native required o.expected_host_mode_versions (get fs "hostModes") in
      host_logs native (get fs "hostModes") >>= λ logs.
      is_recorded (get fs "recordedAt") >>= λ recorded.
      device_findings o.require_platform_support (get fs "platform") (get fs "device") >>= λ device.
      returns (
        head_findings o fs
        ++ modes
        ++ add_if (not recorded) (js "recordedAt") (js "must be an ISO-8601 UTC timestamp")
        ++ physical_findings o.require_physical_device native (get fs "physicalDevice")
        ++ device
        ++ run_findings (is_text (get fs "platform") (js "web")) physical fs referenced logs)

  unfoldable pub validate_device_evidence : Options → Value → Call (List JsString)
  validate_device_evidence o (object fs) = fields_findings o fs
  validate_device_evidence o _ = returns (js "root: must be an object" ∷ [])
