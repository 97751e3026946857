-- ===== src/Evidence/Tests.antt =====
-- Concrete device records, and the theorems about them at concrete inputs.
pub mod Files
use secure_keyboard.Evidence.Text.{sep, split, starts_with}
use secure_keyboard.Prelude.{
  ℕ, if◌then◌else◌, ◌≡◌, ◌≤◌, ◌≢◌, refl, ap, length, Bool, true, false, List, [], ◌∷◌, ◌++◌, some,
  arith, All,
}
use secure_keyboard.Js.{
  JsString, js, text_eq, includes, property, Value, undefined, null, boolean, number, natural,
  string, array, cons, nil, object, Fields, get, end, field, Call, returns, throws,
}
use secure_keyboard.Js.Coerce.{text_of}
use secure_keyboard.Contracts.Checks.{report}
use secure_keyboard.Evidence.Symlinks.Resolve.{IsComponent}
use secure_keyboard.Evidence.Symlinks.{
  Result, done, absolute, resolve, push_all, dirname, path_has_symlink_component,
}
use secure_keyboard.Evidence.Symlinks.Scan.{found, path_has_symlink_component-links}
use secure_keyboard.Evidence.Checks.{
  ◌>>=◌, non_empty_string, is_safe_path_text, safe_relative_path, is_hex_text, is_hex_digest,
  is_shaped,
}
use secure_keyboard.Evidence.Secrets.{contains, is_forbidden_key, reject_secret_keys}
use secure_keyboard.Evidence.Secrets.Absent.{HasNoSecretKey}
use secure_keyboard.Evidence.Checks.Paths.{IsPlain, join, is_safe_path_text_iff}
use secure_keyboard.Evidence.Platform.{
  number_from, is_below, is_dot_version, is_version_field, is_dot_version_below, is_text_below,
  is_valid_calendar_date, validate_platform_support_policy, validate_platform_support_device, parts,
}
use secure_keyboard.Evidence.Platform.Versions.{part, Precedes, is_dot_version_below_iff}
use secure_keyboard.Evidence.TestCases.{
  native_tests, lookup, validate_tests, required_kinds, path_findings, validate_test_evidence,
}
use secure_keyboard.Evidence.HostModes.{
  validate_host_mode_evidence, host_mode_findings, modes_findings, validate_native_host_modes,
}
use secure_keyboard.Evidence.Artifacts.{artifact_findings, artifacts_findings, validate_artifacts}
use secure_keyboard.Evidence.Origin.{gate_platform, allowed_frameworks, is_native}
use secure_keyboard.Evidence.Device.{
  Options, iterated_logs, file_findings, is_recorded, device_findings, validate_device_evidence,
}
use secure_keyboard.Evidence.Device.Thrown.{validate_device_evidence-throws}
use secure_keyboard.Evidence.Device.Physical.{IsPhysicalRun, validate_device_evidence-IsPhysicalRun}

-- A file system with one symbolic link.
abbrev lstat : JsString → Call Bool
lstat t = if text_eq t (js "/e/a") then returns true else throws

letter_differs : (c : ℕ) → 48 ≤ c → c ≢ sep
letter_differs c h e = omega (arith, h, e)

-- The real path of "/l" is "/e".
abbrev real_path : JsString → Result JsString
real_path t = if text_eq t (js "/l") then done (js "/e") else done t

abbrev first_unit : JsString → ℕ
first_unit [] = 0
first_unit (c ∷ t) = c

letter-IsComponent : (c : ℕ) → 48 ≤ c → IsComponent (c ∷ [])
unfolding js
letter-IsComponent c h = (
  omega arith,
  (letter_differs c h, tt),
  (
    λ e. absurd (omega (arith, h, ap first_unit e)),
    λ e. absurd (omega (arith, ap (λ (t : JsString). length t) e)),
  ),
)

path_has_symlink_component-links_example :
    ((b : Bool) × (path_has_symlink_component real_path lstat (js "/") (js "/l") (js "x/../b")
        ≡ done (some b)))
    × (path_has_symlink_component real_path lstat
          (js "/")
          (js "/l")
          (absolute (js "b" ∷ js "a" ∷ js "e" ∷ []))
        ≡ done (some (found real_path lstat (js "/") (js "e" ∷ []) (js "b" ∷ js "a" ∷ []))))
unfolding js text_eq
path_has_symlink_component-links_example =
    path_has_symlink_component-links real_path lstat (js "/") (js "/l") (js "x/../b") (js "e" ∷ [])
      (js "b" ∷ js "a" ∷ []) refl (letter-IsComponent 101 (omega arith), tt)
      (letter-IsComponent 98 (omega arith), (letter-IsComponent 97 (omega arith), tt))

-- The link is found behind a further component, and not beside it; and not from the root "/".
scanned_paths :
    (path_has_symlink_component real_path lstat (js "/") (js "/l") (js "/e/./a/c/../b.log")
      ≡ done (some true))
    × (path_has_symlink_component real_path lstat (js "/") (js "/l") (js "e/b/a")
        ≡ done (some false))
    × (path_has_symlink_component real_path lstat (js "/") (js "/") (js "/e/a") ≡ done (some false))
unfolding js text_eq path_has_symlink_component starts_with dirname resolve split push_all
scanned_paths = (refl, refl, refl)

pub checks : Unit {0}
unfolding js text_eq includes property text_of report starts_with ◌>>=◌ non_empty_string split
    is_safe_path_text safe_relative_path is_hex_text is_hex_digest is_shaped contains
    is_forbidden_key reject_secret_keys lookup validate_tests required_kinds path_findings
    validate_test_evidence validate_host_mode_evidence host_mode_findings modes_findings
    validate_native_host_modes artifact_findings artifacts_findings validate_artifacts gate_platform
    allowed_frameworks is_native iterated_logs file_findings is_recorded device_findings
    validate_device_evidence HasNoSecretKey
checks = tt

-- The key is found whatever its case, at any depth.
rejected_keys :
    (reject_secret_keys [] (object (field (js "userPassWord") null end))
      ≡ js ".userPassWord: secret-bearing evidence fields are forbidden" ∷ [])
    × (reject_secret_keys [] (array (cons null nil)) ≡ [])
    × (is_forbidden_key (js "values") ≡ false)
unfolding checks
rejected_keys = (refl, refl, refl)

abbrev pub digest : Value
digest = string (js "0123456789abcdef0123456789abcdef0123456789abcdef0123456789abcdef")

abbrev pub artifact : JsString → Value
artifact kind = object (
    field (js "path") (string kind)
      (field (js "kind") (string kind) (field (js "sha256") digest end)))

abbrev pub host_mode : JsString → Value
host_mode framework = object (
    field (js "framework") (string framework) (
      field (js "frameworkVersion") (string (js "1.0")) (
        field (js "status") (string (js "pass")) (
          field (js "evidence")
            (object (
              field (js "logPath") (string (framework ++ js "/run.log"))
                (field (js "logSha256") digest end)))
            end))))

abbrev passed : List JsString → Fields
passed [] = end
passed (name ∷ names) = field name (string (js "pass")) (passed names)

-- Each test case refers to all of the artifacts.
abbrev referred : List JsString → Fields
referred [] = end
referred (name ∷ names) =
    field name
      (array (
        cons (string (js "screen-capture")) (
          cons (string (js "background-snapshot")) (
            cons (string (js "accessibility-report")) (
              cons (string (js "autofill-clipboard-report")) (
                cons (string (js "crash-report-review")) (
                  cons (string (js "platform-security-patch"))
                    (cons (string (js "native-checksum")) nil))))))))
      (referred names)

abbrev device_record : Value → Fields
device_record modes =
    (field (js "schemaVersion") (number (natural 1)) (
      field (js "status") (string (js "pass")) (
        field (js "commit") (string (js "0123456789abcdef0123456789abcdef01234567")) (
          field (js "gate") (string (js "ios-device-matrix")) (
            field (js "platform") (string (js "ios")) (
              field (js "framework") (string (js "native")) (
                field (js "frameworkVersion") (string (js "18")) (
                  field (js "hostModes") modes (
                    field (js "recordedAt") (string (js "2026-01-02T03:04:05.678Z")) (
                      field (js "physicalDevice") (boolean true) (
                        field (js "device")
                          (object (
                            field (js "model") (string (js "m")) (
                              field (js "osVersion") (string (js "18.1"))
                                (field (js "osBuild") (string (js "b")) end))))
                          (field (js "testCases") (object (passed native_tests)) (
                            field (js "sanitizedLogs") (boolean true) (
                              field (js "logPath") (string (js "run.log")) (
                                field (js "logSha256") digest (
                                  field (js "artifacts")
                                    (array (
                                      cons (artifact (js "screen-capture")) (
                                        cons (artifact (js "background-snapshot")) (
                                          cons (artifact (js "accessibility-report")) (
                                            cons (artifact (js "autofill-clipboard-report")) (
                                              cons (artifact (js "crash-report-review")) (
                                                cons (artifact (js "platform-security-patch")) (
                                                  cons (artifact (js "native-checksum")) nil))))))))
                                    (field (js "testEvidence") (object (referred native_tests))
                                      end)))))))))))))))))

abbrev physical : Options
physical = record {
  require_physical_device = true;
  require_native_host_modes = false;
  require_platform_support = false;
  expected_commit = undefined;
  expected_gate = string (js "ios-device-matrix");
  expected_host_mode_versions = undefined;
}

abbrev host_modes : Value
host_modes = array (cons (host_mode (js "react-native")) (cons (host_mode (js "flutter")) nil))

validate_device_evidence-IsPhysicalRun_example : IsPhysicalRun physical (device_record host_modes)
unfolding checks
validate_device_evidence-IsPhysicalRun_example =
    validate_device_evidence-IsPhysicalRun (λ t. returns t) undefined physical
      (device_record host_modes) refl refl refl

validate_device_evidence-throws_example :
    validate_device_evidence (λ t. returns t) undefined physical (object (device_record null))
    ≡ throws
unfolding checks
validate_device_evidence-throws_example =
    validate_device_evidence-throws (λ t. returns t) undefined physical (device_record null) refl tt

is_safe_path_text_iff_example :
    (w : JsString) × (ws : List JsString) × All IsPlain (w ∷ ws) × (js "e/run.log" ≡ join (w ∷ ws))
unfolding checks
is_safe_path_text_iff_example = (is_safe_path_text_iff (js "e/run.log")).0 refl

unsafe_paths :
    (is_safe_path_text (js "/e") ≡ false)
    × (is_safe_path_text (js "e/../f") ≡ false)
    × (is_safe_path_text (js "e//f") ≡ false)
    × (is_safe_path_text [] ≡ false)
unfolding checks
unsafe_paths = (refl, refl, refl, refl)

versions : Unit {0}
unfolding checks number_from is_below is_dot_version is_version_field is_dot_version_below
    is_text_below is_valid_calendar_date validate_platform_support_policy
    validate_platform_support_device
versions = tt

is_dot_version_below_iff_example : Precedes (part (15 ∷ 0 ∷ 9 ∷ [])) (part (15 ∷ 1 ∷ []))
unfolding versions
is_dot_version_below_iff_example =
    (is_dot_version_below_iff (js "15") (js "15") (js "0" ∷ js "9" ∷ []) (js "1" ∷ [])
        (
          (
            omega arith,
            ((omega arith, omega arith), ((omega arith, omega arith), tt)),
            omega arith,
          ),
          (
            (omega arith, ((omega arith, omega arith), tt), omega arith),
            ((omega arith, ((omega arith, omega arith), tt), omega arith), tt),
          ),
        )
        (
          (
            omega arith,
            ((omega arith, omega arith), ((omega arith, omega arith), tt)),
            omega arith,
          ),
          ((omega arith, ((omega arith, omega arith), tt), omega arith), tt),
        )).0
      refl

-- The policy of the repository.
abbrev policy : Value
policy = object (
    field (js "schemaVersion") (number (natural 1)) (
      field (js "policyId") (string (js "secure-keypad-platform-support-v1")) (
        field (js "effectiveDate") (string (js "2026-08-22")) (
          field (js "platforms")
            (object (
              field (js "ios")
                (object (
                  field (js "minimumOsVersion") (string (js "15.1")) (
                    field (js "securityPatchFormat") (string (js "dot-version"))
                      (field (js "minimumSecurityPatchLevel") (string (js "15.1")) end))))
                (field (js "android")
                  (object (
                    field (js "minimumApiLevel") (number (natural 24)) (
                      field (js "securityPatchFormat") (string (js "iso-date"))
                        (field (js "minimumSecurityPatchLevel") (string (js "2026-01-01")) end))))
                  end)))
            (field (js "verifiedCiTargets")
              (object (
                field (js "iosSimulatorOsVersion") (string (js "26.5"))
                  (field (js "androidApiLevel") (number (natural 35)) end)))
              end)))))

abbrev phone : Fields
phone =
    field (js "osVersion") (string (js "18.0"))
      (field (js "securityPatchLevel") (string (js "15.1.1")) end)

supported_phones :
    (validate_platform_support_device (λ t. returns t) policy (string (js "ios")) phone
      ≡ returns [])
    × (is_dot_version_below (js "15.0.9") (js "15.1") ≡ true)
    × (is_dot_version_below (js "15.10") (js "15.9") ≡ false)
unfolding versions
supported_phones = (refl, refl, refl)
