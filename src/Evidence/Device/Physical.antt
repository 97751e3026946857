-- ===== src/Evidence/Device/Physical.antt =====
-- What the record of a physical device without findings holds.
use secure_keyboard.Prelude.{◌≡◌, Bool, true, false, List, []}
use secure_keyboard.Js.{
  JsString, js, Value, array, object, Fields, get, is_natural, is_true, Call, returns,
}
use secure_keyboard.Contracts.Reports.{empty_parts, report_iff}
use secure_keyboard.Contracts.Layout.Shape.{IsText}
use secure_keyboard.Evidence.Secrets.Absent.{HasNoSecretKey}
use secure_keyboard.Evidence.TestCases.{native_tests}
use secure_keyboard.Evidence.TestCases.Passed.{
  HasPassed, validate_tests_iff, IsTestEvidence, validate_test_evidence_iff,
}
use secure_keyboard.Evidence.HostModes.Accepted.{AreRequiredModes, true_or}
use secure_keyboard.Evidence.Artifacts.{Named}
use secure_keyboard.Evidence.Device.Parts.{
  IsCommit, IsGate, AreFiles, part_sound, native_web, files_sound, returns_same, head_sound,
  >>=-inv,
}
use secure_keyboard.Evidence.Origin.{is_native}
use secure_keyboard.Evidence.Device.{
  Options, host_logs, iterated_logs, physical_findings, file_findings, run_findings,
  validate_device_evidence,
}

-- What a record of a physical device without findings holds; the paths that the host modes name,
-- the log paths that the loop over them collects, and what is named at the end.
pub record IsPhysicalRun (o : Options) (fs : Fields) : Type 0 where
  pub no_secrets : HasNoSecretKey (object fs)
  pub version : is_natural (get fs "schemaVersion") 1 ≡ true
  pub passed : IsText (js "pass") (get fs "status")
  pub commit : IsCommit o.expected_commit (get fs "commit")
  pub gate : IsGate o.expected_gate (get fs "platform") (get fs "gate")
  pub physical : is_true (get fs "physicalDevice") ≡ true
  pub sanitized : is_true (get fs "sanitizedLogs") ≡ true
  pub tests : HasPassed native_tests (get fs "testCases")
  pub mode_paths : List JsString
  pub modes : AreRequiredModes o.expected_host_mode_versions (get fs "hostModes") mode_paths
  pub logs : List JsString
  pub collected : iterated_logs (get fs "hostModes") ≡ returns logs
  pub named : Named
  pub files : AreFiles fs mode_paths logs named
  pub evidence :
      IsTestEvidence native_tests named.available named.kinds_by_path (get fs "testEvidence")

-- Accepted host modes are an array, so the loop over them runs.
collected_logs :
    (expected v : Value) (referenced logs : List JsString)
    → AreRequiredModes expected v referenced
    → host_logs true v ≡ returns logs
    → iterated_logs v ≡ returns logs
collected_logs expected (array vs) referenced logs modes h = h
collected_logs expected _ referenced logs modes h = elim modes [ ]

abbrev RunBlocks : Fields → List JsString → List JsString → Type 0
RunBlocks fs referenced logs =
    HasPassed native_tests (get fs "testCases")
    × (is_true (get fs "sanitizedLogs") ≡ true)
    × (named : Named) × AreFiles fs referenced logs named
    × IsTestEvidence native_tests named.available named.kinds_by_path (get fs "testEvidence")

run_sound :
    (fs : Fields) (referenced logs : List JsString)
    → run_findings false true fs referenced logs ≡ []
    → RunBlocks fs referenced logs
run_sound fs referenced logs h =
    let (h1, evidence) = empty_parts _ _ h in
    let (h2, files) = empty_parts _ _ h1 in
    let (tests, sanitized) = empty_parts _ _ h2 in
    (
      (validate_tests_iff (get fs "testCases") native_tests).0 tests,
      (report_iff _ _ (λ k. k, λ k. k)).0 sanitized,
      (file_findings true fs referenced logs).1,
      files_sound fs referenced logs files,
      (validate_test_evidence_iff _ native_tests _ _).0 evidence,
    )

native_run_sound :
    (web : Bool) (fs : Fields) (referenced logs : List JsString)
    → web ≡ false
    → run_findings web true fs referenced logs ≡ []
    → RunBlocks fs referenced logs
native_run_sound true fs referenced logs e h = cc
native_run_sound false fs referenced logs e h = run_sound fs referenced logs h

physical_flag : (v : Value) → physical_findings true true v ≡ [] → is_true v ≡ true
physical_flag v h = let (_, flag) = empty_parts _ _ h in (report_iff _ _ (λ k. k, λ k. k)).0 flag

-- A record that is checked for a physical device of a native platform, and has no findings, has
-- no secret key at any depth, the status pass, a commit and a gate of this platform that are the
-- expected ones, the marks of a physical device and of sanitized logs, every native test case
-- passed with evidence, accepted host modes, and a log and artifacts with safe, distinct paths and
-- digests, one for each required kind.
pub validate_device_evidence-IsPhysicalRun :
    (date_text : JsString → Call JsString) (policy : Value) (o : Options) (fs : Fields)
    → o.require_physical_device ≡ true
    → is_native (get fs "platform") ≡ true
    → validate_device_evidence date_text policy o (object fs) ≡ returns []
    → IsPhysicalRun o fs
unfolding validate_device_evidence
validate_device_evidence-IsPhysicalRun date_text policy o fs physical native h =
    let h' = rw (physical, native, true_or o.require_native_host_modes) at h in
    let (logs, c1, k1) = >>=-inv _ _ [] h' in
    let (recorded, c2, k2) = >>=-inv _ _ [] k1 in
    let (device, c3, k3) = >>=-inv _ _ [] k2 in
    let (b1, run) = empty_parts _ _ (returns_same _ [] k3) in
    let (b2, _) = empty_parts _ _ b1 in
    let (b3, flag) = empty_parts _ _ b2 in
    let (b4, _) = empty_parts _ _ b3 in
    let (first, moded) = empty_parts _ _ b4 in
    let (secrets, version, passed, commit, gate) = head_sound o fs first in
    let modes = part_sound (get fs "hostModes") o.expected_host_mode_versions moded in
    let (tests, sanitized, named, files, evidence) =
      native_run_sound _ fs _ logs (native_web (get fs "platform") native) run in
    record {
      no_secrets = secrets;
      version = version;
      passed = passed;
      commit = commit;
      gate = gate;
      physical = physical_flag (get fs "physicalDevice") flag;
      sanitized = sanitized;
      tests = tests;
      mode_paths = _;
      modes = modes;
      logs = logs;
      collected = collected_logs _ (get fs "hostModes") _ logs modes c1;
      named = named;
      files = files;
      evidence = evidence;
    }
