-- ===== src/Evidence/HostModes/Accepted.antt =====
-- Which host modes of a physical device are accepted.
use secure_keyboard.Prelude.{
  ℕ, ◌+◌, ◌≡◌, ◌↔◌, refl, ap, ◌∙◌, Bool, Bool-cases, inl, inr, true, false, not, ◌||◌, List, [],
  ◌∷◌, ◌++◌, some, length, All,
}
use secure_keyboard.Js.{
  JsString, js, includes, Value, string, array, object, items, get, is_undefined,
}
use secure_keyboard.Contracts.Reports.{append_iff, report_iff, OneOf, includes_iff}
use secure_keyboard.Contracts.Layout.Shape.{IsText}
use secure_keyboard.Contracts.Layout.Parts.{is_text_iff}
use secure_keyboard.Contracts.Checks.{report}
use secure_keyboard.Evidence.Checks.{non_empty_string, safe_relative_path, is_hex_digest}
use secure_keyboard.Evidence.Secrets.Absent.{add_if_iff}
use secure_keyboard.Evidence.TestCases.{indexed}
use secure_keyboard.Evidence.Artifacts.Accepted.{new_path_sound}
use secure_keyboard.Evidence.HostModes.{
  validate_host_mode_evidence, native_frameworks, framework_finding, version_finding,
  is_other_version, expected_version, Seen, mode_evidence, host_mode_findings, modes_findings,
  required_native_host_modes, missing_modes, is_mode_count, modes_of, validate_native_host_modes,
}

-- A new safe log path and a digest.
abbrev pub IsModeEvidence : List JsString → JsString → Value → Type 0
IsModeEvidence referenced path (object es) =
    (safe_relative_path (get es "logPath") ≡ some path)
    × (includes referenced path ≡ false)
    × (is_hex_digest 64 (get es "logSha256") ≡ true)
IsModeEvidence referenced path _ = ⊥

evidence_sound :
    (v : Value) (field : JsString) (referenced : List JsString)
    → (validate_host_mode_evidence v field true referenced).0 ≡ []
    → (path : JsString) × IsModeEvidence referenced path v
      × ((validate_host_mode_evidence v field true referenced).1 ≡ path ∷ referenced)
unfolding validate_host_mode_evidence report
evidence_sound (object es) field referenced h =
    let ((_, found), hex) =
      (append_iff (append_iff (λ k. k, λ k. k) (λ k. k, λ k. k))
          (report_iff _ _ (λ k. k, λ k. k))).0
        h in
    let (path, given, fresh, next) =
      new_path_sound _ _ referenced (safe_relative_path (get es "logPath")) found in
    (path, (given, fresh, hex), next)
evidence_sound _ field referenced h = cc

framework_text_sound :
    (field : JsString) (frameworks : List JsString) (f : JsString)
    → (framework_finding field frameworks (string f)).0 ≡ []
    → OneOf native_frameworks f
      × (includes frameworks f ≡ false)
      × ((framework_finding field frameworks (string f)).1 ≡ f ∷ frameworks)
unfolding report
framework_text_sound field frameworks f h = elim (Bool-cases (includes native_frameworks f)) [
  | inl e ↦ elim (Bool-cases (includes frameworks f)) [
    | inl g ↦ (let h' = rw (e, g) at h in cc)
    | inr g ↦ ((includes_iff native_frameworks f).0 e, g, rw (e, g) refl)
  ]
  | inr e ↦ (let h' = rw e at h in cc)
]

framework_sound :
    (field : JsString) (frameworks : List JsString) (v : Value)
    → (framework_finding field frameworks v).0 ≡ []
    → (f : JsString) × (v ≡ string f)
      × OneOf native_frameworks f
      × (includes frameworks f ≡ false)
      × ((framework_finding field frameworks v).1 ≡ f ∷ frameworks)
unfolding report
framework_sound field frameworks (string f) h =
    let (known, new, next) = framework_text_sound field frameworks f h in
    (f, refl, known, new, next)
framework_sound field frameworks _ h = cc

version_sound :
    (field : JsString) (expected framework version : Value)
    → version_finding field expected framework version ≡ []
    → (non_empty_string version ≡ true)
      × (is_other_version (expected_version expected framework) version ≡ false)
unfolding report
version_sound field expected framework version h = elim (Bool-cases (non_empty_string version)) [
  | inl e ↦
      (let h' = rw e at h in
        (e, (add_if_iff (is_other_version (expected_version expected framework) version) _ _).0 h'))
  | inr e ↦ (let h' = rw e at h in cc)
]

-- What a host mode must be: a supported framework, not seen before, of the expected version, that
-- passed, with evidence of its own.
abbrev pub IsHostMode : Value → Seen → JsString → JsString → Value → Type 0
IsHostMode expected (frameworks, referenced) f path (object fs) =
    (get fs "framework" ≡ string f)
    × OneOf native_frameworks f
    × (includes frameworks f ≡ false)
    × (non_empty_string (get fs "frameworkVersion") ≡ true)
    × (is_other_version (expected_version expected (get fs "framework")) (get fs "frameworkVersion")
        ≡ false)
    × IsText (js "pass") (get fs "status")
    × IsModeEvidence referenced path (get fs "evidence")
IsHostMode expected (frameworks, referenced) f path _ = ⊥

pub true_or : (b : Bool) → (b || true) ≡ true
true_or true = refl
true_or false = refl

given_sound :
    (v : Value) (field : JsString) (referenced : List JsString)
    → (mode_evidence v field true referenced).0 ≡ []
    → (path : JsString) × IsModeEvidence referenced path v
      × ((mode_evidence v field true referenced).1 ≡ path ∷ referenced)
given_sound v field referenced h =
    let h' = rw (true_or (not (is_undefined v))) at h in
    rw (true_or (not (is_undefined v))) (evidence_sound v field referenced h')

mode_sound :
    (expected : Value) (field : JsString) (seen : Seen) (v : Value)
    → (host_mode_findings true expected field seen v).0 ≡ []
    → (f : JsString) × (path : JsString) × IsHostMode expected seen f path v
      × ((host_mode_findings true expected field seen v).1 ≡ (f ∷ seen.0, path ∷ seen.1))
unfolding host_mode_findings report
mode_sound expected field (frameworks, referenced) (object fs) h =
    let ((((_, named), versioned), passed), logged) =
      (append_iff
          (append_iff (append_iff (append_iff (λ k. k, λ k. k) (λ k. k, λ k. k)) (λ k. k, λ k. k))
            (report_iff _ _ (is_text_iff (get fs "status") (js "pass"))))
          (λ k. k, λ k. k)).0
        h in
    let (f, spelled, known, new, next) =
      framework_sound (field ++ js ".framework") frameworks (get fs "framework") named in
    let (filled, same) =
      version_sound _ expected (get fs "framework") (get fs "frameworkVersion") versioned in
    let (path, evidence, next_path) =
      given_sound (get fs "evidence") (field ++ js ".evidence") referenced logged in
    (
      f,
      path,
      (spelled, known, new, filled, same, passed, evidence),
      ap
            (λ (p : List JsString).
              (p, (mode_evidence (get fs "evidence") (field ++ js ".evidence") true referenced).1))
            next
          ∙ ap (λ (p : List JsString). (f ∷ frameworks, p)) next_path,
    )
mode_sound expected field (frameworks, referenced) _ h = cc

-- The host modes, one after the other, and what was seen at the end.
abbrev pub AreHostModes : Value → Seen → List Value → Seen → Type 0
AreHostModes expected seen [] end_seen = seen ≡ end_seen
AreHostModes expected seen (v ∷ vs) end_seen =
    (f : JsString) × (path : JsString) × IsHostMode expected seen f path v
    × AreHostModes expected (f ∷ seen.0, path ∷ seen.1) vs end_seen

modes_sound :
    (expected : Value) (index : ℕ) (seen : Seen) (vs : List Value)
    → (modes_findings true expected index seen vs).0 ≡ []
    → AreHostModes expected seen vs (modes_findings true expected index seen vs).1
unfolding modes_findings
modes_sound expected index seen [] h = refl
modes_sound expected index seen (v ∷ vs) h =
    let (here, rest) = (append_iff (λ k. k, λ k. k) (λ k. k, λ k. k)).0 h in
    let field = indexed (js "hostModes") index in
    let (f, path, good, next) = mode_sound expected field seen v here in
    let more =
      modes_sound expected (index + 1) (host_mode_findings true expected field seen v).1 vs rest in
    (f, path, good, rw (← next) more)

missing_modes_iff :
    (frameworks required : List JsString)
    → (missing_modes frameworks required ≡ []) ↔ All (OneOf frameworks) required
missing_modes_iff frameworks [] = (λ h. tt, λ h. refl)
missing_modes_iff frameworks (f ∷ rest) =
    append_iff (report_iff _ _ (includes_iff frameworks f)) (missing_modes_iff frameworks rest)

-- One to three accepted host modes, among them the required ones; the paths named at the end.
abbrev pub AreRequiredModes : Value → Value → List JsString → Type 0
AreRequiredModes expected (array vs) referenced =
    (is_mode_count (length (items vs)) ≡ true)
    × (frameworks : List JsString) × AreHostModes expected ([], []) (items vs)
        (frameworks, referenced)
    × All (OneOf frameworks) required_native_host_modes
AreRequiredModes expected _ referenced = ⊥

listed_modes_sound :
    (expected : Value) (vs : List Value)
    → (modes_of true expected [] vs).0 ≡ []
    → (frameworks : List JsString) × AreHostModes expected
        ([], [])
        vs
        (frameworks, (modes_of true expected [] vs).1)
      × All (OneOf frameworks) required_native_host_modes
listed_modes_sound expected vs h =
    let (here, rest) = (append_iff (λ k. k, λ k. k) (λ k. k, λ k. k)).0 h in
    (
      (modes_findings true expected 0 ([], []) vs).1.0,
      modes_sound expected 0 ([], []) vs here,
      (missing_modes_iff _ required_native_host_modes).0 rest,
    )

-- Required host modes are without findings only if there are one to three of them, react-native and
-- flutter among them, each of a supported framework, with a version that is the expected one where
-- there is one, the status pass and a log of its own with a digest.
pub validate_native_host_modes_sound :
    (v expected : Value)
    → (validate_native_host_modes v true expected []).0 ≡ []
    → AreRequiredModes expected v (validate_native_host_modes v true expected []).1
unfolding validate_native_host_modes report
validate_native_host_modes_sound (array vs) expected h =
    elim (Bool-cases (is_mode_count (length (items vs)))) [
      | inl e ↦
          (let h' = rw e at h in
            let (frameworks, modes, all_modes) = listed_modes_sound expected (items vs) h' in
            rw e (refl, frameworks, modes, all_modes))
      | inr e ↦ (let h' = rw e at h in cc)
    ]
validate_native_host_modes_sound _ expected h = cc
