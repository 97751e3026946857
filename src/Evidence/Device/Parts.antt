-- ===== src/Evidence/Device/Parts.antt =====
-- What the parts of a device record without findings hold.
use secure_keyboard.Prelude.{
  ◌≡◌, refl, subst, arith, Bool-cases, inl, inr, true, false, List, [], ◌∷◌, Option, none, some,
}
use secure_keyboard.Js.{
  JsString, js, text_eq, includes, Value, undefined, string, object, Fields, get, is_text,
  is_natural, Call, returns, throws,
}
use secure_keyboard.Js.Coerce.{text_of}
use secure_keyboard.Contracts.Reports.{empty_parts, append_iff, report_iff}
use secure_keyboard.Contracts.Layout.Shape.{IsText}
use secure_keyboard.Contracts.Layout.Parts.{is_text_iff}
use secure_keyboard.Contracts.Checks.{report}
use secure_keyboard.Evidence.Checks.{◌>>=◌, safe_relative_path, is_hex_text, is_hex_digest}
use secure_keyboard.Evidence.Secrets.Absent.{HasNoSecretKey, reject_secret_keys_iff, add_if_iff}
use secure_keyboard.Evidence.HostModes.Accepted.{AreRequiredModes, validate_native_host_modes_sound}
use secure_keyboard.Evidence.Artifacts.{Named}
use secure_keyboard.Evidence.Artifacts.Accepted.{
  new_path_sound, ArePhysicalArtifacts, validate_artifacts_sound,
}
use secure_keyboard.Evidence.Origin.{
  platforms, has_text, allowed_frameworks, gate_platform, differs, commit_findings, gate_findings,
  known_gate_findings, platform_findings, is_foreign_gate, is_native,
}
use secure_keyboard.Evidence.Device.{
  Options, host_mode_part, file_findings, head_findings, cons_path,
}

-- The commit is a hash, and the expected one where there is one.
abbrev pub IsCommit : Value → Value → Type 0
IsCommit expected (string c) = (is_hex_text 40 c ≡ true) × (differs expected c ≡ false)
IsCommit expected _ = ⊥

commit_findings-IsCommit :
    (v expected : Value) → commit_findings v expected ≡ [] → IsCommit expected v
unfolding report
commit_findings-IsCommit (string c) expected h = elim (Bool-cases (is_hex_text 40 c)) [
  | inl e ↦ (let h' = rw e at h in (e, (add_if_iff (differs expected c) _ _).0 h'))
  | inr e ↦ (let h' = rw e at h in cc)
]
commit_findings-IsCommit _ expected h = cc

-- The gate is a known one, of this platform, and the expected one where there is one.
abbrev pub IsGate : Value → Value → Value → Type 0
IsGate expected platform (string g) =
    (p : JsString) × (gate_platform g ≡ some p)
    × (platform ≡ string p)
    × (differs expected g ≡ false)
IsGate expected platform _ = ⊥

known_sound :
    (o : Option JsString) (g : JsString) (expected : Value)
    → known_gate_findings o g expected ≡ []
    → (p : JsString) × (o ≡ some p) × (differs expected g ≡ false)
unfolding report
known_sound none g expected h = cc
known_sound (some p) g expected h = (p, refl, (add_if_iff (differs expected g) _ _).0 h)

platform_sound :
    (platform framework gate : Value)
    → platform_findings platform framework gate ≡ []
    → is_foreign_gate gate platform ≡ false
unfolding report
platform_sound platform framework gate h =
    elim (Bool-cases (includes platforms (text_of platform))) [
      | inl e ↦ elim (Bool-cases (has_text (allowed_frameworks (text_of platform)) framework)) [
        | inl g ↦ (let h' = rw (e, g) at h in (add_if_iff (is_foreign_gate gate platform) _ _).0 h')
        | inr g ↦ (let h' = rw (e, g) at h in cc)
      ]
      | inr e ↦ (let h' = rw e at h in cc)
    ]

gate_findings-IsGate :
    (gate platform expected : Value)
    → gate_findings gate expected ≡ []
    → is_foreign_gate gate platform ≡ false
    → IsGate expected platform gate
unfolding report
gate_findings-IsGate (string g) platform expected h same =
    let (p, known, given) = known_sound (gate_platform g) g expected h in
    let same' = rw known at same in
    (p, known, (is_text_iff platform p).0 (ground (arith, same')), given)
gate_findings-IsGate _ platform expected h same = cc

pub part_sound :
    (v expected : Value)
    → (host_mode_part true true expected v).0 ≡ []
    → AreRequiredModes expected v (host_mode_part true true expected v).1
unfolding report
part_sound undefined expected h = cc
part_sound v expected h = validate_native_host_modes_sound v expected h

pub native_web : (v : Value) → is_native v ≡ true → is_text v (js "web") ≡ false
unfolding is_native text_eq js
native_web v h = elim (Bool-cases (is_text v (js "ios"))) [
  | inl e ↦ rw ((is_text_iff v (js "ios")).0 e) refl
  | inr e ↦ (let h' = rw e at h in rw ((is_text_iff v (js "android")).0 h') refl)
]

-- What is named when the loop over the artifacts starts.
abbrev start : List JsString → Option JsString → List JsString → Named
start referenced o logs = record {
  referenced = referenced;
  available = cons_path o logs;
  kinds_by_path = [];
  kinds = [];
}

started :
    (given referenced : List JsString) (o : Option JsString) (path : JsString)
    (logs : List JsString) (v : Value) (end_state : Named)
    → o ≡ some path
    → given ≡ path ∷ referenced
    → ArePhysicalArtifacts (start given o logs) v end_state
    → ArePhysicalArtifacts (start (path ∷ referenced) (some path) logs) v end_state
started given referenced o path logs v end_state e f h =
    subst (λ r. ArePhysicalArtifacts (start r (some path) logs) v end_state) f
      (subst (λ q. ArePhysicalArtifacts (start given q logs) v end_state) e h)

-- The log of the record, which is no log of a host mode, and the artifacts.
abbrev pub AreFiles : Fields → List JsString → List JsString → Named → Type 0
AreFiles fs referenced logs end_state =
    (path : JsString) × (safe_relative_path (get fs "logPath") ≡ some path)
    × (includes referenced path ≡ false)
    × (is_hex_digest 64 (get fs "logSha256") ≡ true)
    × ArePhysicalArtifacts (start (path ∷ referenced) (some path) logs) (get fs "artifacts")
        end_state

pub files_sound :
    (fs : Fields) (referenced logs : List JsString)
    → (file_findings true fs referenced logs).0 ≡ []
    → AreFiles fs referenced logs (file_findings true fs referenced logs).1
unfolding file_findings report
files_sound fs referenced logs h =
    let ((found, hex), more) =
      (append_iff (append_iff (λ k. k, λ k. k) (report_iff _ _ (λ k. k, λ k. k)))
          (λ k. k, λ k. k)).0
        h in
    let (path, given, fresh, next) =
      new_path_sound _ _ referenced (safe_relative_path (get fs "logPath")) found in
    let listed = validate_artifacts_sound (get fs "artifacts") _ more in
    (
      path,
      given,
      fresh,
      hex,
      started _ referenced (safe_relative_path (get fs "logPath")) path logs (get fs "artifacts") _
          given next listed,
    )

pub >>=-inv {ℓ κ} :
    {A : Type ℓ} {B : Type κ} (m : Call A) (f : A → Call B) (b : B)
    → (m >>= f) ≡ returns b
    → (a : A) × (m ≡ returns a) × (f a ≡ returns b)
unfolding ◌>>=◌
>>=-inv throws f b h = cc
>>=-inv (returns a) f b h = (a, refl, h)

pub returns_same : (xs ys : List JsString) → returns xs ≡ returns ys → xs ≡ ys
returns_same xs ys h = cc

abbrev pub HeadBlocks : Options → Fields → Type 0
HeadBlocks o fs =
    HasNoSecretKey (object fs)
    × (is_natural (get fs "schemaVersion") 1 ≡ true)
    × IsText (js "pass") (get fs "status")
    × IsCommit o.expected_commit (get fs "commit")
    × IsGate o.expected_gate (get fs "platform") (get fs "gate")

pub head_sound : (o : Options) (fs : Fields) → head_findings o fs ≡ [] → HeadBlocks o fs
head_sound o fs h =
    let (h1, _) = empty_parts _ _ h in
    let (h2, platform) = empty_parts _ _ h1 in
    let (h3, gate) = empty_parts _ _ h2 in
    let (h4, _) = empty_parts _ _ h3 in
    let (h5, commit) = empty_parts _ _ h4 in
    let (h6, passed) = empty_parts _ _ h5 in
    let (secrets, version) = empty_parts _ _ h6 in
    (
      (reject_secret_keys_iff (js "root") (object fs)).0 secrets,
      (report_iff _ _ (λ k. k, λ k. k)).0 version,
      (report_iff _ _ (is_text_iff (get fs "status") (js "pass"))).0 passed,
      commit_findings-IsCommit (get fs "commit") o.expected_commit commit,
      gate_findings-IsGate (get fs "gate") (get fs "platform") o.expected_gate gate
          (platform_sound (get fs "platform") (get fs "framework") (get fs "gate") platform),
    )
