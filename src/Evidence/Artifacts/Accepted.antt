-- ===== src/Evidence/Artifacts/Accepted.antt =====
-- Which artifacts of a physical device are accepted, and what is named after them.
use secure_keyboard.Prelude.{
  ℕ, ◌+◌, ◌==◌, ◌≡◌, ◌↔◌, refl, ap, Bool, Bool-cases, inl, inr, true, false, List, [], ◌∷◌, Option,
  none, some, length, All, if◌then◌else◌,
}
use secure_keyboard.Js.{JsString, js, includes, Value, string, array, object, Fields, items, get}
use secure_keyboard.Contracts.Reports.{append_iff, report_iff, OneOf, includes_iff}
use secure_keyboard.Contracts.Checks.{report}
use secure_keyboard.Evidence.Checks.{is_non_empty_text, safe_relative_path, is_hex_digest}
use secure_keyboard.Evidence.TestCases.{indexed}
use secure_keyboard.Evidence.HostModes.{new_path}
use secure_keyboard.Evidence.Artifacts.{
  Named, kind_text, kind_finding, artifact_findings, artifacts_findings, required_artifact_kinds,
  missing_kinds, validate_artifacts, listed_artifacts,
}

pub new_path_sound :
    (field detail : JsString) (referenced : List JsString) (o : Option JsString)
    → (new_path field detail referenced o).0 ≡ []
    → (path : JsString) × (o ≡ some path)
      × (includes referenced path ≡ false)
      × ((new_path field detail referenced o).1 ≡ path ∷ referenced)
unfolding report
new_path_sound field detail referenced none h = cc
new_path_sound field detail referenced (some path) h =
    elim (Bool-cases (includes referenced path)) [
      | inl e ↦ (let h' = rw e at h in cc)
      | inr e ↦ (path, refl, e, rw e refl)
    ]

kind_sound :
    (field : JsString) (kinds : List JsString) (o : Option JsString)
    → (kind_finding field kinds o).0 ≡ []
    → (kind : JsString) × (o ≡ some kind)
      × (includes kinds kind ≡ false)
      × ((kind_finding field kinds o).1 ≡ kind ∷ kinds)
unfolding report
kind_sound field kinds none h = cc
kind_sound field kinds (some kind) h = elim (Bool-cases (includes kinds kind)) [
  | inl e ↦ (let h' = rw e at h in cc)
  | inr e ↦ (kind, refl, e, rw e refl)
]

text_sound :
    (good : Bool) (t kind : JsString)
    → (if good then some t else none) ≡ some kind
    → (good ≡ true) × (t ≡ kind)
text_sound true t kind h = (refl, cc)
text_sound false t kind h = cc

kind_text_sound :
    (v : Value) (kind : JsString)
    → kind_text v ≡ some kind
    → (v ≡ string kind) × (is_non_empty_text kind ≡ true)
kind_text_sound (string t) kind h =
    let (good, same) = text_sound (is_non_empty_text t) t kind h in
    (ap string same, rw (← same) good)
kind_text_sound _ kind h = cc

-- What is named after an artifact with this path and kind.
abbrev pub accept : JsString → JsString → Named → Named
accept path kind s = record {
  referenced = path ∷ s.referenced;
  available = path ∷ s.available;
  kinds_by_path = (path, kind) ∷ s.kinds_by_path;
  kinds = kind ∷ s.kinds;
}

-- A safe path, a digest and a kind that is not empty; neither path nor kind was named before.
abbrev pub IsArtifact : Named → JsString → JsString → Value → Type 0
IsArtifact s path kind (object fs) =
    (safe_relative_path (get fs "path") ≡ some path)
    × (includes s.referenced path ≡ false)
    × (is_hex_digest 64 (get fs "sha256") ≡ true)
    × (get fs "kind" ≡ string kind)
    × (is_non_empty_text kind ≡ true)
    × (includes s.kinds kind ≡ false)
IsArtifact s path kind _ = ⊥

accept_state :
    (field : JsString) (s : Named) (fs : Fields) (path kind : JsString)
    → IsArtifact s path kind (object fs)
    → (artifact_findings true field s (object fs)).1 ≡ accept path kind s
unfolding artifact_findings
accept_state field s fs path kind (given, fresh, hex, spelled, good, unseen) =
    rw (given, spelled, fresh, good, unseen) refl

artifact_findings-IsArtifact :
    (field : JsString) (s : Named) (v : Value)
    → (artifact_findings true field s v).0 ≡ []
    → (path : JsString) × (kind : JsString) × IsArtifact s path kind v
      × ((artifact_findings true field s v).1 ≡ accept path kind s)
unfolding artifact_findings report
artifact_findings-IsArtifact field s (object fs) h =
    let ((new, hex), kinded) =
      (append_iff (append_iff (λ k. k, λ k. k) (report_iff _ _ (λ k. k, λ k. k)))
          (λ k. k, λ k. k)).0
        h in
    let (path, given, fresh, _) =
      new_path_sound _ _ s.referenced (safe_relative_path (get fs "path")) new in
    let (kind, worded, unseen, next) = kind_sound _ s.kinds (kind_text (get fs "kind")) kinded in
    let (spelled, good) = kind_text_sound (get fs "kind") kind worded in
    (
      path,
      kind,
      (given, fresh, hex, spelled, good, unseen),
      accept_state field s fs path kind (given, fresh, hex, spelled, good, unseen),
    )
artifact_findings-IsArtifact field s _ h = cc

-- The artifacts, one after the other, and what is named at the end.
abbrev pub AreArtifacts : Named → List Value → Named → Type 0
AreArtifacts s [] end_state = s ≡ end_state
AreArtifacts s (v ∷ vs) end_state =
    (path : JsString) × (kind : JsString) × IsArtifact s path kind v
    × AreArtifacts (accept path kind s) vs end_state

artifacts_sound :
    (index : ℕ) (s : Named) (vs : List Value)
    → (artifacts_findings true index s vs).0 ≡ []
    → AreArtifacts s vs (artifacts_findings true index s vs).1
unfolding artifacts_findings
artifacts_sound index s [] h = refl
artifacts_sound index s (v ∷ vs) h =
    let (here, rest) = (append_iff (λ k. k, λ k. k) (λ k. k, λ k. k)).0 h in
    let (path, kind, good, next) =
      artifact_findings-IsArtifact (indexed (js "artifacts") index) s v here in
    let more =
      artifacts_sound (index + 1) (artifact_findings true (indexed (js "artifacts") index) s v).1 vs
        rest in
    (path, kind, good, rw (← next) more)

missing_kinds_iff :
    (kinds required : List JsString)
    → (missing_kinds kinds required ≡ []) ↔ All (OneOf kinds) required
missing_kinds_iff kinds [] = (λ h. tt, λ h. refl)
missing_kinds_iff kinds (kind ∷ rest) =
    append_iff (report_iff _ _ (includes_iff kinds kind)) (missing_kinds_iff kinds rest)

-- At least one artifact, all accepted, and every required kind among them.
abbrev pub ArePhysicalArtifacts : Named → Value → Named → Type 0
ArePhysicalArtifacts s (array vs) end_state =
    (length (items vs) == 0 ≡ false)
    × AreArtifacts s (items vs) end_state
    × All (OneOf end_state.kinds) required_artifact_kinds
ArePhysicalArtifacts s _ end_state = ⊥

listed_sound :
    (s : Named) (vs : List Value)
    → (listed_artifacts true s vs).0 ≡ []
    → AreArtifacts s vs (listed_artifacts true s vs).1
      × All (OneOf (listed_artifacts true s vs).1.kinds) required_artifact_kinds
listed_sound s vs h =
    let (here, rest) = (append_iff (λ k. k, λ k. k) (λ k. k, λ k. k)).0 h in
    (artifacts_sound 0 s vs here, (missing_kinds_iff _ required_artifact_kinds).0 rest)

-- The artifacts of a physical device are without findings only if there is one, each is an object
-- with a safe path, a digest and a kind that is not empty, no path and no kind occurs twice, and
-- every required kind occurs.
pub validate_artifacts_sound :
    (v : Value) (s : Named)
    → (validate_artifacts true v s).0 ≡ []
    → ArePhysicalArtifacts s v (validate_artifacts true v s).1
unfolding validate_artifacts report
validate_artifacts_sound (array vs) s h = elim (Bool-cases (length (items vs) == 0)) [
  | inl e ↦ (let h' = rw e at h in cc)
  | inr e ↦
      (let h' = rw e at h in
        let (listed, all_kinds) = listed_sound s (items vs) h' in rw e (refl, listed, all_kinds))
]
validate_artifacts_sound _ s h = cc
