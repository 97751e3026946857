-- ===== src/Evidence/Artifacts.antt =====
-- The loop of `validateDeviceEvidence` over the artifacts.
pub mod Accepted
use secure_keyboard.Prelude.{
  ℕ, zero, suc, ◌+◌, ◌==◌, Bool, true, false, not, ◌&&◌, ◌||◌, List, [], ◌∷◌, ◌++◌, Option, none,
  some, length, if◌then◌else◌,
}
use secure_keyboard.Js.{
  JsString, js, text_eq, includes, Value, array, object, string, Fields, items, get,
}
use secure_keyboard.Contracts.Checks.{report}
use secure_keyboard.Evidence.Checks.{
  add_if, non_empty_string, is_non_empty_text, safe_relative_path,
}
use secure_keyboard.Evidence.TestCases.{Entries, indexed}
use secure_keyboard.Evidence.HostModes.{new_path, digest_finding}

-- `referencedPaths`, `availableEvidencePaths`, `artifactKindsByPath` and `artifactKinds`.
pub record Named : Type 0 where
  pub referenced : List JsString
  pub available : List JsString
  pub kinds_by_path : Entries
  pub kinds : List JsString

abbrev pub canonical_path_detail : JsString
canonical_path_detail =
    js "must be a canonical relative path without empty, dot, or parent components"

-- The path is named, and available where it is new.
abbrev pub name_path : Option JsString → Named → Named
name_path none s = s
name_path (some path) s =
    if includes s.referenced path
    then s
    else record s { referenced = path ∷ s.referenced; available = path ∷ s.available }

abbrev pub name_kind : Option JsString → Value → Named → Named
name_kind (some path) (string kind) s =
    if is_non_empty_text kind
    then record s { kinds_by_path = (path, kind) ∷ s.kinds_by_path }
    else s
name_kind _ _ s = s

-- The kind, where it is a text that is not empty.
abbrev pub kind_text : Value → Option JsString
kind_text (string kind) = if is_non_empty_text kind then some kind else none
kind_text _ = none

-- The kind of an artifact of a physical device: the findings, and the kinds seen so far.
abbrev pub kind_finding : JsString → List JsString → Option JsString → List JsString × List JsString
kind_finding field kinds none =
    (add_if true field (js "must be a non-empty artifact kind for a physical-device gate"), kinds)
kind_finding field kinds (some kind) =
    if includes kinds kind
    then (add_if true field (js "must be unique for a physical-device gate"), kinds)
    else ([], kind ∷ kinds)

unfoldable pub artifact_findings : Bool → JsString → Named → Value → List JsString × Named
artifact_findings physical field s (object fs) =
    let path = safe_relative_path (get fs "path") in
    let (found, _) = new_path (field ++ js ".path") canonical_path_detail s.referenced path in
    let (kind_found, kinds') =
      if physical
      then kind_finding (field ++ js ".kind") s.kinds (kind_text (get fs "kind"))
      else ([], s.kinds) in
    (
      found ++ digest_finding (field ++ js ".sha256") (get fs "sha256") ++ kind_found,
      record (name_kind path (get fs "kind") (name_path path s)) { kinds = kinds' },
    )
artifact_findings physical field s _ = (add_if true field (js "must be an object"), s)

unfoldable pub artifacts_findings : Bool → ℕ → Named → List Value → List JsString × Named
artifacts_findings physical index s [] = ([], s)
artifacts_findings physical index s (v ∷ vs) =
    let (found, s') = artifact_findings physical (indexed (js "artifacts") index) s v in
    let (more, s'') = artifacts_findings physical (index + 1) s' vs in (found ++ more, s'')

abbrev pub required_artifact_kinds : List JsString
required_artifact_kinds =
    js "screen-capture"
    ∷ js "background-snapshot"
    ∷ js "accessibility-report"
    ∷ js "autofill-clipboard-report"
    ∷ js "crash-report-review"
    ∷ js "platform-security-patch"
    ∷ js "native-checksum"
    ∷ []

abbrev pub missing_kinds : List JsString → List JsString → List JsString
missing_kinds kinds [] = []
missing_kinds kinds (kind ∷ rest) =
    add_if (not (includes kinds kind)) (js "artifacts")
      (js "must contain physical-device artifact kind " ++ kind)
    ++ missing_kinds kinds rest

abbrev pub no_artifacts : Named → List JsString × Named
no_artifacts s = (add_if true (js "artifacts") (js "must contain at least one hashed artifact"), s)

abbrev pub listed_artifacts : Bool → Named → List Value → List JsString × Named
listed_artifacts physical s vs =
    let (found, s') = artifacts_findings physical 0 s vs in
    (found ++ (if physical then missing_kinds s'.kinds required_artifact_kinds else []), s')

unfoldable pub validate_artifacts : Bool → Value → Named → List JsString × Named
unfolding artifacts_findings
validate_artifacts physical (array vs) s =
    if length (items vs) == 0 then no_artifacts s else listed_artifacts physical s (items vs)
validate_artifacts physical _ s = no_artifacts s
