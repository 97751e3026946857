-- ===== src/Evidence/TestCases/Passed.antt =====
-- When the test cases of a record are accepted, and the evidence for each.
use secure_keyboard.Prelude.{
  ℕ, ◌+◌, ◌≡◌, ◌↔◌, refl, Bool, Bool-cases, inl, inr, true, false, List, [], ◌∷◌, ◌++◌, Option,
  none, some, length, any, All, if◌then◌else◌,
}
use secure_keyboard.Js.{JsString, js, includes, Value, array, object, Fields, items, keys, property}
use secure_keyboard.Contracts.Reports.{append_iff, report_iff, OneOf, includes_iff}
use secure_keyboard.Contracts.Layout.Shape.{IsText}
use secure_keyboard.Contracts.Layout.Parts.{is_text_iff}
use secure_keyboard.Contracts.Checks.{report}
use secure_keyboard.Evidence.Checks.{add_if, safe_relative_path}
use secure_keyboard.Evidence.TestCases.{
  Entries, test_findings, validate_tests, required_kinds, path_finding, path_findings, has_kind,
  kind_findings, is_path_count, entry_findings, foreign_keys, entries_findings,
  validate_test_evidence,
}

-- Every one of these test cases is the word pass.
abbrev pub ArePassed : Fields → List JsString → Type 0
ArePassed fs names = All (λ name. IsText (js "pass") (property fs name)) names

test_findings_iff :
    (fs : Fields) (names : List JsString) → (test_findings fs names ≡ []) ↔ ArePassed fs names
test_findings_iff fs [] = (λ h. tt, λ h. refl)
test_findings_iff fs (name ∷ names) =
    append_iff (report_iff _ _ (is_text_iff (property fs name) (js "pass")))
      (test_findings_iff fs names)

abbrev pub HasPassed : List JsString → Value → Type 0
HasPassed names (object fs) = ArePassed fs names
HasPassed names _ = ⊥

pub validate_tests_iff :
    (v : Value) (names : List JsString) → (validate_tests v names ≡ []) ↔ HasPassed names v
unfolding validate_tests report
validate_tests_iff (object fs) names = test_findings_iff fs names
validate_tests_iff _ names = (λ h. cc, λ h. elim h [ ])

-- Safe paths, each available and none twice.
abbrev pub ArePaths : List JsString → List JsString → List Value → Type 0
ArePaths seen available [] = Unit
ArePaths seen available (v ∷ vs) =
    (path : JsString) × (safe_relative_path v ≡ some path)
    × (includes seen path ≡ false)
    × OneOf available path
    × ArePaths (path ∷ seen) available vs

some_iff : (a b : JsString) → (some a ≡ some b) ↔ (a ≡ b)
some_iff a b = (λ h. cc, λ h. cc)

-- One path and the rest of the list.
abbrev IsNewPath :
    List JsString → List JsString → Option JsString → (List JsString → List JsString) → Type 0
IsNewPath seen available o rest =
    (path : JsString) × (o ≡ some path)
    × (includes seen path ≡ false)
    × OneOf available path
    × (rest (path ∷ seen) ≡ [])

new_sound :
    (field : JsString) (index : ℕ) (seen available : List JsString) (o : Option JsString)
    (rest : List JsString → List JsString)
    → (path_finding field index seen available o).0
        ++ rest (path_finding field index seen available o).1
      ≡ []
    → IsNewPath seen available o rest
unfolding report
new_sound field index seen available none rest h = cc
new_sound field index seen available (some path) rest h = elim (Bool-cases (includes seen path)) [
  | inl e ↦ (let h' = rw e at h in cc)
  | inr e ↦
      (let h' = rw e at h in
        let (found, more) =
          (append_iff (report_iff _ _ (includes_iff available path)) (λ k. k, λ k. k)).0 h' in
        (path, refl, e, found, more))
]

new_complete :
    (field : JsString) (index : ℕ) (seen available : List JsString) (o : Option JsString)
    (rest : List JsString → List JsString)
    → IsNewPath seen available o rest
    → (path_finding field index seen available o).0
        ++ rest (path_finding field index seen available o).1
      ≡ []
new_complete field index seen available o rest (path, given, new, found, more) =
    rw (given, new)
      ((append_iff (report_iff _ _ (includes_iff available path)) (λ k. k, λ k. k)).1 (found, more))

pub path_findings_iff :
    (field : JsString) (index : ℕ) (seen available : List JsString) (vs : List Value)
    → (path_findings field index seen available vs ≡ []) ↔ ArePaths seen available vs
unfolding path_findings
path_findings_iff field index seen available [] = (λ h. tt, λ h. refl)
path_findings_iff field index seen available (v ∷ vs) = (
  λ h.
      let (path, given, new, found, more) =
        new_sound field index seen available (safe_relative_path v)
          (λ s. path_findings field (index + 1) s available vs) h in
      (
        path,
        given,
        new,
        found,
        (path_findings_iff field (index + 1) (path ∷ seen) available vs).0 more,
      ),
  λ (path, given, new, found, more).
      new_complete field index seen available (safe_relative_path v)
        (λ s. path_findings field (index + 1) s available vs)
        (
          path,
          given,
          new,
          found,
          (path_findings_iff field (index + 1) (path ∷ seen) available vs).1 more,
        ),
)

-- One of the paths has an artifact of the kind.
abbrev pub HasKind : Entries → List Value → JsString → Type 0
HasKind kinds paths kind = any (has_kind kinds kind) paths ≡ true

kind_findings_iff :
    (field : JsString) (kinds : Entries) (paths : List Value) (required : List JsString)
    → (kind_findings field kinds paths required ≡ []) ↔ All (HasKind kinds paths) required
kind_findings_iff field kinds paths [] = (λ h. tt, λ h. refl)
kind_findings_iff field kinds paths (kind ∷ rest) =
    append_iff (report_iff _ _ (λ h. h, λ h. h)) (kind_findings_iff field kinds paths rest)

-- One to eight such paths, which have the kinds that the test case needs.
abbrev pub IsEntry : List JsString → Entries → JsString → Value → Type 0
IsEntry available kinds name (array vs) =
    (is_path_count (length (items vs)) ≡ true)
    × (ArePaths [] available (items vs) × All (HasKind kinds (items vs)) (required_kinds name))
IsEntry available kinds name _ = ⊥

counted_iff :
    (good : Bool) (xs : List JsString) (path detail : JsString) {P : Type 0}
    → ((xs ≡ []) ↔ P)
    → ((if good then xs else add_if true path detail) ≡ []) ↔ ((good ≡ true) × P)
unfolding report
counted_iff true xs path detail e = (λ h. (refl, e.0 h), λ p. e.1 p.1)
counted_iff false xs path detail e = (λ h. cc, λ p. cc (p.0))

entry_findings_iff :
    (available : List JsString) (kinds : Entries) (name : JsString) (v : Value)
    → (entry_findings available kinds name v ≡ []) ↔ IsEntry available kinds name v
unfolding report
entry_findings_iff available kinds name (array vs) =
    counted_iff (is_path_count (length (items vs))) _ _ _ (
      append_iff (path_findings_iff _ 0 [] available (items vs))
        (kind_findings_iff _ kinds (items vs) (required_kinds name)))
entry_findings_iff available kinds name _ = (λ h. cc, λ h. elim h [ ])

entries_findings_iff :
    (available : List JsString) (kinds : Entries) (fs : Fields) (names : List JsString)
    → (entries_findings available kinds fs names ≡ [])
      ↔ All (λ name. IsEntry available kinds name (property fs name)) names
entries_findings_iff available kinds fs [] = (λ h. tt, λ h. refl)
entries_findings_iff available kinds fs (name ∷ names) =
    append_iff (entry_findings_iff available kinds name (property fs name))
      (entries_findings_iff available kinds fs names)

pub foreign_keys_iff :
    (path detail : JsString) (allowed names : List JsString)
    → (foreign_keys path detail allowed names ≡ []) ↔ All (OneOf allowed) names
foreign_keys_iff path detail allowed [] = (λ h. tt, λ h. refl)
foreign_keys_iff path detail allowed (key ∷ rest) =
    append_iff (report_iff _ _ (includes_iff allowed key))
      (foreign_keys_iff path detail allowed rest)

abbrev pub IsTestEvidence : List JsString → List JsString → Entries → Value → Type 0
IsTestEvidence required available kinds (object fs) =
    All (OneOf required) (keys fs)
    × All (λ name. IsEntry available kinds name (property fs name)) required
IsTestEvidence required available kinds _ = ⊥

-- Test evidence is free of findings exactly when it is an object without other test cases, and each
-- required test case has one to eight safe paths, none twice and each an available one, with an
-- artifact of each kind that the test case needs.
pub validate_test_evidence_iff :
    (v : Value) (required available : List JsString) (kinds : Entries)
    → (validate_test_evidence v required available kinds ≡ [])
      ↔ IsTestEvidence required available kinds v
unfolding validate_test_evidence report
validate_test_evidence_iff (object fs) required available kinds =
    append_iff (foreign_keys_iff _ _ required (keys fs))
      (entries_findings_iff available kinds fs required)
validate_test_evidence_iff _ required available kinds = (λ h. cc, λ h. elim h [ ])
