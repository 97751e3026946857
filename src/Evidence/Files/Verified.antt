-- ===== src/Evidence/Files/Verified.antt =====
-- What the verification of the files without findings says of each file.
use secure_keyboard.Prelude.{
  ℕ, ◌+◌, ◌≡◌, ◌⊎◌, refl, subst, Bool-cases, inl, inr, false, List, [], ◌∷◌, Option, none, some,
  All,
}
use secure_keyboard.Contracts.Reports.{empty_parts}
use secure_keyboard.Js.{JsString, Value, array, object, Fields, items, get}
use secure_keyboard.Js.Coerce.{text_of}
use secure_keyboard.Web.Base64.{Bytes}
use secure_keyboard.Evidence.Checks.{safe_relative_path, is_hex_text}
use secure_keyboard.Evidence.Files.{
  safe_digest, safe_content, FileSystem, Found, contained_file_path, found_digest, verify_digest,
  found_content, scan_evidence_file_content, verify_file, evidence_files, mode_files,
  artifact_files, each, each_of, verify_device_evidence_files,
}
use secure_keyboard.Evidence.Files.Contained.{IsContained, contained_file_path-IsContained}
use secure_keyboard.Evidence.Files.Content.{HasDigest, sized_sound, IsClean, content_sound}

module _ (files : FileSystem) where
  -- A file inside the root with the digest and a clean content.
  abbrev pub IsChecked : JsString → JsString → Value → Type 0
  IsChecked root path expected =
      (file : JsString) × (bytes : Bytes) × IsContained files root path file
      × HasDigest files file expected bytes
      × IsClean files bytes

  found_digest_empty :
      (field path : JsString) (expected : Value) (c : Found)
      → found_digest files field path expected c ≡ []
      → c.0 ≡ []
  found_digest_empty field path expected (found, none) h = h
  found_digest_empty field path expected (found, some file) h = (empty_parts found _ h).0

  found_digest-IsChecked :
      (root field path : JsString) (expected : Value)
      → found_digest files field path expected (contained_file_path files root field path) ≡ []
      → found_content files field path (contained_file_path files root field path) ≡ []
      → IsChecked root path expected
  found_digest-IsChecked root field path expected h k =
      let (file, contained, e) =
        contained_file_path-IsContained files root field path
          (found_digest_empty field path expected (contained_file_path files root field path) h) in
      let (bytes, digest) =
        sized_sound files field path expected file (files.size file) refl
          (subst (λ c. found_digest files field path expected c ≡ []) e h) in
      let clean =
        content_sound files field path file (files.size file) bytes digest.4
          (subst (λ c. found_content files field path c ≡ []) e k) in
      (file, bytes, contained, digest, clean)

  -- A path that is unsafe or a digest of another shape is left to the validation of the record.
  abbrev pub IsVerified : JsString → Value → Value → Type 0
  IsVerified root path expected =
      (safe_relative_path path ≡ none)
      ⊎ (is_hex_text 64 (text_of expected) ≡ false)
      ⊎ ((p : JsString) × (safe_relative_path path ≡ some p) × IsChecked root p expected)

  safe_sound :
      (root field : JsString) (expected : Value) (o : Option JsString)
      → safe_digest files root field expected o ≡ []
      → safe_content files root field o ≡ []
      → (o ≡ none)
        ⊎ (is_hex_text 64 (text_of expected) ≡ false)
        ⊎ ((p : JsString) × (o ≡ some p) × IsChecked root p expected)
  safe_sound root field expected none h k = inl refl
  safe_sound root field expected (some path) h k =
      elim (Bool-cases (is_hex_text 64 (text_of expected))) [
        | inl e ↦
            inr (inr (path, refl, found_digest-IsChecked root field path expected (rw e at h) k))
        | inr e ↦ inr (inl e)
      ]

  file_sound :
      (root field : JsString) (path expected : Value)
      → verify_file files root field path expected ≡ []
      → IsVerified root path expected
  unfolding verify_file verify_digest scan_evidence_file_content
  file_sound root field path expected h =
      let (first, second) = empty_parts _ _ h in
      safe_sound root field expected (safe_relative_path path) first second

  -- The file of an artifact, and the log of a host mode, where these are records.
  abbrev pub IsArtifactVerified : JsString → Value → Type 0
  IsArtifactVerified root (object fs) = IsVerified root (get fs "path") (get fs "sha256")
  IsArtifactVerified root _ = Unit

  abbrev pub IsLogVerified : JsString → Value → Type 0
  IsLogVerified root (object es) = IsVerified root (get es "logPath") (get es "logSha256")
  IsLogVerified root _ = Unit

  abbrev pub IsModeVerified : JsString → Value → Type 0
  IsModeVerified root (object fs) = IsLogVerified root (get fs "evidence")
  IsModeVerified root _ = Unit

  artifact_files_sound :
      (root : JsString) (index : ℕ) (v : Value)
      → artifact_files files root index v ≡ []
      → IsArtifactVerified root v
  artifact_files_sound root index (object fs) h =
      file_sound root _ (get fs "path") (get fs "sha256") h
  artifact_files_sound root index _ h = tt

  evidence_files_sound :
      (root : JsString) (index : ℕ) (v : Value)
      → evidence_files files root index v ≡ []
      → IsLogVerified root v
  evidence_files_sound root index (object es) h =
      file_sound root _ (get es "logPath") (get es "logSha256") h
  evidence_files_sound root index _ h = tt

  mode_files_sound :
      (root : JsString) (index : ℕ) (v : Value)
      → mode_files files root index v ≡ []
      → IsModeVerified root v
  mode_files_sound root index (object fs) h = evidence_files_sound root index (get fs "evidence") h
  mode_files_sound root index _ h = tt

-- The elements of a list, where it is one.
abbrev pub AllOf : (Value → Type 0) → Value → Type 0
AllOf P (array vs) = All P (items vs)
AllOf P _ = Unit

each_sound :
    (check : ℕ → Value → List JsString) (P : Value → Type 0)
    → ((index : ℕ) (v : Value) → check index v ≡ [] → P v)
    → (index : ℕ) (vs : List Value) → each check index vs ≡ []
    → All P vs
each_sound check P e index [] h = tt
each_sound check P e index (v ∷ vs) h =
    let (first, rest) = empty_parts _ _ h in
    (e index v first, each_sound check P e (index + 1) vs rest)

each_of_sound :
    (check : ℕ → Value → List JsString) (P : Value → Type 0)
    → ((index : ℕ) (v : Value) → check index v ≡ [] → P v)
    → (v : Value) → each_of check v ≡ []
    → AllOf P v
each_of_sound check P e (array vs) h = each_sound check P e 0 (items vs) h
each_of_sound check P e _ h = tt

-- When the verification of a record has no findings, the log of the record, of every host mode and
-- every artifact is verified: its path is unsafe or its digest has another shape, or the scan for
-- symbolic links from the real root finds none, and the real path is a file below the real root, or
-- the directory that holds the root, which the code lets pass; the file has 1 byte to 32 MiB and the
-- digest of the record, and it holds neither the test sentinel nor, unless it has a zero byte, a
-- secret field.
pub verify_device_evidence_files_sound :
    (files : FileSystem) (root : JsString) (fs : Fields)
    → verify_device_evidence_files files root (object fs) ≡ []
    → IsVerified files root (get fs "logPath") (get fs "logSha256")
      × AllOf (IsModeVerified files root) (get fs "hostModes")
      × AllOf (IsArtifactVerified files root) (get fs "artifacts")
unfolding verify_device_evidence_files
verify_device_evidence_files_sound files root fs h =
    let (rest, artifacts) = empty_parts _ _ h in
    let (log, modes) = empty_parts _ _ rest in
    (
      file_sound files root _ (get fs "logPath") (get fs "logSha256") log,
      each_of_sound _ _ (mode_files_sound files root) (get fs "hostModes") modes,
      each_of_sound _ _ (artifact_files_sound files root) (get fs "artifacts") artifacts,
    )
