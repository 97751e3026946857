-- ===== src/Evidence/Files/Content.antt =====
-- What is known of a file whose digest and content have no findings.
use secure_keyboard.Prelude.{
  ℕ, ◌≤◌, ◌==◌, ◌≡◌, refl, arith, Bool-cases, inl, inr, false, not, ◌&&◌, [], ltb, any,
}
use secure_keyboard.Js.{JsString, Value}
use secure_keyboard.Contracts.Reports.{empty_parts, report_iff}
use secure_keyboard.Contracts.Layout.Shape.{IsText}
use secure_keyboard.Contracts.Layout.Parts.{is_text_iff}
use secure_keyboard.Contracts.Checks.{report}
use secure_keyboard.Web.Base64.{Bytes}
use secure_keyboard.Evidence.Secrets.{contains}
use secure_keyboard.Evidence.Secrets.Absent.{add_if_iff}
use secure_keyboard.Evidence.Files.{
  FileSystem, max_file_bytes, sentinel, has_secret_field, content_findings, digest_of, sized_digest,
  sized_content,
}
use secure_keyboard.Evidence.Symlinks.{Result, done, failed}

module _ (files : FileSystem) where
  -- The file is read whole, is not empty or too large, and has the digest.
  abbrev pub HasDigest : JsString → Value → Bytes → Type 0
  HasDigest file expected bytes =
      (n : ℕ) × (files.size file ≡ done n)
      × (1 ≤ n)
      × (n ≤ max_file_bytes)
      × (files.read file ≡ done bytes)
      × IsText (files.sha256 bytes) expected

  digest_sound :
      (field path : JsString) (expected : Value) (r : Result Bytes)
      → digest_of files field path expected r ≡ []
      → (bytes : Bytes) × (r ≡ done bytes) × IsText (files.sha256 bytes) expected
  unfolding report
  digest_sound field path expected (failed message) h = cc
  digest_sound field path expected (done bytes) h =
      (bytes, refl, (report_iff _ _ (is_text_iff expected (files.sha256 bytes))).0 h)

  pub sized_sound :
      (field path : JsString) (expected : Value) (file : JsString) (r : Result ℕ)
      → files.size file ≡ r
      → sized_digest files field path expected file r ≡ []
      → (bytes : Bytes) × HasDigest file expected bytes
  unfolding report
  sized_sound field path expected file (failed message) e h = cc
  sized_sound field path expected file (done n) e h = elim (Bool-cases (n == 0)) [
    | inl z ↦ (let h' = rw z at h in cc)
    | inr z ↦ elim (Bool-cases (ltb max_file_bytes n)) [
      | inl l ↦ (let h' = rw (z, l) at h in cc)
      | inr l ↦
          (let h' = rw (z, l) at h in
            let (bytes, given, same) = digest_sound field path expected (files.read file) h' in
            (bytes, (n, e, ground (arith, z), ground (arith, l), given, same)))
    ]
  ]

  -- No test sentinel, and no secret field unless the file has a zero byte.
  abbrev pub IsClean : Bytes → Type 0
  IsClean bytes =
      (contains sentinel bytes ≡ false)
      × ((not (any (λ b. b == 0) bytes) && has_secret_field (files.decode bytes)) ≡ false)

  content_findings-IsClean :
      (field : JsString) (bytes : Bytes)
      → content_findings files.decode field bytes ≡ []
      → IsClean bytes
  unfolding content_findings
  content_findings-IsClean field bytes h =
      let (first, second) = empty_parts _ _ h in
      (
        (add_if_iff (contains sentinel bytes) _ _).0 first,
        (add_if_iff (not (any (λ b. b == 0) bytes) && has_secret_field (files.decode bytes)) _ _).0
            second,
      )

  pub content_sound :
      (field path file : JsString) (r : Result ℕ) (bytes : Bytes)
      → files.read file ≡ done bytes
      → sized_content files field path file r ≡ []
      → IsClean bytes
  unfolding report
  content_sound field path file (failed message) bytes e h = cc
  content_sound field path file (done n) bytes e h = elim (Bool-cases (ltb max_file_bytes n)) [
    | inl l ↦ (let h' = rw l at h in cc)
    | inr l ↦ content_findings-IsClean field bytes (rw (l, e) at h)
  ]
