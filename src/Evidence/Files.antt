-- ===== src/Evidence/Files.antt =====
-- `verifyDeviceEvidenceFiles`: the files that a record names.
--
-- The file system, the digest and the decoding of UTF-8 are parameters. A call of the file system
-- returns, or throws an error with a message.
pub mod Contained
pub mod Content
pub mod Verified
use secure_keyboard.Evidence.Text.{sep, split, starts_with}
use secure_keyboard.Prelude.{
  ℕ, zero, suc, ◌+◌, ◌*◌, ◌==◌, Bool, true, false, not, ◌&&◌, ◌||◌, List, [], ◌∷◌, ◌++◌, Option,
  none, some, ltb, length, any, map, if◌then◌else◌,
}
use secure_keyboard.Js.{
  JsString, js, text_eq, decimal, Value, array, object, string, Fields, items, get, is_text, Call,
  returns, throws,
}
use secure_keyboard.Js.Coerce.{text_of}
use secure_keyboard.Contracts.Checks.{report}
use secure_keyboard.Web.Base64.{Bytes}
use secure_keyboard.Evidence.Symlinks.{Result, done, failed, resolve, path_has_symlink_component}
use secure_keyboard.Evidence.Checks.{add_if, is_space, is_absolute, safe_relative_path, is_hex_text}
use secure_keyboard.Evidence.Secrets.{lower, contains}
use secure_keyboard.Evidence.TestCases.{indexed}

-- realpathSync, lstatSync, statSync(...).size, readFileSync, SHA-256 in hexadecimal, and
-- `bytes.toString("utf8")`; and the
-- working directory.
pub record FileSystem : Type 0 where
  pub real_path : JsString → Result JsString
  pub lstat : JsString → Call Bool
  pub size : JsString → Result ℕ
  pub read : JsString → Result Bytes
  pub sha256 : Bytes → JsString
  pub decode : Bytes → JsString
  pub cwd : JsString

abbrev pub max_file_bytes : ℕ
max_file_bytes = 32 * 1024 * 1024

-- The components of an absolute path; the root has none.
abbrev pub drop_first : List JsString → List JsString
drop_first [] = []
drop_first (w ∷ ws) = ws

abbrev pub components : JsString → List JsString
components t = if text_eq t (sep ∷ []) then [] else drop_first (split sep t)

-- `path.relative(from, to)`, as the number of ".." and the components after them.
unfoldable pub relative : List JsString → List JsString → ℕ × List JsString
relative [] to = (0, to)
relative (w ∷ ws) [] = (suc (length ws), [])
relative (w ∷ ws) (v ∷ vs) =
    let rest = relative ws vs in if text_eq w v then rest else (suc (length ws), v ∷ vs)

-- `relative === "" || relative.startsWith("../")`; it is never absolute.
abbrev pub is_refused : ℕ × List JsString → Bool
is_refused (zero, []) = true
is_refused (zero, w ∷ ws) = false
is_refused (suc zero, []) = false
is_refused (suc n, ws) = true

abbrev pub path_field : JsString → JsString
path_field field = field ++ js ".path"

-- A finding and no file, or the file.
abbrev pub Found : Type 0
Found = List JsString × Option JsString

abbrev pub no_file : JsString → JsString → Found
no_file field detail = (add_if true field detail, none)

abbrev pub inside : JsString → JsString → JsString → Found
inside field root file =
    if is_refused (relative (components root) (components file))
    then no_file (path_field field) (js "must resolve inside the evidence root")
    else ([], some file)

abbrev pub unresolved : JsString → JsString → JsString → Found
unresolved field path message =
    no_file (path_field field) (js "could not resolve " ++ path ++ js ": " ++ message)

abbrev pub resolved : JsString → JsString → JsString → Result JsString → Found
resolved field root path (failed message) = unresolved field path message
resolved field root path (done file) = inside field root file

-- A scan that has not ended would be no answer; it always ends.
abbrev pub is_linked : Option Bool → Bool
is_linked none = true
is_linked (some b) = b

abbrev pub sentinel : JsString
sentinel = js "secure-keypad-test-sentinel-7f2c4e"

-- The rest after a forbidden word: an optional quote, spaces, and a colon or an equals sign.
abbrev pub after_spaces : JsString → Bool
after_spaces [] = false
after_spaces (c ∷ t) =
    let rest = after_spaces t in if is_space c then rest else c == b':' || c == b'='

abbrev pub after_word : JsString → Bool
after_word [] = false
after_word (c ∷ t) = if c == b'"' || c == b'\'' then after_spaces t else after_spaces (c ∷ t)

-- The word at the start of the text, in any case, and then the rest.
unfoldable pub begins_field : JsString → JsString → Bool
begins_field [] t = after_word t
begins_field (x ∷ w) [] = false
begins_field (x ∷ w) (c ∷ t) = x == lower c && begins_field w t

abbrev pub field_words : List JsString
field_words =
    js "password"
    ∷ js "secret"
    ∷ js "passphrase"
    ∷ js "sentinel"
    ∷ js "plaintext"
    ∷ js "credentialvalue"
    ∷ js "credentialbytes"
    ∷ js "rawinput"
    ∷ js "inputvalue"
    ∷ js "inputtext"
    ∷ js "inputbytes"
    ∷ []

-- FORBIDDEN_TEXT_FIELDS
unfoldable pub has_secret_field : JsString → Bool
has_secret_field [] = false
has_secret_field (c ∷ t) = any (λ w. begins_field w (c ∷ t)) field_words || has_secret_field t

-- What the content of a file shows.
unfoldable pub content_findings : (Bytes → JsString) → JsString → Bytes → List JsString
content_findings decode field bytes =
    add_if (contains sentinel bytes) (field ++ js ".content")
      (js "contains the canonical test sentinel")
    ++ add_if (not (any (λ b. b == 0) bytes) && has_secret_field (decode bytes))
        (field ++ js ".content") (js "contains secret-bearing content fields")

abbrev pub too_large : JsString → List JsString
too_large field =
    add_if true (path_field field) (js "must not exceed " ++ decimal max_file_bytes ++ js " bytes")

abbrev pub unread : JsString → JsString → JsString → List JsString
unread field path message = add_if true field (js "could not read " ++ path ++ js ": " ++ message)

-- `forEach` with its index.
abbrev pub each : (ℕ → Value → List JsString) → ℕ → List Value → List JsString
each check index [] = []
each check index (v ∷ vs) = check index v ++ each check (index + 1) vs

abbrev pub each_of : (ℕ → Value → List JsString) → Value → List JsString
each_of check (array vs) = each check 0 (items vs)
each_of check _ = []

module _ (files : FileSystem) where
  -- `path.resolve(root, path)` for a safe path, which is not absolute.
  abbrev pub joined : JsString → JsString → JsString
  joined root path = resolve files.cwd (root ++ sep ∷ path)

  abbrev pub scanned : JsString → JsString → JsString → Result (Option Bool) → Found
  scanned field root path (failed message) = unresolved field path message
  scanned field root path (done answer) =
      if is_linked answer
      then no_file (path_field field) (js "must not resolve through symbolic links")
      else resolved field root path (files.real_path (joined root path))

  abbrev pub links_below : JsString → JsString → Result (Option Bool)
  links_below root path =
      path_has_symlink_component files.real_path files.lstat files.cwd root (joined root path)

  abbrev pub rooted : JsString → JsString → Result JsString → Found
  rooted field path (failed message) = unresolved field path message
  rooted field path (done root) = scanned field root path (links_below root path)

  -- `containedFilePath` for a safe path.
  unfoldable pub contained_file_path : JsString → JsString → JsString → Found
  contained_file_path root field path = rooted field path (files.real_path root)

  abbrev pub digest_of : JsString → JsString → Value → Result Bytes → List JsString
  digest_of field path expected (failed message) = unread (field ++ js "Path") path message
  digest_of field path expected (done bytes) =
      add_if (not (is_text expected (files.sha256 bytes))) (field ++ js "Sha256")
        (js "does not match " ++ path)

  abbrev pub sized_digest : JsString → JsString → Value → JsString → Result ℕ → List JsString
  sized_digest field path expected file (failed message) = unread (field ++ js "Path") path message
  sized_digest field path expected file (done n) =
      if n == 0
      then add_if true (path_field field) (js "must not be empty")
      else if ltb max_file_bytes n
      then too_large field
      else digest_of field path expected (files.read file)

  abbrev pub found_digest : JsString → JsString → Value → Found → List JsString
  found_digest field path expected (found, none) = found
  found_digest field path expected (found, some file) =
      found ++ sized_digest field path expected file (files.size file)

  abbrev pub safe_digest : JsString → JsString → Value → Option JsString → List JsString
  safe_digest root field expected none = []
  safe_digest root field expected (some path) =
      if not (is_hex_text 64 (text_of expected))
      then []
      else found_digest field path expected (contained_file_path root field path)

  -- `verifyDigest`
  unfoldable pub verify_digest : JsString → JsString → Value → Value → List JsString
  verify_digest root field path expected = safe_digest root field expected (safe_relative_path path)

  abbrev pub content_of : JsString → JsString → Result Bytes → List JsString
  content_of field path (failed message) = unread (path_field field) path message
  content_of field path (done bytes) = content_findings files.decode field bytes

  abbrev pub sized_content : JsString → JsString → JsString → Result ℕ → List JsString
  sized_content field path file (failed message) = unread (path_field field) path message
  sized_content field path file (done n) =
      if ltb max_file_bytes n then too_large field else content_of field path (files.read file)

  abbrev pub found_content : JsString → JsString → Found → List JsString
  found_content field path (found, none) = found
  found_content field path (found, some file) =
      found ++ sized_content field path file (files.size file)

  abbrev pub safe_content : JsString → JsString → Option JsString → List JsString
  safe_content root field none = []
  safe_content root field (some path) =
      found_content field path (contained_file_path root field path)

  -- `scanEvidenceFileContent`
  unfoldable pub scan_evidence_file_content : JsString → JsString → Value → List JsString
  scan_evidence_file_content root field path = safe_content root field (safe_relative_path path)

  -- The two checks of one file.
  unfoldable pub verify_file : JsString → JsString → Value → Value → List JsString
  verify_file root field path expected =
      verify_digest root field path expected ++ scan_evidence_file_content root field path

  abbrev pub evidence_files : JsString → ℕ → Value → List JsString
  evidence_files root index (object es) =
      verify_file root (indexed (js "hostModes") index ++ js ".evidence.log") (get es "logPath")
        (get es "logSha256")
  evidence_files root index _ = []

  abbrev pub mode_files : JsString → ℕ → Value → List JsString
  mode_files root index (object fs) = evidence_files root index (get fs "evidence")
  mode_files root index _ = []

  abbrev pub artifact_files : JsString → ℕ → Value → List JsString
  artifact_files root index (object fs) =
      verify_file root (indexed (js "artifacts") index) (get fs "path") (get fs "sha256")
  artifact_files root index _ = []

  unfoldable pub verify_device_evidence_files : JsString → Value → List JsString
  verify_device_evidence_files root (object fs) =
      verify_file root (js "log") (get fs "logPath") (get fs "logSha256")
      ++ each_of (mode_files root) (get fs "hostModes")
      ++ each_of (artifact_files root) (get fs "artifacts")
  verify_device_evidence_files root _ =
      js "root: file verification requires an evidence object" ∷ []
