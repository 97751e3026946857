-- ===== src/Evidence/Tests/Files.antt =====
-- Concrete files of a device record, and the theorem about them at a concrete input.
use secure_keyboard.Prelude.{◌≡◌, refl, true, false, [], ◌∷◌}
use secure_keyboard.Evidence.Text.{split}
use secure_keyboard.Js.{js, string, array, cons, nil, Fields, get, end, field, returns}
use secure_keyboard.Evidence.Symlinks.{push_all, resolve, dirname, path_has_symlink_component}
use secure_keyboard.Evidence.Files.{
  FileSystem, relative, begins_field, has_secret_field, content_findings, contained_file_path,
  verify_digest, scan_evidence_file_content, verify_file, verify_device_evidence_files,
}
use secure_keyboard.Evidence.Symlinks.{done}
use secure_keyboard.Evidence.Tests.{digest, artifact, host_mode, checks}
use secure_keyboard.Evidence.Files.Verified.{
  IsVerified, IsArtifactVerified, IsModeVerified, AllOf, verify_device_evidence_files_sound,
}

-- A file system in which every path is a small file.
abbrev small_files : FileSystem
small_files = record {
  real_path = λ t. done t;
  lstat = λ t. returns false;
  size = λ t. done 2;
  read = λ t. done (123 ∷ 125 ∷ []);
  sha256 = λ bytes. js "0123456789abcdef0123456789abcdef0123456789abcdef0123456789abcdef";
  decode = λ bytes. bytes;
  cwd = js "/";
}

abbrev small_record : Fields
small_record = field (js "logPath") (string (js "run.log")) (
    field (js "logSha256") digest (
      field (js "hostModes") (array (cons (host_mode (js "flutter")) nil))
        (field (js "artifacts") (array (cons (artifact (js "native-checksum")) nil)) end)))

file_checks : Unit {0}
unfolding checks dirname split push_all resolve path_has_symlink_component relative begins_field
    has_secret_field content_findings contained_file_path verify_digest scan_evidence_file_content
    verify_file verify_device_evidence_files
file_checks = tt

verify_device_evidence_files_sound_example :
    IsVerified small_files (js "/e") (get small_record "logPath") (get small_record "logSha256")
    × AllOf (IsModeVerified small_files (js "/e")) (get small_record "hostModes")
    × AllOf (IsArtifactVerified small_files (js "/e")) (get small_record "artifacts")
unfolding file_checks
verify_device_evidence_files_sound_example =
    verify_device_evidence_files_sound small_files (js "/e") small_record refl

secret_contents :
    (has_secret_field (js "ok, \"Password\": 1") ≡ true)
    × (has_secret_field (js "secrets: none") ≡ false)
    × (has_secret_field (js "inputText  =1") ≡ true)
unfolding file_checks
secret_contents = (refl, refl, refl)
