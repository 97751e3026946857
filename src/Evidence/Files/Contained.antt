-- ===== src/Evidence/Files/Contained.antt =====
-- Where the real path of a file lies that has no findings.
use secure_keyboard.Prelude.{
  ℕ, zero, suc, ◌≡◌, ◌⊎◌, refl, Bool, Bool-cases, inl, inr, true, false, List, [], ◌∷◌, ◌++◌,
  Option, none, some,
}
use secure_keyboard.Js.{JsString, text_eq, text_eq_iff}
use secure_keyboard.Contracts.Checks.{report}
use secure_keyboard.Evidence.Text.{sep}
use secure_keyboard.Evidence.Symlinks.{Result, done, failed, resolve, path_has_symlink_component}
use secure_keyboard.Evidence.Files.{
  FileSystem, components, relative, is_refused, inside, resolved, joined, links_below, scanned,
  rooted, contained_file_path,
}

-- The first path, given by its components, lies below the second; or it is the directory that holds
-- the second, whose relative path is "..".
abbrev pub IsInside : List JsString → List JsString → Type 0
IsInside file root =
    ((w : JsString) × (ws : List JsString) × (file ≡ root ++ w ∷ ws))
    ⊎ ((w : JsString) × (root ≡ file ++ w ∷ []))

relative_up :
    (from to : List JsString) → relative from to ≡ (1, []) → (w : JsString) × (from ≡ to ++ w ∷ [])
unfolding relative
relative_up [] to h = cc
relative_up (w ∷ []) [] h = (w, refl)
relative_up (w ∷ v ∷ ws) [] h = cc
relative_up (w ∷ ws) (v ∷ vs) h = elim (Bool-cases (text_eq w v)) [
  | inl e ↦ (let (x, k) = relative_up ws vs (rw e at h) in (x, cc ((text_eq_iff w v).0 e, k)))
  | inr e ↦ (let h' = rw e at h in cc)
]

relative_down :
    (from to : List JsString) (w : JsString) (ws : List JsString)
    → relative from to ≡ (0, w ∷ ws)
    → to ≡ from ++ w ∷ ws
unfolding relative
relative_down [] to w ws h = cc
relative_down (x ∷ xs) [] w ws h = cc
relative_down (x ∷ xs) (v ∷ vs) w ws h = elim (Bool-cases (text_eq x v)) [
  | inl e ↦ (let k = relative_down xs vs w ws (rw e at h) in cc ((text_eq_iff x v).0 e, k))
  | inr e ↦ (let h' = rw e at h in cc)
]

refused_by :
    (from to : List JsString) (r : ℕ × List JsString)
    → relative from to ≡ r
    → is_refused r ≡ false
    → IsInside to from
refused_by from to (zero, []) e h = cc
refused_by from to (zero, w ∷ ws) e h = inl (w, ws, relative_down from to w ws e)
refused_by from to (suc zero, []) e h = inr (relative_up from to e)
refused_by from to (suc zero, w ∷ ws) e h = cc
refused_by from to (suc (suc n), ws) e h = cc

not_refused-IsInside :
    (from to : List JsString) → is_refused (relative from to) ≡ false → IsInside to from
not_refused-IsInside from to h = refused_by from to (relative from to) refl h

module _ (files : FileSystem) where
  -- The scan from the real root finds no symbolic link on the path; and the real path, which is the
  -- file, lies below the real root or is the directory that holds it.
  abbrev pub IsContained : JsString → JsString → JsString → Type 0
  IsContained root path file =
      (real : JsString) × (files.real_path root ≡ done real)
      × (path_has_symlink_component files.real_path files.lstat files.cwd real
            (resolve files.cwd (real ++ sep ∷ path))
          ≡ done (some false))
      × (files.real_path (resolve files.cwd (real ++ sep ∷ path)) ≡ done file)
      × IsInside (components file) (components real)

  inside_sound :
      (field root file : JsString)
      → (inside field root file).0 ≡ []
      → (is_refused (relative (components root) (components file)) ≡ false)
        × (inside field root file ≡ ([], some file))
  unfolding report
  inside_sound field root file h =
      elim (Bool-cases (is_refused (relative (components root) (components file)))) [
        | inl e ↦ (let h' = rw e at h in cc)
        | inr e ↦ (e, rw e refl)
      ]

  resolved_sound :
      (field root path : JsString) (r : Result JsString)
      → (resolved field root path r).0 ≡ []
      → (file : JsString) × (r ≡ done file)
        × (is_refused (relative (components root) (components file)) ≡ false)
        × (resolved field root path r ≡ ([], some file))
  unfolding report
  resolved_sound field root path (failed message) h = cc
  resolved_sound field root path (done file) h =
      let (within, e) = inside_sound field root file h in (file, refl, within, e)

  scanned_sound :
      (field root path : JsString) (r : Result (Option Bool))
      → (scanned files field root path r).0 ≡ []
      → (file : JsString) × (r ≡ done (some false))
        × (files.real_path (joined files root path) ≡ done file)
        × IsInside (components file) (components root)
        × (scanned files field root path r ≡ ([], some file))
  unfolding report
  scanned_sound field root path (failed message) h = cc
  scanned_sound field root path (done none) h = cc
  scanned_sound field root path (done (some true)) h = cc
  scanned_sound field root path (done (some false)) h =
      let (file, given, within, found) =
        resolved_sound field root path (files.real_path (joined files root path)) h in
      (file, refl, given, not_refused-IsInside (components root) (components file) within, found)

  rooted_sound :
      (root field path : JsString) (r : Result JsString)
      → files.real_path root ≡ r
      → (rooted files field path r).0 ≡ []
      → (file : JsString) × IsContained root path file
        × (rooted files field path r ≡ ([], some file))
  unfolding report
  rooted_sound root field path (failed message) e h = cc
  rooted_sound root field path (done real) e h =
      let (file, plain, found, within, same) =
        scanned_sound field real path (links_below files real path) h in
      (file, (real, e, plain, found, within), same)

  pub contained_file_path-IsContained :
      (root field path : JsString)
      → (contained_file_path files root field path).0 ≡ []
      → (file : JsString) × IsContained root path file
        × (contained_file_path files root field path ≡ ([], some file))
  unfolding contained_file_path
  contained_file_path-IsContained root field path h =
      rooted_sound root field path (files.real_path root) refl h
