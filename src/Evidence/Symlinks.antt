-- ===== src/Evidence/Symlinks.antt =====
-- scripts/evidence-path.mjs: `pathHasSymlinkComponent`.
--
-- What the file system says of a path is a parameter: `real_path` stands for `realpathSync`, which
-- may throw an error with a message, and `lstat` says whether the path is a symbolic link, and throws
-- where there is no such file. So is the working directory, an absolute path. The paths are those of
-- POSIX.
pub mod Resolve
pub mod Scan
use secure_keyboard.Evidence.Text.{sep, split, starts_with}
use secure_keyboard.Prelude.{
  ℕ, zero, suc, Bool, true, false, not, ◌&&◌, ◌||◌, ◌==◌, List, [], ◌∷◌, ◌++◌, Option, none, some,
  length, if◌then◌else◌,
}
use secure_keyboard.Js.{JsString, js, text_eq, Call, returns, throws}

abbrev pub extend : ℕ → Option JsString → Option JsString
extend c none = if c == sep then some [] else none
extend c (some t) = some (c ∷ t)

-- What comes before the last separator, if there is one.
unfoldable pub before_last : JsString → Option JsString
before_last [] = none
before_last (c ∷ t) = extend c (before_last t)

abbrev pub parent_of : Option JsString → JsString
parent_of none = b'.' ∷ []
parent_of (some []) = sep ∷ []
parent_of (some (c ∷ t)) = c ∷ t

-- `path.dirname`
unfoldable pub dirname : JsString → JsString
unfolding before_last
dirname t = parent_of (before_last t)

-- A call that throws is passed over.
abbrev pub is_link : Call Bool → Bool
is_link throws = false
is_link (returns b) = b

-- A call of the file system.
pub data Result {ℓ} (A : Type ℓ) : Type ℓ where
  done : A → Result A
  failed : JsString → Result A

-- `path.isAbsolute`
abbrev pub is_absolute : JsString → Bool
is_absolute [] = false
is_absolute (c ∷ t) = c == sep

abbrev pub parent : List JsString → List JsString
parent [] = []
parent (c ∷ cs) = cs

-- A component of a path, onto those before it, the deepest first.
abbrev pub push : JsString → List JsString → List JsString
push w cs =
    if text_eq w [] || text_eq w (js ".")
    then cs
    else if text_eq w (js "..")
    then parent cs
    else w ∷ cs

unfoldable pub push_all : List JsString → List JsString → List JsString
push_all [] cs = cs
push_all (w ∷ ws) cs = push_all ws (push w cs)

-- The path below the root with these components, the deepest first.
abbrev pub path_of : JsString → List JsString → JsString
path_of root [] = root
path_of root (c ∷ cs) = path_of root cs ++ (sep ∷ c)

-- The absolute path with these components.
abbrev pub absolute : List JsString → JsString
absolute [] = sep ∷ []
absolute (c ∷ cs) = path_of [] (c ∷ cs)

-- `path.resolve` in a working directory.
unfoldable pub resolve : JsString → JsString → JsString
unfolding split push_all
resolve cwd path =
    absolute (push_all (split sep (if is_absolute path then path else cwd ++ sep ∷ path)) [])

module _ (real_path : JsString → Result JsString) (lstat : JsString → Call Bool)
    (cwd : JsString) where
  -- The loop; none stands for a loop that has not ended within the fuel.
  unfoldable pub scan_from : JsString → ℕ → JsString → Option Bool
  scan_from root zero cursor = none
  scan_from root (suc fuel) cursor =
      let rest = scan_from root fuel (dirname cursor) in
      if not (text_eq cursor root) && starts_with (root ++ sep ∷ []) cursor
      then (if is_link (lstat cursor) then some true else rest)
      else some false

  -- The fuel is the length of the path.
  abbrev pub scan : Result JsString → JsString → Result (Option Bool)
  scan (failed message) cursor = failed message
  scan (done root) cursor = done (scan_from root (suc (length cursor)) cursor)

  unfoldable pub path_has_symlink_component : JsString → JsString → Result (Option Bool)
  unfolding scan_from resolve
  path_has_symlink_component root path = scan (real_path root) (resolve cwd path)
