-- ===== src/Evidence/Symlinks/Scan.antt =====
-- The scan of a path ends, and which symbolic links it finds.
use secure_keyboard.Evidence.Text.{sep, starts_with}
use secure_keyboard.Prelude.{
  ℕ, zero, suc, ◌≤◌, ◌<◌, ◌≡◌, ◌≢◌, refl, ap, Bool, true, false, not, ◌&&◌, ◌||◌, ◌==◌, List, [],
  ◌∷◌, ◌++◌, arith, Option, none, some, length, length-append, append-nil, if◌then◌else◌, All,
  Bool-cases, inl, inr,
}
use secure_keyboard.Js.{JsString, text_eq, text_eq_iff, text_eq_refl, Call}
use secure_keyboard.Evidence.Symlinks.Resolve.{
  IsComponent, absolute_begins, resolve-absolute, absolute-append, length-absolute, append-All,
}
use secure_keyboard.Evidence.Symlinks.{
  Result, done, path_of, absolute, resolve, extend, before_last, parent_of, dirname, is_link,
  scan_from, path_has_symlink_component,
}

before_last-none : (c : JsString) → All (λ u. u ≢ sep) c → before_last c ≡ none
unfolding before_last
before_last-none [] h = refl
before_last-none (x ∷ c) (h, hs) = rw (before_last-none c hs) (ground (arith, h))

before_last-append : (p c : JsString) → All (λ u. u ≢ sep) c → before_last (p ++ (sep ∷ c)) ≡ some p
unfolding before_last
before_last-append [] c h = rw (before_last-none c h) refl
before_last-append (x ∷ p) c h = rw (before_last-append p c h) refl

dirname-append :
    (p c : JsString) → 1 ≤ length p → All (λ u. u ≢ sep) c → dirname (p ++ (sep ∷ c)) ≡ p
unfolding dirname
dirname-append [] c few h = absurd (omega (arith, few))
dirname-append (x ∷ p) c few h = rw (before_last-append (x ∷ p) c h) refl

starts_with-append : (p t : JsString) → starts_with p (p ++ t) ≡ true
unfolding starts_with
starts_with-append [] t = refl
starts_with-append (x ∷ p) t = ground (arith, starts_with-append p t)

length-starts_with : (p t : JsString) → starts_with p t ≡ true → length p ≤ length t
unfolding starts_with
length-starts_with [] t h = omega arith
length-starts_with (x ∷ p) [] h = cc
length-starts_with (x ∷ p) (y ∷ t) h = ground (arith, length-starts_with p t)

abbrev IsShorter : Option JsString → ℕ → Type 0
IsShorter none n = Unit
IsShorter (some p) n = length p < n

extend-IsShorter :
    (c : ℕ) (o : Option JsString) (n : ℕ) → IsShorter o n → IsShorter (extend c o) (suc n)
extend-IsShorter c none n h = elim (Bool-cases (c == sep)) [
  | inl e ↦ rw e (omega arith)
  | inr e ↦ rw e tt
]
extend-IsShorter c (some p) n h = omega (arith, h)

before_last-IsShorter : (t : JsString) → IsShorter (before_last t) (length t)
unfolding before_last
before_last-IsShorter [] = tt
before_last-IsShorter (c ∷ t) =
    extend-IsShorter c (before_last t) (length t) (before_last-IsShorter t)

length-parent_of : (o : Option JsString) (n : ℕ) → 2 ≤ n → IsShorter o n → length (parent_of o) < n
length-parent_of none n two h = omega (arith, two)
length-parent_of (some []) n two h = omega (arith, two)
length-parent_of (some (c ∷ t)) n two h = h

length-dirname : (t : JsString) → 2 ≤ length t → length (dirname t) < length t
unfolding dirname
length-dirname t two = length-parent_of (before_last t) (length t) two (before_last-IsShorter t)

below_long :
    (root cursor : JsString)
    → 1 ≤ length root
    → starts_with (root ++ sep ∷ []) cursor ≡ true
    → 2 ≤ length cursor
below_long root cursor some_root h = omega (
  arith,
  some_root,
  length-starts_with (root ++ sep ∷ []) cursor h,
  length-append {0} root (sep ∷ []),
)

starts_with-longer : (p t u : JsString) → starts_with p t ≡ true → starts_with p (t ++ u) ≡ true
unfolding starts_with
starts_with-longer [] t u h = refl
starts_with-longer (x ∷ p) [] u h = cc
starts_with-longer (x ∷ p) (y ∷ t) u h = ground (arith, starts_with-longer p t u)

starts_with-child : (root c : JsString) → starts_with (root ++ sep ∷ []) (root ++ (sep ∷ c)) ≡ true
unfolding starts_with
starts_with-child [] c = refl
starts_with-child (x ∷ root) c = ground (arith, starts_with-child root c)

starts_with-path_of :
    (root c : JsString) (cs : List JsString)
    → starts_with (root ++ sep ∷ []) (path_of root (c ∷ cs)) ≡ true
starts_with-path_of root c [] = starts_with-child root c
starts_with-path_of root c (d ∷ cs) =
    starts_with-longer (root ++ sep ∷ []) (path_of root (d ∷ cs)) (sep ∷ c)
      (starts_with-path_of root d cs)

length-path_of : (root : JsString) (cs : List JsString) → length root ≤ length (path_of root cs)
length-path_of root [] = omega arith
length-path_of root (c ∷ cs) =
    omega (arith, length-path_of root cs, length-append {0} (path_of root cs) (sep ∷ c))

path_of-longer :
    (root c : JsString) (cs : List JsString) → length root < length (path_of root (c ∷ cs))
path_of-longer root c cs =
    omega (arith, length-path_of root cs, length-append {0} (path_of root cs) (sep ∷ c))

path_of_differs :
    (root c : JsString) (cs : List JsString) → text_eq (path_of root (c ∷ cs)) root ≡ false
path_of_differs root c cs = elim (Bool-cases (text_eq (path_of root (c ∷ cs)) root)) [
  | inl e ↦ absurd (
      omega (
        arith,
        path_of-longer root c cs,
        ap (λ (t : JsString). length t) ((text_eq_iff (path_of root (c ∷ cs)) root).0 e),
      ))
  | inr e ↦ e
]

ends_if :
    (inside link : Bool) (rest : Option Bool)
    → (inside ≡ true → (b : Bool) × (rest ≡ some b))
    → (b : Bool) × ((if inside then (if link then some true else rest) else some false) ≡ some b)
ends_if false link rest h = (false, refl)
ends_if true true rest h = (true, refl)
ends_if true false rest h = h refl

module _ (real_path : JsString → Result JsString) (lstat : JsString → Call Bool)
    (cwd : JsString) where
  -- The loop ends within as many rounds as the path has characters.
  scan_ends :
      (root : JsString) (fuel : ℕ) (cursor : JsString)
      → 1 ≤ length root
      → length cursor < fuel
      → (b : Bool) × (scan_from real_path lstat cwd root fuel cursor ≡ some b)
  unfolding scan_from
  scan_ends root zero cursor some_root h = absurd (omega (arith, h))
  scan_ends root (suc fuel) cursor some_root h =
      ends_if (not (text_eq cursor root) && starts_with (root ++ sep ∷ []) cursor)
        (is_link (lstat cursor)) _
        (λ e.
          let long = below_long root cursor some_root (ground (arith, e)) in
          scan_ends root fuel (dirname cursor) some_root
            (omega (arith, h, length-dirname cursor long)))

  -- One of the paths on the way from the root is a symbolic link.
  abbrev pub links : JsString → List JsString → Bool
  links root [] = false
  links root (c ∷ cs) = is_link (lstat (path_of root (c ∷ cs))) || links root cs

  scan_links :
      (root : JsString) (fuel : ℕ) (cs : List JsString)
      → 1 ≤ length root
      → All IsComponent cs
      → length (path_of root cs) < fuel
      → scan_from real_path lstat cwd root fuel (path_of root cs) ≡ some (links root cs)
  unfolding scan_from
  scan_links root zero cs some_root h few = absurd (omega (arith, few))
  scan_links root (suc fuel) [] some_root h few = rw (text_eq_refl root) refl
  scan_links root (suc fuel) (c ∷ cs) some_root ((size, plain, names), hs) few =
      let long : 1 ≤ length (path_of root cs) = omega (arith, some_root, length-path_of root cs) in
      let shorter = length-append {0} (path_of root cs) (sep ∷ c) in
      let rest = scan_links root fuel cs some_root hs (omega (arith, few, shorter)) in
      rw
        (
          path_of_differs root c cs,
          starts_with-path_of root c cs,
          dirname-append (path_of root cs) c long plain,
          rest,
        )
        (ground arith)

  -- The scan never goes on to a root that is the root of the file system.
  scan_top :
      (fuel : ℕ) (cs : List JsString)
      → All IsComponent cs
      → scan_from real_path lstat cwd (sep ∷ []) (suc fuel) (absolute cs) ≡ some false
  unfolding scan_from starts_with
  scan_top fuel [] h = rw (text_eq_refl (sep ∷ [])) refl
  scan_top fuel (c ∷ cs) h =
      let (u, t, e, other) = absolute_begins c cs h in rw e (ground (arith, other))

  -- Below the root of the file system, the scan passes over every link.
  abbrev pub found : List JsString → List JsString → Bool
  found [] ws = false
  found (r ∷ rs) ws = links (absolute (r ∷ rs)) ws

  scan_found :
      (rs ws : List JsString)
      → All IsComponent rs
      → All IsComponent ws
      → (let cursor = absolute (ws ++ rs) in
          scan_from real_path lstat cwd (absolute rs) (suc (length cursor)) cursor
          ≡ some (found rs ws))
  scan_found [] ws h k = rw (append-nil ws) (scan_top (length (absolute ws)) ws k)
  scan_found (r ∷ rs) ws h k = rw (absolute-append ws r rs) (
      scan_links (absolute (r ∷ rs)) (suc (length (path_of (absolute (r ∷ rs)) ws))) ws
        (length-absolute (r ∷ rs)) k (omega arith))

  -- For a root with a real path, the scan of every path ends; and for an absolute path that adds
  -- components to that real path, it says whether the path, or a path on the way to it from the real
  -- root, is a symbolic link, except that it never finds a link where the real root is "/". The
  -- components are not empty, "." or ".." and have no separator.
  pub path_has_symlink_component-links :
      (root path : JsString) (rs ws : List JsString)
      → real_path root ≡ done (absolute rs)
      → All IsComponent rs
      → All IsComponent ws
      → ((b : Bool) × (path_has_symlink_component real_path lstat cwd root path ≡ done (some b)))
        × (path_has_symlink_component real_path lstat cwd root (absolute (ws ++ rs))
            ≡ done (some (found rs ws)))
  unfolding path_has_symlink_component
  path_has_symlink_component-links root path rs ws e h k = rw e (
    (let cursor = resolve cwd path in
        let (b, ends) =
          scan_ends (absolute rs) (suc (length cursor)) cursor (length-absolute rs) (omega arith) in
        (b, ap (λ (o : Option Bool). done o) ends)),
    rw (resolve-absolute cwd (ws ++ rs) (append-All ws rs k h))
        (ap (λ (o : Option Bool). done o) (scan_found rs ws h k)),
  )
