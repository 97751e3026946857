-- ===== src/Evidence/Symlinks/Resolve.antt =====
-- `path.resolve` of a path that is absolute and made of plain components.
use secure_keyboard.Evidence.Text.{sep, split}
use secure_keyboard.Prelude.{
  ℕ, ◌≤◌, ◌≡◌, ◌≢◌, refl, ap, true, List, [], ◌∷◌, ◌++◌, arith, length, length-append, All,
}
use secure_keyboard.Js.{JsString, js, text_eq, text_eq_iff}
use secure_keyboard.Evidence.Text.Split.{split-append, split_single}
use secure_keyboard.Evidence.Symlinks.{is_absolute, push, push_all, path_of, absolute, resolve}

-- A component is not empty, "." or "..", and has no separator.
abbrev pub IsComponent : JsString → Type 0
IsComponent c = (1 ≤ length c) × All (λ u. u ≢ sep) c × ((c ≢ js ".") × (c ≢ js ".."))

push_all-append :
    (ws : List JsString) (c : JsString) (cs : List JsString)
    → push_all (ws ++ c ∷ []) cs ≡ push c (push_all ws cs)
unfolding push_all
push_all-append [] c cs = refl
push_all-append (w ∷ ws) c cs = push_all-append ws c (push w cs)

push_component : (c : JsString) (cs : List JsString) → IsComponent c → push c cs ≡ c ∷ cs
push_component [] cs (size, rest, names) = absurd (omega (arith, size))
push_component (u ∷ c) cs (size, plain, (dot, dots)) =
    ground
      (arith, text_eq_iff (u ∷ c) [], text_eq_iff (u ∷ c) (js "."), text_eq_iff (u ∷ c) (js ".."))

push_all-path_of :
    (cs : List JsString) → All IsComponent cs → push_all (split sep (path_of [] cs)) [] ≡ cs
unfolding push_all split text_eq
push_all-path_of [] h = refl
push_all-path_of (c ∷ cs) (h, hs) =
    rw
      (
        split-append sep (path_of [] cs) c,
        split_single sep c h.1,
        push_all-append (split sep (path_of [] cs)) c [],
        push_all-path_of cs hs,
      )
      (push_component c cs h)

-- The first two characters of an absolute path below "/".
pub absolute_begins :
    (c : JsString) (cs : List JsString)
    → All IsComponent (c ∷ cs)
    → (u : ℕ) × (t : JsString) × (absolute (c ∷ cs) ≡ sep ∷ u ∷ t) × (u ≢ sep)
absolute_begins [] [] (h, hs) = absurd (omega (arith, h.0))
absolute_begins (u ∷ c) [] (h, hs) = (u, c, refl, h.1.0)
absolute_begins c (d ∷ cs) (h, hs) =
    let (u, t, e, other) = absolute_begins d cs hs in
    (u, t ++ (sep ∷ c), ap (λ (x : JsString). x ++ (sep ∷ c)) e, other)

-- A path that is absolute and plain is resolved to itself.
pub resolve-absolute :
    (cwd : JsString) (cs : List JsString)
    → All IsComponent cs
    → resolve cwd (absolute cs) ≡ absolute cs
unfolding resolve split push_all text_eq
resolve-absolute cwd [] h = refl
resolve-absolute cwd (c ∷ cs) h =
    let (u, t, e, other) = absolute_begins c cs h in
    let top : is_absolute (absolute (c ∷ cs)) ≡ true = rw e refl in
    rw (top, push_all-path_of (c ∷ cs) h) refl

pub absolute-append :
    (ws : List JsString) (r : JsString) (rs : List JsString)
    → absolute (ws ++ r ∷ rs) ≡ path_of (absolute (r ∷ rs)) ws
absolute-append [] r rs = refl
absolute-append (w ∷ []) r rs = refl
absolute-append (w ∷ v ∷ ws) r rs =
    ap (λ (x : JsString). x ++ (sep ∷ w)) (absolute-append (v ∷ ws) r rs)

pub length-absolute : (cs : List JsString) → 1 ≤ length (absolute cs)
length-absolute [] = omega arith
length-absolute (c ∷ cs) = omega (arith, length-append {0} (path_of [] cs) (sep ∷ c))

pub append-All :
    (ws rs : List JsString) → All IsComponent ws → All IsComponent rs → All IsComponent (ws ++ rs)
append-All [] rs h k = k
append-All (w ∷ ws) rs (h, hs) k = (h, append-All ws rs hs k)
