-- ===== src/Evidence/Checks/Paths.antt =====
-- The safe relative paths are the lists of plain components.
use secure_keyboard.Evidence.Text.{prepend, sep, split}
use secure_keyboard.Prelude.{
  ℕ, ◌==◌, ◌≡◌, ◌≢◌, ◌↔◌, refl, ap, sym, ◌∙◌, arith, Bool-cases, inl, inr, true, false, ◌||◌, List,
  [], ◌∷◌, ◌++◌, ltb, length, append-nil, any, all, All,
}
use secure_keyboard.Js.{JsString, js, text_eq_iff}
use secure_keyboard.Contracts.Reports.{and_iff}
use secure_keyboard.Evidence.Checks.{is_plain_component, is_absolute, is_safe_path_text}

abbrev backslash : ℕ
backslash = b'\\'

-- A character of a component.
abbrev IsPlainChar : ℕ → Type 0
IsPlainChar u = (u ≢ sep) × (u ≢ backslash)

-- Not empty, "." or "..", and without a separator or backslash.
abbrev pub IsPlain : JsString → Type 0
IsPlain w = (w ≢ []) × (w ≢ js ".") × (w ≢ js "..") × All IsPlainChar w

-- The components with a separator between each two.
abbrev pub join : List JsString → JsString
join [] = []
join (w ∷ []) = w
join (w ∷ v ∷ ws) = w ++ (sep ∷ join (v ∷ ws))

join-prepend : (c : ℕ) (ws : List JsString) → join (prepend c ws) ≡ c ∷ join ws
join-prepend c [] = refl
join-prepend c (w ∷ []) = refl
join-prepend c (w ∷ v ∷ ws) = refl

join-nil : (ws : List JsString) → ws ≢ [] → join ([] ∷ ws) ≡ sep ∷ join ws
join-nil [] h = absurd (h refl)
join-nil (w ∷ ws) h = refl

prepend-differs : (c : ℕ) (ws : List JsString) → prepend c ws ≢ []
prepend-differs c [] e = cc
prepend-differs c (w ∷ ws) e = cc

split-differs : (t : JsString) → split sep t ≢ []
unfolding split
split-differs [] = λ e. cc
split-differs (c ∷ t) = elim (Bool-cases (c == sep)) [
  | inl e ↦ rw e (λ k. cc)
  | inr e ↦ rw e (prepend-differs c (split sep t))
]

join-split : (t : JsString) → join (split sep t) ≡ t
unfolding split
join-split [] = refl
join-split (c ∷ t) = elim (Bool-cases (c == sep)) [
  | inl e ↦
      (let same : c ≡ sep = ground (arith, e) in
        rw e (join-nil (split sep t) (split-differs t) ∙ cc (join-split t, same)))
  | inr e ↦ rw e (join-prepend c (split sep t) ∙ ap (λ (s : JsString). c ∷ s) (join-split t))
]

prepend-All :
    (c : ℕ) (ws : List JsString)
    → IsPlainChar c
    → All (λ w. All IsPlainChar w) ws
    → All (λ w. All IsPlainChar w) (prepend c ws)
prepend-All c [] h hs = ((h, tt), tt)
prepend-All c (w ∷ ws) h (k, ks) = ((h, k), ks)

split-All :
    (t : JsString)
    → any (λ u. u == backslash) t ≡ false
    → All (λ w. All IsPlainChar w) (split sep t)
unfolding split
split-All [] h = (tt, tt)
split-All (c ∷ t) h =
    let rest = split-All t (ground (arith, h)) in
    elim (Bool-cases (c == sep)) [
      | inl e ↦ rw e (tt, rest)
      | inr e ↦ rw e (prepend-All c (split sep t) (ground (arith, e), ground (arith, h)) rest)
    ]

is_plain_component_iff :
    (w : JsString) → (is_plain_component w ≡ true) ↔ ((w ≢ []) × (w ≢ js ".") × (w ≢ js ".."))
is_plain_component_iff w =
    ground (arith, text_eq_iff w [], text_eq_iff w (js "."), text_eq_iff w (js ".."))

all-IsPlain :
    (ws : List JsString)
    → all is_plain_component ws ≡ true
    → All (λ w. All IsPlainChar w) ws
    → All IsPlain ws
all-IsPlain [] h k = tt
all-IsPlain (w ∷ ws) h (k, ks) =
    let (here, rest) = (and_iff _ _ (is_plain_component_iff w) (λ x. x, λ x. x)).0 h in
    ((here.0, here.1, here.2, k), all-IsPlain ws rest ks)

-- The text of a component in front of the rest.
split_plain : (w : JsString) → All IsPlainChar w → split sep w ≡ w ∷ []
unfolding split
split_plain [] h = refl
split_plain (c ∷ w) (h, hs) =
    let e : (c == sep) ≡ false = ground (arith, h.0) in rw (e, split_plain w hs) refl

split-append : (w t : JsString) → All IsPlainChar w → split sep (w ++ (sep ∷ t)) ≡ w ∷ split sep t
unfolding split
split-append [] t h = refl
split-append (c ∷ w) t (h, hs) =
    let e : (c == sep) ≡ false = ground (arith, h.0) in rw (e, split-append w t hs) refl

split-join :
    (w : JsString) (ws : List JsString) → All IsPlain (w ∷ ws) → split sep (join (w ∷ ws)) ≡ w ∷ ws
split-join w [] (h, hs) = split_plain w h.3
split-join w (v ∷ ws) (h, hs) =
    split-append w (join (v ∷ ws)) h.3 ∙ ap (λ (xs : List JsString). w ∷ xs) (split-join v ws hs)

all_plain : (ws : List JsString) → All IsPlain ws → all is_plain_component ws ≡ true
all_plain [] h = refl
all_plain (w ∷ ws) (h, hs) =
    (and_iff _ _ (is_plain_component_iff w) (λ x. x, λ x. x)).1 ((h.0, h.1, h.2), all_plain ws hs)

any-append :
    (xs ys : JsString)
    → any (λ u. u == backslash) (xs ++ ys)
      ≡ (any (λ u. u == backslash) xs || any (λ u. u == backslash) ys)
any-append [] ys = refl
any-append (x ∷ xs) ys = ground (arith, any-append xs ys)

any_plain : (w : JsString) → All IsPlainChar w → any (λ u. u == backslash) w ≡ false
any_plain [] h = refl
any_plain (c ∷ w) (h, hs) = ground (arith, h.1, any_plain w hs)

any-join : (ws : List JsString) → All IsPlain ws → any (λ u. u == backslash) (join ws) ≡ false
any-join [] h = refl
any-join (w ∷ []) (h, hs) = any_plain w h.3
any-join (w ∷ v ∷ ws) (h, hs) =
    rw (any-append w (sep ∷ join (v ∷ ws))) (ground (arith, any_plain w h.3, any-join (v ∷ ws) hs))

-- A text that begins with a plain component.
begins_plain :
    (w t : JsString) → IsPlain w → (is_absolute (w ++ t) ≡ false) × (ltb 0 (length (w ++ t)) ≡ true)
begins_plain [] t h = absurd (h.0 refl)
begins_plain (c ∷ w) t h = (ground (arith, h.3.0.0), ground arith)

join_begins :
    (w : JsString) (ws : List JsString)
    → IsPlain w
    → (is_absolute (join (w ∷ ws)) ≡ false) × (ltb 0 (length (join (w ∷ ws))) ≡ true)
join_begins w [] h = rw (← append-nil w) (begins_plain w [] h)
join_begins w (v ∷ ws) h = begins_plain w (sep ∷ join (v ∷ ws)) h

as_cons :
    (ws : List JsString) (t : JsString)
    → ws ≢ []
    → All IsPlain ws
    → t ≡ join ws
    → (w : JsString) × (vs : List JsString) × All IsPlain (w ∷ vs) × (t ≡ join (w ∷ vs))
as_cons [] t h plain e = absurd (h refl)
as_cons (w ∷ vs) t h plain e = (w, vs, plain, e)

safe_sound :
    (t : JsString)
    → is_safe_path_text t ≡ true
    → (w : JsString) × (ws : List JsString) × All IsPlain (w ∷ ws) × (t ≡ join (w ∷ ws))
unfolding is_safe_path_text
safe_sound t h =
    let plain = all-IsPlain (split sep t) (ground (arith, h)) (split-All t (ground (arith, h))) in
    as_cons (split sep t) t (split-differs t) plain (sym (join-split t))

safe_complete :
    (w : JsString) (ws : List JsString)
    → All IsPlain (w ∷ ws)
    → is_safe_path_text (join (w ∷ ws)) ≡ true
unfolding is_safe_path_text
safe_complete w ws h =
    let (relative, long) = join_begins w ws h.0 in
    rw (relative, long, any-join (w ∷ ws) h, split-join w ws h, all_plain (w ∷ ws) h) refl

-- A text is a safe relative path exactly when it is made of one or more components with a separator
-- between each two, where a component is not empty, "." or ".." and has no separator or backslash.
pub is_safe_path_text_iff :
    (t : JsString)
    → (is_safe_path_text t ≡ true)
      ↔ ((w : JsString) × (ws : List JsString) × All IsPlain (w ∷ ws) × (t ≡ join (w ∷ ws)))
is_safe_path_text_iff t = (safe_sound t, λ (w, ws, plain, e). rw e (safe_complete w ws plain))
