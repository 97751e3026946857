-- ===== src/Evidence/Text/Split.antt =====
-- How a text is split at a separator.
use secure_keyboard.Prelude.{
  ℕ, ◌==◌, ◌≡◌, ◌≢◌, refl, Bool-cases, inl, inr, true, false, List, [], ◌∷◌, ◌++◌, arith, All,
}
use secure_keyboard.Js.{JsString}
use secure_keyboard.Evidence.Text.{prepend, split}

prepend-append :
    (c : ℕ) (ws vs : List JsString) → ws ≢ [] → prepend c (ws ++ vs) ≡ prepend c ws ++ vs
prepend-append c [] vs h = absurd (h refl)
prepend-append c (w ∷ ws) vs h = refl

prepend-differs : (c : ℕ) (ws : List JsString) → prepend c ws ≢ []
prepend-differs c [] e = cc
prepend-differs c (w ∷ ws) e = cc

split-differs : (separator : ℕ) (t : JsString) → split separator t ≢ []
unfolding split
split-differs separator [] = λ e. cc
split-differs separator (c ∷ t) = elim (Bool-cases (c == separator)) [
  | inl e ↦ rw e (λ k. cc)
  | inr e ↦ rw e (prepend-differs c (split separator t))
]

pub split-append :
    (separator : ℕ) (t u : JsString)
    → split separator (t ++ (separator ∷ u)) ≡ split separator t ++ split separator u
unfolding split
split-append separator [] u =
    let same : (separator == separator) ≡ true = ground arith in rw same refl
split-append separator (c ∷ t) u = elim (Bool-cases (c == separator)) [
  | inl e ↦ rw (e, split-append separator t u) refl
  | inr e ↦
      rw (e, split-append separator t u)
        (prepend-append c (split separator t) (split separator u) (split-differs separator t))
]

pub split_single :
    (separator : ℕ) (c : JsString) → All (λ u. u ≢ separator) c → split separator c ≡ c ∷ []
unfolding split
split_single separator [] h = refl
split_single separator (u ∷ c) (h, hs) =
    let e : (u == separator) ≡ false = ground (arith, h) in rw (e, split_single separator c hs) refl
