-- ===== src/Evidence/Platform/Versions.antt =====
-- What the comparison of dotted versions decides.
use native.Mathlib.Nat.{add-mul, mul_assoc}
use secure_keyboard.Prelude.{
  ℕ, ◌≤◌, ◌+◌, ◌∙◌, ◌-◌, ◌*◌, ◌^◌, ◌≢◌, ◌++◌, length, All, map, refl, zero, suc, ◌<◌, ◌==◌, ◌≡◌,
  ◌↔◌, ◌⊎◌, arith, Bool, Bool-cases, inl, inr, true, ◌&&◌, ◌||◌, List, [], ◌∷◌, ltb,
}
use secure_keyboard.Evidence.Text.{split}
use secure_keyboard.Evidence.Text.Split.{split-append, split_single}
use secure_keyboard.Js.{JsString}
use secure_keyboard.Contracts.Reports.{iff_trans}
use secure_keyboard.Evidence.Platform.{is_below, number_from, parts, is_dot_version_below}

-- The part at a position, 0 past the end.
abbrev pub part : List ℕ → ℕ → ℕ
part [] k = 0
part (x ∷ xs) zero = x
part (x ∷ xs) (suc k) = part xs k

-- The two agree on the first k positions.
abbrev pub IsSameUpTo : ℕ → (ℕ → ℕ) → (ℕ → ℕ) → Type 0
IsSameUpTo zero f g = Unit
IsSameUpTo (suc k) f g = (f 0 ≡ g 0) × IsSameUpTo k (λ n. f (suc n)) (λ n. g (suc n))

-- At the first position where the two differ, the left part is the smaller one.
abbrev pub Precedes : (ℕ → ℕ) → (ℕ → ℕ) → Type 0
Precedes f g = (k : ℕ) × IsSameUpTo k f g × (f k < g k)

Precedes-cases :
    (f g : ℕ → ℕ) (k : ℕ)
    → IsSameUpTo k f g
    → f k < g k
    → (f 0 < g 0) ⊎ ((f 0 ≡ g 0) × Precedes (λ k. f (suc k)) (λ k. g (suc k)))
Precedes-cases f g zero same less = inl less
Precedes-cases f g (suc k) (first, same) less = inr (first, (k, same, less))

step_iff :
    (f g : ℕ → ℕ) (b : Bool)
    → ((b ≡ true) ↔ Precedes (λ k. f (suc k)) (λ k. g (suc k)))
    → ((ltb (f 0) (g 0) || (f 0 == g 0 && b)) ≡ true) ↔ Precedes f g
step_iff f g b e = (
  λ h. elim (Bool-cases (ltb (f 0) (g 0))) [
    | inl lt ↦ (0, tt, ground (arith, lt))
    | inr ge ↦
        (let (k, same, less) = e.0 (ground (arith, h, ge)) in
          (suc k, (ground (arith, h, ge), same), less))
  ],
  λ (k, same, less). elim (Precedes-cases f g k same less) [
    | inl lt ↦ ground (arith, lt)
    | inr p ↦ ground (arith, p.0, e.1 p.1)
  ],
)

is_below_iff : (ls rs : List ℕ) → (is_below ls rs ≡ true) ↔ Precedes (part ls) (part rs)
unfolding is_below
is_below_iff [] [] = (λ h. cc, λ (k, same, less). absurd (omega (arith, less)))
is_below_iff [] (r ∷ rs) = step_iff (part []) (part (r ∷ rs)) (is_below [] rs) (is_below_iff [] rs)
is_below_iff (l ∷ ls) [] =
    iff_trans (ground arith)
      (step_iff (part (l ∷ ls)) (part []) (is_below ls []) (is_below_iff ls []))
is_below_iff (l ∷ ls) (r ∷ rs) =
    step_iff (part (l ∷ ls)) (part (r ∷ rs)) (is_below ls rs) (is_below_iff ls rs)

-- The number that decimal digits stand for, each by its place.
abbrev pub place : JsString → ℕ
place [] = 1
place (c ∷ t) = 10 * place t

abbrev pub decimal_value : JsString → ℕ
decimal_value [] = 0
decimal_value (c ∷ t) = (c - 48) * place t + decimal_value t

abbrev pub decimal_values : List JsString → List ℕ
decimal_values [] = []
decimal_values (t ∷ ts) = decimal_value t ∷ decimal_values ts

-- The parts with a dot between each two.
abbrev pub dotted : JsString → List JsString → JsString
dotted t [] = t
dotted t (u ∷ ts) = t ++ (46 ∷ dotted u ts)

-- Digits whose number is exact as a double.
abbrev pub IsPart : JsString → Type 0
IsPart t = (1 ≤ length t) × All (λ c. (48 ≤ c) × (c ≤ 57)) t × (decimal_value t < 2 ^ 53)

shifted : (v d p : ℕ) → (v * 10 + d) * p ≡ v * (10 * p) + d * p
shifted v d p = rw (add-mul (v * 10) d p, mul_assoc v 10 p) refl

number_from-decimal_value :
    (value : ℕ) (t : JsString) → number_from value t ≡ value * place t + decimal_value t
unfolding number_from
number_from-decimal_value value [] = omega arith
number_from-decimal_value value (c ∷ t) =
    number_from-decimal_value (value * 10 + (c - 48)) t
    ∙ omega (arith, shifted value (c - 48) (place t))

no_dot : (t : JsString) → All (λ c. (48 ≤ c) × (c ≤ 57)) t → All (λ c. c ≢ 46) t
no_dot [] h = tt
no_dot (c ∷ t) ((low, high), h) = ((λ e. omega (arith, low, e)), no_dot t h)

split-dotted :
    (t : JsString) (ts : List JsString) → All IsPart (t ∷ ts) → split 46 (dotted t ts) ≡ t ∷ ts
split-dotted t [] (h, hs) = split_single 46 t (no_dot t h.1)
split-dotted t (u ∷ ts) (h, hs) =
    rw (split-append 46 t (dotted u ts), split_single 46 t (no_dot t h.1), split-dotted u ts hs)
      refl

number_from-zero : (t : JsString) → number_from 0 t ≡ decimal_value t
number_from-zero t = omega (arith, number_from-decimal_value 0 t)

map-number_from : (ts : List JsString) → map (number_from 0) ts ≡ decimal_values ts
map-number_from [] = refl
map-number_from (t ∷ ts) = rw (number_from-zero t, map-number_from ts) refl

parts-dotted :
    (t : JsString) (ts : List JsString)
    → All IsPart (t ∷ ts)
    → parts (dotted t ts) ≡ decimal_values (t ∷ ts)
parts-dotted t ts h = rw (split-dotted t ts h) (map-number_from (t ∷ ts))

-- For versions made of parts with a dot between each two, where a part is one or more digits whose
-- number is below 2^53, one is below another exactly when, at the first position where the numbers
-- of their parts differ, its number is the smaller one; a part that is missing counts as 0.
pub is_dot_version_below_iff :
    (l r : JsString) (ls rs : List JsString)
    → All IsPart (l ∷ ls)
    → All IsPart (r ∷ rs)
    → (is_dot_version_below (dotted l ls) (dotted r rs) ≡ true)
      ↔ Precedes (part (decimal_values (l ∷ ls))) (part (decimal_values (r ∷ rs)))
unfolding is_dot_version_below
is_dot_version_below_iff l r ls rs h k =
    rw (parts-dotted l ls h, parts-dotted r rs k)
      (is_below_iff (decimal_values (l ∷ ls)) (decimal_values (r ∷ rs)))
