-- ===== src/Js/Text.antt =====
-- JavaScript strings as lists of UTF-16 code units, with the operations the packages use.
use Prim.Native.Char.{code}
use secure_keyboard.Prelude.{
  ℕ, zero, suc, ◌+◌, ◌/◌, ◌%◌, String, ◌≡◌, refl, ◌↔◌, Bool, true, false, ◌&&◌, ◌||◌, List, [], ◌∷◌,
  arith, leb, ltb, ◌==◌, if◌then◌else◌,
}

abbrev pub JsString : Type 0
JsString = List ℕ

-- The code units of a literal of the source; every literal used lies in the basic plane.
unfoldable pub js : String → JsString
js String.[] = []
js (String.◌∷◌ c s) = code c ∷ js s

-- `===` between strings.
unfoldable pub text_eq : JsString → JsString → Bool
text_eq [] [] = true
text_eq [] (y ∷ ys) = false
text_eq (x ∷ xs) [] = false
text_eq (x ∷ xs) (y ∷ ys) = x == y && text_eq xs ys

pub text_eq_iff : (a b : JsString) → (text_eq a b ≡ true) ↔ (a ≡ b)
unfolding text_eq
text_eq_iff [] [] = ground arith
text_eq_iff [] (y ∷ ys) = ground arith
text_eq_iff (x ∷ xs) [] = ground arith
text_eq_iff (x ∷ xs) (y ∷ ys) = ground (arith, text_eq_iff xs ys)

pub text_eq_refl : (a : JsString) → text_eq a a ≡ true
text_eq_refl a = (text_eq_iff a a).1 refl

-- `list.includes(text)` and `set.has(text)` for strings.
unfoldable pub includes : List JsString → JsString → Bool
includes [] t = false
includes (w ∷ ws) t = text_eq w t || includes ws t

-- The decimal digits of a number in front of `rest`; `n` rounds are enough.
decimal_from : ℕ → ℕ → JsString → JsString
decimal_from zero n rest = rest
decimal_from (suc fuel) n rest =
    let digits : JsString = (b'0' + n % 10) ∷ rest in
    let more = decimal_from fuel (n / 10) digits in if ltb n 10 then digits else more

-- `String(n)` for an integer below 10^21.
unfoldable pub decimal : ℕ → JsString
unfolding decimal_from
decimal n = decimal_from (suc n) n []

abbrev pub is_digit : ℕ → Bool
is_digit c = leb b'0' c && leb c b'9'

abbrev pub is_lower : ℕ → Bool
is_lower c = leb b'a' c && leb c b'z'

abbrev pub is_upper : ℕ → Bool
is_upper c = leb b'A' c && leb c b'Z'
