-- ===== src/Evidence/Checks.antt =====
-- The small checks of scripts/check-device-evidence.mjs.
pub mod Paths
use secure_keyboard.Evidence.Text.{sep, split, starts_with}
use secure_keyboard.Prelude.{
  ℕ, zero, suc, ◌+◌, ◌==◌, Bool, true, false, not, ◌&&◌, ◌||◌, List, [], ◌∷◌, ◌++◌, Option, none,
  some, leb, ltb, length, all, any, map, if◌then◌else◌,
}
use secure_keyboard.Js.{
  JsString, js, text_eq, includes, is_digit, is_upper, Value, string, Call, returns, throws,
}
use secure_keyboard.Contracts.Checks.{report}

-- `add(findings, pathName, detail)` under a condition.
abbrev pub add_if : Bool → JsString → JsString → List JsString
add_if bad path_name detail = report bad (path_name ++ js ": " ++ detail)

-- A step that may throw, and then the next.
infixl 5 ◌>>=◌
unfoldable pub ◌>>=◌ {ℓ κ} : {A : Type ℓ} {B : Type κ} → Call A → (A → Call B) → Call B
◌>>=◌ throws f = throws
◌>>=◌ (returns a) f = f a

-- The white space and line terminators that `trim` removes.
abbrev pub is_space : ℕ → Bool
is_space c =
    (leb 9 c && leb c 13)
    || c == 32
    || c == 160
    || c == 0x1680
    || (leb 0x2000 c && leb c 0x200a)
    || c == 0x2028
    || c == 0x2029
    || c == 0x202f
    || c == 0x205f
    || c == 0x3000
    || c == 0xfeff

-- `/[\r\n]/`
abbrev pub is_line_break : ℕ → Bool
is_line_break c = c == 10 || c == 13

-- `nonEmptyString`, where the text is one.
abbrev pub is_non_empty_text : JsString → Bool
is_non_empty_text t = leb (length t) 120 && not (any is_line_break t) && not (all is_space t)

unfoldable pub non_empty_string : Value → Bool
non_empty_string (string t) = is_non_empty_text t
non_empty_string _ = false

-- Not empty, "." or "..".
abbrev pub is_plain_component : JsString → Bool
is_plain_component w = not (text_eq w []) && not (text_eq w (js ".")) && not (text_eq w (js ".."))

-- `path.isAbsolute`, of POSIX paths.
abbrev pub is_absolute : JsString → Bool
is_absolute [] = false
is_absolute (c ∷ t) = c == sep

unfoldable pub is_safe_path_text : JsString → Bool
is_safe_path_text t =
    ltb 0 (length t)
    && not (is_absolute t)
    && not (any (λ c. c == b'\\') t)
    && all is_plain_component (split sep t)

-- `isSafeRelativePath`: the text of the path, where it is one.
unfoldable pub safe_relative_path : Value → Option JsString
safe_relative_path (string t) = if is_safe_path_text t then some t else none
safe_relative_path _ = none

-- `/^[a-f0-9]{n}$/`
abbrev pub is_lower_hex : ℕ → Bool
is_lower_hex c = is_digit c || (leb b'a' c && leb c b'f')

unfoldable pub is_hex_text : ℕ → JsString → Bool
is_hex_text n t = length t == n && all is_lower_hex t

-- `typeof value === "string" && SHA256.test(value)`, and the same with COMMIT.
unfoldable pub is_hex_digest : ℕ → Value → Bool
is_hex_digest n (string t) = is_hex_text n t
is_hex_digest n _ = false

-- A text with the shape of a template, in which 0 stands for any digit.
unfoldable pub is_shaped : JsString → JsString → Bool
is_shaped [] [] = true
is_shaped [] (c ∷ t) = false
is_shaped (p ∷ ps) [] = false
is_shaped (p ∷ ps) (c ∷ t) = (if p == b'0' then is_digit c else c == p) && is_shaped ps t

-- ISO_TIMESTAMP
abbrev pub is_timestamp : JsString → Bool
is_timestamp t = is_shaped (js "0000-00-00T00:00:00.000Z") t
