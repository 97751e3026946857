-- ===== src/Contracts/Patterns.antt =====
-- The three patterns, the UTF-8 measure of labels, and the input key names of the contracts package.
pub mod Words
pub mod Utf8
use secure_keyboard.Prelude.{
  ℕ, ◌+◌, ◌-◌, ◌*◌, Bool, true, false, ◌&&◌, ◌||◌, List, [], ◌∷◌, leb, ◌==◌, if◌then◌else◌, all,
  length,
}
use secure_keyboard.Js.{JsString, is_digit, is_lower, is_upper}

-- `[a-z0-9]` and `[a-z0-9._-]` of KEY_ID_PATTERN.
abbrev pub is_key_head : ℕ → Bool
is_key_head c = is_lower c || is_digit c

abbrev pub is_key_tail : ℕ → Bool
is_key_tail c = is_lower c || is_digit c || c == b'.' || c == b'_' || c == b'-'

-- `KEY_ID_PATTERN.test`: `/^[a-z0-9][a-z0-9._-]{0,63}$/`.
unfoldable pub matches_key_id : JsString → Bool
matches_key_id [] = false
matches_key_id (c ∷ cs) = is_key_head c && all is_key_tail cs && leb (length cs) 63

abbrev pub is_letter : ℕ → Bool
is_letter c = is_upper c || is_lower c

abbrev pub is_alphanumeric : ℕ → Bool
is_alphanumeric c = is_letter c || is_digit c

-- `(?:-[A-Za-z0-9]{2,8})?$`
unfoldable pub matches_subtag : JsString → Bool
matches_subtag [] = true
matches_subtag (c ∷ cs) =
    c == b'-' && all is_alphanumeric cs && leb 2 (length cs) && leb (length cs) 8

-- The optional third letter; a hyphen is no letter, so that taking it whenever there is one is exact.
unfoldable pub matches_language_tail : JsString → Bool
unfolding matches_subtag
matches_language_tail [] = true
matches_language_tail (c ∷ cs) = if is_letter c then matches_subtag cs else matches_subtag (c ∷ cs)

-- `LOCALE_PATTERN.test`: `/^[A-Za-z]{2,3}(?:-[A-Za-z0-9]{2,8})?$/`.
unfoldable pub matches_locale : JsString → Bool
unfolding matches_language_tail
matches_locale [] = false
matches_locale (a ∷ []) = false
matches_locale (a ∷ b ∷ cs) = is_letter a && is_letter b && matches_language_tail cs

abbrev pub is_hex : ℕ → Bool
is_hex c = is_digit c || (leb b'a' c && leb c b'f') || (leb b'A' c && leb c b'F')

-- `COLOR_PATTERN.test`: `/^#[0-9a-fA-F]{6}(?:[0-9a-fA-F]{2})?$/`.
unfoldable pub matches_color : JsString → Bool
matches_color [] = false
matches_color (c ∷ cs) = c == b'#' && all is_hex cs && (length cs == 6 || length cs == 8)

abbrev pub is_high : ℕ → Bool
is_high c = leb 0xd800 c && leb c 0xdbff

abbrev pub is_low : ℕ → Bool
is_low c = leb 0xdc00 c && leb c 0xdfff

-- `for (const character of value)`: a surrogate pair is one character, a lone surrogate another.
unfoldable pub code_points : JsString → List ℕ
code_points [] = []
code_points (h ∷ []) = h ∷ []
code_points (h ∷ l ∷ rest) =
    let paired : List ℕ = (0x10000 + (h - 0xd800) * 0x400 + (l - 0xdc00)) ∷ code_points rest in
    let single : List ℕ = h ∷ code_points (l ∷ rest) in
    if is_high h && is_low l then paired else single

-- The bytes counted for one code point.
abbrev pub utf8_size : ℕ → ℕ
utf8_size c = if leb c 0x7f then 1 else if leb c 0x7ff then 2 else if leb c 0xffff then 3 else 4

abbrev pub utf8_total : List ℕ → ℕ
utf8_total [] = 0
utf8_total (c ∷ cs) = utf8_size c + utf8_total cs

unfoldable pub utf8_byte_length : JsString → ℕ
unfolding code_points
utf8_byte_length value = utf8_total (code_points value)
