-- ===== src/Contracts/Policy.antt =====
-- `isCanonicalInputKeyId` and `validateLayoutForPolicy`.
pub mod Ids
pub mod Valid
use secure_keyboard.Prelude.{
  ℕ, suc, ◌+◌, ◌-◌, ◌*◌, Bool, false, not, ◌&&◌, ◌||◌, List, [], ◌∷◌, ◌++◌, leb, ◌==◌,
  if◌then◌else◌, Option, none, some,
}
use secure_keyboard.Js.{
  JsString, js, includes, is_digit, Value, string, array, object, items, get, is_text,
}
use secure_keyboard.Contracts.Checks.{ValidationResult, result, report}
use secure_keyboard.Contracts.Layout.{key_path, validate_layout}

pub data InputPolicy : Type 0 where
  numeric ascii hangul : InputPolicy

-- What follows a literal prefix of a pattern.
unfoldable pub after : JsString → JsString → Option JsString
after [] t = some t
after (p ∷ ps) [] = none
after (p ∷ ps) (c ∷ cs) = if p == c then after ps cs else none

-- `[0-9]$`
abbrev pub is_one_digit : Option JsString → Bool
is_one_digit (some (c ∷ [])) = is_digit c
is_one_digit _ = false

-- `[0-9a-f]`
abbrev pub is_lower_hex : ℕ → Bool
is_lower_hex c = is_digit c || (leb b'a' c && leb c b'f')

-- The value of a digit that `is_lower_hex` accepts.
abbrev pub hex_value : ℕ → ℕ
hex_value c = if is_digit c then c - b'0' else c - b'a' + 10

-- `[0-9a-f]{2}$`, and `Number.parseInt(…, 16)` in the printable range.
abbrev pub is_printable_hex : Option JsString → Bool
is_printable_hex (some (h ∷ l ∷ [])) =
    if is_lower_hex h && is_lower_hex l
    then leb 0x20 (hex_value h * 16 + hex_value l) && leb (hex_value h * 16 + hex_value l) 0x7e
    else false
is_printable_hex _ = false

abbrev pub jamo_names : List JsString
jamo_names =
    js "jamo-giyeok"
    ∷ js "jamo-ssang-giyeok"
    ∷ js "jamo-nieun"
    ∷ js "jamo-digeut"
    ∷ js "jamo-ssang-digeut"
    ∷ js "jamo-rieul"
    ∷ js "jamo-mieum"
    ∷ js "jamo-bieub"
    ∷ js "jamo-ssang-bieub"
    ∷ js "jamo-siot"
    ∷ js "jamo-ssang-siot"
    ∷ js "jamo-ieung"
    ∷ js "jamo-jieut"
    ∷ js "jamo-ssang-jieut"
    ∷ js "jamo-chieut"
    ∷ js "jamo-kieuk"
    ∷ js "jamo-tieut"
    ∷ js "jamo-pieup"
    ∷ js "jamo-hieuh"
    ∷ []

abbrev pub vowel_names : List JsString
vowel_names =
    js "vowel-a"
    ∷ js "vowel-ae"
    ∷ js "vowel-ya"
    ∷ js "vowel-yae"
    ∷ js "vowel-eo"
    ∷ js "vowel-e"
    ∷ js "vowel-yeo"
    ∷ js "vowel-ye"
    ∷ js "vowel-o"
    ∷ js "vowel-wa"
    ∷ js "vowel-wae"
    ∷ js "vowel-oe"
    ∷ js "vowel-yo"
    ∷ js "vowel-u"
    ∷ js "vowel-wo"
    ∷ js "vowel-we"
    ∷ js "vowel-wi"
    ∷ js "vowel-yu"
    ∷ js "vowel-eu"
    ∷ js "vowel-ui"
    ∷ js "vowel-i"
    ∷ []

abbrev pub tail_names : List JsString
tail_names =
    js "tail-giyeok"
    ∷ js "tail-ssang-giyeok"
    ∷ js "tail-giyeok-siot"
    ∷ js "tail-nieun"
    ∷ js "tail-nieun-jieut"
    ∷ js "tail-nieun-hieuh"
    ∷ js "tail-digeut"
    ∷ js "tail-rieul"
    ∷ js "tail-rieul-giyeok"
    ∷ js "tail-rieul-mieum"
    ∷ js "tail-rieul-bieub"
    ∷ js "tail-rieul-siot"
    ∷ js "tail-rieul-tieut"
    ∷ js "tail-rieul-pieup"
    ∷ js "tail-rieul-hieuh"
    ∷ js "tail-mieum"
    ∷ js "tail-bieub"
    ∷ js "tail-bieub-siot"
    ∷ js "tail-siot"
    ∷ js "tail-ssang-siot"
    ∷ js "tail-ieung"
    ∷ js "tail-jieut"
    ∷ js "tail-chieut"
    ∷ js "tail-kieuk"
    ∷ js "tail-tieut"
    ∷ js "tail-pieup"
    ∷ js "tail-hieuh"
    ∷ []

-- HANGUL_INPUT_KEY_IDS
unfoldable pub hangul_input_key_ids : List JsString
hangul_input_key_ids = jamo_names ++ vowel_names ++ tail_names

unfoldable pub is_canonical_input_key_id : JsString → InputPolicy → Bool
is_canonical_input_key_id key_id numeric = is_one_digit (after (js "digit-") key_id)
is_canonical_input_key_id key_id ascii = is_printable_hex (after (js "ascii-") key_id)
is_canonical_input_key_id key_id hangul = includes hangul_input_key_ids key_id

-- `typeof key.id === "string" && !isCanonicalInputKeyId(key.id, policy)`
abbrev pub is_foreign_id : Value → InputPolicy → Bool
is_foreign_id (string id) policy = not (is_canonical_input_key_id id policy)
is_foreign_id _ policy = false

abbrev pub is_foreign_key : Value → InputPolicy → Bool
is_foreign_key (object fs) policy =
    is_text (get fs "role") (js "input") && is_foreign_id (get fs "id") policy
is_foreign_key _ policy = false

unfoldable pub policy_key_errors : InputPolicy → ℕ → ℕ → List Value → List JsString
policy_key_errors policy i j [] = []
policy_key_errors policy i j (key ∷ row) =
    report (is_foreign_key key policy) (key_path i j ++ js ".id is invalid for input policy")
    ++ policy_key_errors policy i (suc j) row

unfoldable pub policy_row_errors : InputPolicy → ℕ → List Value → List JsString
policy_row_errors policy i [] = []
policy_row_errors policy i (array row ∷ rows) =
    policy_key_errors policy i 0 (items row) ++ policy_row_errors policy (suc i) rows
policy_row_errors policy i (_ ∷ rows) = policy_row_errors policy (suc i) rows

abbrev pub policy_rows : InputPolicy → Value → List JsString
policy_rows policy (array rows) = policy_row_errors policy 0 (items rows)
policy_rows policy _ = []

unfoldable pub policy_errors : InputPolicy → Value → List JsString
policy_errors policy (object fs) = policy_rows policy (get fs "rows")
policy_errors policy _ = []

unfoldable pub validate_layout_for_policy : Value → InputPolicy → ValidationResult
validate_layout_for_policy value policy =
    result ((validate_layout value).errors ++ policy_errors policy value)
