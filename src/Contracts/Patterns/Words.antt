-- ===== src/Contracts/Patterns/Words.antt =====
-- What the three patterns accept, said of the characters and the length.
use secure_keyboard.Prelude.{
  ℕ, ◌≤◌, ◌≡◌, refl, ap, ◌↔◌, Bool-cases, ◌⊎◌, inl, inr, true, [], ◌∷◌, ◌++◌, arith, All, length,
}
use secure_keyboard.Js.{JsString}
use secure_keyboard.Contracts.Patterns.{
  is_key_head, is_key_tail, matches_key_id, is_letter, is_alphanumeric, matches_subtag,
  matches_language_tail, matches_locale, is_hex, matches_color,
}
use secure_keyboard.Contracts.Reports.{all_iff}

abbrev pub Between : ℕ → ℕ → ℕ → Type 0
Between lo hi c = (lo ≤ c) × (c ≤ hi)

abbrev pub IsPunctuation : ℕ → Type 0
IsPunctuation c = (c ≡ b'.') ⊎ (c ≡ b'_') ⊎ (c ≡ b'-')

abbrev pub IsLowerOrDigit : ℕ → Type 0
IsLowerOrDigit c = Between b'a' b'z' c ⊎ Between b'0' b'9' c

-- Lower-case letters, digits and `.`, `_`, `-`, none of the last three in front, 1 to 64 of them.
abbrev pub IsKeyId : JsString → Type 0
IsKeyId [] = ⊥
IsKeyId (c ∷ cs) =
    (¬ IsPunctuation c)
    × All (λ x. IsLowerOrDigit x ⊎ IsPunctuation x) (c ∷ cs)
    × (length (c ∷ cs) ≤ 64)

key_tail_iff : (c : ℕ) → (is_key_tail c ≡ true) ↔ (IsLowerOrDigit c ⊎ IsPunctuation c)
key_tail_iff c = ground arith

key_head_iff : (c : ℕ) → (is_key_head c ≡ true) ↔ IsLowerOrDigit c
key_head_iff c = ground arith

head_plain : (c : ℕ) → IsLowerOrDigit c → ¬ IsPunctuation c
head_plain c h p = ground arith

-- A text matches KEY_ID_PATTERN exactly when it has 1 to 64 lower-case letters, digits, dots,
-- underscores and hyphens, and starts with a letter or a digit.
pub matches_key_id_iff : (t : JsString) → (matches_key_id t ≡ true) ↔ IsKeyId t
unfolding matches_key_id
matches_key_id_iff [] = ground arith
matches_key_id_iff (c ∷ cs) = ground (
  arith,
  all_iff is_key_tail (λ x. IsLowerOrDigit x ⊎ IsPunctuation x) key_tail_iff cs,
  key_head_iff c,
  head_plain c,
)

abbrev pub IsLetter : ℕ → Type 0
IsLetter c = Between b'A' b'Z' c ⊎ Between b'a' b'z' c

abbrev pub IsAlphanumeric : ℕ → Type 0
IsAlphanumeric c = IsLetter c ⊎ Between b'0' b'9' c

-- What follows the hyphen.
abbrev pub IsRegion : JsString → Type 0
IsRegion t = All IsAlphanumeric t × (2 ≤ length t) × (length t ≤ 8)

-- A language of two or three letters, and perhaps a hyphen with two to eight letters or digits.
pub record IsLocale (t : JsString) : Type 0 where
  pub language : JsString
  pub subtag : JsString
  pub whole : t ≡ language ++ subtag
  pub letters : All IsLetter language
  pub sizes : (length language ≡ 2) ⊎ (length language ≡ 3)
  pub region : (subtag ≡ []) ⊎ ((region : JsString) × (subtag ≡ b'-' ∷ region) × IsRegion region)

is_letter_iff : (c : ℕ) → (is_letter c ≡ true) ↔ IsLetter c
is_letter_iff c = ground arith

is_alphanumeric_iff : (c : ℕ) → (is_alphanumeric c ≡ true) ↔ IsAlphanumeric c
is_alphanumeric_iff c = ground arith

subtag_sound :
    (t : JsString)
    → matches_subtag t ≡ true
    → (t ≡ []) ⊎ ((region : JsString) × (t ≡ b'-' ∷ region) × IsRegion region)
unfolding matches_subtag
subtag_sound [] h = inl refl
subtag_sound (c ∷ cs) h =
    let e : c ≡ b'-' = ground arith in
    inr (
      cs,
      ap (λ (x : ℕ). x ∷ cs) e,
      ground (arith, all_iff is_alphanumeric IsAlphanumeric is_alphanumeric_iff cs),
    )

subtag_complete : (region : JsString) → IsRegion region → matches_subtag (b'-' ∷ region) ≡ true
unfolding matches_subtag
subtag_complete region h =
    ground (arith, all_iff is_alphanumeric IsAlphanumeric is_alphanumeric_iff region)

matches_locale-IsLocale : (t : JsString) → matches_locale t ≡ true → IsLocale t
unfolding matches_locale
matches_locale-IsLocale [] h = cc
matches_locale-IsLocale (a ∷ []) h = cc
matches_locale-IsLocale (a ∷ b ∷ []) h = record {
  language = a ∷ b ∷ [];
  subtag = [];
  whole = refl;
  letters = ground (arith, is_letter_iff a, is_letter_iff b);
  sizes = inl refl;
  region = inl refl;
}
matches_locale-IsLocale (a ∷ b ∷ c ∷ cs) h = elim (Bool-cases (is_letter c)) [
  | inl letter ↦ record {
    language = a ∷ b ∷ c ∷ [];
    subtag = cs;
    whole = refl;
    letters = ground (arith, is_letter_iff a, is_letter_iff b, is_letter_iff c);
    sizes = inr refl;
    region = subtag_sound cs (ground arith);
  }
  | inr other ↦ record {
    language = a ∷ b ∷ [];
    subtag = c ∷ cs;
    whole = refl;
    letters = ground (arith, is_letter_iff a, is_letter_iff b);
    sizes = inl refl;
    region = subtag_sound (c ∷ cs) (ground arith);
  }
]

language_tail_complete :
    (subtag : JsString)
    → (subtag ≡ []) ⊎ ((region : JsString) × (subtag ≡ b'-' ∷ region) × IsRegion region)
    → (matches_subtag subtag ≡ true) × (matches_language_tail subtag ≡ true)
unfolding matches_language_tail
language_tail_complete subtag (inl e) = rw e (refl, refl)
language_tail_complete subtag (inr (region, e, h)) =
    rw e (subtag_complete region h, subtag_complete region h)

locale_complete_at :
    (language subtag : JsString)
    → All IsLetter language
    → (length language ≡ 2) ⊎ (length language ≡ 3)
    → (subtag ≡ []) ⊎ ((region : JsString) × (subtag ≡ b'-' ∷ region) × IsRegion region)
    → matches_locale (language ++ subtag) ≡ true
unfolding matches_locale
locale_complete_at [] subtag l s r = absurd (omega arith)
locale_complete_at (a ∷ []) subtag l s r = absurd (omega arith)
locale_complete_at (a ∷ b ∷ []) subtag l s r =
    ground (arith, is_letter_iff a, is_letter_iff b, language_tail_complete subtag r)
locale_complete_at (a ∷ b ∷ c ∷ []) subtag l s r =
    ground
      (arith, is_letter_iff a, is_letter_iff b, is_letter_iff c, language_tail_complete subtag r)
locale_complete_at (a ∷ b ∷ c ∷ d ∷ rest) subtag l s r = absurd (omega arith)

-- A text matches LOCALE_PATTERN exactly when it splits into a language and an optional subtag.
pub matches_locale_iff : (t : JsString) → (matches_locale t ≡ true) ↔ IsLocale t
matches_locale_iff t = (
  matches_locale-IsLocale t,
  λ r. rw r.whole (locale_complete_at r.language r.subtag r.letters r.sizes r.region),
)

abbrev pub IsHex : ℕ → Type 0
IsHex c = Between b'0' b'9' c ⊎ Between b'a' b'f' c ⊎ Between b'A' b'F' c

-- A number sign with six or eight hexadecimal digits.
abbrev pub IsColor : JsString → Type 0
IsColor [] = ⊥
IsColor (c ∷ cs) = (c ≡ b'#') × All IsHex cs × ((length cs ≡ 6) ⊎ (length cs ≡ 8))

is_hex_iff : (c : ℕ) → (is_hex c ≡ true) ↔ IsHex c
is_hex_iff c = ground arith

-- A text matches COLOR_PATTERN exactly when it is a number sign with six or eight hexadecimal digits.
pub matches_color_iff : (t : JsString) → (matches_color t ≡ true) ↔ IsColor t
unfolding matches_color
matches_color_iff [] = ground arith
matches_color_iff (c ∷ cs) = ground (arith, all_iff is_hex IsHex is_hex_iff cs)
