-- ===== src/Contracts/Policy/Ids.antt =====
-- Which key IDs are canonical for an input policy.
use secure_keyboard.Prelude.{
  ℕ, ◌+◌, ◌-◌, ◌*◌, ◌/◌, ◌%◌, ◌<◌, ◌≡◌, refl, ap, ◌↔◌, inl, inr, Bool-cases, true, [], ◌∷◌, ◌++◌,
  arith, Option, none, some, ltb, ◌==◌, ==_iff, if◌then◌else◌,
}
use secure_keyboard.Js.{JsString, js}
use secure_keyboard.Contracts.Patterns.Words.{Between}
use secure_keyboard.Contracts.Reports.{OneOf, includes_iff}
use secure_keyboard.Contracts.Policy.{
  InputPolicy, numeric, ascii, hangul, after, is_one_digit, is_lower_hex, hex_value,
  is_printable_hex, hangul_input_key_ids, is_canonical_input_key_id,
}

-- A number below 16 as a digit, and a number below 256 as two.
abbrev pub hex_digit : ℕ → ℕ
hex_digit n = if ltb n 10 then b'0' + n else b'a' + (n - 10)

abbrev pub hex_pair : ℕ → JsString
hex_pair n = hex_digit (n / 16) ∷ hex_digit (n % 16) ∷ []

-- `digit-` with a digit, `ascii-` with a printable character's code, or a name of the table.
abbrev pub IsInputId : InputPolicy → JsString → Type 0
IsInputId numeric id = (c : ℕ) × Between b'0' b'9' c × (id ≡ js "digit-" ++ (c ∷ []))
IsInputId ascii id = (n : ℕ) × Between 0x20 0x7e n × (id ≡ js "ascii-" ++ hex_pair n)
IsInputId hangul id = OneOf hangul_input_key_ids id

after-append : (p t : JsString) → after p (p ++ t) ≡ some t
unfolding after
after-append [] t = refl
after-append (c ∷ p) t = rw ((==_iff c c).1 refl) (after-append p t)

after_sound : (p t rest : JsString) → after p t ≡ some rest → t ≡ p ++ rest
unfolding after
after_sound [] t rest h = cc
after_sound (x ∷ p) [] rest h = cc
after_sound (x ∷ p) (y ∷ t) rest h = elim (Bool-cases (x == y)) [
  | inl same ↦ ground (arith, after_sound p t rest)
  | inr other ↦ ground arith
]

one_digit_sound :
    (o : Option JsString)
    → is_one_digit o ≡ true
    → (c : ℕ) × Between b'0' b'9' c × (o ≡ some (c ∷ []))
one_digit_sound none h = cc
one_digit_sound (some []) h = cc
one_digit_sound (some (c ∷ [])) h = (c, ground arith, refl)
one_digit_sound (some (c ∷ d ∷ t)) h = cc

hex_digit-value :
    (c : ℕ) → is_lower_hex c ≡ true → (hex_value c < 16) × (hex_digit (hex_value c) ≡ c)
hex_digit-value c h = ground arith

hex_value-digit :
    (n : ℕ) → n < 16 → (is_lower_hex (hex_digit n) ≡ true) × (hex_value (hex_digit n) ≡ n)
hex_value-digit n h = ground arith

hex_pair-value :
    (h l : ℕ)
    → is_lower_hex h ≡ true
    → is_lower_hex l ≡ true
    → h ∷ l ∷ [] ≡ hex_pair (hex_value h * 16 + hex_value l)
hex_pair-value h l p q =
    let (a, e) = hex_digit-value h p in
    let (b, f) = hex_digit-value l q in
    let high : (hex_value h * 16 + hex_value l) / 16 ≡ hex_value h = omega arith in
    let low : (hex_value h * 16 + hex_value l) % 16 ≡ hex_value l = omega arith in
    rw (high, low, e, f)

printable_sound :
    (o : Option JsString)
    → is_printable_hex o ≡ true
    → (n : ℕ) × Between 0x20 0x7e n × (o ≡ some (hex_pair n))
printable_sound none h = cc
printable_sound (some []) h = cc
printable_sound (some (a ∷ [])) h = cc
printable_sound (some (a ∷ b ∷ [])) h = (
  hex_value a * 16 + hex_value b,
  ground arith,
  ap some (hex_pair-value a b (ground arith) (ground arith)),
)
printable_sound (some (a ∷ b ∷ c ∷ t)) h = cc

printable_complete : (n : ℕ) → Between 0x20 0x7e n → is_printable_hex (some (hex_pair n)) ≡ true
printable_complete n h =
    let (p, e) = hex_value-digit (n / 16) (omega arith) in
    let (q, f) = hex_value-digit (n % 16) (omega arith) in ground arith

-- The canonical IDs of a policy are exactly those of its form.
pub is_canonical_input_key_id_iff :
    (id : JsString) (policy : InputPolicy)
    → (is_canonical_input_key_id id policy ≡ true) ↔ IsInputId policy id
unfolding is_canonical_input_key_id
is_canonical_input_key_id_iff id numeric = (
  λ h.
      let (c, range, e) = one_digit_sound (after (js "digit-") id) h in
      (c, range, after_sound (js "digit-") id _ e),
  λ p. rw (p.2, after-append) (ground arith),
)
is_canonical_input_key_id_iff id ascii = (
  λ h.
      let (n, range, e) = printable_sound (after (js "ascii-") id) h in
      (n, range, after_sound (js "ascii-") id _ e),
  λ p. rw (p.2, after-append) (printable_complete p.0 p.1),
)
is_canonical_input_key_id_iff id hangul = includes_iff hangul_input_key_ids id
