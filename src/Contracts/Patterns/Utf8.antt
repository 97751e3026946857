-- ===== src/Contracts/Patterns/Utf8.antt =====
-- `utf8ByteLength` against encoders of code points in UTF-16 and UTF-8.
use secure_keyboard.Prelude.{
  ℕ, ◌+◌, ◌-◌, ◌*◌, ◌/◌, ◌%◌, ◌<◌, ◌≡◌, refl, ap, ◌∙◌, ◌⊎◌, inl, inr, Bool-cases, Bool, true, List,
  [], ◌∷◌, ◌++◌, arith, ltb, if◌then◌else◌, All, length, length-append,
}
use secure_keyboard.Contracts.Patterns.{
  is_high, is_low, code_points, utf8_size, utf8_total, utf8_byte_length,
}

-- A Unicode scalar value: a code point that is no surrogate.
abbrev pub IsScalar : ℕ → Type 0
IsScalar c = (c < 0xd800) ⊎ ((0xdfff < c) × (c < 0x110000))

utf16_unit : ℕ → List ℕ
utf16_unit c =
    if ltb c 0x10000
    then c ∷ []
    else (0xd800 + (c - 0x10000) / 0x400) ∷ (0xdc00 + (c - 0x10000) % 0x400) ∷ []

-- The code units of a text, given by its code points.
pub utf16 : List ℕ → List ℕ
utf16 [] = []
utf16 (c ∷ cs) = utf16_unit c ++ utf16 cs

abbrev tail_byte : ℕ → ℕ
tail_byte c = 0x80 + c % 0x40

utf8_bytes : ℕ → List ℕ
utf8_bytes c =
    if ltb c 0x80
    then c ∷ []
    else if ltb c 0x800
    then (0xc0 + c / 0x40) ∷ tail_byte c ∷ []
    else if ltb c 0x10000
    then (0xe0 + c / 0x1000) ∷ tail_byte (c / 0x40) ∷ tail_byte c ∷ []
    else (0xf0 + c / 0x40000) ∷ tail_byte (c / 0x1000) ∷ tail_byte (c / 0x40) ∷ tail_byte c ∷ []

-- The bytes of the same text.
pub utf8 : List ℕ → List ℕ
utf8 [] = []
utf8 (c ∷ cs) = utf8_bytes c ++ utf8 cs

size_of_bytes : (c : ℕ) → length (utf8_bytes c) ≡ utf8_size c
unfolding utf8_bytes
size_of_bytes c = ground arith

code_points_small :
    (c : ℕ) (rest : List ℕ) → is_high c ≡ Bool.false → code_points (c ∷ rest) ≡ c ∷ code_points rest
unfolding code_points
code_points_small c [] h = refl
code_points_small c (l ∷ rest) h = ground arith

code_points_pair :
    (h l : ℕ) (rest : List ℕ)
    → is_high h ≡ true
    → is_low l ≡ true
    → code_points (h ∷ l ∷ rest)
      ≡ (0x10000 + (h - 0xd800) * 0x400 + (l - 0xdc00)) ∷ code_points rest
unfolding code_points
code_points_pair h l rest p q = ground arith

pair_value :
    (c : ℕ)
    → 0xdfff < c
    → c < 0x110000
    → ltb c 0x10000 ≡ Bool.false
    → (is_high (0xd800 + (c - 0x10000) / 0x400) ≡ true)
      × (is_low (0xdc00 + (c - 0x10000) % 0x400) ≡ true)
      × (0x10000
            + (0xd800 + (c - 0x10000) / 0x400 - 0xd800) * 0x400
            + (0xdc00 + (c - 0x10000) % 0x400 - 0xdc00)
          ≡ c)
pair_value c lo hi big = ground arith

code_points-unit :
    (c : ℕ) (rest : List ℕ) → IsScalar c → code_points (utf16_unit c ++ rest) ≡ c ∷ code_points rest
unfolding utf16_unit
code_points-unit c rest h = elim (Bool-cases (ltb c 0x10000)) [
  | inl small ↦ rw small (code_points_small c rest (ground arith))
  | inr big ↦
      let (p, q, e) = pair_value c (ground arith) (ground arith) big in
      rw big (code_points_pair _ _ rest p q ∙ ap (λ (n : ℕ). n ∷ code_points rest) e)
]

-- Iterating over a text yields the code points that it encodes.
pub code_points-utf16 : (cs : List ℕ) → All IsScalar cs → code_points (utf16 cs) ≡ cs
unfolding utf16
code_points-utf16 [] h = unfold code_points in refl
code_points-utf16 (c ∷ cs) (h, hs) =
    code_points-unit c (utf16 cs) h ∙ ap (λ (r : List ℕ). c ∷ r) (code_points-utf16 cs hs)

utf8_total-length : (cs : List ℕ) → utf8_total cs ≡ length (utf8 cs)
unfolding utf8
utf8_total-length [] = refl
utf8_total-length (c ∷ cs) =
    omega (arith, length-append {0} (utf8_bytes c) (utf8 cs), size_of_bytes c, utf8_total-length cs)

-- For every well-formed text the measure is the number of bytes of its UTF-8 form.
pub utf8_byte_length-utf16 :
    (cs : List ℕ) → All IsScalar cs → utf8_byte_length (utf16 cs) ≡ length (utf8 cs)
unfolding utf8_byte_length
utf8_byte_length-utf16 cs h = rw (code_points-utf16 cs h) (utf8_total-length cs)
