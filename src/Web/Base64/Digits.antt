-- ===== src/Web/Base64/Digits.antt =====
-- What the digits of a group decode to.
use secure_keyboard.Prelude.{
  ℕ, suc, ◌+◌, ◌-◌, ◌*◌, ◌/◌, ◌%◌, ◌^◌, ◌≤◌, ◌<◌, ◌≡◌, ap, ◌∙◌, true, ◌∷◌, arith, All,
}
use secure_keyboard.Js.{JsString}
use secure_keyboard.Web.Base64.{
  Bytes, digit_char, digit_of, is_base64url_char, write_byte, decode_loop,
}

abbrev pub IsBytes : Bytes → Type 0
IsBytes bs = All (λ b. b < 256) bs

pub digit_of-digit_char : (d : ℕ) → d < 64 → digit_of (digit_char d) ≡ d
digit_of-digit_char d h = ground arith

pub digit_char-plain : (d : ℕ) → d < 64 → is_base64url_char (digit_char d) ≡ true
digit_char-plain d h = ground arith

-- The first byte of a group, whatever the accumulator holds.
first_byte :
    (x d e : ℕ)
    → d < 64
    → e < 64
    → ((x * 64 + d) % 4294967296 * 64 + e) % 4294967296 / 16 % 256 ≡ d * 4 + e / 16
first_byte x d e h k = omega arith

second_byte :
    (x d e : ℕ)
    → d < 64
    → e < 64
    → ((x * 64 + d) % 4294967296 * 64 + e) % 4294967296 / 4 % 256 ≡ d % 16 * 16 + e / 4
second_byte x d e h k = omega arith

third_byte :
    (x d e : ℕ)
    → d < 64
    → e < 64
    → ((x * 64 + d) % 4294967296 * 64 + e) % 4294967296 % 256 ≡ d % 4 * 64 + e
third_byte x d e h k = omega arith

-- A digit that completes no byte.
step_short :
    (size x index last d : ℕ) (cs : JsString)
    → d < 64
    → decode_loop size x 0 index last (digit_char d ∷ cs)
      ≡ decode_loop size ((x * 64 + d) % 4294967296) 6 index d cs
unfolding decode_loop
step_short size x index last d cs h = rw (digit_of-digit_char d h) (ground (arith, h))

-- A digit that completes a byte.
step_long :
    (size x bits index last d : ℕ) (cs : JsString)
    → d < 64
    → 2 ≤ bits
    → index < size
    → decode_loop size x bits index last (digit_char d ∷ cs)
      ≡ write_byte
          ((x * 64 + d) % 4294967296 / 2 ^ (bits + 6 - 8) % 256)
          (decode_loop size ((x * 64 + d) % 4294967296) (bits + 6 - 8) (suc index) d cs)
unfolding decode_loop
step_long size x bits index last d cs h two room =
    rw (digit_of-digit_char d h) (ground (arith, h, two, room))

-- Two digits, from the start of a group.
pub two_digits :
    (size x index last d e : ℕ) (cs : JsString)
    → d < 64
    → e < 64
    → index < size
    → decode_loop size x 0 index last (digit_char d ∷ digit_char e ∷ cs)
      ≡ write_byte
          (d * 4 + e / 16)
          (decode_loop size (((x * 64 + d) % 4294967296 * 64 + e) % 4294967296) 4 (suc index) e cs)
two_digits size x index last d e cs h k room =
    step_short size x index last d (digit_char e ∷ cs) h
    ∙ step_long size _ 6 index d e cs k (omega arith) room
    ∙ ap
        (λ (b : ℕ).
          write_byte b (
            decode_loop size (((x * 64 + d) % 4294967296 * 64 + e) % 4294967296) 4 (suc index) e
              cs))
        (first_byte x d e h k)

-- The third and the fourth digit of a group; the accumulator ends in the digit before.
pub third_digit :
    (size y index d e : ℕ) (cs : JsString)
    → d < 64
    → e < 64
    → index < size
    → decode_loop size ((y * 64 + d) % 4294967296) 4 index d (digit_char e ∷ cs)
      ≡ write_byte
          (d % 16 * 16 + e / 4)
          (decode_loop size (((y * 64 + d) % 4294967296 * 64 + e) % 4294967296) 2 (suc index) e cs)
third_digit size y index d e cs h k room =
    step_long size _ 4 index d e cs k (omega arith) room
    ∙ ap
        (λ (b : ℕ).
          write_byte b (
            decode_loop size (((y * 64 + d) % 4294967296 * 64 + e) % 4294967296) 2 (suc index) e
              cs))
        (second_byte y d e h k)

pub fourth_digit :
    (size y index d e : ℕ) (cs : JsString)
    → d < 64
    → e < 64
    → index < size
    → decode_loop size ((y * 64 + d) % 4294967296) 2 index d (digit_char e ∷ cs)
      ≡ write_byte
          (d % 4 * 64 + e)
          (decode_loop size (((y * 64 + d) % 4294967296 * 64 + e) % 4294967296) 0 (suc index) e cs)
fourth_digit size y index d e cs h k room =
    step_long size _ 2 index d e cs k (omega arith) room
    ∙ ap
        (λ (b : ℕ).
          write_byte b (
            decode_loop size (((y * 64 + d) % 4294967296 * 64 + e) % 4294967296) 0 (suc index) e
              cs))
        (omega (arith, third_byte y d e h k))
