-- ===== src/Web/Base64/RoundTrip.antt =====
-- Decoding inverts encoding.
use secure_keyboard.Prelude.{
  ℕ, suc, ◌+◌, ◌-◌, ◌*◌, ◌/◌, ◌%◌, ◌^◌, ◌≤◌, ◌<◌, ◌≡◌, refl, ap, ◌∙◌, true, [], ◌∷◌, arith, Option,
  some, length, all,
}
use secure_keyboard.Js.{JsString}
use secure_keyboard.Web.Base64.{
  Bytes, max_webauthn_binary_bytes, digit_char, is_base64url_char, encode_groups, encode_base64_url,
  Decoded, write_byte, decode_loop, finished, decode_base64_url,
}
use secure_keyboard.Web.Base64.Digits.{
  IsBytes, digit_char-plain, two_digits, third_digit, fourth_digit,
}

-- The loop reads these bytes and leaves no bit set behind them.
record Reads (r : Option Decoded) (bs : Bytes) : Type 0 where
  pub bits : ℕ
  pub last_digit : ℕ
  pub result : r ≡ some (record { output = bs; bits = bits; last_digit = last_digit })
  pub clean : last_digit % 2 ^ bits ≡ 0

Reads-write_byte :
    (r : Option Decoded) (b c : ℕ) (bs : Bytes)
    → b ≡ c
    → Reads r bs
    → Reads (write_byte b r) (c ∷ bs)
Reads-write_byte r b c bs e h = record {
  bits = h.bits;
  last_digit = h.last_digit;
  result =
      ap (write_byte b) h.result
      ∙ ap (λ (x : ℕ). some (record { output = x ∷ bs; bits = h.bits; last_digit = h.last_digit }))
          e;
  clean = h.clean;
}

ended :
    (size x bits index last : ℕ)
    → index ≡ size
    → last % 2 ^ bits ≡ 0
    → Reads (decode_loop size x bits index last []) []
unfolding decode_loop
ended size x bits index last full clean =
    let none_left : size - index ≡ 0 = omega (arith, full) in
    record { bits = bits; last_digit = last; result = rw none_left refl; clean = clean }

one_left :
    (size x index last a : ℕ)
    → a < 256
    → index + 1 ≡ size
    → Reads (decode_loop size x 0 index last (encode_groups (a ∷ []))) (a ∷ [])
unfolding encode_groups
one_left size x index last a h room =
    rw
      (two_digits size x index last (a / 4) (a % 4 * 16) [] (omega arith) (omega arith)
        (omega arith))
      (Reads-write_byte _ _ a [] (omega arith)
        (ended size _ 4 (suc index) (a % 4 * 16) (omega arith) (omega arith)))

two_left :
    (size x index last a b : ℕ)
    → a < 256
    → b < 256
    → index + 2 ≡ size
    → Reads (decode_loop size x 0 index last (encode_groups (a ∷ b ∷ []))) (a ∷ b ∷ [])
unfolding encode_groups
two_left size x index last a b h k room =
    rw
      (two_digits size x index last (a / 4) (a % 4 * 16 + b / 16) (digit_char (b % 16 * 4) ∷ [])
        (omega arith) (omega arith) (omega arith))
      (Reads-write_byte _ _ a (b ∷ []) (omega arith) (
        rw
          (third_digit size ((x * 64 + a / 4) % 4294967296) (suc index) (a % 4 * 16 + b / 16)
            (b % 16 * 4) [] (omega arith) (omega arith) (omega arith))
          (Reads-write_byte _ _ b [] (omega arith)
            (ended size _ 2 (suc (suc index)) (b % 16 * 4) (omega arith) (omega arith)))))

group_read :
    (size x index last a b c : ℕ) (cs : JsString) (rest : Bytes)
    → a < 256
    → b < 256
    → c < 256
    → index + 2 < size
    → ((y : ℕ) → Reads (decode_loop size y 0 (suc (suc (suc index))) (c % 64) cs) rest)
    → Reads
        (decode_loop size x 0 index last (
          digit_char (a / 4)
          ∷ digit_char (a % 4 * 16 + b / 16)
          ∷ digit_char (b % 16 * 4 + c / 64)
          ∷ digit_char (c % 64)
          ∷ cs))
        (a ∷ b ∷ c ∷ rest)
group_read size x index last a b c cs rest ha hb hc room more =
    let d1 = a / 4 in
    let d2 = a % 4 * 16 + b / 16 in
    let d3 = b % 16 * 4 + c / 64 in
    let y = (x * 64 + d1) % 4294967296 in
    let z = (y * 64 + d2) % 4294967296 in
    rw
      (two_digits size x index last d1 d2 (digit_char d3 ∷ digit_char (c % 64) ∷ cs) (omega arith)
        (omega arith) (omega arith))
      (Reads-write_byte _ _ a (b ∷ c ∷ rest) (omega arith) (
        rw
          (third_digit size y (suc index) d2 d3 (digit_char (c % 64) ∷ cs) (omega arith)
            (omega arith) (omega arith))
          (Reads-write_byte _ _ b (c ∷ rest) (omega arith) (
            rw
              (fourth_digit size z (suc (suc index)) d3 (c % 64) cs (omega arith) (omega arith)
                (omega arith))
              (Reads-write_byte _ _ c rest (omega arith) (more _))))))

groups_read :
    (bs : Bytes) (size x index last : ℕ)
    → IsBytes bs
    → index + length bs ≡ size
    → Reads (decode_loop size x 0 index last (encode_groups bs)) bs
unfolding encode_groups
groups_read [] size x index last h room = ended size x 0 index last (omega arith) (omega arith)
groups_read (a ∷ []) size x index last h room = one_left size x index last a h.0 room
groups_read (a ∷ b ∷ []) size x index last h room = two_left size x index last a b h.0 h.1.0 room
groups_read (a ∷ b ∷ c ∷ rest) size x index last (ha, (hb, (hc, more))) room =
    group_read size x index last a b c (encode_groups rest) rest ha hb hc (omega arith)
      (λ y. groups_read rest size y (suc (suc (suc index))) (c % 64) more (omega arith))

pub length-encode_groups : (bs : Bytes) → length (encode_groups bs) ≡ (length bs * 4 + 2) / 3
unfolding encode_groups
length-encode_groups [] = refl
length-encode_groups (a ∷ []) = refl
length-encode_groups (a ∷ b ∷ []) = refl
length-encode_groups (a ∷ b ∷ c ∷ rest) = omega (arith, length-encode_groups rest)

encode_groups-plain : (bs : Bytes) → IsBytes bs → all is_base64url_char (encode_groups bs) ≡ true
unfolding encode_groups
encode_groups-plain [] h = refl
encode_groups-plain (a ∷ []) h = ground (
  arith,
  digit_char-plain (a / 4) (omega (arith, h.0)),
  digit_char-plain (a % 4 * 16) (omega arith),
)
encode_groups-plain (a ∷ b ∷ []) h = ground (
  arith,
  digit_char-plain (a / 4) (omega (arith, h.0)),
  digit_char-plain (a % 4 * 16 + b / 16) (omega (arith, h.1.0)),
  digit_char-plain (b % 16 * 4) (omega arith),
)
encode_groups-plain (a ∷ b ∷ c ∷ rest) (ha, (hb, (hc, h))) = ground (
  arith,
  digit_char-plain (a / 4) (omega (arith, ha)),
  digit_char-plain (a % 4 * 16 + b / 16) (omega (arith, hb)),
  digit_char-plain (b % 16 * 4 + c / 64) (omega (arith, hc)),
  digit_char-plain (c % 64) (omega arith),
  encode_groups-plain rest h,
)

finished_clean :
    (max_bytes : ℕ) (r : Option Decoded) (bs : Bytes)
    → length bs ≤ max_bytes
    → Reads r bs
    → finished max_bytes r ≡ some bs
finished_clean max_bytes r bs fits h = rw h.result (ground (arith, h.clean))

-- Bytes that fit are encoded, and decoding the text with any bound that they fit yields them again.
pub decode-encode_base64_url :
    (bs : Bytes) (max_bytes : ℕ)
    → IsBytes bs
    → length bs ≤ max_bytes
    → max_bytes ≤ max_webauthn_binary_bytes
    → (text : JsString) × (encode_base64_url bs ≡ some text)
      × (decode_base64_url text max_bytes ≡ some bs)
unfolding encode_base64_url decode_base64_url
decode-encode_base64_url bs max_bytes h fits bound =
    let size = length-encode_groups bs in
    let exact : length (encode_groups bs) * 6 / 8 ≡ length bs = omega (arith, size) in
    let read = groups_read bs (length (encode_groups bs) * 6 / 8) 0 0 0 h (omega (arith, exact)) in
    let done = finished_clean max_bytes _ bs fits read in
    (
      encode_groups bs,
      ground (arith, fits, bound),
      ground (arith, encode_groups-plain bs h, size, fits, bound, done),
    )
