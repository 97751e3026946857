-- ===== src/Web/Base64.antt =====
-- `encodeBase64Url` and `decodeBase64Url`.
--
-- A digit is found by its range of the alphabet. The accumulator of the source is a 32-bit integer
-- of which only the low 14 bits are read; it is kept here modulo 2^32.
pub mod Digits
pub mod RoundTrip
pub mod Canonical
use secure_keyboard.Prelude.{
  ℕ, zero, suc, ◌+◌, ◌-◌, ◌*◌, ◌/◌, ◌%◌, ◌^◌, Bool, true, false, not, ◌&&◌, ◌||◌, ◌==◌, List, [],
  ◌∷◌, ◌++◌, Option, none, some, leb, ltb, if◌then◌else◌, length, all, replicate,
}
use secure_keyboard.Js.{JsString, is_digit, is_lower, is_upper}

abbrev pub Bytes : Type 0
Bytes = List ℕ

-- MAX_WEBAUTHN_BINARY_BYTES
abbrev pub max_webauthn_binary_bytes : ℕ
max_webauthn_binary_bytes = 8 * 1024

-- `BASE64URL_ALPHABET[digit]`
abbrev pub digit_char : ℕ → ℕ
digit_char d =
    if ltb d 26
    then b'A' + d
    else if ltb d 52
    then b'a' + (d - 26)
    else if ltb d 62
    then b'0' + (d - 52)
    else if d == 62
    then b'-'
    else b'_'

-- `BASE64URL_ALPHABET.indexOf(character)`; 64 where there is none.
abbrev pub digit_of : ℕ → ℕ
digit_of c =
    if is_upper c
    then c - b'A'
    else if is_lower c
    then c - b'a' + 26
    else if is_digit c
    then c - b'0' + 52
    else if c == b'-'
    then 62
    else if c == b'_'
    then 63
    else 64

-- `/^[A-Za-z0-9_-]*$/`
abbrev pub is_base64url_char : ℕ → Bool
is_base64url_char c = is_upper c || is_lower c || is_digit c || c == b'_' || c == b'-'

-- The loop over groups of three bytes.
unfoldable pub encode_groups : Bytes → JsString
encode_groups [] = []
encode_groups (a ∷ []) = digit_char (a / 4) ∷ digit_char (a % 4 * 16) ∷ []
encode_groups (a ∷ b ∷ []) =
    digit_char (a / 4) ∷ digit_char (a % 4 * 16 + b / 16) ∷ digit_char (b % 16 * 4) ∷ []
encode_groups (a ∷ b ∷ c ∷ rest) =
    digit_char (a / 4)
    ∷ digit_char (a % 4 * 16 + b / 16)
    ∷ digit_char (b % 16 * 4 + c / 64)
    ∷ digit_char (c % 64)
    ∷ encode_groups rest

-- none stands for a thrown WebAuthnClientError.
unfoldable pub encode_base64_url : Bytes → Option JsString
encode_base64_url bytes =
    if ltb max_webauthn_binary_bytes (length bytes) then none else some (encode_groups bytes)

-- What the decoding loop leaves: the output, the number of bits left over and the last digit.
pub record Decoded : Type 0 where
  pub output : Bytes
  pub bits : ℕ
  pub last_digit : ℕ

abbrev pub write_byte : ℕ → Option Decoded → Option Decoded
write_byte byte none = none
write_byte byte (some d) = some (record d { output = byte ∷ d.output })

-- The loop over the characters; a buffer of `size` zeros is filled from `index` on.
unfoldable pub decode_loop : ℕ → ℕ → ℕ → ℕ → ℕ → JsString → Option Decoded
decode_loop size accumulator bits index last_digit [] =
    some (record { output = replicate (size - index) 0; bits = bits; last_digit = last_digit })
decode_loop size accumulator bits index last_digit (c ∷ cs) =
    let next = (accumulator * 64 + digit_of c) % 2 ^ 32 in
    let more = decode_loop size next (bits + 6) index (digit_of c) cs in
    let written = decode_loop size next (bits + 6 - 8) (suc index) (digit_of c) cs in
    if digit_of c == 64
    then none
    else if ltb (bits + 6) 8
    then more
    else if leb size index
    then none
    else write_byte (next / 2 ^ (bits + 6 - 8) % 256) written

-- The bits left over are zero, and the output is not too long.
abbrev pub finished : ℕ → Option Decoded → Option Bytes
finished max_bytes none = none
finished max_bytes (some d) =
    if ltb 0 d.bits && not (d.last_digit % 2 ^ d.bits == 0)
    then none
    else if ltb max_bytes (length d.output)
    then none
    else some d.output

-- `Math.ceil((maxBytes * 8) / 6)`
abbrev pub max_encoded_length : ℕ → ℕ
max_encoded_length max_bytes = (max_bytes * 8 + 5) / 6

-- `maxBytes` is a natural number; none stands for a thrown WebAuthnClientError.
unfoldable pub decode_base64_url : JsString → ℕ → Option Bytes
unfolding decode_loop
decode_base64_url value max_bytes =
    if ltb max_webauthn_binary_bytes max_bytes
    then none
    else if ltb (max_encoded_length max_bytes) (length value) || not (all is_base64url_char value)
    then none
    else if length value % 4 == 1
    then none
    else finished max_bytes (decode_loop (length value * 6 / 8) 0 0 0 0 value)
