-- ===== src/Web/Base64/Canonical.antt =====
-- A text that decodes is the encoding of its bytes.
use secure_keyboard.Prelude.{
  ℕ, suc, ◌+◌, ◌-◌, ◌*◌, ◌/◌, ◌%◌, ◌^◌, ◌≤◌, ◌<◌, ◌≡◌, ◌≢◌, refl, ap, ◌∙◌, sym, true, List, [], ◌∷◌,
  arith, Option, some, length, all, All,
}
use secure_keyboard.Js.{JsString}
use secure_keyboard.Web.Base64.{
  Bytes, max_webauthn_binary_bytes, digit_char, digit_of, is_base64url_char, encode_groups,
  encode_base64_url, Decoded, write_byte, decode_loop, finished, decode_base64_url,
}
use secure_keyboard.Web.Base64.Digits.{two_digits, third_digit, fourth_digit}

abbrev chars : List ℕ → JsString
chars [] = []
chars (d ∷ ds) = digit_char d ∷ chars ds

abbrev digits : JsString → List ℕ
digits [] = []
digits (c ∷ cs) = digit_of c ∷ digits cs

length-digits : (cs : JsString) → length (digits cs) ≡ length cs
length-digits [] = refl
length-digits (c ∷ cs) = ap suc (length-digits cs)

digit_char-digit_of :
    (c : ℕ) → is_base64url_char c ≡ true → (digit_char (digit_of c) ≡ c) × (digit_of c < 64)
digit_char-digit_of c h = ground arith

chars-digits :
    (cs : JsString)
    → all is_base64url_char cs ≡ true
    → (chars (digits cs) ≡ cs) × All (λ d. d < 64) (digits cs)
chars-digits [] h = (refl, tt)
chars-digits (c ∷ cs) h =
    let plain : is_base64url_char c ≡ true = ground arith in
    let more : all is_base64url_char cs ≡ true = ground arith in
    let (e, lt) = digit_char-digit_of c plain in
    let (es, lts) = chars-digits cs more in ((λ i. e i ∷ es i), (lt, lts))

-- The loop returns, and a clean end means that the text is the encoding of the output.
record Canonical (r : Option Decoded) (text : JsString) : Type 0 where
  pub read : Decoded
  pub result : r ≡ some read
  pub back : read.last_digit % 2 ^ read.bits ≡ 0 → encode_groups read.output ≡ text

ended :
    (size x bits index last : ℕ)
    → index ≡ size
    → decode_loop size x bits index last []
      ≡ some (record { output = []; bits = bits; last_digit = last })
unfolding decode_loop
ended size x bits index last full =
    let none_left : size - index ≡ 0 = omega (arith, full) in rw none_left refl

two-Canonical :
    (size x index last d e : ℕ)
    → d < 64
    → e < 64
    → index + 1 ≡ size
    → Canonical (decode_loop size x 0 index last (chars (d ∷ e ∷ []))) (chars (d ∷ e ∷ []))
unfolding encode_groups
two-Canonical size x index last d e h k room =
    let y = ((x * 64 + d) % 4294967296 * 64 + e) % 4294967296 in
    record {
      read = record { output = (d * 4 + e / 16) ∷ []; bits = 4; last_digit = e };
      result =
          two_digits size x index last d e [] h k (omega arith)
          ∙ ap (write_byte (d * 4 + e / 16)) (ended size y 4 (suc index) e (omega arith));
      back = λ clean.
          let e1 : (d * 4 + e / 16) / 4 ≡ d = omega arith in
          let e2 : (d * 4 + e / 16) % 4 * 16 ≡ e = omega (arith, clean) in
          λ i. digit_char (e1 i) ∷ digit_char (e2 i) ∷ [];
    }

three-Canonical :
    (size x index last d e f : ℕ)
    → d < 64
    → e < 64
    → f < 64
    → index + 2 ≡ size
    → Canonical (decode_loop size x 0 index last (chars (d ∷ e ∷ f ∷ []))) (chars (d ∷ e ∷ f ∷ []))
unfolding encode_groups
three-Canonical size x index last d e f h k l room =
    let y = (x * 64 + d) % 4294967296 in
    let z = ((y * 64 + e) % 4294967296 * 64 + f) % 4294967296 in
    let b1 = d * 4 + e / 16 in
    let b2 = e % 16 * 16 + f / 4 in
    record {
      read = record { output = b1 ∷ b2 ∷ []; bits = 2; last_digit = f };
      result =
          two_digits size x index last d e (chars (f ∷ [])) h k (omega arith)
          ∙ ap (write_byte b1) (
              third_digit size y (suc index) e f [] k l (omega arith)
              ∙ ap (write_byte b2) (ended size z 2 (suc (suc index)) f (omega arith)));
      back = λ clean.
          let e1 : (d * 4 + e / 16) / 4 ≡ d = omega arith in
          let e2 : (d * 4 + e / 16) % 4 * 16 + (e % 16 * 16 + f / 4) / 16 ≡ e = omega arith in
          let e3 : (e % 16 * 16 + f / 4) % 16 * 4 ≡ f = omega (arith, clean) in
          λ i. digit_char (e1 i) ∷ digit_char (e2 i) ∷ digit_char (e3 i) ∷ [];
    }

group-Canonical :
    (size x index last d e f g : ℕ) (cs : JsString)
    → d < 64
    → e < 64
    → f < 64
    → g < 64
    → index + 2 < size
    → ((y : ℕ) → Canonical (decode_loop size y 0 (suc (suc (suc index))) g cs) cs)
    → Canonical
        (decode_loop size x 0 index last
          (digit_char d ∷ digit_char e ∷ digit_char f ∷ digit_char g ∷ cs))
        (digit_char d ∷ digit_char e ∷ digit_char f ∷ digit_char g ∷ cs)
unfolding encode_groups
group-Canonical size x index last d e f g cs h k l m room more =
    let y = (x * 64 + d) % 4294967296 in
    let z = (y * 64 + e) % 4294967296 in
    let b1 = d * 4 + e / 16 in
    let b2 = e % 16 * 16 + f / 4 in
    let b3 = f % 4 * 64 + g in
    let rest = more (((z * 64 + f) % 4294967296 * 64 + g) % 4294967296) in
    record {
      read = record {
        output = b1 ∷ b2 ∷ b3 ∷ rest.read.output;
        bits = rest.read.bits;
        last_digit = rest.read.last_digit;
      };
      result =
          two_digits size x index last d e (digit_char f ∷ digit_char g ∷ cs) h k (omega arith)
          ∙ ap (write_byte b1) (
              third_digit size y (suc index) e f (digit_char g ∷ cs) k l (omega arith)
              ∙ ap (write_byte b2) (
                  fourth_digit size z (suc (suc index)) f g cs l m (omega arith)
                  ∙ ap (write_byte b3) rest.result));
      back = λ clean.
          let e1 : (d * 4 + e / 16) / 4 ≡ d = omega arith in
          let e2 : (d * 4 + e / 16) % 4 * 16 + (e % 16 * 16 + f / 4) / 16 ≡ e = omega arith in
          let e3 : (e % 16 * 16 + f / 4) % 16 * 4 + (f % 4 * 64 + g) / 64 ≡ f = omega arith in
          let e4 : (f % 4 * 64 + g) % 64 ≡ g = omega arith in
          let es = rest.back clean in
          λ i. digit_char (e1 i) ∷ digit_char (e2 i) ∷ digit_char (e3 i) ∷ digit_char (e4 i) ∷ es i;
    }

digits-Canonical :
    (ds : List ℕ) (size x index last : ℕ)
    → All (λ d. d < 64) ds
    → length ds % 4 ≢ 1
    → index + length ds * 6 / 8 ≡ size
    → Canonical (decode_loop size x 0 index last (chars ds)) (chars ds)
unfolding encode_groups
digits-Canonical [] size x index last h odd room = record {
  read = record { output = []; bits = 0; last_digit = last };
  result = ended size x 0 index last (omega (arith, room));
  back = λ clean. refl;
}
digits-Canonical (d ∷ []) size x index last h odd room = absurd (odd refl)
digits-Canonical (d ∷ e ∷ []) size x index last (h, (k, _)) odd room =
    two-Canonical size x index last d e h k (omega (arith, room))
digits-Canonical (d ∷ e ∷ f ∷ []) size x index last (h, (k, (l, _))) odd room =
    three-Canonical size x index last d e f h k l (omega (arith, room))
digits-Canonical (d ∷ e ∷ f ∷ g ∷ ds) size x index last (h, (k, (l, (m, more)))) odd room =
    group-Canonical size x index last d e f g (chars ds) h k l m (omega (arith, room)) (λ y.
      digits-Canonical ds size y (suc (suc (suc index))) g more (λ one. odd (omega (arith, one)))
        (omega (arith, room)))

no_bits : (bits last : ℕ) → bits ≡ 0 → last % 2 ^ bits ≡ 0
no_bits bits last e = rw e (omega arith)

finished_inv :
    (max_bytes : ℕ) (d : Decoded) (bs : Bytes)
    → finished max_bytes (some d) ≡ some bs
    → (d.output ≡ bs) × (d.last_digit % 2 ^ d.bits ≡ 0) × (length d.output ≤ max_bytes)
finished_inv max_bytes d bs h =
    (ground arith, ground (arith, no_bits d.bits d.last_digit), ground arith)

-- What the guards of the decoder have checked when the loop is entered.
decode_inv :
    (text : JsString) (max_bytes : ℕ) (bs : Bytes)
    → decode_base64_url text max_bytes ≡ some bs
    → (max_bytes ≤ max_webauthn_binary_bytes)
      × (all is_base64url_char text ≡ true)
      × (length text % 4 ≢ 1)
      × (finished max_bytes (decode_loop (length text * 6 / 8) 0 0 0 0 text) ≡ some bs)
unfolding decode_base64_url
decode_inv text max_bytes bs h = (ground arith, ground arith, ground arith, ground arith)

-- A text that decodes is the one encoding of the bytes it yields, and they fit the bound; so two
-- texts never decode to the same bytes.
pub encode-decode_base64_url :
    (text : JsString) (max_bytes : ℕ) (bs : Bytes)
    → decode_base64_url text max_bytes ≡ some bs
    → (encode_base64_url bs ≡ some text) × (length bs ≤ max_bytes)
unfolding encode_base64_url
encode-decode_base64_url text max_bytes bs h =
    let (bound, plain, odd, loop) = decode_inv text max_bytes bs h in
    let (same, small) = chars-digits text plain in
    let size = length-digits text in
    let r =
      digits-Canonical (digits text) (length text * 6 / 8) 0 0 0 small
        (λ one. odd (omega (arith, one, size))) (omega (arith, size)) in
    let result : decode_loop (length text * 6 / 8) 0 0 0 0 text ≡ some r.read =
      ap (λ (t : JsString). decode_loop (length text * 6 / 8) 0 0 0 0 t) (sym same) ∙ r.result in
    let (output, clean, fits) =
      finished_inv max_bytes r.read bs (ap (finished max_bytes) (sym result) ∙ loop) in
    let short : length bs ≤ max_bytes = rw (← output) fits in
    let text_is : encode_groups bs ≡ text = ap encode_groups (sym output) ∙ r.back clean ∙ same in
    (rw text_is (ground (arith, short, bound)), short)
