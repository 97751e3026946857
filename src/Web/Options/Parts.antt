-- ===== src/Web/Options/Parts.antt =====
-- What each part of the options is converted to.
use secure_keyboard.Prelude.{
  ℕ, ◌≤◌, ◌≡◌, refl, ap, ◌∙◌, ◌↔◌, Bool, true, false, not, List, [], ◌∷◌, arith, Option, none, some,
  length,
}
use secure_keyboard.Js.{JsString, Value, undefined, string}
use secure_keyboard.Contracts.Reports.{iff_trans}
use secure_keyboard.Web.Mode.{ClientErrorCode, invalid_options}
use secure_keyboard.Web.Base64.{
  Bytes, max_webauthn_binary_bytes, encode_groups, encode_base64_url, decode_base64_url,
}
use secure_keyboard.Web.Base64.RoundTrip.{length-encode_groups}
use secure_keyboard.Web.Base64.Canonical.{encode-decode_base64_url}
use secure_keyboard.Web.Outcome.{
  Outcome, ok, throws, ◌>>=◌, unless, from_option, optional, map_outcome,
}
use secure_keyboard.Web.Options.{required_string, optional_string, binary_option}

-- An omitted field is left out; a given one is converted.
abbrev pub Given {ℓ} : {A : Type ℓ} → (Value → A → Type 0) → Value → Option A → Type 0
Given P undefined none = Unit
Given P undefined (some a) = ⊥
Given P v none = ⊥
Given P v (some a) = P v a

pub some_iff {ℓ} :
    {A : Type ℓ} (m : Outcome A) (a : A) → ((m >>= λ x. ok (some x)) ≡ ok (some a)) ↔ (m ≡ ok a)
unfolding ◌>>=◌
some_iff (ok x) a = (λ h. cc, λ h. cc)
some_iff (throws e) a = (λ h. cc, λ h. cc)

pub none_iff {ℓ} : {A : Type ℓ} (m : Outcome A) → ((m >>= λ x. ok (some x)) ≡ ok none) ↔ ⊥
unfolding ◌>>=◌
none_iff (ok x) = (λ h. cc, λ h. elim h [ ])
none_iff (throws e) = (λ h. cc, λ h. elim h [ ])

pub given_iff {ℓ} :
    {A : Type ℓ} (convert : Value → Outcome A) (P : Value → A → Type 0)
    → ((v : Value) (a : A) → (convert v ≡ ok a) ↔ P v a)
    → (v : Value) (o : Option A) → (optional convert v ≡ ok o) ↔ Given P v o
given_iff convert P e undefined none = (λ h. tt, λ h. refl)
given_iff convert P e undefined (some a) = (λ h. cc, λ h. elim h [ ])
given_iff convert P e v none = none_iff (convert v)
given_iff convert P e v (some a) = iff_trans (some_iff (convert v) a) (e v a)

-- The elements, one by one.
abbrev pub Pointwise {ℓ κ} : {A : Type ℓ} {B : Type κ} → (A → B → Type 0) → List A → List B → Type 0
Pointwise P [] [] = Unit
Pointwise P [] (y ∷ ys) = ⊥
Pointwise P (x ∷ xs) [] = ⊥
Pointwise P (x ∷ xs) (y ∷ ys) = P x y × Pointwise P xs ys

cons_iff {κ} :
    {B : Type κ} (m : Outcome B) (n : Outcome (List B)) (y : B) (ys : List B)
    → ((m >>= λ z. n >>= λ zs. ok (z ∷ zs)) ≡ ok (y ∷ ys)) ↔ ((m ≡ ok y) × (n ≡ ok ys))
unfolding ◌>>=◌
cons_iff (ok z) (ok zs) y ys = (λ h. (cc, cc), λ h. cc)
cons_iff (ok z) (throws e) y ys = (λ h. cc, λ h. cc)
cons_iff (throws e) n y ys = (λ h. cc, λ h. cc)

nil_iff {κ} :
    {B : Type κ} (m : Outcome B) (n : Outcome (List B))
    → ((m >>= λ z. n >>= λ zs. ok (z ∷ zs)) ≡ ok []) ↔ ⊥
unfolding ◌>>=◌
nil_iff (ok z) (ok zs) = (λ h. cc, λ h. elim h [ ])
nil_iff (ok z) (throws e) = (λ h. cc, λ h. elim h [ ])
nil_iff (throws e) n = (λ h. cc, λ h. elim h [ ])

pub map_outcome_iff {ℓ κ} :
    {A : Type ℓ} {B : Type κ} (convert : A → Outcome B) (P : A → B → Type 0)
    → ((x : A) (y : B) → (convert x ≡ ok y) ↔ P x y)
    → (xs : List A) (ys : List B) → (map_outcome convert xs ≡ ok ys) ↔ Pointwise P xs ys
unfolding map_outcome
map_outcome_iff convert P e [] [] = (λ h. tt, λ h. refl)
map_outcome_iff convert P e [] (y ∷ ys) = (λ h. cc, λ h. elim h [ ])
map_outcome_iff convert P e (x ∷ xs) [] = nil_iff _ _
map_outcome_iff convert P e (x ∷ xs) (y ∷ ys) =
    iff_trans (cons_iff (convert x) (map_outcome convert xs) y ys) (
      λ p. ((e x y).0 p.0, (map_outcome_iff convert P e xs ys).0 p.1),
      λ p. ((e x y).1 p.0, (map_outcome_iff convert P e xs ys).1 p.1),
    )

pub unless_iff {ℓ} :
    {A : Type ℓ} (code : ClientErrorCode) (bad : Bool) (next : Outcome A) (a : A)
    → (unless bad code next ≡ ok a) ↔ ((bad ≡ false) × (next ≡ ok a))
unless_iff _ true next a = (λ h. cc, λ h. cc)
unless_iff _ false next a = (λ h. (refl, h), λ h. h.1)

pub ok_iff {ℓ} : {A : Type ℓ} (a b : A) → (ok a ≡ ok b) ↔ (a ≡ b)
ok_iff a b = (λ h. cc, λ h. cc)

-- A check, and then the value itself.
pub checked_iff {ℓ} :
    {A : Type ℓ} (code : ClientErrorCode) (good : Bool) (P : Type 0) (a b : A)
    → (good ≡ true) ↔ P
    → (unless (not good) code (ok a) ≡ ok b) ↔ (P × (a ≡ b))
checked_iff _ true P a b e = (λ h. (e.0 refl, (ok_iff a b).0 h), λ p. ap ok p.1)
checked_iff _ false P a b e = (λ h. cc, λ p. cc (e.1 p.0))

-- A text that is not empty and not too long.
abbrev pub IsRequired : ℕ → Value → JsString → Type 0
IsRequired maximum (string s) t = (1 ≤ length s) × (length s ≤ maximum) × (s ≡ t)
IsRequired maximum _ t = ⊥

pub required_string_iff :
    (maximum : ℕ) (v : Value) (t : JsString)
    → (required_string maximum v ≡ ok t) ↔ IsRequired maximum v t
unfolding required_string
required_string_iff maximum (string []) t = (λ h. cc, λ h. absurd (omega (arith, h.0)))
required_string_iff maximum (string (c ∷ cs)) t = iff_trans (unless_iff _ _ (ok (c ∷ cs)) t) (
  λ p. (omega arith, ground (arith, p.0), (ok_iff (c ∷ cs) t).0 p.1),
  λ p. (ground (arith, p.1), (ok_iff (c ∷ cs) t).1 p.2),
)
required_string_iff maximum _ t = (λ h. cc, λ h. elim h [ ])

pub optional_string_iff :
    (maximum : ℕ) (v : Value) (o : Option JsString)
    → (optional_string maximum v ≡ ok o) ↔ Given (IsRequired maximum) v o
unfolding optional_string
optional_string_iff maximum v o =
    given_iff (required_string maximum) (IsRequired maximum) (required_string_iff maximum) v o

-- A base64url text of at least one byte, and its bytes.
abbrev pub IsBinary : Value → Bytes → Type 0
IsBinary (string s) bs = (1 ≤ length s) × (decode_base64_url s max_webauthn_binary_bytes ≡ some bs)
IsBinary _ bs = ⊥

decoded_short :
    (s : JsString) (bs : Bytes)
    → decode_base64_url s max_webauthn_binary_bytes ≡ some bs
    → length s ≤ 16384
unfolding encode_base64_url
decoded_short s bs h =
    let (encoded, fits) = encode-decode_base64_url s max_webauthn_binary_bytes bs h in
    let size = length-encode_groups bs in
    let e : encode_groups bs ≡ s = ground (arith, encoded, fits) in
    rw (← e) (omega (arith, size, fits))

pub from_option_iff {ℓ} :
    {A : Type ℓ} (code : ClientErrorCode) (o : Option A) (a : A)
    → (from_option code o ≡ ok a) ↔ (o ≡ some a)
from_option_iff _ none a = (λ h. cc, λ h. cc)
from_option_iff _ (some b) a = (λ h. cc, λ h. cc)

pub bind_iff {ℓ κ} :
    {A : Type ℓ} {B : Type κ} (m : Outcome A) (f : A → Outcome B) (b : B)
    → ((m >>= f) ≡ ok b) ↔ ((a : A) × (m ≡ ok a) × (f a ≡ ok b))
unfolding ◌>>=◌
bind_iff (ok a) f b = (λ h. (a, refl, h), λ p. ap f ((ok_iff a p.0).0 p.1) ∙ p.2)
bind_iff (throws e) f b = (λ h. cc, λ p. cc (p.1))

encoded_bytes_iff :
    (s : JsString) (bs : Bytes)
    → ((t : JsString) × (required_string 16384 (string s) ≡ ok t)
        × (from_option invalid_options (decode_base64_url t max_webauthn_binary_bytes) ≡ ok bs))
      ↔ IsBinary (string s) bs
encoded_bytes_iff s bs = (
  λ (t, h, k).
      let (one, _, e) = (required_string_iff 16384 (string s) t).0 h in
      (
        one,
        ap (λ (u : JsString). decode_base64_url u max_webauthn_binary_bytes) e
            ∙ (from_option_iff _ _ bs).0 k,
      ),
  λ (one, h). (
    s,
    (required_string_iff 16384 (string s) s).1 (one, decoded_short s bs h, refl),
    (from_option_iff _ _ bs).1 h,
  ),
)

pub binary_option_iff : (v : Value) (bs : Bytes) → (binary_option v ≡ ok bs) ↔ IsBinary v bs
unfolding binary_option
binary_option_iff (string s) bs = iff_trans (bind_iff _ _ bs) (encoded_bytes_iff s bs)
binary_option_iff v bs =
    (λ h. let p = (bind_iff _ _ bs).0 h in (required_string_iff 16384 v p.0).0 p.1, λ h. elim h [ ])
