-- ===== src/Web/Outcome.antt =====
-- What a call of the package ends with: a value, or what it throws.
use secure_keyboard.Prelude.{
  ◌≡◌, refl, Bool, true, false, List, [], ◌∷◌, Option, none, some, if◌then◌else◌,
}
use secure_keyboard.Js.{Value, undefined}
use secure_keyboard.Web.Mode.{ClientErrorCode, aborted}

-- A WebAuthnClientError, an error named AbortError, or any other.
pub data Thrown : Type 0 where
  client_error : ClientErrorCode → Thrown
  abort_error : Thrown
  other_error : Thrown

pub data Outcome {ℓ} (A : Type ℓ) : Type ℓ where
  ok : A → Outcome A
  throws : Thrown → Outcome A

infixl 5 ◌>>=◌
unfoldable pub ◌>>=◌ {ℓ κ} : {A : Type ℓ} {B : Type κ} → Outcome A → (A → Outcome B) → Outcome B
◌>>=◌ (ok a) f = f a
◌>>=◌ (throws e) f = throws e

abbrev pub fail {ℓ} : {A : Type ℓ} → ClientErrorCode → Outcome A
fail code = throws (client_error code)

-- `if (bad) throw new WebAuthnClientError(code, ...)`
abbrev pub unless {ℓ} : {A : Type ℓ} → Bool → ClientErrorCode → Outcome A → Outcome A
unless bad code next = if bad then fail code else next

abbrev pub from_option {ℓ} : {A : Type ℓ} → ClientErrorCode → Option A → Outcome A
from_option code none = fail code
from_option code (some a) = ok a

-- `value === undefined ? undefined : convert(value)`
abbrev pub optional {ℓ} : {A : Type ℓ} → (Value → Outcome A) → Value → Outcome (Option A)
optional convert undefined = ok none
optional convert v = convert v >>= λ a. ok (some a)

unfoldable pub map_outcome {ℓ κ} :
    {A : Type ℓ} {B : Type κ} → (A → Outcome B) → List A → Outcome (List B)
unfolding ◌>>=◌
map_outcome convert [] = ok []
map_outcome convert (x ∷ xs) = convert x >>= λ y. map_outcome convert xs >>= λ ys. ok (y ∷ ys)

-- `normalizeWebAuthnError`: the code that the caller sees.
unfoldable pub normalize_web_authn_error : Thrown → ClientErrorCode → ClientErrorCode
normalize_web_authn_error (client_error c) code = c
normalize_web_authn_error abort_error code = aborted
normalize_web_authn_error other_error code = code

-- `try { ... } catch (error) { return normalizeWebAuthnError(error, code) }`
abbrev pub normalized {ℓ} : {A : Type ℓ} → ClientErrorCode → Outcome A → Outcome A
normalized code (ok a) = ok a
normalized code (throws e) = fail (normalize_web_authn_error e code)

module _ {ℓ κ} {A : Type ℓ} {B : Type κ} where
  -- A sequence that returns has parts that return.
  pub >>=-inv :
      (m : Outcome A) (f : A → Outcome B) (b : B)
      → (m >>= f) ≡ ok b
      → (a : A) × (m ≡ ok a) × (f a ≡ ok b)
  unfolding ◌>>=◌
  >>=-inv (ok a) f b h = (a, refl, h)
  >>=-inv (throws e) f b h = cc

  pub >>=-ok : (m : Outcome A) (f : A → Outcome B) (a : A) → m ≡ ok a → (m >>= f) ≡ f a
  unfolding ◌>>=◌
  >>=-ok m f a h = rw h refl

pub unless-inv {ℓ} :
    {A : Type ℓ} (bad : Bool) (code : ClientErrorCode) (next : Outcome A) (a : A)
    → unless bad code next ≡ ok a
    → (bad ≡ false) × (next ≡ ok a)
unless-inv true code next a h = cc
unless-inv false code next a h = (refl, h)
