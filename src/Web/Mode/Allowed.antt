-- ===== src/Web/Mode/Allowed.antt =====
-- When a web mode may be used.
use secure_keyboard.Prelude.{
  ◌≡◌, refl, inl, inr, sym, ap, ◌∙◌, ◌↔◌, ◌⊎◌, Bool, true, none, false, arith, ℕ, ◌∷◌,
}
use secure_keyboard.Js.{Call, returns, throws, js, Value, string, boolean, is_true, truthy}
use secure_keyboard.Contracts.Reports.{iff_trans}
use secure_keyboard.Contracts.Layout.Shape.{IsText}
use secure_keyboard.Contracts.Layout.Parts.{is_text_iff}
use secure_keyboard.Web.Mode.{
  Environment, has_credential_api, check_credentials, check_public_key, check_secure_context,
  detect_web_authn_support, support_error, is_secure, assert_web_authn_mode,
}

-- Reading the field returns a value that passes the test.
abbrev pub ReadsTo : (Value → Bool) → Call Value → Type 0
ReadsTo test throws = ⊥
ReadsTo test (returns v) = test v ≡ true

-- The browser offers passkeys in a secure context.
pub record IsPasskeyReady (e : Environment) : Type 0 where
  pub secure : ReadsTo truthy e.is_secure_context
  pub public_key : ReadsTo truthy e.has_public_key_credential
  pub credentials : ReadsTo has_credential_api e.credentials

-- Passkeys where the browser offers them, or the acknowledged fallback in a secure context.
abbrev pub IsAllowed : Value → Environment → Value → Type 0
IsAllowed mode e acknowledged =
    (IsText (js "passkey") mode × IsPasskeyReady e)
    ⊎ (IsText (js "custom-keypad-fallback") mode
        × (truthy acknowledged ≡ true)
        × ReadsTo is_true e.is_secure_context)

secure_iff : (c : Call Value) → (is_secure c ≡ true) ↔ ReadsTo is_true c
secure_iff throws = ground arith
secure_iff (returns v) = ground arith

support_iff :
    (c p r : Call Value)
    → (support_error (check_secure_context c (check_public_key p (check_credentials r))) ≡ none)
      ↔ (ReadsTo truthy c × ReadsTo truthy p × ReadsTo has_credential_api r)
support_iff throws p r = ground arith
support_iff (returns c) throws r = ground arith
support_iff (returns c) (returns p) throws = ground arith
support_iff (returns c) (returns p) (returns r) = ground arith

ready_iff :
    (e : Environment) → (support_error (detect_web_authn_support e) ≡ none) ↔ IsPasskeyReady e
unfolding detect_web_authn_support
ready_iff e =
    ground (arith, support_iff e.is_secure_context e.has_public_key_credential e.credentials)

abbrev first_unit : Value → ℕ
first_unit (string (c ∷ cs)) = c
first_unit _ = 0

modes_differ : (v : Value) → IsText (js "passkey") v → IsText (js "custom-keypad-fallback") v → ⊥
unfolding js
modes_differ v p q = let e : 112 ≡ 99 = ap first_unit (sym p ∙ q) in omega (arith, e)

-- The check returns exactly for the passkey mode in a secure context with the credential API, and
-- for the fallback mode that was acknowledged, in a secure context; every other mode, environment
-- or field that throws makes it throw an error of its own.
pub assert_web_authn_mode_iff :
    (mode : Value) (e : Environment) (acknowledged : Value)
    → (assert_web_authn_mode mode e acknowledged ≡ none) ↔ IsAllowed mode e acknowledged
unfolding assert_web_authn_mode
assert_web_authn_mode_iff mode e acknowledged = ground (
  arith,
  is_text_iff mode (js "passkey"),
  is_text_iff mode (js "custom-keypad-fallback"),
  modes_differ mode,
  secure_iff e.is_secure_context,
  ready_iff e,
)

-- The passkey mode, whatever was acknowledged.
pub passkey_iff :
    (e : Environment)
    → (assert_web_authn_mode (string (js "passkey")) e (boolean false) ≡ none) ↔ IsPasskeyReady e
passkey_iff e =
    let mode = string (js "passkey") in
    iff_trans (assert_web_authn_mode_iff mode e (boolean false)) (
      λ h. elim h [ inl p ↦ p.1 | inr p ↦ absurd (modes_differ mode refl p.0) ],
      λ r. inl (refl, r),
    )
