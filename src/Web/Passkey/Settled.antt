-- ===== src/Web/Passkey/Settled.antt =====
-- How a passkey operation settles.
use secure_keyboard.Prelude.{◌≡◌, refl, ap, ◌∙◌, ◌↔◌, Bool, true, false, Option, none, some}
use secure_keyboard.Js.{Value}
use secure_keyboard.Contracts.Reports.{iff_trans}
use secure_keyboard.Web.Mode.{Environment, ClientErrorCode, aborted}
use secure_keyboard.Web.Mode.Allowed.{IsPasskeyReady, passkey_iff}
use secure_keyboard.Web.Outcome.{Outcome, ok, throws, >>=-ok}
use secure_keyboard.Web.Options.{CreationOptions, RequestOptions}
use secure_keyboard.Web.Options.Parts.{unless_iff, bind_iff}
use secure_keyboard.Web.Options.Accepted.{bind_of_iff, IsRequest, to_native_request_options_iff}
use secure_keyboard.Web.Options.Creation.{IsCreation, to_native_creation_options_iff}
use secure_keyboard.Web.Credential.{
  Credential, SerializedRegistration, serialize_registration_credential, SerializedAssertion,
  serialize_assertion_credential,
}
use secure_keyboard.Web.Passkey.{
  Signal, CredentialApi, throw_if_aborted, required_credential, caught, attempt, after_check,
  passkey_check, create_passkey, get_passkey,
}

required_credential_iff :
    (o : Option Credential) (c : Credential) → (required_credential o ≡ ok c) ↔ (o ≡ some c)
required_credential_iff none c = (λ h. cc, λ h. cc)
required_credential_iff (some d) c = (λ h. cc, λ h. cc)

-- The method is read, the options are converted, the call gives a credential, the signal is not
-- aborted, and the credential is serialized.
abbrev pub IsAttempt :
    {O : Type 0} {S : Type 0}
    → (Value → O → Type 0)
    → (Credential → Outcome S)
    → CredentialApi O
    → Bool
    → Value
    → S
    → Type 0
IsAttempt {O} P serialize api after_call options s =
    (call : O → Outcome (Option Credential)) × (o : O) × (c : Credential) × (api ≡ ok call)
    × P options o
    × (call o ≡ ok (some c))
    × (after_call ≡ false)
    × (serialize c ≡ ok s)

module _ {O : Type 0} {S : Type 0} (convert : Value → Outcome O) (P : Value → O → Type 0)
    (e : (v : Value) (o : O) → (convert v ≡ ok o) ↔ P v o)
    (serialize : Credential → Outcome S) where
  attempt_sound :
      (api : CredentialApi O) (after_call : Bool) (options : Value) (s : S)
      → attempt convert serialize api after_call options ≡ ok s
      → IsAttempt P serialize api after_call options s
  unfolding attempt
  attempt_sound api after_call options s h =
      let (call, h1, k1) = (bind_iff api _ s).0 h in
      let (o, h2, k2) = (bind_of_iff (convert options) _ s _ (e options)).0 k1 in
      let (result, h3, k3) = (bind_iff (call o) _ s).0 k2 in
      let (live, k4) = (unless_iff aborted after_call _ s).0 k3 in
      let (c, h5, k5) =
        (bind_of_iff (required_credential result) _ s _ (required_credential_iff result)).0 k4 in
      (call, o, c, h1, h2, h3 ∙ ap ok h5, live, k5)

  attempt_complete :
      (api : CredentialApi O) (after_call : Bool) (options : Value) (s : S)
      → IsAttempt P serialize api after_call options s
      → attempt convert serialize api after_call options ≡ ok s
  unfolding attempt
  attempt_complete api after_call options s (call, o, c, h1, h2, h3, live, h5) =
      >>=-ok api _ call h1
      ∙ >>=-ok (convert options) _ o ((e options o).1 h2)
      ∙ >>=-ok (call o) _ (some c) h3
      ∙ (unless_iff aborted after_call _ s).1
          (live, >>=-ok (required_credential (some c)) _ c refl ∙ h5)

  attempt_iff :
      (api : CredentialApi O) (after_call : Bool) (options : Value) (s : S)
      → (attempt convert serialize api after_call options ≡ ok s)
        ↔ IsAttempt P serialize api after_call options s
  attempt_iff api after_call options s =
      (attempt_sound api after_call options s, attempt_complete api after_call options s)

caught_iff {ℓ} :
    {A : Type ℓ} (at_catch : Bool) (m : Outcome A) (a : A) → (caught at_catch m ≡ ok a) ↔ (m ≡ ok a)
unfolding caught
caught_iff at_catch (ok x) a = (λ h. h, λ h. h)
caught_iff true (throws e) a = (λ h. cc, λ h. cc)
caught_iff false (throws e) a = (λ h. cc, λ h. cc)

after_check_iff {ℓ} :
    {A : Type ℓ} (check : Option ClientErrorCode) (next : Outcome A) (a : A)
    → (after_check check next ≡ ok a) ↔ ((check ≡ none) × (next ≡ ok a))
after_check_iff none next a = (λ h. (refl, h), λ h. h.1)
after_check_iff (some code) next a = (λ h. cc, λ h. cc)

-- The frame around the try block: the check, the signal and the catch block.
framed_iff {ℓ} :
    {A : Type ℓ} (e : Environment) (signal : Signal) (m : Outcome A) (a : A)
    → (after_check (passkey_check e) (throw_if_aborted signal.at_start (caught signal.at_catch m))
        ≡ ok a)
      ↔ (IsPasskeyReady e × (signal.at_start ≡ false) × (m ≡ ok a))
framed_iff e signal m a = (
  λ h.
      let (ready, k) = (after_check_iff (passkey_check e) _ a).0 h in
      let (live, k2) = (unless_iff aborted signal.at_start _ a).0 k in
      ((passkey_iff e).0 ready, live, (caught_iff signal.at_catch m a).0 k2),
  λ (ready, live, k). (after_check_iff (passkey_check e) _ a).1 (
    (passkey_iff e).1 ready,
    (unless_iff aborted signal.at_start _ a).1 (live, (caught_iff signal.at_catch m a).1 k),
  ),
)

-- A passkey is created, with this result, exactly when the environment offers passkeys, the signal
-- is aborted neither at the start nor after the call, the options are accepted, the browser's
-- create method, given their native form, returns a credential, and that credential is
-- serialized to this result.
pub create_passkey_iff :
    (e : Environment) (signal : Signal) (api : CredentialApi CreationOptions) (options : Value)
    (s : SerializedRegistration)
    → (create_passkey e signal api options ≡ ok s) ↔ (
        IsPasskeyReady e
        × (signal.at_start ≡ false)
        × IsAttempt IsCreation serialize_registration_credential api signal.after_call options s)
unfolding create_passkey
create_passkey_iff e signal api options s = iff_trans (framed_iff e signal _ s) (
  λ (ready, live, k).
      (ready, live, (attempt_iff _ _ to_native_creation_options_iff _ api _ options s).0 k),
  λ (ready, live, k).
      (ready, live, (attempt_iff _ _ to_native_creation_options_iff _ api _ options s).1 k),
)

-- An assertion is returned, with this result, exactly when the environment offers passkeys, the
-- signal is aborted neither at the start nor after the call, the options are accepted, the
-- browser's get method, given their native form, returns a credential, and that credential is
-- serialized to this result.
pub get_passkey_iff :
    (e : Environment) (signal : Signal) (api : CredentialApi RequestOptions) (options : Value)
    (s : SerializedAssertion)
    → (get_passkey e signal api options ≡ ok s) ↔ (
        IsPasskeyReady e
        × (signal.at_start ≡ false)
        × IsAttempt IsRequest serialize_assertion_credential api signal.after_call options s)
unfolding get_passkey
get_passkey_iff e signal api options s = iff_trans (framed_iff e signal _ s) (
  λ (ready, live, k).
      (ready, live, (attempt_iff _ _ to_native_request_options_iff _ api _ options s).0 k),
  λ (ready, live, k).
      (ready, live, (attempt_iff _ _ to_native_request_options_iff _ api _ options s).1 k),
)
