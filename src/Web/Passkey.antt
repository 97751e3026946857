-- ===== src/Web/Passkey.antt =====
-- `createPasskey` and `getPasskey`: one credential operation from the mode check to the envelope.
--
-- The browser's credential API and the abort signal are parameters: what reading the API's method
-- and calling it end with, and what the signal reads at each of the three places that ask it.
pub mod Settled
pub mod Failed
use secure_keyboard.Prelude.{Bool, true, false, Option, none, some, if◌then◌else◌}
use secure_keyboard.Js.{js, Value, string, boolean}
use secure_keyboard.Web.Mode.{
  Environment, ClientErrorCode, no_credential, credential_api_failure, aborted,
  assert_web_authn_mode,
}
use secure_keyboard.Web.Outcome.{
  Thrown, Outcome, ok, throws, ◌>>=◌, fail, unless, normalize_web_authn_error,
}
use secure_keyboard.Web.Options.{
  CreationOptions, to_native_creation_options, RequestOptions, to_native_request_options,
}
use secure_keyboard.Web.Credential.{
  Credential, SerializedRegistration, serialize_registration_credential, SerializedAssertion,
  serialize_assertion_credential,
}

-- `signal?.aborted` before the call, after it, and where an error is caught; false without a signal.
pub record Signal : Type 0 where
  pub at_start : Bool
  pub after_call : Bool
  pub at_catch : Bool

-- Reading the method of `environment.credentials`, and then calling it; none is a null credential.
abbrev pub CredentialApi : Type 0 → Type 0
CredentialApi O = Outcome (O → Outcome (Option Credential))

-- `throwIfAborted`
abbrev pub throw_if_aborted {ℓ} : {A : Type ℓ} → Bool → Outcome A → Outcome A
throw_if_aborted is_aborted next = unless is_aborted aborted next

abbrev pub required_credential : Option Credential → Outcome Credential
required_credential none = fail no_credential
required_credential (some c) = ok c

-- The catch block of both functions.
unfoldable pub caught {ℓ} : {A : Type ℓ} → Bool → Outcome A → Outcome A
caught at_catch (ok a) = ok a
caught at_catch (throws e) =
    throw_if_aborted at_catch (fail (normalize_web_authn_error e credential_api_failure))

-- The try block of both functions.
unfoldable pub attempt :
    {O : Type 0} {S : Type 0}
    → (Value → Outcome O)
    → (Credential → Outcome S)
    → CredentialApi O
    → Bool
    → Value
    → Outcome S
attempt convert serialize api after_call options = api >>= λ call. convert options >>= λ o.
    call o >>= λ result.
    throw_if_aborted after_call (required_credential result >>= λ c. serialize c)

abbrev pub after_check {ℓ} : {A : Type ℓ} → Option ClientErrorCode → Outcome A → Outcome A
after_check none next = next
after_check (some code) next = fail code

abbrev pub passkey_check : Environment → Option ClientErrorCode
passkey_check e = assert_web_authn_mode (string (js "passkey")) e (boolean false)

unfoldable pub create_passkey :
    Environment → Signal → CredentialApi CreationOptions → Value → Outcome SerializedRegistration
create_passkey e signal api options = after_check (passkey_check e) (
    throw_if_aborted signal.at_start (
      caught signal.at_catch (
        attempt to_native_creation_options serialize_registration_credential api signal.after_call
          options)))

unfoldable pub get_passkey :
    Environment → Signal → CredentialApi RequestOptions → Value → Outcome SerializedAssertion
get_passkey e signal api options = after_check (passkey_check e) (
    throw_if_aborted signal.at_start (
      caught signal.at_catch (
        attempt to_native_request_options serialize_assertion_credential api signal.after_call
          options)))
