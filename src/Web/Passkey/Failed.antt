-- ===== src/Web/Passkey/Failed.antt =====
-- With which errors a passkey operation fails.
use secure_keyboard.Prelude.{
  ◌≡◌, refl, sym, subst, ◌↔◌, ◌⊎◌, inl, inr, Bool, true, false, Option, none, some, arith,
}
use secure_keyboard.Contracts.Reports.{iff_trans}
use secure_keyboard.Js.{js, text_eq, Value, truthy, Call}
use secure_keyboard.Js
use secure_keyboard.Web.Mode.{
  Environment, ClientErrorCode, insecure_context_error, unsupported, invalid_options, no_credential,
  credential_api_failure, aborted, has_credential_api, check_secure_context, check_public_key,
  check_credentials, support_error, detect_web_authn_support, assert_web_authn_mode,
}
use secure_keyboard.Web.Mode.Allowed.{ReadsTo, IsPasskeyReady, passkey_iff}
use secure_keyboard.Web.Outcome.{
  Thrown, client_error, abort_error, other_error, Outcome, ok, throws, ◌>>=◌,
  normalize_web_authn_error,
}
use secure_keyboard.Web.Options.{CreationOptions, RequestOptions}
use secure_keyboard.Web.Options.Accepted.{IsRequest, to_native_request_options_iff}
use secure_keyboard.Web.Options.Creation.{IsCreation, to_native_creation_options_iff}
use secure_keyboard.Web.Options.Rejected.{
  IsTotal, to_native_request_options-IsTotal, to_native_creation_options-IsTotal,
}
use secure_keyboard.Web.Credential.{
  Credential, serialize_registration_credential, serialize_assertion_credential,
}
use secure_keyboard.Web.Passkey.{
  Signal, CredentialApi, throw_if_aborted, required_credential, caught, attempt, after_check,
  passkey_check, create_passkey, get_passkey,
}

-- Reading the field returns a value that fails the test.
abbrev pub ReadsFalse : (Value → Bool) → Call Value → Type 0
ReadsFalse test Js.throws = ⊥
ReadsFalse test (Js.returns v) = test v ≡ false

-- Reading the field throws, or returns a value that fails the test.
abbrev pub IsMissing : (Value → Bool) → Call Value → Type 0
IsMissing test Js.throws = Unit
IsMissing test (Js.returns v) = test v ≡ false

abbrev pub IsThrowing : Call Value → Type 0
IsThrowing Js.throws = Unit
IsThrowing (Js.returns v) = ⊥

-- The context is not secure; or a field throws, or one of the two interfaces is missing.
abbrev pub IsUnready : Environment → ClientErrorCode → Type 0
IsUnready e code =
    (ReadsFalse truthy e.is_secure_context × (code ≡ insecure_context_error))
    ⊎ (IsThrowing e.is_secure_context × (code ≡ unsupported))
    ⊎ (ReadsTo truthy e.is_secure_context
        × (IsMissing truthy e.has_public_key_credential
            ⊎ IsMissing has_credential_api e.credentials)
        × (code ≡ unsupported))

-- The code that stands for an error which was caught, by whether the signal is aborted by then.
abbrev pub IsCaught : Bool → Thrown → ClientErrorCode → Type 0
IsCaught true t code = code ≡ aborted
IsCaught false (client_error c) code = code ≡ c
IsCaught false abort_error code = code ≡ aborted
IsCaught false other_error code = code ≡ credential_api_failure

-- The error that ends the try block once the options are converted: the call throws, or the signal
-- is aborted after it, or it gives no credential, or the credential cannot be serialized.
abbrev pub IsCallError :
    {S : Type 0} → (Credential → Outcome S) → Bool → Outcome (Option Credential) → Thrown → Type 0
IsCallError serialize after_call (throws u) t = t ≡ u
IsCallError serialize true (ok result) t = t ≡ client_error aborted
IsCallError serialize false (ok none) t = t ≡ client_error no_credential
IsCallError serialize false (ok (some c)) t = serialize c ≡ throws t

-- The error that ends the try block: reading the method throws, the options are not accepted, or
-- the rest fails.
abbrev pub IsError :
    {O : Type 0} {S : Type 0}
    → (Value → O → Type 0)
    → (Credential → Outcome S)
    → CredentialApi O
    → Bool
    → Value
    → Thrown
    → Type 0
IsError P serialize (throws u) after_call options t = t ≡ u
IsError {O} P serialize (ok call) after_call options t =
    ((¬ ((o : O) × P options o)) × (t ≡ client_error invalid_options))
    ⊎ ((o : O) × P options o × IsCallError serialize after_call (call o) t)

-- The environment is not ready; or it is, and the signal is aborted at the start, or it is not and
-- the try block ends with an error.
abbrev pub IsFailure : Environment → Signal → (Thrown → Type 0) → ClientErrorCode → Type 0
IsFailure e signal Error code =
    IsUnready e code
    ⊎ (IsPasskeyReady e × (signal.at_start ≡ true) × (code ≡ aborted))
    ⊎ (IsPasskeyReady e
        × (signal.at_start ≡ false)
        × ((t : Thrown) × Error t × IsCaught signal.at_catch t code))

rest_iff :
    {S : Type 0} (serialize : Credential → Outcome S) (after_call : Bool)
    (m : Outcome (Option Credential)) (t : Thrown)
    → ((m >>= λ result.
          throw_if_aborted after_call (required_credential result >>= λ c. serialize c))
        ≡ throws t)
      ↔ IsCallError serialize after_call m t
unfolding ◌>>=◌
rest_iff serialize after_call (throws u) t = (λ h. cc, λ h. cc)
rest_iff serialize true (ok result) t = (λ h. cc, λ h. cc)
rest_iff serialize false (ok none) t = (λ h. cc, λ h. cc)
rest_iff serialize false (ok (some c)) t = (λ h. h, λ h. h)

returned {ℓ} :
    {A : Type ℓ} (at_catch : Bool) (a : A) (t : Thrown) → ¬ (caught at_catch (ok a) ≡ throws t)
unfolding caught
returned at_catch a t h = cc

module _ {O : Type 0} {S : Type 0} (convert : Value → Outcome O) (P : Value → O → Type 0)
    (accepted : (v : Value) (o : O) → (convert v ≡ ok o) ↔ P v o)
    (total : (v : Value) → IsTotal (convert v)) (serialize : Credential → Outcome S) where
  -- The options, converted or not, and then the call.
  converted_iff :
      (m : Outcome O) (call : O → Outcome (Option Credential)) (after_call : Bool) (options : Value)
      (t : Thrown)
      → convert options ≡ m
      → IsTotal m
      → ((m >>= λ o. call o >>= λ result.
            throw_if_aborted after_call (required_credential result >>= λ c. serialize c))
          ≡ throws t)
        ↔ (((¬ ((o : O) × P options o)) × (t ≡ client_error invalid_options))
            ⊎ ((o : O) × P options o × IsCallError serialize after_call (call o) t))
  unfolding ◌>>=◌
  converted_iff (throws u) call after_call options t e same = (
    λ h. inl (λ (o, p). cc ((accepted options o).1 p), cc),
    λ h. elim h [ inl p ↦ cc (p.1) | inr p ↦ cc ((accepted options p.0).1 p.1) ],
  )
  converted_iff (ok o) call after_call options t e same = (
    λ h. inr (o, (accepted options o).0 e, (rest_iff serialize after_call (call o) t).0 h),
    λ h. elim h [
      | inl p ↦ absurd (p.0 (o, (accepted options o).0 e))
      | inr p ↦
          (let given : o ≡ p.0 = cc ((accepted options p.0).1 p.1) in
            (rest_iff serialize after_call (call o) t).1
              (subst (λ x. IsCallError serialize after_call (call x) t) (sym given) p.2))
    ],
  )

  attempt_fails_iff :
      (api : CredentialApi O) (after_call : Bool) (options : Value) (t : Thrown)
      → (attempt convert serialize api after_call options ≡ throws t)
        ↔ IsError P serialize api after_call options t
  unfolding attempt ◌>>=◌
  attempt_fails_iff (throws u) after_call options t = (λ h. cc, λ h. cc)
  attempt_fails_iff (ok call) after_call options t =
      converted_iff (convert options) call after_call options t refl (total options)

thrown_iff {ℓ} :
    {A : Type ℓ} (at_catch : Bool) (u t : Thrown)
    → (caught {A = A} at_catch (throws u) ≡ throws t)
      ↔ ((code : ClientErrorCode) × (t ≡ client_error code) × IsCaught at_catch u code)
unfolding caught normalize_web_authn_error
thrown_iff true u t = (λ h. (aborted, cc, refl), λ p. cc (p.1, p.2))
thrown_iff false (client_error c) t = (λ h. (c, cc, refl), λ p. cc (p.1, p.2))
thrown_iff false abort_error t = (λ h. (aborted, cc, refl), λ p. cc (p.1, p.2))
thrown_iff false other_error t = (λ h. (credential_api_failure, cc, refl), λ p. cc (p.1, p.2))

caught_fails_iff {ℓ} :
    {A : Type ℓ} (at_catch : Bool) (m : Outcome A) (t : Thrown)
    → (caught at_catch m ≡ throws t) ↔ (
        (code : ClientErrorCode) × (t ≡ client_error code)
        × ((u : Thrown) × (m ≡ throws u) × IsCaught at_catch u code))
caught_fails_iff at_catch (ok a) t = (λ h. absurd (returned at_catch a t h), λ p. cc (p.2.1))
caught_fails_iff {A = A} at_catch (throws u) t = (
  λ h. let (code, e, k) = (thrown_iff {A = A} at_catch u t).0 h in (code, e, (u, refl, k)),
  λ (code, e, (v, same, k)).
      let given : v ≡ u = cc same in
      (thrown_iff {A = A} at_catch u t).1 (code, e, subst (λ x. IsCaught at_catch x code) given k),
)

-- Which code the mode check throws.
support_fails_iff :
    (c p r : Call Value) (code : ClientErrorCode)
    → (support_error (check_secure_context c (check_public_key p (check_credentials r)))
        ≡ some code)
      ↔ ((ReadsFalse truthy c × (code ≡ insecure_context_error))
          ⊎ (IsThrowing c × (code ≡ unsupported))
          ⊎ (ReadsTo truthy c
              × (IsMissing truthy p ⊎ IsMissing has_credential_api r)
              × (code ≡ unsupported)))
support_fails_iff Js.throws p r code = ground arith
support_fails_iff (Js.returns c) Js.throws r code = ground arith
support_fails_iff (Js.returns c) (Js.returns p) Js.throws code = ground arith
support_fails_iff (Js.returns c) (Js.returns p) (Js.returns r) code = ground arith

passkey_check-support :
    (e : Environment) → passkey_check e ≡ support_error (detect_web_authn_support e)
unfolding assert_web_authn_mode text_eq js
passkey_check-support e = refl

check_fails_iff :
    (e : Environment) (code : ClientErrorCode) → (passkey_check e ≡ some code) ↔ IsUnready e code
unfolding detect_web_authn_support
check_fails_iff e code =
    subst (λ (x : Option ClientErrorCode). (x ≡ some code) ↔ IsUnready e code)
      (sym (passkey_check-support e))
      (support_fails_iff e.is_secure_context e.has_public_key_credential e.credentials code)

module _ {A : Type 0} (e : Environment) (signal : Signal) (m : Outcome A) (Error : Thrown → Type 0)
    (error_iff : (t : Thrown) → (m ≡ throws t) ↔ Error t) where
  started_fails_iff :
      (at_start : Bool) (t : Thrown)
      → (throw_if_aborted at_start (caught signal.at_catch m) ≡ throws t) ↔ (
          (code : ClientErrorCode) × (t ≡ client_error code)
          × (((at_start ≡ true) × (code ≡ aborted))
              ⊎ ((at_start ≡ false) × ((u : Thrown) × Error u × IsCaught signal.at_catch u code))))
  started_fails_iff true t = (
    λ h. (aborted, cc, inl (refl, refl)),
    λ (c, k, f). elim f [ inl p ↦ cc (k, p.1) | inr p ↦ cc (p.0) ],
  )
  started_fails_iff false t = iff_trans (caught_fails_iff signal.at_catch m t) (
    λ (c, k, (u, n, g)). (c, k, inr (refl, (u, (error_iff u).0 n, g))),
    λ (c, k, f). elim f [
      | inl p ↦ cc (p.0)
      | inr p ↦ (c, k, (p.1.0, (error_iff p.1.0).1 p.1.1, p.1.2))
    ],
  )

  frame_fails_iff :
      (check : Option ClientErrorCode) (t : Thrown)
      → passkey_check e ≡ check
      → (after_check check (throw_if_aborted signal.at_start (caught signal.at_catch m)) ≡ throws t)
        ↔ ((code : ClientErrorCode) × (t ≡ client_error code) × IsFailure e signal Error code)
  frame_fails_iff (some code) t same = (
    λ h. (code, cc, inl ((check_fails_iff e code).0 same)),
    λ (c, k, f). elim f [
      | inl p ↦ (let same' = (check_fails_iff e c).1 p in cc (same, same', k))
      | inr q ↦ elim q [
        | inl p ↦ cc ((passkey_iff e).1 p.0, same)
        | inr p ↦ cc ((passkey_iff e).1 p.0, same)
      ]
    ],
  )
  frame_fails_iff none t same = (
    λ h.
        let ready = (passkey_iff e).0 same in
        let (code, k, f) = (started_fails_iff signal.at_start t).0 h in
        (code, k, inr (elim f [ inl p ↦ inl (ready, p.0, p.1) | inr p ↦ inr (ready, p.0, p.1) ])),
    λ (c, k, f). elim f [
      | inl p ↦ cc ((check_fails_iff e c).1 p, same)
      | inr q ↦ elim q [
        | inl p ↦ (started_fails_iff signal.at_start t).1 (c, k, inl (p.1, p.2))
        | inr p ↦ (started_fails_iff signal.at_start t).1 (c, k, inr (p.1, p.2))
      ]
    ],
  )

-- Creating a passkey throws only the package's own errors. It throws one with this code exactly when
-- the context is not secure, with insecure_context_error, or a field of the environment throws or an
-- interface is missing, with unsupported; or the environment is ready and the signal is aborted at the
-- start, with aborted; or it is not, and the try block ends with an error: reading the method
-- throws, the options are not accepted (invalid_options), the call throws, the signal is aborted
-- after the call (aborted), it gives no credential (no_credential), or the credential cannot be
-- serialized. The code is then aborted where the signal is aborted by the time of the catch or the
-- error is an AbortError, the code of the error where it is the package's own, and
-- credential_api_failure otherwise.
pub create_passkey_fails_iff :
    (e : Environment) (signal : Signal) (api : CredentialApi CreationOptions) (options : Value)
    (t : Thrown)
    → (create_passkey e signal api options ≡ throws t) ↔ (
        (code : ClientErrorCode) × (t ≡ client_error code)
        × IsFailure e signal
            (IsError IsCreation serialize_registration_credential api signal.after_call options)
            code)
unfolding create_passkey
create_passkey_fails_iff e signal api options t =
    frame_fails_iff e signal _ _
      (attempt_fails_iff _ _ to_native_creation_options_iff to_native_creation_options-IsTotal _ api
        signal.after_call options)
      (passkey_check e) t refl

-- Reading a passkey throws only the package's own errors, with a code under the same conditions on
-- the environment, the signal and the try block.
pub get_passkey_fails_iff :
    (e : Environment) (signal : Signal) (api : CredentialApi RequestOptions) (options : Value)
    (t : Thrown)
    → (get_passkey e signal api options ≡ throws t) ↔ (
        (code : ClientErrorCode) × (t ≡ client_error code)
        × IsFailure e signal
            (IsError IsRequest serialize_assertion_credential api signal.after_call options)
            code)
unfolding get_passkey
get_passkey_fails_iff e signal api options t =
    frame_fails_iff e signal _ _
      (attempt_fails_iff _ _ to_native_request_options_iff to_native_request_options-IsTotal _ api
        signal.after_call options)
      (passkey_check e) t refl
