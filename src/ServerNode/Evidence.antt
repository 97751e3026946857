-- ===== src/ServerNode/Evidence.antt =====
-- `isBoundedBinding`, `isValidFinancialContext` and `isFreshBoundEvidence`.
--
-- The engine's Unicode table behind `/(?:\p{C}|\p{White_Space})/u` is the parameter `is_excluded`.
pub mod Binding
use secure_keyboard.Prelude.{
  ℕ, zero, suc, ◌+◌, ◌-◌, ◌*◌, String, Bool, true, false, not, ◌&&◌, ◌||◌, List, [], ◌∷◌, ◌++◌,
  Option, none, some, leb, ltb, ◌==◌, if◌then◌else◌, any,
}
use secure_keyboard.Js.{
  JsString, js, text_eq, includes, JsNumber, natural, negative, Value, undefined, null, boolean,
  number, string, array, object, function, Fields, get, is_text,
}
use secure_keyboard.Contracts.Patterns.{code_points, utf8_byte_length}
use secure_keyboard.Js.{max_safe_integer}

-- The checked binding, which the rest of the handler reads.
pub record FinancialAuthContext : Type 0 where
  pub subject : JsString
  pub operation : JsString
  pub nonce : JsString
  pub deployment_id : JsString

-- `path.includes("registration")`, by the text at each position.
unfoldable pub starts_with : JsString → JsString → Bool
starts_with [] t = true
starts_with (p ∷ ps) [] = false
starts_with (p ∷ ps) (c ∷ cs) = p == c && starts_with ps cs

unfoldable pub contains_text : JsString → JsString → Bool
unfolding starts_with
contains_text p [] = starts_with p []
contains_text p (c ∷ cs) = starts_with p (c ∷ cs) || contains_text p cs

unfoldable pub operation_of : JsString → JsString
unfolding contains_text
operation_of path = if contains_text (js "registration") path then js "registration" else js "login"

abbrev pub device_integrity_providers : List JsString
device_integrity_providers =
    js "android-play-integrity" ∷ js "ios-app-attest" ∷ js "ios-device-check" ∷ js "custom" ∷ []

abbrev pub context_of :
    JsString → Option JsString → Option JsString → Option JsString → Option FinancialAuthContext
context_of operation (some subject) (some nonce) (some deployment_id) = some (record {
  subject = subject;
  operation = operation;
  nonce = nonce;
  deployment_id = deployment_id;
})
context_of operation _ _ _ = none

module _ (is_excluded : ℕ → Bool) where
  -- The text of the binding, where it is one.
  unfoldable pub bounded_binding : Value → ℕ → ℕ → Option JsString
  bounded_binding (string t) lo hi =
      if any is_excluded (code_points t)
      then none
      else if leb lo (utf8_byte_length t) && leb (utf8_byte_length t) hi
      then some t
      else none
  bounded_binding _ lo hi = none

  -- `isValidFinancialContext`, with the fields that the checked value then has.
  unfoldable pub valid_financial_context : Value → JsString → Option FinancialAuthContext
  unfolding bounded_binding operation_of
  valid_financial_context (object fs) path =
      if is_text (get fs "operation") (operation_of path)
      then context_of (operation_of path) (bounded_binding (get fs "subject") 1 256)
          (bounded_binding (get fs "nonce") 16 512) (bounded_binding (get fs "deploymentId") 1 128)
      else none
  valid_financial_context _ path = none

abbrev pub evidence_window_ms : ℕ
evidence_window_ms = 300_000

abbrev pub clock_skew_ms : ℕ
clock_skew_ms = 30_000

-- `Number.isSafeInteger`
abbrev pub is_safe_integer : Value → Bool
is_safe_integer (number (natural n)) = leb n max_safe_integer
is_safe_integer (number (negative n)) = leb (suc n) max_safe_integer
is_safe_integer _ = false

-- `issued <= now + 30_000 && expires > now && expires > issued && expires - issued <= 300_000` on
-- safe integers, where now is at least 0.
abbrev pub is_fresh : ℕ → Value → Value → Bool
is_fresh now (number (natural issued)) (number (natural expires)) =
    leb issued (now + clock_skew_ms)
    && ltb now expires
    && ltb issued expires
    && leb (expires - issued) evidence_window_ms
is_fresh now (number (negative n)) (number (natural expires)) =
    ltb now expires && leb (expires + suc n) evidence_window_ms
is_fresh now _ _ = false

abbrev pub is_provider : Value → Bool
is_provider (string t) = includes device_integrity_providers t
is_provider _ = false

-- `isFreshBoundEvidence`
unfoldable pub is_fresh_bound_evidence : Value → FinancialAuthContext → ℕ → Bool
is_fresh_bound_evidence (object fs) context now =
    is_provider (get fs "provider")
    && is_text (get fs "subject") context.subject
    && is_text (get fs "operation") context.operation
    && is_text (get fs "nonce") context.nonce
    && is_text (get fs "deploymentId") context.deployment_id
    && is_safe_integer (get fs "issuedAtMs")
    && is_safe_integer (get fs "expiresAtMs")
    && is_fresh now (get fs "issuedAtMs") (get fs "expiresAtMs")
is_fresh_bound_evidence _ context now = false

-- `verification.expiresAtMs`, which checked evidence has as a natural number.
abbrev pub natural_or_zero : Value → ℕ
natural_or_zero (number (natural n)) = n
natural_or_zero _ = 0

abbrev pub expires_at : Value → ℕ
expires_at (object fs) = natural_or_zero (get fs "expiresAtMs")
expires_at _ = 0
