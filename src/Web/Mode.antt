-- ===== src/Web/Mode.antt =====
-- `detectWebAuthnSupport` and `assertWebAuthnMode`.
pub mod Allowed
use secure_keyboard.Prelude.{Bool, true, false, not, ◌&&◌, Option, none, some, if◌then◌else◌}
use secure_keyboard.Js.{
  Call, returns, throws, js, Value, object, Fields, get, is_text, is_true, is_function, truthy,
}

-- The environment as the host gives it; reading a field may throw.
pub record Environment : Type 0 where
  pub is_secure_context : Call Value
  pub has_public_key_credential : Call Value
  pub credentials : Call Value

pub data SupportReason : Type 0 where
  insecure_context public_key_api_unavailable credential_api_unavailable : SupportReason

-- The support: available, or the reason why not.
pub data Support : Type 0 where
  available : Support
  missing : SupportReason → Support

-- The stable codes of the package's errors.
pub data ClientErrorCode : Type 0 where
  insecure_context_error unsupported invalid_options invalid_mode no_credential : ClientErrorCode
  invalid_credential credential_api_failure operation_in_progress aborted : ClientErrorCode
  fallback_not_acknowledged : ClientErrorCode

abbrev pub has_credential_api : Value → Bool
has_credential_api (object fs) = is_function (get fs "create") && is_function (get fs "get")
has_credential_api _ = false

abbrev pub check_credentials : Call Value → Support
check_credentials throws = missing credential_api_unavailable
check_credentials (returns v) =
    if has_credential_api v then available else missing credential_api_unavailable

abbrev pub check_public_key : Call Value → Support → Support
check_public_key throws next = missing credential_api_unavailable
check_public_key (returns v) next = if truthy v then next else missing public_key_api_unavailable

abbrev pub check_secure_context : Call Value → Support → Support
check_secure_context throws next = missing credential_api_unavailable
check_secure_context (returns v) next = if truthy v then next else missing insecure_context

unfoldable pub detect_web_authn_support : Environment → Support
detect_web_authn_support e =
    check_secure_context e.is_secure_context
      (check_public_key e.has_public_key_credential (check_credentials e.credentials))

abbrev pub support_error : Support → Option ClientErrorCode
support_error available = none
support_error (missing insecure_context) = some insecure_context_error
support_error (missing _) = some unsupported

-- `environment.isSecureContext === true`, false where it throws.
abbrev pub is_secure : Call Value → Bool
is_secure throws = false
is_secure (returns v) = is_true v

-- none where the check returns; otherwise the code of the error that it throws.
unfoldable pub assert_web_authn_mode : Value → Environment → Value → Option ClientErrorCode
unfolding detect_web_authn_support
assert_web_authn_mode mode e acknowledged =
    if is_text mode (js "custom-keypad-fallback")
    then (if not (truthy acknowledged)
        then some fallback_not_acknowledged
        else if not (is_secure e.is_secure_context)
        then some insecure_context_error
        else none)
    else if is_text mode (js "passkey")
    then support_error (detect_web_authn_support e)
    else some invalid_mode
