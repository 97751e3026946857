-- ===== src/ServerNode/Stages.antt =====
-- The stages of `createOpaqueHandler` before the body is read: deployment, route, CSRF, rate limit.
--
-- The map of used evidence is the state; the log lists the host code that ran, in its order.
use secure_keyboard.Prelude.{ℕ, Bool, List, [], ◌∷◌, ◌++◌, Option, none, some, ltb, if◌then◌else◌}
use secure_keyboard.Js.{JsString, js, text_eq, Value, undefined, null, string, is_text}
use secure_keyboard.Js.{Call, returns, throws}
use secure_keyboard.Js.{truthy}
use secure_keyboard.ServerNode.Http.{
  Url, DeploymentContext, is_ready, route_path, is_json_content_type, absent, invalid, declared,
  DeclaredLength, declared_body_length,
}
use secure_keyboard.ServerNode.Evidence.{FinancialAuthContext}
use secure_keyboard.ServerNode.Replay.{Consumed}
use secure_keyboard.ServerNode.Body.{Bytes, Stream}
use secure_keyboard.ServerNode.Response.{
  ErrorCode, invalid_request, rate_limited, temporarily_unavailable, Response, generic_response,
  DelegateResponse,
}

pub record Request : Type 0 where
  pub url : Call Url
  pub method : Call JsString
  pub content_type : Call (Option JsString)
  pub content_length : Call (Option JsString)
  pub body : Option Stream

-- The request that the delegate is given; its method is POST and its CSRF flag true.
pub record DelegateRequest : Type 0 where
  pub path : JsString
  pub content_type : JsString
  pub body : Bytes

pub record HandlerOptions : Type 0 where
  pub deployment_context : Call DeploymentContext
  pub security_profile : Value
  pub financial_context : Option (Request → JsString → Call Value)
  pub device_integrity_verifier : Option (Request → FinancialAuthContext → Call Value)
  pub csrf_validated : Request → Call Value
  pub rate_limit_decision : Option (Request → Call Value)
  pub delegate : DelegateRequest → Call DelegateResponse

-- The host code that runs on behalf of a request.
pub data Event : Type 0 where
  csrf_checked : Event
  rate_checked : Event
  context_resolved : Event
  integrity_verified : FinancialAuthContext → Event
  body_read : Event
  delegated : DelegateRequest → Event

pub record Server : Type 0 where
  pub used : Consumed
  pub log : List Event

-- A stage answers the request or goes on with a value.
pub data Step {ℓ} (A : Type ℓ) : Type ℓ where
  answer : Response → Step A
  go_on : A → Step A

abbrev pub Exec {ℓ} : Type ℓ → Type ℓ
Exec A = Server → Step A × Server

infixl 5 ◌>>=◌ ◌>>◌
unfoldable pub ◌>>=◌ {ℓ κ} : {A : Type ℓ} {B : Type κ} → Exec A → (A → Exec B) → Exec B
◌>>=◌ m f s = let (r, s') = m s in elim r [ answer x ↦ (answer x, s') | go_on a ↦ f a s' ]

abbrev pub ◌>>◌ {ℓ} : {B : Type ℓ} → Exec (Unit {0}) → Exec B → Exec B
m >> k = m >>= λ _. k

abbrev pub pure {ℓ} : {A : Type ℓ} → A → Exec A
pure a s = (go_on a, s)

abbrev pub refuse {ℓ} : {A : Type ℓ} → ℕ → ErrorCode → Exec A
refuse status code s = (answer (generic_response status code), s)

abbrev pub fail {ℓ} : {A : Type ℓ} → Exec A
fail = refuse 503 temporarily_unavailable

abbrev pub record_event : Event → Exec (Unit {0})
record_event e s = (go_on tt, record s { log = s.log ++ e ∷ [] })

-- A thrown error becomes the generic 503.
abbrev pub attempt {ℓ} : {A : Type ℓ} → Call A → Exec A
attempt (returns a) = pure a
attempt throws = fail

-- `options.securityProfile ?? "standard"`
abbrev pub default_profile : Value → Value
default_profile undefined = string (js "standard")
default_profile null = string (js "standard")
default_profile v = v

abbrev pub is_financial : Value → Bool
is_financial profile = is_text (default_profile profile) (js "financial")

abbrev pub check_profile : Value → Exec (Unit {0})
check_profile profile =
    if is_text (default_profile profile) (js "standard")
    then pure tt
    else if is_financial profile
    then pure tt
    else refuse 400 invalid_request

abbrev pub check_ready : Option ℕ → Exec ℕ
check_ready none = refuse 400 invalid_request
check_ready (some limit) = pure limit

abbrev pub check_path : Option JsString → Exec JsString
check_path none = refuse 404 invalid_request
check_path (some path) = pure path

abbrev pub check_method : JsString → Exec (Unit {0})
check_method method = if text_eq method (js "POST") then pure tt else refuse 405 invalid_request

-- The content type is then a string.
abbrev pub check_content_type : Option JsString → Exec JsString
check_content_type none = refuse 415 invalid_request
check_content_type (some t) =
    if is_json_content_type (some t) then pure t else refuse 415 invalid_request

abbrev pub check_length : ℕ → DeclaredLength → Exec (Unit {0})
check_length limit absent = pure tt
check_length limit invalid = refuse 400 invalid_request
check_length limit (declared n) = if ltb limit n then refuse 413 invalid_request else pure tt

pub record Admitted : Type 0 where
  pub limit : ℕ
  pub path : JsString
  pub content_type : JsString

-- Everything before the first host callback.
unfoldable pub admit_request : HandlerOptions → Request → Exec Admitted
admit_request o r = do
  check_profile o.security_profile
  limit ← check_ready (is_ready o.deployment_context)
  path ← check_path (route_path r.url)
  method ← attempt r.method
  check_method method
  header ← attempt r.content_type
  content_type ← check_content_type header
  length ← attempt r.content_length
  check_length limit (declared_body_length length)
  pure (record { limit = limit; path = path; content_type = content_type })

abbrev pub check_csrf : Value → Exec (Unit {0})
check_csrf passed = if truthy passed then pure tt else refuse 403 invalid_request

abbrev pub check_rate : Value → Exec (Unit {0})
check_rate decision =
    if is_text decision (js "rate-limited")
    then refuse 429 rate_limited
    else if is_text decision (js "allowed")
    then pure tt
    else fail

-- An option that the host left out fails closed.
abbrev pub required {ℓ} : {A : Type ℓ} → Option A → Exec A
required none = fail
required (some a) = pure a

-- CSRF validation and rate limiting.
unfoldable pub admit_host : HandlerOptions → Request → Exec (Unit {0})
admit_host o r = do
  record_event csrf_checked
  passed ← attempt (o.csrf_validated r)
  check_csrf passed
  rate_limit_decision ← required o.rate_limit_decision
  record_event rate_checked
  decision ← attempt (rate_limit_decision r)
  check_rate decision
