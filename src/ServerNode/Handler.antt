-- ===== src/ServerNode/Handler.antt =====
-- `createOpaqueHandler`: one request, from the options to the response.
--
-- A request is handled as one run. Other requests touch the map only through `consume`, which does
-- not await, so the map that a run starts from stands for the one its `consume` call finds.
pub mod Admission
pub mod Stage
pub mod Callbacks
pub mod Gate
pub mod Outcome
pub mod Once
use secure_keyboard.Prelude.{
  ℕ, Bool, true, false, List, [], ◌∷◌, ◌++◌, Option, none, some, if◌then◌else◌,
}
use secure_keyboard.Js.{
  JsString, js, text_eq, Value, undefined, null, boolean, number, string, array, object, function,
  is_text, is_undefined,
}
use secure_keyboard.Js.{Call, returns, throws}
use secure_keyboard.Js.{truthy}
use secure_keyboard.ServerNode.Http.{
  Url, DeploymentContext, is_ready, route_path, is_json_content_type, absent, invalid, declared,
  DeclaredLength, declared_body_length,
}
use secure_keyboard.ServerNode.Evidence.{
  FinancialAuthContext, valid_financial_context, is_fresh_bound_evidence, expires_at,
}
use secure_keyboard.ServerNode.Replay.{
  Consumed, ReplayDecision, consumed, replayed, unavailable, consume_financial_evidence,
}
use secure_keyboard.ServerNode.Body.{
  Bytes, zeroed, Stream, ReadOutcome, body, too_large, not_bytes, read_failed, BodyRead,
  read_bounded_body,
}
use secure_keyboard.ServerNode.Response.{
  ErrorCode, invalid_request, rate_limited, temporarily_unavailable, Response, generic_response,
  DelegateResponse, response_from_delegate, unavailable_response,
}
use secure_keyboard.ServerNode.Stages.{
  Request, DelegateRequest, HandlerOptions, Event, context_resolved, integrity_verified, body_read,
  delegated, Server, Step, answer, go_on, Exec, ◌>>=◌, ◌>>◌, pure, refuse, fail, record_event,
  attempt, required, is_financial, Admitted, admit_request, admit_host,
}

abbrev pub check_verification : Value → Exec (Unit {0})
check_verification v =
    if is_text v (js "rejected")
    then refuse 403 invalid_request
    else if is_text v (js "unavailable")
    then fail
    else if is_text v (js "verified")
    then fail
    else pure tt

abbrev pub check_fresh : Bool → Exec (Unit {0})
check_fresh ok = if ok then pure tt else refuse 403 invalid_request

abbrev pub check_replay : ReplayDecision → Exec (Unit {0})
check_replay consumed = pure tt
check_replay replayed = refuse 403 invalid_request
check_replay unavailable = fail

abbrev pub use_evidence : FinancialAuthContext → ℕ → ℕ → Exec ReplayDecision
use_evidence context expires now s =
    let (decision, used) = consume_financial_evidence context expires now s.used in
    (go_on decision, record s { used = used })

abbrev pub checked_context : Option FinancialAuthContext → Exec FinancialAuthContext
checked_context none = fail
checked_context (some context) = pure context

-- The readings of `Date.now()` at the freshness test and at the consumption.
pub record Clock : Type 0 where
  pub at_check : ℕ
  pub at_consume : ℕ

-- The stream's outcome becomes the body, 413 or 503.
abbrev pub checked_body : ReadOutcome → Exec Bytes
checked_body (body bs) = pure bs
checked_body too_large = refuse 413 invalid_request
checked_body not_bytes = fail
checked_body read_failed = fail

module _ (is_excluded : ℕ → Bool) where
  -- The financial profile: bound, fresh and unused device evidence.
  unfoldable pub admit_financial : HandlerOptions → Clock → Request → JsString → Exec (Unit {0})
  admit_financial o clock r path = do
    financial_context ← required o.financial_context
    verifier ← required o.device_integrity_verifier
    record_event context_resolved
    value ← attempt (financial_context r path)
    context ← checked_context (valid_financial_context is_excluded value path)
    record_event (integrity_verified context)
    verification ← attempt (verifier r context)
    check_verification verification
    check_fresh (is_fresh_bound_evidence verification context clock.at_check)
    decision ← use_evidence context (expires_at verification) clock.at_consume
    check_replay decision

  abbrev pub admit_profile : HandlerOptions → Clock → Request → JsString → Exec (Unit {0})
  admit_profile o clock r path =
      if is_financial o.security_profile then admit_financial o clock r path else pure tt

  -- The request that the delegate sees, where all stages pass.
  unfoldable pub admit : HandlerOptions → Clock → Request → Exec DelegateRequest
  unfolding admit_request admit_host admit_financial
  admit o clock r = do
    a ← admit_request o r
    admit_host o r
    admit_profile o clock r a.path
    record_event body_read
    bs ← checked_body (read_bounded_body r.body a.limit).outcome
    pure (record { path = a.path; content_type = a.content_type; body = bs })

-- The response, the body buffer and the delegate's buffer as they are left, and the new state.
pub record Handled : Type 0 where
  pub response : Response
  pub body_buffer : Bytes
  pub delegate_buffer : Bytes
  pub server : Server

abbrev pub refused : Response → Server → Handled
refused x s = record { response = x; body_buffer = []; delegate_buffer = []; server = s }

-- The delegate runs; then the body is cleared, whatever happened.
abbrev pub delegate_to : HandlerOptions → DelegateRequest → Server → Handled
delegate_to o d s =
    let a = response_from_delegate (o.delegate d) in
    record {
      response = a.response;
      body_buffer = zeroed d.body;
      delegate_buffer = a.delegate_buffer;
      server = record s { log = s.log ++ delegated d ∷ [] };
    }

abbrev pub finish : HandlerOptions → Step DelegateRequest × Server → Handled
finish o (answer x, s) = refused x s
finish o (go_on d, s) = delegate_to o d s

-- The handler; reading the options may throw.
unfoldable pub handle : (ℕ → Bool) → Call HandlerOptions → Clock → Request → Server → Handled
unfolding admit
handle is_excluded throws clock r s = refused unavailable_response s
handle is_excluded (returns o) clock r s = finish o (admit is_excluded o clock r s)
