-- ===== src/ServerNode/Handler/Outcome.antt =====
-- What the whole handler does with a request.
use secure_keyboard.Prelude.{
  ℕ, ◌≤◌, ◌≡◌, refl, ap, ◌∙◌, Bool, true, false, List, [], ◌∷◌, ◌++◌, length, if◌then◌else◌, inl,
  inr, ◌⊎◌, leb,
}
use secure_keyboard.Js.{
  Value, undefined, null, boolean, number, string, array, object, function, natural,
}
use secure_keyboard.Js.{Call, returns, throws}
use secure_keyboard.ServerNode.Http.{max_http_body_bytes}
use secure_keyboard.ServerNode.Replay.{
  Consumed, max_financial_replay_entries, replay_key, consume_financial_evidence,
}
use secure_keyboard.ServerNode.Replay.Live.{consume_bounded}
use secure_keyboard.ServerNode.Body.{zeroed}
use secure_keyboard.ServerNode.Response.{
  Response, DelegateResponse, DelegateBody, uint8_array, other_buffer, no_buffer, accepted_body,
  accepted_response, is_status_code, response_from_delegate, unavailable_response, generic_response,
}
use secure_keyboard.ServerNode.Stages.{
  Request, DelegateRequest, HandlerOptions, Event, csrf_checked, rate_checked, context_resolved,
  integrity_verified, body_read, delegated, Server, Step, answer, go_on,
}
use secure_keyboard.ServerNode.Handler.{Clock, admit, Handled, handle, finish}
use secure_keyboard.ServerNode.Handler.Stage.{
  delegations, IsGeneric, SafeStep, Keeps, admit-IsStage,
}
use secure_keyboard.ServerNode.Handler.Gate.{IsGated, admit-IsGated}

unavailable-IsGeneric : IsGeneric unavailable_response
unfolding generic_response
unavailable-IsGeneric = record { listed = refl; fixed = refl }

choose-IsGeneric :
    (b : Bool) (x : Response)
    → (b ≡ true → IsGeneric x)
    → IsGeneric (if b then x else unavailable_response)
choose-IsGeneric true x h = h refl
choose-IsGeneric false x h = unavailable-IsGeneric

accepted_body-IsGeneric :
    (status : ℕ) (b : DelegateBody)
    → is_status_code status ≡ true
    → IsGeneric (accepted_body status b)
accepted_body-IsGeneric status (uint8_array bs) h =
    choose-IsGeneric (leb (length bs) max_http_body_bytes) _
      (λ _. record { listed = h; fixed = refl })
accepted_body-IsGeneric status (other_buffer bs) h = unavailable-IsGeneric
accepted_body-IsGeneric status no_buffer h = unavailable-IsGeneric

accepted_response-IsGeneric : (v : Value) (b : DelegateBody) → IsGeneric (accepted_response v b)
accepted_response-IsGeneric (number (natural n)) b =
    choose-IsGeneric (is_status_code n) (accepted_body n b) (accepted_body-IsGeneric n b)
accepted_response-IsGeneric (number _) b = unavailable-IsGeneric
accepted_response-IsGeneric undefined b = unavailable-IsGeneric
accepted_response-IsGeneric null b = unavailable-IsGeneric
accepted_response-IsGeneric (boolean _) b = unavailable-IsGeneric
accepted_response-IsGeneric (string _) b = unavailable-IsGeneric
accepted_response-IsGeneric (array _) b = unavailable-IsGeneric
accepted_response-IsGeneric (object _) b = unavailable-IsGeneric
accepted_response-IsGeneric (function _) b = unavailable-IsGeneric

response_from_delegate-IsGeneric :
    (c : Call DelegateResponse) → IsGeneric (response_from_delegate c).response
unfolding response_from_delegate
response_from_delegate-IsGeneric throws = unavailable-IsGeneric
response_from_delegate-IsGeneric (returns r) = accepted_response-IsGeneric r.status r.body

finish-IsGeneric :
    (o : HandlerOptions) (x : Step DelegateRequest) (s : Server)
    → SafeStep x
    → IsGeneric (finish o (x, s)).response
finish-IsGeneric o (answer x) s h = h
finish-IsGeneric o (go_on d) s h = response_from_delegate-IsGeneric (o.delegate d)

-- Every response, on every path, has one of the listed status codes and exactly the fixed headers,
-- whatever the host's code returns or throws.
pub handle-IsGeneric :
    (is_excluded : ℕ → Bool) (o : Call HandlerOptions) (clock : Clock) (r : Request) (s : Server)
    → IsGeneric (handle is_excluded o clock r s).response
unfolding handle
handle-IsGeneric is_excluded throws clock r s = unavailable-IsGeneric
handle-IsGeneric is_excluded (returns o) clock r s =
    let stage = admit-IsStage (λ _. Unit) is_excluded o clock r (λ _ _ _ _. tt) in
    finish-IsGeneric o (admit is_excluded o clock r s).0 (admit is_excluded o clock r s).1
      (stage.answers s)

finish-used :
    (o : HandlerOptions) (x : Step DelegateRequest) (s : Server)
    → (finish o (x, s)).server.used ≡ s.used
finish-used o (answer x) s = refl
finish-used o (go_on d) s = refl

-- An invariant of the map that a consumption keeps is kept by the handling of a request.
pub handle-keeps :
    (P : Consumed → Type 0) (is_excluded : ℕ → Bool) (o : Call HandlerOptions) (clock : Clock)
    (r : Request) (s : Server)
    → Keeps P clock.at_consume
    → P s.used
    → P (handle is_excluded o clock r s).server.used
unfolding handle
handle-keeps P is_excluded throws clock r s keep h = h
handle-keeps P is_excluded (returns o) clock r s keep h =
    rw (finish-used o (admit is_excluded o clock r s).0 (admit is_excluded o clock r s).1)
      ((admit-IsStage P is_excluded o clock r keep).kept s h)

-- The map of used evidence has at most 4096 entries after a request if it had before.
pub handle_bounded :
    (is_excluded : ℕ → Bool) (o : Call HandlerOptions) (clock : Clock) (r : Request) (s : Server)
    → length s.used ≤ max_financial_replay_entries
    → length (handle is_excluded o clock r s).server.used ≤ max_financial_replay_entries
unfolding consume_financial_evidence
handle_bounded is_excluded o clock r s h =
    handle-keeps (λ m. length m ≤ max_financial_replay_entries) is_excluded o clock r s
      (λ c expires u. consume_bounded (replay_key c) expires clock.at_consume u) h

-- The request was answered without the delegate.
pub record IsUndelegated (h : Handled) (s : Server) : Type 0 where
  pub undelegated : delegations h.server.log ≡ delegations s.log
  pub no_body : h.body_buffer ≡ []

-- The request went to the delegate after all checks, and its body was cleared behind it.
pub record IsDelegated (is_excluded : ℕ → Bool) (o : HandlerOptions) (clock : Clock) (r : Request)
    (s : Server) (h : Handled) : Type 0 where
  pub request : DelegateRequest
  pub gated : IsGated is_excluded o clock r s.used h.server.used request
  pub once : delegations h.server.log ≡ delegations s.log ++ request ∷ []
  pub answered : h.response ≡ (response_from_delegate (o.delegate request)).response
  pub body_cleared : h.body_buffer ≡ zeroed request.body

delegations-append :
    (log : List Event) (d : DelegateRequest)
    → delegations (log ++ delegated d ∷ []) ≡ delegations log ++ d ∷ []
unfolding delegations
delegations-append [] d = refl
delegations-append (delegated c ∷ log) d =
    ap (λ (l : List DelegateRequest). c ∷ l) (delegations-append log d)
delegations-append (csrf_checked ∷ log) d = delegations-append log d
delegations-append (rate_checked ∷ log) d = delegations-append log d
delegations-append (context_resolved ∷ log) d = delegations-append log d
delegations-append (integrity_verified c ∷ log) d = delegations-append log d
delegations-append (body_read ∷ log) d = delegations-append log d

finish_outcome :
    (is_excluded : ℕ → Bool) (o : HandlerOptions) (clock : Clock) (r : Request) (s : Server)
    (x : Step DelegateRequest) (t : Server)
    → admit is_excluded o clock r s ≡ (x, t)
    → delegations t.log ≡ delegations s.log
    → IsUndelegated (finish o (x, t)) s ⊎ IsDelegated is_excluded o clock r s (finish o (x, t))
finish_outcome is_excluded o clock r s (answer x) t e quiet =
    inl (record { undelegated = quiet; no_body = refl })
finish_outcome is_excluded o clock r s (go_on d) t e quiet = inr (record {
  request = d;
  gated = admit-IsGated is_excluded o clock r s t d e;
  once = delegations-append t.log d ∙ ap (λ (l : List DelegateRequest). l ++ d ∷ []) quiet;
  answered = refl;
  body_cleared = refl;
})

-- A request is either answered without the delegate, or the delegate runs exactly once. It then
-- sees a request that went through the deployment, route, method, media type and length checks, the
-- CSRF check and the rate limit, with the body that was read within the limit; under the financial
-- profile the evidence was bound, fresh and unused. The body is cleared behind the delegate.
pub handle_outcome :
    (is_excluded : ℕ → Bool) (o : HandlerOptions) (clock : Clock) (r : Request) (s : Server)
    → IsUndelegated (handle is_excluded (returns o) clock r s) s
      ⊎ IsDelegated is_excluded o clock r s (handle is_excluded (returns o) clock r s)
unfolding handle
handle_outcome is_excluded o clock r s =
    finish_outcome is_excluded o clock r s (admit is_excluded o clock r s).0
      (admit is_excluded o clock r s).1 refl
      ((admit-IsStage (λ _. Unit) is_excluded o clock r (λ _ _ _ _. tt)).quiet s)
