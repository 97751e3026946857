-- ===== src/ServerNode/Handler/Stage.antt =====
-- What every stage keeps: generic answers only, no delegation, and an invariant of the map.
use secure_keyboard.Prelude.{
  ℕ, ◌≡◌, refl, ap, ◌∙◌, Bool, true, false, List, [], ◌∷◌, ◌++◌, Option, none, some, if◌then◌else◌,
}
use secure_keyboard.Js.{JsString, js, Value, is_text}
use secure_keyboard.Js.{Call, returns, throws}
use secure_keyboard.ServerNode.Http.{
  absent, invalid, declared, DeclaredLength, declared_body_length,
}
use secure_keyboard.ServerNode.Evidence.{FinancialAuthContext}
use secure_keyboard.ServerNode.Replay.{
  Consumed, ReplayDecision, consumed, replayed, unavailable, consume_financial_evidence,
}
use secure_keyboard.ServerNode.Body.{ReadOutcome, body, too_large, not_bytes, read_failed}
use secure_keyboard.ServerNode.Response.{
  ErrorCode, invalid_request, rate_limited, temporarily_unavailable, Response, response_headers,
  is_status_code, generic_response,
}
use secure_keyboard.ServerNode.Stages.{
  Request, DelegateRequest, HandlerOptions, Event, csrf_checked, rate_checked, context_resolved,
  integrity_verified, body_read, delegated, Server, Step, answer, go_on, Exec, ◌>>=◌, pure, refuse,
  fail, record_event, attempt, required, is_financial, check_profile, check_ready, check_path,
  check_method, check_content_type, check_length, admit_request, admit_host,
}
use secure_keyboard.ServerNode.Handler.{
  Clock, check_verification, check_replay, use_evidence, checked_context, checked_body,
  admit_financial, admit,
}

-- The delegations of a log.
unfoldable pub delegations : List Event → List DelegateRequest
delegations [] = []
delegations (delegated d ∷ log) = d ∷ delegations log
delegations (_ ∷ log) = delegations log

abbrev pub IsQuiet : Event → Type 0
IsQuiet (delegated d) = ⊥
IsQuiet _ = Unit

pub delegations-quiet :
    (log : List Event) (e : Event) → IsQuiet e → delegations (log ++ e ∷ []) ≡ delegations log
unfolding delegations
delegations-quiet [] (delegated d) q = absurd q
delegations-quiet [] _ q = refl
delegations-quiet (delegated d ∷ log) e q =
    ap (λ (l : List DelegateRequest). d ∷ l) (delegations-quiet log e q)
delegations-quiet (_ ∷ log) e q = delegations-quiet log e q

-- An answer has a listed status and the fixed headers.
pub record IsGeneric (x : Response) : Type 0 where
  pub listed : is_status_code x.status ≡ true
  pub fixed : x.headers ≡ response_headers

abbrev pub SafeStep {ℓ} : {A : Type ℓ} → Step A → Type 0
SafeStep (answer x) = IsGeneric x
SafeStep (go_on a) = Unit

-- A stage for an invariant `P` of the map.
pub record IsStage {ℓ} (P : Consumed → Type 0) {A : Type ℓ} (m : Exec A) : Type 0 where
  pub answers : (s : Server) → SafeStep (m s).0
  pub quiet : (s : Server) → delegations (m s).1.log ≡ delegations s.log
  pub kept : (s : Server) → P s.used → P (m s).1.used

module _ (P : Consumed → Type 0) where
  module _ {ℓ κ} {A : Type ℓ} {B : Type κ} where
    resume_safe :
        (p : Step A × Server) (f : A → Exec B)
        → SafeStep p.0
        → ((a : A) → IsStage P (f a))
        → (let q : Step B × Server = elim p.0 [ answer x ↦ (answer x, p.1) | go_on a ↦ f a p.1 ] in
            SafeStep q.0 × (delegations q.1.log ≡ delegations p.1.log) × (P p.1.used → P q.1.used))
    resume_safe (answer x, u) f h k = (h, refl, λ b. b)
    resume_safe (go_on a, u) f h k = ((k a).answers u, (k a).quiet u, (k a).kept u)

    pub IsStage->>= :
        (m : Exec A) (f : A → Exec B)
        → IsStage P m
        → ((a : A) → IsStage P (f a))
        → IsStage P (m >>= f)
    unfolding ◌>>=◌
    IsStage->>= m f h k = record {
      answers = λ s. (resume_safe (m s) f (h.answers s) k).0;
      quiet = λ s. (resume_safe (m s) f (h.answers s) k).1 ∙ h.quiet s;
      kept = λ s b. (resume_safe (m s) f (h.answers s) k).2 (h.kept s b);
    }

  module _ {ℓ} {A : Type ℓ} where
    pub pure-IsStage : (a : A) → IsStage P (pure a)
    pure-IsStage a = record { answers = λ s. tt; quiet = λ s. refl; kept = λ s b. b }

    pub refuse-IsStage :
        (status : ℕ) (code : ErrorCode)
        → is_status_code status ≡ true
        → IsStage P (refuse {A = A} status code)
    unfolding generic_response
    refuse-IsStage status code ok = record {
      answers = λ s. record { listed = ok; fixed = refl };
      quiet = λ s. refl;
      kept = λ s b. b;
    }

    pub fail-IsStage : IsStage P (fail {A = A})
    fail-IsStage = refuse-IsStage 503 temporarily_unavailable refl

    pub if-IsStage :
        (b : Bool) (m n : Exec A) → IsStage P m → IsStage P n → IsStage P (if b then m else n)
    if-IsStage true m n h k = h
    if-IsStage false m n h k = k

    pub attempt-IsStage : (c : Call A) → IsStage P (attempt c)
    attempt-IsStage (returns a) = pure-IsStage a
    attempt-IsStage throws = fail-IsStage

    pub required-IsStage : (o : Option A) → IsStage P (required o)
    required-IsStage none = fail-IsStage
    required-IsStage (some a) = pure-IsStage a

  pub record-IsStage : (e : Event) → IsQuiet e → IsStage P (record_event e)
  record-IsStage e q = record {
    answers = λ s. tt;
    quiet = λ s. delegations-quiet s.log e q;
    kept = λ s b. b;
  }

  check_profile-IsStage : (v : Value) → IsStage P (check_profile v)
  check_profile-IsStage v =
      if-IsStage _ _ _ (pure-IsStage tt) (
        if-IsStage (is_financial v) _ _ (pure-IsStage tt) (refuse-IsStage 400 invalid_request refl))

  check_ready-IsStage : (o : Option ℕ) → IsStage P (check_ready o)
  check_ready-IsStage none = refuse-IsStage 400 invalid_request refl
  check_ready-IsStage (some n) = pure-IsStage n

  check_path-IsStage : (o : Option JsString) → IsStage P (check_path o)
  check_path-IsStage none = refuse-IsStage 404 invalid_request refl
  check_path-IsStage (some p) = pure-IsStage p

  check_method-IsStage : (m : JsString) → IsStage P (check_method m)
  check_method-IsStage m =
      if-IsStage _ _ _ (pure-IsStage tt) (refuse-IsStage 405 invalid_request refl)

  check_content_type-IsStage : (o : Option JsString) → IsStage P (check_content_type o)
  check_content_type-IsStage none = refuse-IsStage 415 invalid_request refl
  check_content_type-IsStage (some t) =
      if-IsStage _ _ _ (pure-IsStage t) (refuse-IsStage 415 invalid_request refl)

  check_length-IsStage : (limit : ℕ) (d : DeclaredLength) → IsStage P (check_length limit d)
  check_length-IsStage limit absent = pure-IsStage tt
  check_length-IsStage limit invalid = refuse-IsStage 400 invalid_request refl
  check_length-IsStage limit (declared n) =
      if-IsStage _ _ _ (refuse-IsStage 413 invalid_request refl) (pure-IsStage tt)

  admit_request-IsStage : (o : HandlerOptions) (r : Request) → IsStage P (admit_request o r)
  unfolding admit_request
  admit_request-IsStage o r = IsStage->>= _ _ (check_profile-IsStage _) λ _.
      IsStage->>= _ _ (check_ready-IsStage _) λ limit.
        IsStage->>= _ _ (check_path-IsStage _) λ path. IsStage->>= _ _ (attempt-IsStage _) λ method.
          IsStage->>= _ _ (check_method-IsStage _) λ _.
            IsStage->>= _ _ (attempt-IsStage _) λ header.
              IsStage->>= _ _ (check_content_type-IsStage _) λ content_type.
                IsStage->>= _ _ (attempt-IsStage _) λ length.
                  IsStage->>= _ _ (check_length-IsStage limit (declared_body_length length))
                    λ _. pure-IsStage _

  admit_host-IsStage : (o : HandlerOptions) (r : Request) → IsStage P (admit_host o r)
  unfolding admit_host
  admit_host-IsStage o r = IsStage->>= _ _ (record-IsStage csrf_checked tt) λ _.
      IsStage->>= _ _ (attempt-IsStage _) λ passed.
        IsStage->>= _ _
          (if-IsStage _ _ _ (pure-IsStage tt) (refuse-IsStage 403 invalid_request refl))
          λ _. IsStage->>= _ _ (required-IsStage _) λ decide.
            IsStage->>= _ _ (record-IsStage rate_checked tt) λ _.
              IsStage->>= _ _ (attempt-IsStage _) λ decision.
                if-IsStage _ _ _ (refuse-IsStage 429 rate_limited refl)
                  (if-IsStage (is_text decision (js "allowed")) _ _ (pure-IsStage tt) fail-IsStage)

  check_verification-IsStage : (v : Value) → IsStage P (check_verification v)
  check_verification-IsStage v = if-IsStage _ _ _ (refuse-IsStage 403 invalid_request refl) (
      if-IsStage (is_text v (js "unavailable")) _ _ fail-IsStage
        (if-IsStage (is_text v (js "verified")) _ _ fail-IsStage (pure-IsStage tt)))

  check_replay-IsStage : (d : ReplayDecision) → IsStage P (check_replay d)
  check_replay-IsStage consumed = pure-IsStage tt
  check_replay-IsStage replayed = refuse-IsStage 403 invalid_request refl
  check_replay-IsStage unavailable = fail-IsStage

  -- The map that a use of evidence leaves keeps the invariant.
  abbrev pub Keeps : ℕ → Type 0
  Keeps now =
      (c : FinancialAuthContext) (expires : ℕ) (u : Consumed)
      → P u
      → P (consume_financial_evidence c expires now u).1

  use_evidence-IsStage :
      (c : FinancialAuthContext) (expires now : ℕ)
      → Keeps now
      → IsStage P (use_evidence c expires now)
  use_evidence-IsStage c expires now keep = record {
    answers = λ s. tt;
    quiet = λ s. refl;
    kept = λ s b. keep c expires s.used b;
  }

  checked_context-IsStage : (o : Option FinancialAuthContext) → IsStage P (checked_context o)
  checked_context-IsStage none = fail-IsStage
  checked_context-IsStage (some c) = pure-IsStage c

  checked_body-IsStage : (o : ReadOutcome) → IsStage P (checked_body o)
  checked_body-IsStage (body bs) = pure-IsStage bs
  checked_body-IsStage too_large = refuse-IsStage 413 invalid_request refl
  checked_body-IsStage not_bytes = fail-IsStage
  checked_body-IsStage read_failed = fail-IsStage

  module _ (is_excluded : ℕ → Bool) where
    admit_financial-IsStage :
        (o : HandlerOptions) (clock : Clock) (r : Request) (path : JsString)
        → Keeps clock.at_consume
        → IsStage P (admit_financial is_excluded o clock r path)
    unfolding admit_financial
    admit_financial-IsStage o clock r path keep = IsStage->>= _ _ (required-IsStage _) λ resolve.
        IsStage->>= _ _ (required-IsStage _) λ verifier.
          IsStage->>= _ _ (record-IsStage context_resolved tt) λ _.
            IsStage->>= _ _ (attempt-IsStage _) λ value.
              IsStage->>= _ _ (checked_context-IsStage _) λ context.
                IsStage->>= _ _ (record-IsStage (integrity_verified context) tt) λ _.
                  IsStage->>= _ _ (attempt-IsStage _) λ verification.
                    IsStage->>= _ _ (check_verification-IsStage _) λ _.
                      IsStage->>= _ _
                        (if-IsStage _ _ _ (pure-IsStage tt)
                          (refuse-IsStage 403 invalid_request refl))
                        λ _.
                          IsStage->>= _ _ (use_evidence-IsStage context _ _ keep)
                            λ decision. check_replay-IsStage _

    -- The stages before the delegation, together.
    pub admit-IsStage :
        (o : HandlerOptions) (clock : Clock) (r : Request)
        → Keeps clock.at_consume
        → IsStage P (admit is_excluded o clock r)
    unfolding admit
    admit-IsStage o clock r keep = IsStage->>= _ _ (admit_request-IsStage o r) λ a.
        IsStage->>= _ _ (admit_host-IsStage o r) λ _.
          IsStage->>= _ _
            (if-IsStage _ _ _ (admit_financial-IsStage o clock r a.path keep) (pure-IsStage tt))
            λ _.
              IsStage->>= _ _ (record-IsStage body_read tt)
                λ _. IsStage->>= _ _ (checked_body-IsStage _) λ bs. pure-IsStage _
