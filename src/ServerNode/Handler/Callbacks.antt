-- ===== src/ServerNode/Handler/Callbacks.antt =====
-- What the host callbacks have said when the stages that ask them go on.
use secure_keyboard.Prelude.{ℕ, ◌≡◌, refl, ap, ◌∙◌, Bool, true, arith, Option, none, some}
use secure_keyboard.Js.{JsString, js, Value, string}
use secure_keyboard.Js.{Call, returns}
use secure_keyboard.ServerNode.Evidence.{
  FinancialAuthContext, valid_financial_context, is_fresh_bound_evidence, expires_at,
}
use secure_keyboard.ServerNode.Replay.{
  Consumed, ReplayDecision, consumed, replayed, unavailable, consume_financial_evidence,
}
use secure_keyboard.ServerNode.Stages.{
  Request, HandlerOptions, Event, csrf_checked, rate_checked, context_resolved, integrity_verified,
  Server, Step, answer, go_on, record_event, required, check_csrf, check_rate, admit_host,
}
use secure_keyboard.ServerNode.Handler.{
  Clock, check_verification, check_fresh, check_replay, use_evidence, checked_context,
  admit_financial,
}
use secure_keyboard.Contracts.Layout.Shape.{IsText}
use secure_keyboard.Contracts.Layout.Parts.{is_text_iff}
use secure_keyboard.Js.{truthy}
use secure_keyboard.ServerNode.Evidence.Binding.{
  IsContext, valid_financial_context-IsContext, IsBoundEvidence,
  is_fresh_bound_evidence-IsBoundEvidence,
}
use secure_keyboard.ServerNode.Handler.Admission.{>>=-elim, attempt_inv}

-- The host validated the request's origin and admitted it under its rate limit.
pub record IsHostAdmitted (o : HandlerOptions) (r : Request) : Type 0 where
  pub csrf : Value
  pub csrf_result : o.csrf_validated r ≡ returns csrf
  pub csrf_passed : truthy csrf ≡ true
  pub rate_limit : Request → Call Value
  pub rate_limit_given : o.rate_limit_decision ≡ some rate_limit
  pub rate_limit_allowed : rate_limit r ≡ returns (string (js "allowed"))

-- The host's evidence is about the checked context, fresh, and was not used before.
pub record IsFinanciallyAdmitted (is_excluded : ℕ → Bool) (o : HandlerOptions) (clock : Clock)
    (r : Request) (path : JsString) (before after : Consumed) : Type 0 where
  pub context : FinancialAuthContext
  pub evidence : Value
  pub resolver : Request → JsString → Call Value
  pub resolver_given : o.financial_context ≡ some resolver
  pub context_value : Value
  pub resolved : resolver r path ≡ returns context_value
  pub context_valid : valid_financial_context is_excluded context_value path ≡ some context
  pub context_checked : IsContext is_excluded path context
  pub verifier : Request → FinancialAuthContext → Call Value
  pub verifier_given : o.device_integrity_verifier ≡ some verifier
  pub verified : verifier r context ≡ returns evidence
  pub evidence_bound : IsBoundEvidence evidence context clock.at_check
  pub taken :
      consume_financial_evidence context (expires_at evidence) clock.at_consume before
      ≡ (consumed, after)

required_inv {ℓ} :
    {A : Type ℓ} (o : Option A) (s u : Server) (a : A)
    → required o s ≡ (go_on a, u)
    → (o ≡ some a) × (s ≡ u)
required_inv none s u a h = cc
required_inv (some b) s u a h = (cc, cc)

check_csrf_inv :
    (v : Value) (s u : Server) (a : Unit {0})
    → check_csrf v s ≡ (go_on a, u)
    → (truthy v ≡ true) × (s ≡ u)
check_csrf_inv v s u a h = ground arith

check_rate_inv :
    (v : Value) (s u : Server) (a : Unit {0})
    → check_rate v s ≡ (go_on a, u)
    → IsText (js "allowed") v × (s ≡ u)
check_rate_inv v s u a h = ground (arith, is_text_iff v (js "allowed"))

pub record_event_inv :
    (e : Event) (s u : Server) (a : Unit {0}) → record_event e s ≡ (go_on a, u) → s.used ≡ u.used
record_event_inv e s u a h = ap (λ (p : Step (Unit {0}) × Server). p.1.used) h

-- CSRF validation passed and the rate limit said "allowed"; the map is untouched.
pub admit_host-IsHostAdmitted :
    (o : HandlerOptions) (r : Request) (s t : Server) (a : Unit {0})
    → admit_host o r s ≡ (go_on a, t)
    → IsHostAdmitted o r × (s.used ≡ t.used)
unfolding admit_host
admit_host-IsHostAdmitted o r s t a h = >>=-elim _ _ s h λ _ s1 h1 k1.
    >>=-elim _ _ s1 k1 λ passed s2 h2 k2. >>=-elim _ _ s2 k2 λ _ s3 h3 k3.
      >>=-elim _ _ s3 k3 λ decide s4 h4 k4. >>=-elim _ _ s4 k4 λ _ s5 h5 k5.
        >>=-elim _ _ s5 k5 λ decision s6 h6 k6.
          let (csrf_result, e2) = attempt_inv _ _ _ _ h2 in
          let (csrf_passed, e3) = check_csrf_inv passed _ _ _ h3 in
          let (given, e4) = required_inv _ _ _ _ h4 in
          let (asked, e6) = attempt_inv _ _ _ _ h6 in
          let (allowed, e7) = check_rate_inv decision _ _ _ k6 in
          (
            record {
              csrf = passed;
              csrf_result = csrf_result;
              csrf_passed = csrf_passed;
              rate_limit = decide;
              rate_limit_given = given;
              rate_limit_allowed = asked ∙ ap returns allowed;
            },
            record_event_inv csrf_checked _ _ _ h1
                ∙ ap (λ (x : Server). x.used) (e2 ∙ e3 ∙ e4)
                ∙ record_event_inv rate_checked _ _ _ h5
                ∙ ap (λ (x : Server). x.used) (e6 ∙ e7),
          )

checked_context_inv :
    (o : Option FinancialAuthContext) (s u : Server) (c : FinancialAuthContext)
    → checked_context o s ≡ (go_on c, u)
    → (o ≡ some c) × (s ≡ u)
checked_context_inv none s u c h = cc
checked_context_inv (some d) s u c h = (cc, cc)

check_verification_inv :
    (v : Value) (s u : Server) (a : Unit {0}) → check_verification v s ≡ (go_on a, u) → s ≡ u
check_verification_inv v s u a h = ground arith

check_fresh_inv :
    (b : Bool) (s u : Server) (a : Unit {0}) → check_fresh b s ≡ (go_on a, u) → (b ≡ true) × (s ≡ u)
check_fresh_inv b s u a h = ground arith

check_replay_inv :
    (d : ReplayDecision) (s u : Server) (a : Unit {0})
    → check_replay d s ≡ (go_on a, u)
    → (d ≡ consumed) × (s ≡ u)
check_replay_inv consumed s u a h = (refl, cc)
check_replay_inv replayed s u a h = cc
check_replay_inv unavailable s u a h = cc

abbrev decision_of : Step ReplayDecision → ReplayDecision
decision_of (answer x) = unavailable
decision_of (go_on d) = d

use_evidence_inv :
    (c : FinancialAuthContext) (expires now : ℕ) (s u : Server) (d : ReplayDecision)
    → use_evidence c expires now s ≡ (go_on d, u)
    → consume_financial_evidence c expires now s.used ≡ (d, u.used)
use_evidence_inv c expires now s u d h = λ i. (decision_of (h i).0, (h i).1.used)

-- The financial stage went through every one of its checks.
pub admit_financial-IsFinanciallyAdmitted :
    (is_excluded : ℕ → Bool) (o : HandlerOptions) (clock : Clock) (r : Request) (path : JsString)
    (s t : Server) (a : Unit {0})
    → admit_financial is_excluded o clock r path s ≡ (go_on a, t)
    → IsFinanciallyAdmitted is_excluded o clock r path s.used t.used
unfolding admit_financial
admit_financial-IsFinanciallyAdmitted is_excluded o clock r path s t a h =
    >>=-elim _ _ s h λ resolver s1 h1 k1. >>=-elim _ _ s1 k1 λ verifier s2 h2 k2.
      >>=-elim _ _ s2 k2 λ _ s3 h3 k3. >>=-elim _ _ s3 k3 λ value s4 h4 k4.
        >>=-elim _ _ s4 k4 λ context s5 h5 k5. >>=-elim _ _ s5 k5 λ _ s6 h6 k6.
          >>=-elim _ _ s6 k6 λ evidence s7 h7 k7. >>=-elim _ _ s7 k7 λ _ s8 h8 k8.
            >>=-elim _ _ s8 k8 λ _ s9 h9 k9. >>=-elim _ _ s9 k9 λ decision s10 h10 k10.
              let (resolver_given, e1) = required_inv _ _ _ _ h1 in
              let (verifier_given, e2) = required_inv _ _ _ _ h2 in
              let (resolved, e4) = attempt_inv _ _ _ _ h4 in
              let (checked, e5) = checked_context_inv _ _ _ _ h5 in
              let (verified, e7) = attempt_inv _ _ _ _ h7 in
              let e8 = check_verification_inv evidence _ _ _ h8 in
              let (fresh, e9) =
                check_fresh_inv (is_fresh_bound_evidence evidence context clock.at_check) _ _ _
                  h9 in
              let used =
                use_evidence_inv context (expires_at evidence) clock.at_consume s9 s10 decision
                  h10 in
              let (taken, e10) = check_replay_inv decision _ _ _ k10 in
              let before : s.used ≡ s9.used =
                ap (λ (x : Server). x.used) (e1 ∙ e2)
                ∙ record_event_inv context_resolved _ _ _ h3
                ∙ ap (λ (x : Server). x.used) (e4 ∙ e5)
                ∙ record_event_inv (integrity_verified context) _ _ _ h6
                ∙ ap (λ (x : Server). x.used) (e7 ∙ e8 ∙ e9) in
              record {
                context = context;
                evidence = evidence;
                resolver = resolver;
                resolver_given = resolver_given;
                context_value = value;
                resolved = resolved;
                context_valid = checked;
                context_checked =
                    valid_financial_context-IsContext is_excluded value path context checked;
                verifier = verifier;
                verifier_given = verifier_given;
                verified = verified;
                evidence_bound =
                    is_fresh_bound_evidence-IsBoundEvidence evidence context clock.at_check fresh;
                taken = rw before (
                    used
                    ∙ ap (λ (d : ReplayDecision). (d, s10.used)) taken
                    ∙ ap (λ (x : Server). (consumed, x.used)) e10);
              }
