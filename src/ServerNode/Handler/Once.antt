-- ===== src/ServerNode/Handler/Once.antt =====
-- Financial evidence lets one request through, whatever requests come after it.
use secure_keyboard.Prelude.{
  ℕ, ◌<◌, ◌≡◌, ◌≢◌, ap, ◌∙◌, Bool, true, false, List, [], ◌∷◌, Option, some, inl, inr, All,
}
use secure_keyboard.Js.{JsString, Value}
use secure_keyboard.Js.{Call, returns}
use secure_keyboard.ServerNode.Http.{route_path}
use secure_keyboard.ServerNode.Evidence.{FinancialAuthContext, valid_financial_context, expires_at}
use secure_keyboard.ServerNode.Replay.{
  Consumed, ReplayDecision, replay_key, consume_financial_evidence,
}
use secure_keyboard.ServerNode.Replay.Safety.{holds, holds-consume, consumed-holds, replayed_here}
use secure_keyboard.ServerNode.Stages.{Request, HandlerOptions, Server, is_financial}
use secure_keyboard.ServerNode.Handler.{Clock, handle}
use secure_keyboard.ServerNode.Handler.Stage.{Keeps}
use secure_keyboard.ServerNode.Handler.Callbacks.{IsFinanciallyAdmitted}
use secure_keyboard.ServerNode.Handler.Gate.{IsProfileAdmitted}
use secure_keyboard.ServerNode.Handler.Outcome.{handle-keeps, IsUndelegated, handle_outcome}

-- A request as the handler meets it: the options at that time, and the clock.
pub record Arrival : Type 0 where
  pub options : Call HandlerOptions
  pub clock : Clock
  pub request : Request

-- The handler's map after these requests, one after the other.
unfoldable pub serve : (ℕ → Bool) → List Arrival → Server → Server
unfolding handle
serve is_excluded [] s = s
serve is_excluded (a ∷ rest) s =
    serve is_excluded rest (handle is_excluded a.options a.clock a.request s).server

consumption-holds : (key : JsString) (e now : ℕ) → now < e → Keeps (λ m. holds key e m ≡ true) now
unfolding consume_financial_evidence
consumption-holds key e now lt c expires u h =
    holds-consume key e (record { key = replay_key c; expires = expires; now = now }) u lt h

serve-holds :
    (is_excluded : ℕ → Bool) (key : JsString) (e : ℕ) (between : List Arrival) (s : Server)
    → All (λ a. a.clock.at_consume < e) between
    → holds key e s.used ≡ true
    → holds key e (serve is_excluded between s).used ≡ true
unfolding serve
serve-holds is_excluded key e [] s before h = h
serve-holds is_excluded key e (a ∷ rest) s (lt, before) h =
    serve-holds is_excluded key e rest (handle is_excluded a.options a.clock a.request s).server
      before
      (handle-keeps (λ m. holds key e m ≡ true) is_excluded a.options a.clock a.request s
        (consumption-holds key e a.clock.at_consume lt) h)

admitted-holds :
    (is_excluded : ℕ → Bool) (o : HandlerOptions) (clock : Clock) (r : Request) (path : JsString)
    (before after : Consumed) (g : IsFinanciallyAdmitted is_excluded o clock r path before after)
    → holds (replay_key g.context) (expires_at g.evidence) after ≡ true
unfolding consume_financial_evidence
admitted-holds is_excluded o clock r path before after g =
    let after_is = ap (λ (p : ReplayDecision × Consumed). p.1) g.taken in
    rw (← after_is) (
      consumed-holds (replay_key g.context) (expires_at g.evidence) clock.at_consume before
        (ap (λ (p : ReplayDecision × Consumed). p.0) g.taken))

-- A map that holds the evidence of a key refuses the financial admission of that key.
held_refused :
    (is_excluded : ℕ → Bool) (o : HandlerOptions) (clock : Clock) (r : Request) (path : JsString)
    (key : JsString) (e : ℕ) (before after : Consumed)
    → clock.at_consume < e
    → holds key e before ≡ true
    → (g : IsFinanciallyAdmitted is_excluded o clock r path before after)
    → replay_key g.context ≢ key
unfolding consume_financial_evidence
held_refused is_excluded o clock r path key e before after lt h g same = cc (
  replayed_here key e
      (record {
        key = replay_key g.context;
        expires = expires_at g.evidence;
        now = clock.at_consume;
      })
      before h lt same,
  ap (λ (p : ReplayDecision × Consumed). p.0) g.taken,
)

-- The request comes with a valid context of this replay key, under the financial profile.
pub record Presents (is_excluded : ℕ → Bool) (o : HandlerOptions) (r : Request) (key : JsString)
    : Type 0 where
  pub financial : is_financial o.security_profile ≡ true
  pub path : JsString
  pub route : route_path r.url ≡ some path
  pub resolver : Request → JsString → Call Value
  pub resolver_given : o.financial_context ≡ some resolver
  pub value : Value
  pub resolved : resolver r path ≡ returns value
  pub context : FinancialAuthContext
  pub valid : valid_financial_context is_excluded value path ≡ some context
  pub same_key : replay_key context ≡ key

some_injective {ℓ} : {A : Type ℓ} (a b : A) (o : Option A) → o ≡ some a → o ≡ some b → a ≡ b
some_injective a b o h k = cc

returns_injective {ℓ} : {A : Type ℓ} (a b : A) (o : Call A) → o ≡ returns a → o ≡ returns b → a ≡ b
returns_injective a b o h k = cc

Presents-key :
    (is_excluded : ℕ → Bool) (o : HandlerOptions) (clock : Clock) (r : Request)
    (path key : JsString) (before after : Consumed)
    → route_path r.url ≡ some path
    → (p : Presents is_excluded o r key)
    → (g : IsFinanciallyAdmitted is_excluded o clock r path before after)
    → replay_key g.context ≡ key
Presents-key is_excluded o clock r path key before after route p g =
    let path_is = some_injective _ _ _ route p.route in
    let resolver_is = some_injective _ _ _ g.resolver_given p.resolver_given in
    let value_is : g.context_value ≡ p.value = returns_injective _ _ _ g.resolved (
      ap (λ (f : Request → JsString → Call Value). f r path) resolver_is
      ∙ ap (λ (t : JsString). p.resolver r t) path_is
      ∙ p.resolved) in
    let context_is : g.context ≡ p.context = some_injective _ _ _ g.context_valid (
      ap (λ (v : Value). valid_financial_context is_excluded v path) value_is
      ∙ ap (λ (t : JsString). valid_financial_context is_excluded p.value t) path_is
      ∙ p.valid) in
    ap replay_key context_is ∙ p.same_key

profile_refused :
    (is_excluded : ℕ → Bool) (o : HandlerOptions) (clock : Clock) (r : Request)
    (path key : JsString) (e : ℕ) (before after : Consumed) (b : Bool)
    → b ≡ true
    → route_path r.url ≡ some path
    → clock.at_consume < e
    → holds key e before ≡ true
    → Presents is_excluded o r key
    → ¬ IsProfileAdmitted is_excluded o clock r path before after b
profile_refused is_excluded o clock r path key e before after true financial route lt h p g =
    held_refused is_excluded o clock r path key e before after lt h g
      (Presents-key is_excluded o clock r path key before after route p g)
profile_refused is_excluded o clock r path key e before after false financial route lt h p g = cc

-- After a financial request was let through, every later request that presents a context of the
-- same replay key is answered without the delegate, until the evidence of the first has expired,
-- whatever requests the handler has served in between.
pub evidence_used_once :
    (is_excluded : ℕ → Bool) (o o' : HandlerOptions) (clock clock' : Clock) (r r' : Request)
    (path : JsString) (s : Server) (between : List Arrival)
    (g : IsFinanciallyAdmitted is_excluded o clock r path s.used
      (handle is_excluded (returns o) clock r s).server.used)
    → All (λ a. a.clock.at_consume < expires_at g.evidence) between
    → clock'.at_consume < expires_at g.evidence
    → Presents is_excluded o' r' (replay_key g.context)
    → (let later : Server =
          serve is_excluded between (handle is_excluded (returns o) clock r s).server in
        IsUndelegated (handle is_excluded (returns o') clock' r' later) later)
evidence_used_once is_excluded o o' clock clock' r r' path s between g before lt p =
    let next : Server = (handle is_excluded (returns o) clock r s).server in
    let later : Server = serve is_excluded between next in
    let held : holds (replay_key g.context) (expires_at g.evidence) later.used ≡ true =
      serve-holds is_excluded (replay_key g.context) (expires_at g.evidence) between next before
        (admitted-holds is_excluded o clock r path s.used next.used g) in
    elim (handle_outcome is_excluded o' clock' r' later) [
      | inl refused ↦ refused
      | inr through ↦ absurd (
          profile_refused is_excluded o' clock' r' through.request.path (replay_key g.context)
            (expires_at g.evidence) later.used _ (is_financial o'.security_profile) p.financial
            through.gated.admitted.route lt held p through.gated.profile)
    ]
