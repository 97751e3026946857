-- ===== src/ServerNode/Handler/Gate.antt =====
-- What a request must have passed before the delegate sees it.
use secure_keyboard.Prelude.{ℕ, ◌≤◌, ◌≡◌, ap, ◌∙◌, Bool, true, false, length, if◌then◌else◌}
use secure_keyboard.Js.{JsString}
use secure_keyboard.ServerNode.Replay.{Consumed}
use secure_keyboard.ServerNode.Body.{
  Bytes, ReadOutcome, body, too_large, not_bytes, read_failed, read_bounded_body,
}
use secure_keyboard.ServerNode.Body.Outcome.{length-body-le}
use secure_keyboard.ServerNode.Stages.{
  Request, DelegateRequest, HandlerOptions, body_read, Server, go_on, pure, is_financial,
}
use secure_keyboard.ServerNode.Handler.{Clock, checked_body, admit_financial, admit}
use secure_keyboard.ServerNode.Handler.Admission.{
  IsAdmitted, admit_request-IsAdmitted, >>=-elim, pure_inv,
}
use secure_keyboard.ServerNode.Handler.Callbacks.{
  IsHostAdmitted, IsFinanciallyAdmitted, admit_host-IsHostAdmitted,
  admit_financial-IsFinanciallyAdmitted, record_event_inv,
}

-- What the security profile asks of the map: financial evidence is used, or nothing is.
abbrev pub IsProfileAdmitted :
    (ℕ → Bool) → HandlerOptions → Clock → Request → JsString → Consumed → Consumed → Bool → Type 0
IsProfileAdmitted is_excluded o clock r path before after true =
    IsFinanciallyAdmitted is_excluded o clock r path before after
IsProfileAdmitted is_excluded o clock r path before after false = before ≡ after

-- The delegated request `d` and the map went through every check.
pub record IsGated (is_excluded : ℕ → Bool) (o : HandlerOptions) (clock : Clock) (r : Request)
    (before after : Consumed) (d : DelegateRequest) : Type 0 where
  pub limit : ℕ
  pub admitted :
      IsAdmitted o r (record { limit = limit; path = d.path; content_type = d.content_type })
  pub host : IsHostAdmitted o r
  pub profile :
      IsProfileAdmitted is_excluded o clock r d.path before after (is_financial o.security_profile)
  pub read : (read_bounded_body r.body limit).outcome ≡ body d.body
  pub bounded : length d.body ≤ limit

admit_profile-IsProfileAdmitted :
    (is_excluded : ℕ → Bool) (o : HandlerOptions) (clock : Clock) (r : Request) (path : JsString)
    (b : Bool) (s t : Server) (a : Unit {0})
    → (if b then admit_financial is_excluded o clock r path else pure tt) s ≡ (go_on a, t)
    → IsProfileAdmitted is_excluded o clock r path s.used t.used b
admit_profile-IsProfileAdmitted is_excluded o clock r path true s t a h =
    admit_financial-IsFinanciallyAdmitted is_excluded o clock r path s t a h
admit_profile-IsProfileAdmitted is_excluded o clock r path false s t a h =
    ap (λ (x : Server). x.used) (pure_inv tt a s t h).1

checked_body_inv :
    (o : ReadOutcome) (s u : Server) (bs : Bytes)
    → checked_body o s ≡ (go_on bs, u)
    → (o ≡ body bs) × (s ≡ u)
checked_body_inv (body cs) s u bs h = (cc, cc)
checked_body_inv too_large s u bs h = cc
checked_body_inv not_bytes s u bs h = cc
checked_body_inv read_failed s u bs h = cc

pub admit-IsGated :
    (is_excluded : ℕ → Bool) (o : HandlerOptions) (clock : Clock) (r : Request) (s t : Server)
    (d : DelegateRequest)
    → admit is_excluded o clock r s ≡ (go_on d, t)
    → IsGated is_excluded o clock r s.used t.used d
unfolding admit
admit-IsGated is_excluded o clock r s t d h = >>=-elim _ _ s h λ a s1 h1 k1.
    >>=-elim _ _ s1 k1 λ _ s2 h2 k2. >>=-elim _ _ s2 k2 λ _ s3 h3 k3.
      >>=-elim _ _ s3 k3 λ _ s4 h4 k4. >>=-elim _ _ s4 k4 λ bs s5 h5 k5.
        let (admitted, e1) = admit_request-IsAdmitted o r s s1 a h1 in
        let (host, e2) = admit_host-IsHostAdmitted o r s1 s2 _ h2 in
        let profile =
          admit_profile-IsProfileAdmitted is_excluded o clock r a.path
            (is_financial o.security_profile) s2 s3 _ h3 in
        let e4 = record_event_inv body_read s3 s4 _ h4 in
        let (read, e5) = checked_body_inv _ s4 s5 bs h5 in
        let found : DelegateRequest = record {
          path = a.path;
          content_type = a.content_type;
          body = bs;
        } in
        let (shape, e6) = pure_inv found d s5 t k5 in
        let before : s.used ≡ s2.used = ap (λ (x : Server). x.used) e1 ∙ e2 in
        let after : s3.used ≡ t.used = e4 ∙ ap (λ (x : Server). x.used) (e5 ∙ e6) in
        rw (← shape, before, ← after)
          (record {
            limit = a.limit;
            admitted = admitted;
            host = host;
            profile = profile;
            read = read;
            bounded = length-body-le r.body a.limit bs read;
          })
