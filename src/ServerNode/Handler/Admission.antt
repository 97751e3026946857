-- ===== src/ServerNode/Handler/Admission.antt =====
-- What each stage of the handler has checked when it goes on.
use secure_keyboard.Prelude.{ℕ, ◌≤◌, ◌≡◌, refl, ap, ◌∙◌, ◌⊎◌, true, arith, Option, none, some}
use secure_keyboard.Js.{JsString, js, text_eq_iff, Value, string}
use secure_keyboard.Js.{Call, returns, throws}
use secure_keyboard.ServerNode.Http.{
  is_ready, route_path, is_json_content_type, absent, invalid, declared, DeclaredLength,
  declared_body_length,
}
use secure_keyboard.Contracts.Layout.Parts.{is_text_iff}
use secure_keyboard.ServerNode.Stages.{
  Request, HandlerOptions, Server, Step, answer, go_on, Exec, ◌>>=◌, Admitted, admit_request,
  check_profile, check_ready, check_path, attempt, check_method, check_content_type, check_length,
  pure, default_profile,
}

-- A length header is absent, or a number within the limit.
abbrev pub LengthWithin : ℕ → DeclaredLength → Type 0
LengthWithin limit absent = Unit
LengthWithin limit invalid = ⊥
LengthWithin limit (declared n) = n ≤ limit

pub record IsAdmitted (o : HandlerOptions) (r : Request) (a : Admitted) : Type 0 where
  pub profile :
      (default_profile o.security_profile ≡ string (js "standard"))
      ⊎ (default_profile o.security_profile ≡ string (js "financial"))
  pub ready : is_ready o.deployment_context ≡ some a.limit
  pub route : route_path r.url ≡ some a.path
  pub method : r.method ≡ returns (js "POST")
  pub content_type : r.content_type ≡ returns (some a.content_type)
  pub json : is_json_content_type (some a.content_type) ≡ true
  pub length_header : Option JsString
  pub length : r.content_length ≡ returns length_header
  pub length_within : LengthWithin a.limit (declared_body_length length_header)

module _ {ℓ κ ι} {A : Type ℓ} {B : Type κ} {G : Type ι} where
  resume_elim :
      (p : Step A × Server) (f : A → Exec B) {b : B} {t : Server}
      → ◌≡◌ {A = Step B × Server}
          (elim p.0 [ answer x ↦ (answer x, p.1) | go_on a ↦ f a p.1 ])
          (go_on b, t)
      → ((a : A) (u : Server) → p ≡ (go_on a, u) → f a u ≡ (go_on b, t) → G)
      → G
  resume_elim (answer x, u) f h k = cc
  resume_elim (go_on a, u) f h k = k a u refl h

  -- A sequence that goes on has a first stage that goes on.
  pub >>=-elim :
      (m : Exec A) (f : A → Exec B) (s : Server) {b : B} {t : Server}
      → (m >>= f) s ≡ (go_on b, t)
      → ((a : A) (u : Server) → m s ≡ (go_on a, u) → f a u ≡ (go_on b, t) → G)
      → G
  unfolding ◌>>=◌
  >>=-elim m f s h k = resume_elim (m s) f h k

pub pure_inv {ℓ} :
    {A : Type ℓ} (a b : A) (s t : Server) → pure a s ≡ (go_on b, t) → (a ≡ b) × (s ≡ t)
pure_inv a b s t h = (cc, cc)

check_ready_inv :
    (o : Option ℕ) (s u : Server) (a : ℕ) → check_ready o s ≡ (go_on a, u) → (o ≡ some a) × (s ≡ u)
check_ready_inv none s u a h = cc
check_ready_inv (some n) s u a h = (cc, cc)

check_path_inv :
    (o : Option JsString) (s u : Server) (a : JsString)
    → check_path o s ≡ (go_on a, u)
    → (o ≡ some a) × (s ≡ u)
check_path_inv none s u a h = cc
check_path_inv (some n) s u a h = (cc, cc)

pub attempt_inv {ℓ} :
    {A : Type ℓ} (c : Call A) (s u : Server) (a : A)
    → attempt c s ≡ (go_on a, u)
    → (c ≡ returns a) × (s ≡ u)
attempt_inv throws s u a h = cc
attempt_inv (returns b) s u a h = (cc, cc)

check_method_inv :
    (m : JsString) (s u : Server) (a : Unit {0})
    → check_method m s ≡ (go_on a, u)
    → (m ≡ js "POST") × (s ≡ u)
check_method_inv m s u a h = ground (arith, text_eq_iff m (js "POST"))

check_content_type_inv :
    (o : Option JsString) (s u : Server) (t : JsString)
    → check_content_type o s ≡ (go_on t, u)
    → (o ≡ some t) × (is_json_content_type (some t) ≡ true) × (s ≡ u)
check_content_type_inv none s u t h = cc
check_content_type_inv (some t') s u t h = ground arith

check_length_inv :
    (limit : ℕ) (d : DeclaredLength) (s u : Server) (a : Unit {0})
    → check_length limit d s ≡ (go_on a, u)
    → LengthWithin limit d × (s ≡ u)
check_length_inv limit absent s u a h = ground arith
check_length_inv limit invalid s u a h = cc
check_length_inv limit (declared n) s u a h = ground arith

check_profile_inv :
    (profile : Value) (s u : Server) (a : Unit {0})
    → check_profile profile s ≡ (go_on a, u)
    → ((default_profile profile ≡ string (js "standard"))
        ⊎ (default_profile profile ≡ string (js "financial")))
      × (s ≡ u)
check_profile_inv profile s u a h = ground (
  arith,
  is_text_iff (default_profile profile) (js "standard"),
  is_text_iff (default_profile profile) (js "financial"),
)

-- The deployment is ready and the request fits the route, its method, type and declared length.
pub admit_request-IsAdmitted :
    (o : HandlerOptions) (r : Request) (s t : Server) (a : Admitted)
    → admit_request o r s ≡ (go_on a, t)
    → IsAdmitted o r a × (s ≡ t)
unfolding admit_request
admit_request-IsAdmitted o r s t a h = >>=-elim _ _ s h λ _ s1 h1 k1.
    >>=-elim _ _ s1 k1 λ limit s2 h2 k2. >>=-elim _ _ s2 k2 λ path s3 h3 k3.
      >>=-elim _ _ s3 k3 λ method s4 h4 k4. >>=-elim _ _ s4 k4 λ _ s5 h5 k5.
        >>=-elim _ _ s5 k5 λ header s6 h6 k6. >>=-elim _ _ s6 k6 λ content_type s7 h7 k7.
          >>=-elim _ _ s7 k7 λ length s8 h8 k8. >>=-elim _ _ s8 k8 λ _ s9 h9 k9.
            let (profile, e1) = check_profile_inv _ _ _ _ h1 in
            let (ready, e2) = check_ready_inv _ _ _ _ h2 in
            let (route, e3) = check_path_inv _ _ _ _ h3 in
            let (read_method, e4) = attempt_inv _ _ _ _ h4 in
            let (post, e5) = check_method_inv _ _ _ _ h5 in
            let (read_header, e6) = attempt_inv _ _ _ _ h6 in
            let (given, json, e7) = check_content_type_inv _ _ _ _ h7 in
            let (read_length, e8) = attempt_inv _ _ _ _ h8 in
            let (within, e9) = check_length_inv _ _ _ _ _ h9 in
            let found : Admitted = record {
              limit = limit;
              path = path;
              content_type = content_type;
            } in
            let (shape, last) = pure_inv found a s9 t k9 in
            (
              rw (← shape) (record {
                profile = profile;
                ready = ready;
                route = route;
                method = read_method ∙ ap returns post;
                content_type = read_header ∙ ap returns given;
                json = json;
                length_header = length;
                length = read_length;
                length_within = within;
              }),
              e1 ∙ e2 ∙ e3 ∙ e4 ∙ e5 ∙ e6 ∙ e7 ∙ e8 ∙ e9 ∙ last,
            )
