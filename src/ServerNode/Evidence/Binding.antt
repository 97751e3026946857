-- ===== src/ServerNode/Evidence/Binding.antt =====
-- What checked contexts and checked evidence satisfy.
use secure_keyboard.Prelude.{
  ℕ, zero, suc, ◌+◌, ◌≤◌, ◌<◌, ◌≡◌, ◌≢◌, refl, ap, ◌↔◌, inl, inr, Bool, Bool-cases, and-eq-true_iff,
  true, false, ◌&&◌, ◌||◌, List, [], ◌∷◌, arith, any, All, Option, some,
}
use secure_keyboard.Js.{
  JsString, natural, negative, Value, number, string, object, Fields, get, is_text,
}
use secure_keyboard.Contracts.Patterns.{code_points, utf8_byte_length, is_high, is_low}
use secure_keyboard.Contracts.Reports.{OneOf, AsText, includes_iff}
use secure_keyboard.Contracts.Layout.Shape.{IsText}
use secure_keyboard.Contracts.Layout.Parts.{is_text_iff}
use secure_keyboard.ServerNode.Evidence.{
  FinancialAuthContext, device_integrity_providers, operation_of, bounded_binding, context_of,
  valid_financial_context, is_provider, is_fresh, is_fresh_bound_evidence, expires_at,
}

-- The evidence is about the context, from a known provider, and within its time window.
pub record IsBoundEvidence (v : Value) (context : FinancialAuthContext) (now : ℕ) : Type 0 where
  pub fields : Fields
  pub shape : v ≡ object fields
  pub provider : AsText (OneOf device_integrity_providers) (get fields "provider")
  pub subject : IsText context.subject (get fields "subject")
  pub operation : IsText context.operation (get fields "operation")
  pub nonce : IsText context.nonce (get fields "nonce")
  pub deployment_id : IsText context.deployment_id (get fields "deploymentId")
  pub unexpired : now < expires_at v
  pub short_lived : expires_at v ≤ now + 330_000

provider_iff : (v : Value) → (is_provider v ≡ true) ↔ AsText (OneOf device_integrity_providers) v
provider_iff (string t) = includes_iff device_integrity_providers t
provider_iff _ = ground arith

abbrev IsNaturalValue : Value → ℕ → Type 0
IsNaturalValue v n = v ≡ number (natural n)

fresh_window :
    (now : ℕ) (issued expires : Value)
    → is_fresh now issued expires ≡ true
    → (e : ℕ) × IsNaturalValue expires e × (now < e) × (e ≤ now + 330_000)
fresh_window now (number (natural i)) (number (natural e)) h = (e, refl, ground arith, ground arith)
fresh_window now (number (negative i)) (number (natural e)) h =
    (e, refl, ground arith, ground arith)
fresh_window now issued expires h = cc

expires_at_lem :
    (fs : Fields) (e : ℕ) → IsNaturalValue (get fs "expiresAtMs") e → expires_at (object fs) ≡ e
expires_at_lem fs e h = rw h

-- Evidence that passes is bound to the context, has not expired, and expires within 330 seconds.
pub is_fresh_bound_evidence-IsBoundEvidence :
    (v : Value) (context : FinancialAuthContext) (now : ℕ)
    → is_fresh_bound_evidence v context now ≡ true
    → IsBoundEvidence v context now
unfolding is_fresh_bound_evidence
is_fresh_bound_evidence-IsBoundEvidence (object fs) context now h =
    let (((((((provider, subject), operation), nonce), deployment), issued), expires), fresh) =
      simp and-eq-true_iff at h in
    let (e, value, after_now, soon) =
      fresh_window now (get fs "issuedAtMs") (get fs "expiresAtMs") fresh in
    let same : expires_at (object fs) ≡ e = expires_at_lem fs e value in
    record {
      fields = fs;
      shape = refl;
      provider = (provider_iff (get fs "provider")).0 provider;
      subject = (is_text_iff (get fs "subject") context.subject).0 subject;
      operation = (is_text_iff (get fs "operation") context.operation).0 operation;
      nonce = (is_text_iff (get fs "nonce") context.nonce).0 nonce;
      deployment_id = (is_text_iff (get fs "deploymentId") context.deployment_id).0 deployment;
      unexpired = rw same after_now;
      short_lived = rw same soon;
    }
is_fresh_bound_evidence-IsBoundEvidence _ context now h = cc

-- No code unit of the text is 0.
abbrev pub IsNulFree : JsString → Type 0
IsNulFree t = All (λ c. c ≢ 0) t

or_false_right : (a b : Bool) → (a || b) ≡ false → b ≡ false
or_false_right a b h = ground arith

nul_free_head :
    (is_excluded : ℕ → Bool)
    → is_excluded 0 ≡ true
    → (a : ℕ) (rest : List ℕ) → (is_excluded a || any is_excluded rest) ≡ false
    → a ≢ 0
nul_free_head is_excluded nul zero rest h = λ e. ground arith
nul_free_head is_excluded nul (suc a) rest h = λ e. omega arith

pub IsNulFree-points :
    (is_excluded : ℕ → Bool)
    → is_excluded 0 ≡ true
    → (t : JsString) → any is_excluded (code_points t) ≡ false
    → IsNulFree t
unfolding code_points
IsNulFree-points is_excluded nul [] h = tt
IsNulFree-points is_excluded nul (a ∷ []) h = (nul_free_head is_excluded nul a [] h, tt)
IsNulFree-points is_excluded nul (a ∷ b ∷ rest) h = elim (Bool-cases (is_high a && is_low b)) [
  | inl pair ↦
      let h' = rw pair at h in
      (ground arith, (ground arith, IsNulFree-points is_excluded nul rest (or_false_right _ _ h')))
  | inr single ↦
      let h' = rw single at h in
      (
        nul_free_head is_excluded nul a (code_points (b ∷ rest)) h',
        IsNulFree-points is_excluded nul (b ∷ rest) (ground arith),
      )
]

-- A checked binding: no excluded code point, and a UTF-8 length in range.
pub record IsBinding (is_excluded : ℕ → Bool) (lo hi : ℕ) (t : JsString) : Type 0 where
  pub plain : any is_excluded (code_points t) ≡ false
  pub longest : utf8_byte_length t ≤ hi
  pub shortest : lo ≤ utf8_byte_length t

bounded_binding-IsBinding :
    (is_excluded : ℕ → Bool) (v : Value) (lo hi : ℕ) (t : JsString)
    → bounded_binding is_excluded v lo hi ≡ some t
    → (v ≡ string t) × IsBinding is_excluded lo hi t
unfolding bounded_binding
bounded_binding-IsBinding is_excluded (string t') lo hi t h =
    let e : t' ≡ t = ground arith in
    (
      ap string e,
      rw (← e) (record { plain = ground arith; longest = ground arith; shortest = ground arith }),
    )
bounded_binding-IsBinding is_excluded _ lo hi t h = cc

-- A checked context: the operation of the route, and bindings within their bounds.
pub record IsContext (is_excluded : ℕ → Bool) (path : JsString) (c : FinancialAuthContext)
    : Type 0 where
  pub operation : c.operation ≡ operation_of path
  pub subject : IsBinding is_excluded 1 256 c.subject
  pub nonce : IsBinding is_excluded 16 512 c.nonce
  pub deployment_id : IsBinding is_excluded 1 128 c.deployment_id

context_of-eq-some :
    (operation : JsString) (subject nonce deployment_id : Option JsString)
    (c : FinancialAuthContext)
    → context_of operation subject nonce deployment_id ≡ some c
    → (c.operation ≡ operation)
      × (subject ≡ some c.subject)
      × (nonce ≡ some c.nonce)
      × (deployment_id ≡ some c.deployment_id)
context_of-eq-some operation (some s) (some n) (some d) c h = ground arith
context_of-eq-some operation _ _ _ c h = ground arith

-- What `isValidFinancialContext` accepts is a context for the route.
pub valid_financial_context-IsContext :
    (is_excluded : ℕ → Bool) (v : Value) (path : JsString) (c : FinancialAuthContext)
    → valid_financial_context is_excluded v path ≡ some c
    → IsContext is_excluded path c
unfolding valid_financial_context
valid_financial_context-IsContext is_excluded (object fs) path c h =
    elim (Bool-cases (is_text (get fs "operation") (operation_of path))) [
      | inl same ↦
          let (operation, subject, nonce, deployment) =
            context_of-eq-some _ _ _ _ c (rw same at h) in
          record {
            operation = operation;
            subject = (bounded_binding-IsBinding is_excluded _ _ _ _ subject).1;
            nonce = (bounded_binding-IsBinding is_excluded _ _ _ _ nonce).1;
            deployment_id = (bounded_binding-IsBinding is_excluded _ _ _ _ deployment).1;
          }
      | inr other ↦ ground arith
    ]
valid_financial_context-IsContext is_excluded _ path c h = cc
