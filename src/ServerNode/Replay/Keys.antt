-- ===== src/ServerNode/Replay/Keys.antt =====
-- Different bindings have different replay keys.
use secure_keyboard.Prelude.{
  ℕ, ◌≡◌, refl, [], ◌∷◌, ◌++◌, arith, true, false, Bool, some, if◌then◌else◌,
}
use secure_keyboard.Js.{JsString, Value, js}
use secure_keyboard.ServerNode.Evidence.{
  FinancialAuthContext, contains_text, operation_of, valid_financial_context,
}
use secure_keyboard.ServerNode.Evidence.Binding.{
  IsNulFree, IsNulFree-points, IsContext, valid_financial_context-IsContext,
}
use secure_keyboard.ServerNode.Replay.{replay_key}

split_at_separator :
    (a b x y : JsString)
    → IsNulFree a
    → IsNulFree b
    → a ++ (0 ∷ x) ≡ b ++ (0 ∷ y)
    → (a ≡ b) × (x ≡ y)
split_at_separator [] [] x y p q e = (refl, cc)
split_at_separator [] (c ∷ b) x y p q e = absurd (q.0 (cc))
split_at_separator (c ∷ a) [] x y p q e = absurd (p.0 (cc))
split_at_separator (c ∷ a) (d ∷ b) x y p q e =
    let (front, back) = split_at_separator a b x y p.1 q.1 (cc) in (cc, back)

words-IsNulFree : (b : Bool) → IsNulFree (if b then js "registration" else js "login")
unfolding js
words-IsNulFree true = omega arith
words-IsNulFree false = omega arith

operation-IsNulFree : (path : JsString) → IsNulFree (operation_of path)
unfolding operation_of
operation-IsNulFree path = words-IsNulFree (contains_text (js "registration") path)

IsContext-IsNulFree :
    (is_excluded : ℕ → Bool)
    → is_excluded 0 ≡ true
    → {path : JsString} {c : FinancialAuthContext} → IsContext is_excluded path c
    → IsNulFree c.deployment_id × IsNulFree c.subject × IsNulFree c.operation
IsContext-IsNulFree is_excluded nul {path} k = (
  IsNulFree-points is_excluded nul _ k.deployment_id.plain,
  IsNulFree-points is_excluded nul _ k.subject.plain,
  rw k.operation (operation-IsNulFree path),
)

replay_key_injective :
    (c d : FinancialAuthContext)
    → IsNulFree c.deployment_id × IsNulFree c.subject × IsNulFree c.operation
    → IsNulFree d.deployment_id × IsNulFree d.subject × IsNulFree d.operation
    → replay_key c ≡ replay_key d
    → c ≡ d
unfolding replay_key
replay_key_injective c d (c1, c2, c3) (d1, d2, d3) e =
    let (deployment, e1) = split_at_separator _ _ _ _ c1 d1 e in
    let (subject, e2) = split_at_separator _ _ _ _ c2 d2 e1 in
    let (operation, nonce) = split_at_separator _ _ _ _ c3 d3 e2 in
    λ i. record {
      subject = subject i;
      operation = operation i;
      nonce = nonce i;
      deployment_id = deployment i;
    }

-- Two contexts that pass the check, for any routes, have one replay key only if they are equal. The
-- Unicode table is assumed to hold the null character among the control characters.
pub replay_key_unique :
    (is_excluded : ℕ → Bool)
    → is_excluded 0 ≡ true
    → (v w : Value) (path path' : JsString) (c d : FinancialAuthContext)
    → valid_financial_context is_excluded v path ≡ some c
    → valid_financial_context is_excluded w path' ≡ some d
    → replay_key c ≡ replay_key d
    → c ≡ d
replay_key_unique is_excluded nul v w path path' c d hc hd =
    replay_key_injective c d
      (IsContext-IsNulFree is_excluded nul
        (valid_financial_context-IsContext is_excluded v path c hc))
      (IsContext-IsNulFree is_excluded nul
        (valid_financial_context-IsContext is_excluded w path' d hd))
