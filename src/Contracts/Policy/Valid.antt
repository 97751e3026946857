-- ===== src/Contracts/Policy/Valid.antt =====
-- `validateLayoutForPolicy` accepts the valid layouts whose input keys are canonical.
use secure_keyboard.Prelude.{
  ℕ, suc, ◌≡◌, ◌≢◌, ◌⊎◌, ◌↔◌, Bool, true, false, List, [], ◌∷◌, arith, All,
}
use secure_keyboard.Js.{JsString, js, Value, string, array, object, items, get}
use secure_keyboard.Contracts.Checks.{report}
use secure_keyboard.Contracts.Reports.{iff_trans, valid_iff, append_iff}
use secure_keyboard.Contracts.Layout.{layout_errors, validate_layout}
use secure_keyboard.Contracts.Layout.Shape.{IsLayout}
use secure_keyboard.Contracts.Layout.Parts.{is_text_iff}
use secure_keyboard.Contracts.Layout.Valid.{validate_layout_iff}
use secure_keyboard.Contracts.Policy.{
  InputPolicy, is_canonical_input_key_id, is_foreign_id, is_foreign_key, policy_key_errors,
  policy_row_errors, policy_rows, policy_errors, validate_layout_for_policy,
}
use secure_keyboard.Contracts.Policy.Ids.{IsInputId, is_canonical_input_key_id_iff}

-- An input key with a text ID has an ID of the policy's form; other keys are free.
abbrev pub IsTextOf : (JsString → Type 0) → Value → Type 0
IsTextOf P (string t) = P t
IsTextOf P _ = Unit

abbrev pub IsPolicyKey : InputPolicy → Value → Type 0
IsPolicyKey policy (object fs) =
    (get fs "role" ≢ string (js "input")) ⊎ IsTextOf (IsInputId policy) (get fs "id")
IsPolicyKey policy _ = Unit

abbrev pub IsPolicyRow : InputPolicy → Value → Type 0
IsPolicyRow policy (array row) = All (IsPolicyKey policy) (items row)
IsPolicyRow policy _ = Unit

abbrev pub IsPolicyRows : InputPolicy → Value → Type 0
IsPolicyRows policy (array rows) = All (IsPolicyRow policy) (items rows)
IsPolicyRows policy _ = Unit

abbrev pub IsPolicyLayout : InputPolicy → Value → Type 0
IsPolicyLayout policy (object fs) = IsPolicyRows policy (get fs "rows")
IsPolicyLayout policy _ = Unit

foreign_id_iff :
    (v : Value) (policy : InputPolicy)
    → (is_foreign_id v policy ≡ false) ↔ IsTextOf (IsInputId policy) v
foreign_id_iff (string id) policy =
    let (to, from) = is_canonical_input_key_id_iff id policy in
    (
      λ h. to (ground arith),
      λ p. let c : is_canonical_input_key_id id policy ≡ true = from p in ground arith,
    )
foreign_id_iff _ policy = ground arith

foreign_key_iff :
    (key : Value) (policy : InputPolicy)
    → (is_foreign_key key policy ≡ false) ↔ IsPolicyKey policy key
foreign_key_iff (object fs) policy =
    ground (arith, is_text_iff (get fs "role") (js "input"), foreign_id_iff (get fs "id") policy)
foreign_key_iff _ policy = ground arith

report_bad_iff : (bad : Bool) (message : JsString) → (report bad message ≡ []) ↔ (bad ≡ false)
unfolding report
report_bad_iff bad message = ground arith

policy_keys_iff :
    (policy : InputPolicy) (i j : ℕ) (row : List Value)
    → (policy_key_errors policy i j row ≡ []) ↔ All (IsPolicyKey policy) row
unfolding policy_key_errors
policy_keys_iff policy i j [] = ground arith
policy_keys_iff policy i j (key ∷ row) =
    append_iff (iff_trans (report_bad_iff _ _) (foreign_key_iff key policy))
      (policy_keys_iff policy i (suc j) row)

policy_row_errors_iff :
    (policy : InputPolicy) (i : ℕ) (rows : List Value)
    → (policy_row_errors policy i rows ≡ []) ↔ All (IsPolicyRow policy) rows
unfolding policy_row_errors
policy_row_errors_iff policy i [] = ground arith
policy_row_errors_iff policy i (array row ∷ rows) =
    append_iff (policy_keys_iff policy i 0 (items row)) (policy_row_errors_iff policy (suc i) rows)
policy_row_errors_iff policy i (_ ∷ rows) =
    let (to, from) = policy_row_errors_iff policy (suc i) rows in (λ h. (tt, to h), λ p. from p.1)

policy_rows_iff :
    (policy : InputPolicy) (v : Value) → (policy_rows policy v ≡ []) ↔ IsPolicyRows policy v
policy_rows_iff policy (array rows) = policy_row_errors_iff policy 0 (items rows)
policy_rows_iff policy _ = ground arith

policy_errors_iff :
    (policy : InputPolicy) (v : Value) → (policy_errors policy v ≡ []) ↔ IsPolicyLayout policy v
unfolding policy_errors
policy_errors_iff policy (object fs) = policy_rows_iff policy (get fs "rows")
policy_errors_iff policy _ = ground arith

no_errors_iff : (v : Value) → ((validate_layout v).errors ≡ []) ↔ ((validate_layout v).valid ≡ true)
unfolding validate_layout
no_errors_iff (object fs) = let (to, from) = valid_iff (layout_errors fs) in (from, to)
no_errors_iff _ = ground arith

-- A value is a valid layout for a policy exactly when it is a valid layout and each of its keys
-- with the input role has an ID of the policy's form.
pub validate_layout_for_policy_iff :
    (v : Value) (policy : InputPolicy)
    → ((validate_layout_for_policy v policy).valid ≡ true) ↔ (IsLayout v × IsPolicyLayout policy v)
unfolding validate_layout_for_policy
validate_layout_for_policy_iff v policy =
    iff_trans (valid_iff _) (
      append_iff (iff_trans (no_errors_iff v) (validate_layout_iff v)) (policy_errors_iff policy v))
