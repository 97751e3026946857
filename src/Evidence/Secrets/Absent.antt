-- ===== src/Evidence/Secrets/Absent.antt =====
-- Which values have no key that names a secret.
use secure_keyboard.Prelude.{ℕ, ◌+◌, ◌≡◌, ◌↔◌, refl, Bool, true, false, [], ◌++◌}
use secure_keyboard.Js.{
  JsString, js, decimal, Value, array, object, Values, nil, cons, Fields, end, field,
}
use secure_keyboard.Contracts.Reports.{append_iff, iff_trans}
use secure_keyboard.Contracts.Checks.{report}
use secure_keyboard.Evidence.Checks.{add_if}
use secure_keyboard.Evidence.Secrets.{
  is_forbidden_key, reject_secret_keys, reject_items, reject_fields,
}

-- At no depth does an object have such a key.
unfoldable mutual
  pub HasNoSecretKey : Value → Type 0
  HasNoSecretKey (array vs) = HasNoSecretItem vs
  HasNoSecretKey (object fs) = HasNoSecretField fs
  HasNoSecretKey _ = Unit

  pub HasNoSecretItem : Values → Type 0
  HasNoSecretItem nil = Unit
  HasNoSecretItem (cons v vs) = HasNoSecretKey v × HasNoSecretItem vs

  pub HasNoSecretField : Fields → Type 0
  HasNoSecretField end = Unit
  HasNoSecretField (field key v fs) =
      (is_forbidden_key key ≡ false) × HasNoSecretKey v × HasNoSecretField fs

pub add_if_iff :
    (bad : Bool) (path detail : JsString) → (add_if bad path detail ≡ []) ↔ (bad ≡ false)
unfolding report
add_if_iff true path detail = (λ h. cc, λ h. cc)
add_if_iff false path detail = (λ h. refl, λ h. refl)

mutual
  unfolding HasNoSecretKey reject_secret_keys

  value_iff : (path : JsString) (v : Value) → (reject_secret_keys path v ≡ []) ↔ HasNoSecretKey v
  value_iff path (array vs) = items_iff path 0 vs
  value_iff path (object fs) = fields_iff path fs
  value_iff path _ = (λ h. tt, λ h. refl)

  items_iff :
      (path : JsString) (index : ℕ) (vs : Values)
      → (reject_items path index vs ≡ []) ↔ HasNoSecretItem vs
  items_iff path index nil = (λ h. tt, λ h. refl)
  items_iff path index (cons v vs) =
      append_iff (value_iff (path ++ js "[" ++ decimal index ++ js "]") v)
        (items_iff path (index + 1) vs)

  fields_iff : (path : JsString) (fs : Fields) → (reject_fields path fs ≡ []) ↔ HasNoSecretField fs
  fields_iff path end = (λ h. tt, λ h. refl)
  fields_iff path (field key v fs) =
      iff_trans
        (append_iff
          (append_iff (add_if_iff (is_forbidden_key key) _ _) (value_iff (path ++ js "." ++ key) v))
          (fields_iff path fs))
        (λ p. (p.0.0, p.0.1, p.1), λ p. ((p.0, p.1), p.2))

-- A value is free of findings exactly when no object in it, at any depth, has a key that contains
-- one of the forbidden words in any case, or is the word value.
pub reject_secret_keys_iff :
    (path : JsString) (v : Value) → (reject_secret_keys path v ≡ []) ↔ HasNoSecretKey v
reject_secret_keys_iff path v = value_iff path v
