-- ===== src/Web/Extensions.antt =====
-- `copyBoundedExtensionValue` and `copyRecord`.
--
-- The budget's counter is passed on from value to value; none stands for a thrown
-- WebAuthnClientError, behind which the counter is never read again.
pub mod Bounded
pub mod Complete
use secure_keyboard.Prelude.{
  ℕ, zero, suc, ◌+◌, ◌≤◌, ◌≡◌, ◌≢◌, Bool, true, false, not, ◌&&◌, ◌||◌, List, [], ◌∷◌, Option, none,
  some, leb, ltb, if◌then◌else◌, length,
}
use secure_keyboard.Js.{
  JsString, js, text_eq, Value, undefined, null, boolean, number, string, array, object, function,
  Values, nil, cons, Fields, end, field, items, keys, JsNumber, is_finite,
}

abbrev pub max_extension_depth : ℕ
max_extension_depth = 4

abbrev pub max_extension_nodes : ℕ
max_extension_nodes = 256

abbrev pub max_extension_keys : ℕ
max_extension_keys = 32

abbrev pub max_extension_string_length : ℕ
max_extension_string_length = 2048

-- A name that is too long or reaches the prototype.
abbrev pub is_bad_key : JsString → Bool
is_bad_key key =
    ltb 128 (length key)
    || text_eq key (js "__proto__")
    || text_eq key (js "constructor")
    || text_eq key (js "prototype")

abbrev pub and_then {ℓ κ} : {A : Type ℓ} {B : Type κ} → Option A → (A → Option B) → Option B
and_then none f = none
and_then (some a) f = f a

-- `if (bad) throw ...`
abbrev pub unless {ℓ} : {A : Type ℓ} → Bool → Option A → Option A
unless bad r = if bad then none else r

-- `budget.nodes += 1`, and the test of the two limits.
abbrev pub counted {ℓ} : {A : Type ℓ} → ℕ → ℕ → Option A → Option A
counted depth nodes r =
    unless (ltb max_extension_nodes (suc nodes) || ltb max_extension_depth depth) r

unfoldable mutual
  pub copy_value : ℕ → ℕ → Value → Option (Value × ℕ)
  copy_value depth nodes null = counted depth nodes (some (null, suc nodes))
  copy_value depth nodes (boolean b) = counted depth nodes (some (boolean b, suc nodes))
  copy_value depth nodes (string t) =
      counted depth nodes
        (unless (ltb max_extension_string_length (length t)) (some (string t, suc nodes)))
  copy_value depth nodes (number x) =
      counted depth nodes (unless (not (is_finite x)) (some (number x, suc nodes)))
  copy_value depth nodes (array vs) = counted depth nodes (
      unless (ltb max_extension_keys (length (items vs)))
        (and_then (copy_values (suc depth) (suc nodes) vs) λ p. some (array p.0, p.1)))
  copy_value depth nodes (object fs) = counted depth nodes (
      unless (ltb max_extension_keys (length (keys fs)))
        (and_then (copy_fields (suc depth) (suc nodes) fs) λ p. some (object p.0, p.1)))
  copy_value depth nodes undefined = none
  copy_value depth nodes (function t) = none

  pub copy_values : ℕ → ℕ → Values → Option (Values × ℕ)
  copy_values depth nodes nil = some (nil, nodes)
  copy_values depth nodes (cons v vs) =
      and_then (copy_value depth nodes v)
        λ p. and_then (copy_values depth p.1 vs) λ q. some (cons p.0 q.0, q.1)

  pub copy_fields : ℕ → ℕ → Fields → Option (Fields × ℕ)
  copy_fields depth nodes end = some (end, nodes)
  copy_fields depth nodes (field key v fs) = unless (is_bad_key key) (
      and_then (copy_value depth nodes v)
        λ p. and_then (copy_fields depth p.1 fs) λ q. some (field key p.0 q.0, q.1))

-- `copyRecord` on a value that is given; a record is copied to a record.
unfoldable pub copy_record : Value → Option Value
unfolding copy_value
copy_record (object fs) = and_then (copy_value 0 0 (object fs)) λ p. some p.0
copy_record _ = none
