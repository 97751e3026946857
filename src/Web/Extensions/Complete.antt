-- ===== src/Web/Extensions/Complete.antt =====
-- The bounded copy returns for every value within its bounds.
use secure_keyboard.Prelude.{
  ℕ, suc, ◌+◌, ◌≤◌, ◌≡◌, refl, ap, ◌∙◌, sym, ◌↔◌, Bool, false, arith, Option, some,
}
use secure_keyboard.Js.{
  JsString, js, text_eq_iff, Value, undefined, null, boolean, number, string, array, object,
  function, Values, nil, cons, Fields, end, field,
}
use secure_keyboard.Web.Extensions.{
  is_bad_key, and_then, unless, counted, copy_value, copy_values, copy_fields, copy_record,
}
use secure_keyboard.Web.Extensions.Bounded.{
  node_count, values_count, fields_count, IsPlainKey, IsExtension, AreExtensions, IsExtensionFields,
  copy_record-IsExtension,
}

good_key : (key : JsString) → IsPlainKey key → is_bad_key key ≡ false
good_key key h = ground (
  arith,
  text_eq_iff key (js "__proto__"),
  text_eq_iff key (js "constructor"),
  text_eq_iff key (js "prototype"),
)

within {ℓ} :
    {A : Type ℓ} (depth nodes : ℕ) (r : Option A)
    → suc nodes ≤ 256
    → depth ≤ 4
    → counted depth nodes r ≡ r
within depth nodes r h k = ground arith

passes {ℓ} : {A : Type ℓ} (bad : Bool) (r : Option A) → bad ≡ false → unless bad r ≡ r
passes bad r h = rw h refl

leaf :
    (depth nodes : ℕ) (v : Value) (bad : Bool)
    → suc nodes ≤ 256
    → depth ≤ 4
    → bad ≡ false
    → counted {A = Value × ℕ} depth nodes (unless bad (some (v, suc nodes))) ≡ some (v, nodes + 1)
leaf depth nodes v bad room level good =
    within depth nodes _ room level ∙ passes bad _ good ∙ ap (λ (n : ℕ). some (v, n)) (omega arith)

node :
    {A : Type 0} (build : A → Value) (size : ℕ) (depth nodes : ℕ) (vs : A) (bad : Bool)
    (rest : Option (A × ℕ))
    → suc nodes ≤ 256
    → depth ≤ 4
    → bad ≡ false
    → rest ≡ some (vs, suc nodes + size)
    → counted {A = Value × ℕ} depth nodes (unless bad (and_then rest λ p. some (build p.0, p.1)))
      ≡ some (build vs, nodes + suc size)
node build size depth nodes vs bad rest room level good found =
    within depth nodes _ room level
    ∙ passes bad _ good
    ∙ ap (λ (r : Option (_ × ℕ)). and_then r λ p. some (build p.0, p.1)) found
    ∙ ap (λ (n : ℕ). some (build vs, n)) (omega arith)

mutual
  unfolding copy_value copy_values copy_fields IsExtension AreExtensions IsExtensionFields
      node_count values_count fields_count

  copy_value_complete :
      (depth nodes : ℕ) (v : Value)
      → IsExtension depth v
      → nodes + node_count v ≤ 256
      → copy_value depth nodes v ≡ some (v, nodes + node_count v)
  copy_value_complete depth nodes null h room = leaf depth nodes null false (omega arith) h refl
  copy_value_complete depth nodes (boolean b) h room =
      leaf depth nodes (boolean b) false (omega arith) h refl
  copy_value_complete depth nodes (string t) h room =
      leaf depth nodes (string t) _ (omega arith) h.0 (ground (arith, h.1))
  copy_value_complete depth nodes (number x) h room =
      leaf depth nodes (number x) _ (omega arith) h.0 (ground (arith, h.1))
  copy_value_complete depth nodes (array vs) h room =
      node array (values_count vs) depth nodes vs _ (copy_values (suc depth) (suc nodes) vs)
        (omega arith) h.0 (ground (arith, h.1))
        (copy_values_complete (suc depth) (suc nodes) vs h.2 (omega arith))
  copy_value_complete depth nodes (object fs) h room =
      node object (fields_count fs) depth nodes fs _ (copy_fields (suc depth) (suc nodes) fs)
        (omega arith) h.0 (ground (arith, h.1))
        (copy_fields_complete (suc depth) (suc nodes) fs h.2 (omega arith))
  copy_value_complete depth nodes undefined h room = elim h [ ]
  copy_value_complete depth nodes (function t) h room = elim h [ ]

  copy_values_complete :
      (depth nodes : ℕ) (vs : Values)
      → AreExtensions depth vs
      → nodes + values_count vs ≤ 256
      → copy_values depth nodes vs ≡ some (vs, nodes + values_count vs)
  copy_values_complete depth nodes nil h room = ap (λ (n : ℕ). some (nil, n)) (omega arith)
  copy_values_complete depth nodes (cons v vs) (h, k) room =
      rw
        (
          copy_value_complete depth nodes v h (omega arith),
          copy_values_complete depth (nodes + node_count v) vs k (omega arith),
        )
        (ap (λ (n : ℕ). some (cons v vs, n)) (omega arith))

  copy_fields_complete :
      (depth nodes : ℕ) (fs : Fields)
      → IsExtensionFields depth fs
      → nodes + fields_count fs ≤ 256
      → copy_fields depth nodes fs ≡ some (fs, nodes + fields_count fs)
  copy_fields_complete depth nodes end h room = ap (λ (n : ℕ). some (end, n)) (omega arith)
  copy_fields_complete depth nodes (field key v fs) (g, h, k) room =
      passes (is_bad_key key) _ (good_key key g)
      ∙ rw
          (
            copy_value_complete depth nodes v h (omega arith),
            copy_fields_complete depth (nodes + node_count v) fs k (omega arith),
          )
          (ap (λ (n : ℕ). some (field key v fs, n)) (omega arith))

-- An object that is finite data within the bounds, and the same object.
abbrev pub IsExtensions : Value → Value → Type 0
IsExtensions (object fs) w =
    IsExtension 0 (object fs) × (node_count (object fs) ≤ 256) × (object fs ≡ w)
IsExtensions _ w = ⊥

-- A value is copied exactly when it is an object of at most four further levels with finite
-- numbers, short texts, at most 32 entries or plain keys at each level and 256 values in all; the
-- copy is then the object itself.
pub copy_record_iff : (v w : Value) → (copy_record v ≡ some w) ↔ IsExtensions v w
unfolding copy_record
copy_record_iff (object fs) w = (
  λ h. let (same, shape, few) = copy_record-IsExtension (object fs) w h in (shape, few, sym same),
  λ (shape, few, same).
      ap (λ (r : Option (Value × ℕ)). and_then r λ p. some p.0)
        (copy_value_complete 0 0 (object fs) shape (omega (arith, few)))
      ∙ ap some same,
)
copy_record_iff _ w = (λ h. cc, λ h. elim h [ ])
