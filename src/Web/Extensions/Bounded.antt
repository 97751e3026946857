-- ===== src/Web/Extensions/Bounded.antt =====
-- What the bounded copy accepts.
use secure_keyboard.Prelude.{
  ℕ, suc, ◌+◌, ◌≤◌, ◌≡◌, ◌≢◌, refl, ap, ◌∙◌, sym, Bool, true, false, arith, Option, none, some,
  length,
}
use secure_keyboard.Js.{
  JsString, js, text_eq_iff, Value, undefined, null, boolean, number, string, array, object,
  function, Values, nil, cons, Fields, end, field, items, keys, is_finite,
}
use secure_keyboard.Web.Extensions.{
  is_bad_key, and_then, unless, counted, copy_value, copy_values, copy_fields, copy_record,
}

-- The number of values in a value, itself included.
unfoldable mutual
  pub node_count : Value → ℕ
  node_count (array vs) = suc (values_count vs)
  node_count (object fs) = suc (fields_count fs)
  node_count _ = 1

  pub values_count : Values → ℕ
  values_count nil = 0
  values_count (cons v vs) = node_count v + values_count vs

  pub fields_count : Fields → ℕ
  fields_count end = 0
  fields_count (field key v fs) = node_count v + fields_count fs

-- A short name that does not reach the prototype.
abbrev pub IsPlainKey : JsString → Type 0
IsPlainKey key =
    (length key ≤ 128) × (key ≢ js "__proto__") × (key ≢ js "constructor") × (key ≢ js "prototype")

-- Finite data of at most four levels, with short texts and few, plain keys at each level.
unfoldable mutual
  pub IsExtension : ℕ → Value → Type 0
  IsExtension depth null = depth ≤ 4
  IsExtension depth (boolean b) = depth ≤ 4
  IsExtension depth (number x) = (depth ≤ 4) × (is_finite x ≡ true)
  IsExtension depth (string t) = (depth ≤ 4) × (length t ≤ 2048)
  IsExtension depth (array vs) =
      (depth ≤ 4) × (length (items vs) ≤ 32) × AreExtensions (suc depth) vs
  IsExtension depth (object fs) =
      (depth ≤ 4) × (length (keys fs) ≤ 32) × IsExtensionFields (suc depth) fs
  IsExtension depth undefined = ⊥
  IsExtension depth (function t) = ⊥

  pub AreExtensions : ℕ → Values → Type 0
  AreExtensions depth nil = Unit
  AreExtensions depth (cons v vs) = IsExtension depth v × AreExtensions depth vs

  pub IsExtensionFields : ℕ → Fields → Type 0
  IsExtensionFields depth end = Unit
  IsExtensionFields depth (field key v fs) =
      IsPlainKey key × IsExtension depth v × IsExtensionFields depth fs

and_then_inv {ℓ κ} :
    {A : Type ℓ} {B : Type κ} (o : Option A) (f : A → Option B) (b : B)
    → and_then o f ≡ some b
    → (a : A) × (o ≡ some a) × (f a ≡ some b)
and_then_inv none f b h = cc
and_then_inv (some a) f b h = (a, refl, h)

unless_inv {ℓ} :
    {A : Type ℓ} (bad : Bool) (r : Option A) (b : A)
    → unless bad r ≡ some b
    → (bad ≡ false) × (r ≡ some b)
unless_inv true r b h = cc
unless_inv false r b h = (refl, h)

counted_inv {ℓ} :
    {A : Type ℓ} (depth nodes : ℕ) (r : Option A) (b : A)
    → counted depth nodes r ≡ some b
    → (suc nodes ≤ 256) × (depth ≤ 4) × (r ≡ some b)
counted_inv depth nodes r b h =
    let (small, e) = unless_inv _ r b h in (ground arith, ground arith, e)

plain_key : (key : JsString) → is_bad_key key ≡ false → IsPlainKey key
plain_key key h = ground (
  arith,
  text_eq_iff key (js "__proto__"),
  text_eq_iff key (js "constructor"),
  text_eq_iff key (js "prototype"),
)

-- A copy: the same value, counted exactly, within the budget.
record Copied {ℓ} (A : Type ℓ) (v w : A) (shape : Type 0) (size nodes total : ℕ) : Type ℓ where
  pub same : v ≡ w
  pub total_is : total ≡ nodes + size
  pub within : nodes ≤ 256 → total ≤ 256
  pub shaped : shape

pair_inv {ℓ} :
    {A : Type ℓ} (v w : A) (n m : ℕ)
    → ◌≡◌ {A = Option (A × ℕ)} (some (v, n)) (some (w, m))
    → (v ≡ w) × (n ≡ m)
pair_inv v w n m h = (cc, cc)

leaf :
    (depth nodes : ℕ) (v w : Value) (m : ℕ) (bad : Bool) (shape : Type 0)
    → counted {A = Value × ℕ} depth nodes (unless bad (some (v, suc nodes))) ≡ some (w, m)
    → (depth ≤ 4 → bad ≡ false → shape)
    → Copied Value v w shape 1 nodes m
leaf depth nodes v w m bad shape h s =
    let (room, level, e) = counted_inv depth nodes _ _ h in
    let (good, e') = unless_inv bad _ _ e in
    let (same, total) = pair_inv v w (suc nodes) m e' in
    record {
      same = same;
      total_is = omega (arith, total);
      within = λ k. omega (arith, total, room);
      shaped = s level good;
    }

-- A node over its parts.
node :
    {A : Type 0} (build : A → Value) (size : ℕ) (depth nodes : ℕ) (vs : A) (w : Value) (m : ℕ)
    (bad : Bool) (shape parts : Type 0) (rest : Option (A × ℕ))
    → counted {A = Value × ℕ} depth nodes (unless bad (and_then rest λ p. some (build p.0, p.1)))
      ≡ some (w, m)
    → ((ws : A) (k : ℕ) → rest ≡ some (ws, k) → Copied A vs ws parts size (suc nodes) k)
    → (depth ≤ 4 → bad ≡ false → parts → shape)
    → Copied Value (build vs) w shape (suc size) nodes m
node build size depth nodes vs w m bad shape parts rest h copied s =
    let (room, level, e) = counted_inv depth nodes _ _ h in
    let (good, e') = unless_inv bad _ _ e in
    let ((ws, k), found, e'') = and_then_inv rest _ _ e' in
    let (same, total) = pair_inv (build ws) w k m e'' in
    let c = copied ws k found in
    record {
      same = ap build c.same ∙ same;
      total_is = omega (arith, total, c.total_is);
      within = λ _. omega (arith, total, c.within room);
      shaped = s level good c.shaped;
    }

mutual
  unfolding copy_value copy_values copy_fields IsExtension AreExtensions IsExtensionFields
      node_count values_count fields_count

  copy_value-Copied :
      (depth nodes : ℕ) (v w : Value) (m : ℕ)
      → copy_value depth nodes v ≡ some (w, m)
      → Copied Value v w (IsExtension depth v) (node_count v) nodes m
  copy_value-Copied depth nodes null w m h = leaf depth nodes null w m false _ h (λ l _. l)
  copy_value-Copied depth nodes (boolean b) w m h =
      leaf depth nodes (boolean b) w m false _ h (λ l _. l)
  copy_value-Copied depth nodes (string t) w m h =
      leaf depth nodes (string t) w m _ _ h (λ l good. (l, ground arith))
  copy_value-Copied depth nodes (number x) w m h =
      leaf depth nodes (number x) w m _ _ h (λ l good. (l, ground arith))
  copy_value-Copied depth nodes (array vs) w m h =
      node array (values_count vs) depth nodes vs w m _ _ (AreExtensions (suc depth) vs)
        (copy_values (suc depth) (suc nodes) vs) h (copy_values-Copied (suc depth) (suc nodes) vs)
        (λ l good parts. (l, ground arith, parts))
  copy_value-Copied depth nodes (object fs) w m h =
      node object (fields_count fs) depth nodes fs w m _ _ (IsExtensionFields (suc depth) fs)
        (copy_fields (suc depth) (suc nodes) fs) h (copy_fields-Copied (suc depth) (suc nodes) fs)
        (λ l good parts. (l, ground arith, parts))
  copy_value-Copied depth nodes undefined w m h = cc
  copy_value-Copied depth nodes (function t) w m h = cc

  copy_values-Copied :
      (depth nodes : ℕ) (vs ws : Values) (m : ℕ)
      → copy_values depth nodes vs ≡ some (ws, m)
      → Copied Values vs ws (AreExtensions depth vs) (values_count vs) nodes m
  copy_values-Copied depth nodes nil ws m h =
      let (same, total) = pair_inv nil ws nodes m h in
      record {
        same = same;
        total_is = omega (arith, total);
        within = λ k. omega (arith, total, k);
        shaped = tt;
      }
  copy_values-Copied depth nodes (cons v vs) ws m h =
      let ((v', n), found, e) = and_then_inv (copy_value depth nodes v) _ _ h in
      let ((vs', k), found', e') = and_then_inv (copy_values depth n vs) _ _ e in
      let (same, total) = pair_inv (cons v' vs') ws k m e' in
      let c = copy_value-Copied depth nodes v v' n found in
      let d = copy_values-Copied depth n vs vs' k found' in
      record {
        same = (λ i. cons (c.same i) (d.same i)) ∙ same;
        total_is = omega (arith, total, c.total_is, d.total_is);
        within = λ r. omega (arith, total, d.within (c.within r));
        shaped = (c.shaped, d.shaped);
      }

  copy_fields-Copied :
      (depth nodes : ℕ) (fs gs : Fields) (m : ℕ)
      → copy_fields depth nodes fs ≡ some (gs, m)
      → Copied Fields fs gs (IsExtensionFields depth fs) (fields_count fs) nodes m
  copy_fields-Copied depth nodes end gs m h =
      let (same, total) = pair_inv end gs nodes m h in
      record {
        same = same;
        total_is = omega (arith, total);
        within = λ k. omega (arith, total, k);
        shaped = tt;
      }
  copy_fields-Copied depth nodes (field key v fs) gs m h =
      let (good, h') = unless_inv (is_bad_key key) _ _ h in
      let ((v', n), found, e) = and_then_inv (copy_value depth nodes v) _ _ h' in
      let ((fs', k), found', e') = and_then_inv (copy_fields depth n fs) _ _ e in
      let (same, total) = pair_inv (field key v' fs') gs k m e' in
      let c = copy_value-Copied depth nodes v v' n found in
      let d = copy_fields-Copied depth n fs fs' k found' in
      record {
        same = (λ i. field key (c.same i) (d.same i)) ∙ same;
        total_is = omega (arith, total, c.total_is, d.total_is);
        within = λ r. omega (arith, total, d.within (c.within r));
        shaped = (plain_key key good, c.shaped, d.shaped);
      }

-- A record that is copied is copied unchanged. It is finite data of at most four levels below it,
-- with short texts and at most 32 entries or plain keys at each level, and 256 values in all.
pub copy_record-IsExtension :
    (v w : Value) → copy_record v ≡ some w → (w ≡ v) × IsExtension 0 v × (node_count v ≤ 256)
unfolding copy_record
copy_record-IsExtension (object fs) w h =
    let ((w', m), found, e) = and_then_inv (copy_value 0 0 (object fs)) _ w h in
    let c = copy_value-Copied 0 0 (object fs) w' m found in
    let last : w' ≡ w = cc in
    (sym (c.same ∙ last), c.shaped, omega (arith, c.total_is, c.within (omega arith)))
copy_record-IsExtension _ w h = cc
