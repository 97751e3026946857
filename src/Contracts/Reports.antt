-- ===== src/Contracts/Reports.antt =====
-- When lists of reports are empty, and predicates on values that the specifications are made of.
use secure_keyboard.Prelude.{
  ◌≡◌, refl, ◌↔◌, ◌⊎◌, Bool, true, false, not, ◌&&◌, List, [], ◌∷◌, ◌++◌, arith, all, All,
  append-eq-nil_iff, and-eq-true_iff,
}
use secure_keyboard.Js.{
  JsString, includes, text_eq_iff, Value, undefined, string, Fields, keys, has_only_keys,
}
use secure_keyboard.Contracts.Checks.{result, report, optional}

-- One of the listed words.
abbrev pub OneOf : List JsString → JsString → Type 0
OneOf [] t = ⊥
OneOf (w ∷ ws) t = (w ≡ t) ⊎ OneOf ws t

-- A string that satisfies `P`; an omitted field, or one that satisfies `P`.
abbrev pub AsText : (JsString → Type 0) → Value → Type 0
AsText P (string t) = P t
AsText P _ = ⊥

abbrev pub Optional : (Value → Type 0) → Value → Type 0
Optional P undefined = Unit
Optional P v = P v

pub iff_trans {ℓ κ ι} : {A : Type ℓ} {B : Type κ} {C : Type ι} → A ↔ B → B ↔ C → A ↔ C
iff_trans e f = (λ a. f.0 (e.0 a), λ c. e.1 (f.1 c))

pub ×_iff : {A B C D : Type 0} → A ↔ C → B ↔ D → (A × B) ↔ (C × D)
×_iff e f = (λ p. (e.0 p.0, f.0 p.1), λ p. (e.1 p.0, f.1 p.1))

pub valid_iff : (es : List JsString) → ((result es).valid ≡ true) ↔ (es ≡ [])
valid_iff [] = ground arith
valid_iff (e ∷ es) = ground arith

pub append_iff :
    {xs ys : List JsString} {P Q : Type 0}
    → ((xs ≡ []) ↔ P)
    → ((ys ≡ []) ↔ Q)
    → ((xs ++ ys) ≡ []) ↔ (P × Q)
append_iff {xs} {ys} e f = iff_trans (append-eq-nil_iff xs ys) (×_iff e f)

-- The parts of two lists without messages.
pub empty_parts : (xs ys : List JsString) → (xs ++ ys) ≡ [] → (xs ≡ []) × (ys ≡ [])
empty_parts xs ys h = (append-eq-nil_iff xs ys).0 h

pub report_iff :
    (ok : Bool) (message : JsString) {P : Type 0}
    → ((ok ≡ true) ↔ P)
    → (report (not ok) message ≡ []) ↔ P
unfolding report
report_iff true message e = (λ _. e.0 refl, λ _. refl)
report_iff false message e = (λ h. cc, λ p. cc (e.1 p))

pub and_iff :
    (a b : Bool) {P Q : Type 0} → ((a ≡ true) ↔ P) → ((b ≡ true) ↔ Q) → ((a && b) ≡ true) ↔ (P × Q)
and_iff a b e f = iff_trans (and-eq-true_iff a b) (×_iff e f)

pub includes_iff : (ws : List JsString) (t : JsString) → (includes ws t ≡ true) ↔ OneOf ws t
unfolding includes
includes_iff [] t = (λ h. cc, λ h. elim h [ ])
includes_iff (w ∷ ws) t = ground (arith, text_eq_iff w t, includes_iff ws t)

pub all_iff {ℓ} :
    {A : Type ℓ} (test : A → Bool) (P : A → Type 0)
    → ((a : A) → (test a ≡ true) ↔ P a)
    → (xs : List A) → (all test xs ≡ true) ↔ All P xs
all_iff test P e [] = (λ _. tt, λ _. refl)
all_iff test P e (x ∷ xs) = iff_trans (and-eq-true_iff _ _) (×_iff (e x) (all_iff test P e xs))

pub has_only_keys_iff :
    (fs : Fields) (allowed : List JsString)
    → (has_only_keys fs allowed ≡ true) ↔ All (OneOf allowed) (keys fs)
unfolding has_only_keys
has_only_keys_iff fs allowed =
    all_iff (λ k. includes allowed k) (OneOf allowed) (includes_iff allowed) (keys fs)

pub optional_iff :
    (test : Value → Bool) (P : Value → Type 0)
    → ((v : Value) → (test v ≡ true) ↔ P v)
    → (v : Value) → (optional test v ≡ true) ↔ Optional P v
optional_iff test P e undefined = (λ _. tt, λ _. refl)
optional_iff test P e v = e v

pub report-eq-nil_iff :
    (ok : Bool) (message : JsString) → (report (not ok) message ≡ []) ↔ (ok ≡ true)
unfolding report
report-eq-nil_iff ok message = ground arith
