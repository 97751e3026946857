-- ===== src/Contracts/Theme/Valid.antt =====
-- `validateTheme` accepts exactly the well-formed themes.
use secure_keyboard.Prelude.{
  ℕ, ◌≡◌, refl, ◌↔◌, inl, Bool, true, false, not, List, [], ◌∷◌, arith, All, append-eq-nil_iff,
  append-nil, if◌then◌else◌,
}
use secure_keyboard.Js.{
  JsString, js, text_eq, includes, Value, undefined, number, natural, fraction, infinity, string,
  array, object, nil, cons, Fields, end, field, get, property,
}
use secure_keyboard.Js.Coerce.{text_of}
use secure_keyboard.Contracts.Patterns.Words.{IsColor, matches_color_iff}
use secure_keyboard.Contracts.Checks.{is_bounded_number}
use secure_keyboard.Contracts.Reports.{
  OneOf, AsText, append_iff, report_iff, valid_iff, report-eq-nil_iff, has_only_keys_iff,
  includes_iff, optional_iff,
}
use secure_keyboard.Contracts.Layout.Parts.{is_natural_iff}
use secure_keyboard.Contracts.Events.Valid.{is_bounded_integer_iff}
use secure_keyboard.Contracts.Theme.{
  theme_fields, is_color, color_keys, color_errors, colors_errors, metric_keys, metrics_errors,
  font_weights, is_font_weight, typography_keys, typography_errors, animation_keys,
  animation_errors, feedback_keys, haptics, sounds, feedback_errors, validate_theme,
}
use secure_keyboard.Contracts.Theme.Shape.{
  IsNumber, IsColors, IsMetrics, IsTypography, IsAnimation, ReadsAs, IsFeedback, IsTheme,
}

is_color_iff : (v : Value) → (is_color v ≡ true) ↔ AsText IsColor v
is_color_iff (string t) = matches_color_iff t
is_color_iff _ = ground arith

is_bounded_number_iff :
    (lo hi : ℕ) (v : Value) → (is_bounded_number lo hi v ≡ true) ↔ IsNumber lo hi v
unfolding is_bounded_number
is_bounded_number_iff lo hi (number (natural n)) = ground arith
is_bounded_number_iff lo hi (number (fraction false n t)) = ground arith
is_bounded_number_iff lo hi (number (fraction true n t)) = ground arith
is_bounded_number_iff lo hi (number (infinity true)) = ground arith
is_bounded_number_iff lo hi (number (infinity false)) = ground arith
is_bounded_number_iff lo hi (number _) = ground arith
is_bounded_number_iff lo hi _ = ground arith

is_font_weight_iff : (v : Value) → (is_font_weight v ≡ true) ↔ AsText (OneOf font_weights) v
is_font_weight_iff (string t) = includes_iff font_weights t
is_font_weight_iff _ = ground arith

color_errors_iff :
    (fs : Fields) (ks : List JsString)
    → (color_errors fs ks ≡ []) ↔ All (λ k. AsText IsColor (property fs k)) ks
unfolding color_errors
color_errors_iff fs [] = ground arith
color_errors_iff fs (k ∷ ks) =
    append_iff (report_iff _ _ (is_color_iff (property fs k))) (color_errors_iff fs ks)

-- A guard on the fields of an object, and what is checked behind it.
guarded_iff :
    (ok : Bool) (message : JsString) (rest : List JsString) {P Q : Type 0}
    → ((ok ≡ true) ↔ P)
    → ((rest ≡ []) ↔ Q)
    → ((if not ok then message ∷ [] else rest) ≡ []) ↔ (P × Q)
guarded_iff true message rest e f = (λ h. (e.0 refl, f.0 h), λ p. f.1 p.1)
guarded_iff false message rest e f = (λ h. cc, λ p. cc (e.1 p.0))

colors_errors_iff : (v : Value) → (colors_errors v ≡ []) ↔ IsColors v
unfolding colors_errors
colors_errors_iff (object fs) =
    guarded_iff _ _ _ (has_only_keys_iff fs color_keys) (color_errors_iff fs color_keys)
colors_errors_iff _ = ground arith

metrics_errors_iff : (v : Value) → (metrics_errors v ≡ []) ↔ IsMetrics v
unfolding metrics_errors
metrics_errors_iff (object fs) = guarded_iff _ _ _ (has_only_keys_iff fs metric_keys) (
    simp (append-eq-nil_iff, report-eq-nil_iff)
      (ground (
        arith,
        is_bounded_number_iff 32 160 (get fs "keyHeight"),
        is_bounded_number_iff 0 48 (get fs "keyGap"),
        is_bounded_number_iff 0 80 (get fs "keyRadius"),
        is_bounded_number_iff 0 80 (get fs "contentPadding"),
      )))
metrics_errors_iff _ = ground arith

typography_errors_iff : (v : Value) → (typography_errors v ≡ []) ↔ IsTypography v
unfolding typography_errors
typography_errors_iff (object fs) = guarded_iff _ _ _ (has_only_keys_iff fs typography_keys) (
    simp (append-eq-nil_iff, report-eq-nil_iff)
      (ground (
        arith,
        is_bounded_number_iff 10 72 (get fs "keyFontSize"),
        is_font_weight_iff (get fs "keyFontWeight"),
      )))
typography_errors_iff _ = ground arith

animation_errors_iff : (v : Value) → (animation_errors v ≡ []) ↔ IsAnimation v
unfolding animation_errors
animation_errors_iff undefined = ground arith
animation_errors_iff (object fs) = guarded_iff _ _ _ (has_only_keys_iff fs animation_keys) (
    simp (append-eq-nil_iff, report-eq-nil_iff)
      (ground (
        arith,
        optional_iff _ _ (is_bounded_integer_iff 0 500) (get fs "pressDurationMs"),
        optional_iff _ _ (is_bounded_integer_iff 0 2000) (get fs "maskRevealDurationMs"),
      )))
animation_errors_iff _ = ground arith

ReadsAs-iff : (ws : List JsString) (v : Value) → (includes ws (text_of v) ≡ true) ↔ ReadsAs ws v
ReadsAs-iff ws v = includes_iff ws (text_of v)

feedback_errors_iff : (v : Value) → (feedback_errors v ≡ []) ↔ IsFeedback v
unfolding feedback_errors
feedback_errors_iff undefined = ground arith
feedback_errors_iff (object fs) = guarded_iff _ _ _ (has_only_keys_iff fs feedback_keys) (
    append_iff (report_iff _ _ (optional_iff _ _ (ReadsAs-iff haptics) (get fs "haptic")))
      (report_iff _ _ (optional_iff _ _ (ReadsAs-iff sounds) (get fs "sound"))))
feedback_errors_iff _ = ground arith

-- A value is a valid theme exactly when it is an object with known fields only, schema version 1,
-- the six colours and nothing else, metrics and font size in range, a listed font weight, optional
-- durations in range, and optional feedback whose coerced text is a listed word.
pub validate_theme_iff : (v : Value) → ((validate_theme v).valid ≡ true) ↔ IsTheme v
unfolding validate_theme
validate_theme_iff (object fs) =
    simp (valid_iff, append-eq-nil_iff, report-eq-nil_iff)
      (ground (
        arith,
        has_only_keys_iff fs theme_fields,
        is_natural_iff (get fs "schemaVersion") 1,
        colors_errors_iff (get fs "colors"),
        metrics_errors_iff (get fs "metrics"),
        typography_errors_iff (get fs "typography"),
        animation_errors_iff (get fs "animation"),
        feedback_errors_iff (get fs "feedback"),
      ))
validate_theme_iff _ = ground arith

text_of-singleton : (t : JsString) → text_of (array (cons (string t) nil)) ≡ t
unfolding text_of
text_of-singleton t = append-nil t

-- A list that holds one haptic word passes where the word itself is meant: the feedback object
-- with that list adds no error.
pub listed_haptic_accepted :
    (w : JsString)
    → OneOf haptics w
    → feedback_errors (object (field (js "haptic") (array (cons (string w) nil)) end)) ≡ []
unfolding property text_eq js
listed_haptic_accepted w h =
    (feedback_errors_iff (object (field (js "haptic") (array (cons (string w) nil)) end))).1
      ((inl refl, tt), (rw (text_of-singleton w) h, tt))
