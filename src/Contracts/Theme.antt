-- ===== src/Contracts/Theme.antt =====
-- `validateTheme`.
pub mod Shape
pub mod Valid
use secure_keyboard.Prelude.{Bool, false, not, List, [], ◌∷◌, ◌++◌, if◌then◌else◌}
use secure_keyboard.Js.{
  JsString, js, includes, Value, undefined, string, object, Fields, get, property, has_only_keys,
  is_natural,
}
use secure_keyboard.Js.Coerce.{text_of}
use secure_keyboard.Contracts.Patterns.{matches_color}
use secure_keyboard.Contracts.Checks.{
  ValidationResult, result, report, optional, is_bounded_number, is_bounded_integer,
}

abbrev pub theme_fields : List JsString
theme_fields =
    js "schemaVersion"
    ∷ js "colors"
    ∷ js "metrics"
    ∷ js "typography"
    ∷ js "animation"
    ∷ js "feedback"
    ∷ []

abbrev pub color_keys : List JsString
color_keys =
    js "background"
    ∷ js "keyBackground"
    ∷ js "keyForeground"
    ∷ js "keyPressedBackground"
    ∷ js "keyDisabledBackground"
    ∷ js "error"
    ∷ []

-- `typeof value === "string" && COLOR_PATTERN.test(value)`
abbrev pub is_color : Value → Bool
is_color (string t) = matches_color t
is_color _ = false

-- `colorKeys.forEach((key) => …)`
unfoldable pub color_errors : Fields → List JsString → List JsString
color_errors colors [] = []
color_errors colors (key ∷ ks) =
    report (not (is_color (property colors key))) (js "theme.colors." ++ key ++ js " is invalid")
    ++ color_errors colors ks

unfoldable pub colors_errors : Value → List JsString
unfolding color_errors
colors_errors (object fs) =
    if not (has_only_keys fs color_keys)
    then js "theme.colors is invalid" ∷ []
    else color_errors fs color_keys
colors_errors _ = js "theme.colors is invalid" ∷ []

abbrev pub metric_keys : List JsString
metric_keys = js "keyHeight" ∷ js "keyGap" ∷ js "keyRadius" ∷ js "contentPadding" ∷ []

unfoldable pub metrics_errors : Value → List JsString
metrics_errors (object fs) =
    if not (has_only_keys fs metric_keys)
    then js "theme.metrics is invalid" ∷ []
    else report (not (is_bounded_number 32 160 (get fs "keyHeight")))
        (js "theme.metrics.keyHeight is invalid")
      ++ report (not (is_bounded_number 0 48 (get fs "keyGap")))
          (js "theme.metrics.keyGap is invalid")
      ++ report (not (is_bounded_number 0 80 (get fs "keyRadius")))
          (js "theme.metrics.keyRadius is invalid")
      ++ report (not (is_bounded_number 0 80 (get fs "contentPadding")))
          (js "theme.metrics.contentPadding is invalid")
metrics_errors _ = js "theme.metrics is invalid" ∷ []

abbrev pub font_weights : List JsString
font_weights = js "400" ∷ js "500" ∷ js "600" ∷ js "700" ∷ []

abbrev pub is_font_weight : Value → Bool
is_font_weight (string t) = includes font_weights t
is_font_weight _ = false

abbrev pub typography_keys : List JsString
typography_keys = js "keyFontSize" ∷ js "keyFontWeight" ∷ []

unfoldable pub typography_errors : Value → List JsString
typography_errors (object fs) =
    if not (has_only_keys fs typography_keys)
    then js "theme.typography is invalid" ∷ []
    else report (not (is_bounded_number 10 72 (get fs "keyFontSize")))
        (js "theme.typography.keyFontSize is invalid")
      ++ report (not (is_font_weight (get fs "keyFontWeight")))
          (js "theme.typography.keyFontWeight is invalid")
typography_errors _ = js "theme.typography is invalid" ∷ []

abbrev pub animation_keys : List JsString
animation_keys = js "pressDurationMs" ∷ js "maskRevealDurationMs" ∷ []

unfoldable pub animation_errors : Value → List JsString
animation_errors undefined = []
animation_errors (object fs) =
    if not (has_only_keys fs animation_keys)
    then js "theme.animation is invalid" ∷ []
    else report (not (optional (is_bounded_integer 0 500) (get fs "pressDurationMs")))
        (js "theme.animation.pressDurationMs is invalid")
      ++ report (not (optional (is_bounded_integer 0 2000) (get fs "maskRevealDurationMs")))
          (js "theme.animation.maskRevealDurationMs is invalid")
animation_errors _ = js "theme.animation is invalid" ∷ []

abbrev pub feedback_keys : List JsString
feedback_keys = js "haptic" ∷ js "sound" ∷ []

abbrev pub haptics : List JsString
haptics = js "none" ∷ js "light" ∷ js "medium" ∷ js "heavy" ∷ []

abbrev pub sounds : List JsString
sounds = js "none" ∷ js "click" ∷ []

unfoldable pub feedback_errors : Value → List JsString
feedback_errors undefined = []
feedback_errors (object fs) =
    if not (has_only_keys fs feedback_keys)
    then js "theme.feedback is invalid" ∷ []
    else report (not (optional (λ v. includes haptics (text_of v)) (get fs "haptic")))
        (js "theme.feedback.haptic is invalid")
      ++ report (not (optional (λ v. includes sounds (text_of v)) (get fs "sound")))
          (js "theme.feedback.sound is invalid")
feedback_errors _ = js "theme.feedback is invalid" ∷ []

unfoldable pub theme_errors : Fields → List JsString
theme_errors fs =
    report (not (has_only_keys fs theme_fields)) (js "theme contains an unsupported field")
    ++ report (not (is_natural (get fs "schemaVersion") 1))
        (js "theme.schemaVersion is unsupported")
    ++ colors_errors (get fs "colors")
    ++ metrics_errors (get fs "metrics")
    ++ typography_errors (get fs "typography")
    ++ animation_errors (get fs "animation")
    ++ feedback_errors (get fs "feedback")

unfoldable pub validate_theme : Value → ValidationResult
unfolding theme_errors
validate_theme (object fs) = result (theme_errors fs)
validate_theme _ = result (js "theme must be an object" ∷ [])
