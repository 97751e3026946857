-- ===== src/Contracts/Theme/Shape.antt =====
-- What a well-formed theme is, said of the value alone.
use secure_keyboard.Prelude.{ℕ, ◌≤◌, ◌<◌, ◌≡◌, false, List, All}
use secure_keyboard.Js.{
  JsString, Value, undefined, number, natural, fraction, object, Fields, keys, get, property,
}
use secure_keyboard.Js.Coerce.{text_of}
use secure_keyboard.Contracts.Patterns.Words.{IsColor}
use secure_keyboard.Contracts.Reports.{OneOf, AsText, Optional}
use secure_keyboard.Contracts.Events.Valid.{IsInteger}
use secure_keyboard.Contracts.Theme.{
  theme_fields, color_keys, metric_keys, font_weights, typography_keys, animation_keys,
  feedback_keys, haptics, sounds,
}

-- A finite number between two natural bounds.
abbrev pub IsNumber : ℕ → ℕ → Value → Type 0
IsNumber lo hi (number (natural n)) = (lo ≤ n) × (n ≤ hi)
IsNumber lo hi (number (fraction false n t)) = (lo ≤ n) × (n < hi)
IsNumber lo hi _ = ⊥

abbrev pub IsColors : Value → Type 0
IsColors (object fs) =
    All (OneOf color_keys) (keys fs) × All (λ k. AsText IsColor (property fs k)) color_keys
IsColors _ = ⊥

abbrev pub IsMetrics : Value → Type 0
IsMetrics (object fs) =
    All (OneOf metric_keys) (keys fs)
    × (IsNumber 32 160 (get fs "keyHeight")
        × IsNumber 0 48 (get fs "keyGap")
        × IsNumber 0 80 (get fs "keyRadius")
        × IsNumber 0 80 (get fs "contentPadding"))
IsMetrics _ = ⊥

abbrev pub IsTypography : Value → Type 0
IsTypography (object fs) =
    All (OneOf typography_keys) (keys fs)
    × (IsNumber 10 72 (get fs "keyFontSize") × AsText (OneOf font_weights) (get fs "keyFontWeight"))
IsTypography _ = ⊥

abbrev pub IsAnimation : Value → Type 0
IsAnimation undefined = Unit
IsAnimation (object fs) =
    All (OneOf animation_keys) (keys fs)
    × (Optional (IsInteger 0 500) (get fs "pressDurationMs")
        × Optional (IsInteger 0 2000) (get fs "maskRevealDurationMs"))
IsAnimation _ = ⊥

-- The feedback words are compared with the text that a value coerces to.
abbrev pub ReadsAs : List JsString → Value → Type 0
ReadsAs ws v = OneOf ws (text_of v)

abbrev pub IsFeedback : Value → Type 0
IsFeedback undefined = Unit
IsFeedback (object fs) =
    All (OneOf feedback_keys) (keys fs)
    × (Optional (ReadsAs haptics) (get fs "haptic") × Optional (ReadsAs sounds) (get fs "sound"))
IsFeedback _ = ⊥

pub record IsThemeFields (fs : Fields) : Type 0 where
  pub known : All (OneOf theme_fields) (keys fs)
  pub version : get fs "schemaVersion" ≡ number (natural 1)
  pub colors : IsColors (get fs "colors")
  pub metrics : IsMetrics (get fs "metrics")
  pub typography : IsTypography (get fs "typography")
  pub animation : IsAnimation (get fs "animation")
  pub feedback : IsFeedback (get fs "feedback")

abbrev pub IsTheme : Value → Type 0
IsTheme (object fs) = IsThemeFields fs
IsTheme _ = ⊥
