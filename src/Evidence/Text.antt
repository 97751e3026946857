-- ===== src/Evidence/Text.antt =====
-- The texts and paths that the scripts take apart.
pub mod Split
use secure_keyboard.Prelude.{ℕ, Bool, true, false, ◌&&◌, ◌==◌, List, [], ◌∷◌, if◌then◌else◌}
use secure_keyboard.Js.{JsString}

-- `path.sep`
abbrev pub sep : ℕ
sep = b'/'

-- `text.startsWith(prefix)`
unfoldable pub starts_with : JsString → JsString → Bool
starts_with [] t = true
starts_with (x ∷ p) [] = false
starts_with (x ∷ p) (y ∷ t) = x == y && starts_with p t

abbrev pub prepend : ℕ → List JsString → List JsString
prepend c [] = (c ∷ []) ∷ []
prepend c (w ∷ ws) = (c ∷ w) ∷ ws

-- `value.split(separator)` for a separator of one character.
unfoldable pub split : ℕ → JsString → List JsString
split separator [] = [] ∷ []
split separator (c ∷ t) =
    let rest = split separator t in if c == separator then [] ∷ rest else prepend c rest
