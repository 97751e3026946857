-- ===== src/Evidence/Secrets.antt =====
-- `rejectSecretKeys`.
pub mod Absent
use secure_keyboard.Evidence.Text.{starts_with}
use secure_keyboard.Prelude.{
  ℕ, zero, suc, ◌+◌, ◌≡◌, ◌↔◌, refl, arith, Bool, true, false, not, ◌&&◌, ◌||◌, List, [], ◌∷◌, ◌++◌,
  any, map, if◌then◌else◌,
}
use secure_keyboard.Js.{
  JsString, js, decimal, text_eq, is_upper, Value, array, object, Values, nil, cons, Fields, end,
  field,
}
use secure_keyboard.Contracts.Reports.{append_iff, report_iff, iff_trans}
use secure_keyboard.Contracts.Checks.{report}
use secure_keyboard.Evidence.Checks.{add_if}

-- Matching with the flag `i` identifies only the letters of ASCII here.
abbrev pub lower : ℕ → ℕ
lower c = if is_upper c then c + 32 else c

unfoldable pub contains : JsString → JsString → Bool
contains w [] = starts_with w []
contains w (c ∷ t) = starts_with w (c ∷ t) || contains w t

abbrev pub forbidden_words : List JsString
forbidden_words =
    js "password"
    ∷ js "secret"
    ∷ js "passphrase"
    ∷ js "sentinel"
    ∷ js "plaintext"
    ∷ js "credentialvalue"
    ∷ js "inputvalue"
    ∷ js "inputtext"
    ∷ js "inputbytes"
    ∷ []

-- `FORBIDDEN_KEYS.test(key)`
unfoldable pub is_forbidden_key : JsString → Bool
is_forbidden_key key =
    any (λ w. contains w (map lower key)) forbidden_words || text_eq (map lower key) (js "value")

unfoldable mutual
  pub reject_secret_keys : JsString → Value → List JsString
  reject_secret_keys path (array vs) = reject_items path 0 vs
  reject_secret_keys path (object fs) = reject_fields path fs
  reject_secret_keys path _ = []

  pub reject_items : JsString → ℕ → Values → List JsString
  reject_items path index nil = []
  reject_items path index (cons v vs) =
      reject_secret_keys (path ++ js "[" ++ decimal index ++ js "]") v
      ++ reject_items path (index + 1) vs

  pub reject_fields : JsString → Fields → List JsString
  reject_fields path end = []
  reject_fields path (field key v fs) =
      add_if (is_forbidden_key key) (path ++ js "." ++ key)
        (js "secret-bearing evidence fields are forbidden")
      ++ reject_secret_keys (path ++ js "." ++ key) v
      ++ reject_fields path fs
