-- ===== src/Contracts/Layout.antt =====
-- `validateKey` and `validateLayout`.
--
-- `errors.push` is appending to a list; the set `keyIds` is the list of the IDs added so far.
pub mod Shape
pub mod Parts
pub mod Rows
pub mod Valid
use secure_keyboard.Prelude.{
  ℕ, suc, Bool, false, not, ◌||◌, List, [], ◌∷◌, ◌++◌, ltb, if◌then◌else◌, length, any,
}
use secure_keyboard.Js.{
  JsString, js, decimal, includes, Value, undefined, string, array, object, Fields, items, members,
  get, has_only_keys, is_boolean, is_text, is_natural,
}
use secure_keyboard.Contracts.Patterns.{matches_locale}
use secure_keyboard.Contracts.Checks.{
  max_key_label_bytes, max_accessibility_label_bytes, ValidationResult, result, report, optional,
  is_key_id, is_label,
}

abbrev pub key_fields : List JsString
key_fields =
    js "id" ∷ js "label" ∷ js "icon" ∷ js "role" ∷ js "accessibilityLabel" ∷ js "testId" ∷ []

abbrev pub key_roles : List JsString
key_roles = js "input" ∷ js "backspace" ∷ js "submit" ∷ js "clear" ∷ js "cancel" ∷ js "spacer" ∷ []

abbrev pub is_key_role : Value → Bool
is_key_role (string t) = includes key_roles t
is_key_role _ = false

-- The errors that one key adds. The result of `validateKey` itself is read by no caller.
unfoldable pub validate_key : Value → JsString → List JsString
validate_key (object fs) path =
    report (not (has_only_keys fs key_fields)) (path ++ js " contains an unsupported field")
    ++ report (not (is_key_id (get fs "id"))) (path ++ js ".id is invalid")
    ++ report (not (optional (is_label max_key_label_bytes) (get fs "label")))
        (path ++ js ".label is invalid")
    ++ report (not (optional is_key_id (get fs "icon"))) (path ++ js ".icon is invalid")
    ++ report (not (is_key_role (get fs "role"))) (path ++ js ".role is invalid")
    ++ report
        (not (optional (is_label max_accessibility_label_bytes) (get fs "accessibilityLabel")))
        (path ++ js ".accessibilityLabel is invalid")
    ++ report (not (optional is_key_id (get fs "testId"))) (path ++ js ".testId is invalid")
validate_key _ path = (path ++ js " must be an object") ∷ []

unfoldable pub row_path : ℕ → JsString
row_path i = js "layout.rows[" ++ decimal i ++ js "]"

unfoldable pub key_path : ℕ → ℕ → JsString
unfolding row_path
key_path i j = row_path i ++ js "[" ++ decimal j ++ js "]"

pub record Scan : Type 0 where
  pub errors : List JsString
  pub key_ids : List JsString

abbrev pub add_errors : Scan → List JsString → Scan
add_errors s es = record s { errors = s.errors ++ es }

-- `if (isRecord(key) && typeof key.id === "string") { … }`
abbrev pub register_id : JsString → Value → Scan → Scan
register_id path (string id) s = record {
  errors = s.errors ++ report (includes s.key_ids id) (path ++ js ".id is duplicated");
  key_ids = id ∷ s.key_ids;
}
register_id path _ s = s

abbrev pub register_key : JsString → Value → Scan → Scan
register_key path (object fs) s = register_id path (get fs "id") s
register_key path _ s = s

unfoldable pub scan_key : ℕ → ℕ → Value → Scan → Scan
scan_key i j key s =
    register_key (key_path i j) key (add_errors s (validate_key key (key_path i j)))

-- `row.forEach((key, keyIndex) => …)`
unfoldable pub scan_keys : ℕ → ℕ → List Value → Scan → Scan
scan_keys i j [] s = s
scan_keys i j (key ∷ row) s = scan_keys i (suc j) row (scan_key i j key s)

unfoldable pub scan_row : ℕ → Value → Scan → Scan
scan_row i (array row) s =
    if ltb (length (items row)) 1 || ltb 32 (length (items row))
    then add_errors s ((row_path i ++ js " is invalid") ∷ [])
    else scan_keys i 0 (items row) s
scan_row i _ s = add_errors s ((row_path i ++ js " is invalid") ∷ [])

-- `value.rows.forEach((row, rowIndex) => …)`
unfoldable pub scan_rows : ℕ → List Value → Scan → Scan
scan_rows i [] s = s
scan_rows i (row ∷ rows) s = scan_rows (suc i) rows (scan_row i row s)

abbrev pub fresh_scan : Scan
fresh_scan = record { errors = []; key_ids = [] }

unfoldable pub rows_errors : Value → List JsString
rows_errors (array rows) =
    if ltb (length (items rows)) 1 || ltb 16 (length (items rows))
    then js "layout.rows is invalid" ∷ []
    else (scan_rows 0 (items rows) fresh_scan).errors
rows_errors _ = js "layout.rows is invalid" ∷ []

abbrev pub slot_fields : List JsString
slot_fields = js "header" ∷ js "display" ∷ js "footer" ∷ js "error" ∷ []

unfoldable pub slots_errors : Value → List JsString
slots_errors undefined = []
slots_errors (object fs) =
    if not (has_only_keys fs slot_fields)
    then js "layout.slots is invalid" ∷ []
    else report (any (λ slot. not (is_boolean slot)) (members fs))
        (js "layout.slots values are invalid")
slots_errors _ = js "layout.slots is invalid" ∷ []

abbrev pub layout_fields : List JsString
layout_fields =
    js "schemaVersion"
    ∷ js "id"
    ∷ js "locale"
    ∷ js "direction"
    ∷ js "randomizeInputKeys"
    ∷ js "rows"
    ∷ js "slots"
    ∷ []

-- `typeof value === "string" && LOCALE_PATTERN.test(value)`
abbrev pub is_locale : Value → Bool
is_locale (string t) = matches_locale t
is_locale _ = false

abbrev pub is_direction : Value → Bool
is_direction v = is_text v (js "ltr") || is_text v (js "rtl")

unfoldable pub layout_errors : Fields → List JsString
layout_errors fs =
    report (not (has_only_keys fs layout_fields)) (js "layout contains an unsupported field")
    ++ report (not (is_natural (get fs "schemaVersion") 1))
        (js "layout.schemaVersion is unsupported")
    ++ report (not (optional is_key_id (get fs "id"))) (js "layout.id is invalid")
    ++ report (not (optional is_locale (get fs "locale"))) (js "layout.locale is invalid")
    ++ report (not (optional is_direction (get fs "direction"))) (js "layout.direction is invalid")
    ++ report (not (optional is_boolean (get fs "randomizeInputKeys")))
        (js "layout.randomizeInputKeys is invalid")
    ++ rows_errors (get fs "rows")
    ++ slots_errors (get fs "slots")

unfoldable pub validate_layout : Value → ValidationResult
unfolding layout_errors
validate_layout (object fs) = result (layout_errors fs)
validate_layout _ = result (js "layout must be an object" ∷ [])
