-- ===== src/Contracts/Layout/Shape.antt =====
-- What a well-formed layout is, said of the value alone.
use secure_keyboard.Prelude.{ℕ, ◌≤◌, ◌≡◌, ◌⊎◌, List, [], ◌∷◌, ◌++◌, All, length}
use secure_keyboard.Js.{
  JsString, js, Value, undefined, boolean, number, natural, string, array, object, Fields, items,
  keys, members, get,
}
use secure_keyboard.Contracts.Patterns.{utf8_byte_length}
use secure_keyboard.Contracts.Patterns.Words.{IsKeyId, IsLocale}
use secure_keyboard.Contracts.Reports.{OneOf, AsText, Optional}
use secure_keyboard.Contracts.Checks.{max_key_label_bytes, max_accessibility_label_bytes}
use secure_keyboard.Contracts.Layout.{key_fields, key_roles, layout_fields, slot_fields}

abbrev pub IsLabel : ℕ → Value → Type 0
IsLabel most = AsText (λ t. utf8_byte_length t ≤ most)

pub record IsKeyFields (fs : Fields) : Type 0 where
  pub known : All (OneOf key_fields) (keys fs)
  pub id : AsText IsKeyId (get fs "id")
  pub label : Optional (IsLabel max_key_label_bytes) (get fs "label")
  pub icon : Optional (AsText IsKeyId) (get fs "icon")
  pub role : AsText (OneOf key_roles) (get fs "role")
  pub accessibility_label :
      Optional (IsLabel max_accessibility_label_bytes) (get fs "accessibilityLabel")
  pub test_id : Optional (AsText IsKeyId) (get fs "testId")

abbrev pub IsKey : Value → Type 0
IsKey (object fs) = IsKeyFields fs
IsKey _ = ⊥

abbrev pub IsRow : Value → Type 0
IsRow (array row) = (1 ≤ length (items row)) × (length (items row) ≤ 32) × All IsKey (items row)
IsRow _ = ⊥

-- The text of a key's ID, where it has one.
abbrev pub text_ids : Value → List JsString
text_ids (string id) = id ∷ []
text_ids _ = []

abbrev pub key_ids_of : Value → List JsString
key_ids_of (object fs) = text_ids (get fs "id")
key_ids_of _ = []

abbrev pub ids_of_keys : List Value → List JsString
ids_of_keys [] = []
ids_of_keys (key ∷ row) = key_ids_of key ++ ids_of_keys row

abbrev pub ids_of_row : Value → List JsString
ids_of_row (array row) = ids_of_keys (items row)
ids_of_row _ = []

abbrev pub ids_of_rows : List Value → List JsString
ids_of_rows [] = []
ids_of_rows (row ∷ rows) = ids_of_row row ++ ids_of_rows rows

-- No ID occurs twice, nor among those seen before.
abbrev pub push_all : List JsString → List JsString → List JsString
push_all [] seen = seen
push_all (id ∷ ids) seen = push_all ids (id ∷ seen)

abbrev pub Fresh : List JsString → List JsString → Type 0
Fresh [] seen = Unit
Fresh (id ∷ ids) seen = (¬ OneOf seen id) × Fresh ids (id ∷ seen)

abbrev pub IsRows : Value → Type 0
IsRows (array rows) =
    (1 ≤ length (items rows))
    × (length (items rows) ≤ 16)
    × All IsRow (items rows)
    × Fresh (ids_of_rows (items rows)) []
IsRows _ = ⊥

abbrev pub IsBoolean : Value → Type 0
IsBoolean (boolean b) = Unit
IsBoolean _ = ⊥

abbrev pub IsSlots : Value → Type 0
IsSlots undefined = Unit
IsSlots (object fs) = All (OneOf slot_fields) (keys fs) × All IsBoolean (members fs)
IsSlots _ = ⊥

abbrev pub IsText : JsString → Value → Type 0
IsText w v = v ≡ string w

pub record IsLayoutFields (fs : Fields) : Type 0 where
  pub known : All (OneOf layout_fields) (keys fs)
  pub version : get fs "schemaVersion" ≡ number (natural 1)
  pub id : Optional (AsText IsKeyId) (get fs "id")
  pub locale : Optional (AsText IsLocale) (get fs "locale")
  pub direction : Optional (λ v. IsText (js "ltr") v ⊎ IsText (js "rtl") v) (get fs "direction")
  pub randomize : Optional IsBoolean (get fs "randomizeInputKeys")
  pub rows : IsRows (get fs "rows")
  pub slots : IsSlots (get fs "slots")

abbrev pub IsLayout : Value → Type 0
IsLayout (object fs) = IsLayoutFields fs
IsLayout _ = ⊥
