-- ===== src/Contracts/Defaults.antt =====
-- The default layouts and the default theme of the contracts package.
use secure_keyboard.Prelude.{String, true, List, [], ◌∷◌}
use secure_keyboard.Js.{
  js, Value, boolean, number, natural, string, array, object, end, field, values_of,
}

abbrev key : String → String → String → Value
key id label role = object (
    field (js "id") (string (js id))
      (field (js "label") (string (js label)) (field (js "role") (string (js role)) end)))

abbrev row : List Value → Value
row keys = array (values_of keys)

abbrev all_slots : Value
all_slots = object (
    field (js "header") (boolean true) (
      field (js "display") (boolean true)
        (field (js "footer") (boolean true) (field (js "error") (boolean true) end))))

abbrev layout : String → String → List Value → Value
layout id locale rows = object (
    field (js "schemaVersion") (number (natural 1)) (
      field (js "id") (string (js id)) (
        field (js "locale") (string (js locale)) (
          field (js "direction") (string (js "ltr"))
            (field (js "rows") (array (values_of rows)) (field (js "slots") all_slots end))))))

unfoldable pub default_numeric_layout : Value
default_numeric_layout = layout "default-numeric" "en" (
    row (key "digit-1" "1" "input" ∷ key "digit-2" "2" "input" ∷ key "digit-3" "3" "input" ∷ [])
    ∷ row (key "digit-4" "4" "input" ∷ key "digit-5" "5" "input" ∷ key "digit-6" "6" "input" ∷ [])
    ∷ row (key "digit-7" "7" "input" ∷ key "digit-8" "8" "input" ∷ key "digit-9" "9" "input" ∷ [])
    ∷ row (
        key "clear" "Clear" "clear"
        ∷ key "digit-0" "0" "input"
        ∷ key "backspace" "Delete" "backspace"
        ∷ [])
    ∷ row (key "cancel" "Cancel" "cancel" ∷ key "submit" "Continue" "submit" ∷ [])
    ∷ [])

unfoldable pub default_hangul_layout : Value
default_hangul_layout = layout "default-hangul-example" "ko" (
    row (
      key "jamo-giyeok" "ㄱ" "input"
      ∷ key "jamo-nieun" "ㄴ" "input"
      ∷ key "jamo-digeut" "ㄷ" "input"
      ∷ [])
    ∷ row (key "vowel-a" "ㅏ" "input" ∷ key "vowel-eo" "ㅓ" "input" ∷ key "vowel-o" "ㅗ" "input" ∷ [])
    ∷ row (
        key "tail-giyeok" "받침 ㄱ" "input"
        ∷ key "tail-nieun" "받침 ㄴ" "input"
        ∷ key "tail-mieum" "받침 ㅁ" "input"
        ∷ [])
    ∷ row (
        key "clear" "초기화" "clear"
        ∷ key "backspace" "삭제" "backspace"
        ∷ key "cancel" "취소" "cancel"
        ∷ key "submit" "확인" "submit"
        ∷ [])
    ∷ [])

unfoldable pub default_theme : Value
default_theme = object (
    field (js "schemaVersion") (number (natural 1)) (
      field (js "colors")
        (object (
          field (js "background") (string (js "#101114")) (
            field (js "keyBackground") (string (js "#23262D")) (
              field (js "keyForeground") (string (js "#FFFFFF")) (
                field (js "keyPressedBackground") (string (js "#3B82F6")) (
                  field (js "keyDisabledBackground") (string (js "#4B5563"))
                    (field (js "error") (string (js "#F87171")) end)))))))
        (field (js "metrics")
          (object (
            field (js "keyHeight") (number (natural 56)) (
              field (js "keyGap") (number (natural 8)) (
                field (js "keyRadius") (number (natural 12))
                  (field (js "contentPadding") (number (natural 16)) end)))))
          (field (js "typography")
            (object (
              field (js "keyFontSize") (number (natural 24))
                (field (js "keyFontWeight") (string (js "600")) end)))
            (field (js "animation")
              (object (
                field (js "pressDurationMs") (number (natural 80))
                  (field (js "maskRevealDurationMs") (number (natural 0)) end)))
              (field (js "feedback")
                (object (
                  field (js "haptic") (string (js "light"))
                    (field (js "sound") (string (js "none")) end)))
                end))))))
