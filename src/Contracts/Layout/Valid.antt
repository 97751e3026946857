-- ===== src/Contracts/Layout/Valid.antt =====
-- `validateLayout` accepts exactly the well-formed layouts.
use secure_keyboard.Prelude.{◌≡◌, ◌↔◌, true, arith, append-eq-nil_iff}
use secure_keyboard.Js.{Value, object, get, is_boolean}
use secure_keyboard.Contracts.Checks.{is_key_id}
use secure_keyboard.Contracts.Reports.{
  report-eq-nil_iff, valid_iff, has_only_keys_iff, optional_iff,
}
use secure_keyboard.Contracts.Layout.{layout_fields, is_locale, is_direction, validate_layout}
use secure_keyboard.Contracts.Layout.Shape.{IsLayout}
use secure_keyboard.Contracts.Layout.Parts.{
  is_key_id_iff, is_locale_iff, is_direction_iff, is_boolean_iff, is_natural_iff, slots_errors_iff,
}
use secure_keyboard.Contracts.Layout.Rows.{rows_errors_iff}

-- A value is a valid layout exactly when it is an object with known fields only, schema version 1,
-- well-formed optional fields, 1 to 16 rows of 1 to 32 well-formed keys, no ID used twice, and
-- Boolean slots.
pub validate_layout_iff : (v : Value) → ((validate_layout v).valid ≡ true) ↔ IsLayout v
unfolding validate_layout
validate_layout_iff (object fs) =
    simp (valid_iff, append-eq-nil_iff, report-eq-nil_iff)
      (ground (
        arith,
        has_only_keys_iff fs layout_fields,
        is_natural_iff (get fs "schemaVersion") 1,
        optional_iff is_key_id _ is_key_id_iff (get fs "id"),
        optional_iff is_locale _ is_locale_iff (get fs "locale"),
        optional_iff is_direction _ is_direction_iff (get fs "direction"),
        optional_iff is_boolean _ is_boolean_iff (get fs "randomizeInputKeys"),
        rows_errors_iff (get fs "rows"),
        slots_errors_iff (get fs "slots"),
      ))
validate_layout_iff _ = ground arith
