-- ===== src/Contracts/Layout/Rows.antt =====
-- The scan of the rows: when it adds no error, and which IDs it has seen at the end.
use secure_keyboard.Prelude.{
  ℕ, suc, ◌≡◌, refl, ap, ◌∙◌, sym, ◌↔◌, inl, inr, ◌||◌, List, [], ◌∷◌, ◌++◌, arith, Bool-cases, ltb,
  All, length, append-eq-nil_iff,
}
use secure_keyboard.Js.{JsString, js, includes, Value, string, array, object, items, get}
use secure_keyboard.Contracts.Checks.{report}
use secure_keyboard.Contracts.Reports.{includes_iff}
use secure_keyboard.Contracts.Layout.{
  Scan, add_errors, key_path, row_path, register_id, register_key, scan_key, scan_keys, scan_row,
  scan_rows, fresh_scan, rows_errors, validate_key,
}
use secure_keyboard.Contracts.Layout.Shape.{
  IsKey, IsRow, IsRows, text_ids, key_ids_of, ids_of_keys, ids_of_row, ids_of_rows, push_all, Fresh,
}
use secure_keyboard.Contracts.Layout.Parts.{validate_key_iff}

pub push_all-append :
    (xs ys seen : List JsString) → push_all (xs ++ ys) seen ≡ push_all ys (push_all xs seen)
push_all-append [] ys seen = refl
push_all-append (x ∷ xs) ys seen = push_all-append xs ys (x ∷ seen)

pub Fresh-append :
    (xs ys seen : List JsString)
    → Fresh (xs ++ ys) seen ↔ (Fresh xs seen × Fresh ys (push_all xs seen))
Fresh-append [] ys seen = (λ h. (tt, h), λ p. p.1)
Fresh-append (x ∷ xs) ys seen =
    let (to, from) = Fresh-append xs ys (x ∷ seen) in
    (λ h. ((h.0, (to h.1).0), (to h.1).1), λ p. (p.0.0, from (p.0.1, p.1)))

-- What a scan has seen and when it is clean, relative to its start.
record Scanned (s t : Scan) (P : Type 0) (ids : List JsString) : Type 0 where
  seen : P → t.key_ids ≡ push_all ids s.key_ids
  clean : (t.errors ≡ []) ↔ ((s.errors ≡ []) × (P × Fresh ids s.key_ids))

register_id-key_ids :
    (path : JsString) (v : Value) (s : Scan)
    → (register_id path v s).key_ids ≡ push_all (text_ids v) s.key_ids
register_id-key_ids path (string id) s = refl
register_id-key_ids path _ s = refl

register_id-errors :
    (path : JsString) (v : Value) (s : Scan)
    → ((register_id path v s).errors ≡ []) ↔ ((s.errors ≡ []) × Fresh (text_ids v) s.key_ids)
unfolding report
register_id-errors path (string id) s = ground (
  arith,
  append-eq-nil_iff s.errors (report (includes s.key_ids id) (path ++ js ".id is duplicated")),
  includes_iff s.key_ids id,
)
register_id-errors path _ s = (λ h. (h, tt), λ p. p.0)

register_key-key_ids :
    (path : JsString) (key : Value) (s : Scan)
    → (register_key path key s).key_ids ≡ push_all (key_ids_of key) s.key_ids
register_key-key_ids path (object fs) s = register_id-key_ids path (get fs "id") s
register_key-key_ids path _ s = refl

register_key-errors :
    (path : JsString) (key : Value) (s : Scan)
    → ((register_key path key s).errors ≡ []) ↔ ((s.errors ≡ []) × Fresh (key_ids_of key) s.key_ids)
register_key-errors path (object fs) s = register_id-errors path (get fs "id") s
register_key-errors path _ s = (λ h. (h, tt), λ p. p.0)

scan_key-Scanned :
    (i j : ℕ) (key : Value) (s : Scan) → Scanned s (scan_key i j key s) (IsKey key) (key_ids_of key)
unfolding scan_key
scan_key-Scanned i j key s =
    let path : JsString = key_path i j in
    let (to, from) = register_key-errors path key (add_errors s (validate_key key path)) in
    let (split, join) = append-eq-nil_iff s.errors (validate_key key path) in
    let (good, quiet) = validate_key_iff key path in
    record {
      seen = λ _. register_key-key_ids path key (add_errors s (validate_key key path));
      clean = (
        λ h. ((split (to h).0).0, (good (split (to h).0).1, (to h).1)),
        λ p. from (join (p.0, quiet p.1.0), p.1.1),
      );
    }

-- Two scans one after the other.
Scanned-trans :
    {s t u : Scan} {P Q : Type 0} (xs ys : List JsString)
    → Scanned s t P xs
    → Scanned t u Q ys
    → Scanned s u (P × Q) (xs ++ ys)
Scanned-trans {s} xs ys a b =
    let (split, join) = Fresh-append xs ys s.key_ids in
    record {
      seen =
          λ p. b.seen p.1 ∙ ap (push_all ys) (a.seen p.0) ∙ sym (push_all-append xs ys s.key_ids);
      clean = (
        λ h.
            let (h1, (q, f2)) = b.clean.0 h in
            let (h0, (p, f1)) = a.clean.0 h1 in (h0, ((p, q), join (f1, rw (a.seen p) at f2))),
        λ r.
            let (h0, ((p, q), f)) = r in
            let (f1, f2) = split f in b.clean.1 (a.clean.1 (h0, (p, f1)), (q, rw (a.seen p) f2)),
      );
    }

Scanned-refl : (s : Scan) → Scanned s s Unit []
Scanned-refl s = record { seen = λ _. refl; clean = (λ h. (h, (tt, tt)), λ p. p.0) }

scan_keys-Scanned :
    (i j : ℕ) (row : List Value) (s : Scan)
    → Scanned s (scan_keys i j row s) (All IsKey row) (ids_of_keys row)
unfolding scan_keys
scan_keys-Scanned i j [] s = Scanned-refl s
scan_keys-Scanned i j (key ∷ row) s =
    Scanned-trans (key_ids_of key) (ids_of_keys row) (scan_key-Scanned i j key s)
      (scan_keys-Scanned i (suc j) row (scan_key i j key s))

add_one-ne-nil : (s : Scan) (e : JsString) → ¬ ((s.errors ++ e ∷ []) ≡ [])
add_one-ne-nil s e h = cc ((append-eq-nil_iff s.errors (e ∷ [])).0 h).1

refused-Scanned :
    (s : Scan) (e : JsString) {P : Type 0} (ids : List JsString)
    → ¬ P
    → Scanned s (add_errors s (e ∷ [])) P ids
refused-Scanned s e ids no_p = record {
  seen = λ p. absurd (no_p p);
  clean = (λ h. absurd (add_one-ne-nil s e h), λ r. absurd (no_p r.1.0));
}

scan_row-Scanned :
    (i : ℕ) (row : Value) (s : Scan) → Scanned s (scan_row i row s) (IsRow row) (ids_of_row row)
unfolding scan_row
scan_row-Scanned i (array row) s =
    elim (Bool-cases (ltb (length (items row)) 1 || ltb 32 (length (items row)))) [
      | inl bad ↦ rw bad (
          refused-Scanned s (row_path i ++ js " is invalid") (ids_of_keys (items row))
            (λ r. ground arith))
      | inr good ↦
          let keys : Scanned s (scan_keys i 0 (items row) s) (All IsKey (items row))
              (ids_of_keys (items row)) =
            scan_keys-Scanned i 0 (items row) s in
          rw good (record {
            seen = λ r. keys.seen r.2;
            clean = (
              λ h.
                  let (h0, (ks, f)) = keys.clean.0 h in (h0, ((ground arith, ground arith, ks), f)),
              λ r. keys.clean.1 (r.0, (r.1.0.2, r.1.1)),
            );
          })
    ]
scan_row-Scanned i _ s = refused-Scanned s (row_path i ++ js " is invalid") [] (λ r. r)

scan_rows-Scanned :
    (i : ℕ) (rows : List Value) (s : Scan)
    → Scanned s (scan_rows i rows s) (All IsRow rows) (ids_of_rows rows)
unfolding scan_rows
scan_rows-Scanned i [] s = Scanned-refl s
scan_rows-Scanned i (row ∷ rows) s =
    Scanned-trans (ids_of_row row) (ids_of_rows rows) (scan_row-Scanned i row s)
      (scan_rows-Scanned (suc i) rows (scan_row i row s))

-- The rows add no error exactly when there are 1 to 16 of them, each is well formed, and no two
-- keys have one ID.
pub rows_errors_iff : (v : Value) → (rows_errors v ≡ []) ↔ IsRows v
unfolding rows_errors
rows_errors_iff (array rows) =
    let (to, from) = (scan_rows-Scanned 0 (items rows) fresh_scan).clean in
    elim (Bool-cases (ltb (length (items rows)) 1 || ltb 16 (length (items rows)))) [
      | inl bad ↦ rw bad (λ h. cc, λ r. absurd (ground arith))
      | inr good ↦
          rw good (
            λ h. (ground arith, ground arith, (to h).1.0, (to h).1.1),
            λ r. from (refl, (r.2, r.3)),
          )
    ]
rows_errors_iff _ = ground arith
