-- ===== src/Exportfmt/Decode/Sound.antt =====
-- What `Decode` returns is valid, whatever the file holds.
use wow_markets.Base.{
  ℕ, ◌+◌, ◌≡◌, sym, ◌∙◌, ap, subst, List, [], ◌∷◌, Result, ok, wrap, wrap-eq-ok, or_error, require,
  >>=-eq-ok, ok_inj, require-eq-ok, All, length, codes,
}
use wow_markets.Base.Int.{pos, eq_ℤ, eq_ℤ_iff}
use wow_markets.Base.Strings.{Text}
use wow_markets.Luasv.Value.{Value, Table, as_table}
use wow_markets.Luasv.Sequence.{sequence}
use wow_markets.Exportfmt.Scan.{Scan, Database, Error, schema_version, item_fields, row_fields}
use wow_markets.Exportfmt.Validate.{validate}
use wow_markets.Exportfmt.Validate.Spec.{ScanValid}
use wow_markets.Exportfmt.Validate.Correct.{validate_iff}
use wow_markets.Exportfmt.Fields.{int_field, field_table, validate_fields}
use wow_markets.Exportfmt.Decode.{
  decode_each, decode_item_dictionary, decode_rows, read_header, decode_scan, decode,
}

-- A property of every decoded entry is a property of the list.
pub decode_each-All {ℓ κ} :
    {A : Type ℓ} (P : A → Type κ) (name : Text) (f : Table → Result Error A)
    → ((t : Table) (a : A) → f t ≡ ok a → P a)
    → (index : ℕ) (values : List Value) (as' : List A) → decode_each name f index values ≡ ok as'
    → All P as'
unfolding decode_each
decode_each-All P name f each index [] as' h = subst (All P) (ok_inj h) tt
decode_each-All P name f each index (v ∷ vs) as' h =
    let (t, _, h₁) =
      >>=-eq-ok (or_error (as_table v) (Error.entry_not_a_table name (index + 1))) _ h in
    let (a, decoded, h₂) = >>=-eq-ok (wrap (Error.at_entry name (index + 1)) (f t)) _ h₁ in
    let (more, rest, done) = >>=-eq-ok (decode_each name f (index + 1) vs) _ h₂ in
    subst (All P) (ok_inj done) (
      each t a (wrap-eq-ok (Error.at_entry name (index + 1)) (f t) decoded),
      decode_each-All P name f each (index + 1) vs more rest,
    )

decode_scan-ScanValid : (t : Table) (s : Scan) → decode_scan t ≡ ok s → ScanValid s
unfolding decode_scan
decode_scan-ScanValid t s h =
    let (header, _, h₁) = >>=-eq-ok (read_header t) _ h in
    let (_, _, h₂) = >>=-eq-ok (validate_fields t (codes "itemFields") item_fields) _ h₁ in
    let (_, _, h₃) = >>=-eq-ok (validate_fields t (codes "rowFields") row_fields) _ h₂ in
    let (items, _, h₄) = >>=-eq-ok (decode_item_dictionary t) _ h₃ in
    let (_, _, h₅) = >>=-eq-ok (require (eq_ℤ header.item_count (pos (length items))) _) _ h₄ in
    let (rows, _, h₆) = >>=-eq-ok (decode_rows items t) _ h₅ in
    let (_, valid, done) = >>=-eq-ok (validate (record header { rows = rows })) _ h₆ in
    subst ScanValid (ok_inj done) ((validate_iff (record header { rows = rows })).0 valid)

-- Every scan of a database that `Decode` returns is valid, and its schema version is the supported
-- one.
pub decode-ScanValid :
    (root : Table) (db : Database)
    → decode root ≡ ok db
    → (db.schema_version ≡ schema_version) × All ScanValid db.scans
unfolding decode
decode-ScanValid root db h =
    let (version, _, h₁) = >>=-eq-ok (int_field root (codes "schemaVersion")) _ h in
    let (_, supported, h₂) =
      >>=-eq-ok (require (eq_ℤ version schema_version) (Error.unsupported_schema version)) _ h₁ in
    let (raw, _, h₃) = >>=-eq-ok (field_table root (codes "pendingScans")) _ h₂ in
    let (values, _, h₄) =
      >>=-eq-ok (wrap (Error.bad_sequence (codes "pendingScans")) (sequence raw)) _ h₃ in
    let (scans, each, done) =
      >>=-eq-ok (decode_each (codes "pendingScans") decode_scan 0 values) _ h₄ in
    let same = ok_inj done in
    (
      ap (λ (d : Database). d.schema_version) (sym same)
          ∙ (eq_ℤ_iff version schema_version).0
              (require-eq-ok _ (Error.unsupported_schema version) supported),
      subst (λ (d : Database). All ScanValid d.scans) same
          (decode_each-All ScanValid (codes "pendingScans") decode_scan decode_scan-ScanValid 0
            values scans each),
    )
