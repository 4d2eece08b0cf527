-- ===== src/Exportfmt/Validate/Correct.antt =====
-- `Validate` accepts exactly the valid scans, and a valid scan's figures.
use wow_markets.Base.{
  ℕ, ◌+◌, ◌≡◌, ◌≢◌, ◌↔◌, refl, false, List, [], ◌∷◌, ok, arith, All, >>=-eq-ok, wrap, wrap-eq-ok,
  codes,
}
use wow_markets.Base.Int.{ℤ, eq_ℤ_iff}
use wow_markets.Exportfmt.Scan.{Scan, Row, Error}
use wow_markets.Exportfmt.Validate.{
  seen, check_row, validate_rows, validate, validate_export, validate_place, validate_scanner,
  validate_counts,
}
use wow_markets.Exportfmt.Validate.Spec.{ScanValid, RowValid, Distinct}
use wow_markets.Exportfmt.Validate.Accepts.{
  validate_export_iff, validate_place_iff, validate_scanner_iff, validate_counts_iff,
}

-- The row number is not among those seen.
abbrev Fresh : ℤ → List ℤ → Type 0
Fresh i js = All (λ j. i ≢ j) js

seen-Fresh : (i : ℤ) (js : List ℤ) → (seen i js ≡ false) ↔ Fresh i js
unfolding seen
seen-Fresh i [] = (λ h. tt, λ h. refl)
seen-Fresh i (j ∷ js) = (
  λ h. ground (arith, seen-Fresh i js, eq_ℤ_iff i j),
  λ h. ground (arith, seen-Fresh i js, eq_ℤ_iff i j),
)

check_row-RowValid :
    (n : ℤ) (js : List ℤ) (r : Row)
    → check_row n js r ≡ ok tt
    → RowValid n r × Fresh r.source_row js
unfolding check_row
check_row-RowValid n js r h = (ground arith, ground (arith, seen-Fresh r.source_row js))

RowValid-check_row :
    (n : ℤ) (js : List ℤ) (r : Row)
    → RowValid n r
    → Fresh r.source_row js
    → check_row n js r ≡ ok tt
unfolding check_row
RowValid-check_row n js r h f = ground (arith, seen-Fresh r.source_row js, f)

abbrev AllFresh : List Row → List ℤ → Type 0
AllFresh rs js = All (λ q. Fresh q.source_row js) rs

AllFresh-cons :
    (i : ℤ) (js : List ℤ) (rs : List Row)
    → AllFresh rs (i ∷ js) ↔ (All (λ q. q.source_row ≢ i) rs × AllFresh rs js)
AllFresh-cons i js [] = (λ h. (tt, tt), λ h. tt)
AllFresh-cons i js (r ∷ rs) = (
  λ h. let (ne, fresh) = (AllFresh-cons i js rs).0 h.1 in ((h.0.0, ne), (h.0.1, fresh)),
  λ h. ((h.0.0, h.1.0), (AllFresh-cons i js rs).1 (h.0.1, h.1.1)),
)

abbrev RowsValid : ℤ → List ℤ → List Row → Type 0
RowsValid n js rs = All (RowValid n) rs × Distinct rs × AllFresh rs js

validate_rows-RowsValid :
    (n : ℤ) (index : ℕ) (js : List ℤ) (rs : List Row)
    → validate_rows n index js rs ≡ ok tt
    → RowsValid n js rs
unfolding validate_rows
validate_rows-RowsValid n index js [] h = (tt, tt, tt)
validate_rows-RowsValid n index js (r ∷ rs) h =
    let (_, first, later) =
      >>=-eq-ok (wrap (Error.at_entry (codes "rows") (index + 1)) (check_row n js r)) _ h in
    let (row, fresh) =
      check_row-RowValid n js r
        (wrap-eq-ok (Error.at_entry (codes "rows") (index + 1)) (check_row n js r) first) in
    let (each, distinct, unseen) =
      validate_rows-RowsValid n (index + 1) (r.source_row ∷ js) rs later in
    let (ne, fresh') = (AllFresh-cons r.source_row js rs).0 unseen in
    ((row, each), (ne, distinct), (fresh, fresh'))

RowsValid-validate_rows :
    (n : ℤ) (index : ℕ) (js : List ℤ) (rs : List Row)
    → RowsValid n js rs
    → validate_rows n index js rs ≡ ok tt
unfolding validate_rows
RowsValid-validate_rows n index js [] h = refl
RowsValid-validate_rows n index js (r ∷ rs) h = rw (RowValid-check_row n js r h.0.0 h.2.0) (
    RowsValid-validate_rows n (index + 1) (r.source_row ∷ js) rs
      (h.0.1, h.1.1, (AllFresh-cons r.source_row js rs).1 (h.1.0, h.2.1)))

fresh_at_start : (rs : List Row) → AllFresh rs []
fresh_at_start [] = tt
fresh_at_start (r ∷ rs) = (tt, fresh_at_start rs)

validate-ScanValid : (s : Scan) → validate s ≡ ok tt → ScanValid s
unfolding validate
validate-ScanValid s h =
    let (_, export, h₁) = >>=-eq-ok (validate_export s) _ h in
    let (_, place, h₂) = >>=-eq-ok (validate_place s) _ h₁ in
    let (_, scanner, h₃) = >>=-eq-ok (validate_scanner s) _ h₂ in
    let (_, counts, rows) = >>=-eq-ok (validate_counts s) _ h₃ in
    let (each, distinct, _) = validate_rows-RowsValid s.source_row_count 0 [] s.rows rows in
    record {
      export = (validate_export_iff s).0 export;
      place = (validate_place_iff s).0 place;
      scanner = (validate_scanner_iff s).0 scanner;
      counts = (validate_counts_iff s).0 counts;
      each_row = each;
      distinct = distinct;
    }

-- `Validate` returns nil exactly at the valid scans: the header, place and auction house, scanner,
-- counts and every row are as specified, and no source row comes twice.
pub validate_iff : (s : Scan) → (validate s ≡ ok tt) ↔ ScanValid s
validate_iff s = (
  validate-ScanValid s,
  λ v.
      unfold validate in
      rw
        (
          (validate_export_iff s).1 v.export,
          (validate_place_iff s).1 v.place,
          (validate_scanner_iff s).1 v.scanner,
          (validate_counts_iff s).1 v.counts,
        )
        (RowsValid-validate_rows s.source_row_count 0 [] s.rows
          (v.each_row, v.distinct, fresh_at_start s.rows)),
)
