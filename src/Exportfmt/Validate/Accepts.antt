-- ===== src/Exportfmt/Validate/Accepts.antt =====
-- The parts of `Validate` against the parts of the specification.
use wow_markets.Base.{
  ◌≡◌, ◌≢◌, ◌⊎◌, ◌↔◌, inl, inr, refl, sym, ◌∙◌, false≢true, Bool-cases, true, false, List, [], ◌∷◌,
  ok, arith, codes, str_eq_iff, is_empty, length, ◌<◌,
}
use wow_markets.Base.Int.{ℤ, pos, eq_ℤ_iff, ◌≤ℤ◌}
use wow_markets.Base.Strings.{Text}
use wow_markets.Exportfmt.Scan.{Scan, Row}
use wow_markets.Exportfmt.Validate.{
  one_of, regions, neutral_zones, neutral_subzones, is_neutral_map, classify_auction_house,
  validate_export, validate_place, validate_scanner, validate_counts, validate_row,
}
use wow_markets.Exportfmt.Validate.Spec.{
  In, IsNeutral, ExportValid, PlaceValid, ScannerValid, CountsValid, RowValid,
}

pub validate_export_iff : (s : Scan) → (validate_export s ≡ ok tt) ↔ ExportValid s
unfolding validate_export
validate_export_iff s = (
  λ h. ground (arith, str_eq_iff s.status (codes "ready")),
  λ h. ground (arith, str_eq_iff s.status (codes "ready")),
)

one_of_iff : (s : Text) (ts : List Text) → (one_of s ts ≡ true) ↔ In s ts
unfolding one_of
one_of_iff s [] = (λ h. cc, λ h. absurd h)
one_of_iff s (t ∷ ts) = (
  λ h. ground (arith, str_eq_iff s t, one_of_iff s ts),
  λ h. ground (arith, str_eq_iff s t, one_of_iff s ts),
)

not_empty_iff : (s : Text) → (is_empty s ≡ false) ↔ (s ≢ [])
not_empty_iff [] = ground arith
not_empty_iff (c ∷ cs) = ground arith

abbrev IsNeutralMap : ℤ → Type 0
IsNeutralMap id = (id ≡ pos 1434) ⊎ (id ≡ pos 1446) ⊎ (id ≡ pos 1452)

is_neutral_map_iff : (id : ℤ) → (is_neutral_map id ≡ true) ↔ IsNeutralMap id
unfolding is_neutral_map
is_neutral_map_iff id = (λ h. ground arith, λ h. ground arith)

-- The house is neutral at the listed maps, zones and subzones, and the faction's elsewhere.
pub classify_cases :
    (zone subzone : Text) (id : ℤ)
    → ((classify_auction_house zone subzone id ≡ codes "neutral") × IsNeutral zone subzone id)
      ⊎ ((classify_auction_house zone subzone id ≡ codes "faction") × ¬ IsNeutral zone subzone id)
classify_cases zone subzone id = elim (Bool-cases (is_neutral_map id)) [
  | inl m ↦ inl (unfold classify_auction_house in rw m, inl ((is_neutral_map_iff id).0 m))
  | inr m ↦ elim (Bool-cases (one_of zone neutral_zones)) [
    | inl z ↦ inl (unfold classify_auction_house in rw (m, z), inr (inl ((one_of_iff _ _).0 z)))
    | inr z ↦ elim (Bool-cases (one_of subzone neutral_subzones)) [
      | inl b ↦
          inl (unfold classify_auction_house in rw (m, z, b), inr (inr ((one_of_iff _ _).0 b)))
      | inr b ↦ inr (
        unfold classify_auction_house in rw (m, z, b),
        λ n. elim n [
          | inl k ↦ false≢true (sym m ∙ (is_neutral_map_iff id).1 k)
          | inr (inl k) ↦ false≢true (sym z ∙ (one_of_iff _ _).1 k)
          | inr (inr k) ↦ false≢true (sym b ∙ (one_of_iff _ _).1 k)
        ],
      )
    ]
  ]
]

validate_place-PlaceValid : (s : Scan) → validate_place s ≡ ok tt → PlaceValid s
unfolding validate_place
validate_place-PlaceValid s h = ground (
  arith,
  one_of_iff s.region regions,
  not_empty_iff s.realm,
  not_empty_iff s.scanner_realm,
  not_empty_iff s.capture_zone,
  str_eq_iff s.faction (codes "Alliance"),
  str_eq_iff s.faction (codes "Horde"),
  str_eq_iff s.auction_house
      (classify_auction_house s.capture_zone s.capture_subzone s.capture_ui_map_id),
  classify_cases s.capture_zone s.capture_subzone s.capture_ui_map_id,
)

PlaceValid-validate_place : (s : Scan) → PlaceValid s → validate_place s ≡ ok tt
unfolding validate_place
PlaceValid-validate_place s h = ground (
  arith,
  one_of_iff s.region regions,
  not_empty_iff s.realm,
  not_empty_iff s.scanner_realm,
  not_empty_iff s.capture_zone,
  str_eq_iff s.faction (codes "Alliance"),
  str_eq_iff s.faction (codes "Horde"),
  str_eq_iff s.auction_house (codes "faction"),
  str_eq_iff s.auction_house (codes "neutral"),
  str_eq_iff s.auction_house
      (classify_auction_house s.capture_zone s.capture_subzone s.capture_ui_map_id),
  classify_cases s.capture_zone s.capture_subzone s.capture_ui_map_id,
)

validate_scanner-ScannerValid : (s : Scan) → validate_scanner s ≡ ok tt → ScannerValid s
unfolding validate_scanner
validate_scanner-ScannerValid s h = ground (
  arith,
  one_of_iff s.scanner_region regions,
  str_eq_iff s.scanner_region s.region,
  not_empty_iff s.scanner_name,
  not_empty_iff s.scanner_guid,
  not_empty_iff s.source,
  not_empty_iff s.source_event,
  not_empty_iff s.source_version,
  not_empty_iff s.addon_version,
)

ScannerValid-validate_scanner : (s : Scan) → ScannerValid s → validate_scanner s ≡ ok tt
unfolding validate_scanner
ScannerValid-validate_scanner s h = ground (
  arith,
  one_of_iff s.scanner_region regions,
  str_eq_iff s.scanner_region s.region,
  not_empty_iff s.scanner_name,
  not_empty_iff s.scanner_guid,
  not_empty_iff s.source,
  not_empty_iff s.source_event,
  not_empty_iff s.source_version,
  not_empty_iff s.addon_version,
)

length_pos {ℓ} : {A : Type ℓ} (xs : List A) → xs ≢ [] → 0 < length xs
length_pos [] n = absurd (n refl)
length_pos (x ∷ xs) n = omega arith

validate_counts-CountsValid : (s : Scan) → validate_counts s ≡ ok tt → CountsValid s
unfolding validate_counts
validate_counts-CountsValid s h = record {
  exported = ground arith;
  enough_rows = ground arith;
  items = ground arith;
  truncated =
      (λ t e. ground arith, λ n. ground (arith, eq_ℤ_iff s.source_row_count s.exported_row_count));
  has_items = λ n. ground (arith, length_pos s.rows n);
}

CountsValid-validate_counts : (s : Scan) → CountsValid s → validate_counts s ≡ ok tt
unfolding validate_counts
CountsValid-validate_counts s h = ground arith

pub validate_row-RowValid :
    (n : ℤ) (r : Row) → validate_row r ≡ ok r → r.source_row ≤ℤ n → RowValid n r
unfolding validate_row
validate_row-RowValid n r h k = ground arith

pub RowValid-validate_row : (n : ℤ) (r : Row) → RowValid n r → validate_row r ≡ ok r
unfolding validate_row
RowValid-validate_row n r h = ground arith

pub validate_place_iff : (s : Scan) → (validate_place s ≡ ok tt) ↔ PlaceValid s
validate_place_iff s = (validate_place-PlaceValid s, PlaceValid-validate_place s)

pub validate_scanner_iff : (s : Scan) → (validate_scanner s ≡ ok tt) ↔ ScannerValid s
validate_scanner_iff s = (validate_scanner-ScannerValid s, ScannerValid-validate_scanner s)

pub validate_counts_iff : (s : Scan) → (validate_counts s ≡ ok tt) ↔ CountsValid s
validate_counts_iff s = (validate_counts-CountsValid s, CountsValid-validate_counts s)
