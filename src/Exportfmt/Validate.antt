-- ===== src/Exportfmt/Validate.antt =====
-- `Validate`, `validateRow`, `UnitBuyout` and `validRegion` of `export.go`, and
-- `auction_house.go`.
pub mod Spec
pub mod Accepts
pub mod Correct
pub mod UnitBuyout
use wow_markets.Base.{
  ℕ, zero, suc, ◌+◌, Bool, true, false, not, ◌&&◌, ◌||◌, List, [], ◌∷◌, ◌==◌, if◌then◌else◌, length,
  Result, ok, err, ◌>>=◌, ◌>>◌, require, reject, wrap, codes, str_eq, is_empty,
}
use wow_markets.Base.Int.{ℤ, pos, negsuc, ltb_ℤ, leb_ℤ, eq_ℤ, wrap64, add_ℤ, sub_ℤ, quotient}
use wow_markets.Base.Strings.{Text}
use wow_markets.Exportfmt.Scan.{Scan, Row, Error, format_version}

unfoldable pub one_of : Text → List Text → Bool
one_of s [] = false
one_of s (t ∷ ts) = str_eq s t || one_of s ts

abbrev pub regions : List Text
regions = codes "us" ∷ codes "eu" ∷ codes "kr" ∷ codes "tw" ∷ codes "cn" ∷ []

unfoldable pub valid_region : Text → Bool
unfolding one_of
valid_region region = one_of region regions

abbrev pub neutral_zones : List Text
neutral_zones = codes "Stranglethorn Vale" ∷ codes "Tanaris" ∷ codes "Winterspring" ∷ []

abbrev pub neutral_subzones : List Text
neutral_subzones = codes "Booty Bay" ∷ codes "Gadgetzan" ∷ codes "Everlook" ∷ []

unfoldable pub is_neutral_map : ℤ → Bool
is_neutral_map id = eq_ℤ id (pos 1434) || eq_ℤ id (pos 1446) || eq_ℤ id (pos 1452)

unfoldable pub classify_auction_house : Text → Text → ℤ → Text
classify_auction_house zone subzone ui_map_id =
    if is_neutral_map ui_map_id
    then codes "neutral"
    else if one_of zone neutral_zones
    then codes "neutral"
    else if one_of subzone neutral_subzones
    then codes "neutral"
    else codes "faction"

unfoldable pub market : Scan → Text
market scan = if str_eq scan.auction_house (codes "neutral") then codes "Neutral" else scan.faction

unfoldable pub validate_row : Row → Result Error Row
validate_row row = do
  reject (ltb_ℤ row.source_row (pos 1)) Error.source_row_not_positive
  reject (ltb_ℤ row.item_id (pos 1)) Error.item_id_not_positive
  reject (ltb_ℤ row.stack_count (pos 1)) Error.stack_not_positive
  reject
      (ltb_ℤ row.min_bid (pos 0)
        || ltb_ℤ row.min_increment (pos 0)
        || ltb_ℤ row.buyout (pos 0)
        || ltb_ℤ row.bid_amount (pos 0))
      Error.negative_money
  ok row

-- `Row.UnitBuyout`, in int64.
unfoldable pub unit_buyout : Row → ℤ
unit_buyout row =
    if leb_ℤ row.buyout (pos 0) || leb_ℤ row.stack_count (pos 0)
    then pos 0
    else elim row.stack_count [
      | pos count ↦ quotient (wrap64 (sub_ℤ (wrap64 (add_ℤ row.buyout (pos count))) (pos 1))) count
      | negsuc _ ↦ pos 0
    ]

-- `Validate`, in the order of its tests: the export, the place, the scanner, the counts, the rows.
unfoldable pub validate_export : Scan → Result Error (Unit {0})
validate_export scan = do
  require (eq_ℤ scan.format_version format_version) (Error.unsupported_format scan.format_version)
  require (str_eq scan.status (codes "ready")) (Error.bad_status scan.status)
  reject
      (leb_ℤ scan.captured_at (pos 0)
        || leb_ℤ scan.export_started_at (pos 0)
        || leb_ℤ scan.export_finished_at (pos 0))
      Error.timestamps_not_positive
  reject (ltb_ℤ scan.export_finished_at scan.export_started_at) Error.finish_before_start
  reject (ltb_ℤ scan.export_duration_ms (pos 0)) Error.negative_duration
  reject (leb_ℤ scan.export_batch_size (pos 0)) Error.batch_not_positive

unfoldable pub validate_place : Scan → Result Error (Unit {0})
unfolding valid_region classify_auction_house
validate_place scan = do
  require (valid_region scan.region) (Error.unsupported_region scan.region)
  reject (is_empty scan.realm || is_empty scan.scanner_realm) Error.realm_required
  require (str_eq scan.faction (codes "Alliance") || str_eq scan.faction (codes "Horde"))
      (Error.unsupported_faction scan.faction)
  require
      (str_eq scan.auction_house (codes "faction") || str_eq scan.auction_house (codes "neutral"))
      (Error.unsupported_auction_house scan.auction_house)
  reject (is_empty scan.capture_zone) Error.zone_required
  reject (ltb_ℤ scan.capture_ui_map_id (pos 0)) Error.negative_map_id
  let expected =
      classify_auction_house scan.capture_zone scan.capture_subzone scan.capture_ui_map_id
  require (str_eq scan.auction_house expected)
      (Error.auction_house_differs scan.auction_house expected)

unfoldable pub validate_scanner : Scan → Result Error (Unit {0})
unfolding valid_region
validate_scanner scan = do
  reject (is_empty scan.scanner_name || is_empty scan.scanner_guid) Error.scanner_incomplete
  require (valid_region scan.scanner_region) (Error.unsupported_scanner_region scan.scanner_region)
  require (str_eq scan.scanner_region scan.region)
      (Error.regions_differ scan.scanner_region scan.region)
  reject
      (is_empty scan.source
        || is_empty scan.source_event
        || is_empty scan.source_version
        || is_empty scan.addon_version)
      Error.metadata_required

abbrev pub same_bool : Bool → Bool → Bool
same_bool true b = b
same_bool false b = not b

unfoldable pub validate_counts : Scan → Result Error (Unit {0})
validate_counts scan = do
  reject
      (ltb_ℤ scan.source_row_count (pos 0)
        || ltb_ℤ scan.exported_row_count (pos 0)
        || ltb_ℤ scan.item_count (pos 0))
      Error.negative_count
  reject (ltb_ℤ scan.source_row_count scan.exported_row_count)
      (Error.fewer_source_rows scan.source_row_count scan.exported_row_count)
  require (eq_ℤ scan.exported_row_count (pos (length scan.rows)))
      (Error.row_count_differs scan.exported_row_count (length scan.rows))
  require (same_bool scan.truncated (not (eq_ℤ scan.source_row_count scan.exported_row_count)))
      Error.truncated_differs
  reject (ltb_ℤ (pos 0) scan.exported_row_count && eq_ℤ scan.item_count (pos 0)) Error.no_items

-- `_, exists := sourceRows[row]`
unfoldable pub seen : ℤ → List ℤ → Bool
seen i [] = false
seen i (j ∷ js) = eq_ℤ i j || seen i js

-- One round of the loop over the rows.
unfoldable pub check_row : ℤ → List ℤ → Row → Result Error (Unit {0})
unfolding validate_row seen
check_row source_row_count source_rows row = do
  _ ← validate_row row
  reject (ltb_ℤ source_row_count row.source_row)
      (Error.source_row_too_large row.source_row source_row_count)
  reject (seen row.source_row source_rows) (Error.duplicate_source_row row.source_row)

unfoldable pub validate_rows : ℤ → ℕ → List ℤ → List Row → Result Error (Unit {0})
validate_rows source_row_count index source_rows [] = ok tt
validate_rows source_row_count index source_rows (row ∷ rows) = do
  wrap (Error.at_entry (codes "rows") (index + 1)) (check_row source_row_count source_rows row)
  validate_rows source_row_count (index + 1) (row.source_row ∷ source_rows) rows

unfoldable pub validate : Scan → Result Error (Unit {0})
validate scan = do
  validate_export scan
  validate_place scan
  validate_scanner scan
  validate_counts scan
  validate_rows scan.source_row_count 0 [] scan.rows
