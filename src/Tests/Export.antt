-- ===== src/Tests/Export.antt =====
-- Runs of the scan exports, and witnesses.
use wow_markets.Base.{
  ℕ, ◌+◌, ◌*◌, ◌≤◌, ◌<◌, ◌≡◌, ◌↔◌, ◌⊎◌, refl, true, List, [], ◌∷◌, ok, codes, All, arith,
}
use wow_markets.Base.Int.{◌≤ℤ◌, ℤ, pos, InInt64}
use wow_markets.Base.Strings.{Text}
use wow_markets.Luasv.Value.{Value, Table, integer, string, boolean, to_value}
use wow_markets.Luasv.Sequence.{sequence}
use wow_markets.Exportfmt.Scan.{Scan, Row, Database, schema_version, item_fields, row_fields}
use wow_markets.Exportfmt.Validate.{validate, validate_row, classify_auction_house, unit_buyout}
use wow_markets.Exportfmt.Validate.Spec.{ScanValid, IsNeutral}
use wow_markets.Exportfmt.Validate.Accepts.{classify_cases}
use wow_markets.Exportfmt.Validate.Correct.{validate_iff}
use wow_markets.Exportfmt.Validate.UnitBuyout.{unit_buyout_ceiling, unit_buyout_wraps}
use wow_markets.Exportfmt.Decode.{decode, decode_row}
use wow_markets.Exportfmt.Decode.RowValues.{
  RowDecoded, RowFits, identity, row_values, decode_row-RowDecoded, decode_row-row_values,
}
use wow_markets.Exportfmt.Decode.Sound.{decode-ScanValid}
use wow_markets.Base.Int as Int
use wow_markets.Base.Maps as Maps
use wow_markets.Base.Strings as Strings
use wow_markets.Exportfmt.Decode as Decode
use wow_markets.Exportfmt.Fields as Fields
use wow_markets.Exportfmt.Validate as Validate
use wow_markets.Luasv.Sequence as Sequence
use wow_markets.Luasv.Value as LuasvValue

abbrev pub cloth : Row
cloth = record {
  source_row = pos 2;
  item_id = pos 2589;
  item_string = codes "item:2589";
  name = codes "Linen Cloth";
  stack_count = pos 20;
  quality = pos 1;
  required_level = pos 0;
  min_bid = pos 100;
  min_increment = pos 5;
  buyout = pos 250;
  bid_amount = pos 0;
  sale_status = pos 0;
  has_all_info = true;
}

abbrev pub scan : Scan
scan = record {
  format_version = pos 5;
  status = codes "ready";
  captured_at = pos 1000;
  export_started_at = pos 1001;
  export_finished_at = pos 1003;
  export_duration_ms = pos 1500;
  export_batch_size = pos 200;
  region = codes "eu";
  realm = codes "Thunderstrike";
  faction = codes "Horde";
  auction_house = codes "neutral";
  capture_zone = codes "Tanaris";
  capture_subzone = codes "Gadgetzan";
  capture_ui_map_id = pos 1446;
  scanner_name = codes "A";
  scanner_realm = codes "B";
  scanner_guid = codes "Player-1";
  scanner_region = codes "eu";
  source = codes "C";
  source_event = codes "D";
  source_version = codes "1";
  addon_version = codes "2";
  source_row_count = pos 3;
  exported_row_count = pos 1;
  item_count = pos 1;
  truncated = true;
  rows = cloth ∷ [];
}

abbrev sequence_table : List Value → Table
sequence_table values = record { fields = []; indexed = []; array = values }

abbrev strings : List Text → List Value
strings [] = []
strings (t ∷ ts) = string t ∷ strings ts

abbrev row_table : Table
row_table = sequence_table (row_values 0 cloth)

abbrev item_table : Table
item_table = sequence_table (
    integer (pos 2589)
    ∷ string (codes "item:2589")
    ∷ string (codes "Linen Cloth")
    ∷ integer (pos 1)
    ∷ integer (pos 0)
    ∷ [])

abbrev scan_table : Table
scan_table = record {
  fields =
      (codes "formatVersion", integer (pos 5))
      ∷ (codes "status", string (codes "ready"))
      ∷ (codes "capturedAt", integer (pos 1000))
      ∷ (codes "exportStartedAt", integer (pos 1001))
      ∷ (codes "exportFinishedAt", integer (pos 1003))
      ∷ (codes "exportDurationMs", integer (pos 1500))
      ∷ (codes "exportBatchSize", integer (pos 200))
      ∷ (codes "region", string (codes "eu"))
      ∷ (codes "realm", string (codes "Thunderstrike"))
      ∷ (codes "faction", string (codes "Horde"))
      ∷ (codes "auctionHouse", string (codes "neutral"))
      ∷ (codes "captureZone", string (codes "Tanaris"))
      ∷ (codes "captureSubzone", string (codes "Gadgetzan"))
      ∷ (codes "captureUiMapID", integer (pos 1446))
      ∷ (codes "scannerCharacterName", string (codes "A"))
      ∷ (codes "scannerCharacterRealm", string (codes "B"))
      ∷ (codes "scannerCharacterGUID", string (codes "Player-1"))
      ∷ (codes "scannerRegion", string (codes "eu"))
      ∷ (codes "source", string (codes "C"))
      ∷ (codes "sourceEvent", string (codes "D"))
      ∷ (codes "sourceVersion", string (codes "1"))
      ∷ (codes "addonVersion", string (codes "2"))
      ∷ (codes "sourceRowCount", integer (pos 3))
      ∷ (codes "exportedRowCount", integer (pos 1))
      ∷ (codes "itemCount", integer (pos 1))
      ∷ (codes "truncated", boolean true)
      ∷ (codes "itemFields", to_value (sequence_table (strings item_fields)))
      ∷ (codes "rowFields", to_value (sequence_table (strings row_fields)))
      ∷ (codes "items", to_value (sequence_table (to_value item_table ∷ [])))
      ∷ (codes "rows", to_value (sequence_table (to_value row_table ∷ [])))
      ∷ [];
  indexed = [];
  array = [];
}

abbrev root : Table
root = record {
  fields =
      (codes "schemaVersion", integer (pos 1))
      ∷ (codes "pendingScans", to_value (sequence_table (to_value scan_table ∷ [])))
      ∷ [];
  indexed = [];
  array = [];
}

abbrev database : Database
database = record { schema_version = pos 1; scans = scan ∷ [] }

decode-root : decode root ≡ ok database
unfolding LuasvValue.as_table LuasvValue.as_string LuasvValue.as_integer LuasvValue.as_boolean
    LuasvValue.table_field Sequence.numbered Sequence.add_indexed Sequence.keys
    Sequence.insert_sorted Sequence.sort Sequence.collect Sequence.sequence Int.wrap64 Int.add_ℤ
    Int.sub_ℤ Int.quotient Strings.str_eq Strings.str_lt Strings.is_space Strings.trim_left
    Strings.trim_space Strings.cut Strings.split_onto Strings.has_prefix Maps.lookup Maps.insert
    Validate.one_of Validate.valid_region Validate.is_neutral_map Validate.classify_auction_house
    Validate.market Validate.validate_row Validate.unit_buyout Validate.validate_export
    Validate.validate_place Validate.validate_scanner Validate.validate_counts Validate.seen
    Validate.check_row Validate.validate_rows Validate.validate Fields.value_string
    Fields.value_int64 Fields.value_int Fields.field_table Fields.string_field
    Fields.non_empty_string_field Fields.int_field Fields.int64_field Fields.bool_field
    Fields.is_string Fields.compare_fields Fields.validate_fields Decode.decode_each
    Decode.decode_item Decode.decode_item_dictionary Decode.item_at Decode.read_row
    Decode.row_of_values Decode.decode_row Decode.read_header Decode.decode_rows Decode.decode_scan
    Decode.decode
decode-root = refl

decode-ScanValid_example : (database.schema_version ≡ schema_version) × All ScanValid database.scans
decode-ScanValid_example = decode-ScanValid root database decode-root

validate_iff_example : (validate scan ≡ ok tt) ↔ ScanValid scan
validate_iff_example = validate_iff scan

classify_cases_example :
    ((classify_auction_house (codes "Tanaris") [] (pos 0) ≡ codes "neutral")
      × IsNeutral (codes "Tanaris") [] (pos 0))
    ⊎ ((classify_auction_house (codes "Tanaris") [] (pos 0) ≡ codes "faction")
        × ¬ IsNeutral (codes "Tanaris") [] (pos 0))
classify_cases_example = classify_cases (codes "Tanaris") [] (pos 0)

decode_cloth : decode_row (identity cloth ∷ []) row_table ≡ ok cloth
unfolding LuasvValue.as_table LuasvValue.as_string LuasvValue.as_integer LuasvValue.as_boolean
    LuasvValue.table_field Sequence.numbered Sequence.add_indexed Sequence.keys
    Sequence.insert_sorted Sequence.sort Sequence.collect Sequence.sequence Int.wrap64 Int.add_ℤ
    Int.sub_ℤ Int.quotient Strings.str_eq Strings.str_lt Strings.is_space Strings.trim_left
    Strings.trim_space Strings.cut Strings.split_onto Strings.has_prefix Maps.lookup Maps.insert
    Validate.one_of Validate.valid_region Validate.is_neutral_map Validate.classify_auction_house
    Validate.market Validate.validate_row Validate.unit_buyout Validate.validate_export
    Validate.validate_place Validate.validate_scanner Validate.validate_counts Validate.seen
    Validate.check_row Validate.validate_rows Validate.validate Fields.value_string
    Fields.value_int64 Fields.value_int Fields.field_table Fields.string_field
    Fields.non_empty_string_field Fields.int_field Fields.int64_field Fields.bool_field
    Fields.is_string Fields.compare_fields Fields.validate_fields Decode.decode_each
    Decode.decode_item Decode.decode_item_dictionary Decode.item_at Decode.read_row
    Decode.row_of_values Decode.decode_row Decode.read_header Decode.decode_rows Decode.decode_scan
    Decode.decode
decode_cloth = refl

decode_row-RowDecoded_example :
    (values : List Value) × (sequence row_table ≡ ok values)
    × RowDecoded (identity cloth ∷ []) values cloth
decode_row-RowDecoded_example =
    decode_row-RowDecoded (identity cloth ∷ []) row_table cloth decode_cloth

cloth-sequence : sequence row_table ≡ ok (row_values 0 cloth)
unfolding LuasvValue.as_table LuasvValue.as_string LuasvValue.as_integer LuasvValue.as_boolean
    LuasvValue.table_field Sequence.numbered Sequence.add_indexed Sequence.keys
    Sequence.insert_sorted Sequence.sort Sequence.collect Sequence.sequence Int.wrap64 Int.add_ℤ
    Int.sub_ℤ Int.quotient Strings.str_eq Strings.str_lt Strings.is_space Strings.trim_left
    Strings.trim_space Strings.cut Strings.split_onto Strings.has_prefix Maps.lookup Maps.insert
    Validate.one_of Validate.valid_region Validate.is_neutral_map Validate.classify_auction_house
    Validate.market Validate.validate_row Validate.unit_buyout Validate.validate_export
    Validate.validate_place Validate.validate_scanner Validate.validate_counts Validate.seen
    Validate.check_row Validate.validate_rows Validate.validate Fields.value_string
    Fields.value_int64 Fields.value_int Fields.field_table Fields.string_field
    Fields.non_empty_string_field Fields.int_field Fields.int64_field Fields.bool_field
    Fields.is_string Fields.compare_fields Fields.validate_fields Decode.decode_each
    Decode.decode_item Decode.decode_item_dictionary Decode.item_at Decode.read_row
    Decode.row_of_values Decode.decode_row Decode.read_header Decode.decode_rows Decode.decode_scan
    Decode.decode
cloth-sequence = refl

cloth_valid : validate_row cloth ≡ ok cloth
unfolding LuasvValue.as_table LuasvValue.as_string LuasvValue.as_integer LuasvValue.as_boolean
    LuasvValue.table_field Sequence.numbered Sequence.add_indexed Sequence.keys
    Sequence.insert_sorted Sequence.sort Sequence.collect Sequence.sequence Int.wrap64 Int.add_ℤ
    Int.sub_ℤ Int.quotient Strings.str_eq Strings.str_lt Strings.is_space Strings.trim_left
    Strings.trim_space Strings.cut Strings.split_onto Strings.has_prefix Maps.lookup Maps.insert
    Validate.one_of Validate.valid_region Validate.is_neutral_map Validate.classify_auction_house
    Validate.market Validate.validate_row Validate.unit_buyout Validate.validate_export
    Validate.validate_place Validate.validate_scanner Validate.validate_counts Validate.seen
    Validate.check_row Validate.validate_rows Validate.validate Fields.value_string
    Fields.value_int64 Fields.value_int Fields.field_table Fields.string_field
    Fields.non_empty_string_field Fields.int_field Fields.int64_field Fields.bool_field
    Fields.is_string Fields.compare_fields Fields.validate_fields Decode.decode_each
    Decode.decode_item Decode.decode_item_dictionary Decode.item_at Decode.read_row
    Decode.row_of_values Decode.decode_row Decode.read_header Decode.decode_rows Decode.decode_scan
    Decode.decode
cloth_valid = refl

cloth_fits : RowFits 0 cloth
cloth_fits = record {
  source_row = omega arith;
  item = omega arith;
  stack_count = omega arith;
  sale_status = omega arith;
}

decode_row-row_values_example : decode_row (identity cloth ∷ []) row_table ≡ ok cloth
decode_row-row_values_example =
    decode_row-row_values (identity cloth ∷ []) row_table 0 cloth cloth-sequence refl cloth_valid
      cloth_fits

-- 250 for 20 is 13 for one.
unit_buyout_ceiling_example :
    (q : ℕ) × (unit_buyout cloth ≡ pos q) × (250 ≤ q * 20) × (q * 20 < 250 + 20)
unit_buyout_ceiling_example = unit_buyout_ceiling cloth 249 19 refl refl (omega arith)

abbrev dear : Row
dear = record cloth { buyout = pos 9_223_372_036_854_775_800 }

unit_buyout_wraps_example : unit_buyout dear ≤ℤ pos 0
unit_buyout_wraps_example =
    unit_buyout_wraps dear 9_223_372_036_854_775_799 19 refl refl (omega arith) (omega arith)
      (omega arith)
