-- ===== src/Exportfmt/Decode.antt =====
-- `Decode`, `decodeScan`, `decodeItemDictionary` and `decodeRow` of `export.go`.
pub mod RowValues
pub mod Sound
use wow_markets.Base.{
  ℕ, zero, suc, ◌+◌, ◌-◌, Bool, true, false, not, ◌&&◌, ◌||◌, List, [], ◌∷◌, Option, none, some,
  ◌==◌, if◌then◌else◌, length, get_elem?, Result, ok, err, ◌>>=◌, ◌>>◌, require, reject, wrap,
  or_error, codes,
}
use wow_markets.Base.Int.{ℤ, pos, negsuc, ltb_ℤ, eq_ℤ}
use wow_markets.Base.Strings.{Text}
use wow_markets.Luasv.Value.{Value, Table, nil, as_table}
use wow_markets.Luasv.Sequence.{sequence}
use wow_markets.Exportfmt.Scan.{
  Scan, Row, Database, ItemIdentity, Error, schema_version, format_version, item_fields, row_fields,
}
use wow_markets.Exportfmt.Validate.{validate, validate_row}
use wow_markets.Exportfmt.Fields.{
  value_string, value_int64, value_int, field_table, string_field, non_empty_string_field,
  int_field, int64_field, bool_field, validate_fields,
}

-- `values[i]`, behind the test of the length.
abbrev nth : List Value → ℕ → Value
nth values i = elim (get_elem? values i) [ some v ↦ v | none ↦ nil ]

-- A loop that decodes each entry of a list of tables, in order, up to the first error.
unfoldable pub decode_each {ℓ} :
    {A : Type ℓ} → Text → (Table → Result Error A) → ℕ → List Value → Result Error (List A)
decode_each name decode index [] = ok []
decode_each name decode index (value ∷ values) = do
  t ← or_error (as_table value) (Error.entry_not_a_table name (index + 1))
  a ← wrap (Error.at_entry name (index + 1)) (decode t)
  more ← decode_each name decode (index + 1) values
  ok (a ∷ more)

-- The body of `decodeItemDictionary`'s loop.
unfoldable pub decode_item : Table → Result Error ItemIdentity
decode_item t = do
  values ← wrap Error.bad_sequence_entry (sequence t)
  require (length values == length item_fields)
      (Error.field_count (length values) (length item_fields))
  item_id ← value_int (nth values 0) (codes "itemId")
  item_string ← value_string (nth values 1) (codes "itemString")
  name ← value_string (nth values 2) (codes "name")
  quality ← value_int (nth values 3) (codes "quality")
  required_level ← value_int (nth values 4) (codes "requiredLevel")
  reject (ltb_ℤ item_id (pos 1)) Error.item_id_not_positive
  ok (record {
    item_id = item_id;
    item_string = item_string;
    name = name;
    quality = quality;
    required_level = required_level;
  })

unfoldable pub decode_item_dictionary : Table → Result Error (List ItemIdentity)
decode_item_dictionary t = do
  raw_items ← field_table t (codes "items")
  values ← wrap (Error.bad_sequence (codes "items")) (sequence raw_items)
  decode_each (codes "items") decode_item 0 values

-- `items[itemReference-1]`, with the test of its range.
unfoldable pub item_at : List ItemIdentity → ℤ → Result Error ItemIdentity
item_at items (pos (suc i)) = or_error (get_elem? items i) (Error.item_ref_outside (pos (suc i)))
item_at items ref = err (Error.item_ref_outside ref)

unfoldable pub read_row : List Value → ItemIdentity → ℤ → Result Error Row
read_row values item source_row = do
  stack_count ← value_int (nth values 2) (codes "stackCount")
  min_bid ← value_int64 (nth values 3) (codes "minBid")
  min_increment ← value_int64 (nth values 4) (codes "minIncrement")
  buyout ← value_int64 (nth values 5) (codes "buyout")
  bid_amount ← value_int64 (nth values 6) (codes "bidAmount")
  sale_status ← value_int (nth values 7) (codes "saleStatus")
  has_all_info ← value_int (nth values 8) (codes "hasAllInfo")
  require (eq_ℤ has_all_info (pos 0) || eq_ℤ has_all_info (pos 1)) Error.bad_has_all_info
  ok (record {
    source_row = source_row;
    item_id = item.item_id;
    item_string = item.item_string;
    name = item.name;
    stack_count = stack_count;
    quality = item.quality;
    required_level = item.required_level;
    min_bid = min_bid;
    min_increment = min_increment;
    buyout = buyout;
    bid_amount = bid_amount;
    sale_status = sale_status;
    has_all_info = eq_ℤ has_all_info (pos 1);
  })

-- `decodeRow` behind the reading of the row's values.
unfoldable pub row_of_values : List ItemIdentity → List Value → Result Error Row
row_of_values items values = do
  require (length values == length row_fields)
      (Error.field_count (length values) (length row_fields))
  source_row ← value_int (nth values 0) (codes "sourceRow")
  item_reference ← value_int (nth values 1) (codes "itemRef")
  item ← item_at items item_reference
  row ← read_row values item source_row
  validate_row row

unfoldable pub decode_row : List ItemIdentity → Table → Result Error Row
decode_row items t = do
  values ← wrap Error.bad_sequence_entry (sequence t)
  row_of_values items values

-- The scalar fields of `decodeScan`, in the order in which it reads them.
unfoldable pub read_header : Table → Result Error Scan
read_header t = do
  version ← int_field t (codes "formatVersion")
  require (eq_ℤ version format_version) (Error.unsupported_format version)
  status ← string_field t (codes "status")
  captured_at ← int64_field t (codes "capturedAt")
  export_started_at ← int64_field t (codes "exportStartedAt")
  export_finished_at ← int64_field t (codes "exportFinishedAt")
  export_duration_ms ← int_field t (codes "exportDurationMs")
  export_batch_size ← int_field t (codes "exportBatchSize")
  region ← non_empty_string_field t (codes "region")
  realm ← non_empty_string_field t (codes "realm")
  faction ← non_empty_string_field t (codes "faction")
  auction_house ← non_empty_string_field t (codes "auctionHouse")
  capture_zone ← non_empty_string_field t (codes "captureZone")
  capture_subzone ← string_field t (codes "captureSubzone")
  capture_ui_map_id ← int_field t (codes "captureUiMapID")
  scanner_name ← non_empty_string_field t (codes "scannerCharacterName")
  scanner_realm ← non_empty_string_field t (codes "scannerCharacterRealm")
  scanner_guid ← non_empty_string_field t (codes "scannerCharacterGUID")
  scanner_region ← non_empty_string_field t (codes "scannerRegion")
  source ← non_empty_string_field t (codes "source")
  source_event ← non_empty_string_field t (codes "sourceEvent")
  source_version ← non_empty_string_field t (codes "sourceVersion")
  addon_version ← non_empty_string_field t (codes "addonVersion")
  source_row_count ← int_field t (codes "sourceRowCount")
  exported_row_count ← int_field t (codes "exportedRowCount")
  item_count ← int_field t (codes "itemCount")
  truncated ← bool_field t (codes "truncated")
  ok (record {
    format_version = version;
    status = status;
    captured_at = captured_at;
    export_started_at = export_started_at;
    export_finished_at = export_finished_at;
    export_duration_ms = export_duration_ms;
    export_batch_size = export_batch_size;
    region = region;
    realm = realm;
    faction = faction;
    auction_house = auction_house;
    capture_zone = capture_zone;
    capture_subzone = capture_subzone;
    capture_ui_map_id = capture_ui_map_id;
    scanner_name = scanner_name;
    scanner_realm = scanner_realm;
    scanner_guid = scanner_guid;
    scanner_region = scanner_region;
    source = source;
    source_event = source_event;
    source_version = source_version;
    addon_version = addon_version;
    source_row_count = source_row_count;
    exported_row_count = exported_row_count;
    item_count = item_count;
    truncated = truncated;
    rows = [];
  })

unfoldable pub decode_rows : List ItemIdentity → Table → Result Error (List Row)
decode_rows items t = do
  raw_rows ← field_table t (codes "rows")
  values ← wrap (Error.bad_sequence (codes "rows")) (sequence raw_rows)
  decode_each (codes "rows") (decode_row items) 0 values

unfoldable pub decode_scan : Table → Result Error Scan
decode_scan t = do
  header ← read_header t
  validate_fields t (codes "itemFields") item_fields
  validate_fields t (codes "rowFields") row_fields
  items ← decode_item_dictionary t
  require (eq_ℤ header.item_count (pos (length items)))
      (Error.item_count_differs header.item_count (length items))
  rows ← decode_rows items t
  let scan = record header { rows = rows }
  validate scan
  ok scan

unfoldable pub decode : Table → Result Error Database
decode root = do
  version ← int_field root (codes "schemaVersion")
  require (eq_ℤ version schema_version) (Error.unsupported_schema version)
  raw_scans ← field_table root (codes "pendingScans")
  values ← wrap (Error.bad_sequence (codes "pendingScans")) (sequence raw_scans)
  scans ← decode_each (codes "pendingScans") decode_scan 0 values
  ok (record { schema_version = version; scans = scans })
