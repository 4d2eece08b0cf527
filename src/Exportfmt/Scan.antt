-- ===== src/Exportfmt/Scan.antt =====
-- The types and constants of `export.go`, with the errors of the package.
use wow_markets.Base.{ℕ, Bool, List, [], ◌∷◌, codes}
use wow_markets.Base.Int.{ℤ, pos}
use wow_markets.Base.Strings.{Text}
use wow_markets.Luasv.Token as Lua

abbrev pub schema_version : ℤ
schema_version = pos 1

abbrev pub format_version : ℤ
format_version = pos 5

abbrev pub item_fields : List Text
item_fields =
    codes "itemId"
    ∷ codes "itemString"
    ∷ codes "name"
    ∷ codes "quality"
    ∷ codes "requiredLevel"
    ∷ []

abbrev pub row_fields : List Text
row_fields =
    codes "sourceRow"
    ∷ codes "itemRef"
    ∷ codes "stackCount"
    ∷ codes "minBid"
    ∷ codes "minIncrement"
    ∷ codes "buyout"
    ∷ codes "bidAmount"
    ∷ codes "saleStatus"
    ∷ codes "hasAllInfo"
    ∷ []

pub record Row : Type 0 where
  pub source_row : ℤ
  pub item_id : ℤ
  pub item_string : Text
  pub name : Text
  pub stack_count : ℤ
  pub quality : ℤ
  pub required_level : ℤ
  pub min_bid : ℤ
  pub min_increment : ℤ
  pub buyout : ℤ
  pub bid_amount : ℤ
  pub sale_status : ℤ
  pub has_all_info : Bool

pub record Scan : Type 0 where
  pub format_version : ℤ
  pub status : Text
  pub captured_at : ℤ
  pub export_started_at : ℤ
  pub export_finished_at : ℤ
  pub export_duration_ms : ℤ
  pub export_batch_size : ℤ
  pub region : Text
  pub realm : Text
  pub faction : Text
  pub auction_house : Text
  pub capture_zone : Text
  pub capture_subzone : Text
  pub capture_ui_map_id : ℤ
  pub scanner_name : Text
  pub scanner_realm : Text
  pub scanner_guid : Text
  pub scanner_region : Text
  pub source : Text
  pub source_event : Text
  pub source_version : Text
  pub addon_version : Text
  pub source_row_count : ℤ
  pub exported_row_count : ℤ
  pub item_count : ℤ
  pub truncated : Bool
  pub rows : List Row

pub record Database : Type 0 where
  pub schema_version : ℤ
  pub scans : List Scan

pub record ItemIdentity : Type 0 where
  pub item_id : ℤ
  pub item_string : Text
  pub name : Text
  pub quality : ℤ
  pub required_level : ℤ

-- The types that a field is read at.
pub data FieldType : Type 0 where
  a_table a_string an_integer a_boolean : FieldType

-- Each error with what its message names.
pub data Error : Type 0 where
  missing : Text → Error
  wrong_type : Text → FieldType → Error
  must_not_be_empty outside_int_range : Text → Error
  unsupported_schema unsupported_format : ℤ → Error
  bad_sequence : Text → Lua.Error → Error
  -- `name[index]: …`
  at_entry : Text → ℕ → Error → Error
  entry_not_a_table : Text → ℕ → Error
  bad_sequence_entry : Lua.Error → Error
  field_count : ℕ → ℕ → Error
  field_differs : Text → ℕ → Text → Error
  item_count_differs : ℤ → ℕ → Error
  item_ref_outside : ℤ → Error
  bad_has_all_info : Error
  -- `Validate` and `validateRow`
  bad_status : Text → Error
  timestamps_not_positive finish_before_start negative_duration batch_not_positive : Error
  unsupported_region unsupported_faction unsupported_auction_house : Text → Error
  realm_required zone_required negative_map_id : Error
  auction_house_differs : Text → Text → Error
  scanner_incomplete : Error
  unsupported_scanner_region : Text → Error
  regions_differ : Text → Text → Error
  metadata_required negative_count : Error
  fewer_source_rows : ℤ → ℤ → Error
  row_count_differs : ℤ → ℕ → Error
  truncated_differs no_items : Error
  source_row_not_positive item_id_not_positive stack_not_positive negative_money : Error
  source_row_too_large : ℤ → ℤ → Error
  duplicate_source_row : ℤ → Error
