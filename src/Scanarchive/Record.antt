-- ===== src/Scanarchive/Record.antt =====
-- `Record` of `archive.go`.
use wow_markets.Base.{Bool}
use wow_markets.Base.Int.{ℤ}
use wow_markets.Base.Strings.{Text}

pub record ArchiveRecord : Type 0 where
  pub checksum : Text
  pub archive_path : Text
  pub source_path : Text
  pub imported_at : Text
  pub captured_at : ℤ
  pub region : Text
  pub realm : Text
  pub market : Text
  pub faction : Text
  pub auction_house : Text
  pub capture_zone : Text
  pub capture_subzone : Text
  pub capture_ui_map_id : ℤ
  pub scanner_name : Text
  pub scanner_realm : Text
  pub scanner_guid : Text
  pub scanner_region : Text
  pub row_count : ℤ
  pub item_count : ℤ
  pub export_ms : ℤ
  pub truncated : Bool
