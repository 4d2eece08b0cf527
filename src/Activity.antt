-- ===== src/Activity.antt =====
-- companion/activity.go: what the window shows of the archive and the uploads. A time that is not
-- read is the zero time. `sort.SliceStable` is a sort by insertion that keeps equals in order.
pub mod Load
pub mod Sorted
pub mod Overview
use wow_markets.Base.{
  ℕ, suc, ◌+◌, ◌*◌, Bool, true, false, not, ◌&&◌, List, [], ◌∷◌, ◌++◌, Option, none, some, ◌==◌,
  ltb, length, if◌then◌else◌, Result, ok, err, ◌>>=◌, wrap, codes,
}
use wow_markets.Base.Int.{ℤ, pos, negsuc, eq_ℤ, ltb_ℤ}
use wow_markets.Base.Maps.{lookup, text_key}
use wow_markets.Base.Strings.{Text}
use wow_markets.Scanarchive.Record.{ArchiveRecord}
use wow_markets.Scanarchive.Process.{Archive}
use wow_markets.Scanarchive.Store as Store
use wow_markets.Scanarchive.Store.{StateFile, StateError, new_processor, read_records}
use wow_markets.Scanupload.Record.{
  Status, pending, uploading, uploaded, failed, other, Record, Uploads,
}
use wow_markets.Scanupload.Outside.{Time, second, Rfc3339}
use wow_markets.Scanupload.Store as Stored
use wow_markets.Scanupload.Store.{resolve_data_dir, stored_records}
use wow_markets.Watchagent.Archiving.{by_checksum}

abbrev pub recent_upload_limit : ℕ
recent_upload_limit = 6

pub record ScanSummary : Type 0 where
  pub attempts : ℕ
  pub auction_house : Text
  pub captured_at : Text
  pub checksum : Text
  pub error : Text
  pub http_status : ℕ
  pub imported_at : Text
  pub item_count : ℤ
  pub last_attempt_at : Text
  pub market : Text
  pub next_attempt_at : Text
  pub observation_rows : ℤ
  pub price_levels : ℤ
  pub price_snapshots : ℤ
  pub queued_at : Text
  pub realm : Text
  pub region : Text
  pub retryable : Bool
  pub row_count : ℤ
  pub scan_id : ℤ
  pub scanner_name : Text
  pub scanner_realm : Text
  pub server_status : Text
  pub status : Status
  pub submission_id : Text
  pub uploaded_at : Text

pub record ActivityOverview : Type 0 where
  pub archived_count : ℕ
  pub queued_count : ℕ
  pub uploading_count : ℕ
  pub uploaded_count : ℕ
  pub failed_count : ℕ
  pub last_archive_at : Text
  pub last_upload_at : Text
  pub current_upload : Option ScanSummary
  pub last_detected : Option ScanSummary
  pub last_upload : Option ScanSummary
  pub upload_failure : Option ScanSummary
  pub recent_uploads : List ScanSummary

-- The seconds from the year 1 to 1970.
abbrev pub unix_epoch : ℕ
unix_epoch = 62_135_596_800

module _ (time : Rfc3339) where
  unfoldable pub unix_time : ℤ → Text
  unix_time (negsuc n) = []
  unix_time (pos n) = if n == 0 then [] else time.format ((n + unix_epoch) * second)

  abbrev pub time_or_zero : Option Time → Time
  time_or_zero none = 0
  time_or_zero (some t) = t

  abbrev pub parse_time : Text → Time
  parse_time value = time_or_zero (time.parse value)

  -- The loop over the three texts: the first whose time is not zero.
  unfoldable pub upload_activity_time : Record → Time
  upload_activity_time r =
      if not (parse_time r.uploaded_at == 0)
      then parse_time r.uploaded_at
      else if not (parse_time r.last_attempt_at == 0)
      then parse_time r.last_attempt_at
      else parse_time r.queued_at

  unfoldable pub summary_from_archive : ArchiveRecord → ScanSummary
  summary_from_archive r = record {
    attempts = 0;
    auction_house = r.auction_house;
    captured_at = unix_time r.captured_at;
    checksum = r.checksum;
    error = [];
    http_status = 0;
    imported_at = r.imported_at;
    item_count = r.item_count;
    last_attempt_at = [];
    market = r.market;
    next_attempt_at = [];
    observation_rows = pos 0;
    price_levels = pos 0;
    price_snapshots = pos 0;
    queued_at = [];
    realm = r.realm;
    region = r.region;
    retryable = false;
    row_count = r.row_count;
    scan_id = pos 0;
    scanner_name = r.scanner_name;
    scanner_realm = r.scanner_realm;
    server_status = [];
    status = other (codes "detected");
    submission_id = [];
    uploaded_at = [];
  }

  -- The upload's own metadata.
  abbrev pub own_summary : Record → ScanSummary
  own_summary r = record {
    attempts = r.attempts;
    auction_house = r.auction_house;
    captured_at = unix_time r.captured_at;
    checksum = r.checksum;
    error = r.last_error;
    http_status = r.http_status;
    imported_at = r.imported_at;
    item_count = r.archive_items;
    last_attempt_at = r.last_attempt_at;
    market = r.market;
    next_attempt_at = r.next_attempt_at;
    observation_rows = r.observation_rows;
    price_levels = r.price_levels;
    price_snapshots = r.price_snapshots;
    queued_at = r.queued_at;
    realm = r.realm;
    region = r.region;
    retryable = r.retryable;
    row_count = r.archive_rows;
    scan_id = r.scan_id;
    scanner_name = r.scanner_name;
    scanner_realm = r.scanner_realm;
    server_status = r.server_status;
    status = r.status;
    submission_id = r.submission_id;
    uploaded_at = r.uploaded_at;
  }

  -- The archive's metadata where there is a record.
  abbrev pub base_summary : Record → Option ArchiveRecord → ScanSummary
  base_summary r none = own_summary r
  base_summary r (some a) = record (own_summary r) {
    auction_house = a.auction_house;
    captured_at = unix_time a.captured_at;
    imported_at = a.imported_at;
    item_count = a.item_count;
    market = a.market;
    realm = a.realm;
    region = a.region;
    row_count = a.row_count;
    scanner_name = a.scanner_name;
    scanner_realm = a.scanner_realm;
  }

  abbrev pub count_or : ℤ → ℤ → ℤ
  count_or count other_count =
      if eq_ℤ count (pos 0) && ltb_ℤ (pos 0) other_count then other_count else count

  unfoldable pub summary_from_upload : Record → Option ArchiveRecord → ScanSummary
  summary_from_upload r a =
      let summary = base_summary r a in
      record summary {
        row_count = count_or summary.row_count r.observation_rows;
        item_count = count_or summary.item_count r.item_count;
      }
