-- ===== src/Watchagent.antt =====
-- companion/internal/watchagent/agent.go: the types, `archiveEvent`, `uploadEvent` and `emitError`.
-- A message is a value that has what its text names.
pub mod Archiving
pub mod Uploading
pub mod Cycle
pub mod Queued
pub mod Unqueued
pub mod Quiet
pub mod Recovery
use wow_markets.Base.{
  ℕ, Bool, true, false, List, [], Option, some, none, if◌then◌else◌, codes, is_empty, ◌&&◌,
}
use wow_markets.Base.Int.{ℤ, pos, eq_ℤ}
use wow_markets.Base.Strings.{Text}
use wow_markets.Scanarchive.Record.{ArchiveRecord}
use wow_markets.Scanarchive.Store.{StateFile, StateError, ProcessError}
use wow_markets.Scanarchive.Process.{Archive}
use wow_markets.Scanupload.Record.{Status, other, Record, Uploads}
use wow_markets.Scanupload.Outside.{Time}

-- What an error of a cycle is made of.
pub data WatchError : Type 0 where
  not_inspected : Text → WatchError
  not_processed : ProcessError → WatchError
  archive_unread uploads_unread : StateError → WatchError
  not_queued : Text → WatchError
  not_uploaded : Text → WatchError

pub data Kind : Type 0 where
  status archive queue uploading upload upload_error archive_error recovered : Kind

pub data Message : Type 0 where
  watcher_started watcher_stopped watcher_recovered : Message
  archived_rows : ℤ → Text → Text → Message
  queued_for_upload uploading_scan upload_failed : Message
  uploaded_scan : ℤ → Text → Message
  error_text : WatchError → Message
  no_message : Message

-- The `Error` of an event: empty, that of a record, or that of a cycle.
pub data Problem : Type 0 where
  no_problem : Problem
  last_error : Text → Problem
  failure : WatchError → Problem

pub record Event : Type 0 where
  pub kind : Kind
  pub message : Message
  pub checksum : Text
  pub error : Problem
  pub time : Time
  pub upload_status : Status
  pub captured_at : ℤ
  pub imported_at : Text
  pub region : Text
  pub realm : Text
  pub market : Text
  pub faction : Text
  pub auction_house : Text
  pub scanner_name : Text
  pub scanner_realm : Text
  pub row_count : ℤ
  pub item_count : ℤ
  pub attempts : ℕ
  pub retryable : Bool
  pub http_status : ℕ
  pub queued_at : Text
  pub last_attempt_at : Text
  pub uploaded_at : Text
  pub server_status : Text
  pub scan_id : ℤ
  pub submission_id : Text
  pub observation_rows : ℤ
  pub price_levels : ℤ
  pub price_snapshots : ℤ

-- An event with its kind, message and time only.
abbrev pub plain_event : Kind → Message → Time → Event
plain_event kind message time = record {
  kind = kind;
  message = message;
  checksum = [];
  error = no_problem;
  time = time;
  upload_status = other [];
  captured_at = pos 0;
  imported_at = [];
  region = [];
  realm = [];
  market = [];
  faction = [];
  auction_house = [];
  scanner_name = [];
  scanner_realm = [];
  row_count = pos 0;
  item_count = pos 0;
  attempts = 0;
  retryable = false;
  http_status = 0;
  queued_at = [];
  last_attempt_at = [];
  uploaded_at = [];
  server_status = [];
  scan_id = pos 0;
  submission_id = [];
  observation_rows = pos 0;
  price_levels = pos 0;
  price_snapshots = pos 0;
}

abbrev pub error_event : Kind → WatchError → Time → Event
error_event kind e time = record (plain_event kind (error_text e) time) { error = failure e }

abbrev pub value_or_unknown : Text → Text
value_or_unknown value = if is_empty value then codes "unknown" else value

unfoldable pub archive_event : Kind → ArchiveRecord → Time → Event
archive_event kind r time = record (plain_event kind no_message time) {
  checksum = r.checksum;
  captured_at = r.captured_at;
  imported_at = r.imported_at;
  region = r.region;
  realm = r.realm;
  market = r.market;
  faction = r.faction;
  auction_house = r.auction_house;
  scanner_name = r.scanner_name;
  scanner_realm = r.scanner_realm;
  row_count = r.row_count;
  item_count = r.item_count;
}

unfoldable pub upload_event : Kind → Record → Time → Event
upload_event kind r time = record (plain_event kind no_message time) {
  checksum = r.checksum;
  upload_status = r.status;
  captured_at = r.captured_at;
  imported_at = r.imported_at;
  region = r.region;
  realm = r.realm;
  market = r.market;
  faction = r.faction;
  auction_house = r.auction_house;
  scanner_name = r.scanner_name;
  scanner_realm = r.scanner_realm;
  row_count = r.archive_rows;
  item_count = if eq_ℤ r.archive_items (pos 0) then r.item_count else r.archive_items;
  attempts = r.attempts;
  retryable = r.retryable;
  http_status = r.http_status;
  queued_at = r.queued_at;
  last_attempt_at = r.last_attempt_at;
  uploaded_at = r.uploaded_at;
  server_status = r.server_status;
  scan_id = r.scan_id;
  submission_id = r.submission_id;
  observation_rows = r.observation_rows;
  price_levels = r.price_levels;
  price_snapshots = r.price_snapshots;
}

-- `fileSignature`
pub record Signature : Type 0 where
  pub size : ℤ
  pub modified_ns : ℤ

abbrev pub same_signature : Signature → Signature → Bool
same_signature s t = eq_ℤ s.size t.size && eq_ℤ s.modified_ns t.modified_ns

-- The variables of `Run` that its cycles share, and the files of the archive and the uploads.
pub record Watcher : Type 0 where
  pub last_signature : Signature
  pub unhealthy : Bool
  pub next_upload_at : Time
  pub upload_schedule_known : Bool
  pub archive_file : StateFile Archive
  pub uploads_file : StateFile Uploads

-- The variables at the start of `Run`.
unfoldable pub new_watcher : StateFile Archive → StateFile Uploads → Watcher
new_watcher archive_file uploads_file = record {
  last_signature = record { size = pos 0; modified_ns = pos 0 };
  unhealthy = false;
  next_upload_at = 0;
  upload_schedule_known = false;
  archive_file = archive_file;
  uploads_file = uploads_file;
}
