-- ===== src/Scanupload/Record.antt =====
-- The types of `upload.go`. `attempts` and `http_status` are never negative.
use wow_markets.Base.{ℕ, Bool, List}
use wow_markets.Base.Int.{ℤ}
use wow_markets.Base.Strings.{Text}

pub data Status : Type 0 where
  pending uploading uploaded failed : Status
  -- Any other text, such as the zero value's, which is empty.
  other : Text → Status

pub record Record : Type 0 where
  pub checksum : Text
  pub archive_path : Text
  pub captured_at : ℤ
  pub imported_at : Text
  pub region : Text
  pub realm : Text
  pub market : Text
  pub faction : Text
  pub auction_house : Text
  pub scanner_name : Text
  pub scanner_realm : Text
  pub archive_rows : ℤ
  pub archive_items : ℤ
  pub status : Status
  pub attempts : ℕ
  pub queued_at : Text
  pub last_attempt_at : Text
  pub next_attempt_at : Text
  pub uploaded_at : Text
  pub last_error : Text
  pub retryable : Bool
  pub http_status : ℕ
  pub server_status : Text
  pub scan_id : ℤ
  pub submission_id : Text
  pub observation_rows : ℤ
  pub item_count : ℤ
  pub price_levels : ℤ
  pub price_snapshots : ℤ

-- The `uploads` of the persisted state, by checksum.
abbrev pub Uploads : Type 0
Uploads = List (Text × Record)

pub record QueueResult : Type 0 where
  pub checksum : Text
  pub queued : Bool
  pub skipped : Text

pub record UploadResponse : Type 0 where
  pub checksum : Text
  pub scan_id : ℤ
  pub submission_id : Text
  pub status : Text
  pub rows : ℤ
  pub items : ℤ
  pub price_levels : ℤ
  pub price_snapshots : ℤ

pub record ProblemResponse : Type 0 where
  pub error : Text
  pub detail : Text
