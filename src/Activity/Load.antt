-- ===== src/Activity/Load.antt =====
-- `loadActivityOverview` of activity.go.
use wow_markets.Base.{
  ℕ, ◌+◌, Bool, true, false, List, [], ◌∷◌, ◌++◌, Option, none, some, ltb, length, if◌then◌else◌,
  Result, ok, ◌>>=◌, wrap,
}
use wow_markets.Base.Maps.{lookup, text_key}
use wow_markets.Base.Strings.{Text}
use wow_markets.Scanarchive.Record.{ArchiveRecord}
use wow_markets.Scanarchive.Process.{Archive}
use wow_markets.Scanarchive.Store as Store
use wow_markets.Scanarchive.Store.{StateFile, StateError, new_processor, read_records}
use wow_markets.Scanupload.Record.{Status, pending, uploading, uploaded, failed, Record, Uploads}
use wow_markets.Scanupload.Outside.{Time, Rfc3339}
use wow_markets.Scanupload.Store as Stored
use wow_markets.Scanupload.Store.{resolve_data_dir, stored_records}
use wow_markets.Watchagent.Archiving.{by_checksum}
use wow_markets.Activity.{
  recent_upload_limit, ScanSummary, ActivityOverview, parse_time, upload_activity_time,
  summary_from_archive, summary_from_upload,
}

-- A sort by insertion under the time of an element, the latest first.
module _ {ℓ} {A : Type ℓ} (at : A → Time) where
  unfoldable pub insert_latest : A → List A → List A
  insert_latest a [] = a ∷ []
  insert_latest a (b ∷ bs) =
      let rest = insert_latest a bs in if ltb (at a) (at b) then b ∷ rest else a ∷ b ∷ bs

  unfoldable pub sort_latest : List A → List A
  sort_latest [] = []
  sort_latest (a ∷ more) = insert_latest a (sort_latest more)

-- `upload.Status == …`
abbrev pub is_pending : Status → Bool
is_pending pending = true
is_pending _ = false

abbrev pub is_uploading : Status → Bool
is_uploading uploading = true
is_uploading _ = false

abbrev pub is_uploaded : Status → Bool
is_uploaded uploaded = true
is_uploaded _ = false

abbrev pub is_failed : Status → Bool
is_failed failed = true
is_failed _ = false

abbrev pub count_if : Bool → ℕ → ℕ
count_if true n = n + 1
count_if false n = n

-- `if … && overview.… == nil { overview.… = &summary }`
abbrev pub first_if : Bool → ScanSummary → Option ScanSummary → Option ScanSummary
first_if true summary none = some summary
first_if _ summary kept = kept

abbrev pub first_time : Bool → ScanSummary → Option ScanSummary → Text → Text
first_time true summary none kept = summary.uploaded_at
first_time _ summary _ kept = kept

-- A round of the loop over the uploads.
unfoldable pub add_summary : Status → ScanSummary → ActivityOverview → ActivityOverview
add_summary status summary o = record o {
  queued_count = count_if (is_pending status) o.queued_count;
  uploading_count = count_if (is_uploading status) o.uploading_count;
  uploaded_count = count_if (is_uploaded status) o.uploaded_count;
  failed_count = count_if (is_failed status) o.failed_count;
  last_upload_at = first_time (is_uploaded status) summary o.last_upload o.last_upload_at;
  current_upload = first_if (is_uploading status) summary o.current_upload;
  last_upload = first_if (is_uploaded status) summary o.last_upload;
  upload_failure = first_if (is_failed status) summary o.upload_failure;
  recent_uploads =
      if ltb (length o.recent_uploads) recent_upload_limit
      then o.recent_uploads ++ summary ∷ []
      else o.recent_uploads;
}

abbrev pub no_activity : ActivityOverview
no_activity = record {
  archived_count = 0;
  queued_count = 0;
  uploading_count = 0;
  uploaded_count = 0;
  failed_count = 0;
  last_archive_at = [];
  last_upload_at = [];
  current_upload = none;
  last_detected = none;
  last_upload = none;
  upload_failure = none;
  recent_uploads = [];
}

pub data ActivityError : Type 0 where
  no_processor : Store.NewError → ActivityError
  no_data_dir : Stored.NewError → ActivityError
  unread : StateError → ActivityError

module _ (time : Rfc3339) where
  abbrev pub imported_time : ArchiveRecord → Time
  imported_time r = parse_time time r.imported_at

  abbrev pub with_detected : List ArchiveRecord → ActivityOverview → ActivityOverview
  with_detected [] o = o
  with_detected (r ∷ rs) o = record o {
    last_detected = some (summary_from_archive time r);
    last_archive_at = r.imported_at;
  }

  abbrev pub summary_of : List ArchiveRecord → Record → ScanSummary
  summary_of archives r = summary_from_upload time r (lookup r.checksum (by_checksum [] archives))

  unfoldable pub add_uploads :
      List ArchiveRecord → List Record → ActivityOverview → ActivityOverview
  add_uploads archives [] o = o
  add_uploads archives (r ∷ rs) o =
      add_uploads archives rs (add_summary r.status (summary_of archives r) o)

  unfoldable pub overview : List ArchiveRecord → List Record → ActivityOverview
  overview archives uploads =
      add_uploads archives (sort_latest (upload_activity_time time) uploads) (
        with_detected (sort_latest imported_time archives)
          (record no_activity { archived_count = length archives }))

  -- `loadActivityOverview` on `filepath.Abs` and the two states.
  unfoldable pub load_activity_overview :
      (Text → Result Text Text)
      → Text
      → StateFile Archive
      → StateFile Uploads
      → Result ActivityError ActivityOverview
  load_activity_overview absolute data_dir archive_file uploads_file = do
    _ ← wrap no_processor (new_processor absolute data_dir)
    archives ← wrap unread (read_records archive_file)
    _ ← wrap no_data_dir (resolve_data_dir absolute data_dir)
    uploads ← wrap unread (stored_records time uploads_file)
    ok (overview archives uploads)
