-- ===== src/Watchagent/Archiving.antt =====
-- `processArchive` of `agent.go`: the events that it emits, in their order, its result, and what it
-- leaves of the watcher.
use wow_markets.Base.{
  Bool, false, not, ◌&&◌, ◌||◌, List, [], ◌∷◌, ◌++◌, Option, none, some, if◌then◌else◌, Result, ok,
  err, ◌>>=◌, wrap,
}
use wow_markets.Base.Maps.{lookup, insert, text_key}
use wow_markets.Base.Strings.{Text}
use wow_markets.Luasv.Token.{Unicode}
use wow_markets.Scanarchive.Record.{ArchiveRecord}
use wow_markets.Scanarchive.Process.{Archive, Archiver, ScanResult}
use wow_markets.Scanarchive.Store.{StateFile, as_read, read_records, process_source, written}
use wow_markets.Scanupload.Record.{pending, Uploads, QueueResult}
use wow_markets.Scanupload.Outside.{Time, Library}
use wow_markets.Scanupload.Store.{load_uploads}
use wow_markets.Scanupload.Queue.{queue}
use wow_markets.Watchagent as W
use wow_markets.Watchagent.{
  WatchError, not_inspected, not_processed, archive_unread, uploads_unread, not_queued,
  not_uploaded, Kind, Message, watcher_started, watcher_stopped, watcher_recovered, archived_rows,
  queued_for_upload, uploading_scan, uploaded_scan, last_error, Event, plain_event, error_event,
  value_or_unknown, archive_event, upload_event, Signature, same_signature, Watcher,
}

-- What `processArchive` meets: `os.Stat`, the two readings of the file, the writes, and the
-- times. Each reading of a state's file, in `ProcessFile`, `Records` and `Queue`, can fail.

pub record ArchiveWorld : Type 0 where
  pub stat : Result Text Signature
  pub source : Result Text Text
  pub first : Result Text Text
  pub second : Result Text Text
  pub archiver : Archiver
  pub archive_fault : Option Text
  pub records_fault : Option Text
  pub uploads_fault : Option Text
  pub write_archive : Archive → Result Text (Unit {0})
  pub write_uploads : Uploads → Result Text (Unit {0})
  pub queued_at : Text
  pub time : Time

-- The events of the loop over the results.
unfoldable pub archive_events : Time → List ScanResult → List Event
archive_events time [] = []
archive_events time (result ∷ results) =
    let r = result.record_of in
    let rest = archive_events time results in
    if result.is_new
    then (record (archive_event Kind.archive r time) {
      message =
          archived_rows r.row_count (value_or_unknown r.scanner_name)
            (value_or_unknown r.scanner_realm);
    })
      ∷ rest
    else rest

unfoldable pub result_records : List ScanResult → List ArchiveRecord
result_records [] = []
result_records (result ∷ results) = result.record_of ∷ result_records results

-- `recordsByChecksum`, behind a loop over records.
unfoldable pub by_checksum :
    List (Text × ArchiveRecord) → List ArchiveRecord → List (Text × ArchiveRecord)
by_checksum m [] = m
by_checksum m (r ∷ rs) = by_checksum (insert r.checksum r m) rs

-- The record at a checksum, the zero value where it is missing, in an event.
abbrev pub queue_event_of : Option ArchiveRecord → Time → Event
queue_event_of (some r) time = archive_event Kind.queue r time
queue_event_of none time = plain_event Kind.queue W.no_message time

abbrev pub queue_event : Option ArchiveRecord → Time → Event
queue_event found time = record (queue_event_of found time) {
  message = queued_for_upload;
  upload_status = pending;
}

unfoldable pub queue_events : Time → List (Text × ArchiveRecord) → List QueueResult → List Event
queue_events time by [] = []
queue_events time by (result ∷ results) =
    let rest = queue_events time by results in
    if result.queued then queue_event (lookup result.checksum by) time ∷ rest else rest

unfoldable pub any_queued : List QueueResult → Bool
any_queued [] = false
any_queued (result ∷ results) = result.queued || any_queued results

-- The events, whether something is queued or the error, and the watcher.
pub record Processed : Type 0 where
  pub events : List Event
  pub result : Result WatchError Bool
  pub watcher : Watcher

abbrev pub unprocessed : WatchError → Watcher → Processed
unprocessed e w = record { events = []; result = err e; watcher = w }

module _ (u : Unicode) (lib : Library) (variable_name : Text) where
  abbrev pub queue_stored :
      ArchiveWorld
      → List ArchiveRecord
      → StateFile Uploads
      → Result WatchError (List QueueResult × Uploads)
  queue_stored world records file = do
    stored ← wrap uploads_unread (load_uploads (as_read world.uploads_fault file))
    wrap not_queued (queue lib world.queued_at world.write_uploads stored records)

  -- Behind the records.
  unfoldable pub queue_records :
      ArchiveWorld
      → List (Text × ArchiveRecord)
      → List ArchiveRecord
      → List Event
      → Watcher
      → Processed
  queue_records world by records events w = elim (queue_stored world records w.uploads_file) [
    | err e ↦ record { events = events; result = err e; watcher = w }
    | ok (queued, uploads) ↦ record {
      events = events ++ queue_events world.time by queued;
      result = ok (any_queued queued);
      watcher = record w { uploads_file = written uploads };
    }
  ]

  -- Behind `ProcessFile`: a forced run queues every record of the archive.
  unfoldable pub queue_results : Bool → ArchiveWorld → List ScanResult → Watcher → Processed
  queue_results forced world results w =
      let records = result_records results in
      let by = by_checksum [] records in
      let events = archive_events world.time results in
      if forced
      then elim (read_records (as_read world.records_fault w.archive_file)) [
        | err e ↦ record { events = events; result = err (archive_unread e); watcher = w }
        | ok all ↦ queue_records world (by_checksum by all) all events w
      ]
      else queue_records world by records events w

  unfoldable pub process_changed : Bool → ArchiveWorld → Signature → Watcher → Processed
  process_changed forced world signature w =
      elim (process_source u world.archiver world.source world.first world.second variable_name
        world.write_archive (as_read world.archive_fault w.archive_file)) [
          | err e ↦ unprocessed (not_processed e) w
          | ok (results, after) ↦
              queue_results forced world results
                (record w { last_signature = signature; archive_file = written after })
        ]

  unfoldable pub process_archive : Bool → ArchiveWorld → Watcher → Processed
  process_archive forced world w = elim world.stat [
    | err e ↦ unprocessed (not_inspected e) w
    | ok signature ↦
        if not forced && same_signature signature w.last_signature
        then record { events = []; result = ok false; watcher = w }
        else process_changed forced world signature w
  ]
