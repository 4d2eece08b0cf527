-- ===== src/Watchagent/Uploading.antt =====
-- `processUploads` of `agent.go`: the events that it emits, in their order, its result, and the
-- uploads that it leaves.
use wow_markets.Base.{
  Bool, true, false, List, [], ◌∷◌, ◌++◌, Option, none, some, if◌then◌else◌, Result, ok, err, wrap,
  ◌>>=◌,
}
use wow_markets.Base.Int.{pos}
use wow_markets.Base.Maps.{insert, text_key}
use wow_markets.Base.Strings.{Text}
use wow_markets.Scanarchive.Store.{StateFile, as_read, written}
use wow_markets.Scanupload.Record.{Status, uploaded, Record, Uploads}
use wow_markets.Scanupload.Outside.{Time, Library}
use wow_markets.Scanupload.Store.{load_uploads}
use wow_markets.Scanupload.Due.{due_checksums, next_due_at}
use wow_markets.Scanupload.Process.{World, Agent, record_at, recover, begun, attempted, process_due}
use wow_markets.Watchagent as W
use wow_markets.Watchagent.{
  WatchError, not_inspected, not_processed, archive_unread, uploads_unread, not_queued,
  not_uploaded, Kind, Message, watcher_started, watcher_stopped, watcher_recovered, archived_rows,
  queued_for_upload, uploading_scan, uploaded_scan, last_error, Event, plain_event, error_event,
  value_or_unknown, archive_event, upload_event, Signature, same_signature, Watcher,
}

-- What `processUploads` meets. Each reading of the state's file can fail.
pub record UploadWorld : Type 0 where
  pub uploads_fault : Option Text
  pub now : Time
  pub recover_write : Option Text
  pub worlds : Text → World
  pub next_fault : Option Text
  pub next_now : Time
  pub time : Time

-- The events, the time of the next upload or the error, and the uploads.
pub record Uploading : Type 0 where
  pub events : List Event
  pub result : Result WatchError Time
  pub uploads_file : StateFile Uploads

module _ (lib : Library) (agent : Agent) where
  -- The records that `progress` sees, in front of their requests.
  unfoldable pub progressed : (Text → World) → Uploads → List Text → List Record
  progressed worlds stored [] = []
  progressed worlds stored (k ∷ ks) =
      let world = worlds k in
      let r = record_at k stored in
      let sending = insert k (begun lib agent world r) stored in
      let rest = progressed worlds (insert k (attempted lib agent world r) sending) ks in
      elim world.cancelled [
        | some e ↦ []
        | none ↦ elim world.first_write [
          | some e ↦ []
          | none ↦ elim world.second_write [
            | some e ↦ begun lib agent world r ∷ []
            | none ↦ begun lib agent world r ∷ rest
          ]
        ]
      ]

  abbrev pub progressed_from : Time → (Text → World) → Uploads → List Record
  progressed_from now worlds stored = progressed worlds stored (due_checksums lib.time stored now)

  unfoldable pub all_progressed : UploadWorld → Uploads → List Record
  all_progressed world stored =
      let (uploads, recovered) = recover lib.time world.now stored in
      if recovered
      then elim world.recover_write [
        | some e ↦ []
        | none ↦ progressed_from world.now world.worlds uploads
      ]
      else progressed_from world.now world.worlds uploads

  unfoldable pub uploading_events : Time → List Record → List Event
  uploading_events time [] = []
  uploading_events time (r ∷ rs) =
      (record (upload_event Kind.uploading r time) { message = uploading_scan })
      ∷ uploading_events time rs

  abbrev pub is_uploaded : Status → Bool
  is_uploaded uploaded = true
  is_uploaded _ = false

  abbrev pub result_event : Time → Record → Event
  result_event time r =
      if is_uploaded r.status
      then record (upload_event Kind.upload r time) {
        message = uploaded_scan r.scan_id r.server_status;
      }
      else record (upload_event Kind.upload_error r time) {
        message = W.upload_failed;
        error = last_error r.last_error;
      }

  unfoldable pub result_events : Time → List Record → List Event
  result_events time [] = []
  result_events time (r ∷ rs) = result_event time r ∷ result_events time rs

  -- `NextDueAt`, which reads the state again.
  abbrev pub next_upload : UploadWorld → StateFile Uploads → Result WatchError Time
  next_upload world file = do
    stored ← wrap uploads_unread (load_uploads (as_read world.next_fault file))
    ok (next_due_at lib.time world.next_now stored)

  unfoldable pub process_uploads : UploadWorld → StateFile Uploads → Uploading
  process_uploads world file = elim (load_uploads (as_read world.uploads_fault file)) [
    | err e ↦ record { events = []; result = err (uploads_unread e); uploads_file = file }
    | ok stored ↦
        let done =
          process_due lib agent (pos 0) world.now world.recover_write world.worlds stored in
        let sending = uploading_events world.time (all_progressed world stored) in
        elim done.error [
          | some e ↦ record {
            events = sending;
            result = err (not_uploaded e);
            uploads_file = written done.stored;
          }
          | none ↦ record {
            events = sending ++ result_events world.time done.results;
            result = next_upload world (written done.stored);
            uploads_file = written done.stored;
          }
        ]
  ]
