-- ===== src/Watchagent/Cycle.antt =====
-- `runCycle` and the loop of `Run` of `agent.go`.
use wow_markets.Base.{
  Bool, true, false, not, ◌&&◌, ◌||◌, List, [], ◌∷◌, ◌++◌, Option, none, some, ◌==◌, leb,
  if◌then◌else◌, Result, ok, err, codes, str_eq,
}
use wow_markets.Base.Maps.{text_key}
use wow_markets.Base.Strings.{Text}
use wow_markets.Luasv.Token.{Unicode}
use wow_markets.Scanupload.Outside.{Time, Library}
use wow_markets.Scanupload.Process.{Agent}
use wow_markets.Watchagent.{
  WatchError, not_uploaded, Kind, watcher_started, watcher_stopped, watcher_recovered, Event,
  plain_event, error_event, Watcher,
}
use wow_markets.Watchagent.Archiving.{ArchiveWorld, process_archive}
use wow_markets.Watchagent.Uploading.{UploadWorld, process_uploads}

pub record CycleWorld : Type 0 where
  pub archive : ArchiveWorld
  -- `time.Now()` in the test of the schedule.
  pub checked_at : Time
  pub upload : UploadWorld
  pub time : Time

-- `errors.Is` of `context.Canceled`, whose text no other error of an upload has.
abbrev pub is_cancelled : WatchError → Bool
is_cancelled (not_uploaded e) = str_eq e (codes "context canceled")
is_cancelled _ = false

-- The test in front of `processUploads`.
abbrev pub uploads_due : Time → Bool → Watcher → Bool
uploads_due now queued w =
    not w.upload_schedule_known
    || queued
    || (not (w.next_upload_at == 0) && leb w.next_upload_at now)

abbrev pub result_or_zero : Result WatchError Time → Time
result_or_zero (ok t) = t
result_or_zero (err e) = 0

abbrev pub is_ok : Result WatchError Time → Bool
is_ok (ok t) = true
is_ok (err e) = false

abbrev pub failure_of {ℓ} : {A : Type ℓ} → Result WatchError A → Option WatchError
failure_of (ok a) = none
failure_of (err e) = some e

-- An error that is not that of a cancelled context is emitted, and makes the cycle fail.
abbrev pub report : Kind → Time → Option WatchError → List Event × Bool
report kind time none = ([], false)
report kind time (some e) =
    if is_cancelled e then ([], false) else (error_event kind e time ∷ [], true)

abbrev pub recovery : Bool → Bool → Time → List Event
recovery unhealthy cycle_failed time =
    if unhealthy && not cycle_failed
    then plain_event Kind.recovered watcher_recovered time ∷ []
    else []

abbrev pub queued_of : Result WatchError Bool → Bool
queued_of (ok queued) = queued
queued_of (err e) = false

module _ (u : Unicode) (lib : Library) (agent : Agent) (variable_name : Text) where
  -- The events, the error, and the watcher behind the uploads.
  abbrev pub upload_step : Bool → CycleWorld → Watcher → List Event × Option WatchError × Watcher
  upload_step queued world w =
      if uploads_due world.checked_at queued w
      then (let done = process_uploads lib agent world.upload w.uploads_file in
          (
            done.events,
            failure_of done.result,
            record w {
              next_upload_at = result_or_zero done.result;
              upload_schedule_known = is_ok done.result;
              uploads_file = done.uploads_file;
            },
          ))
      else ([], none, w)

  unfoldable pub run_cycle : Bool → CycleWorld → Watcher → List Event × Watcher
  run_cycle forced world w =
      let archived = process_archive u lib variable_name forced world.archive w in
      let (archive_report, archive_failed) =
        report Kind.archive_error world.time (failure_of archived.result) in
      let (uploads, upload_err, after) =
        upload_step (queued_of archived.result) world archived.watcher in
      let (upload_report, upload_failed) = report Kind.upload_error world.time upload_err in
      let cycle_failed = archive_failed || upload_failed in
      (
        archived.events
            ++ archive_report
            ++ uploads
            ++ upload_report
            ++ recovery w.unhealthy cycle_failed world.time,
        record after { unhealthy = cycle_failed },
      )

  -- The first cycle is forced; each tick runs another.
  unfoldable pub run_ticks : List CycleWorld → Watcher → List Event × Watcher
  run_ticks [] w = ([], w)
  run_ticks (world ∷ worlds) w =
      let (events, next) = run_cycle false world w in
      let (more, last) = run_ticks worlds next in (events ++ more, last)

  -- `Run` from the two states on, up to the end of its context.
  unfoldable pub run : Time → CycleWorld → List CycleWorld → Time → Watcher → List Event × Watcher
  run started_at first worlds stopped_at w =
      let (events, next) = run_cycle true first w in
      let (more, last) = run_ticks worlds next in
      (
        plain_event Kind.status watcher_started started_at ∷ events
            ++ more
            ++ plain_event Kind.status watcher_stopped stopped_at ∷ [],
        last,
      )
