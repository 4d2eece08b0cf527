-- ===== src/Tests/Upload.antt =====
-- Runs of the upload queue, and witnesses.
use wow_markets.Base.{
  ◌*◌, ◌-◌, ◌/◌, ◌^◌, ◌≡◌, ◌≢◌, ◌↔◌, inl, refl, min, true, false, List, [], ◌∷◌, Option, some, none,
  Result, ok, codes, arith,
}
use wow_markets.Base.Int.{pos}
use wow_markets.Base.Maps.{lookup, text_key, IsMap}
use wow_markets.Base.Strings.{Text}
use wow_markets.Scanarchive.Record.{ArchiveRecord}
use wow_markets.Scanupload.Record.{
  pending, uploading, uploaded, failed, Record, Uploads, QueueResult,
}
use wow_markets.Scanupload.Outside.{Time, second, Rfc3339, Decoded, malformed, value, Library}
use wow_markets.Scanupload.Backoff.{backoff, backoff-min}
use wow_markets.Scanupload.Upload.{
  Exchange, open_failed, send_failed, read_failed, responded, empty_response, upload,
}
use wow_markets.Scanupload.Upload.Accepted.{
  accepted, Accepts, Retries, upload_iff, upload-retryable_iff,
}
use wow_markets.Scanupload.Queue.{new_record, queue}
use wow_markets.Scanupload.Queue.Correct.{Queues, queue-Queues}
use wow_markets.Scanupload.Due.{is_due, due_checksums, next_due_at, reset_failed_authorization}
use mathlib.Core.List.{Perm}
use wow_markets.Scanupload.Upload.{api_error}
use wow_markets.Scanupload.Upload.{print_nat}
use wow_markets.Scanupload.Due.{refused_with}
use wow_markets.Scanupload.Due.Refused.{refused_with-api_error}
use wow_markets.Scanupload.Records.{values, records_from_state}
use wow_markets.Scanupload.Records.Sorted.{LatestFirst, records_from_state-LatestFirst}
use wow_markets.Scanupload.Due.Reset.{ResetAt, reset_failed_authorization-ResetAt}
use wow_markets.Scanupload.Process.{World, Agent, Ended, recover, attempted, process_due}
use wow_markets.Scanupload.Process.Recovered.{recovered_record}
use wow_markets.Scanupload.Process.Untouched.{process_due-Settled}
use wow_markets.Scanupload.Process.Finished.{NoneUploading, EndsAs, process_due-EndsAs}
use wow_markets.Scanupload.Process.Attempted.{process_due-attempted}
use wow_markets.Scanupload.Process.NextDue.{Reached, next_due_at_iff}
use wow_markets.Base.Maps as Maps
use wow_markets.Base.Strings as Strings
use wow_markets.Scanupload.Backoff as Backoff
use wow_markets.Scanupload.Due as Due
use wow_markets.Scanupload.Process as Process
use wow_markets.Scanupload.Queue as Queue
use wow_markets.Scanupload.Upload as Upload

-- A time's text is its number of seconds, as one rune.
abbrev parse_seconds : Text → Option Time
parse_seconds (n ∷ []) = some (n * second)
parse_seconds _ = none

abbrev pub seconds : Rfc3339
seconds = record {
  format = λ t. t / second ∷ [];
  parse = parse_seconds;
  parse_format = λ t. refl;
  parse_empty = refl;
}

-- A body is a checksum that is accepted.
abbrev decode_body : Text → Decoded
decode_body [] = malformed (codes "EOF")
decode_body (c ∷ cs) =
    value (record empty_response { checksum = c ∷ cs; status = codes "accepted" })

abbrev pub library : Library
library = record {
  time = seconds;
  decode_response = decode_body;
  decode_problem = λ _. none;
  quote = λ t. t;
  absolute = λ t. ok t;
}

abbrev pub agent : Agent
agent = record { base_backoff = 5 * second; max_backoff = 900 * second }

abbrev pub waiting : Record
waiting = new_record (codes "a") (codes "/a.gz") (1 ∷ [])

abbrev pub done : Record
done = record (new_record (codes "b") (codes "/b.gz") (1 ∷ [])) { status = uploaded }

abbrev pub stopped : Record
stopped = record (new_record (codes "c") (codes "/c.gz") (1 ∷ [])) {
  status = uploading;
  attempts = 1;
}

abbrev pub denied : Record
denied = record (new_record (codes "d") (codes "/d.gz") (1 ∷ [])) {
  status = failed;
  attempts = 1;
  last_error = codes "API returned HTTP 401";
}

abbrev pub uploads : Uploads
uploads = (codes "a", waiting) ∷ (codes "b", done) ∷ (codes "c", stopped) ∷ (codes "d", denied) ∷ []

abbrev exchange_of : Text → Exchange
exchange_of k = responded 201 k

abbrev pub worlds : Text → World
worlds k = record {
  cancelled = none;
  attempted_at = 100 * second;
  first_write = none;
  exchange = exchange_of k;
  finished_at = 101 * second;
  second_write = none;
}

abbrev pub now : Time
now = 99 * second

pub uploads-IsMap : IsMap uploads
unfolding Strings.str_eq Strings.str_lt Strings.is_space Strings.trim_left Strings.trim_space
    Strings.cut Strings.split_onto Strings.has_prefix Maps.lookup Maps.insert Backoff.backoff_loop
    Backoff.backoff Upload.print_onto Upload.print_nat Upload.is_retryable_status Upload.api_error
    Upload.read_payload Upload.upload Due.is_due Due.due_keys Due.insert_text Due.sort_texts
    Due.due_checksums Due.next_due_from Due.next_due_at Due.refused_with
    Due.is_authorization_failure Due.reset_all Due.reset_failed_authorization Process.recover
    Process.finish Process.begun Process.attempted Process.process Process.process_due
    Queue.same_record Queue.merge Queue.queue_one Queue.queue_all Queue.queue
uploads-IsMap = (refl, (refl, (refl, (refl, tt))))

find_waiting : lookup (codes "a") uploads ≡ some waiting
unfolding Strings.str_eq Strings.str_lt Strings.is_space Strings.trim_left Strings.trim_space
    Strings.cut Strings.split_onto Strings.has_prefix Maps.lookup Maps.insert Backoff.backoff_loop
    Backoff.backoff Upload.print_onto Upload.print_nat Upload.is_retryable_status Upload.api_error
    Upload.read_payload Upload.upload Due.is_due Due.due_keys Due.insert_text Due.sort_texts
    Due.due_checksums Due.next_due_from Due.next_due_at Due.refused_with
    Due.is_authorization_failure Due.reset_all Due.reset_failed_authorization Process.recover
    Process.finish Process.begun Process.attempted Process.process Process.process_due
    Queue.same_record Queue.merge Queue.queue_one Queue.queue_all Queue.queue
find_waiting = refl

find_done : lookup (codes "b") uploads ≡ some done
unfolding Strings.str_eq Strings.str_lt Strings.is_space Strings.trim_left Strings.trim_space
    Strings.cut Strings.split_onto Strings.has_prefix Maps.lookup Maps.insert Backoff.backoff_loop
    Backoff.backoff Upload.print_onto Upload.print_nat Upload.is_retryable_status Upload.api_error
    Upload.read_payload Upload.upload Due.is_due Due.due_keys Due.insert_text Due.sort_texts
    Due.due_checksums Due.next_due_from Due.next_due_at Due.refused_with
    Due.is_authorization_failure Due.reset_all Due.reset_failed_authorization Process.recover
    Process.finish Process.begun Process.attempted Process.process Process.process_due
    Queue.same_record Queue.merge Queue.queue_one Queue.queue_all Queue.queue
find_done = refl

run_error : (process_due library agent (pos 0) now none worlds uploads).error ≡ none
unfolding Strings.str_eq Strings.str_lt Strings.is_space Strings.trim_left Strings.trim_space
    Strings.cut Strings.split_onto Strings.has_prefix Maps.lookup Maps.insert Backoff.backoff_loop
    Backoff.backoff Upload.print_onto Upload.print_nat Upload.is_retryable_status Upload.api_error
    Upload.read_payload Upload.upload Due.is_due Due.due_keys Due.insert_text Due.sort_texts
    Due.due_checksums Due.next_due_from Due.next_due_at Due.refused_with
    Due.is_authorization_failure Due.reset_all Due.reset_failed_authorization Process.recover
    Process.finish Process.begun Process.attempted Process.process Process.process_due
    Queue.same_record Queue.merge Queue.queue_one Queue.queue_all Queue.queue
run_error = refl

waiting_due : is_due seconds (recovered_record seconds now waiting) now ≡ true
unfolding Strings.str_eq Strings.str_lt Strings.is_space Strings.trim_left Strings.trim_space
    Strings.cut Strings.split_onto Strings.has_prefix Maps.lookup Maps.insert Backoff.backoff_loop
    Backoff.backoff Upload.print_onto Upload.print_nat Upload.is_retryable_status Upload.api_error
    Upload.read_payload Upload.upload Due.is_due Due.due_keys Due.insert_text Due.sort_texts
    Due.due_checksums Due.next_due_from Due.next_due_at Due.refused_with
    Due.is_authorization_failure Due.reset_all Due.reset_failed_authorization Process.recover
    Process.finish Process.begun Process.attempted Process.process Process.process_due
    Queue.same_record Queue.merge Queue.queue_one Queue.queue_all Queue.queue
waiting_due = refl

process_due-Settled_example :
    lookup (codes "b") (process_due library agent (pos 1) now none worlds uploads).stored
    ≡ some done
process_due-Settled_example =
    process_due-Settled library agent worlds (pos 1) now none uploads (codes "b") done uploads-IsMap
      find_done (inl refl)

process_due-attempted_example :
    lookup (codes "a") (process_due library agent (pos 0) now none worlds uploads).stored
    ≡ some (attempted library agent (worlds (codes "a")) (recovered_record seconds now waiting))
process_due-attempted_example =
    process_due-attempted library agent worlds now none uploads (codes "a") waiting uploads-IsMap
      find_waiting waiting_due run_error

process_due-EndsAs_example :
    let done = process_due library agent (pos 0) now none worlds uploads in
    NoneUploading done.stored
    × ((k : Text) → EndsAs library agent worlds now k (lookup k uploads) (lookup k done.stored))
process_due-EndsAs_example =
    process_due-EndsAs library agent worlds (pos 0) now none uploads run_error

upload_iff_example :
    (upload library (codes "a") (exchange_of (codes "a"))
      ≡ accepted 201 (record empty_response { checksum = codes "a"; status = codes "accepted" }))
    ↔ Accepts library
        (codes "a")
        (exchange_of (codes "a"))
        201
        (record empty_response { checksum = codes "a"; status = codes "accepted" })
upload_iff_example = upload_iff library (codes "a") (exchange_of (codes "a")) 201 _

upload-retryable_iff_example :
    ((upload library (codes "a") (responded 503 [])).retryable ≡ true) ↔ Retries (responded 503 [])
upload-retryable_iff_example = upload-retryable_iff library (codes "a") (responded 503 [])

next_due_at_iff_example :
    Reached (next_due_at seconds now uploads) now
    ↔ (due_checksums seconds (recover seconds now uploads).0 now ≢ [])
next_due_at_iff_example =
    next_due_at_iff seconds now uploads (λ h. ground arith)
      (λ h. cc, (λ h. cc, (λ h. cc, (λ h. cc, tt))))

abbrev pub write : Uploads → Result Text (Unit {0})
write _ = ok tt

abbrev pub after_reset : Uploads
after_reset =
    (codes "a", waiting)
    ∷ (codes "b", done)
    ∷ (codes "c", stopped)
    ∷ (codes "d", record denied { status = pending; last_error = [] })
    ∷ []

pub reset_run : reset_failed_authorization write uploads ≡ ok (1, after_reset)
unfolding Strings.str_eq Strings.str_lt Strings.is_space Strings.trim_left Strings.trim_space
    Strings.cut Strings.split_onto Strings.has_prefix Maps.lookup Maps.insert Backoff.backoff_loop
    Backoff.backoff Upload.print_onto Upload.print_nat Upload.is_retryable_status Upload.api_error
    Upload.read_payload Upload.upload Due.is_due Due.due_keys Due.insert_text Due.sort_texts
    Due.due_checksums Due.next_due_from Due.next_due_at Due.refused_with
    Due.is_authorization_failure Due.reset_all Due.reset_failed_authorization Process.recover
    Process.finish Process.begun Process.attempted Process.process Process.process_due
    Queue.same_record Queue.merge Queue.queue_one Queue.queue_all Queue.queue
reset_run = refl

reset_failed_authorization-ResetAt_example :
    ResetAt (lookup (codes "d") uploads) (lookup (codes "d") after_reset)
reset_failed_authorization-ResetAt_example =
    reset_failed_authorization-ResetAt write uploads 1 after_reset reset_run (codes "d")

backoff-min_example :
    backoff (5 * second) (900 * second) 4 ≡ min (900 * second) (5 * second * 2 ^ (4 - 1))
backoff-min_example = backoff-min (5 * second) (900 * second) 4 (omega arith)

abbrev pub archive : Text → ArchiveRecord
archive checksum = record {
  checksum = checksum;
  archive_path = codes "/e.gz";
  source_path = [];
  imported_at = [];
  captured_at = pos 1000;
  region = codes "eu";
  realm = [];
  market = [];
  faction = [];
  auction_house = [];
  capture_zone = [];
  capture_subzone = [];
  capture_ui_map_id = pos 0;
  scanner_name = [];
  scanner_realm = [];
  scanner_guid = [];
  scanner_region = [];
  row_count = pos 3;
  item_count = pos 2;
  export_ms = pos 0;
  truncated = false;
}

abbrev queued : Uploads
queued =
    (
      codes "b",
      record done {
        captured_at = pos 1000;
        region = codes "eu";
        archive_rows = pos 3;
        archive_items = pos 2;
      },
    )
    ∷ (
      codes "e",
      record (new_record (codes "e") (codes "/e.gz") (9 ∷ [])) {
        captured_at = pos 1000;
        region = codes "eu";
        archive_rows = pos 3;
        archive_items = pos 2;
      },
    )
    ∷ []

abbrev queue_results : List QueueResult
queue_results =
    record { checksum = codes "b"; queued = false; skipped = [] }
    ∷ record { checksum = codes "e"; queued = true; skipped = [] }
    ∷ record { checksum = []; queued = false; skipped = codes "missing checksum" }
    ∷ []

abbrev archives : List ArchiveRecord
archives = archive (codes "b") ∷ archive (codes "e") ∷ archive [] ∷ []

queue_run :
    queue library (9 ∷ []) write ((codes "b", done) ∷ []) archives ≡ ok (queue_results, queued)
unfolding Strings.str_eq Strings.str_lt Strings.is_space Strings.trim_left Strings.trim_space
    Strings.cut Strings.split_onto Strings.has_prefix Maps.lookup Maps.insert Backoff.backoff_loop
    Backoff.backoff Upload.print_onto Upload.print_nat Upload.is_retryable_status Upload.api_error
    Upload.read_payload Upload.upload Due.is_due Due.due_keys Due.insert_text Due.sort_texts
    Due.due_checksums Due.next_due_from Due.next_due_at Due.refused_with
    Due.is_authorization_failure Due.reset_all Due.reset_failed_authorization Process.recover
    Process.finish Process.begun Process.attempted Process.process Process.process_due
    Queue.same_record Queue.merge Queue.queue_one Queue.queue_all Queue.queue
queue_run = refl

queue-Queues_example : Queues ((codes "b", done) ∷ []) archives queued
queue-Queues_example =
    queue-Queues library (9 ∷ []) write ((codes "b", done) ∷ []) archives queue_results queued
      queue_run

records_from_state-LatestFirst_example :
    Perm (records_from_state seconds uploads) (values uploads)
    × LatestFirst seconds (records_from_state seconds uploads)
records_from_state-LatestFirst_example = records_from_state-LatestFirst seconds uploads

refused_with-api_error_example : refused_with 403 (api_error library 403 (codes "{}")) ≡ true
refused_with-api_error_example = refused_with-api_error library 403 (codes "{}")
