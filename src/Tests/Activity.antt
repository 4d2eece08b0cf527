-- ===== src/Tests/Activity.antt =====
-- What is shown of four uploads, and the witness.
use wow_markets.Base.{ℕ, ◌≡◌, ◌≢◌, refl, List, [], ◌∷◌, Option, none, some, codes}
use wow_markets.Scanarchive.Record.{ArchiveRecord}
use wow_markets.Scanupload.Record.{Record}
use wow_markets.Activity.{ActivityOverview, ScanSummary}
use wow_markets.Activity.Load.{overview}
use wow_markets.Activity.Overview.{Shows, overview-Shows}
use wow_markets.Tests.Upload.{seconds, waiting, done, stopped, denied, archive}
use wow_markets.Activity as Activity
use wow_markets.Activity.Load as Load
use wow_markets.Base.Int as Int
use wow_markets.Base.Maps as Maps
use wow_markets.Base.Numbers as Numbers
use wow_markets.Base.Strings as Strings
use wow_markets.Watchagent.Archiving as Archiving

abbrev records : List Record
records = waiting ∷ record done { uploaded_at = 9 ∷ [] } ∷ stopped ∷ denied ∷ []

abbrev archives : List ArchiveRecord
archives = archive (codes "a") ∷ archive (codes "d") ∷ []

abbrev checksum_of : Option ScanSummary → List ℕ
checksum_of none = []
checksum_of (some summary) = summary.checksum

-- The uploaded one is the latest, and the failed one is shown.
latest_first : (overview seconds archives records).recent_uploads ≢ []
unfolding Int.wrap64 Int.add_ℤ Int.sub_ℤ Int.quotient Strings.str_eq Strings.str_lt Strings.is_space
    Strings.trim_left Strings.trim_space Strings.cut Strings.split_onto Strings.has_prefix
    Strings.to_lower Strings.drop_slashes Numbers.digits_value Numbers.decimal Numbers.saturated
    Numbers.parse_uint Numbers.parse_int Numbers.is_float Maps.lookup Maps.insert
    Archiving.archive_events Archiving.result_records Archiving.by_checksum Archiving.queue_events
    Archiving.any_queued Archiving.queue_records Archiving.queue_results Archiving.process_changed
    Archiving.process_archive Activity.unix_time Activity.upload_activity_time
    Activity.summary_from_archive Activity.summary_from_upload Load.insert_latest Load.sort_latest
    Load.add_summary Load.add_uploads Load.overview Load.load_activity_overview
latest_first = λ h. cc

failure_shown : checksum_of (overview seconds archives records).upload_failure ≡ codes "d"
unfolding Int.wrap64 Int.add_ℤ Int.sub_ℤ Int.quotient Strings.str_eq Strings.str_lt Strings.is_space
    Strings.trim_left Strings.trim_space Strings.cut Strings.split_onto Strings.has_prefix
    Strings.to_lower Strings.drop_slashes Numbers.digits_value Numbers.decimal Numbers.saturated
    Numbers.parse_uint Numbers.parse_int Numbers.is_float Maps.lookup Maps.insert
    Archiving.archive_events Archiving.result_records Archiving.by_checksum Archiving.queue_events
    Archiving.any_queued Archiving.queue_records Archiving.queue_results Archiving.process_changed
    Archiving.process_archive Activity.unix_time Activity.upload_activity_time
    Activity.summary_from_archive Activity.summary_from_upload Load.insert_latest Load.sort_latest
    Load.add_summary Load.add_uploads Load.overview Load.load_activity_overview
failure_shown = refl

overview-Shows_example : Shows seconds archives records (overview seconds archives records)
overview-Shows_example = overview-Shows seconds archives records
