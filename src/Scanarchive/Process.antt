-- ===== src/Scanarchive/Process.antt =====
-- `ProcessFile` of `archive.go`, from the scans of the loaded file on. The state's file is replaced
-- as a whole by `write`, or stays as it was.
pub mod Archives
use wow_markets.Base.{
  Bool, true, false, List, [], ◌∷◌, Option, none, some, if◌then◌else◌, Result, ok, err, ◌>>=◌,
}
use wow_markets.Base.Maps.{lookup, insert, text_key}
use wow_markets.Base.Strings.{Text}
use wow_markets.Exportfmt.Scan.{Scan}
use wow_markets.Exportfmt.Validate.{market}
use wow_markets.Scanarchive.Record.{ArchiveRecord}

-- The `scans` of the persisted state, by checksum.
abbrev pub Archive : Type 0
Archive = List (Text × ArchiveRecord)

pub record ScanResult : Type 0 where
  pub record_of : ArchiveRecord
  pub is_new : Bool

-- `CanonicalJSON`, `ChecksumBytes`, `archiveScan` with the path that it returns, and the clock's
-- text when the scan of a checksum is archived.
pub record Archiver : Type 0 where
  pub canonical_json : Scan → Result Text Text
  pub checksum_bytes : Text → Text
  pub archive_scan : Text → Text → Result Text Text
  pub imported_at : Text → Text

unfoldable pub archived : Text → Text → Text → Text → Scan → ArchiveRecord
archived checksum path source now scan = record {
  checksum = checksum;
  archive_path = path;
  source_path = source;
  imported_at = now;
  captured_at = scan.captured_at;
  region = scan.region;
  realm = scan.realm;
  market = market scan;
  faction = scan.faction;
  auction_house = scan.auction_house;
  capture_zone = scan.capture_zone;
  capture_subzone = scan.capture_subzone;
  capture_ui_map_id = scan.capture_ui_map_id;
  scanner_name = scan.scanner_name;
  scanner_realm = scan.scanner_realm;
  scanner_guid = scan.scanner_guid;
  scanner_region = scan.scanner_region;
  row_count = scan.exported_row_count;
  item_count = scan.item_count;
  export_ms = scan.export_duration_ms;
  truncated = scan.truncated;
}

-- What a round leaves: the scans, whether the state has changed, and the scan's result.
abbrev pub ScanRound : Type 0
ScanRound = Archive × Bool × ScanResult

module _ (archiver : Archiver) (source : Text) where
  unfoldable pub add_scan :
      Archive → Bool → Scan → Text → Text → Option ArchiveRecord → Result Text ScanRound
  add_scan scans changed scan checksum payload (some r) =
      ok (scans, changed, record { record_of = r; is_new = false })
  add_scan scans changed scan checksum payload none = do
    path ← archiver.archive_scan checksum payload
    let r = archived checksum path source (archiver.imported_at checksum) scan
    ok (insert checksum r scans, true, record { record_of = r; is_new = true })

  -- One round of the loop.
  unfoldable pub process_scan : Archive → Bool → Scan → Result Text ScanRound
  process_scan scans changed scan = do
    payload ← archiver.canonical_json scan
    let checksum = archiver.checksum_bytes payload
    add_scan scans changed scan checksum payload (lookup checksum scans)

  unfoldable pub process_scans :
      Archive → Bool → List Scan → Result Text (Archive × Bool × List ScanResult)
  process_scans scans changed [] = ok (scans, changed, [])
  process_scans scans changed (scan ∷ more) = do
    (scans, changed, result) ← process_scan scans changed scan
    (scans, changed, results) ← process_scans scans changed more
    ok (scans, changed, result ∷ results)

  -- The results, and the scans in the state's file behind the call.
  unfoldable pub process_file :
      (Archive → Result Text (Unit {0}))
      → Archive
      → List Scan
      → Result Text (List ScanResult × Archive)
  process_file write stored database = do
    (scans, changed, results) ← process_scans stored false database
    if changed then (write scans >>= λ _. ok (results, scans)) else ok (results, stored)
