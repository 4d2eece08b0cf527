-- ===== src/Tests/Archive.antt =====
-- Runs of the archive, and witnesses.
use wow_markets.Base.{◌≡◌, refl, true, false, List, [], ◌∷◌, ◌++◌, Result, ok, codes}
use wow_markets.Base.Maps.{lookup, insert}
use wow_markets.Base.Strings.{Text}
use wow_markets.Scanarchive.Process.{Archive, Archiver, ScanResult, archived, process_file}
use wow_markets.Scanarchive.Process.Archives.{
  KeepsArchive, AllArchived, known, process_file-AllArchived, process_file-known,
}
use wow_markets.Tests.Export.{scan}
use wow_markets.Base.Maps as Maps
use wow_markets.Base.Strings as Strings
use wow_markets.Scanarchive.Process as Process

-- A scan's bytes are its realm, and a payload is its own checksum.
abbrev pub archiver : Archiver
archiver = record {
  canonical_json = λ s. ok s.realm;
  checksum_bytes = λ payload. payload;
  archive_scan = λ checksum payload. ok (codes "/scans/" ++ checksum);
  imported_at = λ checksum. codes "now";
}

abbrev source : Text
source = codes "/WoWMarkets.lua"

abbrev write : Archive → Result Text (Unit {0})
write _ = ok tt

abbrev stored_scan : ScanResult
stored_scan = record {
  record_of =
      archived (codes "Thunderstrike") (codes "/scans/Thunderstrike") source (codes "now") scan;
  is_new = true;
}

abbrev results : List ScanResult
results = stored_scan ∷ record stored_scan { is_new = false } ∷ []

abbrev after : Archive
after = (codes "Thunderstrike", stored_scan.record_of) ∷ []

archive_run : process_file archiver source write [] (scan ∷ scan ∷ []) ≡ ok (results, after)
unfolding Strings.str_eq Strings.str_lt Strings.is_space Strings.trim_left Strings.trim_space
    Strings.cut Strings.split_onto Strings.has_prefix Maps.lookup Maps.insert Process.archived
    Process.add_scan Process.process_scan Process.process_scans Process.process_file
archive_run = refl

process_file-AllArchived_example :
    KeepsArchive [] after × AllArchived archiver source after (scan ∷ scan ∷ []) results
process_file-AllArchived_example =
    process_file-AllArchived archiver source write [] (scan ∷ scan ∷ []) results after archive_run

process_file-known_example :
    process_file archiver source write after (scan ∷ scan ∷ []) ≡ ok (known results, after)
process_file-known_example =
    process_file-known archiver source write write [] (scan ∷ scan ∷ []) results after archive_run
