-- ===== src/Scanupload/Queue.antt =====
-- `Queue` and `withArchiveMetadata` of `upload.go`. `write` is `writeState`, which replaces the
-- file as a whole or leaves it as it was.
pub mod Kept
mod Rounds
pub mod Correct
use wow_markets.Base.{
  ℕ, Bool, true, false, not, ◌&&◌, ◌||◌, List, [], ◌∷◌, ◌++◌, Option, none, some, ◌==◌,
  if◌then◌else◌, Result, ok, err, ◌>>=◌, wrap, codes, str_eq, is_empty,
}
use wow_markets.Base.Int.{pos, eq_ℤ}
use wow_markets.Base.Maps.{lookup, insert, text_key}
use wow_markets.Base.Strings.{Text}
use wow_markets.Scanarchive.Record.{ArchiveRecord}
use wow_markets.Scanupload.Record.{
  Status, pending, uploading, uploaded, failed, other, Record, Uploads, QueueResult,
}
use wow_markets.Scanupload.Outside.{Library}

abbrev pub with_archive_metadata : Record → ArchiveRecord → Record
with_archive_metadata r a = record r {
  captured_at = a.captured_at;
  imported_at = a.imported_at;
  region = a.region;
  realm = a.realm;
  market = a.market;
  faction = a.faction;
  auction_house = a.auction_house;
  scanner_name = a.scanner_name;
  scanner_realm = a.scanner_realm;
  archive_rows = a.row_count;
  archive_items = a.item_count;
}

abbrev pub same_status : Status → Status → Bool
same_status pending pending = true
same_status uploading uploading = true
same_status uploaded uploaded = true
same_status failed failed = true
same_status (other s) (other t) = str_eq s t
same_status _ _ = false

abbrev pub same_bit : Bool → Bool → Bool
same_bit true b = b
same_bit false b = not b

-- `==` of records.
unfoldable pub same_record : Record → Record → Bool
same_record r s =
    str_eq r.checksum s.checksum
    && str_eq r.archive_path s.archive_path
    && eq_ℤ r.captured_at s.captured_at
    && str_eq r.imported_at s.imported_at
    && str_eq r.region s.region
    && str_eq r.realm s.realm
    && str_eq r.market s.market
    && str_eq r.faction s.faction
    && str_eq r.auction_house s.auction_house
    && str_eq r.scanner_name s.scanner_name
    && str_eq r.scanner_realm s.scanner_realm
    && eq_ℤ r.archive_rows s.archive_rows
    && eq_ℤ r.archive_items s.archive_items
    && same_status r.status s.status
    && r.attempts == s.attempts
    && str_eq r.queued_at s.queued_at
    && str_eq r.last_attempt_at s.last_attempt_at
    && str_eq r.next_attempt_at s.next_attempt_at
    && str_eq r.uploaded_at s.uploaded_at
    && str_eq r.last_error s.last_error
    && same_bit r.retryable s.retryable
    && r.http_status == s.http_status
    && str_eq r.server_status s.server_status
    && eq_ℤ r.scan_id s.scan_id
    && str_eq r.submission_id s.submission_id
    && eq_ℤ r.observation_rows s.observation_rows
    && eq_ℤ r.item_count s.item_count
    && eq_ℤ r.price_levels s.price_levels
    && eq_ℤ r.price_snapshots s.price_snapshots

-- `Record{Checksum: …, ArchivePath: …, Status: StatusPending, QueuedAt: now}`
abbrev pub new_record : Text → Text → Text → Record
new_record checksum path now = record {
  checksum = checksum;
  archive_path = path;
  captured_at = pos 0;
  imported_at = [];
  region = [];
  realm = [];
  market = [];
  faction = [];
  auction_house = [];
  scanner_name = [];
  scanner_realm = [];
  archive_rows = pos 0;
  archive_items = pos 0;
  status = pending;
  attempts = 0;
  queued_at = now;
  last_attempt_at = [];
  next_attempt_at = [];
  uploaded_at = [];
  last_error = [];
  retryable = false;
  http_status = 0;
  server_status = [];
  scan_id = pos 0;
  submission_id = [];
  observation_rows = pos 0;
  item_count = pos 0;
  price_levels = pos 0;
  price_snapshots = pos 0;
}

-- What a round leaves: the uploads, whether they have changed, and the archive's result.
abbrev pub Round : Type 0
Round = Uploads × Bool × QueueResult

abbrev pub skipping : Uploads → Bool → ArchiveRecord → Text → Round
skipping uploads changed a why =
    (uploads, changed, record { checksum = a.checksum; queued = false; skipped = why })

module _ (lib : Library) (now : Text) where
  -- The default case, on the record that the uploads hold.
  unfoldable pub merge : Uploads → Bool → ArchiveRecord → Option Record → Result Text Round
  merge uploads changed a none = do
    path ←
        wrap (λ e. codes "resolve archive path for " ++ a.checksum ++ codes ": " ++ e)
          (lib.absolute a.archive_path)
    let updated = with_archive_metadata (new_record a.checksum path now) a
    ok (
      insert a.checksum updated uploads,
      true,
      record { checksum = a.checksum; queued = true; skipped = [] },
    )
  merge uploads changed a (some r) = elim (same_record (with_archive_metadata r a) r) [
    | true ↦ ok (skipping uploads changed a [])
    | false ↦ ok (skipping (insert a.checksum (with_archive_metadata r a) uploads) true a [])
  ]

  -- One round of the loop.
  unfoldable pub queue_one : Uploads → Bool → ArchiveRecord → Result Text Round
  queue_one uploads changed a =
      if a.truncated
      then ok (skipping uploads changed a (codes "truncated"))
      else if is_empty a.checksum
      then ok (skipping uploads changed a (codes "missing checksum"))
      else if is_empty a.archive_path
      then ok (skipping uploads changed a (codes "missing archive path"))
      else merge uploads changed a (lookup a.checksum uploads)

  unfoldable pub queue_all :
      Uploads → Bool → List ArchiveRecord → Result Text (Uploads × Bool × List QueueResult)
  queue_all uploads changed [] = ok (uploads, changed, [])
  queue_all uploads changed (a ∷ more) = do
    (uploads, changed, result) ← queue_one uploads changed a
    (uploads, changed, results) ← queue_all uploads changed more
    ok (uploads, changed, result ∷ results)

  -- The results, and the uploads in the state's file behind the call.
  unfoldable pub queue :
      (Uploads → Result Text (Unit {0}))
      → Uploads
      → List ArchiveRecord
      → Result Text (List QueueResult × Uploads)
  queue write stored archives = do
    (uploads, changed, results) ← queue_all stored false archives
    if changed then (write uploads >>= λ _. ok (results, uploads)) else ok (results, stored)
