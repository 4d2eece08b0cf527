-- ===== src/Scanarchive/Store.antt =====
-- `New`, `loadState`, `Records` and `ProcessFile` from its start, of `archive.go`, on how the
-- state's file opens and decodes.
pub mod Listed
use wow_markets.Base.{
  ℕ, List, [], ◌∷◌, Option, some, none, false, if◌then◌else◌, Result, ok, err, ◌>>=◌, wrap, codes,
  is_empty, map,
}
use wow_markets.Base.Int.{ℤ, pos, eq_ℤ}
use wow_markets.Base.Maps.{lookup, text_key}
use wow_markets.Base.Strings.{Text}
use wow_markets.Luasv.Token.{Unicode}
use wow_markets.Scanfile.{LoadError, load}
use wow_markets.Scanupload.Due.{sort_texts}
use wow_markets.Scanarchive.Record.{ArchiveRecord}
use wow_markets.Scanarchive.Process.{Archive, Archiver, ScanResult, process_file}

-- How a state's file opens and decodes: it is missing, it cannot be opened or read, its JSON is
-- not a state, or it is one of a version, where `none` is a map that is null or left out.
pub data StateFile {ℓ} (A : Type ℓ) : Type ℓ where
  missing : StateFile A
  unopened undecoded : Text → StateFile A
  state : ℤ → Option A → StateFile A

pub data StateError : Type 0 where
  open_failed decode_failed : Text → StateError
  unsupported_version : ℤ → StateError

abbrev pub state_version : ℤ
state_version = pos 1

-- `loadState` on a map that is made empty when it is nil.
unfoldable pub load_state {ℓ} : {A : Type ℓ} → A → StateFile A → Result StateError A
load_state empty missing = ok empty
load_state empty (unopened e) = err (open_failed e)
load_state empty (undecoded e) = err (decode_failed e)
load_state empty (state version none) =
    if eq_ℤ version state_version then ok empty else err (unsupported_version version)
load_state empty (state version (some entries)) =
    if eq_ℤ version state_version then ok entries else err (unsupported_version version)

-- The file as one reading finds it, which can fail to open or read any file.
abbrev pub as_read {ℓ} : {A : Type ℓ} → Option Text → StateFile A → StateFile A
as_read none file = file
as_read (some e) file = unopened e

-- The file that `writeState` leaves.
abbrev pub written {ℓ} : {A : Type ℓ} → A → StateFile A
written entries = state state_version (some entries)

abbrev pub load_archive : StateFile Archive → Result StateError Archive
load_archive = load_state []

-- `Processor`, and `New` on `filepath.Abs`.
pub data NewError : Type 0 where
  data_directory_required : NewError
  unresolved : Text → NewError

unfoldable pub new_processor : (Text → Result Text Text) → Text → Result NewError Text
new_processor absolute data_dir =
    if is_empty data_dir then err data_directory_required else wrap unresolved (absolute data_dir)

unfoldable pub checksums : Archive → List Text
checksums [] = []
checksums ((k, _) ∷ m) = k ∷ checksums m

-- `currentState.Scans[checksum]` at the checksums that it has.
unfoldable pub records_at : List Text → Archive → List ArchiveRecord
records_at [] scans = []
records_at (k ∷ ks) scans = elim (lookup k scans) [
  | some r ↦ r ∷ records_at ks scans
  | none ↦ records_at ks scans
]

unfoldable pub archive_records : Archive → List ArchiveRecord
archive_records scans = records_at (sort_texts (checksums scans)) scans

-- `Records`
unfoldable pub read_records : StateFile Archive → Result StateError (List ArchiveRecord)
read_records file = load_archive file >>= λ scans. ok (archive_records scans)

pub data ProcessError : Type 0 where
  unresolved_source : Text → ProcessError
  not_loaded : LoadError → ProcessError
  bad_state : StateError → ProcessError
  not_archived : Text → ProcessError

module _ (u : Unicode) (archiver : Archiver) where
  -- `ProcessFile`: the results, and the scans that the state's file holds behind it.
  unfoldable pub process_source :
      Result Text Text
      → Result Text Text
      → Result Text Text
      → Text
      → (Archive → Result Text (Unit {0}))
      → StateFile Archive
      → Result ProcessError (List ScanResult × Archive)
  process_source source first second variable_name write file = do
    path ← wrap unresolved_source source
    database ← wrap not_loaded (load u first second variable_name)
    stored ← wrap bad_state (load_archive file)
    wrap not_archived (process_file archiver path write stored database.scans)
