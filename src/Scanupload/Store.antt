-- ===== src/Scanupload/Store.antt =====
-- `New`, `loadState`, `resolveDataDir`, `ReadRecords` and `Records` of `upload.go`.
use wow_markets.Base.{◌*◌, List, [], Result, ok, ◌>>=◌, ◌>>◌, reject, wrap, is_empty}
use wow_markets.Base.Int.{ℤ, pos, leb_ℤ}
use wow_markets.Base.Strings.{Text, trim_space, trim_slashes}
use wow_markets.Scanarchive.Store.{StateFile, StateError, load_state}
use wow_markets.Scanupload.Record.{Record, Uploads}
use wow_markets.Scanupload.Outside.{Rfc3339, second}
use wow_markets.Scanupload.Records.{records_from_state}
use wow_markets.Scanupload.Process.{Agent}

abbrev pub load_uploads : StateFile Uploads → Result StateError Uploads
load_uploads = load_state []

pub data NewError : Type 0 where
  data_directory_required api_url_required api_token_required timeout_not_positive : NewError
  unresolved : Text → NewError

-- The fields of `Agent` that `New` sets, its backoffs apart.
pub record Connection : Type 0 where
  pub data_dir : Text
  pub api_url : Text
  pub token : Text
  pub timeout : ℤ

abbrev pub default_agent : Agent
default_agent = record { base_backoff = 5 * second; max_backoff = 15 * 60 * second }

unfoldable pub resolve_data_dir : (Text → Result Text Text) → Text → Result NewError Text
resolve_data_dir absolute data_dir = do
  reject (is_empty data_dir) data_directory_required
  wrap unresolved (absolute data_dir)

-- A timeout is a number of nanoseconds.
unfoldable pub new_agent :
    (Text → Result Text Text) → Text → Text → Text → ℤ → Result NewError (Connection × Agent)
new_agent absolute data_dir api_url token timeout = do
  reject (is_empty data_dir) data_directory_required
  reject (is_empty (trim_space api_url)) api_url_required
  reject (is_empty (trim_space token)) api_token_required
  reject (leb_ℤ timeout (pos 0)) timeout_not_positive
  path ← wrap unresolved (absolute data_dir)
  ok (
    record {
      data_dir = path;
      api_url = trim_slashes (trim_space api_url);
      token = trim_space token;
      timeout = timeout;
    },
    default_agent,
  )

-- `Records`, and behind the resolution of its directory `ReadRecords`.
unfoldable pub stored_records : Rfc3339 → StateFile Uploads → Result StateError (List Record)
stored_records time file = load_uploads file >>= λ uploads. ok (records_from_state time uploads)
