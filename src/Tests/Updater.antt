-- ===== src/Tests/Updater.antt =====
-- A run of the updater from its start to the launch of an update, and witnesses.
use wow_markets.Base.{
  ◌≡◌, refl, true, false, [], ◌∷◌, ◌++◌, none, some, ok, codes, if◌then◌else◌, str_eq,
}
use wow_markets.Base.Int.{pos}
use wow_markets.Base.Strings.{Text}
use wow_markets.Updatefeed.Select.{Release, target_windows_amd64}
use wow_markets.Updatefeed.Feed.{Item, Crypto, stable}
use wow_markets.Updater.{
  Url, UpdateConfiguration, Build, Files, Platform, State, new_state, idle, fetching,
  downloading_release, Failure, server_returned,
}
use wow_markets.Updater.Configuration.{update_public_key_base64}
use wow_markets.Updater.Fetch.{Body, content, Response, responded, Staging, receive}
use wow_markets.Updater.Check.{Fetched, Downloaded, start_check, after_fetch, after_download}
use wow_markets.Updater.Actions.{is_ready, Installing, start_updater, install_update, defer_update}
use wow_markets.Updater.Steps.{Reach, here, next, start, check, fetch, download, install}
use wow_markets.Updater.Staged.{Holds, HoldsVersion}
use wow_markets.Updater.Launched.{install_update-Holds}
use wow_markets.Updater.Stale.{install_update-stale}
use wow_markets.Tests.Feed.{zeros}
use wow_markets.Base.Maps as Maps
use wow_markets.Base.Numbers as Numbers
use wow_markets.Base.Strings as Strings
use wow_markets.Updatefeed.Feed as Feed
use wow_markets.Updatefeed.Select as Select
use wow_markets.Updatefeed.Version as Version
use wow_markets.Updater as Updater
use wow_markets.Updater.Actions as Actions
use wow_markets.Updater.Check as Check
use wow_markets.Updater.Configuration as Configuration
use wow_markets.Updater.Fetch as Fetch

abbrev asset_name : Text
asset_name = codes "setup.exe"

abbrev asset_path : Text
asset_path = codes "/eolseng/wow-markets/releases/download/companion-v1.3.0/setup.exe"

abbrev asset_url : Text
asset_url = codes "https://github.com" ++ asset_path

abbrev windows_item : Item
windows_item = record {
  title = [];
  published_at = [];
  version = codes "7";
  short_version = codes "1.3.0";
  notes_url = [];
  mandatory = false;
  enclosure_url = asset_url;
  enclosure_length = codes "3";
  enclosure_version = [];
  enclosure_signature = codes "c";
  enclosure_os = codes "windows";
  enclosure_arch = codes "amd64";
}

-- A key has 32 bytes, a signature 64, and every signature is good.
abbrev crypto : Crypto
crypto = record {
  verify = λ key content signature. true;
  decode_base64 = λ text. some (zeros (if str_eq text update_public_key_base64 then 32 else 64));
  decode_items = λ content. ok (windows_item ∷ []);
  valid_url = λ url. true;
}

abbrev update_url : Url
update_url = record {
  scheme = codes "https";
  has_user = false;
  host = codes "updates.wowmarkets.app";
  hostname = codes "updates.wowmarkets.app";
  path = [];
  raw_query = [];
  fragment = [];
  text = codes "https://updates.wowmarkets.app";
}

abbrev build : Build
build = record {
  official_update_origin = codes "https://updates.wowmarkets.app";
  enable_updates = [];
  update_origin = [];
  version = codes "1.2.0";
  platform_target = some (target_windows_amd64, asset_name);
  data_dir = codes "/data";
  companion_data_dir = ok (codes "/data");
  parse_url = λ url.
      if str_eq url asset_url
      then some
          (record update_url { host = codes "github.com"; path = asset_path; text = asset_url })
      else some update_url;
  join = λ directory name. directory ++ codes "/" ++ name;
  crypto = crypto;
}

abbrev no_files : Files
no_files _ = none

abbrev feed : Text
feed = codes "x<!-- sparkle-signatures:\nedSignature: c\nlength: 1\n-->"

abbrev configuration : UpdateConfiguration
configuration = record {
  origin = update_url;
  feed_url = codes "https://updates.wowmarkets.app/companion/stable/windows-amd64.xml";
  public_key = zeros 32;
  target = target_windows_amd64;
  asset_name = asset_name;
  channel = stable;
  version = codes "1.2.0";
  staging_dir = codes "/data/updates";
}

abbrev release : Release
release = record {
  build_version = codes "7";
  version = codes "1.3.0";
  title = [];
  published_at = [];
  notes_url = [];
  url = asset_url;
  length = pos 3;
  signature = codes "c";
  os = codes "windows";
  arch = codes "amd64";
  mandatory = false;
}

abbrev windows : Platform
windows = record { manages_downloads = false }

abbrev fetched : Fetched
fetched = record {
  response = responded 200 (codes "200 OK") (content feed);
  checked_at = codes "now";
  check = none;
  failed_at = codes "now";
}

abbrev staging : Staging
staging = record { directory = none; write = none; partial = none; rename = none }

abbrev downloaded : Downloaded
downloaded = record {
  response = responded 200 (codes "200 OK") (content (codes "exe"));
  staging = staging;
  failed_at = codes "now";
}

abbrev installing : Installing
installing = record { check = none; persist = none; install = none; now = codes "now" }

abbrev s₀ : State
s₀ = new_state build [] [] true no_files

abbrev s₁ : State
s₁ = start_updater build windows none (codes "now") s₀

abbrev s₂ : State
s₂ = start_check build false (codes "now") s₁

abbrev s₃ : State
s₃ = after_fetch build configuration false fetched s₂

abbrev s₄ : State
s₄ = after_download build configuration release downloaded s₃

abbrev staged : Text
staged = codes "/data/updates/setup.exe"

s₁-idle : s₁.phase ≡ idle
unfolding Strings.str_eq Strings.str_lt Strings.is_space Strings.trim_left Strings.trim_space
    Strings.cut Strings.split_onto Strings.has_prefix Strings.to_lower Strings.drop_slashes
    Numbers.digits_value Numbers.decimal Numbers.saturated Numbers.parse_uint Numbers.parse_int
    Numbers.is_float Maps.lookup Maps.insert Version.valid_identifier Version.all_digits
    Version.numeric Version.parse_part Version.parse_core Version.good_identifier Version.all_good
    Version.with_prerelease Version.parse_version Version.order_identifiers
    Version.compare_identifiers Version.compare_prerelease Version.compare_versions Select.matches
    Select.consider Select.select_from Select.select Feed.parse_channel Feed.split_last
    Feed.before_first Feed.drop_spaces Feed.trim_bytes Feed.read_line Feed.read_lines
    Feed.decode_signature Feed.split_signed_content Feed.read_release Feed.read_releases
    Feed.parse_signed Feed.verify_artifact Updater.put Updater.new_state
    Configuration.require_trusted Configuration.validate_update_origin
    Configuration.validate_release Configuration.compiled_public_key Configuration.configuration_at
    Configuration.update_configuration Fetch.feed_body Fetch.artifact_body Fetch.is_offline
    Fetch.fetch_update Fetch.receive Fetch.stage Fetch.download_update Check.set_updater_error
    Check.start_check Check.fetch_failed Check.put_off Check.hand_over Check.take_release
    Check.after_fetch Check.after_download Check.run_update_check Actions.start_native
    Actions.start_updater Actions.stop_updater Actions.set_update_channel Actions.version_to_defer
    Actions.begin_deferral Actions.end_deferral Actions.defer_update Actions.launch
    Actions.install_update
s₁-idle = refl

s₂-fetching : s₂.phase ≡ fetching configuration false
unfolding Strings.str_eq Strings.str_lt Strings.is_space Strings.trim_left Strings.trim_space
    Strings.cut Strings.split_onto Strings.has_prefix Strings.to_lower Strings.drop_slashes
    Numbers.digits_value Numbers.decimal Numbers.saturated Numbers.parse_uint Numbers.parse_int
    Numbers.is_float Maps.lookup Maps.insert Version.valid_identifier Version.all_digits
    Version.numeric Version.parse_part Version.parse_core Version.good_identifier Version.all_good
    Version.with_prerelease Version.parse_version Version.order_identifiers
    Version.compare_identifiers Version.compare_prerelease Version.compare_versions Select.matches
    Select.consider Select.select_from Select.select Feed.parse_channel Feed.split_last
    Feed.before_first Feed.drop_spaces Feed.trim_bytes Feed.read_line Feed.read_lines
    Feed.decode_signature Feed.split_signed_content Feed.read_release Feed.read_releases
    Feed.parse_signed Feed.verify_artifact Updater.put Updater.new_state
    Configuration.require_trusted Configuration.validate_update_origin
    Configuration.validate_release Configuration.compiled_public_key Configuration.configuration_at
    Configuration.update_configuration Fetch.feed_body Fetch.artifact_body Fetch.is_offline
    Fetch.fetch_update Fetch.receive Fetch.stage Fetch.download_update Check.set_updater_error
    Check.start_check Check.fetch_failed Check.put_off Check.hand_over Check.take_release
    Check.after_fetch Check.after_download Check.run_update_check Actions.start_native
    Actions.start_updater Actions.stop_updater Actions.set_update_channel Actions.version_to_defer
    Actions.begin_deferral Actions.end_deferral Actions.defer_update Actions.launch
    Actions.install_update
s₂-fetching = refl

s₃-downloading : s₃.phase ≡ downloading_release configuration release
unfolding Strings.str_eq Strings.str_lt Strings.is_space Strings.trim_left Strings.trim_space
    Strings.cut Strings.split_onto Strings.has_prefix Strings.to_lower Strings.drop_slashes
    Numbers.digits_value Numbers.decimal Numbers.saturated Numbers.parse_uint Numbers.parse_int
    Numbers.is_float Maps.lookup Maps.insert Version.valid_identifier Version.all_digits
    Version.numeric Version.parse_part Version.parse_core Version.good_identifier Version.all_good
    Version.with_prerelease Version.parse_version Version.order_identifiers
    Version.compare_identifiers Version.compare_prerelease Version.compare_versions Select.matches
    Select.consider Select.select_from Select.select Feed.parse_channel Feed.split_last
    Feed.before_first Feed.drop_spaces Feed.trim_bytes Feed.read_line Feed.read_lines
    Feed.decode_signature Feed.split_signed_content Feed.read_release Feed.read_releases
    Feed.parse_signed Feed.verify_artifact Updater.put Updater.new_state
    Configuration.require_trusted Configuration.validate_update_origin
    Configuration.validate_release Configuration.compiled_public_key Configuration.configuration_at
    Configuration.update_configuration Fetch.feed_body Fetch.artifact_body Fetch.is_offline
    Fetch.fetch_update Fetch.receive Fetch.stage Fetch.download_update Check.set_updater_error
    Check.start_check Check.fetch_failed Check.put_off Check.hand_over Check.take_release
    Check.after_fetch Check.after_download Check.run_update_check Actions.start_native
    Actions.start_updater Actions.stop_updater Actions.set_update_channel Actions.version_to_defer
    Actions.begin_deferral Actions.end_deferral Actions.defer_update Actions.launch
    Actions.install_update
s₃-downloading = refl

s₄-launched : (install_update installing s₄).0.launched ≡ some staged
unfolding Strings.str_eq Strings.str_lt Strings.is_space Strings.trim_left Strings.trim_space
    Strings.cut Strings.split_onto Strings.has_prefix Strings.to_lower Strings.drop_slashes
    Numbers.digits_value Numbers.decimal Numbers.saturated Numbers.parse_uint Numbers.parse_int
    Numbers.is_float Maps.lookup Maps.insert Version.valid_identifier Version.all_digits
    Version.numeric Version.parse_part Version.parse_core Version.good_identifier Version.all_good
    Version.with_prerelease Version.parse_version Version.order_identifiers
    Version.compare_identifiers Version.compare_prerelease Version.compare_versions Select.matches
    Select.consider Select.select_from Select.select Feed.parse_channel Feed.split_last
    Feed.before_first Feed.drop_spaces Feed.trim_bytes Feed.read_line Feed.read_lines
    Feed.decode_signature Feed.split_signed_content Feed.read_release Feed.read_releases
    Feed.parse_signed Feed.verify_artifact Updater.put Updater.new_state
    Configuration.require_trusted Configuration.validate_update_origin
    Configuration.validate_release Configuration.compiled_public_key Configuration.configuration_at
    Configuration.update_configuration Fetch.feed_body Fetch.artifact_body Fetch.is_offline
    Fetch.fetch_update Fetch.receive Fetch.stage Fetch.download_update Check.set_updater_error
    Check.start_check Check.fetch_failed Check.put_off Check.hand_over Check.take_release
    Check.after_fetch Check.after_download Check.run_update_check Actions.start_native
    Actions.start_updater Actions.stop_updater Actions.set_update_channel Actions.version_to_defer
    Actions.begin_deferral Actions.end_deferral Actions.defer_update Actions.launch
    Actions.install_update
s₄-launched = refl

s₄-reached : Reach build s₀ s₄
s₄-reached =
    next
      (next
        (next (next here (start s₀ windows none (codes "now")))
          (check s₁ false (codes "now") s₁-idle))
        (fetch s₂ configuration false fetched s₂-fetching))
      (download s₃ configuration release downloaded s₃-downloading)

install_update-Holds_example :
    Holds build (install_update installing s₄).1.files staged
    × (is_ready s₄.updater.status ≡ true
        → HoldsVersion build s₄.files staged s₄.updater.available_version)
install_update-Holds_example =
    install_update-Holds build [] [] true no_files s₄ (install_update installing s₄).1 installing
      staged s₄-reached s₄-launched (next here (install s₄ installing))

-- An earlier update stands at its path, and the server fails on the next.
abbrev failing : Downloaded
failing = record downloaded {
  response = responded 500 (codes "500 Internal Server Error") (content []);
}

abbrev holding : State
holding = record s₃ {
  staged_update_path = staged;
  files = λ path. if str_eq path staged then some (codes "old") else none;
}

install_update-stale_example :
    let t = (defer_update none (after_download build configuration release failing holding)).1 in
    ((install_update installing t).0.launched ≡ some staged)
    × (t.files staged ≡ some (codes "old"))
    × (t.updater.available_version ≡ codes "1.3.0")
unfolding Strings.str_eq Strings.str_lt Strings.is_space Strings.trim_left Strings.trim_space
    Strings.cut Strings.split_onto Strings.has_prefix Strings.to_lower Strings.drop_slashes
    Numbers.digits_value Numbers.decimal Numbers.saturated Numbers.parse_uint Numbers.parse_int
    Numbers.is_float Maps.lookup Maps.insert Version.valid_identifier Version.all_digits
    Version.numeric Version.parse_part Version.parse_core Version.good_identifier Version.all_good
    Version.with_prerelease Version.parse_version Version.order_identifiers
    Version.compare_identifiers Version.compare_prerelease Version.compare_versions Select.matches
    Select.consider Select.select_from Select.select Feed.parse_channel Feed.split_last
    Feed.before_first Feed.drop_spaces Feed.trim_bytes Feed.read_line Feed.read_lines
    Feed.decode_signature Feed.split_signed_content Feed.read_release Feed.read_releases
    Feed.parse_signed Feed.verify_artifact Updater.put Updater.new_state
    Configuration.require_trusted Configuration.validate_update_origin
    Configuration.validate_release Configuration.compiled_public_key Configuration.configuration_at
    Configuration.update_configuration Fetch.feed_body Fetch.artifact_body Fetch.is_offline
    Fetch.fetch_update Fetch.receive Fetch.stage Fetch.download_update Check.set_updater_error
    Check.start_check Check.fetch_failed Check.put_off Check.hand_over Check.take_release
    Check.after_fetch Check.after_download Check.run_update_check Actions.start_native
    Actions.start_updater Actions.stop_updater Actions.set_update_channel Actions.version_to_defer
    Actions.begin_deferral Actions.end_deferral Actions.defer_update Actions.launch
    Actions.install_update
install_update-stale_example =
    install_update-stale build configuration release failing installing holding
      (server_returned (codes "500 Internal Server Error")) windows refl refl refl refl refl refl
      refl refl
