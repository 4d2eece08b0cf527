-- ===== src/Updater.antt =====
-- The types of `updater.go`: the snapshot, the configuration, the errors, and the fields of `App`
-- that the updater reads and writes. An error or a message is a value that has what its text names.
pub mod Configuration
pub mod Fetch
pub mod Check
pub mod Actions
pub mod Steps
pub mod Offers
pub mod Staged
pub mod Invariant
pub mod Launched
pub mod Stale
use wow_markets.Base.{ℕ, Bool, false, Option, none, Result, ◌++◌, [], codes, str_eq, if◌then◌else◌}
use wow_markets.Base.Int.{ℤ}
use wow_markets.Base.Strings.{Text}
use wow_markets.Updatefeed.Select.{SelectError, Target, Release}
use wow_markets.Updatefeed.Feed.{Channel, Crypto, FeedError, stable, channel_text}

pub data UpdateStatus : Type 0 where
  disabled current checking downloading available ready deferred offline error : UpdateStatus

-- What the errors are made of.
pub data Failure : Type 0 where
  invalid_channel : Text → Failure
  invalid_origin untrusted_official_origin insecure_origin invalid_public_key : Failure
  data_dir_unknown : Text → Failure
  -- A `url.Error`: the request cannot be made or sent.
  request_failed : Text → Failure
  no_promoted_update server_returned : Text → Failure
  -- A body that is not read to its end, and whether its context has ended.
  unread : Bool → Text → Failure
  feed_too_large : Failure
  feed_unverified : FeedError → Failure
  not_selected : SelectError → Failure
  bad_release_url untrusted_asset_url untrusted_release_origin : Text → Failure
  length_out_of_range : Failure
  length_differs : ℕ → ℤ → Failure
  artifact_unverified : FeedError → Failure
  staging_failed : Text → Failure
  platform_failed : Text → Failure

pub data Message : Type 0 where
  updates_in_official_builds up_to_date checking_for_updates : Message
  no_release_promoted : Channel → Message
  update_deferred preparing_update downloading_update update_verified switching_channel : Message
  updates_not_checked : Message
  verification_failed : Failure → Message

pub record UpdaterSnapshot : Type 0 where
  pub available_version : Text
  pub channel : Text
  pub current_version : Text
  pub enabled : Bool
  pub last_checked_at : Text
  pub mandatory : Bool
  pub message : Message
  pub progress : ℕ
  pub ready_to_install : Bool
  pub status : UpdateStatus

-- `url.URL` as `url.Parse` returns it; `hostname` is its `Hostname()`, `text` its `String()`.
pub record Url : Type 0 where
  pub scheme : Text
  pub has_user : Bool
  pub host : Text
  pub hostname : Text
  pub path : Text
  pub raw_query : Text
  pub fragment : Text
  pub text : Text

pub record UpdateConfiguration : Type 0 where
  pub origin : Url
  pub feed_url : Text
  pub public_key : Text
  pub target : Target
  pub asset_name : Text
  pub channel : Channel
  pub version : Text
  pub staging_dir : Text

-- What does not change while the program runs: the build and its environment, the platform's target
-- with the name of its asset, `app.dataDir` and `companionDataDir()`, `url.Parse`, `filepath.Join`,
-- and the parameters of the feed.
pub record Build : Type 0 where
  pub official_update_origin : Text
  pub enable_updates : Text
  pub update_origin : Text
  pub version : Text
  pub platform_target : Option (Target × Text)
  pub data_dir : Text
  pub companion_data_dir : Result Text Text
  pub parse_url : Text → Option Url
  pub join : Text → Text → Text
  pub crypto : Crypto

-- The contents of the files.
abbrev pub Files : Type 0
Files = Text → Option Text

unfoldable pub put : Text → Option Text → Files → Files
put path content files p = if str_eq path p then content else files p

-- A `platformUpdater`, with its `ManagesDownloads()`.
pub record Platform : Type 0 where
  pub manages_downloads : Bool

-- Where the run of a check stands that holds `updateMu`: none runs, it waits for the feed, or it
-- downloads. Other calls can come in between.
pub data Phase : Type 0 where
  idle : Phase
  fetching : UpdateConfiguration → Bool → Phase
  downloading_release : UpdateConfiguration → Release → Phase

pub record State : Type 0 where
  pub updater : UpdaterSnapshot
  pub update_channel : Text
  pub deferred_update_version : Text
  pub config_writable : Bool
  pub staged_update_path : Text
  pub native_updater : Option Platform
  pub update_relaunch : Bool
  pub quitting : Bool
  -- The version of a `DeferUpdate` that writes the settings; it holds `setupMu` only.
  pub deferring : Option Text
  pub files : Files
  pub phase : Phase

-- `newApp` with a loaded configuration.
unfoldable pub new_state : Build → Text → Text → Bool → Files → State
new_state build update_channel deferred_update_version config_writable files = record {
  updater = record {
    available_version = [];
    channel = channel_text stable;
    current_version = build.version;
    enabled = false;
    last_checked_at = [];
    mandatory = false;
    message = updates_in_official_builds;
    progress = 0;
    ready_to_install = false;
    status = disabled;
  };
  update_channel = update_channel;
  deferred_update_version = deferred_update_version;
  config_writable = config_writable;
  staged_update_path = [];
  native_updater = none;
  update_relaunch = false;
  quitting = false;
  deferring = none;
  files = files;
  phase = idle;
}
