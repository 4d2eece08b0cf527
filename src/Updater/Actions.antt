-- ===== src/Updater/Actions.antt =====
-- `startUpdater`, `stopUpdater`, `SetUpdateChannel`, `DeferUpdate` and `InstallUpdate` of
-- `updater.go`, with `prepareForUpdateRelaunch` and `cancelUpdateRelaunch` of `app.go`. How a call
-- of the system ends, a write of the settings too, is an argument: an error has its text. Each
-- call's result is its error.
use wow_markets.Base.{
  Bool, true, false, not, ◌||◌, [], Option, none, some, if◌then◌else◌, Result, ok, err, is_empty,
}
use wow_markets.Base.Strings.{Text}
use wow_markets.Updatefeed.Feed.{Channel, parse_channel, channel_text}
use wow_markets.Updater.{
  UpdateStatus, current, checking, ready, deferred, error, Failure, platform_failed, up_to_date,
  switching_channel, update_deferred, UpdateConfiguration, Build, Platform, State,
}
use wow_markets.Updater.Configuration.{update_configuration}
use wow_markets.Updater.Check.{set_updater, set_updater_error}

pub data Refusal : Type 0 where
  unsupported_channel : Text → Refusal
  settings_read_only no_update_to_defer mandatory_update no_platform_updater : Refusal
  not_downloaded : Refusal
  save_failed check_failed feed_url_failed relaunch_failed install_failed : Text → Refusal
  not_configured : Failure → Refusal

abbrev pub is_ready : UpdateStatus → Bool
is_ready ready = true
is_ready _ = false

abbrev pub is_deferred : UpdateStatus → Bool
is_deferred deferred = true
is_deferred _ = false

-- The platform's updater, of which a `Start` has ended.
unfoldable pub start_native : UpdateConfiguration → Platform → State → State
start_native configuration platform s =
    if s.quitting
    then s
    else set_updater
        (λ u. record u {
          enabled = true;
          channel = channel_text configuration.channel;
          status = current;
          message = up_to_date;
        })
        (record s { native_updater = some platform })

-- Up to the loop of checks.
unfoldable pub start_updater : Build → Platform → Option Text → Text → State → State
start_updater build platform started now s = elim (update_configuration build s.update_channel) [
  | err e ↦ set_updater_error error e now s
  | ok none ↦ s
  | ok (some configuration) ↦ elim started [
    | some e ↦ set_updater_error error (platform_failed e) now s
    | none ↦ start_native configuration platform s
  ]
]

unfoldable pub stop_updater : State → State
stop_updater s = record s { native_updater = none }

abbrev pub switched : Channel → State → State
switched channel s =
    set_updater
      (λ u. record u {
        channel = channel_text channel;
        status = checking;
        message = switching_channel;
        ready_to_install = false;
      })
      (record s {
        update_channel = channel_text channel;
        deferred_update_version = [];
        staged_update_path = [];
      })

-- `native.SetFeedURL`, where there is a configuration and a platform's updater.
abbrev pub point_to_feed :
    Option UpdateConfiguration → Option Platform → Option Text → Option Refusal
point_to_feed (some configuration) (some platform) (some e) = some (feed_url_failed e)
point_to_feed _ _ _ = none

-- Up to the check that it starts.
unfoldable pub set_update_channel :
    Build → Text → Option Text → Option Text → State → Option Refusal × State
set_update_channel build value save feed s = elim (parse_channel value) [
  | none ↦ (some (unsupported_channel value), s)
  | some channel ↦ if not s.config_writable then (some settings_read_only, s) else elim save [
    | some e ↦ (some (save_failed e), s)
    | none ↦ elim (update_configuration build (channel_text channel)) [
      | err e ↦ (some (not_configured e), switched channel s)
      | ok configuration ↦ (point_to_feed configuration s.native_updater feed, switched channel s)
    ]
  ]
]

-- The tests of `DeferUpdate`, up to its write of the settings: the version to defer.
unfoldable pub version_to_defer : State → Result Refusal Text
version_to_defer s =
    if is_empty s.updater.available_version
    then err no_update_to_defer
    else if s.updater.mandatory
    then err mandatory_update
    else if not s.config_writable
    then err settings_read_only
    else ok s.updater.available_version

unfoldable pub begin_deferral : State → Option Refusal × State
begin_deferral s = elim (version_to_defer s) [
  | err e ↦ (some e, s)
  | ok version ↦ (none, record s { deferring = some version })
]

-- Behind the write.
unfoldable pub end_deferral : Text → Option Text → State → Option Refusal × State
end_deferral version (some e) s = (some (save_failed e), record s { deferring = none })
end_deferral version none s = (
  none,
  set_updater (λ u. record u { status = deferred; message = update_deferred })
      (record s { deferred_update_version = version; deferring = none }),
)

-- `DeferUpdate` when no other call comes in between.
unfoldable pub defer_update : Option Text → State → Option Refusal × State
defer_update save s = elim (version_to_defer s) [
  | err e ↦ (some e, s)
  | ok version ↦ end_deferral version save (record s { deferring = some version })
]

-- What `InstallUpdate` has done: its error, and the path that the platform's updater was given.
pub record Installed : Type 0 where
  pub refusal : Option Refusal
  pub launched : Option Text

abbrev pub refused : Refusal → Installed
refused e = record { refusal = some e; launched = none }

-- How its calls end, and the time.
pub record Installing : Type 0 where
  pub check : Option Text
  pub persist : Option Text
  pub install : Option Text
  pub now : Text

-- Behind the tests.
unfoldable pub launch : Text → Installing → State → Installed × State
launch path world s =
    let prepared = record s { update_relaunch = true } in
    elim world.persist [
      | some e ↦ (
        refused (relaunch_failed e),
        set_updater_error error (platform_failed e) world.now prepared,
      )
      | none ↦ elim world.install [
        | some e ↦ (
          record { refusal = some (install_failed e); launched = some path },
          set_updater_error error (platform_failed e) world.now
              (record s { update_relaunch = false }),
        )
        | none ↦ (
          record { refusal = none; launched = some path },
          stop_updater (record prepared { quitting = true }),
        )
      ]
    ]

abbrev pub not_installable : State → Bool
not_installable s =
    not (is_ready s.updater.status || is_deferred s.updater.status) || is_empty s.staged_update_path

unfoldable pub install_update : Installing → State → Installed × State
install_update world s = elim s.native_updater [
  | none ↦ (refused no_platform_updater, s)
  | some platform ↦
      if platform.manages_downloads
      then elim world.check [
        | some e ↦ (refused (check_failed e), s)
        | none ↦ (record { refusal = none; launched = none }, s)
      ]
      else if not_installable s
      then (refused not_downloaded, s)
      else launch s.staged_update_path world s
]
