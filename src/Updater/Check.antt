-- ===== src/Updater/Check.antt =====
-- `runUpdateCheck` of `updater.go`, cut where it waits: up to the request of the feed, from its
-- answer to the download's request, and behind the download. Other calls can change the state in
-- between, since only `updateMu` is held there.
use wow_markets.Base.{
  Bool, true, false, not, ◌&&◌, [], Option, none, some, if◌then◌else◌, ok, err, str_eq,
}
use wow_markets.Base.Strings.{Text}
use wow_markets.Updatefeed.Select.{Release}
use wow_markets.Updatefeed.Feed.{channel_text}
use wow_markets.Updater.{
  UpdateStatus, current, checking, downloading, available, ready, deferred, offline, error, Failure,
  no_promoted_update, platform_failed, Message, up_to_date, checking_for_updates,
  no_release_promoted, update_deferred, preparing_update, downloading_update, update_verified,
  updates_not_checked, verification_failed, UpdaterSnapshot, UpdateConfiguration, Build, Platform,
  idle, fetching, downloading_release, State,
}
use wow_markets.Updater.Configuration.{update_configuration}
use wow_markets.Updater.Fetch.{Response, Staging, is_offline, fetch_update, download_update}

abbrev pub set_updater : (UpdaterSnapshot → UpdaterSnapshot) → State → State
set_updater change s = record s { updater = change s.updater }

abbrev pub leave : State → State
leave s = record s { phase = idle }

abbrev pub error_message : UpdateStatus → Failure → Message
error_message offline e = updates_not_checked
error_message _ e = verification_failed e

-- `setUpdaterError`, at a time in RFC 3339.
unfoldable pub set_updater_error : UpdateStatus → Failure → Text → State → State
set_updater_error status e now s =
    set_updater
      (λ u. record u {
        status = status;
        progress = 0;
        message = error_message status e;
        last_checked_at = now;
      })
      s

-- What the second part meets: the feed's answer, the time behind it, how `native.Check()` ends,
-- and the time behind that.
pub record Fetched : Type 0 where
  pub response : Response
  pub checked_at : Text
  pub check : Option Text
  pub failed_at : Text

pub record Downloaded : Type 0 where
  pub response : Response
  pub staging : Staging
  pub failed_at : Text

module _ (build : Build) where
  -- A nil configuration ends the run.
  abbrev pub begin_fetch : Option UpdateConfiguration → Bool → State → State
  begin_fetch none manual s = s
  begin_fetch (some configuration) manual s =
      set_updater
        (λ u. record u {
          enabled = true;
          channel = channel_text configuration.channel;
          status = checking;
          message = checking_for_updates;
          progress = 0;
          ready_to_install = false;
        })
        (record s { phase = fetching configuration manual })

  unfoldable pub start_check : Bool → Text → State → State
  start_check manual now s = elim (update_configuration build s.update_channel) [
    | err e ↦ set_updater_error error e now s
    | ok configuration ↦ begin_fetch configuration manual s
  ]

  -- No release is there, and why.
  abbrev pub nothing_newer : Message → Text → State → State
  nothing_newer message now s =
      set_updater
        (λ u. record u {
          status = current;
          message = message;
          available_version = [];
          mandatory = false;
          progress = 0;
          ready_to_install = false;
          last_checked_at = now;
        })
        s

  -- `errors.Is(err, errNoPromotedUpdate)`
  abbrev pub is_not_promoted : Failure → Bool
  is_not_promoted (no_promoted_update status) = true
  is_not_promoted _ = false

  unfoldable pub fetch_failed : UpdateConfiguration → Failure → Text → State → State
  fetch_failed configuration e now s =
      if is_not_promoted e
      then nothing_newer (no_release_promoted configuration.channel) now s
      else set_updater_error (if is_offline e then offline else error) e now s

  abbrev pub manages_downloads : Option Platform → Bool
  manages_downloads none = false
  manages_downloads (some platform) = platform.manages_downloads

  unfoldable pub put_off : Release → Text → State → State
  put_off release now s =
      set_updater
        (λ u. record u {
          status = deferred;
          message = update_deferred;
          available_version = release.version;
          mandatory = false;
          last_checked_at = now;
        })
        s

  abbrev pub announced : Release → UpdateStatus → Message → Text → UpdaterSnapshot → UpdaterSnapshot
  announced release status message now u = record u {
    status = status;
    message = message;
    available_version = release.version;
    mandatory = release.mandatory;
    ready_to_install = false;
    last_checked_at = now;
  }

  abbrev pub check_failed : Bool → Option Text → Text → State → State
  check_failed true (some e) now s = set_updater_error error (platform_failed e) now s
  check_failed _ _ now s = s

  unfoldable pub hand_over : Release → Bool → Fetched → State → State
  hand_over release manual world s =
      check_failed manual world.check world.failed_at
        (set_updater (announced release available preparing_update world.checked_at) s)

  -- A release is there.
  unfoldable pub take_release : UpdateConfiguration → Bool → Release → Fetched → State → State
  take_release configuration manual release world s =
      if str_eq s.deferred_update_version release.version && not release.mandatory && not manual
      then leave (put_off release world.checked_at s)
      else if manages_downloads s.native_updater
      then leave (hand_over release manual world s)
      else set_updater (announced release downloading downloading_update world.checked_at)
          (record s { phase = downloading_release configuration release })

  unfoldable pub after_fetch : UpdateConfiguration → Bool → Fetched → State → State
  after_fetch configuration manual world s =
      elim (fetch_update build configuration world.response) [
        | err e ↦ leave (fetch_failed configuration e world.checked_at s)
        | ok none ↦ leave (nothing_newer up_to_date world.checked_at s)
        | ok (some release) ↦ take_release configuration manual release world s
      ]

  abbrev pub staged : Text → State → State
  staged path s =
      set_updater
        (λ u. record u {
          status = ready;
          message = update_verified;
          progress = 100;
          ready_to_install = true;
        })
        (record s { staged_update_path = path })

  unfoldable pub after_download : UpdateConfiguration → Release → Downloaded → State → State
  after_download configuration release world s =
      let (result, files) =
        download_update build configuration release world.response world.staging s.files in
      let behind = leave (record s { files = files }) in
      elim result [
        | err e ↦ set_updater_error error e world.failed_at behind
        | ok path ↦ staged path behind
      ]

  abbrev pub finish_check : Downloaded → State → State
  finish_check world s = elim s.phase [
    | downloading_release configuration release ↦ after_download configuration release world s
    | _ ↦ s
  ]

  -- The whole run, when no other call comes in between.
  unfoldable pub run_update_check : Bool → Text → Fetched → Downloaded → State → State
  run_update_check manual now fetched downloaded s =
      let started = start_check manual now s in
      elim started.phase [
        | fetching configuration asked ↦
            finish_check downloaded (after_fetch configuration asked fetched started)
        | _ ↦ started
      ]
