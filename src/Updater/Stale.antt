-- ===== src/Updater/Stale.antt =====
-- What a download that fails leaves behind.
use wow_markets.Base.{◌≡◌, true, false, none, some, err, is_empty, arith}
use wow_markets.Updatefeed.Select.{Release}
use wow_markets.Updater.{Failure, UpdateConfiguration, Build, Platform, State}
use wow_markets.Updater.Fetch.{receive, download_update}
use wow_markets.Updater.Check.{Downloaded, after_download, set_updater_error}
use wow_markets.Updater.Actions.{
  Installing, version_to_defer, end_deferral, defer_update, launch, install_update,
}

-- When an update is staged, and the download of a next that is not mandatory fails before it
-- stages anything, a deferral of the version that is shown makes InstallUpdate launch the staged
-- file as it was, on a platform that does not manage downloads.
pub install_update-stale :
    (build : Build) (c : UpdateConfiguration) (r : Release) (world : Downloaded)
    (installing : Installing) (s : State) (e : Failure) (platform : Platform)
    → receive build c r world.response ≡ err e
    → is_empty s.staged_update_path ≡ false
    → is_empty s.updater.available_version ≡ false
    → s.updater.mandatory ≡ false
    → s.config_writable ≡ true
    → s.native_updater ≡ some platform
    → platform.manages_downloads ≡ false
    → installing.persist ≡ none
    → let t = (defer_update none (after_download build c r world s)).1 in
      ((install_update installing t).0.launched ≡ some s.staged_update_path)
      × (t.files s.staged_update_path ≡ s.files s.staged_update_path)
      × (t.updater.available_version ≡ s.updater.available_version)
unfolding after_download download_update set_updater_error defer_update version_to_defer
    end_deferral install_update launch
install_update-stale build c r world installing s e platform failed staged shown optional writable
      native manages persisted =
    ground arith
