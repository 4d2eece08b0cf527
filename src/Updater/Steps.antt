-- ===== src/Updater/Steps.antt =====
-- The calls of `updater.go` on the shared state, in any order in which the mutexes let them come:
-- one check at a time runs, and `DeferUpdate` and `SetUpdateChannel` exclude each other.
use wow_markets.Base.{Bool, Option, none, some, ◌≡◌}
use wow_markets.Base.Strings.{Text}
use wow_markets.Updatefeed.Select.{Release}
use wow_markets.Updater.{
  UpdateConfiguration, Build, Platform, idle, fetching, downloading_release, State,
}
use wow_markets.Updater.Check.{Fetched, Downloaded, start_check, after_fetch, after_download}
use wow_markets.Updater.Actions.{
  Installing, start_updater, stop_updater, set_update_channel, begin_deferral, end_deferral,
  install_update,
}

pub data Step (build : Build) : State → State → Type 0 where
  start :
      (s : State) (platform : Platform) (started : Option Text) (now : Text)
      → Step build s (start_updater build platform started now s)
  stop : (s : State) → Step build s (stop_updater s)
  check :
      (s : State) (manual : Bool) (now : Text)
      → s.phase ≡ idle
      → Step build s (start_check build manual now s)
  fetch :
      (s : State) (configuration : UpdateConfiguration) (manual : Bool) (world : Fetched)
      → s.phase ≡ fetching configuration manual
      → Step build s (after_fetch build configuration manual world s)
  download :
      (s : State) (configuration : UpdateConfiguration) (release : Release) (world : Downloaded)
      → s.phase ≡ downloading_release configuration release
      → Step build s (after_download build configuration release world s)
  switch_channel :
      (s : State) (value : Text) (save feed : Option Text)
      → s.deferring ≡ none
      → Step build s (set_update_channel build value save feed s).1
  defer : (s : State) → s.deferring ≡ none → Step build s (begin_deferral s).1
  save_deferral :
      (s : State) (version : Text) (save : Option Text)
      → s.deferring ≡ some version
      → Step build s (end_deferral version save s).1
  install : (s : State) (world : Installing) → Step build s (install_update world s).1

pub data Reach (build : Build) (s : State) : State → Type 0 where
  here : Reach build s s
  next : {t u : State} → Reach build s t → Step build t u → Reach build s u
