-- ===== src/Updater/Launched.antt =====
-- What holds of the state that the calls reach, and of the artifact that is launched.
use wow_markets.Base.{
  ◌≡◌, refl, sym, false≢true, subst, Bool, true, false, not, ◌||◌, Option, none, some, Bool-cases,
  Option-cases, Result-cases, inl, inr, is_empty, arith,
}
use mathlib.Core.Option.{some-injective}
use wow_markets.Base.Strings.{Text}
use wow_markets.Updatefeed.Feed.{Channel, channel_text, parse_channel}
use wow_markets.Updater.{
  error, platform_failed, UpdateConfiguration, Build, Files, Platform, State, new_state,
}
use wow_markets.Updater.Configuration.{update_configuration}
use wow_markets.Updater.Check.{set_updater_error}
use wow_markets.Updater.Actions.{
  Installing, is_ready, start_native, start_updater, stop_updater, switched, set_update_channel,
  version_to_defer, begin_deferral, end_deferral, not_installable, launch, install_update,
  is_deferred,
}
use wow_markets.Updater.Offers.{IsStagedPath}
use wow_markets.Updater.Staged.{HoldsVersion, Holds}
use wow_markets.Updater.Steps.{
  Step, Reach, start, stop, check, fetch, download, switch_channel, defer, save_deferral, install,
  here, next,
}
use wow_markets.Updater.Invariant.{
  Inv, quiet-Inv, same-Inv, start_check-Inv, after_fetch-Inv, after_download-Inv,
}

module _ (build : Build) (watched : Option Text) where
  pub start_updater-Inv :
      (platform : Platform) (started : Option Text) (now : Text) (s : State)
      → Inv build watched s
      → Inv build watched (start_updater build platform started now s)
  unfolding start_updater start_native set_updater_error
  start_updater-Inv platform started now s h =
      elim (Result-cases (update_configuration build s.update_channel)) [
        | inr (e, failed) ↦
            rw (failed, start_updater) (quiet-Inv build watched s _ h refl refl refl h.working)
        | inl (none, ended) ↦ rw (ended, start_updater) h
        | inl (some c, ended) ↦ rw (ended, start_updater) (with_native c started)
      ]
    where
      with_native :
          (c : UpdateConfiguration) (started : Option Text)
          → Inv build watched (elim started as (λ _. State) [
            | some e ↦ set_updater_error error (platform_failed e) now s
            | none ↦ start_native c platform s
          ])
      with_native c (some e) = quiet-Inv build watched s _ h refl refl refl h.working
      with_native c none = elim (Bool-cases s.quitting) [
        | inl y ↦ rw (y, start_native) (same-Inv build watched s _ h refl refl refl refl)
        | inr n ↦ rw (n, start_native) (quiet-Inv build watched s _ h refl refl refl h.working)
      ]

  pub stop_updater-Inv : (s : State) → Inv build watched s → Inv build watched (stop_updater s)
  unfolding stop_updater
  stop_updater-Inv s h = same-Inv build watched s _ h refl refl refl refl

  pub end_deferral-Inv :
      (version : Text) (save : Option Text) (s : State)
      → Inv build watched s
      → Inv build watched (end_deferral version save s).1
  unfolding end_deferral
  end_deferral-Inv version (some e) s h = same-Inv build watched s _ h refl refl refl refl
  end_deferral-Inv version none s h = quiet-Inv build watched s _ h refl refl refl h.working

  pub begin_deferral-Inv :
      (s : State) → Inv build watched s → Inv build watched (begin_deferral s).1
  unfolding begin_deferral
  begin_deferral-Inv s h = elim (Result-cases (version_to_defer s)) [
    | inr (e, refused) ↦ rw (refused, begin_deferral) h
    | inl (version, taken) ↦
        rw (taken, begin_deferral) (same-Inv build watched s _ h refl refl refl refl)
  ]

  switched-Inv : (c : Channel) (s : State) → Inv build watched s → Inv build watched (switched c s)
  switched-Inv c s h = record {
    working = h.working;
    held = λ e. absurd (false≢true (sym e));
    ready = λ y. absurd (false≢true y);
    kept = h.kept;
  }

  set_update_channel-Inv :
      (value : Text) (save feed : Option Text) (s : State)
      → Inv build watched s
      → Inv build watched (set_update_channel build value save feed s).1
  unfolding set_update_channel
  set_update_channel-Inv value save feed s h = elim (Option-cases (parse_channel value)) [
    | inl refused ↦ rw (refused, set_update_channel) h
    | inr (c, read) ↦ elim (Bool-cases (not s.config_writable)) [
      | inl y ↦ rw (read, y, set_update_channel) h
      | inr n ↦ elim (Option-cases save) [
        | inr (e, failed) ↦ rw (read, n, failed, set_update_channel) h
        | inl saved ↦ elim (Result-cases (update_configuration build (channel_text c))) [
          | inl (configuration, ended) ↦
              rw (read, n, saved, ended, set_update_channel) (switched-Inv c s h)
          | inr (e, ended) ↦ rw (read, n, saved, ended, set_update_channel) (switched-Inv c s h)
        ]
      ]
    ]
  ]

  launch-Inv :
      (path : Text) (world : Installing) (s : State)
      → Inv build watched s
      → Inv build watched (launch path world s).1
  unfolding launch set_updater_error stop_updater
  launch-Inv path world s h = elim (Option-cases world.persist) [
    | inr (e, failed) ↦ rw (failed, launch) (quiet-Inv build watched s _ h refl refl refl h.working)
    | inl persisted ↦ elim (Option-cases world.install) [
      | inr (e, failed) ↦
          rw (persisted, failed, launch) (quiet-Inv build watched s _ h refl refl refl h.working)
      | inl installed ↦
          rw (persisted, installed, launch) (same-Inv build watched s _ h refl refl refl refl)
    ]
  ]

  install_update-Inv :
      (world : Installing) (s : State)
      → Inv build watched s
      → Inv build watched (install_update world s).1
  unfolding install_update
  install_update-Inv world s h = elim (Option-cases s.native_updater) [
    | inl absent ↦ rw (absent, install_update) h
    | inr (platform, present) ↦ elim (Bool-cases platform.manages_downloads) [
      | inl y ↦ elim (Option-cases world.check) [
        | inl checked ↦ rw (present, y, checked, install_update) h
        | inr (e, failed) ↦ rw (present, y, failed, install_update) h
      ]
      | inr n ↦ elim (Bool-cases (not_installable s)) [
        | inl y ↦ rw (present, n, y, install_update) h
        | inr m ↦ rw (present, n, m, install_update) (launch-Inv s.staged_update_path world s h)
      ]
    ]
  ]

  -- Every step keeps the invariant.
  Step-Inv : {s t : State} → Step build s t → Inv build watched s → Inv build watched t
  Step-Inv (start s platform started now) h = start_updater-Inv platform started now s h
  Step-Inv (stop s) h = stop_updater-Inv s h
  Step-Inv (check s manual now at) h = start_check-Inv build watched manual now s at h
  Step-Inv (fetch s c manual world at) h = after_fetch-Inv build watched c manual world s at h
  Step-Inv (download s c r world at) h = after_download-Inv build watched c r world s at h
  Step-Inv (switch_channel s value save feed _) h = set_update_channel-Inv value save feed s h
  Step-Inv (defer s _) h = begin_deferral-Inv s h
  Step-Inv (save_deferral s version save _) h = end_deferral-Inv version save s h
  Step-Inv (install s world) h = install_update-Inv world s h

  pub Reach-Inv : {s t : State} → Inv build watched s → Reach build s t → Inv build watched t
  Reach-Inv h here = h
  Reach-Inv h (next before step) = Step-Inv step (Reach-Inv h before)

pub new_state-Inv :
    (build : Build) (channel deferred : Text) (writable : Bool) (files : Files)
    → Inv build none (new_state build channel deferred writable files)
unfolding new_state
new_state-Inv build channel deferred writable files = record {
  working = tt;
  held = λ e. absurd (false≢true (sym e));
  ready = λ y. absurd (false≢true y);
  kept = λ p e. cc;
}

watched-Inv :
    (build : Build) (s : State) (path : Text)
    → Inv build none s
    → IsStagedPath build path
    → Holds build s.files path
    → Inv build (some path) s
watched-Inv build s path h to_path holds = record {
  working = h.working;
  held = h.held;
  ready = h.ready;
  kept = λ p e.
      let same = some-injective path p e in
      (subst (IsStagedPath build) same to_path, subst (Holds build s.files) same holds);
}

-- The path that `InstallUpdate` gives is that of the staged update, which is ready or deferred.
install_update-launched :
    (world : Installing) (s : State) (path : Text)
    → (install_update world s).0.launched ≡ some path
    → (s.staged_update_path ≡ path)
      × (is_empty s.staged_update_path ≡ false)
      × ((is_ready s.updater.status || is_deferred s.updater.status) ≡ true)
unfolding install_update launch
install_update-launched world s path h = ground arith

-- In whatever order checks, deferrals, channel switches and installations come, when
-- `InstallUpdate` gives a path to the platform, the file there is and stays, while only the
-- updater writes to it, the artifact of a release that Select chose from a signed feed, with its
-- own asset address, its length and a good signature; when the status is ready, of the version
-- that is shown.
pub install_update-Holds :
    (build : Build) (channel deferred : Text) (writable : Bool) (files : Files) (s t : State)
    (world : Installing) (path : Text)
    → Reach build (new_state build channel deferred writable files) s
    → (install_update world s).0.launched ≡ some path
    → Reach build s t
    → Holds build t.files path
      × (is_ready s.updater.status ≡ true
          → HoldsVersion build s.files path s.updater.available_version)
install_update-Holds build channel deferred writable files s t world path before h after =
    let inv = Reach-Inv build none (new_state-Inv build channel deferred writable files) before in
    let (same, staged, _) = install_update-launched world s path h in
    let (to_path, holds) = inv.held staged in
    let now =
      watched-Inv build s path inv (subst (IsStagedPath build) same to_path)
        (subst (Holds build s.files) same holds) in
    (
      ((Reach-Inv build (some path) now after).kept path refl).1,
      λ y. subst (λ p. HoldsVersion build s.files p s.updater.available_version) same (inv.ready y),
    )
