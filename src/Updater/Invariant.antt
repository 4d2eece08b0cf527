-- ===== src/Updater/Invariant.antt =====
-- What holds of the updater's state between two of its steps.
use wow_markets.Base.{
  ◌≡◌, refl, false≢true, Bool, true, false, not, ◌&&◌, Option, none, some, Bool-cases, Result-cases,
  inl, inr, is_empty, str_eq,
}
use wow_markets.Base.Strings.{Text}
use wow_markets.Updatefeed.Select.{Release}
use wow_markets.Updater.{
  available, preparing_update, Failure, UpdateConfiguration, Build, Phase, idle, fetching,
  downloading_release, State,
}
use wow_markets.Updater.Configuration.{update_configuration}
use wow_markets.Updater.Fetch.{is_offline, fetch_update, download_update}
use wow_markets.Updater.Check.{
  Fetched, Downloaded, leave, set_updater, is_not_promoted, announced, set_updater_error,
  start_check, manages_downloads, fetch_failed, hand_over, take_release, put_off, check_failed,
  after_fetch, after_download,
}
use wow_markets.Updater.Actions.{is_ready}
use wow_markets.Updater.Offers.{IsStagedPath, Configured, Offered, fetch_update-Offered}
use wow_markets.Updater.Staged.{HoldsVersion, Holds, download-ok, download-Holds}

module _ (build : Build) (watched : Option Text) where
  -- A run that waits has a configuration, and one that downloads the release that is announced.
  abbrev pub Working : Phase → Text → Type 0
  Working idle version = Unit
  Working (fetching c manual) version = Configured build c
  Working (downloading_release c r) version = Offered build c r × (version ≡ r.version)

  pub record Inv (s : State) : Type 0 where
    pub working : Working s.phase s.updater.available_version
    pub held :
        is_empty s.staged_update_path ≡ false
        → IsStagedPath build s.staged_update_path × Holds build s.files s.staged_update_path
    pub ready :
        is_ready s.updater.status ≡ true
        → HoldsVersion build s.files s.staged_update_path s.updater.available_version
    -- A path that was staged once, if one is watched.
    pub kept : (p : Text) → watched ≡ some p → IsStagedPath build p × Holds build s.files p

  -- A step that stages nothing and touches no file, and behind which no update is ready.
  pub quiet-Inv :
      (s t : State)
      → Inv s
      → t.files ≡ s.files
      → t.staged_update_path ≡ s.staged_update_path
      → is_ready t.updater.status ≡ false
      → Working t.phase t.updater.available_version
      → Inv t
  quiet-Inv s t h f p n w = record {
    working = w;
    held = λ e. rw (f, p) (h.held (rw p at e));
    ready = λ y. cc;
    kept = λ q e. rw f (h.kept q e);
  }

  -- A step that changes neither what is shown nor the files.
  pub same-Inv :
      (s t : State)
      → Inv s
      → t.files ≡ s.files
      → t.staged_update_path ≡ s.staged_update_path
      → t.updater ≡ s.updater
      → t.phase ≡ s.phase
      → Inv t
  same-Inv s t h f p u w = record {
    working = rw (w, u) h.working;
    held = λ e. rw (f, p) (h.held (rw p at e));
    ready = λ y. rw (f, p, u) (h.ready (rw u at y));
    kept = λ q e. rw f (h.kept q e);
  }

  pub start_check-Inv :
      (manual : Bool) (now : Text) (s : State)
      → s.phase ≡ idle
      → Inv s
      → Inv (start_check build manual now s)
  unfolding start_check set_updater_error
  start_check-Inv manual now s at h =
      elim (Result-cases (update_configuration build s.update_channel)) [
        | inr (e, failed) ↦ rw (failed, start_check) (quiet-Inv s _ h refl refl refl h.working)
        | inl (none, ended) ↦ rw (ended, start_check) h
        | inl (some c, ended) ↦
            rw (ended, start_check) (quiet-Inv s _ h refl refl refl (s.update_channel, ended))
      ]

  fetch_failed-Inv :
      (c : UpdateConfiguration) (e : Failure) (now : Text) (s : State)
      → Inv s
      → Inv (leave (fetch_failed build c e now s))
  unfolding fetch_failed set_updater_error
  fetch_failed-Inv c e now s h = elim (Bool-cases (is_not_promoted build e)) [
    | inl y ↦ rw (y, fetch_failed) (quiet-Inv s _ h refl refl refl tt)
    | inr n ↦ elim (Bool-cases (is_offline e)) [
      | inl y ↦ rw (n, y, fetch_failed) (quiet-Inv s _ h refl refl refl tt)
      | inr m ↦ rw (n, m, fetch_failed) (quiet-Inv s _ h refl refl refl tt)
    ]
  ]

  hand_over-Inv :
      (r : Release) (manual : Bool) (world : Fetched) (s : State)
      → Inv s
      → Inv (leave (hand_over build r manual world s))
  unfolding hand_over set_updater_error
  hand_over-Inv r manual world s h = go manual world.check
    where
      go :
          (manual : Bool) (ended : Option Text)
          → Inv (
              leave (
                check_failed build manual ended world.failed_at
                  (set_updater (announced build r available preparing_update world.checked_at) s)))
      go true (some e) = quiet-Inv s _ h refl refl refl tt
      go true none = quiet-Inv s _ h refl refl refl tt
      go false ended = quiet-Inv s _ h refl refl refl tt

  take_release-Inv :
      (c : UpdateConfiguration) (manual : Bool) (r : Release) (world : Fetched) (s : State)
      → Offered build c r
      → Inv s
      → Inv (take_release build c manual r world s)
  unfolding take_release put_off
  take_release-Inv c manual r world s offered h =
      elim (Bool-cases
        (str_eq s.deferred_update_version r.version && not r.mandatory && not manual)) [
          | inl y ↦ rw (y, take_release) (quiet-Inv s _ h refl refl refl tt)
          | inr n ↦ elim (Bool-cases (manages_downloads build s.native_updater)) [
            | inl y ↦ rw (n, y, take_release) (hand_over-Inv r manual world s h)
            | inr m ↦ rw (n, m, take_release) (quiet-Inv s _ h refl refl refl (offered, refl))
          ]
        ]

  pub after_fetch-Inv :
      (c : UpdateConfiguration) (manual : Bool) (world : Fetched) (s : State)
      → s.phase ≡ fetching c manual
      → Inv s
      → Inv (after_fetch build c manual world s)
  unfolding after_fetch
  after_fetch-Inv c manual world s at h =
      elim (Result-cases (fetch_update build c world.response)) [
        | inr (e, failed) ↦ rw (failed, after_fetch) (fetch_failed-Inv c e world.checked_at s h)
        | inl (none, ended) ↦ rw (ended, after_fetch) (quiet-Inv s _ h refl refl refl tt)
        | inl (some r, ended) ↦
            rw (ended, after_fetch)
              (take_release-Inv c manual r world s
                (fetch_update-Offered build c world.response r (rw at at h.working) ended) h)
      ]

  pub after_download-Inv :
      (c : UpdateConfiguration) (r : Release) (world : Downloaded) (s : State)
      → s.phase ≡ downloading_release c r
      → Inv s
      → Inv (after_download build c r world s)
  unfolding after_download set_updater_error
  after_download-Inv c r world s at h =
      let (offered, announces) = rw at at h.working in
      elim (Result-cases (download_update build c r world.response world.staging s.files).0) [
        | inl (path, ended) ↦
            let (to_path, holds) =
              download-ok build c r world.response world.staging s.files path offered ended in
            rw (ended, after_download)
              (record {
                working = tt;
                held = λ _. (to_path, record { version = r.version; holds = holds });
                ready = λ _. rw announces holds;
                kept = still offered;
              })
        | inr (e, failed) ↦
            rw (failed, after_download)
              (record {
                working = tt;
                held = λ staged.
                    let (to_path, holds) = h.held staged in
                    (
                      to_path,
                      download-Holds build c r world.response world.staging s.files
                          s.staged_update_path offered to_path holds,
                    );
                ready = λ y. absurd (false≢true y);
                kept = still offered;
              })
      ]
    where
      still :
          Offered build c r
          → (p : Text) → watched ≡ some p
          → IsStagedPath build p
            × Holds build (download_update build c r world.response world.staging s.files).1 p
      still offered p e =
          let (to_path, holds) = h.kept p e in
          (
            to_path,
            download-Holds build c r world.response world.staging s.files p offered to_path holds,
          )
