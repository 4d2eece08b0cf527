-- ===== src/Watchagent/Recovery.antt =====
-- When a cycle reports a recovery, and how often a run does.
use wow_markets.Base.{
  ◌+◌, ◌≤◌, ◌≡◌, ◌↔◌, refl, Bool, true, false, not, ◌&&◌, ◌||◌, List, [], ◌∷◌, ◌++◌, Option, none,
  some, inl, inr, Bool-cases, arith,
}
use wow_markets.Base.Strings.{Text}
use wow_markets.Luasv.Token.{Unicode}
use wow_markets.Scanarchive.Process.{Archive}
use wow_markets.Scanarchive.Store.{StateFile}
use wow_markets.Scanupload.Record.{Uploads}
use wow_markets.Scanupload.Outside.{Time, Library}
use wow_markets.Scanupload.Process.{Agent}
use wow_markets.Watchagent.{WatchError, Kind, plain_event, Watcher, new_watcher, watcher_stopped}
use wow_markets.Watchagent.Archiving.{process_archive}
use wow_markets.Watchagent.Cycle.{
  CycleWorld, is_cancelled, upload_step, failure_of, queued_of, report, recovery, run_cycle,
  run_ticks, run,
}
use wow_markets.Watchagent.Quiet.{
  recovered_kind, recovered_event, error_reported, bit, total, total-append, cycle-total,
  process_archive-Quiet, upload_step-Quiet,
}

module _ (u : Unicode) (lib : Library) (agent : Agent) (variable_name : Text) where
  report-total :
      (kind : Kind) (time : Time) (e : Option WatchError)
      → recovered_kind kind ≡ 0
      → (total recovered_event (report kind time e).0 ≡ 0)
        × (total error_reported (report kind time e).0 ≡ bit (report kind time e).1)
  unfolding total
  report-total kind time none k = (refl, refl)
  report-total kind time (some e) k = elim (Bool-cases (is_cancelled e)) [
    | inl y ↦ rw y (refl, refl)
    | inr n ↦ rw n (rw k refl, refl)
  ]

  recovery-total :
      (unhealthy cycle_failed : Bool) (time : Time)
      → (total recovered_event (recovery unhealthy cycle_failed time)
          ≡ bit (unhealthy && not cycle_failed))
        × (total error_reported (recovery unhealthy cycle_failed time) ≡ 0)
  unfolding total
  recovery-total true true time = (refl, refl)
  recovery-total true false time = (refl, refl)
  recovery-total false cycle_failed time = (refl, refl)

  -- A cycle reports one recovery if the cycle before it failed and it does not, and fails exactly
  -- if it reports an error of its own.
  pub run_cycle-recovered :
      (forced : Bool) (world : CycleWorld) (w : Watcher)
      → let done = run_cycle u lib agent variable_name forced world w in
        (total recovered_event done.0 ≡ bit (w.unhealthy && not done.1.unhealthy))
        × ((done.1.unhealthy ≡ true) ↔ (1 ≤ total error_reported done.0))
  unfolding run_cycle
  run_cycle-recovered forced world w =
      let archived = process_archive u lib variable_name forced world.archive w in
      let first = report Kind.archive_error world.time (failure_of archived.result) in
      let step =
        upload_step u lib agent variable_name (queued_of archived.result) world archived.watcher in
      let second = report Kind.upload_error world.time step.1 in
      let last = recovery w.unhealthy (first.1 || second.1) world.time in
      cycle-total archived.events first.0 step.0 second.0 last first.1 second.1 w.unhealthy
        (process_archive-Quiet u lib agent variable_name forced world.archive w)
        (report-total Kind.archive_error world.time (failure_of archived.result) refl)
        (upload_step-Quiet u lib agent variable_name (queued_of archived.result) world
          archived.watcher)
        (report-total Kind.upload_error world.time step.1 refl)
        (recovery-total w.unhealthy (first.1 || second.1) world.time)

  cycle-balance :
      (forced : Bool) (world : CycleWorld) (w : Watcher)
      → let done = run_cycle u lib agent variable_name forced world w in
        total recovered_event done.0 + bit done.1.unhealthy
        ≤ total error_reported done.0 + bit w.unhealthy
  cycle-balance forced world w = ground (arith, run_cycle-recovered forced world w)

  run_ticks-balance :
      (worlds : List CycleWorld) (w : Watcher)
      → let done = run_ticks u lib agent variable_name worlds w in
        total recovered_event done.0 + bit done.1.unhealthy
        ≤ total error_reported done.0 + bit w.unhealthy
  unfolding run_ticks total
  run_ticks-balance [] w = omega arith
  run_ticks-balance (world ∷ worlds) w =
      let cycle = run_cycle u lib agent variable_name false world w in
      let rest = run_ticks u lib agent variable_name worlds cycle.1 in
      omega (
        arith,
        cycle-balance false world w,
        run_ticks-balance worlds cycle.1,
        total-append recovered_event cycle.0 rest.0,
        total-append error_reported cycle.0 rest.0,
      )

  -- Over any run, whatever its cycles meet, the recoveries that are reported, with one more while
  -- the last cycle has failed, are at most the errors that the cycles themselves report.
  pub run-recoveries_bounded :
      (started_at stopped_at : Time) (first : CycleWorld) (worlds : List CycleWorld)
      (archives : StateFile Archive) (uploads : StateFile Uploads)
      → let done =
          run u lib agent variable_name started_at first worlds stopped_at
            (new_watcher archives uploads) in
        total recovered_event done.0 + bit done.1.unhealthy ≤ total error_reported done.0
  unfolding run total new_watcher
  run-recoveries_bounded started_at stopped_at first worlds archives uploads =
      let w = new_watcher archives uploads in
      let cycle = run_cycle u lib agent variable_name true first w in
      let rest = run_ticks u lib agent variable_name worlds cycle.1 in
      let stop = plain_event Kind.status watcher_stopped stopped_at ∷ [] in
      omega (
        arith,
        cycle-balance true first w,
        run_ticks-balance worlds cycle.1,
        total-append recovered_event (cycle.0 ++ rest.0) stop,
        total-append error_reported (cycle.0 ++ rest.0) stop,
        total-append recovered_event cycle.0 rest.0,
        total-append error_reported cycle.0 rest.0,
      )
