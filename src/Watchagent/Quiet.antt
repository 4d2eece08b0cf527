-- ===== src/Watchagent/Quiet.antt =====
-- Counting the recoveries and the errors in the events of the parts of a cycle.
use wow_markets.Base.{
  ℕ, ◌+◌, ◌≤◌, ◌≡◌, ◌↔◌, refl, sym, subst, Bool, true, false, not, ◌&&◌, ◌||◌, List, [], ◌∷◌, ◌++◌,
  inl, inr, Bool-cases, Option-cases, Result-cases, arith,
}
use wow_markets.Base.Int.{pos}
use wow_markets.Base.Strings.{Text}
use wow_markets.Luasv.Token.{Unicode}
use wow_markets.Scanarchive.Record.{ArchiveRecord}
use wow_markets.Scanarchive.Process.{ScanResult}
use wow_markets.Scanarchive.Store.{StateFile, as_read, read_records, process_source}
use wow_markets.Scanupload.Record.{Record, Uploads, QueueResult}
use wow_markets.Scanupload.Outside.{Time, Library}
use wow_markets.Scanupload.Process.{Agent, process_due}
use wow_markets.Scanupload.Store.{load_uploads}
use wow_markets.Watchagent.{
  Kind, failure, Event, archive_event, upload_event, Signature, same_signature, Watcher,
}
use wow_markets.Watchagent.Archiving.{
  ArchiveWorld, Processed, archive_events, queue_events, queue_stored, queue_records, queue_results,
  process_changed, process_archive,
}
use wow_markets.Watchagent.Uploading.{
  UploadWorld, uploading_events, result_events, all_progressed, process_uploads,
}
use wow_markets.Watchagent.Cycle.{CycleWorld, uploads_due, upload_step}
use wow_markets.Watchagent.Queued.{
  process_archive-unseen, process_archive-changed, process_archive-unchanged,
}

abbrev pub recovered_kind : Kind → ℕ
recovered_kind Kind.recovered = 1
recovered_kind _ = 0

-- What the window reads of an event here: a recovery, and an error of the cycle.
abbrev pub recovered_event : Event → ℕ
recovered_event e = recovered_kind e.kind

abbrev pub error_reported : Event → ℕ
error_reported e = elim e.error [ failure _ ↦ 1 | _ ↦ 0 ]

unfoldable pub total : (Event → ℕ) → List Event → ℕ
total f [] = 0
total f (e ∷ es) = f e + total f es

pub total-append :
    (f : Event → ℕ) (es fs : List Event) → total f (es ++ fs) ≡ total f es + total f fs
unfolding total
total-append f [] fs = omega arith
total-append f (e ∷ es) fs = omega (arith, total-append f es fs)

abbrev pub bit : Bool → ℕ
bit true = 1
bit false = 0

five-total :
    (f : Event → ℕ) (a b c d e : List Event)
    → total f (a ++ b ++ c ++ d ++ e) ≡ total f a + total f b + total f c + total f d + total f e
five-total f a b c d e = omega (
  arith,
  total-append f (a ++ b ++ c ++ d) e,
  total-append f (a ++ b ++ c) d,
  total-append f (a ++ b) c,
  total-append f a b,
)

-- Events that are neither.
abbrev pub Quiet : List Event → Type 0
Quiet es = (total recovered_event es ≡ 0) × (total error_reported es ≡ 0)

append-Quiet : (es fs : List Event) → Quiet es → Quiet fs → Quiet (es ++ fs)
append-Quiet es fs p q =
    omega (arith, total-append recovered_event es fs, total-append error_reported es fs)

-- What a report adds, and all that a cycle emits.
abbrev pub Reports : List Event → Bool → Type 0
Reports es failed = (total recovered_event es ≡ 0) × (total error_reported es ≡ bit failed)

pub cycle-total :
    (a b c d e : List Event) (p q unhealthy : Bool)
    → Quiet a
    → Reports b p
    → Quiet c
    → Reports d q
    → (total recovered_event e ≡ bit (unhealthy && not (p || q))) × (total error_reported e ≡ 0)
    → (total recovered_event (a ++ b ++ c ++ d ++ e) ≡ bit (unhealthy && not (p || q)))
      × (((p || q) ≡ true) ↔ (1 ≤ total error_reported (a ++ b ++ c ++ d ++ e)))
cycle-total a b c d e p q unhealthy qa rb qc rd re =
    ground (arith, five-total recovered_event a b c d e, five-total error_reported a b c d e)

archive_events-Quiet :
    (time : Time) (results : List ScanResult) → Quiet (archive_events time results)
unfolding archive_events total archive_event
archive_events-Quiet time [] = (refl, refl)
archive_events-Quiet time (r ∷ rs) = ground (arith, archive_events-Quiet time rs)

queue_events-Quiet :
    (time : Time) (by : List (Text × ArchiveRecord)) (results : List QueueResult)
    → Quiet (queue_events time by results)
unfolding queue_events total archive_event
queue_events-Quiet time by [] = (refl, refl)
queue_events-Quiet time by (r ∷ rs) = ground (arith, queue_events-Quiet time by rs)

module _ (u : Unicode) (lib : Library) (agent : Agent) (variable_name : Text) where
  uploading_events-Quiet :
      (time : Time) (rs : List Record) → Quiet (uploading_events lib agent time rs)
  unfolding uploading_events total upload_event
  uploading_events-Quiet time [] = (refl, refl)
  uploading_events-Quiet time (r ∷ rs) = ground (arith, uploading_events-Quiet time rs)

  result_events-Quiet : (time : Time) (rs : List Record) → Quiet (result_events lib agent time rs)
  unfolding result_events total upload_event
  result_events-Quiet time [] = (refl, refl)
  result_events-Quiet time (r ∷ rs) = ground (arith, result_events-Quiet time rs)

  queue_records-Quiet :
      (world : ArchiveWorld) (by : List (Text × ArchiveRecord)) (records : List ArchiveRecord)
      (events : List Event) (w : Watcher)
      → Quiet events
      → Quiet (queue_records u lib variable_name world by records events w).events
  unfolding queue_records
  queue_records-Quiet world by records events w q =
      elim (Result-cases (queue_stored u lib variable_name world records w.uploads_file)) [
        | inl ((queued, uploads), ended) ↦
            rw (ended, queue_records)
              (append-Quiet events (queue_events world.time by queued) q
                (queue_events-Quiet world.time by queued))
        | inr (e, failed) ↦ rw (failed, queue_records) q
      ]

  queue_results-Quiet :
      (forced : Bool) (world : ArchiveWorld) (results : List ScanResult) (w : Watcher)
      → Quiet (queue_results u lib variable_name forced world results w).events
  unfolding queue_results
  queue_results-Quiet false world results w =
      queue_records-Quiet world _ _ _ w (archive_events-Quiet world.time results)
  queue_results-Quiet true world results w =
      elim (Result-cases (read_records (as_read world.records_fault w.archive_file))) [
        | inl (all, read) ↦
            rw (read, queue_results)
              (queue_records-Quiet world _ all _ w (archive_events-Quiet world.time results))
        | inr (e, failed) ↦ rw (failed, queue_results) (archive_events-Quiet world.time results)
      ]

  process_changed-Quiet :
      (forced : Bool) (world : ArchiveWorld) (signature : Signature) (w : Watcher)
      → Quiet (process_changed u lib variable_name forced world signature w).events
  unfolding process_changed total
  process_changed-Quiet forced world signature w =
      elim (Result-cases (
        process_source u world.archiver world.source world.first world.second variable_name
          world.write_archive (as_read world.archive_fault w.archive_file))) [
            | inr (e, failed) ↦ rw (failed, process_changed) (refl, refl)
            | inl ((results, scans), ended) ↦
                rw (ended, process_changed) (queue_results-Quiet forced world results _)
          ]

  pub process_archive-Quiet :
      (forced : Bool) (world : ArchiveWorld) (w : Watcher)
      → Quiet (process_archive u lib variable_name forced world w).events
  unfolding total
  process_archive-Quiet forced world w = elim (Result-cases world.stat) [
    | inr (e, failed) ↦
        subst (λ (p : Processed). Quiet p.events)
          (sym (process_archive-unseen u lib variable_name forced world w e failed)) (refl, refl)
    | inl (signature, found) ↦
        elim (Bool-cases (not forced && same_signature signature w.last_signature)) [
          | inl y ↦
              subst (λ (p : Processed). Quiet p.events)
                (sym
                  (process_archive-unchanged u lib variable_name forced world w signature found y))
                (refl, refl)
          | inr n ↦
              subst (λ (p : Processed). Quiet p.events)
                (sym (process_archive-changed u lib variable_name forced world w signature found n))
                (process_changed-Quiet forced world signature w)
        ]
  ]

  process_uploads-Quiet :
      (world : UploadWorld) (file : StateFile Uploads)
      → Quiet (process_uploads lib agent world file).events
  unfolding process_uploads total
  process_uploads-Quiet world file =
      elim (Result-cases (load_uploads (as_read world.uploads_fault file))) [
        | inr (e, failed) ↦ rw (failed, process_uploads) (refl, refl)
        | inl (stored, read) ↦
            let done =
              process_due lib agent (pos 0) world.now world.recover_write world.worlds stored in
            let sending =
              uploading_events-Quiet world.time (all_progressed lib agent world stored) in
            elim (Option-cases done.error) [
              | inr (e, failed) ↦ rw (read, failed, process_uploads) sending
              | inl ended ↦
                  rw (read, ended, process_uploads)
                    (append-Quiet _ _ sending (result_events-Quiet world.time done.results))
            ]
      ]

  pub upload_step-Quiet :
      (queued : Bool) (world : CycleWorld) (w : Watcher)
      → Quiet (upload_step u lib agent variable_name queued world w).0
  unfolding total
  upload_step-Quiet queued world w = elim (Bool-cases (uploads_due world.checked_at queued w)) [
    | inl y ↦ rw y (process_uploads-Quiet world.upload w.uploads_file)
    | inr n ↦ rw n (refl, refl)
  ]
