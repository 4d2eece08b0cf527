-- ===== src/Watchagent/Queued.antt =====
-- What a call of `processArchive` does.
use wow_markets.Base.{
  ◌≡◌, ◌⊎◌, refl, sym, ap, ◌∙◌, subst, Bool, true, false, false≢true, not, ◌&&◌, List, [], ◌∷◌,
  some, inl, inr, Bool-cases, Option-cases, Result-cases, All, ok, err, wrap, wrap-eq-ok, >>=-eq-ok,
  if◌then◌else◌,
}
use wow_markets.Base.Maps.{lookup, text_key}
use wow_markets.Base.Strings.{Text}
use wow_markets.Luasv.Token.{Unicode}
use wow_markets.Exportfmt.Scan.{Scan, Database}
use wow_markets.Exportfmt.Validate.Spec.{ScanValid}
use wow_markets.Scanfile.{load}
use wow_markets.Scanfile.Loaded.{load-ScanValid}
use wow_markets.Scanarchive.Record.{ArchiveRecord}
use wow_markets.Scanarchive.Process.{Archive, Archiver, ScanResult}
use wow_markets.Scanarchive.Process.Archives.{AllArchived, process_file-AllArchived}
use wow_markets.Scanarchive.Store.{
  StateFile, as_read, load_archive, load_state, written, unresolved_source, not_loaded, bad_state,
  not_archived, archive_records, read_records, process_source,
}
use wow_markets.Scanarchive.Store.Listed.{All-archive_records}
use wow_markets.Scanupload.Record.{Uploads, QueueResult}
use wow_markets.Scanupload.Outside.{Library}
use wow_markets.Scanupload.Store.{load_uploads}
use wow_markets.Scanupload.Queue.Kept.{Queueable, HasRecord}
use wow_markets.Scanupload.Queue.Correct.{queue-Queues}
use wow_markets.Watchagent.{
  not_inspected, uploads_unread, not_queued, Event, Signature, same_signature, Watcher,
}
use wow_markets.Watchagent.Archiving.{
  ArchiveWorld, Processed, result_records, queue_stored, queue_records, queue_results,
  process_changed, process_archive, unprocessed,
}

abbrev pub InQueue : Uploads → ArchiveRecord → Type 0
InQueue uploads r = Queueable r → HasRecord uploads r.checksum

All-result_records :
    (P : ArchiveRecord → Type 0) (results : List ScanResult)
    → All P (result_records results)
    → All (λ (s : ScanResult). P s.record_of) results
unfolding result_records
All-result_records P [] h = tt
All-result_records P (r ∷ rs) (p, h) = (p, All-result_records P rs h)

not_forced : (forced b : Bool) → (not forced && b) ≡ true → forced ≡ false
not_forced false b h = refl
not_forced true b h = cc

module _ (u : Unicode) (lib : Library) (variable_name : Text) where
  -- The file is loaded, its scans are valid and archived, and the archived records that are
  -- complete are queued: those of the file, and those of the whole archive in a forced run.
  pub record Handled (forced : Bool) (world : ArchiveWorld) (after : Watcher) : Type 0 where
    pub path : Text
    pub database : Database
    pub results : List ScanResult
    pub scans : Archive
    pub uploads : Uploads
    pub loaded : load u world.first world.second variable_name ≡ ok database
    pub valid : All ScanValid database.scans
    pub archived : AllArchived world.archiver path scans database.scans results
    pub in_queue : All (λ (r : ScanResult). InQueue uploads r.record_of) results
    pub all_in_queue :
        forced ≡ true → (k : Text) (r : ArchiveRecord) → lookup k scans ≡ some r → InQueue uploads r
    pub archive_is : after.archive_file ≡ written scans
    pub uploads_is : after.uploads_file ≡ written uploads

  queue_stored-Queues :
      (world : ArchiveWorld) (records : List ArchiveRecord) (file : StateFile Uploads)
      (queued : List QueueResult) (after : Uploads)
      → queue_stored u lib variable_name world records file ≡ ok (queued, after)
      → All (InQueue after) records
  queue_stored-Queues world records file queued after h =
      let (stored, _, last) =
        >>=-eq-ok (wrap uploads_unread (load_uploads (as_read world.uploads_fault file))) _ h in
      (queue-Queues lib world.queued_at world.write_uploads stored records queued after
        (wrap-eq-ok not_queued _ last)).present

  -- What a run of `queue_records` that ends without an error leaves.
  queue_records-InQueue :
      (world : ArchiveWorld) (by : List (Text × ArchiveRecord)) (records : List ArchiveRecord)
      (events : List Event) (w : Watcher) (some_queued : Bool)
      → (queue_records u lib variable_name world by records events w).result ≡ ok some_queued
      → (uploads : Uploads) × All (InQueue uploads) records
        × ((queue_records u lib variable_name world by records events w).watcher
            ≡ record w { uploads_file = written uploads })
  unfolding queue_records
  queue_records-InQueue world by records events w some_queued h =
      elim (Result-cases (queue_stored u lib variable_name world records w.uploads_file)) [
        | inl ((queued, after), ended) ↦ (
          after,
          queue_stored-Queues world records w.uploads_file queued after ended,
          rw (ended, queue_records) refl,
        )
        | inr (e, failed) ↦ cc (rw (failed, queue_records) at h)
      ]

  queue_results-InQueue :
      (forced : Bool) (world : ArchiveWorld) (results : List ScanResult) (scans : Archive)
      (w : Watcher) (some_queued : Bool)
      → w.archive_file ≡ written scans
      → (queue_results u lib variable_name forced world results w).result ≡ ok some_queued
      → (uploads : Uploads) × All
          (InQueue uploads)
          (if forced then archive_records scans else result_records results)
        × ((queue_results u lib variable_name forced world results w).watcher
            ≡ record w { uploads_file = written uploads })
  unfolding queue_results read_records load_state
  queue_results-InQueue false world results scans w some_queued at h =
      queue_records-InQueue world _ (result_records results) _ w some_queued h
  queue_results-InQueue true world results scans w some_queued at h =
      elim (Option-cases world.records_fault) [
        | inr (e, failed) ↦ cc (rw (failed, queue_results, load_state, read_records) at h)
        | inl fine ↦
            let read : read_records (as_read world.records_fault w.archive_file)
                ≡ ok (archive_records scans) =
              rw (fine, at) refl in
            let (uploads, queued, left) =
              queue_records-InQueue world _ (archive_records scans) _ w some_queued
                (rw (read, queue_results) at h) in
            (uploads, queued, rw (read, queue_results) left)
      ]

  All-AllArchived :
      (archiver : Archiver) (path : Text) (scans : Archive) (uploads : Uploads)
      (database : List Scan) (results : List ScanResult)
      → AllArchived archiver path scans database results
      → ((k : Text) (r : ArchiveRecord) → lookup k scans ≡ some r → InQueue uploads r)
      → All (λ (r : ScanResult). InQueue uploads r.record_of) results
  All-AllArchived archiver path scans uploads [] [] a every = tt
  All-AllArchived archiver path scans uploads [] (r ∷ rs) a every = elim a [ ]
  All-AllArchived archiver path scans uploads (s ∷ ss) [] a every = elim a [ ]
  All-AllArchived archiver path scans uploads (s ∷ ss) (r ∷ rs) (a, more) every = (
    every (archiver.checksum_bytes a.payload) r.record_of a.stands,
    All-AllArchived archiver path scans uploads ss rs more every,
  )

  both-InQueue :
      (forced : Bool) (archiver : Archiver) (path : Text) (scans : Archive) (uploads : Uploads)
      (database : List Scan) (results : List ScanResult)
      → AllArchived archiver path scans database results
      → All (InQueue uploads) (if forced then archive_records scans else result_records results)
      → All (λ (r : ScanResult). InQueue uploads r.record_of) results
        × (forced ≡ true
            → (k : Text) (r : ArchiveRecord) → lookup k scans ≡ some r
            → InQueue uploads r)
  both-InQueue false archiver path scans uploads database results a queued =
      (All-result_records (InQueue uploads) results queued, λ y k r h. absurd (false≢true y))
  both-InQueue true archiver path scans uploads database results a queued =
      let every = (λ (k : Text) (r : ArchiveRecord) (h : lookup k scans ≡ some r).
        All-archive_records (InQueue uploads) k r scans queued h) in
      (All-AllArchived archiver path scans uploads database results a every, λ _. every)

  process_changed-Handled :
      (forced : Bool) (world : ArchiveWorld) (signature : Signature) (w : Watcher)
      (some_queued : Bool)
      → (process_changed u lib variable_name forced world signature w).result ≡ ok some_queued
      → Handled forced world (process_changed u lib variable_name forced world signature w).watcher
  unfolding process_changed process_source
  process_changed-Handled forced world signature w some_queued h =
      elim (Result-cases (
        process_source u world.archiver world.source world.first world.second variable_name
          world.write_archive (as_read world.archive_fault w.archive_file))) [
            | inr (e, failed) ↦ cc (rw (failed, process_changed) at h)
            | inl ((results, scans), ended) ↦
                let (path, _, h₁) = >>=-eq-ok (wrap unresolved_source world.source) _ ended in
                let (database, loaded, h₂) =
                  >>=-eq-ok (wrap not_loaded (load u world.first world.second variable_name)) _
                    h₁ in
                let (stored, _, last) =
                  >>=-eq-ok
                    (wrap bad_state (load_archive (as_read world.archive_fault w.archive_file))) _
                    h₂ in
                let parsed = wrap-eq-ok not_loaded _ loaded in
                let (_, archived) =
                  process_file-AllArchived world.archiver path world.write_archive stored
                    database.scans results scans (wrap-eq-ok not_archived _ last) in
                let (uploads, queued, left) =
                  queue_results-InQueue forced world results scans
                    (record w { last_signature = signature; archive_file = written scans })
                    some_queued refl (rw (ended, process_changed) at h) in
                let both =
                  both-InQueue forced world.archiver path scans uploads database.scans results
                    archived queued in
                rw (ended, process_changed)
                  (record {
                    path = path;
                    database = database;
                    results = results;
                    scans = scans;
                    uploads = uploads;
                    loaded = parsed;
                    valid = load-ScanValid u world.first world.second variable_name database parsed;
                    archived = archived;
                    in_queue = both.0;
                    all_in_queue = both.1;
                    archive_is = ap (λ v. v.archive_file) left;
                    uploads_is = ap (λ v. v.uploads_file) left;
                  })
          ]

  pub process_archive-changed :
      (forced : Bool) (world : ArchiveWorld) (w : Watcher) (signature : Signature)
      → world.stat ≡ ok signature
      → (not forced && same_signature signature w.last_signature) ≡ false
      → process_archive u lib variable_name forced world w
        ≡ process_changed u lib variable_name forced world signature w
  unfolding process_archive
  process_archive-changed forced world w signature found changed =
      simp (found, changed, process_archive)

  pub process_archive-unchanged :
      (forced : Bool) (world : ArchiveWorld) (w : Watcher) (signature : Signature)
      → world.stat ≡ ok signature
      → (not forced && same_signature signature w.last_signature) ≡ true
      → process_archive u lib variable_name forced world w
        ≡ record { events = []; result = ok false; watcher = w }
  unfolding process_archive
  process_archive-unchanged forced world w signature found same =
      simp (found, same, process_archive)

  pub process_archive-unseen :
      (forced : Bool) (world : ArchiveWorld) (w : Watcher) (e : Text)
      → world.stat ≡ err e
      → process_archive u lib variable_name forced world w ≡ unprocessed (not_inspected e) w
  unfolding process_archive
  process_archive-unseen forced world w e failed = simp (failed, process_archive)

  -- When `processArchive` ends without an error, either nothing has changed and the run was not
  -- forced, or the file was loaded, all its scans are valid and archived at their checksums, and
  -- every record of the file, in a forced run of the whole archive, that is complete, with a
  -- checksum and a path, has an upload.
  pub process_archive-Handled :
      (forced : Bool) (world : ArchiveWorld) (w : Watcher) (some_queued : Bool)
      → (process_archive u lib variable_name forced world w).result ≡ ok some_queued
      → ((process_archive u lib variable_name forced world w).watcher ≡ w) × (forced ≡ false)
        ⊎ Handled forced world (process_archive u lib variable_name forced world w).watcher
  process_archive-Handled forced world w some_queued h = elim (Result-cases world.stat) [
    | inr (e, failed) ↦ cc (ap (λ p. p.result) (process_archive-unseen forced world w e failed), h)
    | inl (signature, found) ↦
        elim (Bool-cases (not forced && same_signature signature w.last_signature)) [
          | inl y ↦ inl (
            ap (λ p. p.watcher) (process_archive-unchanged forced world w signature found y),
            not_forced forced _ y,
          )
          | inr n ↦
              let same = process_archive-changed forced world w signature found n in
              inr (
                subst (λ (p : Processed). Handled forced world p.watcher) (sym same)
                  (process_changed-Handled forced world signature w some_queued
                    (sym (ap (λ p. p.result) same) ∙ h)))
        ]
  ]
