-- ===== src/Watchagent/Unqueued.antt =====
-- What a call of `processArchive` leaves that fails behind `ProcessFile`.
use wow_markets.Base.{
  ◌≡◌, refl, sym, ap, ◌∙◌, Bool, true, false, false≢true, not, ◌&&◌, List, [], inl, inr, Bool-cases,
  Result-cases, Result, ok, err, arith,
}
use wow_markets.Base.Int.{eq_ℤ_iff}
use wow_markets.Base.Strings.{Text}
use wow_markets.Luasv.Token.{Unicode}
use wow_markets.Scanarchive.Record.{ArchiveRecord}
use wow_markets.Scanarchive.Process.{ScanResult}
use wow_markets.Scanarchive.Store.{as_read, read_records, process_source, written}
use wow_markets.Scanupload.Outside.{Library}
use wow_markets.Watchagent.{
  WatchError, archive_unread, uploads_unread, not_queued, Event, Signature, same_signature, Watcher,
}
use wow_markets.Watchagent.Archiving.{
  ArchiveWorld, Processed, queue_stored, queue_records, queue_results, process_changed,
  process_archive,
}
use wow_markets.Watchagent.Queued.{process_archive-changed, process_archive-unchanged}

-- The errors that come behind `ProcessFile`.
abbrev pub behind_processing : WatchError → Bool
behind_processing (archive_unread e) = true
behind_processing (uploads_unread e) = true
behind_processing (not_queued e) = true
behind_processing _ = false

abbrev late_failure : Result WatchError Bool → Bool
late_failure (ok queued) = false
late_failure (err e) = behind_processing e

same_signature_refl : (s : Signature) → same_signature s s ≡ true
same_signature_refl s = ground (arith, eq_ℤ_iff s.size s.size, eq_ℤ_iff s.modified_ns s.modified_ns)

module _ (u : Unicode) (lib : Library) (variable_name : Text) where
  -- An error behind `ProcessFile` leaves the uploads, and the signature as seen.
  abbrev Seen : Signature → Watcher → WatchError → Processed → Type 0
  Seen signature w e p =
      p.result ≡ err e
      → (p.watcher.last_signature ≡ signature) × (p.watcher.uploads_file ≡ w.uploads_file)

  queue_records-Seen :
      (world : ArchiveWorld) (by : List (Text × ArchiveRecord)) (records : List ArchiveRecord)
      (events : List Event) (w : Watcher) (e : WatchError)
      → Seen w.last_signature w e (queue_records u lib variable_name world by records events w)
  unfolding queue_records
  queue_records-Seen world by records events w e h =
      elim (Result-cases (queue_stored u lib variable_name world records w.uploads_file)) [
        | inl (done, ended) ↦ cc (rw (ended, queue_records) at h)
        | inr (e₁, failed) ↦ rw (failed, queue_records) (refl, refl)
      ]

  queue_results-Seen :
      (forced : Bool) (world : ArchiveWorld) (results : List ScanResult) (w : Watcher)
      (e : WatchError)
      → Seen w.last_signature w e (queue_results u lib variable_name forced world results w)
  unfolding queue_results
  queue_results-Seen false world results w e h = queue_records-Seen world _ _ _ w e h
  queue_results-Seen true world results w e h =
      elim (Result-cases (read_records (as_read world.records_fault w.archive_file))) [
        | inl (all, read) ↦
            rw (read, queue_results)
              (queue_records-Seen world _ all _ w e (rw (read, queue_results) at h))
        | inr (e₁, failed) ↦ rw (failed, queue_results) (refl, refl)
      ]

  process_changed-Seen :
      (forced : Bool) (world : ArchiveWorld) (signature : Signature) (w : Watcher) (e : WatchError)
      → behind_processing e ≡ true
      → Seen signature w e (process_changed u lib variable_name forced world signature w)
  unfolding process_changed
  process_changed-Seen forced world signature w e late h =
      elim (Result-cases (
        process_source u world.archiver world.source world.first world.second variable_name
          world.write_archive (as_read world.archive_fault w.archive_file))) [
            | inl ((results, scans), ended) ↦
                rw (ended, process_changed)
                  (queue_results-Seen forced world results
                    (record w { last_signature = signature; archive_file = written scans }) e
                    (rw (ended, process_changed) at h))
            | inr (e₁, failed) ↦
                absurd (false≢true (ap late_failure (rw (failed, process_changed) at h) ∙ late))
          ]

  -- When `processArchive` fails behind ProcessFile, because the archive or the uploads cannot be
  -- read or the queue cannot be written, the uploads are as they were, and a later call that is
  -- not forced does nothing while the file has the same size and time.
  pub process_archive-unqueued :
      (forced : Bool) (world again : ArchiveWorld) (w : Watcher) (signature : Signature)
      (e : WatchError)
      → world.stat ≡ ok signature
      → again.stat ≡ ok signature
      → behind_processing e ≡ true
      → (process_archive u lib variable_name forced world w).result ≡ err e
      → let next = (process_archive u lib variable_name forced world w).watcher in
        (next.uploads_file ≡ w.uploads_file)
        × (process_archive u lib variable_name false again next
            ≡ record { events = []; result = ok false; watcher = next })
  process_archive-unqueued forced world again w signature e found found_again late h =
      elim (Bool-cases (not forced && same_signature signature w.last_signature)) [
        | inl y ↦ cc (
          ap (λ p. p.result)
              (process_archive-unchanged u lib variable_name forced world w signature found y),
          h,
        )
        | inr n ↦
            let same =
              process_archive-changed u lib variable_name forced world w signature found n in
            let (seen, kept) =
              process_changed-Seen forced world signature w e late
                (sym (ap (λ p. p.result) same) ∙ h) in
            let left = ap (λ p. p.watcher) same in
            (
              ap (λ v. v.uploads_file) left ∙ kept,
              process_archive-unchanged u lib variable_name false again _ signature found_again (
                  ap (same_signature signature) (ap (λ v. v.last_signature) left ∙ seen)
                  ∙ same_signature_refl signature),
            )
      ]
