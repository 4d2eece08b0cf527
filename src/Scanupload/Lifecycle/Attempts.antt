-- ===== src/Scanupload/Lifecycle/Attempts.antt =====
-- What the loop over the due checksums does to the stage of every checksum.
use wow_markets.Base.{
  ◌≡◌, sym, ap, ◌∙◌, Bool, true, false, List, [], ◌∷◌, ◌++◌, some, inl, inr, All, str_eq,
  str_eq_iff, Bool-cases, Option-cases,
}
use wow_markets.Base.Maps.{lookup, insert, lookup-insert, text_key}
use wow_markets.Base.Strings.{Text}
use wow_markets.Scanupload.Record.{Status, Record, Uploads}
use wow_markets.Scanupload.Outside.{Time, Rfc3339, Library}
use wow_markets.Scanupload.Upload.{Attempt}
use wow_markets.Scanupload.Due.{is_due, status_due}
use wow_markets.Scanupload.Process.{World, Agent, record_at, begun, attempted, finish, process}
use wow_markets.Scanupload.Process.Recovered.{NotAmong}
use wow_markets.Scanupload.Process.Untouched.{lookup-insert_other}
use wow_markets.Scanupload.Lifecycle.{
  process_call, Stage, running, stage, begin, retry, succeed, postpone, give_up, Leads, stays, goes,
  Leads-trans, stage_of,
}
use wow_markets.Scanupload.Lifecycle.Due.{Distinct, DueAt, other_way}

due-Leads :
    (time : Rfc3339) (now : Time) (r : Record)
    → is_due time r now ≡ true
    → Leads process_call (stage (some r)) running
unfolding is_due
due-Leads time now r h = go r.status r.retryable h
  where
    go :
        (status : Status) (retryable : Bool)
        → status_due time status (record r { status = status; retryable = retryable }) now ≡ true
        → Leads process_call (stage_of status retryable) running
    go Status.pending retryable h = goes stays begin
    go Status.failed true h = goes stays retry
    go Status.failed false h = cc
    go Status.uploading retryable h = cc
    go Status.uploaded retryable h = cc
    go (Status.other s) retryable h = cc

module _ (lib : Library) (agent : Agent) where
  finish-Leads :
      (finished_at : Time) (attempt : Attempt) (r : Record)
      → Leads process_call running (stage (some (finish lib.time agent finished_at attempt r)))
  unfolding finish
  finish-Leads finished_at attempt r = elim (Option-cases attempt.upload_err) [
    | inl accepted ↦ rw (accepted, finish) (goes stays succeed)
    | inr (e, refused) ↦ elim (Bool-cases attempt.retryable) [
      | inl y ↦ rw (refused, y, finish) (goes stays postpone)
      | inr n ↦ rw (refused, n, finish) (goes stays give_up)
    ]
  ]

  attempted-Leads :
      (world : World) (r : Record)
      → Leads process_call running (stage (some (attempted lib agent world r)))
  unfolding attempted
  attempted-Leads world r = finish-Leads world.finished_at _ _

  -- The record at a checksum that is written, and at any other.
  at_insert :
      (j k : Text) (r : Record) (m : Uploads) (s : Stage)
      → (str_eq j k ≡ true → Leads process_call s (stage (some r)))
      → (str_eq j k ≡ false → Leads process_call s (stage (lookup k m)))
      → Leads process_call s (stage (lookup k (insert j r m)))
  at_insert j k r m s f g = elim (Bool-cases (str_eq j k)) [
    | inl y ↦ rw (lookup-insert j k r m, y) (f y)
    | inr n ↦ rw (lookup-insert j k r m, n) (g n)
  ]

  -- A write at a due checksum, in front of its request.
  begun-Leads :
      (now : Time) (world : World) (stored : Uploads) (j k : Text)
      → DueAt lib.time now stored j
      → Leads process_call
          (stage (lookup k stored))
          (stage (lookup k (insert j (begun lib agent world (record_at j stored)) stored)))
  unfolding begun
  begun-Leads now world stored j k (r, found, due) =
      at_insert j k (begun lib agent world (record_at j stored)) stored (stage (lookup k stored))
        (λ y.
          let same = ap (λ q. lookup q stored) (sym ((str_eq_iff j k).0 y)) ∙ found in
          rw same (due-Leads lib.time now r due))
        (λ n. stays)

  -- The write behind its request.
  sent-Leads :
      (world : World) (stored : Uploads) (r : Record) (j k : Text)
      → Leads process_call (stage (lookup k (insert j (begun lib agent world r) stored))) (
          stage (
            lookup k
              (insert j (attempted lib agent world r) (insert j (begun lib agent world r) stored))))
  unfolding begun
  sent-Leads world stored r j k =
      at_insert j k (attempted lib agent world r) (insert j (begun lib agent world r) stored) _
        (λ y. rw (lookup-insert j k (begun lib agent world r) stored, y) (attempted-Leads world r))
        (λ n. stays)

  -- What is due at other checksums stays due.
  still-DueAt :
      (now : Time) (j : Text) (r : Record) (stored : Uploads) (ks : List Text)
      → NotAmong j ks
      → All (DueAt lib.time now stored) ks
      → All (DueAt lib.time now (insert j r stored)) ks
  still-DueAt now j r stored [] n all = tt
  still-DueAt now j r stored (k ∷ ks) n ((s, found, due), all) =
      let apart = other_way k j n.0 in
      (
        (s, lookup-insert_other j k r stored apart ∙ found, due),
        still-DueAt now j r stored ks n.1 all,
      )

  module _ (worlds : Text → World) (now : Time) where
    pub process-Leads :
        (k : Text) (results : List Record) (stored : Uploads) (ks : List Text)
        → Distinct ks
        → All (DueAt lib.time now stored) ks
        → Leads process_call
            (stage (lookup k stored))
            (stage (lookup k (process lib agent worlds results stored ks).stored))
    unfolding process
    process-Leads k results stored [] d all = stays
    process-Leads k results stored (j ∷ ks) d (due, all) =
        let r = record_at j stored in
        let sending = insert j (begun lib agent (worlds j) r) stored in
        let sent = attempted lib agent (worlds j) r in
        let first = begun-Leads now (worlds j) stored j k due in
        let second = sent-Leads (worlds j) stored r j k in
        let more =
          still-DueAt now j sent sending ks d.0
            (still-DueAt now j (begun lib agent (worlds j) r) stored ks d.0 all) in
        let rest = process-Leads k (results ++ sent ∷ []) (insert j sent sending) ks d.1 more in
        elim (Option-cases (worlds j).cancelled) [
          | inr (e, cancelled) ↦ rw (cancelled, process) stays
          | inl running_on ↦ elim (Option-cases (worlds j).first_write) [
            | inr (e, failed) ↦ rw (running_on, failed, process) stays
            | inl written ↦ elim (Option-cases (worlds j).second_write) [
              | inr (e, failed) ↦ rw (running_on, written, failed, process) first
              | inl ended ↦
                  rw (running_on, written, ended, process)
                    (Leads-trans first (Leads-trans second rest))
            ]
          ]
        ]
