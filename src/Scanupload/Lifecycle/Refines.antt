-- ===== src/Scanupload/Lifecycle/Refines.antt =====
-- The calls on the uploads keep to the life of an upload.
use wow_markets.Base.{
  ◌≡◌, sym, ap, subst, Bool, true, false, not, ◌||◌, List, [], ◌∷◌, Option, none, some, inl, inr,
  Bool-cases, Option-cases, arith,
}
use wow_markets.Base.Int.{ℤ}
use wow_markets.Base.Maps.{lookup, IsMap, text_key}
use wow_markets.Base.Strings.{Text}
use wow_markets.Scanarchive.Record.{ArchiveRecord}
use wow_markets.Scanupload.Record.{Status, Record, Uploads}
use wow_markets.Scanupload.Outside.{Time, Rfc3339, Library}
use wow_markets.Scanupload.Queue.Kept.{KeepsProgress}
use wow_markets.Scanupload.Queue.Correct.{AnyNew, Queues, queue-Queues}
use wow_markets.Scanupload.Due.{is_authorization_failure, is_failed}
use wow_markets.Scanupload.Due.Reset.{reset_one, reset_at, reset_failed_authorization-at}
use wow_markets.Scanupload.Process.{World, Agent, recover, process_due, is_uploading}
use wow_markets.Scanupload.Process.Recovered.{recovered_at, lookup-recover, recover-IsMap}
use wow_markets.Scanupload.Lifecycle.{
  Operation, queue_call, process_call, reset_call, Lives, starts, continues, stage, stage_of,
  absent, waiting, retrying, enqueue, postpone, reset_retrying, reset_dead, Leads, stays, goes,
  Leads-trans, Call, queueing, processing, resetting, Calls, none_yet, one_more,
}
use wow_markets.Scanupload.Lifecycle.Due.{limited-due_checksums}
use wow_markets.Scanupload.Lifecycle.Attempts.{process-Leads}

new-Leads :
    (archives : List ArchiveRecord) (k : Text) (s : Record)
    → AnyNew archives k s
    → Leads queue_call absent (stage (some s))
new-Leads [] k s new = elim new [ ]
new-Leads (a ∷ more) k s (inl (able, key, is_pending, attempts)) =
    rw is_pending (goes stays enqueue)
new-Leads (a ∷ more) k s (inr later) = new-Leads more k s later

kept_stage : (r s : Record) → KeepsProgress r s → stage (some s) ≡ stage (some r)
kept_stage r s p = ap (λ q. stage (some q)) p

Queues-Leads :
    (before : Uploads) (archives : List ArchiveRecord) (after : Uploads) (k : Text)
    → Queues before archives after
    → Leads queue_call (stage (lookup k before)) (stage (lookup k after))
Queues-Leads before archives after k q = elim (Option-cases (lookup k before)) [
  | inr (r, found) ↦
      let (s, after_found, p) = q.kept k r found in rw (found, after_found, kept_stage r s p) stays
  | inl missing ↦ elim (Option-cases (lookup k after)) [
    | inl still ↦ rw (missing, still) stays
    | inr (s, found) ↦ rw (missing, found) (new-Leads archives k s (q.fresh k s missing found))
  ]
]

failed-Leads :
    (status : Status) (retryable : Bool)
    → is_failed status ≡ true
    → Leads reset_call (stage_of status retryable) waiting
failed-Leads Status.failed true h = goes stays reset_retrying
failed-Leads Status.failed false h = goes stays reset_dead
failed-Leads Status.pending retryable h = cc
failed-Leads Status.uploading retryable h = cc
failed-Leads Status.uploaded retryable h = cc
failed-Leads (Status.other s) retryable h = cc

was_failed : (a b : Bool) → (not a || not b) ≡ false → a ≡ true
was_failed a b h = ground arith

reset-Leads : (o : Option Record) → Leads reset_call (stage o) (stage (reset_at o))
unfolding reset_one
reset-Leads none = stays
reset-Leads (some r) =
    elim (Bool-cases (not (is_failed r.status) || not (is_authorization_failure r))) [
      | inl y ↦ rw (y, reset_one) stays
      | inr n ↦ rw (n, reset_one) (failed-Leads r.status r.retryable (was_failed _ _ n))
    ]

interrupted-Leads :
    (status : Status) (retryable : Bool)
    → is_uploading status ≡ true
    → Leads process_call (stage_of status retryable) retrying
interrupted-Leads Status.uploading retryable h = goes stays postpone
interrupted-Leads Status.failed retryable h = cc
interrupted-Leads Status.pending retryable h = cc
interrupted-Leads Status.uploaded retryable h = cc
interrupted-Leads (Status.other s) retryable h = cc

recovered-Leads :
    (time : Rfc3339) (now : Time) (o : Option Record)
    → Leads process_call (stage o) (stage (recovered_at time now o))
recovered-Leads time now none = stays
recovered-Leads time now (some r) = elim (Bool-cases (is_uploading r.status)) [
  | inl y ↦ rw y (interrupted-Leads r.status r.retryable y)
  | inr n ↦ rw n stays
]

module _ (lib : Library) (agent : Agent) where
  processed-Leads :
      (limit : ℤ) (now : Time) (recover_write : Option Text) (worlds : Text → World)
      (stored : Uploads) (k : Text)
      → IsMap stored
      → Leads process_call
          (stage (lookup k stored))
          (stage (lookup k (process_due lib agent limit now recover_write worlds stored).stored))
  unfolding process_due
  processed-Leads limit now recover_write worlds stored k u =
      let uploads = (recover lib.time now stored).0 in
      let first =
        subst (λ o. Leads process_call (stage (lookup k stored)) (stage o))
          (sym (lookup-recover lib.time now k stored))
          (recovered-Leads lib.time now (lookup k stored)) in
      let (distinct, due) =
        limited-due_checksums lib.time limit now uploads (recover-IsMap lib.time now stored u) in
      let both =
        Leads-trans first (process-Leads lib agent worlds now k [] uploads _ distinct due) in
      elim (Bool-cases (recover lib.time now stored).1) [
        | inr n ↦ rw (n, process_due) both
        | inl y ↦ elim (Option-cases recover_write) [
          | inr (e, failed) ↦ rw (y, failed, process_due) stays
          | inl written ↦ rw (y, written, process_due) both
        ]
      ]

  Call-Leads :
      (k : Text) {c : Operation} {u v : Uploads}
      → Call lib agent c u v
      → Leads c (stage (lookup k u)) (stage (lookup k v))
  Call-Leads k (queueing now write stored archives results after h) =
      Queues-Leads stored archives after k
        (queue-Queues lib now write stored archives results after h)
  Call-Leads k (processing limit now recover_write worlds stored u) =
      processed-Leads limit now recover_write worlds stored k u
  Call-Leads k (resetting write stored n after h) =
      subst (λ o. Leads reset_call (stage (lookup k stored)) (stage o))
        (sym (reset_failed_authorization-at write stored n after h k))
        (reset-Leads (lookup k stored))

  -- Whatever calls come on maps that hold no key twice, and however each call of processing ends,
  -- a checksum lives by the moves of the calls made. `Queue` takes an absent checksum to waiting.
  -- ProcessDueLimit sends one that waits or may be tried again, and takes it from there to done,
  -- to be tried again or to dead. `ResetFailedAuthorization` takes a failed one back to waiting.
  -- No call makes a move of another, so no call of processing sends what is dead or done.
  pub Calls-Lives :
      (k : Text) {u : Uploads} {cs : List Operation} {v : Uploads}
      → Calls lib agent u cs v
      → Lives (stage (lookup k u)) cs (stage (lookup k v))
  Calls-Lives k none_yet = starts
  Calls-Lives k (one_more before call) = continues (Calls-Lives k before) (Call-Leads k call)
