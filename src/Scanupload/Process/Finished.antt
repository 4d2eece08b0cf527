-- ===== src/Scanupload/Process/Finished.antt =====
-- A call that ends without an error leaves no upload under way.
use wow_markets.Base.{
  true, ◌⊎◌, ◌↔◌, codes, str_eq_iff, List, [], ◌∷◌, ◌++◌, Option, none, some, ◌≡◌, ◌≢◌, inl, inr,
  refl, sym, ap, ◌∙◌, subst, str_eq, Bool-cases, Option-cases, arith,
}
use wow_markets.Base.Int.{ℤ}
use wow_markets.Base.Maps.{lookup, insert, text_key, lookup-insert}
use wow_markets.Base.Strings.{Text}
use wow_markets.Scanupload.Record.{Status, uploading, uploaded, failed, Record, Uploads}
use wow_markets.Scanupload.Outside.{Time, Rfc3339, Library}
use wow_markets.Scanupload.Due.{due_checksums}
use wow_markets.Scanupload.Upload.{Attempt}
use wow_markets.Scanupload.Process.{
  is_uploading, recover, Agent, World, limited, process, process_due, begun, finish, attempted,
  record_at,
}
use wow_markets.Scanupload.Process.Recovered.{
  recovered_at, recovered_record, some_inj, lookup-recover,
}

abbrev pub NoneUploading : Uploads → Type 0
NoneUploading m = (k : Text) (r : Record) → lookup k m ≡ some r → r.status ≢ uploading

is_uploading_iff : (s : Status) → (is_uploading s ≡ true) ↔ (s ≡ uploading)
is_uploading_iff Status.uploading = (λ h. refl, λ h. refl)
is_uploading_iff Status.failed = (λ h. cc, λ h. cc)
is_uploading_iff Status.pending = (λ h. cc, λ h. cc)
is_uploading_iff Status.uploaded = (λ h. cc, λ h. cc)
is_uploading_iff (Status.other s) = (λ h. cc, λ h. cc)

finish_status :
    (time : Rfc3339) (agent : Agent) (t : Time) (a : Attempt) (r : Record)
    → (finish time agent t a r).status ≢ uploading
unfolding finish
finish_status time agent t a r h = elim (Option-cases a.upload_err) [
  | inl e ↦ cc (rw (e, finish) at h)
  | inr (x, e) ↦ elim (Bool-cases a.retryable) [
    | inl y ↦ cc (rw (e, y, finish) at h)
    | inr y ↦ cc (rw (e, y, finish) at h)
  ]
]

recovered_none :
    (time : Rfc3339) (now : Time) (r : Record) → (recovered_record time now r).status ≢ uploading
recovered_none time now r = ground arith

recover-NoneUploading :
    (time : Rfc3339) (now : Time) (m : Uploads) → NoneUploading (recover time now m).0
recover-NoneUploading time now m k r h = elim (Option-cases (lookup k m)) [
  | inl e ↦ cc (sym (lookup-recover time now k m) ∙ h, ap (recovered_at time now) e)
  | inr (s, e) ↦
      let same =
        some_inj _ r (sym (ap (recovered_at time now) e) ∙ sym (lookup-recover time now k m) ∙ h) in
      subst (λ q. q.status ≢ uploading) same (recovered_none time now s)
]

insert-NoneUploading :
    (k : Text) (before r : Record) (m : Uploads)
    → NoneUploading m
    → r.status ≢ uploading
    → NoneUploading (insert k r (insert k before m))
insert-NoneUploading k before r m n f j s h = elim (Bool-cases (str_eq k j)) [
  | inl y ↦
      subst (λ q. q.status ≢ uploading)
        (some_inj r s (sym (rw (lookup-insert k j r (insert k before m), y) refl) ∙ h)) f
  | inr y ↦ n j s (
      sym (rw (lookup-insert k j r (insert k before m), y, lookup-insert k j before m, y) refl) ∙ h)
]

module _ (lib : Library) (agent : Agent) (worlds : Text → World) where
  attempted_status : (world : World) (r : Record) → (attempted lib agent world r).status ≢ uploading
  unfolding attempted
  attempted_status world r = finish_status lib.time agent world.finished_at _ _

  process-NoneUploading :
      (ks : List Text) (results : List Record) (stored : Uploads)
      → NoneUploading stored
      → (process lib agent worlds results stored ks).error ≡ none
      → NoneUploading (process lib agent worlds results stored ks).stored
  unfolding process
  process-NoneUploading [] results stored n e = n
  process-NoneUploading (k ∷ ks) results stored n e = elim (Option-cases (worlds k).cancelled) [
    | inr (x, c) ↦ cc (rw (c, process) at e)
    | inl c ↦ elim (Option-cases (worlds k).first_write) [
      | inr (x, w) ↦ cc (rw (c, w, process) at e)
      | inl w ↦ elim (Option-cases (worlds k).second_write) [
        | inr (x, v) ↦ cc (rw (c, w, v, process) at e)
        | inl v ↦
            let r = record_at k stored in
            let sending = insert k (begun lib agent (worlds k) r) stored in
            let sent = attempted lib agent (worlds k) r in
            let next =
              insert-NoneUploading k (begun lib agent (worlds k) r) sent stored n
                (attempted_status (worlds k) r) in
            rw (c, w, v, process)
              (process-NoneUploading ks (results ++ sent ∷ []) (insert k sent sending) next
                (rw (c, w, v, process) at e))
      ]
    ]
  ]

  -- What a call that ends without an error makes of the record at a checksum: it is as it was, it
  -- was interrupted, or the call has sent it.
  abbrev pub Sent : Text → Option Record → Type 0
  Sent k after =
      (s : Record) × (after ≡ some s)
      × ((s.status ≡ uploaded) ⊎ (s.status ≡ failed))
      × (s.last_attempt_at ≡ lib.time.format (worlds k).attempted_at)

  abbrev pub Interrupted : Time → Option Record → Option Record → Type 0
  Interrupted now before after =
      (r : Record) × (before ≡ some r)
      × (r.status ≡ uploading)
      × (after
          ≡ some (record r {
            status = failed;
            retryable = true;
            next_attempt_at = lib.time.format now;
            last_error = codes "previous upload was interrupted";
          }))

  abbrev pub EndsAs : Time → Text → Option Record → Option Record → Type 0
  EndsAs now k before after =
      ((after ≡ before) × ((r : Record) → before ≡ some r → r.status ≢ uploading))
      ⊎ Interrupted now before after
      ⊎ Sent k after

  finish-ended :
      (t : Time) (a : Attempt) (r : Record)
      → (((finish lib.time agent t a r).status ≡ uploaded)
          ⊎ ((finish lib.time agent t a r).status ≡ failed))
        × ((finish lib.time agent t a r).last_attempt_at ≡ r.last_attempt_at)
  unfolding finish
  finish-ended t a r = elim (Option-cases a.upload_err) [
    | inl e ↦ rw (e, finish) (inl refl, refl)
    | inr (x, e) ↦ elim (Bool-cases a.retryable) [
      | inl y ↦ rw (e, y, finish) (inr refl, refl)
      | inr y ↦ rw (e, y, finish) (inr refl, refl)
    ]
  ]

  attempted-Sent : (k : Text) (r : Record) → Sent k (some (attempted lib agent (worlds k) r))
  unfolding attempted
  attempted-Sent k r =
      let (status, at) = finish-ended (worlds k).finished_at _ _ in (_, refl, status, at)

  -- One round, at a checksum that may be another.
  round-Sent :
      (j k : Text) (before r : Record) (m : Uploads)
      → let sent = attempted lib agent (worlds j) r in
        (lookup k (insert j sent (insert j before m)) ≡ lookup k m)
        ⊎ Sent k (lookup k (insert j sent (insert j before m)))
  round-Sent j k before r m =
      let sent = attempted lib agent (worlds j) r in
      elim (Bool-cases (str_eq j k)) [
        | inr n ↦
            inl (
              rw (lookup-insert j k sent (insert j before m), n, lookup-insert j k before m, n)
                refl)
        | inl y ↦
            let same = (str_eq_iff j k).0 y in
            inr (
              rw (lookup-insert j k sent (insert j before m), y)
                (subst (λ i. Sent i (some sent)) same (attempted-Sent j r)))
      ]

  process-Sent :
      (k : Text) (ks : List Text) (results : List Record) (stored : Uploads)
      → let after = lookup k (process lib agent worlds results stored ks).stored in
        (process lib agent worlds results stored ks).error ≡ none
        → (after ≡ lookup k stored) ⊎ Sent k after
  unfolding process
  process-Sent k [] results stored e = inl refl
  process-Sent k (j ∷ ks) results stored e = elim (Option-cases (worlds j).cancelled) [
    | inr (x, c) ↦ cc (rw (c, process) at e)
    | inl c ↦ elim (Option-cases (worlds j).first_write) [
      | inr (x, w) ↦ cc (rw (c, w, process) at e)
      | inl w ↦ elim (Option-cases (worlds j).second_write) [
        | inr (x, v) ↦ cc (rw (c, w, v, process) at e)
        | inl v ↦
            let r = record_at j stored in
            let before = begun lib agent (worlds j) r in
            let sent = attempted lib agent (worlds j) r in
            let next = insert j sent (insert j before stored) in
            let rest = process-Sent k ks (results ++ sent ∷ []) next (rw (c, w, v, process) at e) in
            rw (c, w, v, process)
              (elim rest [
                | inr done ↦ inr done
                | inl same ↦ elim (round-Sent j k before r stored) [
                  | inl kept ↦ inl (same ∙ kept)
                  | inr done ↦ inr (subst (Sent k) (sym same) done)
                ]
              ])
      ]
    ]
  ]

  recovered-EndsAs :
      (now : Time) (k : Text) (o : Option Record) → EndsAs now k o (recovered_at lib.time now o)
  recovered-EndsAs now k none = inl (refl, λ r h. cc)
  recovered-EndsAs now k (some r) = elim (Bool-cases (is_uploading r.status)) [
    | inl y ↦ rw y (inr (inl (r, refl, (is_uploading_iff r.status).0 y, refl)))
    | inr n ↦ rw n (
        inl (
          refl,
          λ s h u. cc (
            n,
            (is_uploading_iff s.status).1 u,
            ap (λ q. is_uploading q.status) (some_inj r s h),
          ),
        ))
  ]

  after_recovery :
      (now : Time) (k : Text) (stored : Uploads) (after : Option Record)
      → (after ≡ lookup k (recover lib.time now stored).0) ⊎ Sent k after
      → EndsAs now k (lookup k stored) after
  after_recovery now k stored after (inr done) = inr (inr done)
  after_recovery now k stored after (inl same) =
      subst (EndsAs now k (lookup k stored)) (sym (same ∙ lookup-recover lib.time now k stored))
        (recovered-EndsAs now k (lookup k stored))

  processed-EndsAs :
      (now : Time) (stored : Uploads) (ks : List Text)
      → let done = process lib agent worlds [] (recover lib.time now stored).0 ks in
        done.error ≡ none
        → NoneUploading done.stored
          × ((k : Text) → EndsAs now k (lookup k stored) (lookup k done.stored))
  processed-EndsAs now stored ks e =
      let uploads = (recover lib.time now stored).0 in
      (
        process-NoneUploading ks [] uploads (recover-NoneUploading lib.time now stored) e,
        λ k. after_recovery now k stored _ (process-Sent k ks [] uploads e),
      )

  -- A call that ends without an error leaves no record uploading in the file. A record that it
  -- finds uploading was interrupted, and is failed, to be tried again from now on and with an
  -- error that says so, or is sent. What it sends is uploaded or failed, last attempted when it
  -- was sent. Any other record is as it was.
  pub process_due-EndsAs :
      (limit : ℤ) (now : Time) (recover_write : Option Text) (stored : Uploads)
      → let done = process_due lib agent limit now recover_write worlds stored in
        done.error ≡ none
        → NoneUploading done.stored
          × ((k : Text) → EndsAs now k (lookup k stored) (lookup k done.stored))
  unfolding process_due
  process_due-EndsAs limit now recover_write stored e =
      let both =
        processed-EndsAs now stored
          (limited limit (due_checksums lib.time (recover lib.time now stored).0 now)) in
      elim (Bool-cases (recover lib.time now stored).1) [
        | inr f ↦ rw (f, process_due) (both (rw (f, process_due) at e))
        | inl t ↦ elim (Option-cases recover_write) [
          | inr (x, w) ↦ cc (rw (t, w, process_due) at e)
          | inl w ↦ rw (t, w, process_due) (both (rw (t, w, process_due) at e))
        ]
      ]
