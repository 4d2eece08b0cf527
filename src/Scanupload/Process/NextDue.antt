-- ===== src/Scanupload/Process/NextDue.antt =====
-- `NextDueAt` against the checksums that a call finds due.
use wow_markets.Base.{
  ◌≤◌, ◌*◌, ◌/◌, true, false, ◌&&◌, List, [], ◌∷◌, some, if◌then◌else◌, ◌≡◌, ◌≢◌, ◌⊎◌, ◌↔◌, inl,
  inr, refl, Bool-cases, arith,
}
use wow_markets.Base.Strings.{Text}
use wow_markets.Scanupload.Record.{
  Status, pending, uploading, uploaded, failed, other, Record, Uploads,
}
use wow_markets.Scanupload.Outside.{Time, second, Rfc3339}
use wow_markets.Scanupload.Due.{
  is_due, due_keys, due_checksums, next_due_from, next_due_at, insert_text, sort_texts, earlier,
  reached,
}
use wow_markets.Scanupload.Process.{recover, interrupted, is_uploading}
use wow_markets.Scanupload.Process.Recovered.{recovered_record}

abbrev pub Reached : Time → Time → Type 0
Reached next now = (next ≢ 0) × (next ≤ now)

-- No next attempt stands at the zero time, which `NextDueAt` takes for none.
abbrev pub NoneZero : Rfc3339 → Uploads → Type 0
NoneZero time [] = Unit
NoneZero time ((k, r) ∷ m) = (time.parse r.next_attempt_at ≢ some 0) × NoneZero time m

floor : (now : Time) → now / second * second ≤ now
floor now = omega arith

interrupted_due :
    (time : Rfc3339) (now : Time) (r : Record) → is_due time (interrupted time now r) now ≡ true
unfolding is_due
interrupted_due time now r = rw (time.parse_format now) (ground (arith, floor now))

due_keys-recover :
    (time : Rfc3339) (now : Time) (k : Text) (r : Record) (m : Uploads)
    → due_keys time (recover time now ((k, r) ∷ m)).0 now ≡ (
        let rest = due_keys time (recover time now m).0 now in
        if is_due time (recovered_record time now r) now then k ∷ rest else rest)
unfolding due_keys recover
due_keys-recover time now k r m = elim (Bool-cases (is_uploading r.status)) [
  | inl y ↦ rw y refl
  | inr n ↦ rw n refl
]

abbrev Agrees : Rfc3339 → Time → Uploads → Time → Type 0
Agrees time now m next =
    Reached (next_due_from time now next m) now
    ↔ (Reached next now ⊎ (due_keys time (recover time now m).0 now ≢ []))

next_due_step :
    (time : Rfc3339) (now : Time) (k : Text) (r : Record) (m : Uploads) (next : Time)
    → now ≢ 0
    → time.parse r.next_attempt_at ≢ some 0
    → ((t : Time) → Agrees time now m t)
    → (s : Status) → r.status ≡ s
    → Agrees time now ((k, r) ∷ m) next
unfolding next_due_from
next_due_step time now k r m next p z again pending e =
    let head = due_keys-recover time now k r m in
    let due : is_due time (recovered_record time now r) now ≡ true = unfold is_due in rw e refl in
    rw (e, next_due_from) (ground arith)
next_due_step time now k r m next p z again uploading e =
    let head = due_keys-recover time now k r m in
    let due : is_due time (recovered_record time now r) now ≡ true =
      rw e (interrupted_due time now r) in
    rw (e, next_due_from) (ground arith)
next_due_step time now k r m next p z again failed e =
    let head = due_keys-recover time now k r m in
    let same : is_due time (recovered_record time now r) now
        ≡ (r.retryable && reached time (time.parse r.next_attempt_at) now) =
      unfold is_due in rw e refl in
    let later = again (earlier time next (time.parse r.next_attempt_at)) in
    let rest = again next in rw (e, next_due_from) (ground arith)
next_due_step time now k r m next p z again uploaded e =
    let head = due_keys-recover time now k r m in
    let due : is_due time (recovered_record time now r) now ≡ false = unfold is_due in rw e refl in
    let rest = again next in rw (e, next_due_from) (ground arith)
next_due_step time now k r m next p z again (other _) e =
    let head = due_keys-recover time now k r m in
    let due : is_due time (recovered_record time now r) now ≡ false = unfold is_due in rw e refl in
    let rest = again next in rw (e, next_due_from) (ground arith)

next_due_from_iff :
    (time : Rfc3339) (now : Time) (m : Uploads)
    → now ≢ 0
    → (next : Time) → NoneZero time m
    → Agrees time now m next
unfolding next_due_from due_keys recover
next_due_from_iff time now [] p next z = ground arith
next_due_from_iff time now ((k, r) ∷ m) p next z =
    next_due_step time now k r m next p z.0 (λ t. next_due_from_iff time now m p t z.1) r.status
      refl

insert_text_lem : (s : Text) (ts : List Text) → insert_text s ts ≢ []
unfolding insert_text
insert_text_lem s [] = ground arith
insert_text_lem s (t ∷ ts) = ground arith

sort_texts_iff : (ts : List Text) → (sort_texts ts ≢ []) ↔ (ts ≢ [])
unfolding sort_texts
sort_texts_iff [] = ground arith
sort_texts_iff (t ∷ ts) = (λ h e. cc, λ h e. insert_text_lem t (sort_texts ts) e)

-- When the time is not zero and no next attempt stands at the zero time, `NextDueAt` answers with
-- a time that is not zero and has come exactly when a call at the same time finds a checksum due
-- behind its recovery.
pub next_due_at_iff :
    (time : Rfc3339) (now : Time) (stored : Uploads)
    → now ≢ 0
    → NoneZero time stored
    → Reached (next_due_at time now stored) now
      ↔ (due_checksums time (recover time now stored).0 now ≢ [])
unfolding next_due_at due_checksums
next_due_at_iff time now stored p z =
    let all = next_due_from_iff time now stored p 0 z in
    let sorted = sort_texts_iff (due_keys time (recover time now stored).0 now) in ground arith
