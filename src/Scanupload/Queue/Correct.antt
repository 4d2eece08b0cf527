-- ===== src/Scanupload/Queue/Correct.antt =====
-- What `Queue` does to the state.
use wow_markets.Base.{
  Bool, true, false, List, [], ◌∷◌, none, some, ◌≡◌, ◌⊎◌, inl, inr, refl, sym, ap, ◌∙◌, subst,
  if◌then◌else◌, Result, ok, err, ◌>>=◌, All, >>=-eq-ok, ok_inj, Option-cases,
}
use wow_markets.Base.Maps.{lookup, text_key}
use wow_markets.Base.Strings.{Text}
use wow_markets.Scanarchive.Record.{ArchiveRecord}
use wow_markets.Scanupload.Record.{Record, Uploads, QueueResult}
use wow_markets.Scanupload.Outside.{Library}
use wow_markets.Scanupload.Queue.{queue_one, queue_all, queue}
use wow_markets.Scanupload.Queue.Kept.{
  keeps_refl, keeps_trans, some_inj, KeepsProgress, KeepsRecords, Queueable, HasRecord, IsNew,
}
use wow_markets.Scanupload.Queue.Rounds.{Takes, queue_one-Takes, queue_one-SaysChange}

abbrev pub AnyNew : List ArchiveRecord → Text → Record → Type 0
AnyNew [] k s = ⊥
AnyNew (a ∷ more) k s = IsNew a k s ⊎ AnyNew more k s

-- What a call does to the uploads: every record keeps its progress, every archive that is complete
-- and names its checksum and path has a record, and a new record is a pending one of such an archive.
pub record Queues (before : Uploads) (archives : List ArchiveRecord) (after : Uploads)
    : Type 0 where
  pub kept : KeepsRecords before after
  pub present : All (λ a. Queueable a → HasRecord after a.checksum) archives
  pub fresh :
      (k : Text) (s : Record)
      → lookup k before ≡ none
      → lookup k after ≡ some s
      → AnyNew archives k s

Queues-nil : (u : Uploads) → Queues u [] u
Queues-nil u = record { kept = keeps_refl u; present = tt; fresh = λ k s n h. cc }

keeps_at :
    (v w : Uploads)
    → KeepsRecords v w
    → (k : Text) (m s : Record) → lookup k v ≡ some m
    → lookup k w ≡ some s
    → KeepsProgress m s
keeps_at v w kept k m s hm hs =
    let (t, ht, p) = kept k m hm in subst (KeepsProgress m) (some_inj t s (sym ht ∙ hs)) p

still-IsNew :
    (a : ArchiveRecord) (k : Text) (m s : Record) → IsNew a k m → KeepsProgress m s → IsNew a k s
still-IsNew a k m s (able, key, status, attempts) p =
    (able, key, ap (λ r. r.status) p ∙ status, ap (λ r. r.attempts) p ∙ attempts)

Queues-cons :
    (u v w : Uploads) (a : ArchiveRecord) (more : List ArchiveRecord)
    → Takes u a v
    → Queues v more w
    → Queues u (a ∷ more) w
Queues-cons u v w a more t q = record {
  kept = keeps_trans u v w t.kept q.kept;
  present = (
    λ able. let (r, hr) = t.present able in let (s, hs, ps) = q.kept a.checksum r hr in (s, hs),
    q.present,
  );
  fresh = λ k s n h. elim (Option-cases (lookup k v)) [
    | inl absent ↦ inr (q.fresh k s absent h)
    | inr (m, hm) ↦ inl (still-IsNew a k m s (t.fresh k m n hm) (keeps_at v w q.kept k m s hm h))
  ];
}

queue_all-Queues :
    (lib : Library) (now : Text) (u : Uploads) (c : Bool) (archives : List ArchiveRecord)
    (out : Uploads × Bool × List QueueResult)
    → queue_all lib now u c archives ≡ ok out
    → Queues u archives out.0 × (out.1 ≡ false → (out.0 ≡ u) × (c ≡ false))
unfolding queue_all
queue_all-Queues lib now u c [] out h =
    subst (λ o. Queues u [] o.0 × (o.1 ≡ false → (o.0 ≡ u) × (c ≡ false))) (ok_inj h)
      (Queues-nil u, λ d. (refl, d))
queue_all-Queues lib now u c (a ∷ more) out h =
    let ((v, d, r), first, after_first) = >>=-eq-ok (queue_one lib now u c a) _ h in
    let ((w, e, rs), rest, last) = >>=-eq-ok (queue_all lib now v d more) _ after_first in
    let (queued, says) = queue_all-Queues lib now v d more (w, e, rs) rest in
    subst (λ o. Queues u (a ∷ more) o.0 × (o.1 ≡ false → (o.0 ≡ u) × (c ≡ false))) (ok_inj last)
      (
        Queues-cons u v w a more (queue_one-Takes lib now u c a _ first) queued,
        λ f.
            let (same, quiet) = says f in
            let (same_first, quiet_first) = queue_one-SaysChange lib now u c a _ first quiet in
            (same ∙ same_first, quiet_first),
      )

-- The state is written when it has changed.
stored_after :
    (d : Bool) (saved : Result Text (Unit {0})) (w stored : Uploads) (rs results : List QueueResult)
    (after : Uploads)
    → (if d
        then ◌>>=◌ {B = List QueueResult × Uploads} saved (λ _. ok (rs, w))
        else ok (rs, stored))
      ≡ ok (results, after)
    → (w ≡ after) ⊎ ((d ≡ false) × (stored ≡ after))
stored_after true (ok _) w stored rs results after h = inl (ap (λ o. o.1) (ok_inj h))
stored_after true (err e) w stored rs results after h = cc
stored_after false saved w stored rs results after h = inr (refl, ap (λ o. o.1) (ok_inj h))

-- When `Queue` ends without an error, every record is kept with its progress, every complete
-- archive with a checksum and a path has a record, and the new records are pending ones, never
-- attempted, of such archives.
pub queue-Queues :
    (lib : Library) (now : Text) (write : Uploads → Result Text (Unit {0})) (stored : Uploads)
    (archives : List ArchiveRecord) (results : List QueueResult) (after : Uploads)
    → queue lib now write stored archives ≡ ok (results, after)
    → Queues stored archives after
unfolding queue
queue-Queues lib now write stored archives results after h =
    let ((w, d, rs), all, last) = >>=-eq-ok (queue_all lib now stored false archives) _ h in
    let (queued, says) = queue_all-Queues lib now stored false archives (w, d, rs) all in
    elim (stored_after d (write w) w stored rs results after last) [
      | inl written ↦ subst (Queues stored archives) written queued
      | inr (quiet, same) ↦ subst (Queues stored archives) ((says quiet).0 ∙ same) queued
    ]
