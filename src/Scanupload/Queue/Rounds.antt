-- ===== src/Scanupload/Queue/Rounds.antt =====
-- One round of the loop of `Queue`.
use wow_markets.Base.{
  Bool, true, false, [], ◌∷◌, Option, none, some, ◌≡◌, ◌≢◌, inl, inr, refl, sym, ap, ◌∙◌, subst,
  arith, Result, ok, err, str_eq, str_eq_iff, is_empty, ok_inj, Bool-cases,
}
use wow_markets.Base.Maps.{lookup, insert, lookup-insert, text_key}
use wow_markets.Base.Strings.{Text}
use wow_markets.Scanarchive.Record.{ArchiveRecord}
use wow_markets.Scanupload.Record.{Status, Record, Uploads}
use wow_markets.Scanupload.Outside.{Library}
use wow_markets.Scanupload.Queue.{
  with_archive_metadata, same_record, new_record, Round, skipping, merge, queue_one,
}
use wow_markets.Scanupload.Queue.Kept.{
  keeps_refl, some_inj, keeps-insert, keeps-insert_new, KeepsProgress, KeepsRecords, Queueable,
  HasRecord, IsNew,
}

-- What a round does to the uploads.
pub record Takes (before : Uploads) (a : ArchiveRecord) (after : Uploads) : Type 0 where
  pub kept : KeepsRecords before after
  pub present : Queueable a → HasRecord after a.checksum
  pub fresh :
      (k : Text) (s : Record) → lookup k before ≡ none → lookup k after ≡ some s → IsNew a k s

nothing_taken : (u : Uploads) (a : ArchiveRecord) → ¬ Queueable a → Takes u a u
nothing_taken u a n = record {
  kept = keeps_refl u;
  present = λ q. absurd (n q);
  fresh = λ k s e h. cc;
}

at_key : (u : Uploads) (c : Text) (s : Record) → HasRecord (insert c s u) c
at_key u c s = (s, rw (lookup-insert c c s u, (str_eq_iff c c).1 refl) refl)

insert_new-Takes :
    (u : Uploads) (a : ArchiveRecord) (s : Record)
    → Queueable a
    → lookup a.checksum u ≡ none
    → s.status ≡ Status.pending
    → s.attempts ≡ 0
    → Takes u a (insert a.checksum s u)
insert_new-Takes u a s q e p z = record {
  kept = keeps-insert_new u a.checksum s e;
  present = λ _. at_key u a.checksum s;
  fresh = λ k t n h. elim (Bool-cases (str_eq a.checksum k)) [
    | inl y ↦
        let same = some_inj s t (rw (lookup-insert a.checksum k s u, y) at h) in
        (
          q,
          (str_eq_iff _ _).0 y,
          ap (λ v. v.status) (sym same) ∙ p,
          ap (λ v. v.attempts) (sym same) ∙ z,
        )
    | inr y ↦ cc (n, rw (lookup-insert a.checksum k s u, y) at h)
  ];
}

update-Takes :
    (u : Uploads) (a : ArchiveRecord) (r s : Record)
    → lookup a.checksum u ≡ some r
    → KeepsProgress r s
    → Takes u a (insert a.checksum s u)
update-Takes u a r s e p = record {
  kept = keeps-insert u a.checksum r s e p;
  present = λ _. at_key u a.checksum s;
  fresh = λ k t n h. elim (Bool-cases (str_eq a.checksum k)) [
    | inl y ↦ cc (e, n, ap (λ c. lookup c u) ((str_eq_iff a.checksum k).0 y))
    | inr y ↦ cc (n, rw (lookup-insert a.checksum k s u, y) at h)
  ];
}

unchanged-Takes :
    (u : Uploads) (a : ArchiveRecord) (r : Record) → lookup a.checksum u ≡ some r → Takes u a u
unchanged-Takes u a r e = record {
  kept = keeps_refl u;
  present = λ _. (r, e);
  fresh = λ k s n h. cc;
}

merge-none-Takes :
    (lib : Library) (now : Text) (u : Uploads) (changed : Bool) (a : ArchiveRecord) (round : Round)
    → Queueable a
    → lookup a.checksum u ≡ none
    → (found : Result Text Text) → lib.absolute a.archive_path ≡ found
    → merge lib now u changed a none ≡ ok round
    → Takes u a round.0
unfolding merge
merge-none-Takes lib now u changed a round q e (err w) hp h = cc (rw (hp, merge) at h)
merge-none-Takes lib now u changed a round q e (ok path) hp h =
    subst (λ w. Takes u a w) (ap (λ w. w.0) (ok_inj (rw (hp, merge) at h)))
      (insert_new-Takes u a (with_archive_metadata (new_record a.checksum path now) a) q e refl
        refl)

merge-Takes :
    (lib : Library) (now : Text) (u : Uploads) (changed : Bool) (a : ArchiveRecord) (round : Round)
    → Queueable a
    → (found : Option Record) → lookup a.checksum u ≡ found
    → merge lib now u changed a found ≡ ok round
    → Takes u a round.0
unfolding merge
merge-Takes lib now u changed a round q none e h =
    merge-none-Takes lib now u changed a round q e (lib.absolute a.archive_path) refl h
merge-Takes lib now u changed a round q (some r) e h =
    elim (Bool-cases (same_record (with_archive_metadata r a) r)) [
      | inl y ↦
          subst (λ w. Takes u a w) (ap (λ w. w.0) (ok_inj (rw (y, merge) at h)))
            (unchanged-Takes u a r e)
      | inr y ↦
          subst (λ w. Takes u a w) (ap (λ w. w.0) (ok_inj (rw (y, merge) at h)))
            (update-Takes u a r _ e refl)
    ]

empty : (t : Text) → is_empty t ≡ true → t ≡ []
empty [] h = refl
empty (x ∷ t) h = cc

not_taken :
    (u : Uploads) (c : Bool) (a : ArchiveRecord) (why : Text) (round : Round)
    → ¬ Queueable a
    → ◌≡◌ {A = Result Text Round} (ok (skipping u c a why)) (ok round)
    → Takes u a round.0
not_taken u c a why round n h =
    subst (λ w. Takes u a w) (ap (λ w. w.0) (ok_inj h)) (nothing_taken u a n)

not_empty : (t : Text) → is_empty t ≡ false → t ≢ []
not_empty t h e = cc

pub queue_one-Takes :
    (lib : Library) (now : Text) (u : Uploads) (c : Bool) (a : ArchiveRecord) (round : Round)
    → queue_one lib now u c a ≡ ok round
    → Takes u a round.0
unfolding queue_one merge
queue_one-Takes lib now u c a round h = elim (Bool-cases a.truncated) [
  | inl y ↦ not_taken u c a _ round (λ q. cc (q.0, y)) (rw (y, queue_one) at h)
  | inr t ↦ elim (Bool-cases (is_empty a.checksum)) [
    | inl y ↦ not_taken u c a _ round (λ q. q.1 (empty _ y)) (rw (t, y, queue_one) at h)
    | inr k ↦ elim (Bool-cases (is_empty a.archive_path)) [
      | inl y ↦ not_taken u c a _ round (λ q. q.2 (empty _ y)) (rw (t, k, y, queue_one) at h)
      | inr p ↦
          merge-Takes lib now u c a round (t, not_empty _ k, not_empty _ p) (lookup a.checksum u)
            refl (rw (t, k, p, queue_one) at h)
    ]
  ]
]

-- A round that reports no change has made none.
abbrev pub SaysChange : Uploads → Bool → Round → Type 0
SaysChange u c round = round.1 ≡ false → (round.0 ≡ u) × (c ≡ false)

pub queue_one-SaysChange :
    (lib : Library) (now : Text) (u : Uploads) (c : Bool) (a : ArchiveRecord) (round : Round)
    → queue_one lib now u c a ≡ ok round
    → SaysChange u c round
unfolding queue_one merge
queue_one-SaysChange lib now u c a round h d = ground arith
