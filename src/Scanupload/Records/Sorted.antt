-- ===== src/Scanupload/Records/Sorted.antt =====
-- The records are those of the state, the latest first.
use mathlib.Core.List.{Perm}
use mathlib.Core.List.Perm
use wow_markets.Base.{
  ◌⊎◌, ◌≤◌, ◌<◌, Option, none, some, ◌≡◌, refl, true, false, List, [], ◌∷◌, arith, Bool-cases, inl,
  inr,
}
use wow_markets.Base.Strings.{Text, str_lt}
use wow_markets.Scanupload.Record.{Record, Uploads}
use wow_markets.Scanupload.Outside.{Time, Rfc3339}
use wow_markets.Scanupload.Records.{
  later, latest_activity, comes_first, insert_record, sort_records, values, records_from_state,
}

-- No record comes before the one in front of it.
abbrev pub Ordered : Rfc3339 → List Record → Type 0
Ordered time [] = Unit
Ordered time (r ∷ []) = Unit
Ordered time (r ∷ s ∷ rs) = (comes_first time s r ≡ false) × Ordered time (s ∷ rs)

str_lt_asym : (s t : Text) → str_lt s t ≡ true → str_lt t s ≡ false
unfolding str_lt
str_lt_asym [] [] h = cc
str_lt_asym [] (d ∷ t) h = refl
str_lt_asym (c ∷ s) [] h = cc
str_lt_asym (c ∷ s) (d ∷ t) h = ground (arith, str_lt_asym s t)

module _ (time : Rfc3339) where
  comes_first_asym : (r s : Record) → comes_first time r s ≡ true → comes_first time s r ≡ false
  unfolding comes_first
  comes_first_asym r s h = ground (arith, str_lt_asym r.checksum s.checksum)

  insert_record-Ordered :
      (r : Record) (ss : List Record) → Ordered time ss → Ordered time (insert_record time r ss)
  unfolding insert_record
  insert_record-Ordered r [] o = tt
  insert_record-Ordered r (s ∷ []) o = ground (arith, comes_first_asym s r)
  insert_record-Ordered r (s ∷ t ∷ ss) o =
      ground (arith, comes_first_asym s r, insert_record-Ordered r (t ∷ ss) o.1)

  sort_records-Ordered : (rs : List Record) → Ordered time (sort_records time rs)
  unfolding sort_records
  sort_records-Ordered [] = tt
  sort_records-Ordered (r ∷ rs) =
      insert_record-Ordered r (sort_records time rs) (sort_records-Ordered rs)

  insert_record-Perm : (r : Record) (ss : List Record) → Perm (insert_record time r ss) (r ∷ ss)
  unfolding insert_record
  insert_record-Perm r [] = Perm.refl (r ∷ [])
  insert_record-Perm r (s ∷ ss) = elim (Bool-cases (comes_first time s r)) [
    | inl y ↦ rw y (Perm.trans (Perm.cons s (insert_record-Perm r ss)) (Perm.swap _ _ _))
    | inr n ↦ rw n (Perm.refl (r ∷ s ∷ ss))
  ]

  sort_records-Perm : (rs : List Record) → Perm (sort_records time rs) rs
  unfolding sort_records
  sort_records-Perm [] = Perm.refl []
  sort_records-Perm (r ∷ rs) =
      Perm.trans (insert_record-Perm r (sort_records time rs)) (Perm.cons r (sort_records-Perm rs))

-- The time of an activity that is read, the zero time where it is not.
abbrev pub moment : Option Time → Time
moment none = 0
moment (some t) = t

-- The time is the latest of the three times of the record.
pub record LatestOf (time : Rfc3339) (r : Record) (t : Time) : Type 0 where
  pub queued : moment (time.parse r.queued_at) ≤ t
  pub sent : moment (time.parse r.last_attempt_at) ≤ t
  pub arrived : moment (time.parse r.uploaded_at) ≤ t
  pub one_of :
      (t ≡ moment (time.parse r.queued_at))
      ⊎ (t ≡ moment (time.parse r.last_attempt_at))
      ⊎ (t ≡ moment (time.parse r.uploaded_at))

-- The left record is later, or as late and not above the right in its checksum.
abbrev pub Before : Rfc3339 → Record → Record → Type 0
Before time r s =
    (t u : Time) × LatestOf time r t
    × LatestOf time s u
    × ((u < t) ⊎ ((u ≡ t) × (str_lt s.checksum r.checksum ≡ false)))

abbrev pub LatestFirst : Rfc3339 → List Record → Type 0
LatestFirst time [] = Unit
LatestFirst time (r ∷ []) = Unit
LatestFirst time (r ∷ s ∷ rs) = Before time r s × LatestFirst time (s ∷ rs)

later_lem :
    (t : Time) (o : Option Time)
    → (t ≤ later t o) × (moment o ≤ later t o) × ((later t o ≡ t) ⊎ (later t o ≡ moment o))
later_lem t none = (omega arith, omega arith, inl refl)
later_lem t (some u) = ground arith

module _ (time : Rfc3339) where
  latest_activity-LatestOf : (r : Record) → LatestOf time r (latest_activity time r)
  unfolding latest_activity
  latest_activity-LatestOf r =
      let q = time.parse r.queued_at in
      let a = time.parse r.last_attempt_at in
      let u = time.parse r.uploaded_at in
      let first = later_lem 0 q in
      let second = later_lem (later 0 q) a in
      let third = later_lem (later (later 0 q) a) u in
      record {
        queued = ground (arith, first, second, third);
        sent = ground (arith, first, second, third);
        arrived = ground (arith, first, second, third);
        one_of = ground (arith, first, second, third);
      }

  comes_first-Before : (r s : Record) → comes_first time s r ≡ false → Before time r s
  unfolding comes_first
  comes_first-Before r s h = (
    latest_activity time r,
    latest_activity time s,
    latest_activity-LatestOf r,
    latest_activity-LatestOf s,
    ground arith,
  )

  Ordered-LatestFirst : (rs : List Record) → Ordered time rs → LatestFirst time rs
  Ordered-LatestFirst [] o = tt
  Ordered-LatestFirst (r ∷ []) o = tt
  Ordered-LatestFirst (r ∷ s ∷ rs) o =
      (comes_first-Before r s o.0, Ordered-LatestFirst (s ∷ rs) o.1)

-- The records that are read are those of the state, each as often. Of two that follow each other,
-- the first has the later of the latest of the three times of its record, where a time that is not
-- read counts as the zero time, or has the same and a checksum that is not above the other.
pub records_from_state-LatestFirst :
    (time : Rfc3339) (uploads : Uploads)
    → Perm (records_from_state time uploads) (values uploads)
      × LatestFirst time (records_from_state time uploads)
unfolding records_from_state
records_from_state-LatestFirst time uploads = (
  sort_records-Perm time (values uploads),
  Ordered-LatestFirst time _ (sort_records-Ordered time (values uploads)),
)
