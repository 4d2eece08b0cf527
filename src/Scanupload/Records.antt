-- ===== src/Scanupload/Records.antt =====
-- `recordsFromState` and `latestActivity` of `upload.go`. `sort.Slice` is a sort by insertion: the
-- order tells records of different checksums apart, so that the way of sorting does not matter.
pub mod Sorted
use wow_markets.Base.{
  ℕ, Bool, true, false, List, [], ◌∷◌, Option, none, some, ◌==◌, ltb, if◌then◌else◌,
}
use wow_markets.Base.Strings.{Text, str_lt}
use wow_markets.Scanupload.Record.{Record, Uploads}
use wow_markets.Scanupload.Outside.{Time, Rfc3339}

-- One round of the loop of `latestActivity`.
abbrev pub later : Time → Option Time → Time
later latest none = latest
later latest (some t) = if ltb latest t then t else latest

module _ (time : Rfc3339) where
  unfoldable pub latest_activity : Record → Time
  latest_activity r =
      later (later (later 0 (time.parse r.queued_at)) (time.parse r.last_attempt_at))
        (time.parse r.uploaded_at)

  -- The function that `sort.Slice` is given: the left record comes first.
  unfoldable pub comes_first : Record → Record → Bool
  comes_first left right =
      if latest_activity left == latest_activity right
      then str_lt left.checksum right.checksum
      else ltb (latest_activity right) (latest_activity left)

  unfoldable pub insert_record : Record → List Record → List Record
  insert_record r [] = r ∷ []
  insert_record r (s ∷ ss) =
      let rest = insert_record r ss in if comes_first s r then s ∷ rest else r ∷ s ∷ ss

  unfoldable pub sort_records : List Record → List Record
  sort_records [] = []
  sort_records (r ∷ rs) = insert_record r (sort_records rs)

-- The values of the map.
unfoldable pub values : Uploads → List Record
values [] = []
values ((k, r) ∷ m) = r ∷ values m

unfoldable pub records_from_state : Rfc3339 → Uploads → List Record
records_from_state time uploads = sort_records time (values uploads)
