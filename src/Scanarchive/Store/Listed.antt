-- ===== src/Scanarchive/Store/Listed.antt =====
-- `Records` lists every record of the archive.
use wow_markets.Base.{
  ◌≡◌, refl, ap, ◌∙◌, Bool, true, false, ◌||◌, List, [], ◌∷◌, some, inl, inr, Bool-cases,
  Option-cases, All, str_eq, str_eq_iff, arith,
}
use wow_markets.Base.Maps.{lookup, text_key}
use wow_markets.Base.Strings.{Text}
use wow_markets.Scanupload.Due.{insert_text, sort_texts}
use wow_markets.Scanarchive.Record.{ArchiveRecord}
use wow_markets.Scanarchive.Process.{Archive}
use wow_markets.Scanarchive.Store.{checksums, records_at, archive_records}

unfoldable contains : Text → List Text → Bool
contains k [] = false
contains k (j ∷ js) = str_eq j k || contains k js

contains-insert_text :
    (k s : Text) (ts : List Text) → contains k (insert_text s ts) ≡ (str_eq s k || contains k ts)
unfolding contains insert_text
contains-insert_text k s [] = refl
contains-insert_text k s (t ∷ ts) = ground (arith, contains-insert_text k s ts)

contains-sort_texts : (k : Text) (ts : List Text) → contains k (sort_texts ts) ≡ contains k ts
unfolding contains sort_texts
contains-sort_texts k [] = refl
contains-sort_texts k (s ∷ ss) =
    ground (arith, contains-insert_text k s (sort_texts ss), contains-sort_texts k ss)

contains-checksums :
    (k : Text) (r : ArchiveRecord) (m : Archive)
    → lookup k m ≡ some r
    → contains k (checksums m) ≡ true
unfolding contains checksums lookup
contains-checksums k r [] h = cc
contains-checksums k r ((j, s) ∷ m) h = ground (arith, contains-checksums k r m)

All-records_at :
    (P : ArchiveRecord → Type 0) (ks : List Text) (k : Text) (r : ArchiveRecord) (m : Archive)
    → All P (records_at ks m)
    → contains k ks ≡ true
    → lookup k m ≡ some r
    → P r
unfolding contains records_at
All-records_at P [] k r m all c h = cc
All-records_at P (j ∷ js) k r m all c h = elim (Bool-cases (str_eq j k)) [
  | inl y ↦
      let same = ap (λ q. lookup q m) ((str_eq_iff j k).0 y) ∙ h in (rw (same, records_at) at all).0
  | inr n ↦
      let later : contains k js ≡ true = rw n at c in
      elim (Option-cases (lookup j m)) [
        | inl absent ↦ All-records_at P js k r m (rw (absent, records_at) at all) later h
        | inr (s, found) ↦ All-records_at P js k r m (rw (found, records_at) at all).1 later h
      ]
]

pub All-archive_records :
    (P : ArchiveRecord → Type 0) (k : Text) (r : ArchiveRecord) (m : Archive)
    → All P (archive_records m)
    → lookup k m ≡ some r
    → P r
unfolding archive_records
All-archive_records P k r m all h =
    All-records_at P (sort_texts (checksums m)) k r m all
      (contains-sort_texts k (checksums m) ∙ contains-checksums k r m h) h
