-- ===== src/Scanarchive/Process/Archives.antt =====
-- What `ProcessFile` does to the archive, and that doing it again does nothing.
use wow_markets.Base.{
  ◌≡◌, ◌⊎◌, refl, ap, ◌∙◌, subst, Bool, true, false, List, [], ◌∷◌, Option, none, some, Bool-cases,
  inl, inr, if◌then◌else◌, Result, ok, err, ◌>>=◌, >>=-eq-ok, ok_inj, str_eq, str_eq_iff,
}
use wow_markets.Base.Maps.{lookup, insert, lookup-insert, text_key}
use wow_markets.Base.Strings.{Text}
use wow_markets.Exportfmt.Scan.{Scan}
use wow_markets.Scanarchive.Record.{ArchiveRecord}
use wow_markets.Scanarchive.Process.{
  Archive, Archiver, ScanResult, ScanRound, archived, add_scan, process_scan, process_scans,
  process_file,
}

abbrev pub KeepsArchive : Archive → Archive → Type 0
KeepsArchive before after =
    (k : Text) (r : ArchiveRecord) → lookup k before ≡ some r → lookup k after ≡ some r

module _ (archiver : Archiver) (source : Text) where
  -- The result of a scan stands in the archive at the scan's checksum, and a new one is the
  -- record that describes the scan.
  pub record Archived (scans : Archive) (scan : Scan) (result : ScanResult) : Type 0 where
    pub payload : Text
    pub canonical : archiver.canonical_json scan ≡ ok payload
    pub stands : lookup (archiver.checksum_bytes payload) scans ≡ some result.record_of
    pub described :
        result.is_new ≡ true
        → (path : Text) × (result.record_of
            ≡ archived
                (archiver.checksum_bytes payload)
                path
                source
                (archiver.imported_at (archiver.checksum_bytes payload))
                scan)

  abbrev pub AllArchived : Archive → List Scan → List ScanResult → Type 0
  AllArchived scans [] [] = Unit
  AllArchived scans (s ∷ ss) (r ∷ rs) = Archived scans s r × AllArchived scans ss rs
  AllArchived scans _ _ = ⊥

  abbrev pub SameUnlessChanged : Archive → Bool → Archive → Bool → Type 0
  SameUnlessChanged u c v d = d ≡ false → (v ≡ u) × (c ≡ false)

  keeps-insert :
      (k : Text) (r : ArchiveRecord) (m : Archive)
      → lookup k m ≡ none
      → KeepsArchive m (insert k r m)
  keeps-insert k r m absent j s h = elim (Bool-cases (str_eq k j)) [
    | inl y ↦ cc (absent, h, ap (λ q. lookup q m) ((str_eq_iff k j).0 y))
    | inr n ↦ rw (lookup-insert k j r m, n) h
  ]

  add_scan-Archived :
      (u : Archive) (c : Bool) (scan : Scan) (payload : Text) (round : ScanRound)
      → archiver.canonical_json scan ≡ ok payload
      → (found : Option ArchiveRecord) → lookup (archiver.checksum_bytes payload) u ≡ found
      → add_scan archiver source u c scan (archiver.checksum_bytes payload) payload found ≡ ok round
      → KeepsArchive u round.0
        × Archived round.0 scan round.2
        × SameUnlessChanged u c round.0 round.1
  unfolding add_scan
  add_scan-Archived u c scan payload round e (some r) there h =
      subst (λ o. KeepsArchive u o.0 × Archived o.0 scan o.2 × SameUnlessChanged u c o.0 o.1)
        (ok_inj h)
        (
          λ k s q. q,
          record { payload = payload; canonical = e; stands = there; described = λ n. cc },
          λ d. (refl, d),
        )
  add_scan-Archived u c scan payload round e none there h =
      let sum = archiver.checksum_bytes payload in
      let (path, put, done) = >>=-eq-ok (archiver.archive_scan sum payload) _ h in
      let r = archived sum path source (archiver.imported_at sum) scan in
      subst (λ o. KeepsArchive u o.0 × Archived o.0 scan o.2 × SameUnlessChanged u c o.0 o.1)
        (ok_inj done)
        (
          keeps-insert sum r u there,
          record {
            payload = payload;
            canonical = e;
            stands = rw (lookup-insert sum sum r u, (str_eq_iff sum sum).1 refl) refl;
            described = λ n. (path, refl);
          },
          λ d. cc,
        )

  process_scan-Archived :
      (u : Archive) (c : Bool) (scan : Scan) (round : ScanRound)
      → process_scan archiver source u c scan ≡ ok round
      → KeepsArchive u round.0
        × Archived round.0 scan round.2
        × SameUnlessChanged u c round.0 round.1
  unfolding process_scan
  process_scan-Archived u c scan round h =
      let (payload, e, rest) = >>=-eq-ok (archiver.canonical_json scan) _ h in
      add_scan-Archived u c scan payload round e _ refl rest

  Archived-kept :
      (u v : Archive) (scan : Scan) (result : ScanResult)
      → KeepsArchive u v
      → Archived u scan result
      → Archived v scan result
  Archived-kept u v scan result kept a = record {
    payload = a.payload;
    canonical = a.canonical;
    stands = kept _ _ a.stands;
    described = a.described;
  }

  process_scans-AllArchived :
      (u : Archive) (c : Bool) (scans : List Scan) (out : Archive × Bool × List ScanResult)
      → process_scans archiver source u c scans ≡ ok out
      → KeepsArchive u out.0 × AllArchived out.0 scans out.2 × SameUnlessChanged u c out.0 out.1
  unfolding process_scans
  process_scans-AllArchived u c [] out h =
      subst (λ o. KeepsArchive u o.0 × AllArchived o.0 [] o.2 × SameUnlessChanged u c o.0 o.1)
        (ok_inj h) (λ k s q. q, tt, λ d. (refl, d))
  process_scans-AllArchived u c (scan ∷ more) out h =
      let ((v, d, r), first, after_first) = >>=-eq-ok (process_scan archiver source u c scan) _ h in
      let ((w, f, rs), rest, last) =
        >>=-eq-ok (process_scans archiver source v d more) _ after_first in
      let (kept, there, says) = process_scan-Archived u c scan (v, d, r) first in
      let (kept_on, all, says_on) = process_scans-AllArchived v d more (w, f, rs) rest in
      subst
        (λ o.
          KeepsArchive u o.0 × AllArchived o.0 (scan ∷ more) o.2 × SameUnlessChanged u c o.0 o.1)
        (ok_inj last)
        (
          λ k s q. kept_on k s (kept k s q),
          (Archived-kept v w scan r kept_on there, all),
          λ n.
              let (same, quiet) = says_on n in
              let (same_first, quiet_first) = says quiet in (same ∙ same_first, quiet_first),
        )

-- The state is written when it has changed.
stored_after :
    (d : Bool) (saved : Result Text (Unit {0})) (w stored after : Archive)
    (rs results : List ScanResult)
    → (if d then ◌>>=◌ {B = List ScanResult × Archive} saved (λ _. ok (rs, w)) else ok (rs, stored))
      ≡ ok (results, after)
    → (rs ≡ results) × ((w ≡ after) ⊎ ((d ≡ false) × (stored ≡ after)))
stored_after true (ok _) w stored after rs results h =
    (ap (λ o. o.0) (ok_inj h), inl (ap (λ o. o.1) (ok_inj h)))
stored_after true (err e) w stored after rs results h = cc
stored_after false saved w stored after rs results h =
    (ap (λ o. o.0) (ok_inj h), inr (refl, ap (λ o. o.1) (ok_inj h)))

-- When `ProcessFile` ends without an error, no record of the archive has changed, and every scan
-- of the file has its result, in order, in the archive at the scan's checksum; a new result is the
-- record that describes the scan.
pub process_file-AllArchived :
    (archiver : Archiver) (source : Text) (write : Archive → Result Text (Unit {0}))
    (stored : Archive) (database : List Scan) (results : List ScanResult) (after : Archive)
    → process_file archiver source write stored database ≡ ok (results, after)
    → KeepsArchive stored after × AllArchived archiver source after database results
unfolding process_file
process_file-AllArchived archiver source write stored database results after h =
    let ((w, d, rs), run, last) =
      >>=-eq-ok (process_scans archiver source stored false database) _ h in
    let (kept, all, says) =
      process_scans-AllArchived archiver source stored false database (w, d, rs) run in
    let (same, ending) = stored_after d (write w) w stored after rs results last in
    let written : w ≡ after = elim ending [
      | inl same_end ↦ same_end
      | inr (quiet, left) ↦ (says quiet).0 ∙ left
    ] in
    subst (λ v. KeepsArchive stored v × AllArchived archiver source v database results) written
      (kept, subst (λ q. AllArchived archiver source w database q) same all)

-- The results of scans that are all in the archive.
abbrev pub known : List ScanResult → List ScanResult
known [] = []
known (r ∷ rs) = record r { is_new = false } ∷ known rs

process_scans-known :
    (archiver : Archiver) (source : Text) (v : Archive) (c : Bool) (scans : List Scan)
    (results : List ScanResult)
    → AllArchived archiver source v scans results
    → process_scans archiver source v c scans ≡ ok (v, c, known results)
unfolding process_scans process_scan add_scan
process_scans-known archiver source v c [] [] a = refl
process_scans-known archiver source v c [] (r ∷ rs) a = elim a [ ]
process_scans-known archiver source v c (scan ∷ more) [] a = elim a [ ]
process_scans-known archiver source v c (scan ∷ more) (r ∷ rs) (a, all) =
    rw (a.canonical, a.stands, process_scans-known archiver source v c more rs all) refl

-- After a run of ProcessFile without an error, a run on the same scans has the same records as
-- results, none of them new, and leaves the state as it is, however a write would end.
pub process_file-known :
    (archiver : Archiver) (source : Text) (write again : Archive → Result Text (Unit {0}))
    (stored : Archive) (database : List Scan) (results : List ScanResult) (after : Archive)
    → process_file archiver source write stored database ≡ ok (results, after)
    → process_file archiver source again after database ≡ ok (known results, after)
unfolding process_file
process_file-known archiver source write again stored database results after h =
    let (kept, all) =
      process_file-AllArchived archiver source write stored database results after h in
    rw (process_scans-known archiver source after false database results all, process_file) refl
