-- ===== src/Activity/Overview.antt =====
-- What `loadActivityOverview` shows.
use wow_markets.Base.{
  ℕ, zero, suc, ◌+◌, ◌≤◌, ◌≡◌, refl, sym, ap, ◌∙◌, subst, Bool, true, false, List, [], ◌∷◌, ◌++◌,
  append-nil, append_assoc, Option, none, some, All, inl, inr, Bool-cases, Option-cases, length,
  length-append, take, ltb, arith,
}
use wow_markets.Scanarchive.Record.{ArchiveRecord}
use wow_markets.Scanupload.Record.{Status, Record}
use wow_markets.Scanupload.Outside.{Rfc3339}
use wow_markets.Activity.{recent_upload_limit, ScanSummary, ActivityOverview, upload_activity_time}
use wow_markets.Activity.Load.{
  sort_latest, is_pending, is_uploading, is_uploaded, is_failed, first_if, add_summary, no_activity,
  imported_time, with_detected, summary_of, add_uploads, overview,
}
use wow_markets.Activity.Sorted.{
  Among, count, first, count-sort_latest, All-sort_latest, Among-sort_latest, sort_latest-Latest,
  first-Latest, first-none,
}

abbrev pub of_status : (Status → Bool) → Record → Bool
of_status p r = p r.status

module _ (time : Rfc3339) (archives : List ArchiveRecord) where
  unfoldable pub summaries : List Record → List ScanSummary
  summaries [] = []
  summaries (r ∷ rs) = summary_of time archives r ∷ summaries rs

  -- The summary that is shown for a status is that of its latest upload, none if it has none.
  abbrev pub ShowsLatest : (Status → Bool) → List Record → Option ScanSummary → Type 0
  ShowsLatest p uploads none = All (λ r. p r.status ≡ false) uploads
  ShowsLatest p uploads (some shown) =
      (c : Record) × Among c uploads
      × (p c.status ≡ true)
      × (shown ≡ summary_of time archives c)
      × All (λ r. p r.status ≡ true → upload_activity_time time r ≤ upload_activity_time time c)
          uploads

  pub record Shows (uploads : List Record) (o : ActivityOverview) : Type 0 where
    pub archived : o.archived_count ≡ length archives
    pub queued : o.queued_count ≡ count (of_status is_pending) uploads
    pub uploading : o.uploading_count ≡ count (of_status is_uploading) uploads
    pub uploaded : o.uploaded_count ≡ count (of_status is_uploaded) uploads
    pub failed : o.failed_count ≡ count (of_status is_failed) uploads
    pub current : ShowsLatest is_uploading uploads o.current_upload
    pub last : ShowsLatest is_uploaded uploads o.last_upload
    pub failure : ShowsLatest is_failed uploads o.upload_failure
    pub recent :
        o.recent_uploads
        ≡ summaries (take recent_upload_limit (sort_latest (upload_activity_time time) uploads))

  -- The loop's counts.
  counts-add_uploads :
      (rs : List Record) (o : ActivityOverview)
      → let after = add_uploads time archives rs o in
        (after.archived_count ≡ o.archived_count)
        × (after.queued_count ≡ count (of_status is_pending) rs + o.queued_count)
        × (after.uploading_count ≡ count (of_status is_uploading) rs + o.uploading_count)
        × (after.uploaded_count ≡ count (of_status is_uploaded) rs + o.uploaded_count)
        × (after.failed_count ≡ count (of_status is_failed) rs + o.failed_count)
  unfolding add_uploads add_summary count
  counts-add_uploads [] o = ground arith
  counts-add_uploads (r ∷ rs) o =
      ground (arith, counts-add_uploads rs (add_summary r.status (summary_of time archives r) o))

  -- What the loop keeps, or the summary of the first of its status.
  abbrev kept_or : Option ScanSummary → Option Record → Option ScanSummary
  kept_or (some s) found = some s
  kept_or none none = none
  kept_or none (some r) = some (summary_of time archives r)

  firsts-add_uploads :
      (rs : List Record) (o : ActivityOverview)
      → let after = add_uploads time archives rs o in
        (after.current_upload ≡ kept_or o.current_upload (first (of_status is_uploading) rs))
        × (after.last_upload ≡ kept_or o.last_upload (first (of_status is_uploaded) rs))
        × (after.upload_failure ≡ kept_or o.upload_failure (first (of_status is_failed) rs))
  unfolding add_uploads add_summary first
  firsts-add_uploads [] o = ground arith
  firsts-add_uploads (r ∷ rs) o =
      let (current, last, failure) =
        firsts-add_uploads rs (add_summary r.status (summary_of time archives r) o) in
      (
        current ∙ step o.current_upload (of_status is_uploading) r rs,
        last ∙ step o.last_upload (of_status is_uploaded) r rs,
        failure ∙ step o.upload_failure (of_status is_failed) r rs,
      )
    where
      step :
          (kept : Option ScanSummary) (p : Record → Bool) (r : Record) (rs : List Record)
          → kept_or (first_if (p r) (summary_of time archives r) kept) (first p rs)
            ≡ kept_or kept (first p (r ∷ rs))
      step (some s) p r rs = elim (Bool-cases (p r)) [ inl y ↦ rw y refl | inr n ↦ rw n refl ]
      step none p r rs = elim (Bool-cases (p r)) [
        | inl y ↦ rw (y, first) refl
        | inr n ↦ rw (n, first) refl
      ]

  recent-add_uploads :
      (room : ℕ) (rs : List Record) (o : ActivityOverview)
      → room + length o.recent_uploads ≡ recent_upload_limit
      → (add_uploads time archives rs o).recent_uploads
        ≡ o.recent_uploads ++ summaries (take room rs)
  unfolding add_uploads add_summary summaries
  recent-add_uploads zero [] o h = sym (append-nil o.recent_uploads)
  recent-add_uploads (suc room) [] o h = sym (append-nil o.recent_uploads)
  recent-add_uploads zero (r ∷ rs) o h =
      let full : ltb (length o.recent_uploads) recent_upload_limit ≡ false = ground arith in
      let next = add_summary r.status (summary_of time archives r) o in
      let same : next.recent_uploads ≡ o.recent_uploads = rw (full, add_summary) refl in
      recent-add_uploads zero rs next (ap (λ l. 0 + length l) same ∙ h) ∙ ap (λ l. l ++ []) same
  recent-add_uploads (suc room) (r ∷ rs) o h =
      let space : ltb (length o.recent_uploads) recent_upload_limit ≡ true = ground arith in
      let next = add_summary r.status (summary_of time archives r) o in
      let shown = summary_of time archives r in
      let more : next.recent_uploads ≡ o.recent_uploads ++ shown ∷ [] =
        rw (space, add_summary) refl in
      let room_left : room + length next.recent_uploads ≡ recent_upload_limit =
        ap (λ l. room + length l) more
        ∙ omega (arith, length-append o.recent_uploads (shown ∷ [])) in
      recent-add_uploads room rs next room_left
      ∙ ap (λ l. l ++ summaries (take room rs)) more
      ∙ append_assoc o.recent_uploads (shown ∷ []) (summaries (take room rs))

  -- In front of the loop nothing is counted or shown of the uploads.
  abbrev Fresh : ActivityOverview → Type 0
  Fresh o =
      (o.archived_count ≡ length archives)
      × (o.queued_count ≡ 0)
      × (o.uploading_count ≡ 0)
      × (o.uploaded_count ≡ 0)
      × (o.failed_count ≡ 0)
      × (o.current_upload ≡ none)
      × (o.last_upload ≡ none)
      × (o.upload_failure ≡ none)
      × (o.recent_uploads ≡ [])

  with_detected-Fresh :
      (sorted : List ArchiveRecord)
      → Fresh (with_detected time sorted (record no_activity { archived_count = length archives }))
  with_detected-Fresh [] = (refl, refl, refl, refl, refl, refl, refl, refl, refl)
  with_detected-Fresh (r ∷ rs) = (refl, refl, refl, refl, refl, refl, refl, refl, refl)

  shown_latest :
      (p : Status → Bool) (uploads : List Record)
      → ShowsLatest p uploads
          (kept_or none (first (of_status p) (sort_latest (upload_activity_time time) uploads)))
  shown_latest p uploads =
      let at = upload_activity_time time in
      elim (Option-cases (first (of_status p) (sort_latest at uploads))) [
        | inl nothing ↦ rw nothing (
            All-sort_latest at (λ r. p r.status ≡ false) uploads
              (first-none at (of_status p) (sort_latest at uploads) nothing))
        | inr (c, found) ↦
            let (among, of_kind, latest) =
              first-Latest at (of_status p) c (sort_latest at uploads)
                (sort_latest-Latest at uploads) found in
            rw found (
              c,
              Among-sort_latest at c uploads among,
              of_kind,
              refl,
              All-sort_latest at (λ r. p r.status ≡ true → at r ≤ at c) uploads latest,
            )
      ]

  add_uploads-Shows :
      (uploads : List Record) (o : ActivityOverview)
      → Fresh o
      → Shows uploads
          (add_uploads time archives (sort_latest (upload_activity_time time) uploads) o)
  add_uploads-Shows uploads o (total, q, g, d, f, no_current, no_last, no_failure, no_recent) =
      let at = upload_activity_time time in
      let sorted = sort_latest at uploads in
      let (archived, queued, uploading, uploaded, failed) = counts-add_uploads sorted o in
      let (current, last, failure) = firsts-add_uploads sorted o in
      let same = (λ (p : Status → Bool). count-sort_latest at (of_status p) uploads) in
      let shown = (λ (p : Status → Bool) (kept : Option ScanSummary) (e : kept ≡ none).
        subst (λ k. ShowsLatest p uploads (kept_or k (first (of_status p) sorted))) (sym e)
          (shown_latest p uploads)) in
      record {
        archived = archived ∙ total;
        queued = omega (arith, queued, q, same is_pending);
        uploading = omega (arith, uploading, g, same is_uploading);
        uploaded = omega (arith, uploaded, d, same is_uploaded);
        failed = omega (arith, failed, f, same is_failed);
        current =
            subst (ShowsLatest is_uploading uploads) (sym current)
              (shown is_uploading o.current_upload no_current);
        last =
            subst (ShowsLatest is_uploaded uploads) (sym last)
              (shown is_uploaded o.last_upload no_last);
        failure =
            subst (ShowsLatest is_failed uploads) (sym failure)
              (shown is_failed o.upload_failure no_failure);
        recent =
            recent-add_uploads recent_upload_limit sorted o (ap (λ l. 6 + length l) no_recent)
            ∙ ap (λ l. l ++ summaries (take recent_upload_limit sorted)) no_recent;
      }

  -- The overview counts the archive and the uploads of each status, shows for uploading, uploaded
  -- and failed the summary of the latest upload of that status, none where it has none, and as the
  -- recent ones the six latest at most.
  pub overview-Shows : (uploads : List Record) → Shows uploads (overview time archives uploads)
  unfolding overview
  overview-Shows uploads =
      add_uploads-Shows uploads _ (with_detected-Fresh (sort_latest (imported_time time) archives))
