-- ===== src/Scanupload/Due.antt =====
-- `dueChecksums`, `NextDueAt`, `isAuthorizationFailure` and `ResetFailedAuthorization` of
-- `upload.go`. Maps are read in the order of their association lists.
pub mod Reset
pub mod Refused
use wow_markets.Base.{
  ℕ, ◌+◌, Bool, true, false, not, ◌&&◌, ◌||◌, List, [], ◌∷◌, ◌++◌, Option, none, some, ◌==◌, ltb,
  leb, if◌then◌else◌, Result, ok, err, ◌>>=◌, codes, str_eq,
}
use wow_markets.Base.Strings.{Text, str_lt, has_prefix}
use wow_markets.Scanupload.Record.{
  Status, pending, uploading, uploaded, failed, other, Record, Uploads,
}
use wow_markets.Scanupload.Outside.{Time, Rfc3339}
use wow_markets.Scanupload.Upload.{print_nat}

module _ (time : Rfc3339) where
  abbrev pub reached : Option Time → Time → Bool
  reached none now = false
  reached (some t) now = leb t now

  -- The cases of the loop of `dueChecksums`.
  abbrev pub status_due : Status → Record → Time → Bool
  status_due pending r now = true
  status_due failed r now = r.retryable && reached (time.parse r.next_attempt_at) now
  status_due _ r now = false

  unfoldable pub is_due : Record → Time → Bool
  is_due r now = status_due r.status r now

  unfoldable pub due_keys : Uploads → Time → List Text
  due_keys [] now = []
  due_keys ((k, r) ∷ m) now = let rest = due_keys m now in if is_due r now then k ∷ rest else rest

unfoldable pub insert_text : Text → List Text → List Text
insert_text s [] = s ∷ []
insert_text s (t ∷ ts) = let rest = insert_text s ts in if str_lt t s then t ∷ rest else s ∷ t ∷ ts

-- `sort.Strings`
unfoldable pub sort_texts : List Text → List Text
sort_texts [] = []
sort_texts (s ∷ ss) = insert_text s (sort_texts ss)

unfoldable pub due_checksums : Rfc3339 → Uploads → Time → List Text
due_checksums time uploads now = sort_texts (due_keys time uploads now)

module _ (time : Rfc3339) where
  -- `next.IsZero() || candidate.Before(next)`
  abbrev pub earlier : Time → Option Time → Time
  earlier next none = next
  earlier next (some t) = if next == 0 || ltb t next then t else next

  -- The loop of `NextDueAt`; a pending or an uploading record ends it.
  unfoldable pub next_due_from : Time → Time → Uploads → Time
  next_due_from now next [] = next
  next_due_from now next ((k, r) ∷ m) = elim r.status [
    | pending ↦ now
    | uploading ↦ now
    | failed ↦ elim r.retryable [
      | true ↦ next_due_from now (earlier next (time.parse r.next_attempt_at)) m
      | false ↦ next_due_from now next m
    ]
    | uploaded ↦ next_due_from now next m
    | other _ ↦ next_due_from now next m
  ]

  unfoldable pub next_due_at : Time → Uploads → Time
  next_due_at now uploads = next_due_from now 0 uploads

-- One round of the loop of `isAuthorizationFailure`.
unfoldable pub refused_with : ℕ → Text → Bool
refused_with status last_error =
    has_prefix last_error (codes "API returned " ++ print_nat status ++ codes " ")
    || str_eq last_error (codes "API returned HTTP " ++ print_nat status)

unfoldable pub is_authorization_failure : Record → Bool
is_authorization_failure r =
    r.http_status == 401
    || r.http_status == 403
    || refused_with 401 r.last_error
    || refused_with 403 r.last_error

abbrev pub is_failed : Status → Bool
is_failed failed = true
is_failed _ = false

abbrev pub requeued : Record → Record
requeued r = record r {
  status = pending;
  retryable = false;
  next_attempt_at = [];
  last_error = [];
  http_status = 0;
}

-- The loop of `ResetFailedAuthorization`: the uploads, and how many are reset.
unfoldable pub reset_all : Uploads → Uploads × ℕ
reset_all [] = ([], 0)
reset_all ((k, r) ∷ m) =
    let (rest, n) = reset_all m in
    if not (is_failed r.status) || not (is_authorization_failure r)
    then ((k, r) ∷ rest, n)
    else ((k, requeued r) ∷ rest, n + 1)

-- The count and the uploads in the state's file behind the call.
unfoldable pub reset_failed_authorization :
    (Uploads → Result Text (Unit {0})) → Uploads → Result Text (ℕ × Uploads)
reset_failed_authorization write stored =
    let (uploads, reset) = reset_all stored in
    if reset == 0 then ok (0, stored) else (write uploads >>= λ _. ok (reset, uploads))
