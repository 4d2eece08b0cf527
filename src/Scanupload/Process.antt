-- ===== src/Scanupload/Process.antt =====
-- `ProcessDueLimitWithProgress` of `upload.go`. A call reads the clock and the network in each
-- round, for one checksum; a write that fails leaves the file as it was. At the head of a round
-- the state in memory is the one in the file. `progress` sees records and changes none.
pub mod Recovered
pub mod Untouched
pub mod Finished
pub mod NextDue
pub mod Attempted
use wow_markets.Base.{
  ℕ, suc, ◌+◌, Bool, true, false, not, ◌&&◌, ◌||◌, List, [], ◌∷◌, ◌++◌, Option, none, some, ◌==◌,
  ltb, if◌then◌else◌, length, take, codes,
}
use wow_markets.Base.Int.{ℤ, pos, negsuc}
use wow_markets.Base.Maps.{lookup, insert, text_key}
use wow_markets.Base.Strings.{Text}
use wow_markets.Scanupload.Record.{
  Status, pending, uploading, uploaded, failed, other, Record, Uploads, UploadResponse,
}
use wow_markets.Scanupload.Outside.{Time, Rfc3339, Library}
use wow_markets.Scanupload.Backoff.{backoff}
use wow_markets.Scanupload.Upload.{Exchange, Attempt, upload}
use wow_markets.Scanupload.Queue.{new_record}
use wow_markets.Scanupload.Due.{due_checksums}

-- What a round meets, in order: `ctx.Err()`, the clock, the first write, the exchange, the clock
-- again and the second write. An error has its text.
pub record World : Type 0 where
  pub cancelled : Option Text
  pub attempted_at : Time
  pub first_write : Option Text
  pub exchange : Exchange
  pub finished_at : Time
  pub second_write : Option Text

-- `baseBackoff` and `maxBackoff`.
pub record Agent : Type 0 where
  pub base_backoff : Time
  pub max_backoff : Time

-- The results, the uploads in the file behind the call, and its error.
pub record Ended : Type 0 where
  pub results : List Record
  pub stored : Uploads
  pub error : Option Text

abbrev pub interrupted : Rfc3339 → Time → Record → Record
interrupted time now r = record r {
  status = failed;
  retryable = true;
  next_attempt_at = time.format now;
  last_error = codes "previous upload was interrupted";
}

abbrev pub is_uploading : Status → Bool
is_uploading uploading = true
is_uploading _ = false

-- The loop that recovers, and its flag.
unfoldable pub recover : Rfc3339 → Time → Uploads → Uploads × Bool
recover time now [] = ([], false)
recover time now ((k, r) ∷ m) =
    let (rest, recovered) = recover time now m in
    if is_uploading r.status
    then ((k, interrupted time now r) ∷ rest, true)
    else ((k, r) ∷ rest, recovered)

-- The record in front of its request.
abbrev pub begin : Rfc3339 → Time → Record → Record
begin time attempted_at r = record r {
  status = uploading;
  attempts = r.attempts + 1;
  last_attempt_at = time.format attempted_at;
  next_attempt_at = [];
  last_error = [];
  http_status = 0;
}

abbrev pub succeeded : Rfc3339 → Time → UploadResponse → Record → Record
succeeded time finished_at response r = record r {
  status = uploaded;
  uploaded_at = time.format finished_at;
  retryable = false;
  server_status = response.status;
  scan_id = response.scan_id;
  submission_id = response.submission_id;
  observation_rows = response.rows;
  item_count = response.items;
  price_levels = response.price_levels;
  price_snapshots = response.price_snapshots;
}

abbrev pub retry_later : Rfc3339 → Agent → Time → Record → Record
retry_later time agent finished_at r = record r {
  next_attempt_at =
      time.format (finished_at + backoff agent.base_backoff agent.max_backoff r.attempts);
}

abbrev pub rejected : Rfc3339 → Agent → Time → Bool → Text → Record → Record
rejected time agent finished_at retryable e r =
    let next = record r { status = failed; last_error = e; retryable = retryable } in
    if retryable then retry_later time agent finished_at next else next

-- The record behind its request.
unfoldable pub finish : Rfc3339 → Agent → Time → Attempt → Record → Record
finish time agent finished_at attempt r =
    let answered = record r { http_status = attempt.http_status } in
    elim attempt.upload_err [
      | none ↦ succeeded time finished_at attempt.response answered
      | some e ↦ rejected time agent finished_at attempt.retryable e answered
    ]

-- `currentState.Uploads[checksum]`, the zero value at a missing key.
abbrev pub record_at : Text → Uploads → Record
record_at k uploads = elim (lookup k uploads) [
  | some r ↦ r
  | none ↦ record (new_record [] [] []) { status = other [] }
]

-- `if limit > 0 && len(checksums) > limit { checksums = checksums[:limit] }`
abbrev pub limited : ℤ → List Text → List Text
limited (pos n) ks = if ltb 0 n && ltb n (length ks) then take n ks else ks
limited (negsuc n) ks = ks

module _ (lib : Library) (agent : Agent) where
  -- The records of a round: in front of the request, and behind it.
  unfoldable pub begun : World → Record → Record
  begun world r = begin lib.time world.attempted_at r

  unfoldable pub attempted : World → Record → Record
  attempted world r =
      let begun = begin lib.time world.attempted_at r in
      finish lib.time agent world.finished_at (upload lib begun.checksum world.exchange) begun

  -- The loop over the checksums.
  unfoldable pub process : (Text → World) → List Record → Uploads → List Text → Ended
  process worlds results stored [] = record { results = results; stored = stored; error = none }
  process worlds results stored (k ∷ ks) =
      let world = worlds k in
      let r = record_at k stored in
      let sending = insert k (begun world r) stored in
      let sent = attempted world r in
      elim world.cancelled [
        | some e ↦ record { results = results; stored = stored; error = some e }
        | none ↦ elim world.first_write [
          | some e ↦ record { results = results; stored = stored; error = some e }
          | none ↦ elim world.second_write [
            | some e ↦ record { results = results; stored = sending; error = some e }
            | none ↦ process worlds (results ++ sent ∷ []) (insert k sent sending) ks
          ]
        ]
      ]

  abbrev pub process_due_from : ℤ → Time → (Text → World) → Uploads → Ended
  process_due_from limit now worlds stored =
      process worlds [] stored (limited limit (due_checksums lib.time stored now))

  -- From the loaded uploads on; `recover_write` is how the write of recovered records ends.
  unfoldable pub process_due : ℤ → Time → Option Text → (Text → World) → Uploads → Ended
  process_due limit now recover_write worlds stored =
      let (uploads, recovered) = recover lib.time now stored in
      if recovered
      then elim recover_write [
        | some e ↦ record { results = []; stored = stored; error = some e }
        | none ↦ process_due_from limit now worlds uploads
      ]
      else process_due_from limit now worlds uploads
