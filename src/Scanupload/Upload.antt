-- ===== src/Scanupload/Upload.antt =====
-- `upload`, `isRetryableStatus` and `apiError` of `upload.go`. An exchange is how the calls that
-- touch a file or the network end, the first that fails with the text of its error.
pub mod Accepted
pub mod Printed
use wow_markets.Base.{
  ℕ, zero, suc, ◌+◌, ◌/◌, ◌%◌, Bool, true, false, not, ◌&&◌, ◌||◌, List, [], ◌∷◌, ◌++◌, Option,
  none, some, ◌==◌, ltb, leb, if◌then◌else◌, length, take, Result, ok, err, codes, str_eq, is_empty,
}
use wow_markets.Base.Int.{pos}
use wow_markets.Base.Strings.{Text}
use wow_markets.Scanupload.Record.{UploadResponse, ProblemResponse}
use wow_markets.Scanupload.Outside.{Library, Decoded, malformed, trailing, value}

abbrev pub max_response_bytes : ℕ
max_response_bytes = 1_048_576

-- `os.Open`, `http.NewRequestWithContext`, `client.Do`, `io.ReadAll` (behind a status), or a
-- status with the bytes of its body.
pub data Exchange : Type 0 where
  open_failed request_failed send_failed : Text → Exchange
  read_failed : ℕ → Text → Exchange
  responded : ℕ → Text → Exchange

-- The four results of `upload`; no text is the nil error.
pub record Attempt : Type 0 where
  pub response : UploadResponse
  pub http_status : ℕ
  pub retryable : Bool
  pub upload_err : Option Text

-- `uploadResponse{}`
abbrev pub empty_response : UploadResponse
empty_response = record {
  checksum = [];
  scan_id = pos 0;
  submission_id = [];
  status = [];
  rows = pos 0;
  items = pos 0;
  price_levels = pos 0;
  price_snapshots = pos 0;
}

abbrev pub failing : ℕ → Bool → Text → Attempt
failing status retryable e = record {
  response = empty_response;
  http_status = status;
  retryable = retryable;
  upload_err = some e;
}

-- `%d`: the digits in front of a text, by repeated division.
unfoldable pub print_onto : ℕ → ℕ → Text → Text
print_onto zero n acc = acc
print_onto (suc fuel) n acc = elim (ltb n 10) [
  | true ↦ (b'0' + n) ∷ acc
  | false ↦ print_onto fuel (n / 10) ((b'0' + n % 10) ∷ acc)
]

unfoldable pub print_nat : ℕ → Text
print_nat n = print_onto (suc n) n []

unfoldable pub is_retryable_status : ℕ → Bool
is_retryable_status status = status == 408 || status == 429 || leb 500 status

module _ (lib : Library) where
  abbrev pub problem_text : ℕ → Option ProblemResponse → Text
  problem_text status none = codes "API returned HTTP " ++ print_nat status
  problem_text status (some p) =
      if not (is_empty p.error)
      then (if not (is_empty p.detail)
          then codes "API returned "
            ++ print_nat status
            ++ codes " "
            ++ p.error
            ++ codes ": "
            ++ p.detail
          else codes "API returned " ++ print_nat status ++ codes " " ++ p.error)
      else codes "API returned HTTP " ++ print_nat status

  unfoldable pub api_error : ℕ → Text → Text
  api_error status payload = problem_text status (lib.decode_problem payload)

  -- From the checks of `result.Status` on.
  abbrev pub check_result : Text → ℕ → UploadResponse → Attempt
  check_result checksum status result =
      if not (str_eq result.status (codes "accepted"))
        && not (str_eq result.status (codes "duplicate"))
      then failing status false
          (codes "API returned unsupported success status " ++ lib.quote result.status)
      else if not (str_eq result.checksum checksum)
      then failing status false (
          codes "API checksum "
          ++ result.checksum
          ++ codes " does not match queued checksum "
          ++ checksum)
      else record { response = result; http_status = status; retryable = false; upload_err = none }

  abbrev pub check_decoded : Text → ℕ → Decoded → Attempt
  check_decoded checksum status (malformed e) =
      failing status false (codes "decode success response: " ++ e)
  check_decoded checksum status trailing =
      failing status false (codes "decode success response: trailing JSON value")
  check_decoded checksum status (value result) = check_result checksum status result

  -- From `len(payload) > maxResponseBytes` on.
  unfoldable pub read_payload : Text → ℕ → Text → Attempt
  read_payload checksum status payload =
      if ltb max_response_bytes (length payload)
      then failing status false (codes "API response exceeds size limit")
      else if not (status == 200) && not (status == 201)
      then failing status (is_retryable_status status) (api_error status payload)
      else check_decoded checksum status (lib.decode_response payload)

  -- `io.LimitReader` passes on one byte more than the limit.
  unfoldable pub upload : Text → Exchange → Attempt
  upload checksum (open_failed e) = failing 0 false (codes "open archive: " ++ e)
  upload checksum (request_failed e) = failing 0 false (codes "create request: " ++ e)
  upload checksum (send_failed e) = failing 0 true (codes "send scan: " ++ e)
  upload checksum (read_failed status e) = failing status true (codes "read response: " ++ e)
  upload checksum (responded status body) =
      read_payload checksum status (take (max_response_bytes + 1) body)
