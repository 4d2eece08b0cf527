-- ===== src/Scanupload/Outside.antt =====
-- What the queue takes from Go's library: times and their RFC 3339 texts, JSON, quoting and paths.
use wow_markets.Base.{ℕ, ◌*◌, ◌/◌, ◌≡◌, [], Option, none, some, Result}
use wow_markets.Base.Strings.{Text}
use wow_markets.Scanupload.Record.{UploadResponse, ProblemResponse}

-- A `time.Time` in UTC is the number of nanoseconds since its zero value, the start of the year 1.
abbrev pub Time : Type 0
Time = ℕ

abbrev pub second : ℕ
second = 1_000_000_000

-- `Format(time.RFC3339)` and `time.Parse(time.RFC3339, _)`, which writes and reads whole seconds.
pub record Rfc3339 : Type 0 where
  pub format : Time → Text
  pub parse : Text → Option Time
  pub parse_format : (t : Time) → parse (format t) ≡ some (t / second * second)
  pub parse_empty : parse [] ≡ none

-- How a decoder with unknown fields disallowed reads a response: a syntax error with its text, a
-- value and more behind it, or a value alone.
pub data Decoded : Type 0 where
  malformed : Text → Decoded
  trailing : Decoded
  value : UploadResponse → Decoded

pub record Library : Type 0 where
  pub time : Rfc3339
  pub decode_response : Text → Decoded
  pub decode_problem : Text → Option ProblemResponse
  -- `%q`
  pub quote : Text → Text
  -- `filepath.Abs`
  pub absolute : Text → Result Text Text
