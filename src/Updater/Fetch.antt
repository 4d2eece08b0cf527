-- ===== src/Updater/Fetch.antt =====
-- `fetchUpdate`, `downloadUpdate` and `isTransportError` of `updater.go`, on how their requests end.
use wow_markets.Base.{
  ℕ, ◌+◌, Bool, true, false, not, ◌&&◌, ◌++◌, Option, none, some, ◌==◌, leb, length, take, Result,
  ok, err, ◌>>=◌, ◌>>◌, require, reject, wrap, codes,
}
use wow_markets.Base.Int.{ℤ, pos, negsuc, eq_ℤ, leb_ℤ}
use wow_markets.Base.Strings.{Text}
use wow_markets.Updatefeed.Select.{Release, select}
use wow_markets.Updatefeed.Feed.{invalid_url, parse_signed, verify_artifact}
use wow_markets.Updater.{
  Failure, request_failed, no_promoted_update, server_returned, unread, feed_too_large,
  feed_unverified, not_selected, length_out_of_range, length_differs, artifact_unverified,
  bad_release_url, staging_failed, UpdateConfiguration, Build, Files, put,
}
use wow_markets.Updater.Configuration.{validate_release}

-- A body: the bytes that come, or an error in front of the limit of the reading and whether it is
-- that the context has ended.
pub data Body : Type 0 where
  broken : Bool → Text → Body
  content : Text → Body

-- How `NewRequestWithContext` and `client.Do` end.
pub data Response : Type 0 where
  failed_request : Text → Response
  responded : ℕ → Text → Body → Response

abbrev pub maximum_appcast_bytes : ℕ
maximum_appcast_bytes = 2_097_152

abbrev pub maximum_artifact_bytes : ℕ
maximum_artifact_bytes = 268_435_456

-- `io.ReadAll(io.LimitReader(response.Body, n))`
abbrev pub read_limited : ℕ → Body → Result Failure Text
read_limited n (broken ended e) = err (unread ended e)
read_limited n (content bytes) = ok (take n bytes)

-- The tests of the feed's status, in front of its body.
unfoldable pub feed_body : Response → Result Failure Body
feed_body (failed_request e) = err (request_failed e)
feed_body (responded code status body) = do
  reject (code == 404) (no_promoted_update status)
  require (code == 200) (server_returned status)
  ok body

unfoldable pub artifact_body : Response → Result Failure Body
artifact_body (failed_request e) = err (request_failed e)
artifact_body (responded code status body) = do
  require (code == 200) (server_returned status)
  ok body

-- `errors.Is` of an ended context, or `isTransportError`, behind every wrapping.
unfoldable pub is_offline : Failure → Bool
is_offline (request_failed e) = true
is_offline (unread ended e) = ended
is_offline (feed_unverified (invalid_url version)) = true
is_offline (bad_release_url url) = true
is_offline _ = false

-- `release.Length + 1` of a length within the limit.
abbrev pub byte_limit : ℤ → ℕ
byte_limit (pos n) = n + 1
byte_limit (negsuc n) = 0

-- How the calls that stage the payload end: what a failed write leaves in the file.
pub record Staging : Type 0 where
  pub directory : Option Text
  pub write : Option Text
  pub partial : Option Text
  pub rename : Option Text

module _ (build : Build) where
  abbrev pub validated : Option Release → UpdateConfiguration → Result Failure (Option Release)
  validated none configuration = ok none
  validated (some release) configuration =
      validate_release build.parse_url release configuration >>= λ _. ok (some release)

  unfoldable pub fetch_update : UpdateConfiguration → Response → Result Failure (Option Release)
  fetch_update configuration response = do
    body ← feed_body response
    payload ← read_limited (maximum_appcast_bytes + 1) body
    require (leb (length payload) maximum_appcast_bytes) feed_too_large
    releases ← wrap feed_unverified (parse_signed build.crypto payload configuration.public_key)
    release ← wrap not_selected (select releases configuration.version configuration.target)
    validated release configuration

  -- The artifact's bytes, verified.
  unfoldable pub receive : UpdateConfiguration → Release → Response → Result Failure Text
  receive configuration release response = do
    require
        (not (leb_ℤ release.length (pos 0)) && leb_ℤ release.length (pos maximum_artifact_bytes))
        length_out_of_range
    body ← artifact_body response
    payload ← read_limited (byte_limit release.length) body
    require (eq_ℤ (pos (length payload)) release.length)
        (length_differs (length payload) release.length)
    wrap artifact_unverified
        (verify_artifact build.crypto payload release.signature configuration.public_key)
    ok payload

  abbrev pub staged_path : UpdateConfiguration → Text
  staged_path configuration = build.join configuration.staging_dir configuration.asset_name

  -- The calls behind the verification: the path, and the files that they leave.
  unfoldable pub stage : Text → Text → Staging → Files → Result Failure Text × Files
  stage path payload staging files =
      let temporary = path ++ codes ".download" in
      let written = put temporary (some payload) files in
      elim staging.directory [
        | some e ↦ (err (staging_failed e), files)
        | none ↦ elim staging.write [
          | some e ↦ (err (staging_failed e), put temporary staging.partial files)
          | none ↦ elim staging.rename [
            | some e ↦ (err (staging_failed e), written)
            | none ↦ (ok path, put path (written temporary) (put temporary none written))
          ]
        ]
      ]

  unfoldable pub download_update :
      UpdateConfiguration → Release → Response → Staging → Files → Result Failure Text × Files
  download_update configuration release response staging files =
      elim (receive configuration release response) [
        | err e ↦ (err e, files)
        | ok payload ↦ stage (staged_path configuration) payload staging files
      ]
