-- ===== src/Updater/Configuration.antt =====
-- `updateConfiguration`, `validateUpdateOrigin` and `validateRelease` of `updater.go`.
use wow_markets.Base.{
  Bool, true, false, not, ◌&&◌, ◌||◌, ◌++◌, Option, none, some, ◌==◌, if◌then◌else◌, length, Result,
  ok, ◌>>=◌, ◌>>◌, require, wrap, or_error, codes, str_eq, is_empty,
}
use wow_markets.Base.Strings.{Text, trim_space, trim_slashes, has_prefix}
use wow_markets.Updatefeed.Select.{Target, Release}
use wow_markets.Updatefeed.Feed.{Channel, channel_text, parse_channel, stable, public_key_size}
use wow_markets.Updater.{
  Failure, invalid_channel, invalid_origin, untrusted_official_origin, insecure_origin,
  invalid_public_key, data_dir_unknown, bad_release_url, untrusted_asset_url,
  untrusted_release_origin, Url, UpdateConfiguration, Build,
}

abbrev pub update_public_key_base64 : Text
update_public_key_base64 = codes "92xOZ5+HUUc84qIBQB1DhrGsUfx+f5/rWrMOEJ4xA18="

abbrev pub trusted_release_origin : Text
trusted_release_origin = codes "https://github.com/eolseng/wow-markets/releases/download/"

abbrev pub is_loopback : Url → Bool
is_loopback origin =
    str_eq origin.scheme (codes "http")
    && (str_eq origin.hostname (codes "127.0.0.1") || str_eq origin.hostname (codes "localhost"))

-- The test of the scheme, and on an official origin of the host and path too.
unfoldable pub require_trusted : Url → Bool → Result Failure (Unit {0})
require_trusted origin true =
    require
      (str_eq origin.scheme (codes "https")
        && str_eq origin.host (codes "updates.wowmarkets.app")
        && is_empty origin.path)
      untrusted_official_origin
require_trusted origin false =
    require (is_loopback origin || str_eq origin.scheme (codes "https")) insecure_origin

unfoldable pub validate_update_origin : (Text → Option Url) → Text → Bool → Result Failure Url
validate_update_origin parse_url value official = do
  origin ← or_error (parse_url (trim_slashes value)) invalid_origin
  require
      (not (is_empty origin.host)
        && not origin.has_user
        && is_empty origin.raw_query
        && is_empty origin.fragment)
      invalid_origin
  require_trusted origin official
  ok origin

-- The path of the asset of a version at its release.
abbrev pub expected_path : Text → Text → Text
expected_path version asset_name =
    codes "/eolseng/wow-markets/releases/download/companion-v" ++ version ++ codes "/" ++ asset_name

unfoldable pub validate_release :
    (Text → Option Url) → Release → UpdateConfiguration → Result Failure (Unit {0})
validate_release parse_url release configuration = do
  parsed ← or_error (parse_url release.url) (bad_release_url release.url)
  require
      (str_eq parsed.scheme (codes "https")
        && str_eq parsed.host (codes "github.com")
        && str_eq parsed.path (expected_path release.version configuration.asset_name)
        && is_empty parsed.raw_query
        && is_empty parsed.fragment)
      (untrusted_asset_url release.version)
  require (has_prefix release.url trusted_release_origin) (untrusted_release_origin release.version)

module _ (build : Build) where
  abbrev pub origin_value : Text
  origin_value =
      let official = trim_space build.official_update_origin in
      if is_empty official && str_eq build.enable_updates (codes "1")
      then trim_space build.update_origin
      else official

  unfoldable pub compiled_public_key : Result Failure Text
  compiled_public_key = do
    key ← or_error (build.crypto.decode_base64 update_public_key_base64) invalid_public_key
    require (length key == public_key_size) invalid_public_key
    ok key

  abbrev pub staging_root : Result Failure Text
  staging_root =
      if is_empty build.data_dir
      then wrap data_dir_unknown build.companion_data_dir
      else ok build.data_dir

  -- `origin_value` is empty where updates are not enabled.
  unfoldable pub configuration_at :
      Channel → Text → Option (Target × Text) → Result Failure (Option UpdateConfiguration)
  configuration_at channel value platform = do
    origin ←
        validate_update_origin build.parse_url value
          (not (is_empty (trim_space build.official_update_origin)))
    public_key ← compiled_public_key
    elim platform [
      | none ↦ ok none
      | some (target, asset_name) ↦ do
        root ← staging_root
        ok (
            some (record {
              origin = origin;
              feed_url =
                  trim_slashes origin.text
                  ++ codes "/companion/"
                  ++ channel_text channel
                  ++ codes "/"
                  ++ target.os
                  ++ codes "-"
                  ++ target.arch
                  ++ codes ".xml";
              public_key = public_key;
              target = target;
              asset_name = asset_name;
              channel = channel;
              version = build.version;
              staging_dir = build.join root (codes "updates");
            }))
    ]

  -- `updateConfiguration` on the configured channel; `none` is the nil configuration.
  unfoldable pub update_configuration : Text → Result Failure (Option UpdateConfiguration)
  update_configuration value = do
    let name = if is_empty value then channel_text stable else value
    channel ← or_error (parse_channel name) (invalid_channel name)
    if is_empty origin_value
        then ok none
        else configuration_at channel origin_value build.platform_target
