-- ===== src/Tests/Feed.antt =====
-- A run of the signed feed, and witnesses.
use wow_markets.Base.{
  ℕ, zero, suc, ◌≡◌, refl, true, false, List, [], ◌∷◌, Option, some, ok, codes, ◌==◌, length,
}
use wow_markets.Base.Int.{pos}
use wow_markets.Base.Strings.{Text}
use wow_markets.Updatefeed.Version.{Version, parse_version}
use wow_markets.Updatefeed.Select.{Release, target_macos_arm64, select}
use wow_markets.Updatefeed.Feed.{Item, Crypto, parse_signed}
use wow_markets.Updatefeed.Feed.Signed.{SignedFeed, parse_signed-SignedFeed, select-parse_signed}
use wow_markets.Base.Numbers as Numbers
use wow_markets.Base.Strings as Strings
use wow_markets.Updatefeed.Feed as Feed
use wow_markets.Updatefeed.Version as UpdatefeedVersion

abbrev pub zeros : ℕ → Text
zeros zero = []
zeros (suc n) = 0 ∷ zeros n

abbrev one_item : Item
one_item = record {
  title = codes " Release ";
  published_at = [];
  version = codes "7";
  short_version = codes " 1.3.0 ";
  notes_url = [];
  mandatory = false;
  enclosure_url = codes "https://a/b";
  enclosure_length = codes "12";
  enclosure_version = [];
  enclosure_signature = codes "c";
  enclosure_os = codes "macos";
  enclosure_arch = codes "arm64";
}

-- A signature is good if its content is a byte long.
abbrev crypto : Crypto
crypto = record {
  verify = λ key content signature. length content == 1;
  decode_base64 = λ text. some (zeros 64);
  decode_items = λ content. ok (one_item ∷ []);
  valid_url = λ url. true;
}

abbrev payload : Text
payload = codes "x<!-- sparkle-signatures:\nedSignature: c\nlength: 1\n-->"

abbrev releases : List Release
releases =
    record {
      build_version = codes "7";
      version = codes "1.3.0";
      title = codes "Release";
      published_at = [];
      notes_url = [];
      url = codes "https://a/b";
      length = pos 12;
      signature = codes "c";
      os = codes "macos";
      arch = codes "arm64";
      mandatory = false;
    }
    ∷ []

feed_run : parse_signed crypto payload (zeros 32) ≡ ok releases
unfolding Strings.str_eq Strings.str_lt Strings.is_space Strings.trim_left Strings.trim_space
    Strings.cut Strings.split_onto Strings.has_prefix Numbers.digits_value Numbers.decimal
    Numbers.saturated Numbers.parse_uint Numbers.parse_int Numbers.is_float
    UpdatefeedVersion.valid_identifier UpdatefeedVersion.all_digits UpdatefeedVersion.numeric
    UpdatefeedVersion.parse_part UpdatefeedVersion.parse_core UpdatefeedVersion.good_identifier
    UpdatefeedVersion.all_good UpdatefeedVersion.with_prerelease UpdatefeedVersion.parse_version
    UpdatefeedVersion.order_identifiers UpdatefeedVersion.compare_identifiers
    UpdatefeedVersion.compare_prerelease UpdatefeedVersion.compare_versions Feed.split_last
    Feed.before_first Feed.drop_spaces Feed.trim_bytes Feed.read_line Feed.read_lines
    Feed.decode_signature Feed.split_signed_content Feed.read_release Feed.read_releases
    Feed.parse_signed
feed_run = refl

parse_signed-SignedFeed_example : SignedFeed crypto payload (zeros 32) releases
parse_signed-SignedFeed_example =
    parse_signed-SignedFeed crypto payload (zeros 32) releases feed_run

abbrev current_version : Version
current_version = record { major = 1; minor = 2; patch = 0; prerelease = [] }

current_run : parse_version (codes "1.2.0") ≡ some current_version
unfolding Strings.str_eq Strings.str_lt Strings.is_space Strings.trim_left Strings.trim_space
    Strings.cut Strings.split_onto Strings.has_prefix Numbers.digits_value Numbers.decimal
    Numbers.saturated Numbers.parse_uint Numbers.parse_int Numbers.is_float
    UpdatefeedVersion.valid_identifier UpdatefeedVersion.all_digits UpdatefeedVersion.numeric
    UpdatefeedVersion.parse_part UpdatefeedVersion.parse_core UpdatefeedVersion.good_identifier
    UpdatefeedVersion.all_good UpdatefeedVersion.with_prerelease UpdatefeedVersion.parse_version
    UpdatefeedVersion.order_identifiers UpdatefeedVersion.compare_identifiers
    UpdatefeedVersion.compare_prerelease UpdatefeedVersion.compare_versions Feed.split_last
    Feed.before_first Feed.drop_spaces Feed.trim_bytes Feed.read_line Feed.read_lines
    Feed.decode_signature Feed.split_signed_content Feed.read_release Feed.read_releases
    Feed.parse_signed
current_run = refl

select-parse_signed_example :
    (chosen : Option Release) × (select releases (codes "1.2.0") target_macos_arm64 ≡ ok chosen)
select-parse_signed_example =
    select-parse_signed crypto payload (zeros 32) (codes "1.2.0") releases target_macos_arm64
      current_version feed_run current_run
