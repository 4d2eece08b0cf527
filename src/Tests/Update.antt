-- ===== src/Tests/Update.antt =====
-- Runs of the update feed, and witnesses.
use mathlib.Core.Option.{some-injective}
use Prim.Native.Nat.{lt, eq, gt}
use wow_markets.Base.{
  false≢true, sym, ◌∙◌, subst, str_eq, str_eq_iff, ◌≡◌, ◌≢◌, ◌↔◌, refl, true, false, List, [], ◌∷◌,
  some, ok, codes, arith,
}
use wow_markets.Base.Int.{pos}
use wow_markets.Base.Strings.{Text}
use wow_markets.Base.Numbers.{decimal}
use wow_markets.Updatefeed.Version.{Version, parse_version, compare_versions, numeric}
use wow_markets.Updatefeed.Version.Identifiers.{flip}
use wow_markets.Updatefeed.Version.Order.{
  WellFormed, compare_versions-flip, compare_versions-eq, compare_versions_trans,
}
use wow_markets.Updatefeed.Version.Parsed.{
  GoodVersion, parse_version-GoodVersion, compare_versions_oversized,
}
use wow_markets.Updatefeed.Select.{Release, target_macos_arm64, select}
use wow_markets.Updatefeed.Select.Newest.{AllWellFormed, Chooses, select-Chooses}
use wow_markets.Base.Numbers as Numbers
use wow_markets.Base.Strings as Strings
use wow_markets.Updatefeed.Select as Select
use wow_markets.Updatefeed.Version as UpdatefeedVersion

abbrev beta : Version
beta = record { major = 1; minor = 2; patch = 3; prerelease = codes "beta" ∷ codes "2" ∷ [] }

abbrev final : Version
final = record { major = 1; minor = 2; patch = 3; prerelease = [] }

abbrev later : Version
later = record { major = 1; minor = 3; patch = 0; prerelease = [] }

parse_beta : parse_version (codes " 1.2.3-beta.2+7 ") ≡ some beta
unfolding Strings.str_eq Strings.str_lt Strings.is_space Strings.trim_left Strings.trim_space
    Strings.cut Strings.split_onto Strings.has_prefix Numbers.digits_value Numbers.decimal
    Numbers.saturated Numbers.parse_uint Numbers.parse_int Numbers.is_float
    UpdatefeedVersion.valid_identifier UpdatefeedVersion.all_digits UpdatefeedVersion.numeric
    UpdatefeedVersion.parse_part UpdatefeedVersion.parse_core UpdatefeedVersion.good_identifier
    UpdatefeedVersion.all_good UpdatefeedVersion.with_prerelease UpdatefeedVersion.parse_version
    UpdatefeedVersion.order_identifiers UpdatefeedVersion.compare_identifiers
    UpdatefeedVersion.compare_prerelease UpdatefeedVersion.compare_versions Select.matches
    Select.consider Select.select_from Select.select
parse_beta = refl

parse_version-GoodVersion_example : GoodVersion beta
parse_version-GoodVersion_example =
    parse_version-GoodVersion (codes " 1.2.3-beta.2+7 ") beta parse_beta

beta-WellFormed : WellFormed beta
unfolding Strings.str_eq Strings.str_lt Strings.is_space Strings.trim_left Strings.trim_space
    Strings.cut Strings.split_onto Strings.has_prefix Numbers.digits_value Numbers.decimal
    Numbers.saturated Numbers.parse_uint Numbers.parse_int Numbers.is_float
    UpdatefeedVersion.valid_identifier UpdatefeedVersion.all_digits UpdatefeedVersion.numeric
    UpdatefeedVersion.parse_part UpdatefeedVersion.parse_core UpdatefeedVersion.good_identifier
    UpdatefeedVersion.all_good UpdatefeedVersion.with_prerelease UpdatefeedVersion.parse_version
    UpdatefeedVersion.order_identifiers UpdatefeedVersion.compare_identifiers
    UpdatefeedVersion.compare_prerelease UpdatefeedVersion.compare_versions Select.matches
    Select.consider Select.select_from Select.select
beta-WellFormed = (
  record { no_zero = λ h. cc; fits = λ n h. cc },
  (record { no_zero = λ h. refl; fits = λ n h. ground arith }, tt),
)

compare_versions-flip_example : compare_versions final beta ≡ flip (compare_versions beta final)
compare_versions-flip_example = compare_versions-flip beta final beta-WellFormed tt

compare_versions-eq_example : (compare_versions beta final ≡ eq) ↔ (beta ≡ final)
compare_versions-eq_example = compare_versions-eq beta final

beta-final : compare_versions beta final ≡ lt
unfolding Strings.str_eq Strings.str_lt Strings.is_space Strings.trim_left Strings.trim_space
    Strings.cut Strings.split_onto Strings.has_prefix Numbers.digits_value Numbers.decimal
    Numbers.saturated Numbers.parse_uint Numbers.parse_int Numbers.is_float
    UpdatefeedVersion.valid_identifier UpdatefeedVersion.all_digits UpdatefeedVersion.numeric
    UpdatefeedVersion.parse_part UpdatefeedVersion.parse_core UpdatefeedVersion.good_identifier
    UpdatefeedVersion.all_good UpdatefeedVersion.with_prerelease UpdatefeedVersion.parse_version
    UpdatefeedVersion.order_identifiers UpdatefeedVersion.compare_identifiers
    UpdatefeedVersion.compare_prerelease UpdatefeedVersion.compare_versions Select.matches
    Select.consider Select.select_from Select.select
beta-final = refl

final-later : compare_versions final later ≡ lt
unfolding Strings.str_eq Strings.str_lt Strings.is_space Strings.trim_left Strings.trim_space
    Strings.cut Strings.split_onto Strings.has_prefix Numbers.digits_value Numbers.decimal
    Numbers.saturated Numbers.parse_uint Numbers.parse_int Numbers.is_float
    UpdatefeedVersion.valid_identifier UpdatefeedVersion.all_digits UpdatefeedVersion.numeric
    UpdatefeedVersion.parse_part UpdatefeedVersion.parse_core UpdatefeedVersion.good_identifier
    UpdatefeedVersion.all_good UpdatefeedVersion.with_prerelease UpdatefeedVersion.parse_version
    UpdatefeedVersion.order_identifiers UpdatefeedVersion.compare_identifiers
    UpdatefeedVersion.compare_prerelease UpdatefeedVersion.compare_versions Select.matches
    Select.consider Select.select_from Select.select
final-later = refl

compare_versions_trans_example : compare_versions beta later ≡ lt
compare_versions_trans_example = compare_versions_trans beta final later beta-final final-later

abbrev much_later : Version
much_later = record { major = 2; minor = 0; patch = 0; prerelease = [] }

abbrev one_above : Text
one_above = codes "18446744073709551617"

abbrev bound : Text
bound = codes "18446744073709551616"

abbrev with_number : Text → Version
with_number s = record { major = 1; minor = 0; patch = 0; prerelease = s ∷ [] }

texts_differ : str_eq one_above bound ≡ false
unfolding Strings.str_eq Strings.str_lt Strings.is_space Strings.trim_left Strings.trim_space
    Strings.cut Strings.split_onto Strings.has_prefix Numbers.digits_value Numbers.decimal
    Numbers.saturated Numbers.parse_uint Numbers.parse_int Numbers.is_float
    UpdatefeedVersion.valid_identifier UpdatefeedVersion.all_digits UpdatefeedVersion.numeric
    UpdatefeedVersion.parse_part UpdatefeedVersion.parse_core UpdatefeedVersion.good_identifier
    UpdatefeedVersion.all_good UpdatefeedVersion.with_prerelease UpdatefeedVersion.parse_version
    UpdatefeedVersion.order_identifiers UpdatefeedVersion.compare_identifiers
    UpdatefeedVersion.compare_prerelease UpdatefeedVersion.compare_versions Select.matches
    Select.consider Select.select_from Select.select
texts_differ = refl

differ : one_above ≢ bound
differ h = false≢true (sym texts_differ ∙ (str_eq_iff one_above bound).1 h)

all_numeric : (numeric one_above ≡ true) × (numeric bound ≡ true)
unfolding Strings.str_eq Strings.str_lt Strings.is_space Strings.trim_left Strings.trim_space
    Strings.cut Strings.split_onto Strings.has_prefix Numbers.digits_value Numbers.decimal
    Numbers.saturated Numbers.parse_uint Numbers.parse_int Numbers.is_float
    UpdatefeedVersion.valid_identifier UpdatefeedVersion.all_digits UpdatefeedVersion.numeric
    UpdatefeedVersion.parse_part UpdatefeedVersion.parse_core UpdatefeedVersion.good_identifier
    UpdatefeedVersion.all_good UpdatefeedVersion.with_prerelease UpdatefeedVersion.parse_version
    UpdatefeedVersion.order_identifiers UpdatefeedVersion.compare_identifiers
    UpdatefeedVersion.compare_prerelease UpdatefeedVersion.compare_versions Select.matches
    Select.consider Select.select_from Select.select
all_numeric = (refl, refl)

their_values :
    (decimal one_above ≡ some 18_446_744_073_709_551_617)
    × (decimal bound ≡ some 18_446_744_073_709_551_616)
unfolding Strings.str_eq Strings.str_lt Strings.is_space Strings.trim_left Strings.trim_space
    Strings.cut Strings.split_onto Strings.has_prefix Numbers.digits_value Numbers.decimal
    Numbers.saturated Numbers.parse_uint Numbers.parse_int Numbers.is_float
    UpdatefeedVersion.valid_identifier UpdatefeedVersion.all_digits UpdatefeedVersion.numeric
    UpdatefeedVersion.parse_part UpdatefeedVersion.parse_core UpdatefeedVersion.good_identifier
    UpdatefeedVersion.all_good UpdatefeedVersion.with_prerelease UpdatefeedVersion.parse_version
    UpdatefeedVersion.order_identifiers UpdatefeedVersion.compare_identifiers
    UpdatefeedVersion.compare_prerelease UpdatefeedVersion.compare_versions Select.matches
    Select.consider Select.select_from Select.select
their_values = (refl, refl)

compare_versions_oversized_example :
    (compare_versions (with_number one_above) (with_number bound) ≡ gt)
    × (compare_versions (with_number bound) (with_number one_above) ≡ gt)
compare_versions_oversized_example =
    compare_versions_oversized (with_number one_above) (with_number bound) one_above bound
      18_446_744_073_709_551_617 18_446_744_073_709_551_616 differ all_numeric.0 all_numeric.1
      their_values.0 their_values.1 (omega arith) (omega arith) refl refl

abbrev release : Text → Text → Text → Release
release version os arch = record {
  build_version = codes "7";
  version = version;
  title = [];
  published_at = [];
  notes_url = [];
  url = [];
  length = pos 1;
  signature = [];
  os = os;
  arch = arch;
  mandatory = false;
}

abbrev feed : List Release
feed =
    release (codes "1.2.3") (codes "macos") (codes "arm64")
    ∷ release (codes "1.3.0") (codes "macos") (codes "arm64")
    ∷ release (codes "2.0.0") (codes "windows") (codes "amd64")
    ∷ []

feed-WellFormed : AllWellFormed feed
unfolding Strings.str_eq Strings.str_lt Strings.is_space Strings.trim_left Strings.trim_space
    Strings.cut Strings.split_onto Strings.has_prefix Numbers.digits_value Numbers.decimal
    Numbers.saturated Numbers.parse_uint Numbers.parse_int Numbers.is_float
    UpdatefeedVersion.valid_identifier UpdatefeedVersion.all_digits UpdatefeedVersion.numeric
    UpdatefeedVersion.parse_part UpdatefeedVersion.parse_core UpdatefeedVersion.good_identifier
    UpdatefeedVersion.all_good UpdatefeedVersion.with_prerelease UpdatefeedVersion.parse_version
    UpdatefeedVersion.order_identifiers UpdatefeedVersion.compare_identifiers
    UpdatefeedVersion.compare_prerelease UpdatefeedVersion.compare_versions Select.matches
    Select.consider Select.select_from Select.select
feed-WellFormed = (
  λ v h. subst WellFormed (some-injective final v h) tt,
  (
    λ v h. subst WellFormed (some-injective later v h) tt,
    (λ v h. subst WellFormed (some-injective much_later v h) tt, tt),
  ),
)

select_later :
    select feed (codes "1.2.3-beta.2") target_macos_arm64
    ≡ ok (some (release (codes "1.3.0") (codes "macos") (codes "arm64")))
unfolding Strings.str_eq Strings.str_lt Strings.is_space Strings.trim_left Strings.trim_space
    Strings.cut Strings.split_onto Strings.has_prefix Numbers.digits_value Numbers.decimal
    Numbers.saturated Numbers.parse_uint Numbers.parse_int Numbers.is_float
    UpdatefeedVersion.valid_identifier UpdatefeedVersion.all_digits UpdatefeedVersion.numeric
    UpdatefeedVersion.parse_part UpdatefeedVersion.parse_core UpdatefeedVersion.good_identifier
    UpdatefeedVersion.all_good UpdatefeedVersion.with_prerelease UpdatefeedVersion.parse_version
    UpdatefeedVersion.order_identifiers UpdatefeedVersion.compare_identifiers
    UpdatefeedVersion.compare_prerelease UpdatefeedVersion.compare_versions Select.matches
    Select.consider Select.select_from Select.select
select_later = refl

parse_current : parse_version (codes "1.2.3-beta.2") ≡ some beta
unfolding Strings.str_eq Strings.str_lt Strings.is_space Strings.trim_left Strings.trim_space
    Strings.cut Strings.split_onto Strings.has_prefix Numbers.digits_value Numbers.decimal
    Numbers.saturated Numbers.parse_uint Numbers.parse_int Numbers.is_float
    UpdatefeedVersion.valid_identifier UpdatefeedVersion.all_digits UpdatefeedVersion.numeric
    UpdatefeedVersion.parse_part UpdatefeedVersion.parse_core UpdatefeedVersion.good_identifier
    UpdatefeedVersion.all_good UpdatefeedVersion.with_prerelease UpdatefeedVersion.parse_version
    UpdatefeedVersion.order_identifiers UpdatefeedVersion.compare_identifiers
    UpdatefeedVersion.compare_prerelease UpdatefeedVersion.compare_versions Select.matches
    Select.consider Select.select_from Select.select
parse_current = refl

select-Chooses_example :
    Chooses target_macos_arm64 beta feed
      (some (release (codes "1.3.0") (codes "macos") (codes "arm64")))
select-Chooses_example =
    select-Chooses feed (codes "1.2.3-beta.2") target_macos_arm64 beta _ parse_current
      beta-WellFormed feed-WellFormed select_later
