-- ===== src/Updatefeed/Select.antt =====
-- `Release`, `Target` and `Select` of `feed.go`.
pub mod Newest
use Prim.Native.Nat.{Ordering, lt, eq, gt}
use wow_markets.Base.{
  Bool, true, false, ◌&&◌, List, [], ◌∷◌, Option, none, some, if◌then◌else◌, Result, ok, err, ◌>>=◌,
  or_error, str_eq, codes,
}
use wow_markets.Base.Int.{ℤ}
use wow_markets.Base.Strings.{Text}
use wow_markets.Updatefeed.Version.{Version, parse_version, compare_versions}

pub record Target : Type 0 where
  pub os : Text
  pub arch : Text

abbrev pub target_macos_arm64 : Target
target_macos_arm64 = record { os = codes "macos"; arch = codes "arm64" }

abbrev pub target_windows_amd64 : Target
target_windows_amd64 = record { os = codes "windows"; arch = codes "amd64" }

pub record Release : Type 0 where
  pub build_version : Text
  pub version : Text
  pub title : Text
  pub published_at : Text
  pub notes_url : Text
  pub url : Text
  pub length : ℤ
  pub signature : Text
  pub os : Text
  pub arch : Text
  pub mandatory : Bool

pub data SelectError : Type 0 where
  bad_current bad_candidate : Text → SelectError

-- `selected` and `selectedVersion`; `none` is the nil pointer.
abbrev pub Selected : Type 0
Selected = Option (Release × Version)

unfoldable pub matches : Target → Release → Bool
matches target r = str_eq r.os target.os && str_eq r.arch target.arch

abbrev pub is_above : Version → Version → Bool
is_above v w = elim (compare_versions v w) [ gt ↦ true | _ ↦ false ]

-- `selected == nil || version.Compare(selectedVersion) > 0`
abbrev pub improves : Version → Selected → Bool
improves v none = true
improves v (some (_, w)) = is_above v w

-- One round of the loop on a release for the target.
unfoldable pub consider : Version → Release → Version → Selected → Selected
consider current r v selected =
    if is_above v current && improves v selected then some (r, v) else selected

unfoldable pub select_from :
    Target → Version → Selected → List Release → Result SelectError Selected
select_from target current selected [] = ok selected
select_from target current selected (r ∷ rs) = elim (matches target r) [
  | false ↦ select_from target current selected rs
  | true ↦ elim (parse_version r.version) [
    | none ↦ err (bad_candidate r.version)
    | some v ↦ select_from target current (consider current r v selected) rs
  ]
]

abbrev pub selected_release : Selected → Option Release
selected_release none = none
selected_release (some (r, _)) = some r

unfoldable pub select : List Release → Text → Target → Result SelectError (Option Release)
select releases current target =
    or_error (parse_version current) (bad_current current)
    >>= (λ v. select_from target v none releases >>= (λ s. ok (selected_release s)))
