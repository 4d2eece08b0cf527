-- ===== src/Updatefeed/Version.antt =====
-- `version.go`. The ints -1, 0 and 1 of `Compare` are `lt`, `eq` and `gt`.
mod Decimal
pub mod Identifiers
pub mod Order
pub mod Parsed
use Prim.Native.Nat.{Ordering, compare, lt, eq, gt}
use wow_markets.Base.{
  ℕ, Bool, true, false, not, ◌&&◌, ◌||◌, List, [], ◌∷◌, Option, none, some, ◌==◌, leb, ltb,
  if◌then◌else◌, str_eq, is_empty,
}
use wow_markets.Base.Numbers.{is_ascii_digit, parse_uint}
use wow_markets.Base.Strings.{Text, str_lt, trim_space, cut, split}

pub record Version : Type 0 where
  pub major : ℕ
  pub minor : ℕ
  pub patch : ℕ
  pub prerelease : List Text

abbrev pub valid_character : ℕ → Bool
valid_character c =
    (leb b'a' c && leb c b'z') || (leb b'A' c && leb c b'Z') || is_ascii_digit c || c == b'-'

unfoldable pub valid_identifier : Text → Bool
valid_identifier [] = true
valid_identifier (c ∷ cs) = valid_character c && valid_identifier cs

unfoldable pub all_digits : Text → Bool
all_digits [] = true
all_digits (c ∷ cs) = is_ascii_digit c && all_digits cs

unfoldable pub numeric : Text → Bool
unfolding all_digits
numeric value = all_digits value && not (is_empty value)

-- `len(s) > 1 && s[0] == '0'`
abbrev pub leading_zero : Text → Bool
leading_zero [] = false
leading_zero (c ∷ []) = false
leading_zero (c ∷ _ ∷ _) = c == b'0'

abbrev pub parsed : ℕ × Bool → Option ℕ
parsed (n, true) = some n
parsed (n, false) = none

unfoldable pub parse_part : Text → Option ℕ
parse_part part = if is_empty part || leading_zero part then none else parsed (parse_uint part)

-- The loop over the three parts of the core.
unfoldable pub parse_core : List Text → Option (ℕ × ℕ × ℕ)
parse_core (a ∷ b ∷ c ∷ []) = elim (parse_part a) [
  | none ↦ none
  | some x ↦ elim (parse_part b) [
    | none ↦ none
    | some y ↦ elim (parse_part c) [ none ↦ none | some z ↦ some (x, y, z) ]
  ]
]
parse_core _ = none

unfoldable pub good_identifier : Text → Bool
good_identifier identifier =
    not (is_empty identifier)
    && valid_identifier identifier
    && not (numeric identifier && leading_zero identifier)

unfoldable pub all_good : List Text → Bool
all_good [] = true
all_good (i ∷ is) = good_identifier i && all_good is

unfoldable pub with_prerelease : ℕ × ℕ × ℕ → Text × Text × Bool → Option Version
with_prerelease (x, y, z) (_, prerelease, false) =
    some (record { major = x; minor = y; patch = z; prerelease = [] })
with_prerelease (x, y, z) (_, prerelease, true) =
    if is_empty prerelease
    then none
    else if all_good (split b'.' prerelease)
    then some (record { major = x; minor = y; patch = z; prerelease = split b'.' prerelease })
    else none

-- `ParseVersion`; `none` is its error, which names the value.
unfoldable pub parse_version : Text → Option Version
parse_version value =
    let without_build = (cut b'+' (trim_space value)).0 in
    let pieces = cut b'-' without_build in
    elim (parse_core (split b'.' pieces.0)) [
      | none ↦ none
      | some numbers ↦ with_prerelease numbers pieces
    ]

-- Two identifiers that differ.
unfoldable pub order_identifiers : Text → Text → Ordering
order_identifiers left right =
    if numeric left && numeric right
    then (if ltb (parse_uint left).0 (parse_uint right).0 then lt else gt)
    else if numeric left
    then lt
    else if numeric right
    then gt
    else if str_lt left right
    then lt
    else gt

-- The loop over the identifiers that both have, and the test of the lengths behind it.
unfoldable pub compare_identifiers : List Text → List Text → Ordering
compare_identifiers [] [] = eq
compare_identifiers [] (_ ∷ _) = lt
compare_identifiers (_ ∷ _) [] = gt
compare_identifiers (left ∷ ls) (right ∷ rs) =
    let rest = compare_identifiers ls rs in
    if str_eq left right then rest else order_identifiers left right

-- No prerelease is above any.
unfoldable pub compare_prerelease : List Text → List Text → Ordering
compare_prerelease [] [] = eq
compare_prerelease [] (_ ∷ _) = gt
compare_prerelease (_ ∷ _) [] = lt
compare_prerelease (l ∷ ls) (r ∷ rs) = compare_identifiers (l ∷ ls) (r ∷ rs)

-- One pair of numbers, and what follows if they are equal.
abbrev pub compare_then : ℕ → ℕ → Ordering → Ordering
compare_then a b next = if ltb a b then lt else if ltb b a then gt else next

unfoldable pub compare_versions : Version → Version → Ordering
compare_versions v w = compare_then v.major w.major (
    compare_then v.minor w.minor
      (compare_then v.patch w.patch (compare_prerelease v.prerelease w.prerelease)))
