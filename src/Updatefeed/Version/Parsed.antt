-- ===== src/Updatefeed/Version/Parsed.antt =====
-- What `ParseVersion` accepts, and where `Compare` is no order.
use Prim.Native.Nat.{gt}
use wow_markets.Base.{
  ℕ, ◌-◌, ◌^◌, ◌≤◌, ◌<◌, ◌≡◌, ◌≢◌, refl, subst, Bool, true, false, List, [], ◌∷◌, Option, none,
  some, All, arith, Bool-cases, inl, inr, str_eq_iff, is_empty,
}
use mathlib.Core.Option.{some-injective}
use wow_markets.Base.Numbers.{decimal, saturated, parse_uint}
use wow_markets.Base.Strings.{Text, trim_space, cut, split}
use wow_markets.Updatefeed.Version.{
  Version, leading_zero, numeric, valid_identifier, good_identifier, all_good, parse_part,
  parse_core, with_prerelease, parse_version, order_identifiers, compare_identifiers,
  compare_prerelease, compare_versions,
}

-- An identifier of the letters, digits and hyphens, not empty, and with no leading zero if it is a
-- number.
pub record GoodIdentifier (s : Text) : Type 0 where
  pub some_text : s ≢ []
  pub characters : valid_identifier s ≡ true
  pub no_zero : numeric s ≡ true → leading_zero s ≡ false

pub record GoodVersion (v : Version) : Type 0 where
  pub major : v.major < 2 ^ 64
  pub minor : v.minor < 2 ^ 64
  pub patch : v.patch < 2 ^ 64
  pub prerelease : All GoodIdentifier v.prerelease

parse_part-lt : (s : Text) (n : ℕ) → parse_part s ≡ some n → n < 2 ^ 64
unfolding parse_part parse_uint saturated
parse_part-lt s n h = ground arith

parse_core-lt :
    (parts : List Text) (x y z : ℕ)
    → parse_core parts ≡ some (x, y, z)
    → (x < 2 ^ 64) × (y < 2 ^ 64) × (z < 2 ^ 64)
unfolding parse_core
parse_core-lt (a ∷ b ∷ c ∷ []) x y z h =
    ground (arith, parse_part-lt a x, parse_part-lt b y, parse_part-lt c z)
parse_core-lt _ x y z h = ground arith

not_empty : (s : Text) → is_empty s ≡ false → s ≢ []
not_empty [] h e = cc
not_empty (c ∷ s) h e = cc

good_identifier-GoodIdentifier : (s : Text) → good_identifier s ≡ true → GoodIdentifier s
unfolding good_identifier
good_identifier-GoodIdentifier s h = record {
  some_text = not_empty s (ground arith);
  characters = ground arith;
  no_zero = λ n. ground arith;
}

all_good-All : (is : List Text) → all_good is ≡ true → All GoodIdentifier is
unfolding all_good
all_good-All [] h = tt
all_good-All (i ∷ is) h =
    (good_identifier-GoodIdentifier i (ground arith), all_good-All is (ground arith))

with_prerelease-GoodVersion :
    (x y z : ℕ) (pieces : Text × Text × Bool) (v : Version)
    → (x < 2 ^ 64) × (y < 2 ^ 64) × (z < 2 ^ 64)
    → with_prerelease (x, y, z) pieces ≡ some v
    → GoodVersion v
unfolding with_prerelease
with_prerelease-GoodVersion x y z (core, pre, false) v h e =
    subst GoodVersion (some-injective _ _ e)
      (record { major = h.0; minor = h.1; patch = h.2; prerelease = tt })
with_prerelease-GoodVersion x y z (core, pre, true) v h e = elim (Bool-cases (is_empty pre)) [
  | inl none_of ↦ cc (rw (none_of, with_prerelease) at e)
  | inr some_of ↦ elim (Bool-cases (all_good (split b'.' pre))) [
    | inl good ↦
        subst GoodVersion (some-injective _ _ (rw (some_of, good, with_prerelease) at e)) (record {
          major = h.0;
          minor = h.1;
          patch = h.2;
          prerelease = all_good-All (split b'.' pre) good;
        })
    | inr bad ↦ cc (rw (some_of, bad, with_prerelease) at e)
  ]
]

-- Every version that `ParseVersion` returns has three numbers that fit a uint64 and identifiers of
-- the allowed characters, none of them empty or a number with a leading zero.
pub parse_version-GoodVersion : (s : Text) (v : Version) → parse_version s ≡ some v → GoodVersion v
unfolding parse_version
parse_version-GoodVersion s v h =
    go (parse_core (split b'.' (cut b'-' (cut b'+' (trim_space s)).0).0)) refl
  where
    go :
        (core : Option (ℕ × ℕ × ℕ))
        → parse_core (split b'.' (cut b'-' (cut b'+' (trim_space s)).0).0) ≡ core
        → GoodVersion v
    go none e = cc (rw (e, parse_version) at h)
    go (some (x, y, z)) e =
        with_prerelease-GoodVersion x y z (cut b'-' (cut b'+' (trim_space s)).0) v
          (parse_core-lt _ x y z e) (rw (e, parse_version) at h)

oversized : (s : Text) (x : ℕ) → decimal s ≡ some x → 2 ^ 64 ≤ x → (parse_uint s).0 ≡ 2 ^ 64 - 1
unfolding parse_uint saturated
oversized s x e h = rw e (ground arith)

-- Two versions with the same core and one prerelease number each, that differ as texts and do not
-- fit a uint64, are each above the other.
pub compare_versions_oversized :
    (v w : Version) (s t : Text) (x y : ℕ)
    → s ≢ t
    → numeric s ≡ true
    → numeric t ≡ true
    → decimal s ≡ some x
    → decimal t ≡ some y
    → 2 ^ 64 ≤ x
    → 2 ^ 64 ≤ y
    → v ≡ record w { prerelease = s ∷ [] }
    → w.prerelease ≡ t ∷ []
    → (compare_versions v w ≡ gt) × (compare_versions w v ≡ gt)
unfolding compare_versions compare_prerelease compare_identifiers order_identifiers
compare_versions_oversized v w s t x y n ns nt dx dy ox oy ev ew =
    ground (arith, str_eq_iff s t, str_eq_iff t s, oversized s x dx ox, oversized t y dy oy, n)
