-- ===== src/Base/Strings.antt =====
-- A Go string as the list of its runes, and what the program uses of `==`, `<` and `strings`.
use Prim.Native.Char.{code}
use Prim.Native.Nat.{ℕ, ◌+◌}
use Prim.Native.String.{String}
use mathlib.Core.Path.{◌≡◌, refl}
use mathlib.Core.Logic.{◌↔◌}
use mathlib.Core.Bool.{Bool, true, false, ◌&&◌, ◌||◌}
use mathlib.Core.List.{List, [], ◌∷◌, ◌++◌, reverse}
use native.Mathlib.Omega.{arith}
use wow_markets.Base.Lists.{drop, length}
use wow_markets.Base.Tests.{ltb, leb, ◌==◌, if◌then◌else◌}

abbrev pub Text : Type 0
Text = List ℕ

-- The runes of a literal.
abbrev pub codes : String → Text
codes String.[] = []
codes (String.◌∷◌ c s) = code c ∷ codes s

-- `s == t`
unfoldable pub str_eq : Text → Text → Bool
str_eq [] [] = true
str_eq (x ∷ xs) (y ∷ ys) = x == y && str_eq xs ys
str_eq _ _ = false

pub str_eq_iff : (s t : Text) → (str_eq s t ≡ true) ↔ (s ≡ t)
unfolding str_eq
str_eq_iff (x ∷ s) (y ∷ t) = ground (arith, str_eq_iff s t)
str_eq_iff _ _ = ground arith

-- `s == ""`
abbrev pub is_empty : Text → Bool
is_empty [] = true
is_empty (_ ∷ _) = false

-- `s < t`: the order of the UTF-8 bytes is the order of the runes.
unfoldable pub str_lt : Text → Text → Bool
str_lt [] [] = false
str_lt [] (y ∷ ys) = true
str_lt (x ∷ xs) [] = false
str_lt (x ∷ xs) (y ∷ ys) = ltb x y || (x == y && str_lt xs ys)

-- `unicode.IsSpace`
unfoldable pub is_space : ℕ → Bool
is_space c =
    (leb 9 c && leb c 13)
    || c == 0x20
    || c == 0x85
    || c == 0xa0
    || c == 0x1680
    || (leb 0x2000 c && leb c 0x200a)
    || c == 0x2028
    || c == 0x2029
    || c == 0x202f
    || c == 0x205f
    || c == 0x3000

unfoldable pub trim_left : Text → Text
unfolding is_space
trim_left [] = []
trim_left (c ∷ cs) = if is_space c then trim_left cs else c ∷ cs

-- `strings.TrimSpace`
unfoldable pub trim_space : Text → Text
unfolding trim_left
trim_space s = reverse (trim_left (reverse (trim_left s)))

-- `strings.Cut` with a separator of one rune: before, after, found.
unfoldable pub cut : ℕ → Text → Text × Text × Bool
cut sep [] = ([], [], false)
cut sep (c ∷ cs) =
    let (before, after, found) = cut sep cs in
    if c == sep then ([], cs, true) else (c ∷ before, after, found)

-- `strings.Split` with a separator of one rune.
unfoldable pub split_onto : ℕ → Text → Text → List Text
split_onto sep part [] = part ∷ []
split_onto sep part (c ∷ cs) = elim (c == sep) [
  | true ↦ part ∷ split_onto sep [] cs
  | false ↦ split_onto sep (part ++ c ∷ []) cs
]

abbrev pub split : ℕ → Text → List Text
split sep = split_onto sep []

-- `strings.HasPrefix`
unfoldable pub has_prefix : Text → Text → Bool
has_prefix s [] = true
has_prefix [] (_ ∷ _) = false
has_prefix (x ∷ xs) (y ∷ ys) = x == y && has_prefix xs ys

pub prefix-drop : (p s : Text) → has_prefix s p ≡ true → s ≡ p ++ drop (length p) s
unfolding has_prefix
prefix-drop [] s h = refl
prefix-drop (c ∷ p) [] h = cc
prefix-drop (c ∷ p) (d ∷ s) h = ground (arith, prefix-drop p s)

has_prefix_refl : (s : Text) → has_prefix s s ≡ true
unfolding has_prefix
has_prefix_refl [] = refl
has_prefix_refl (c ∷ s) = ground (arith, has_prefix_refl s)

pub has_prefix-append : (s p t : Text) → has_prefix s p ≡ true → has_prefix (s ++ t) p ≡ true
unfolding has_prefix
has_prefix-append [] [] [] h = refl
has_prefix-append [] [] (d ∷ t) h = refl
has_prefix-append [] (c ∷ p) t h = cc
has_prefix-append (d ∷ s) [] t h = refl
has_prefix-append (d ∷ s) (c ∷ p) t h = ground (arith, has_prefix-append s p t)

-- What has the prefix, and what is behind it.
pub append-has_prefix : (p rest : Text) → has_prefix (p ++ rest) p ≡ true
append-has_prefix p rest = has_prefix-append p p rest (has_prefix_refl p)

-- `strings.ToLower` of the ASCII letters. The only other runes with an ASCII letter below them
-- are a dotted capital i and the sign of the kelvin.
unfoldable pub to_lower : Text → Text
to_lower [] = []
to_lower (c ∷ cs) =
    (if leb b'A' c && leb c b'Z'
      then c + 32
      else if c == 0x130
      then b'i'
      else if c == 0x212a
      then b'k'
      else c)
    ∷ to_lower cs

unfoldable pub drop_slashes : Text → Text
drop_slashes [] = []
drop_slashes (c ∷ cs) = if c == b'/' then drop_slashes cs else c ∷ cs

-- `strings.TrimRight(s, "/")`
abbrev pub trim_slashes : Text → Text
trim_slashes s = reverse (drop_slashes (reverse s))
