-- ===== src/Updatefeed/Version/Identifiers.antt =====
-- The order of two prerelease identifiers.
use Prim.Native.Nat.{Ordering, lt, eq, gt}
use wow_markets.Base.{
  ℕ, ◌+◌, ◌-◌, ◌*◌, ◌^◌, ◌<◌, ◌≡◌, ◌≢◌, refl, sym, ap, ◌∙◌, true, false, not, [], ◌∷◌, some, ◌==◌,
  arith, Bool-cases, inl, inr,
}
use wow_markets.Base.Numbers.{decimal, digits_value, saturated, parse_uint}
use wow_markets.Base.Strings.{Text, str_lt}
use wow_markets.Updatefeed.Version.{leading_zero, all_digits, numeric, order_identifiers}
use wow_markets.Updatefeed.Version.Decimal.{decimal-injective}

-- A numeric identifier has no leading zero, and its number fits a uint64.
pub record Canonical (s : Text) : Type 0 where
  pub no_zero : numeric s ≡ true → leading_zero s ≡ false
  pub fits : (n : ℕ) → decimal s ≡ some n → n < 2 ^ 64

abbrev pub flip : Ordering → Ordering
flip lt = gt
flip eq = eq
flip gt = lt

str_lt_total : (s t : Text) → s ≢ t → str_lt s t ≡ not (str_lt t s)
unfolding str_lt
str_lt_total [] [] n = absurd (n refl)
str_lt_total [] (y ∷ t) n = refl
str_lt_total (x ∷ s) [] n = refl
str_lt_total (x ∷ s) (y ∷ t) n = elim (Bool-cases (x == y)) [
  | inl same ↦
      let e : x ≡ y = ground arith in
      ground (arith, str_lt_total s t (λ (k : s ≡ t). n (cc (e, k))))
  | inr differ ↦ ground arith
]

digits_value_total :
    (n : ℕ) (s : Text) → all_digits s ≡ true → (x : ℕ) × (digits_value n s ≡ some x)
unfolding all_digits digits_value
digits_value_total n [] h = (n, refl)
digits_value_total n (c ∷ s) h =
    let (x, e) = digits_value_total (n * 10 + (c - b'0')) s (ground arith) in (x, ground (arith, e))

numeric-decimal : (s : Text) → numeric s ≡ true → (x : ℕ) × (decimal s ≡ some x)
unfolding numeric decimal
numeric-decimal [] h = cc
numeric-decimal (c ∷ s) h = digits_value_total 0 (c ∷ s) (ground arith)

-- A number that fits is read as it is.
parse_uint_fits : (s : Text) (x : ℕ) → decimal s ≡ some x → x < 2 ^ 64 → (parse_uint s).0 ≡ x
unfolding parse_uint saturated
parse_uint_fits s x e h = rw e (ground arith)

-- Numeric identifiers that differ have numbers that differ.
numbers_differ :
    (s t : Text)
    → Canonical s
    → Canonical t
    → numeric s ≡ true
    → numeric t ≡ true
    → s ≢ t
    → (parse_uint s).0 ≢ (parse_uint t).0
numbers_differ s t cs ct ns nt n same =
    let (x, ex) = numeric-decimal s ns in
    let (y, ey) = numeric-decimal t nt in
    let equal : x ≡ y =
      sym (parse_uint_fits s x ex (cs.fits x ex)) ∙ same ∙ parse_uint_fits t y ey (ct.fits y ey) in
    n (decimal-injective s t x (cs.no_zero ns) (ct.no_zero nt) ex (ey ∙ ap some (sym equal)))

abbrev pub Strict : Ordering → Type 0
Strict o = o ≢ eq

pub order_identifiers-flip :
    (s t : Text)
    → Canonical s
    → Canonical t
    → s ≢ t
    → order_identifiers t s ≡ flip (order_identifiers s t)
unfolding order_identifiers
order_identifiers-flip s t cs ct n = elim (Bool-cases (numeric s)) [
  | inl ns ↦ elim (Bool-cases (numeric t)) [
    | inl nt ↦ rw (ns, nt) (ground (arith, numbers_differ s t cs ct ns nt n))
    | inr nt ↦ rw (ns, nt)
  ]
  | inr ns ↦ elim (Bool-cases (numeric t)) [
    | inl nt ↦ rw (ns, nt)
    | inr nt ↦ rw (ns, nt) (ground (arith, str_lt_total s t n))
  ]
]

str_lt_trans : (s t r : Text) → str_lt s t ≡ true → str_lt t r ≡ true → str_lt s r ≡ true
unfolding str_lt
str_lt_trans (x ∷ s) (y ∷ t) (z ∷ r) h k = ground (arith, str_lt_trans s t r)
str_lt_trans _ _ _ h k = ground arith

str_lt_irrefl : (s : Text) → str_lt s s ≡ false
unfolding str_lt
str_lt_irrefl [] = refl
str_lt_irrefl (x ∷ s) = ground (arith, str_lt_irrefl s)

pub order_identifiers_trans :
    (s t r : Text)
    → order_identifiers s t ≡ lt
    → order_identifiers t r ≡ lt
    → order_identifiers s r ≡ lt
unfolding order_identifiers
order_identifiers_trans s t r h k = ground (arith, str_lt_trans s t r)

pub order_identifiers_irrefl : (s : Text) → order_identifiers s s ≢ lt
unfolding order_identifiers
order_identifiers_irrefl s h = ground (arith, str_lt_irrefl s)

pub order_identifiers-ne-eq : (s t : Text) → order_identifiers s t ≢ eq
unfolding order_identifiers
order_identifiers-ne-eq s t h = ground arith
