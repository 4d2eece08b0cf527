-- ===== src/Updatefeed/Version/Decimal.antt =====
-- Decimal texts without leading zeros are told apart by their values.
use wow_markets.Base.{
  ℕ, ◌+◌, ◌-◌, ◌*◌, ◌≤◌, ◌<◌, ◌≡◌, ◌≢◌, refl, true, false, [], ◌∷◌, some, length, arith,
}
use native.Mathlib.Decide.{dec_lt}
use wow_markets.Base.Numbers.{is_ascii_digit, digits_value, decimal}
use wow_markets.Base.Strings.{Text}
use wow_markets.Updatefeed.Version.{leading_zero}

digits_value-cons :
    (n x c : ℕ) (cs : Text)
    → digits_value n (c ∷ cs) ≡ some x
    → (is_ascii_digit c ≡ true) × (digits_value (n * 10 + (c - b'0')) cs ≡ some x)
unfolding digits_value
digits_value-cons n x c cs h = (ground arith, ground arith)

-- Texts of one length with one value are one text, and were read from one number.
digits_value_same_length :
    (m n x : ℕ) (cs ds : Text)
    → length cs ≡ length ds
    → digits_value m cs ≡ some x
    → digits_value n ds ≡ some x
    → (m ≡ n) × (cs ≡ ds)
digits_value_same_length m n x [] [] l h k = (unfold digits_value in cc, refl)
digits_value_same_length m n x [] (d ∷ ds) l h k = absurd (omega arith)
digits_value_same_length m n x (c ∷ cs) [] l h k = absurd (omega arith)
digits_value_same_length m n x (c ∷ cs) (d ∷ ds) l h k =
    let (dc, h') = digits_value-cons m x c cs h in
    let (dd, k') = digits_value-cons n x d ds k in
    let (e, same) =
      digits_value_same_length (m * 10 + (c - b'0')) (n * 10 + (d - b'0')) x cs ds (omega arith) h'
        k' in
    (ground arith, ground arith)

-- One digit and what follows is less than a longer text's value.
digits_value_longer :
    (m n x : ℕ) (cs ds : Text)
    → length cs < length ds
    → m ≤ 9
    → 1 ≤ n
    → digits_value m cs ≡ some x
    → digits_value n ds ≢ some x
digits_value_longer m n x cs [] l a b h k = absurd (omega arith)
digits_value_longer m n x cs (d ∷ ds) l a b h k =
    let (dd, k') = digits_value-cons n x d ds k in
    elim (dec_lt (length cs) (length ds)) [
      | yes longer ↦ digits_value_longer m (n * 10 + (d - b'0')) x cs ds longer a (omega arith) h k'
      | no same ↦
          let (e, _) =
            digits_value_same_length m (n * 10 + (d - b'0')) x cs ds (omega arith) h k' in
          absurd (omega arith)
    ]

-- No digit has the value of a text with a first digit that is not 0 and another behind it.
first_digit :
    (c d x : ℕ) (cs ds : Text)
    → length cs < length ds
    → leading_zero (d ∷ ds) ≡ false
    → decimal (c ∷ cs) ≡ some x
    → decimal (d ∷ ds) ≢ some x
unfolding decimal
first_digit c d x cs [] l z h k = absurd (omega arith)
first_digit c d x cs (e ∷ ds) l z h k =
    let (dc, h') = digits_value-cons 0 x c cs h in
    let (dd, k') = digits_value-cons 0 x d (e ∷ ds) k in
    digits_value_longer (0 * 10 + (c - b'0')) (0 * 10 + (d - b'0')) x cs (e ∷ ds) l (ground arith)
      (ground arith) h' k'

pub decimal-injective :
    (s t : Text) (x : ℕ)
    → leading_zero s ≡ false
    → leading_zero t ≡ false
    → decimal s ≡ some x
    → decimal t ≡ some x
    → s ≡ t
decimal-injective [] t x zs zt h k = absurd (unfold decimal in cc)
decimal-injective (c ∷ cs) [] x zs zt h k = absurd (unfold decimal in cc)
decimal-injective (c ∷ cs) (d ∷ ds) x zs zt h k = elim (dec_lt (length cs) (length ds)) [
  | yes shorter ↦ absurd (first_digit c d x cs ds shorter zt h k)
  | no n ↦ elim (dec_lt (length ds) (length cs)) [
    | yes longer ↦ absurd (first_digit d c x ds cs longer zs k h)
    | no m ↦
        (digits_value_same_length 0 0 x (c ∷ cs) (d ∷ ds) (omega arith) (unfold decimal in h)
          (unfold decimal in k)).1
  ]
]
