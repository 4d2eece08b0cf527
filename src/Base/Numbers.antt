-- ===== src/Base/Numbers.antt =====
-- `strconv`: `ParseUint`, `ParseInt` and `Atoi` in base 10, and the texts that `ParseFloat` takes.
use Prim.Native.Nat.{ℕ, zero, suc, ◌+◌, ◌-◌, ◌*◌, ◌^◌}
use mathlib.Core.Bool.{Bool, true, false, ◌&&◌, ◌||◌}
use mathlib.Core.List.{[], ◌∷◌}
use mathlib.Core.Option.{Option, none, some}
use wow_markets.Base.Int.{ℤ, pos, negsuc}
use wow_markets.Base.Strings.{Text}
use wow_markets.Base.Tests.{ltb, leb, ◌==◌, if◌then◌else◌}

-- '0' to '9'
abbrev pub is_ascii_digit : ℕ → Bool
is_ascii_digit c = leb b'0' c && leb c b'9'

unfoldable pub digits_value : ℕ → Text → Option ℕ
digits_value n [] = some n
digits_value n (c ∷ cs) =
    let rest = digits_value (n * 10 + (c - b'0')) cs in if is_ascii_digit c then rest else none

-- The value of a text of decimal digits, of any size.
unfoldable pub decimal : Text → Option ℕ
unfolding digits_value
decimal [] = none
decimal (c ∷ cs) = digits_value 0 (c ∷ cs)

-- What `ParseUint` returns: a number, and whether the error is nil.
unfoldable pub saturated : ℕ → Option ℕ → ℕ × Bool
saturated limit none = (0, false)
saturated limit (some n) = if ltb n limit then (n, true) else (limit - 1, false)

-- `strconv.ParseUint(s, 10, 64)`: 0 on a syntax error, the largest value on a range error.
unfoldable pub parse_uint : Text → ℕ × Bool
parse_uint s = saturated (2 ^ 64) (decimal s)

abbrev positive : ℕ → Option ℕ → Option ℤ
positive limit none = none
positive limit (some n) = if ltb n limit then some (pos n) else none

abbrev negative : ℕ → Option ℕ → Option ℤ
negative limit none = none
negative limit (some zero) = some (pos 0)
negative limit (some (suc n)) = if ltb n limit then some (negsuc n) else none

-- `strconv.ParseInt(s, 10, bits)` with `limit` = 2 ^ (bits - 1); `none` is a non-nil error.
unfoldable pub parse_int : ℕ → Text → Option ℤ
unfolding decimal
parse_int limit [] = none
parse_int limit (c ∷ cs) =
    if c == b'+'
    then positive limit (decimal cs)
    else if c == b'-'
    then negative limit (decimal cs)
    else positive limit (decimal (c ∷ cs))

-- `strconv.ParseInt(s, 10, 64)`, and `strconv.Atoi` on a 64-bit target.
abbrev pub parse_int64 : Text → Option ℤ
parse_int64 = parse_int (2 ^ 63)

-- Digits of a mantissa: the number so far, how many digits were read, and what follows them.
float_digits : ℕ → ℕ → Text → ℕ × ℕ × Text
float_digits n count [] = (n, count, [])
float_digits n count (c ∷ cs) =
    let more = float_digits (n * 10 + (c - b'0')) (suc count) cs in
    if is_ascii_digit c then more else (n, count, c ∷ cs)

-- The digits of an exponent, which stop counting at 10000.
exponent_value : ℕ → Text → Option ℕ
exponent_value e [] = some e
exponent_value e (c ∷ cs) =
    let rest = exponent_value (if ltb e 10000 then e * 10 + (c - b'0') else e) cs in
    if is_ascii_digit c then rest else none

exponent_digits : Text → Option ℕ
exponent_digits [] = none
exponent_digits (c ∷ cs) = exponent_value 0 (c ∷ cs)

-- The least magnitude that rounds past the largest float64.
abbrev float_limit : ℕ
float_limit = 2 ^ 1024 - 2 ^ 970

-- `n * 10 ^ up / 10 ^ down` is in range.
float_fits : ℕ → ℕ → Option ℕ → Bool
float_fits n down none = false
float_fits n down (some up) = ltb (n * 10 ^ up) (float_limit * 10 ^ down)

float_fits_below : ℕ → ℕ → Option ℕ → Bool
float_fits_below n down none = false
float_fits_below n down (some more) = ltb n (float_limit * 10 ^ (down + more))

-- The exponent, if there is one, after a mantissa `n` with `down` digits behind its point.
float_exponent : ℕ → ℕ → Text → Bool
float_exponent n down [] = float_fits n down (some 0)
float_exponent n down (c ∷ []) = false
float_exponent n down (c ∷ s ∷ cs) =
    (c == b'e' || c == b'E')
    && (if s == b'-'
        then float_fits_below n down (exponent_digits cs)
        else if s == b'+'
        then float_fits n down (exponent_digits cs)
        else float_fits n down (exponent_digits (s ∷ cs)))

-- The digits behind a point; a mantissa has a digit before it or behind it.
float_fraction : ℕ → ℕ → Text → Bool
float_fraction n whole cs =
    let (m, count, rest) = float_digits n 0 cs in
    ltb 0 (whole + count) && float_exponent m count rest

float_point : ℕ → ℕ → Text → Bool
float_point n whole [] = ltb 0 whole && float_exponent n 0 []
float_point n whole (c ∷ cs) =
    if c == b'.' then float_fraction n whole cs else ltb 0 whole && float_exponent n 0 (c ∷ cs)

float_mantissa : Text → Bool
float_mantissa s = let (n, whole, rest) = float_digits 0 0 s in float_point n whole rest

-- `strconv.ParseFloat(s, 64)` has a nil error. The texts are those that `scanNumber` cuts, so the
-- hexadecimal forms, infinities and NaN do not arise.
unfoldable pub is_float : Text → Bool
unfolding float_digits exponent_value exponent_digits float_fits float_fits_below float_exponent
    float_fraction float_point float_mantissa
is_float [] = false
is_float (c ∷ cs) = if c == b'-' || c == b'+' then float_mantissa cs else float_mantissa (c ∷ cs)
