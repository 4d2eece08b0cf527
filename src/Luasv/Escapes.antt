-- ===== src/Luasv/Escapes.antt =====
-- `scanString` of `lexer.go`.
pub mod Passes
pub mod Spelled
use wow_markets.Base.{
  ℕ, zero, suc, ◌^◌, Bool, true, false, ◌||◌, Option, none, some, List, [], ◌∷◌, ◌++◌, ◌==◌, ltb,
  if◌then◌else◌, length, Result, ok, err, ◌>>=◌,
}
use wow_markets.Base.Int.{ℤ, pos, negsuc}
use wow_markets.Base.Numbers.{parse_int}
use wow_markets.Base.Strings.{Text}
use wow_markets.Luasv.Token.{
  Unicode, StringError, unterminated_escape, unterminated_string, string_fuel, unsupported_escape,
  invalid_decimal_escape,
}
use wow_markets.Luasv.Cursor.{Lexer, over}

-- The escapes of one letter.
unfoldable pub escape_rune : ℕ → Option ℕ
escape_rune e =
    if e == b'a'
    then some 7
    else if e == b'b'
    then some 8
    else if e == b'f'
    then some 12
    else if e == b'n'
    then some 10
    else if e == b'r'
    then some 13
    else if e == b't'
    then some 9
    else if e == b'v'
    then some 11
    else if e == b'\\' || (e == b'"' || e == b'\'')
    then some e
    else none

abbrev pub StringScan : Type 0
StringScan = Result StringError (Text × Lexer)

-- The rune of a decimal escape, `rune(value)`; a negative one is written as U+FFFD.
unfoldable pub decimal_escape : Text → Option ℤ → Result StringError ℕ
decimal_escape digits none = err (invalid_decimal_escape digits)
decimal_escape digits (some (pos n)) =
    if ltb 255 n then err (invalid_decimal_escape digits) else ok n
decimal_escape digits (some (negsuc n)) = ok 0xfffd

module _ (u : Unicode) where
  -- Up to `room` more digits of a decimal escape.
  unfoldable pub more_digits : ℕ → Text → Lexer → Text × Lexer
  more_digits zero cs l = ([], l)
  more_digits (suc room) [] l = ([], l)
  more_digits (suc room) (c ∷ cs) l =
      let (text, l') = more_digits room cs (over c cs l) in
      if u.is_digit c then (c ∷ text, l') else ([], l)

  -- The switch on the rune behind a backslash.
  unfoldable pub scan_escape : (Text → Lexer → StringScan) → Text → Text → Lexer → StringScan
  scan_escape again output [] l = err unterminated_escape
  scan_escape again output (e ∷ cs) l =
      let l' = over e cs l in
      let (more, l'') = more_digits 2 cs l' in
      let digits = e ∷ more in
      let value = decimal_escape digits (parse_int (2 ^ 31) digits) in
      elim (escape_rune e) [
        | some r ↦ again (output ++ r ∷ []) l'
        | none ↦
            if u.is_digit e
            then value >>= (λ r. again (output ++ r ∷ []) l'')
            else err (unsupported_escape e)
      ]

  -- One round of `scanString`'s loop.
  unfoldable pub scan_round : ℕ → (Text → Lexer → StringScan) → Text → Text → Lexer → StringScan
  scan_round quote again output [] l = err unterminated_string
  scan_round quote again output (c ∷ cs) l =
      let l' = over c cs l in
      let plain = again (output ++ c ∷ []) l' in
      let escaped = scan_escape again output cs l' in
      if c == quote then ok (output, l') else if c == b'\\' then escaped else plain

  unfoldable pub scan_rounds : ℕ → ℕ → Text → Lexer → StringScan
  scan_rounds zero quote output l = err string_fuel
  scan_rounds (suc fuel) quote output l = scan_round quote (scan_rounds fuel quote) output l.rest l

  -- `scanString` behind its opening quote.
  unfoldable pub scan_string : ℕ → Lexer → StringScan
  scan_string quote l = scan_rounds (suc (length l.rest)) quote [] l
