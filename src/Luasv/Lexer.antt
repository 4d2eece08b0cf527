-- ===== src/Luasv/Lexer.antt =====
-- `next` of `lexer.go`, with the scans of identifiers and numbers.
pub mod Passes
pub mod Spelled
use wow_markets.Base.{
  ℕ, Bool, ◌||◌, Option, none, some, [], ◌∷◌, ◌==◌, if◌then◌else◌, Result, ok, err, str_eq, codes,
}
use wow_markets.Base.Numbers.{is_float}
use wow_markets.Base.Strings.{Text}
use wow_markets.Luasv.Token.{
  Kind, Token, Unicode, Error, bad_string, invalid_number, unsupported_character, eof, identifier,
  number, string, true_word, false_word, nil_word, left_brace, right_brace, left_bracket,
  right_bracket, equal, comma, semicolon,
}
use wow_markets.Luasv.Cursor.{Lexer, over, take_while, skip_ignored}
use wow_markets.Luasv.Escapes.{StringScan, scan_string}

unfoldable pub punctuation : ℕ → Option Kind
punctuation c =
    if c == b'{'
    then some left_brace
    else if c == b'}'
    then some right_brace
    else if c == b'['
    then some left_bracket
    else if c == b']'
    then some right_bracket
    else if c == b'='
    then some equal
    else if c == b','
    then some comma
    else if c == b';'
    then some semicolon
    else none

unfoldable pub word_kind : Text → Kind
word_kind text =
    if str_eq text (codes "true")
    then true_word
    else if str_eq text (codes "false")
    then false_word
    else if str_eq text (codes "nil")
    then nil_word
    else identifier

abbrev pub token_at : Lexer → Kind → Text → Token
token_at l kind text = record { kind = kind; text = text; line = l.line; column = l.column }

abbrev pub string_token : Lexer → StringScan → Result Error (Token × Lexer)
string_token l (ok (value, l')) = ok (token_at l string value, l')
string_token l (err e) = err (bad_string l.line l.column e)

abbrev pub word_token : Lexer → Text × Lexer → Result Error (Token × Lexer)
word_token l (text, l') = ok (token_at l (word_kind text) text, l')

abbrev pub number_token : Lexer → Text × Lexer → Result Error (Token × Lexer)
number_token l (text, l') =
    if is_float text
    then ok (token_at l number text, l')
    else err (invalid_number l.line l.column text)

module _ (u : Unicode) where
  abbrev pub is_identifier_start : ℕ → Bool
  is_identifier_start c = c == b'_' || u.is_letter c

  abbrev pub is_identifier_part : ℕ → Bool
  is_identifier_part c = is_identifier_start c || u.is_digit c

  abbrev pub is_number_part : ℕ → Bool
  is_number_part c = u.is_digit c || c == b'.' || c == b'e' || c == b'E' || c == b'+' || c == b'-'

  abbrev pub scan_identifier : Text → Lexer → Text × Lexer
  scan_identifier = take_while is_identifier_part

  -- At a lexer whose rest is `c ∷ cs`.
  abbrev pub scan_number : ℕ → Text → Lexer → Text × Lexer
  scan_number c cs l =
      let (text, l') = take_while is_number_part cs (over c cs l) in
      if c == b'-' then (c ∷ text, l') else take_while is_number_part (c ∷ cs) l

  -- `next` behind `skipIgnored`.
  unfoldable pub next_at : Text → Lexer → Result Error (Token × Lexer)
  next_at [] l = ok (token_at l eof [], l)
  next_at (c ∷ cs) l =
      let quoted = string_token l (scan_string u c (over c cs l)) in
      let word = word_token l (scan_identifier (c ∷ cs) l) in
      let digits = number_token l (scan_number c cs l) in
      elim (punctuation c) [
        | some kind ↦ ok (token_at l kind (c ∷ []), over c cs l)
        | none ↦
            if c == b'"' || c == b'\''
            then quoted
            else if is_identifier_start c
            then word
            else if c == b'-' || u.is_digit c
            then digits
            else err (unsupported_character l.line l.column c)
      ]

  unfoldable pub next : Lexer → Result Error (Token × Lexer)
  next l = let l' = skip_ignored l in next_at l'.rest l'
