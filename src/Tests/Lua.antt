-- ===== src/Tests/Lua.antt =====
-- Runs of the SavedVariables reader.
use wow_markets.Base.{ℕ, ◌≡◌, refl, Bool, List, [], ◌∷◌, ok, err, codes}
use wow_markets.Base.Int.{pos, negsuc}
use wow_markets.Base.{str_eq}
use wow_markets.Base.Numbers.{is_ascii_digit, is_float, parse_int}
use wow_markets.Luasv.Cursor.{skip_ignored, take_while}
use wow_markets.Luasv.Escapes.{scan_string}
use wow_markets.Luasv.Lexer.{next}
use wow_markets.Luasv.Token.{Unicode, is_ascii_letter, Error}
use wow_markets.Luasv.Value.{Table, Value, integer, string, boolean, float, to_value}
use wow_markets.Luasv.Parser.{parse_variable}
use wow_markets.Luasv.Parser.Within.{Genuine}
use wow_markets.Luasv.Parser.Total.{parse_variable-IsGenuine}
use wow_markets.Luasv.Cursor.{Lexer}
use wow_markets.Luasv.Cursor.Passes.{Passes, Ignored, Settled}
use wow_markets.Luasv.Lexer.Spelled.{Reads, next-Reads}
use wow_markets.Luasv.Escapes.Spelled.{Spelled, scan_string-Spelled}
use wow_markets.Luasv.Sequence.{sequence, add_indexed, numbered, keys, insert_sorted, sort, collect}
use wow_markets.Luasv.Sequence.Correct.{SequenceOf, sequence-SequenceOf}
use wow_markets.Base.Maps.{lookup}
use wow_markets.Base.Strings.{Text}
use wow_markets.Base.Maps as Maps
use wow_markets.Base.Numbers as Numbers
use wow_markets.Base.Strings as Strings
use wow_markets.Luasv.Cursor as Cursor
use wow_markets.Luasv.Escapes as Escapes
use wow_markets.Luasv.Lexer as LuasvLexer
use wow_markets.Luasv.Parser as Parser
use wow_markets.Luasv.Sequence as Sequence
use wow_markets.Luasv.Value as LuasvValue

-- A stand-in for Go's tables that knows the ASCII letters and digits.
abbrev pub ascii : Unicode
ascii = record {
  is_letter = is_ascii_letter;
  is_digit = is_ascii_digit;
  ascii_letter = λ c h. refl;
  ascii_digit = λ c h. refl;
}

abbrev sample : List ℕ
sample =
    codes "-- head\nOTHER = 3;\nDB = {\n [\"a\\n\"] = -12, b = true, 1.5e3, {}, [7] = 'x\\065',\n}"

abbrev sample_table : Table
sample_table = record {
  fields = (codes "a\n", integer (negsuc 11)) ∷ (codes "b", boolean Bool.true) ∷ [];
  indexed = (7, string (codes "xA")) ∷ [];
  array = float (codes "1.5e3") ∷ to_value (record { fields = []; indexed = []; array = [] }) ∷ [];
}

parse_sample : parse_variable ascii sample (codes "DB") ≡ ok sample_table
unfolding Cursor.take_while Cursor.skip_round Cursor.skip_rounds Cursor.skip_ignored
    Escapes.escape_rune Escapes.decimal_escape Escapes.more_digits Escapes.scan_escape
    Escapes.scan_round Escapes.scan_rounds Escapes.scan_string LuasvLexer.punctuation
    LuasvLexer.word_kind LuasvLexer.next_at LuasvLexer.next LuasvValue.as_table LuasvValue.as_string
    LuasvValue.as_integer LuasvValue.as_boolean LuasvValue.table_field Parser.assign
    Parser.has_point Parser.bracket_key Parser.number_value Parser.advance Parser.consume
    Parser.parse_bracket_key Parser.value_with Parser.bracket_entry Parser.named_entry
    Parser.array_entry Parser.table_entry Parser.separator Parser.table_entries Parser.parse_table
    Parser.parse_value Parser.optional_semicolon Parser.assignment Parser.parse_document
    Parser.new_parser Parser.parse_variable Sequence.numbered Sequence.add_indexed Sequence.keys
    Sequence.insert_sorted Sequence.sort Sequence.collect Sequence.sequence Strings.str_eq
    Strings.str_lt Strings.is_space Strings.trim_left Strings.trim_space Strings.cut
    Strings.split_onto Strings.has_prefix Numbers.digits_value Numbers.decimal Numbers.saturated
    Numbers.parse_uint Numbers.parse_int Numbers.is_float Maps.lookup Maps.insert
parse_sample = refl

parse_missing :
    parse_variable ascii (codes "A = nil") (codes "DB") ≡ err (Error.not_found (codes "DB"))
unfolding Cursor.take_while Cursor.skip_round Cursor.skip_rounds Cursor.skip_ignored
    Escapes.escape_rune Escapes.decimal_escape Escapes.more_digits Escapes.scan_escape
    Escapes.scan_round Escapes.scan_rounds Escapes.scan_string LuasvLexer.punctuation
    LuasvLexer.word_kind LuasvLexer.next_at LuasvLexer.next LuasvValue.as_table LuasvValue.as_string
    LuasvValue.as_integer LuasvValue.as_boolean LuasvValue.table_field Parser.assign
    Parser.has_point Parser.bracket_key Parser.number_value Parser.advance Parser.consume
    Parser.parse_bracket_key Parser.value_with Parser.bracket_entry Parser.named_entry
    Parser.array_entry Parser.table_entry Parser.separator Parser.table_entries Parser.parse_table
    Parser.parse_value Parser.optional_semicolon Parser.assignment Parser.parse_document
    Parser.new_parser Parser.parse_variable Sequence.numbered Sequence.add_indexed Sequence.keys
    Sequence.insert_sorted Sequence.sort Sequence.collect Sequence.sequence Strings.str_eq
    Strings.str_lt Strings.is_space Strings.trim_left Strings.trim_space Strings.cut
    Strings.split_onto Strings.has_prefix Numbers.digits_value Numbers.decimal Numbers.saturated
    Numbers.parse_uint Numbers.parse_int Numbers.is_float Maps.lookup Maps.insert
parse_missing = refl

parse_variable-IsGenuine_example : Genuine (parse_variable ascii sample (codes "DB"))
parse_variable-IsGenuine_example = parse_variable-IsGenuine ascii sample (codes "DB")

abbrev start : Lexer
start = record { rest = codes "--[x\n  'a\065' = 1"; line = 1; column = 1 }

abbrev in_string : Lexer
in_string = record { rest = codes "a\\065' = 1"; line = 2; column = 4 }

next-Reads_example :
    ((skipped : Text) × Passes start skipped (skip_ignored start)
      × Ignored (skip_ignored start).rest skipped)
    × Settled (skip_ignored start).rest
    × Reads ascii (skip_ignored start) (next ascii start)
next-Reads_example = next-Reads ascii start

scan_string-Spelled_example : Spelled ascii b'\'' in_string [] (scan_string ascii b'\'' in_string)
scan_string-Spelled_example = scan_string-Spelled ascii b'\'' in_string

abbrev mixed : Table
mixed = record {
  fields = [];
  indexed = (3, boolean Bool.false) ∷ (2, integer (pos 5)) ∷ [];
  array = string (codes "x") ∷ [];
}

sequence-SequenceOf_example :
    SequenceOf mixed (string (codes "x") ∷ integer (pos 5) ∷ boolean Bool.false ∷ [])
unfolding sequence add_indexed numbered keys insert_sorted sort collect lookup
sequence-SequenceOf_example = sequence-SequenceOf mixed _ refl
