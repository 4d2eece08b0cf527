-- ===== src/Luasv/Token.antt =====
-- Tokens, the errors of the package, and the character classes of Go's `unicode` package.
use wow_markets.Base.{ℕ, ◌<◌, ◌≡◌, Bool, ◌&&◌, ◌||◌, leb}
use wow_markets.Base.Strings.{Text}
use wow_markets.Base.Numbers.{is_ascii_digit}

pub data Kind : Type 0 where
  eof identifier number string true_word false_word nil_word : Kind
  left_brace right_brace left_bracket right_bracket equal comma semicolon : Kind

pub record Token : Type 0 where
  pub kind : Kind
  pub text : Text
  pub line : ℕ
  pub column : ℕ

-- `scanString`'s errors; `string_fuel` marks a loop that was given too little fuel.
pub data StringError : Type 0 where
  unterminated_escape unterminated_string string_fuel : StringError
  unsupported_escape : ℕ → StringError
  invalid_decimal_escape : Text → StringError

-- Each error with what its message names, mostly a line and a column first.
pub data Error : Type 0 where
  bad_string : ℕ → ℕ → StringError → Error
  invalid_number invalid_integer invalid_index : ℕ → ℕ → Text → Error
  unsupported_character : ℕ → ℕ → ℕ → Error
  unexpected : ℕ → ℕ → Text → Text → Error
  not_found not_a_table : Text → Error
  duplicate_index missing_index : ℕ → Error
  out_of_fuel : Error

abbrev pub is_ascii_letter : ℕ → Bool
is_ascii_letter c = (leb b'a' c && leb c b'z') || (leb b'A' c && leb c b'Z')

-- `unicode.IsLetter` and `unicode.IsDigit`. Their tables are Go's; what is relied on is their
-- documented values on ASCII.
pub record Unicode : Type 0 where
  pub is_letter : ℕ → Bool
  pub is_digit : ℕ → Bool
  pub ascii_letter : (c : ℕ) → c < 128 → is_letter c ≡ is_ascii_letter c
  pub ascii_digit : (c : ℕ) → c < 128 → is_digit c ≡ is_ascii_digit c
