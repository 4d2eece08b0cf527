-- ===== src/Luasv/Cursor.antt =====
-- The lexer's place in its input (`lexer.go`). `rest` is what `input[offset:]` holds, so that
-- `offset >= len(input)` is `rest = []`; a loop is given the rest that it walks.
pub mod Passes
use wow_markets.Base.{
  ℕ, zero, suc, ◌+◌, Bool, true, false, not, ◌&&◌, List, [], ◌∷◌, ◌==◌, if◌then◌else◌, length,
}
use wow_markets.Base.Strings.{Text, is_space}

pub record Lexer : Type 0 where
  pub rest : Text
  pub line : ℕ
  pub column : ℕ

abbrev pub new_lexer : Text → Lexer
new_lexer input = record { rest = input; line = 1; column = 1 }

-- `advance`, at a lexer whose rest is `c ∷ cs`.
abbrev pub over : ℕ → Text → Lexer → Lexer
over c cs l = record {
  rest = cs;
  line = if c == b'\n' then l.line + 1 else l.line;
  column = if c == b'\n' then 1 else l.column + 1;
}

-- `for l.offset < len(l.input) && test(l.input[l.offset]) { l.advance() }`, and the text passed.
-- The text argument is the lexer's rest.
unfoldable pub take_while : (ℕ → Bool) → Text → Lexer → Text × Lexer
take_while test [] l = ([], l)
take_while test (c ∷ cs) l =
    let (text, l') = take_while test cs (over c cs l) in if test c then (c ∷ text, l') else ([], l)

abbrev pub is_dash : Text → Bool
is_dash [] = false
is_dash (c ∷ _) = c == b'-'

abbrev pub off_newline : ℕ → Bool
off_newline c = not (c == b'\n')

-- One round of `skipIgnored`'s loop; `again` is the next round.
unfoldable pub skip_round : (Lexer → Lexer) → Text → Lexer → Lexer
skip_round again [] l = l
skip_round again (c ∷ cs) l =
    let spaced = again (over c cs l) in
    let commented = again (take_while off_newline (c ∷ cs) l).1 in
    if is_space c then spaced else if c == b'-' && is_dash cs then commented else l

unfoldable pub skip_rounds : ℕ → Lexer → Lexer
skip_rounds zero l = l
skip_rounds (suc fuel) l = skip_round (skip_rounds fuel) l.rest l

-- Each round passes a rune, so a round more than there are runes is enough.
unfoldable pub skip_ignored : Lexer → Lexer
skip_ignored l = skip_rounds (suc (length l.rest)) l
