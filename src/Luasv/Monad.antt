-- ===== src/Luasv/Monad.antt =====
-- The parser's state and its steps (`parser.go`). An error ends the whole parse, so only a success
-- has a next state.
use wow_markets.Base.{Bool, true, false, Result, ok, err}
use wow_markets.Base.Strings.{Text}
use wow_markets.Luasv.Cursor.{Lexer}
use wow_markets.Luasv.Token.{Kind, Token, Error, unexpected}

pub record Parser : Type 0 where
  pub lexer : Lexer
  pub current : Token
  pub peek : Token

abbrev pub Parse {ℓ} : Type ℓ → Type ℓ
Parse A = Parser → Result Error (A × Parser)

abbrev pub continue {ℓ κ} :
    {A : Type ℓ} {B : Type κ}
    → Result Error (A × Parser)
    → (A → Parse B)
    → Result Error (B × Parser)
continue (ok (a, p)) f = f a p
continue (err e) f = err e

infixl 5 ◌>>=◌ ◌>>◌
abbrev pub ◌>>=◌ {ℓ κ} : {A : Type ℓ} {B : Type κ} → Parse A → (A → Parse B) → Parse B
◌>>=◌ m f p = continue (m p) f

abbrev pub ◌>>◌ {ℓ} : {B : Type ℓ} → Parse (Unit {0}) → Parse B → Parse B
m >> k = m >>= λ _. k

abbrev pub pure {ℓ} : {A : Type ℓ} → A → Parse A
pure a p = ok (a, p)

abbrev pub fail {ℓ} : {A : Type ℓ} → Error → Parse A
fail e p = err e

abbrev pub current_token : Parse Token
current_token p = ok (p.current, p)

-- `p.unexpected(expected)`
abbrev pub fail_unexpected {ℓ} : {A : Type ℓ} → Text → Parse A
fail_unexpected expected p =
    err (unexpected p.current.line p.current.column expected p.current.text)

abbrev pub is_kind : Kind → Kind → Bool
is_kind Kind.eof Kind.eof = true
is_kind Kind.identifier Kind.identifier = true
is_kind Kind.number Kind.number = true
is_kind Kind.string Kind.string = true
is_kind Kind.true_word Kind.true_word = true
is_kind Kind.false_word Kind.false_word = true
is_kind Kind.nil_word Kind.nil_word = true
is_kind Kind.left_brace Kind.left_brace = true
is_kind Kind.right_brace Kind.right_brace = true
is_kind Kind.left_bracket Kind.left_bracket = true
is_kind Kind.right_bracket Kind.right_bracket = true
is_kind Kind.equal Kind.equal = true
is_kind Kind.comma Kind.comma = true
is_kind Kind.semicolon Kind.semicolon = true
is_kind _ _ = false
