-- ===== src/Luasv/Parser/Within.antt =====
-- What is ahead of the parser, and how each step of `parser.go` that takes tokens lessens it.
use wow_markets.Base.{
  ℕ, suc, ◌+◌, ◌≤◌, ◌<◌, ◌≡◌, ◌≢◌, refl, true, false, [], ◌∷◌, ◌||◌, length, arith, Bool-cases, inl,
  inr, Result, ok, err, codes,
}
use wow_markets.Base.Strings.{Text}
use wow_markets.Luasv.Token.{Kind, Token, Unicode, Error, eof}
use wow_markets.Luasv.Cursor.{Lexer, skip_ignored}
use wow_markets.Luasv.Cursor.Passes.{Passes, length-Passes}
use wow_markets.Luasv.Lexer.{next}
use wow_markets.Luasv.Lexer.Passes.{IsGenuine, Takes, next-Takes}
use wow_markets.Luasv.Value.{Table}
use wow_markets.Luasv.Monad.{Parser, Parse, continue, is_kind}
use wow_markets.Luasv.Parser.{
  bracket_key, advanced, advance, consume, parse_bracket_key, separator, optional_semicolon,
}

-- 1 for a token that is still to be read, 0 at the end of the input.
abbrev pub live : Kind → ℕ
live eof = 0
live _ = 1

-- The runes and tokens ahead of a parser.
abbrev pub size : Parser → ℕ
size p = length p.lexer.rest + live p.peek.kind + live p.current.kind

-- A success leaves at most `n` ahead, and an error is not a shortage of fuel.
abbrev pub Within {ℓ} : {A : Type ℓ} → ℕ → Result Error (A × Parser) → Type 0
Within n (ok (_, p)) = size p ≤ n
Within n (err e) = IsGenuine e

-- A parser with at most `n` ahead, or a genuine error.
abbrev pub Starts : ℕ → Result Error Parser → Type 0
Starts n (ok p) = size p ≤ n
Starts n (err e) = IsGenuine e

abbrev pub Genuine : Result Error Table → Type 0
Genuine (ok t) = Unit
Genuine (err e) = IsGenuine e

pub Within-bind {ℓ κ} :
    {A : Type ℓ} {B : Type κ} (n k : ℕ) (m : Result Error (A × Parser)) (f : A → Parse B)
    → Within n m
    → ((a : A) (p : Parser) → size p ≤ n → Within k (f a p))
    → Within k (continue m f)
Within-bind n k (ok (a, p)) f h g = g a p h
Within-bind n k (err e) f h g = h

pub Within-le {ℓ} :
    {A : Type ℓ} (n k : ℕ) (m : Result Error (A × Parser)) → n ≤ k → Within n m → Within k m
Within-le n k (ok (a, p)) h w = omega arith
Within-le n k (err e) h w = w

pub is_kind-live : (j k : Kind) → is_kind j k ≡ true → live j ≡ live k
is_kind-live j k h = ground arith

pub live_le : (k : Kind) → live k ≤ 1
live_le k = ground arith

pub is_identifier : (k : Kind) → is_kind k Kind.identifier ≡ true → k ≡ Kind.identifier
is_identifier k h = ground arith

pub not_eof : (k : Kind) → is_kind k eof ≡ false → live k ≡ 1
not_eof k h = ground arith

pub length_zero : (text : Text) → text ≢ [] → 0 < length text
length_zero [] n = absurd (n refl)
length_zero (c ∷ cs) n = omega arith

-- A token taken is a rune passed, or the end.
pub Takes-live :
    (l m l' : Lexer) (t : Token) (s : Text)
    → Passes l s m
    → Takes m (ok (t, l'))
    → length l'.rest + live t.kind ≤ length l.rest
Takes-live l m l' t s p ((text, q, inl (e, end)), _, _) =
    rw e (omega (arith, length-Passes p, length-Passes q))
Takes-live l m l' t s p ((text, q, inr (_, some_text)), _, _) =
    omega (arith, length-Passes p, length-Passes q, length_zero text some_text, live_le t.kind)

module _ (u : Unicode) where
  pub advanced-Within :
      (p : Parser) (n : ℕ) (r : Result Error (Token × Lexer))
      → size p ≤ n + live p.current.kind
      → ((s : Text) × Passes p.lexer s (skip_ignored p.lexer)) × Takes (skip_ignored p.lexer) r
      → Within n (advanced u p r)
  advanced-Within p n (ok (t, l')) h ((s, q), takes) =
      omega (arith, Takes-live p.lexer (skip_ignored p.lexer) l' t s q takes)
  advanced-Within p n (err e) h (q, g) = g

  pub advance-Within :
      (p : Parser) (n : ℕ) → size p ≤ n + live p.current.kind → Within n (advance u p)
  unfolding advance
  advance-Within p n h = advanced-Within p n (next u p.lexer) h (next-Takes u p.lexer)

  -- Taking a token that is not the last leaves less.
  pub consume-Within :
      (kind : Kind) (text : Text) (p : Parser) (n : ℕ)
      → live kind ≡ 1
      → size p ≤ suc n
      → Within n (consume u kind text p)
  unfolding consume
  consume-Within kind text p n l h = elim (Bool-cases (is_kind p.current.kind kind)) [
    | inl e ↦
        rw (e, consume) (advance-Within p n (omega (arith, is_kind-live p.current.kind kind e)))
    | inr e ↦ rw (e, consume) tt
  ]

  pub separator-Within : (p : Parser) (n : ℕ) → size p ≤ n → Within n (separator u p)
  unfolding separator
  separator-Within p n h =
      elim (Bool-cases
        (is_kind p.current.kind Kind.comma || is_kind p.current.kind Kind.semicolon)) [
          | inl e ↦ rw (e, separator) (advance-Within p n (omega arith))
          | inr e ↦ rw (e, separator) h
        ]

  pub optional_semicolon-Within :
      (p : Parser) (n : ℕ) → size p ≤ n → Within n (optional_semicolon u p)
  unfolding optional_semicolon
  optional_semicolon-Within p n h = elim (Bool-cases (is_kind p.current.kind Kind.semicolon)) [
    | inl e ↦ rw (e, optional_semicolon) (advance-Within p n (omega arith))
    | inr e ↦ rw (e, optional_semicolon) h
  ]

  pub bracket_key-Within : (t : Token) (k : Kind) (p : Parser) → Within (size p) (bracket_key t k p)
  unfolding bracket_key
  bracket_key-Within t Kind.string p = omega arith
  bracket_key-Within t Kind.number p = ground arith
  bracket_key-Within t _ p = tt

  pub parse_bracket_key-Within :
      (p : Parser) (n : ℕ) → size p ≤ suc n → Within n (parse_bracket_key u p)
  unfolding parse_bracket_key
  parse_bracket_key-Within p n h =
      Within-bind n n (consume u Kind.left_bracket (codes "[") p) _
        (consume-Within Kind.left_bracket (codes "[") p n refl h)
        λ _ q hq.
          Within-bind n n (bracket_key q.current q.current.kind q) _
            (Within-le (size q) n (bracket_key q.current q.current.kind q) hq
              (bracket_key-Within q.current q.current.kind q))
            λ key q' hq'.
              Within-bind n n (advance u q') _ (advance-Within q' n (omega arith)) λ _ r hr.
                Within-bind n n (consume u Kind.right_bracket (codes "]") r) _
                  (consume-Within Kind.right_bracket (codes "]") r n refl (omega arith))
                  λ _ r' hr'. hr'
