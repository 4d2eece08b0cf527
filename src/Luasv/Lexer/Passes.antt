-- ===== src/Luasv/Lexer/Passes.antt =====
-- `next` passes at least a rune before any token but the last, and says truly where it stands.
use wow_markets.Base.{
  ℕ, ◌≡◌, ◌≢◌, ◌⊎◌, refl, Bool, true, [], ◌∷◌, ◌==◌, ◌||◌, arith, Bool-cases, inl, inr, some,
  Option-cases, Result, ok, err,
}
use wow_markets.Base.Strings.{Text}
use wow_markets.Luasv.Token.{Kind, Token, Unicode, Error, bad_string, eof, out_of_fuel, string_fuel}
use wow_markets.Base.Numbers.{is_float}
use wow_markets.Luasv.Cursor.{Lexer, over, take_while, skip_ignored}
use wow_markets.Luasv.Cursor.Passes.{
  Passes, Passes-refl, Passes-over, take_while-Passes, skip_ignored-Skips,
}
use wow_markets.Luasv.Escapes.{StringScan, scan_string}
use wow_markets.Luasv.Escapes.Passes.{Scans, scan_string-Scans}
use wow_markets.Luasv.Lexer.{
  punctuation, word_kind, is_identifier_start, is_identifier_part, is_number_part, scan_number,
  string_token, word_token, number_token, next_at, next,
}

-- The error is not a shortage of the model's fuel.
abbrev pub IsGenuine : Error → Type 0
IsGenuine out_of_fuel = ⊥
IsGenuine (bad_string _ _ string_fuel) = ⊥
IsGenuine _ = Unit

-- What `next` gives from `m`, where the token starts: a token at the place of `m`, which is the
-- last at the end of the input and passes a text that is not empty elsewhere.
abbrev pub Takes : Lexer → Result Error (Token × Lexer) → Type 0
Takes m (ok (t, l')) =
    ((text : Text) × Passes m text l'
      × (((t.kind ≡ eof) × (m.rest ≡ [])) ⊎ ((t.kind ≢ eof) × (text ≢ []))))
    × (t.line ≡ m.line)
    × (t.column ≡ m.column)
Takes m (err e) = IsGenuine e

module _ (u : Unicode) where
  string_token-Takes :
      (c : ℕ) (cs : Text) (l : Lexer) (r : StringScan)
      → l.rest ≡ c ∷ cs
      → Scans (over c cs l) r
      → Takes l (string_token l r)
  string_token-Takes c cs l (ok (s, l')) e (t, p) =
      ((c ∷ t, Passes-over c cs l e p, inr ((λ k. cc), (λ k. cc))), refl, refl)
  string_token-Takes c cs l (err string_fuel) e h = h
  string_token-Takes c cs l (err _) e h = tt

take_while_ne :
    (test : ℕ → Bool) (c : ℕ) (cs : Text) (l : Lexer)
    → test c ≡ true
    → (take_while test (c ∷ cs) l).0 ≢ []
unfolding take_while
take_while_ne test c cs l h = rw h (λ k. cc)

word_kind-eof : (text : Text) → word_kind text ≢ eof
unfolding word_kind
word_kind-eof text = ground arith

word_token-Takes :
    (test : ℕ → Bool) (c : ℕ) (cs : Text) (l : Lexer)
    → l.rest ≡ c ∷ cs
    → test c ≡ true
    → Takes l (word_token l (take_while test (c ∷ cs) l))
word_token-Takes test c cs l e h = (
  (_, take_while-Passes test (c ∷ cs) l e, inr (word_kind-eof _, take_while_ne test c cs l h)),
  refl,
  refl,
)

number_token-Takes :
    (l : Lexer) (r : Text × Lexer) → Passes l r.0 r.1 → r.0 ≢ [] → Takes l (number_token l r)
number_token-Takes l (text, l') p n = elim (Bool-cases (is_float text)) [
  | inl h ↦ rw (h, number_token) ((text, p, inr ((λ k. cc), n)), refl, refl)
  | inr h ↦ rw (h, number_token) tt
]

punctuation-eof : (c : ℕ) (k : Kind) → punctuation c ≡ some k → k ≢ eof
unfolding punctuation
punctuation-eof c k h = ground arith

module _ (u : Unicode) where
  scan_number-Passes :
      (c : ℕ) (cs : Text) (l : Lexer)
      → l.rest ≡ c ∷ cs
      → (c == b'-' || u.is_digit c) ≡ true
      → Passes l (scan_number u c cs l).0 (scan_number u c cs l).1 × ((scan_number u c cs l).0 ≢ [])
  scan_number-Passes c cs l e h = elim (Bool-cases (c == b'-')) [
    | inl dash ↦ rw dash (
      Passes-over c cs l e (take_while-Passes (is_number_part u) cs (over c cs l) refl),
      (λ k. cc),
    )
    | inr other ↦ rw other (
      take_while-Passes (is_number_part u) (c ∷ cs) l e,
      take_while_ne (is_number_part u) c cs l (ground arith),
    )
  ]

  next_at-Takes : (cs : Text) (l : Lexer) → l.rest ≡ cs → Takes l (next_at u cs l)
  unfolding next_at
  next_at-Takes [] l e = (([], Passes-refl l, inl (refl, e)), refl, refl)
  next_at-Takes (c ∷ cs) l e = elim (Option-cases (punctuation c)) [
    | inr (k, mark) ↦
        rw (mark, next_at)
          (
            (
              c ∷ [],
              Passes-over c cs l e (Passes-refl (over c cs l)),
              inr (punctuation-eof c k mark, (λ x. cc)),
            ),
            refl,
            refl,
          )
    | inl none_of ↦ elim (Bool-cases (c == b'"' || c == b'\'')) [
      | inl quote ↦
          rw (none_of, quote, next_at)
            (string_token-Takes u c cs l (scan_string u c (over c cs l)) e
              (scan_string-Scans u c (over c cs l)))
      | inr plain ↦ elim (Bool-cases (is_identifier_start u c)) [
        | inl word ↦
            rw (none_of, plain, word, next_at)
              (word_token-Takes (is_identifier_part u) c cs l e (ground arith))
        | inr other ↦ elim (Bool-cases (c == b'-' || u.is_digit c)) [
          | inl digit ↦
              rw (none_of, plain, other, digit, next_at)
                (number_token-Takes l _ (scan_number-Passes c cs l e digit).0
                  (scan_number-Passes c cs l e digit).1)
          | inr odd ↦ rw (none_of, plain, other, odd, next_at) tt
        ]
      ]
    ]
  ]

  -- `next` passes a text and stands at a token, whose line and column it reports; it
  -- passes the token's text, which is not empty, or is at the end of the input and gives the last
  -- token; and it has enough fuel.
  pub next-Takes :
      (l : Lexer)
      → ((skipped : Text) × Passes l skipped (skip_ignored l)) × Takes (skip_ignored l) (next u l)
  unfolding next
  next-Takes l =
      let (text, passed, _) = (skip_ignored-Skips l).0 in
      ((text, passed), next_at-Takes (skip_ignored l).rest (skip_ignored l) refl)
