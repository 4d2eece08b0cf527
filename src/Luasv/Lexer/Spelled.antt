-- ===== src/Luasv/Lexer/Spelled.antt =====
-- What `next` reads: the tokens that texts spell, and what its errors name.
use wow_markets.Base.{
  ℕ, ◌≡◌, ◌≢◌, ◌⊎◌, ◌↔◌, refl, sym, subst, Bool, true, false, [], ◌∷◌, ◌++◌, All, ◌==◌, ==_iff,
  ◌||◌, str_eq_iff, codes, arith, Bool-cases, inl, inr, some, none, Option-cases, Result, ok, err,
}
use wow_markets.Base.Numbers.{is_float}
use wow_markets.Base.Strings.{Text}
use wow_markets.Luasv.Token.{
  Kind, Token, Unicode, Error, bad_string, invalid_number, unsupported_character, eof, identifier,
  number, string, true_word, false_word, nil_word, left_brace, right_brace, left_bracket,
  right_bracket, equal, comma, semicolon,
}
use wow_markets.Luasv.Cursor.{Lexer, over, take_while, skip_ignored}
use wow_markets.Luasv.Cursor.Passes.{
  Passes, Passes-refl, Passes-over, Ignored, Settled, Run, Halts, take_while-Run, take_while-Passes,
  skip_ignored-Skips,
}
use wow_markets.Luasv.Escapes.{StringScan, scan_string}
use wow_markets.Luasv.Escapes.Spelled.{Body, Stops, Spelled, scan_string-Spelled}
use wow_markets.Luasv.Lexer.{
  punctuation, word_kind, is_identifier_start, is_identifier_part, is_number_part, scan_number,
  string_token, word_token, number_token, next_at, next,
}

-- The runes that are tokens.
abbrev pub Mark : ℕ → Kind → Type 0
Mark c k =
    ((c ≡ b'{') × (k ≡ left_brace))
    ⊎ ((c ≡ b'}') × (k ≡ right_brace))
    ⊎ ((c ≡ b'[') × (k ≡ left_bracket))
    ⊎ ((c ≡ b']') × (k ≡ right_bracket))
    ⊎ ((c ≡ b'=') × (k ≡ equal))
    ⊎ ((c ≡ b',') × (k ≡ comma))
    ⊎ ((c ≡ b';') × (k ≡ semicolon))

abbrev pub Quote : ℕ → Type 0
Quote c = (c ≡ b'"') ⊎ (c ≡ b'\'')

-- The kind of a word.
abbrev pub Word : Text → Kind → Type 0
Word text k =
    ((text ≡ codes "true") × (k ≡ true_word))
    ⊎ ((text ≡ codes "false") × (k ≡ false_word))
    ⊎ ((text ≡ codes "nil") × (k ≡ nil_word))
    ⊎ ((text ≢ codes "true") × (text ≢ codes "false") × (text ≢ codes "nil") × (k ≡ identifier))

-- No rune of the class is next.
abbrev pub NoneNext : (ℕ → Type 0) → Text → Type 0
NoneNext P [] = Unit
NoneNext P (c ∷ cs) = P c → ⊥

take_first :
    (test : ℕ → Bool) (c : ℕ) (cs : Text) (l : Lexer)
    → test c ≡ true
    → let (text, m) = take_while test cs (over c cs l) in take_while test (c ∷ cs) l ≡ (c ∷ text, m)
unfolding take_while
take_first test c cs l h = rw h refl

module _ (u : Unicode) where
  abbrev pub WordStart : ℕ → Type 0
  WordStart c = (c ≡ b'_') ⊎ (u.is_letter c ≡ true)

  abbrev pub WordPart : ℕ → Type 0
  WordPart c = WordStart c ⊎ (u.is_digit c ≡ true)

  abbrev pub NumberPart : ℕ → Type 0
  NumberPart c =
      (u.is_digit c ≡ true) ⊎ (c ≡ b'.') ⊎ (c ≡ b'e') ⊎ (c ≡ b'E') ⊎ (c ≡ b'+') ⊎ (c ≡ b'-')

  -- A dash or a digit, and then the runes of numbers, as many as there are.
  abbrev pub NumberText : Text → Text → Type 0
  NumberText rest [] = ⊥
  NumberText rest (c ∷ cs) =
      ((c ≡ b'-') ⊎ (u.is_digit c ≡ true)) × All NumberPart cs × NoneNext NumberPart rest

  -- The tokens, with the texts that spell them where a rest follows.
  pub data Spells (rest : Text) : Kind → Text → Text → Type 0 where
    ends : rest ≡ [] → Spells rest eof [] []
    mark : (c : ℕ) (k : Kind) → Mark c k → Spells rest k (c ∷ []) (c ∷ [])
    word :
        (c : ℕ) (cs : Text) (k : Kind)
        → WordStart c
        → All WordPart cs
        → NoneNext WordPart rest
        → Word (c ∷ cs) k
        → Spells rest k (c ∷ cs) (c ∷ cs)
    digits :
        (text : Text) → NumberText rest text → is_float text ≡ true → Spells rest number text text
    quoted :
        (q : ℕ) (b v : Text)
        → Quote q
        → Body u q (q ∷ rest) b v
        → Spells rest string v (q ∷ (b ++ q ∷ []))

  -- What an error of `next` at `m` says is so.
  abbrev pub Fails : Lexer → Error → Type 0
  Fails m (unsupported_character line column c) =
      (line ≡ m.line)
      × (column ≡ m.column)
      × (cs : Text) × (m.rest ≡ c ∷ cs)
      × ((k : Kind) → Mark c k → ⊥)
      × (Quote c → ⊥)
      × (WordStart c → ⊥)
      × (c ≢ b'-')
      × (u.is_digit c ≡ false)
  Fails m (invalid_number line column text) =
      (line ≡ m.line)
      × (column ≡ m.column)
      × (m' : Lexer) × Passes m text m'
      × NumberText m'.rest text
      × (is_float text ≡ false)
  Fails m (bad_string line column e) =
      (line ≡ m.line)
      × (column ≡ m.column)
      × (q : ℕ) × (cs : Text) × (m.rest ≡ q ∷ cs)
      × Quote q
      × (b v : Text) × (m' : Lexer) × Passes (over q cs m) b m'
      × Body u q m'.rest b v
      × Stops u e m'.rest
  Fails m _ = ⊥

  abbrev pub Reads : Lexer → Result Error (Token × Lexer) → Type 0
  Reads m (ok (t, l')) =
      ((text : Text) × Passes m text l' × Spells l'.rest t.kind t.text text)
      × (t.line ≡ m.line)
      × (t.column ≡ m.column)
  Reads m (err e) = Fails m e

  Run-All :
      (test : ℕ → Bool) (P : ℕ → Type 0)
      → ((c : ℕ) → (test c ≡ true) ↔ P c)
      → (cs : Text) → Run test cs
      → All P cs
  Run-All test P iff [] r = tt
  Run-All test P iff (c ∷ cs) (h, r) = ((iff c).0 h, Run-All test P iff cs r)

  Halts-NoneNext :
      (test : ℕ → Bool) (P : ℕ → Type 0)
      → ((c : ℕ) → (test c ≡ true) ↔ P c)
      → (cs : Text) → Halts test cs
      → NoneNext P cs
  Halts-NoneNext test P iff [] h = tt
  Halts-NoneNext test P iff (c ∷ cs) h = λ p. cc (h, (iff c).1 p)

  start_iff : (c : ℕ) → (is_identifier_start u c ≡ true) ↔ WordStart c
  start_iff c = (λ h. ground arith, λ p. ground arith)

  part_iff : (c : ℕ) → (is_identifier_part u c ≡ true) ↔ WordPart c
  part_iff c = (λ h. ground arith, λ p. ground arith)

  number_iff : (c : ℕ) → (is_number_part u c ≡ true) ↔ NumberPart c
  number_iff c = (λ h. ground arith, λ p. ground arith)

  punctuation-Mark : (c : ℕ) (k : Kind) → punctuation c ≡ some k → Mark c k
  unfolding punctuation
  punctuation-Mark c k h = ground arith

  punctuation-none : (c : ℕ) (k : Kind) → punctuation c ≡ none → Mark c k → ⊥
  unfolding punctuation
  punctuation-none c k h m = ground arith

  word_kind-Word : (text : Text) → Word text (word_kind text)
  unfolding word_kind
  word_kind-Word text = ground (
    arith,
    str_eq_iff text (codes "true"),
    str_eq_iff text (codes "false"),
    str_eq_iff text (codes "nil"),
  )

  quoting_iff : (c : ℕ) → ((c == b'"' || c == b'\'') ≡ true) ↔ Quote c
  quoting_iff c = (λ h. ground arith, λ p. ground arith)

  string_token-Reads :
      (c : ℕ) (cs : Text) (l : Lexer) (r : StringScan)
      → l.rest ≡ c ∷ cs
      → Quote c
      → Spelled u c (over c cs l) [] r
      → Reads l (string_token l r)
  string_token-Reads c cs l (ok (s, l')) e q (b, v, p, body, same) = (
    (
      c ∷ (b ++ c ∷ []),
      Passes-over c cs l e p,
      subst (λ t. Spells l'.rest string t (c ∷ (b ++ c ∷ []))) (sym same) (quoted c b v q body),
    ),
    refl,
    refl,
  )
  string_token-Reads c cs l (err x) e q (b, v, m, p, body, stops) =
      (refl, refl, c, cs, e, q, b, v, m, p, body, stops)

  word_token-Reads :
      (c : ℕ) (cs : Text) (l : Lexer)
      → l.rest ≡ c ∷ cs
      → WordStart c
      → Reads l (word_token l (take_while (is_identifier_part u) (c ∷ cs) l))
  unfolding take_while
  word_token-Reads c cs l e start =
      let test = is_identifier_part u in
      let m = over c cs l in
      let (run, halts) = take_while-Run test cs m refl in
      let y : test c ≡ true = (part_iff c).1 (inl start) in
      rw y (
        (
          _,
          Passes-over c cs l e (take_while-Passes test cs m refl),
          word c _ _ start (Run-All test WordPart part_iff _ run)
              (Halts-NoneNext test WordPart part_iff _ halts) (word_kind-Word _),
        ),
        refl,
        refl,
      )

  number_token-Reads :
      (l : Lexer) (r : Text × Lexer)
      → Passes l r.0 r.1
      → NumberText r.1.rest r.0
      → Reads l (number_token l r)
  number_token-Reads l (text, l') p n = elim (Bool-cases (is_float text)) [
    | inl h ↦ rw (h, number_token) ((text, p, digits text n h), refl, refl)
    | inr h ↦ rw (h, number_token) (refl, refl, l', p, n, h)
  ]

  scan_number-Number :
      (c : ℕ) (cs : Text) (l : Lexer)
      → l.rest ≡ c ∷ cs
      → (c == b'-' || u.is_digit c) ≡ true
      → Passes l (scan_number u c cs l).0 (scan_number u c cs l).1
        × NumberText (scan_number u c cs l).1.rest (scan_number u c cs l).0
  scan_number-Number c cs l e h =
      let test = is_number_part u in
      let m = over c cs l in
      let (run, halts) = take_while-Run test cs m refl in
      let p = Passes-over c cs l e (take_while-Passes test cs m refl) in
      let all = Run-All test NumberPart number_iff _ run in
      let none_next = Halts-NoneNext test NumberPart number_iff _ halts in
      elim (Bool-cases (c == b'-')) [
        | inl dash ↦ rw dash (p, (inl ((==_iff c b'-').0 dash), all, none_next))
        | inr other ↦
            let digit : u.is_digit c ≡ true = ground arith in
            let y : test c ≡ true = (number_iff c).1 (inl digit) in
            rw (other, take_first test c cs l y) (p, (inr digit, all, none_next))
      ]

  next_at-Reads : (cs : Text) (l : Lexer) → l.rest ≡ cs → Reads l (next_at u cs l)
  unfolding next_at
  next_at-Reads [] l e = (([], Passes-refl l, ends e), refl, refl)
  next_at-Reads (c ∷ cs) l e = elim (Option-cases (punctuation c)) [
    | inr (k, found) ↦
        rw (found, next_at)
          (
            (
              c ∷ [],
              Passes-over c cs l e (Passes-refl (over c cs l)),
              mark c k (punctuation-Mark c k found),
            ),
            refl,
            refl,
          )
    | inl none_of ↦ elim (Bool-cases (c == b'"' || c == b'\'')) [
      | inl quote ↦
          rw (none_of, quote, next_at)
            (string_token-Reads c cs l (scan_string u c (over c cs l)) e ((quoting_iff c).0 quote)
              (scan_string-Spelled u c (over c cs l)))
      | inr unquoted ↦ elim (Bool-cases (is_identifier_start u c)) [
        | inl start ↦
            rw (none_of, unquoted, start, next_at)
              (word_token-Reads c cs l e ((start_iff c).0 start))
        | inr other ↦ elim (Bool-cases (c == b'-' || u.is_digit c)) [
          | inl digit ↦
              let (p, n) = scan_number-Number c cs l e digit in
              rw (none_of, unquoted, other, digit, next_at) (number_token-Reads l _ p n)
          | inr odd ↦
              rw (none_of, unquoted, other, odd, next_at)
                (
                  refl,
                  refl,
                  cs,
                  e,
                  (λ k m. punctuation-none c k none_of m),
                  (λ q. cc (unquoted, (quoting_iff c).1 q)),
                  (λ s. cc (other, (start_iff c).1 s)),
                  (λ d. ground (arith, d, odd)),
                  ground arith,
                )
        ]
      ]
    ]
  ]

  -- `next` passes a text of spaces and comments, up to where neither is next, and there reads a
  -- token, whose line and column it reports: the last one exactly at the end of the input, a mark,
  -- a word or a number as long as its runes go on, or a quoted string, with the kind and the text
  -- that the passed text spells. Where it fails, it names the line and column: a rune that starts
  -- no token, the runes of a number that is no float64, or where a string cannot go on.
  pub next-Reads :
      (l : Lexer)
      → ((skipped : Text) × Passes l skipped (skip_ignored l)
          × Ignored (skip_ignored l).rest skipped)
        × Settled (skip_ignored l).rest
        × Reads (skip_ignored l) (next u l)
  unfolding next
  next-Reads l =
      let skips = skip_ignored-Skips l in
      (skips.0, skips.1, next_at-Reads (skip_ignored l).rest (skip_ignored l) refl)
