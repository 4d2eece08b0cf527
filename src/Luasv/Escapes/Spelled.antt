-- ===== src/Luasv/Escapes/Spelled.antt =====
-- `scanString` reads the string that its input spells, or stops at what no string spells.
use wow_markets.Base.{
  ℕ, zero, suc, ◌^◌, ◌≤◌, ◌<◌, ◌≡◌, ◌≢◌, ◌⊎◌, ◌>>=◌, refl, sym, ap, ◌∙◌, subst, true, false, [],
  ◌∷◌, ltb, ◌++◌, append_assoc, append-nil, ◌==◌, ==_iff, length, arith, Bool-cases, inl, inr,
  Option, some, none, Option-cases, Result, ok, err,
}
use wow_markets.Base.Int.{ℤ, pos, negsuc}
use wow_markets.Base.Numbers.{parse_int}
use wow_markets.Base.Strings.{Text}
use wow_markets.Luasv.Token.{
  Unicode, StringError, unterminated_escape, unterminated_string, string_fuel, unsupported_escape,
  invalid_decimal_escape,
}
use wow_markets.Luasv.Cursor.{Lexer, over}
use wow_markets.Luasv.Cursor.Passes.{Passes, Passes-refl, Passes-over, Passes-trans, length-Passes}
use wow_markets.Luasv.Escapes.{
  StringScan, escape_rune, decimal_escape, more_digits, scan_escape, scan_round, scan_rounds,
  scan_string,
}

-- The escapes of one letter, with the runes that they stand for.
abbrev pub Letter : ℕ → ℕ → Type 0
Letter e r =
    ((e ≡ b'a') × (r ≡ 7))
    ⊎ ((e ≡ b'b') × (r ≡ 8))
    ⊎ ((e ≡ b'f') × (r ≡ 12))
    ⊎ ((e ≡ b'n') × (r ≡ 10))
    ⊎ ((e ≡ b'r') × (r ≡ 13))
    ⊎ ((e ≡ b't') × (r ≡ 9))
    ⊎ ((e ≡ b'v') × (r ≡ 11))
    ⊎ (((e ≡ b'\\') ⊎ (e ≡ b'"') ⊎ (e ≡ b'\'')) × (r ≡ e))

-- The rune of a decimal escape: its value, at most 255, or U+FFFD for a negative one.
abbrev pub Code : Text → ℕ → Type 0
Code digits r =
    ((parse_int (2 ^ 31) digits ≡ some (pos r)) × (r ≤ 255))
    ⊎ ((k : ℕ) × (parse_int (2 ^ 31) digits ≡ some (negsuc k)) × (r ≡ 0xfffd))

module _ (u : Unicode) where
  abbrev pub NoDigit : Text → Type 0
  NoDigit [] = Unit
  NoDigit (c ∷ cs) = u.is_digit c ≡ false

  abbrev pub AllDigits : Text → Type 0
  AllDigits [] = Unit
  AllDigits (c ∷ cs) = (u.is_digit c ≡ true) × AllDigits cs

  -- The digits of an escape: at most three, and less only where no digit follows.
  pub record Digits (first : ℕ) (more rest : Text) : Type 0 where
    pub no_letter : (r : ℕ) → Letter first r → ⊥
    pub first_digit : u.is_digit first ≡ true
    pub more_digit : AllDigits more
    pub at_most : length more ≤ 2
    pub longest : length more < 2 → NoDigit rest

  -- What a text between quotes spells, where a rest follows it.
  pub data Body (quote : ℕ) (rest : Text) : Text → Text → Type 0 where
    nothing : Body quote rest [] []
    plain :
        (c : ℕ) {b v : Text}
        → c ≢ quote
        → c ≢ b'\\'
        → Body quote rest b v
        → Body quote rest (c ∷ b) (c ∷ v)
    letter :
        (e r : ℕ) {b v : Text}
        → Letter e r
        → Body quote rest b v
        → Body quote rest (b'\\' ∷ e ∷ b) (r ∷ v)
    decimal :
        (d : ℕ) (more : Text) (r : ℕ) {b v t : Text}
        → t ≡ b'\\' ∷ d ∷ (more ++ b)
        → Digits d more (b ++ rest)
        → Code (d ∷ more) r
        → Body quote rest b v
        → Body quote rest t (r ∷ v)

  -- What makes the text that is left no end of a string.
  abbrev pub Stops : StringError → Text → Type 0
  Stops unterminated_string rest = rest ≡ []
  Stops unterminated_escape rest = rest ≡ b'\\' ∷ []
  Stops (unsupported_escape e) rest =
      (cs : Text) × (rest ≡ b'\\' ∷ e ∷ cs) × ((r : ℕ) → Letter e r → ⊥) × (u.is_digit e ≡ false)
  Stops (invalid_decimal_escape digits) rest =
      (d : ℕ) × (more cs : Text) × (rest ≡ b'\\' ∷ d ∷ (more ++ cs))
      × (digits ≡ d ∷ more)
      × Digits d more cs
      × ((r : ℕ) → Code digits r → ⊥)
  Stops string_fuel rest = ⊥

  -- A scan from `l` with what it has put out: the string up to its closing quote, or where it stops.
  abbrev pub Spelled : ℕ → Lexer → Text → StringScan → Type 0
  Spelled quote l output (ok (s, l')) =
      (b v : Text) × Passes l (b ++ quote ∷ []) l'
      × Body quote (quote ∷ l'.rest) b v
      × (s ≡ output ++ v)
  Spelled quote l output (err e) =
      (b v : Text) × (m : Lexer) × Passes l b m × Body quote m.rest b v × Stops e m.rest

  -- One piece in front of what is spelled behind it.
  Spelled-after :
      (quote : ℕ) (l m : Lexer) (output piece : Text) (r : ℕ) (scan : StringScan)
      → Passes l piece m
      → ((rest b v : Text)
          → m.rest ≡ b ++ rest
          → Body quote rest b v
          → Body quote rest (piece ++ b) (r ∷ v))
      → Spelled quote m (output ++ r ∷ []) scan
      → Spelled quote l output scan
  Spelled-after quote l m output piece r (ok (s, l')) p grow (b, v, q, body, e) = (
    piece ++ b,
    r ∷ v,
    subst (λ t. Passes l t l') (sym (append_assoc piece b (quote ∷ []))) (Passes-trans piece _ p q),
    grow (quote ∷ l'.rest) b v (q.rest ∙ append_assoc b (quote ∷ []) l'.rest) body,
    e ∙ append_assoc output (r ∷ []) v,
  )
  Spelled-after quote l m output piece r (err e) p grow (b, v, n, q, body, stops) =
      (piece ++ b, r ∷ v, n, Passes-trans piece b p q, grow n.rest b v q.rest body, stops)

  escape_rune-Letter : (e r : ℕ) → escape_rune e ≡ some r → Letter e r
  unfolding escape_rune
  escape_rune-Letter e r h = ground arith

  escape_rune-none : (e r : ℕ) → escape_rune e ≡ none → Letter e r → ⊥
  unfolding escape_rune
  escape_rune-none e r h l = ground arith

  more_digits-longest :
      (room : ℕ) (cs : Text) (l : Lexer)
      → l.rest ≡ cs
      → let (more, m) = more_digits u room cs l in
        Passes l more m
        × AllDigits more
        × (length more ≤ room)
        × (length more < room → NoDigit m.rest)
  unfolding more_digits
  more_digits-longest zero cs l e = (Passes-refl l, tt, omega arith, λ h. absurd (omega (arith, h)))
  more_digits-longest (suc room) [] l e = (Passes-refl l, tt, omega arith, λ h. rw e tt)
  more_digits-longest (suc room) (c ∷ cs) l e = elim (Bool-cases (u.is_digit c)) [
    | inr n ↦ rw n (Passes-refl l, tt, omega arith, λ h. rw e n)
    | inl y ↦
        let (p, all, most, longest) = more_digits-longest room cs (over c cs l) refl in
        rw y
          (Passes-over c cs l e p, (y, all), omega (arith, most), λ h. longest (omega (arith, h)))
  ]

  decimal_escape-cases :
      (digits : Text) (o : Option ℤ)
      → parse_int (2 ^ 31) digits ≡ o
      → ((r : ℕ) × (decimal_escape digits o ≡ ok r) × Code digits r)
        ⊎ ((decimal_escape digits o ≡ err (invalid_decimal_escape digits))
            × ((r : ℕ) → Code digits r → ⊥))
  unfolding decimal_escape
  decimal_escape-cases digits none e = inr (refl, λ r c. no_code r c)
    where
      no_code : (r : ℕ) → Code digits r → ⊥
      no_code r (inl (p, q)) = cc
      no_code r (inr (k, p, q)) = cc
  decimal_escape-cases digits (some (negsuc k)) e = inl (0xfffd, refl, inr (k, e, refl))
  decimal_escape-cases digits (some (pos n)) e = elim (Bool-cases (ltb 255 n)) [
    | inr small ↦ inl (n, rw (small, decimal_escape) refl, inl (e, ground arith))
    | inl large ↦ inr (rw (large, decimal_escape) refl, λ r c. too_large large r c)
  ]
    where
      too_large : ltb 255 n ≡ true → (r : ℕ) → Code digits r → ⊥
      too_large large r (inl (p, q)) = ground (arith, sym e ∙ p)
      too_large large r (inr (k, p, q)) = cc

  abbrev Continues : ℕ → (Text → Lexer → StringScan) → ℕ → Type 0
  Continues quote again n =
      (output : Text) (m : Lexer) → length m.rest < n → Spelled quote m output (again output m)

  decimal-Spelled :
      (quote : ℕ) (again : Text → Lexer → StringScan) (output : Text) (d : ℕ) (more : Text)
      (k m : Lexer) (value : Result StringError ℕ)
      → Passes k (b'\\' ∷ d ∷ more) m
      → Digits d more m.rest
      → ((r : ℕ) × (value ≡ ok r) × Code (d ∷ more) r)
        ⊎ ((value ≡ err (invalid_decimal_escape (d ∷ more))) × ((r : ℕ) → Code (d ∷ more) r → ⊥))
      → ((o : Text) → Spelled quote m o (again o m))
      → Spelled quote k output (value >>= (λ r. again (output ++ r ∷ []) m))
  decimal-Spelled quote again output d more k m value p digits (inl (r, e, code)) good = rw e (
      Spelled-after quote k m output (b'\\' ∷ d ∷ more) r (again (output ++ r ∷ []) m) p
        (λ rest b v h body. decimal d more r refl (subst (Digits d more) h digits) code body)
        (good (output ++ r ∷ [])))
  decimal-Spelled quote again output d more k m value p digits (inr (e, no_code)) good =
      rw e ([], [], k, Passes-refl k, nothing, (d, more, m.rest, p.rest, refl, digits, no_code))

  scan_escape-Spelled :
      (quote : ℕ) (again : Text → Lexer → StringScan) (output cs : Text) (k l : Lexer)
      → k.rest ≡ b'\\' ∷ cs
      → l ≡ over b'\\' cs k
      → Continues quote again (suc (length cs))
      → Spelled quote k output (scan_escape u again output cs l)
  unfolding scan_escape
  scan_escape-Spelled quote again output [] k l e here good = ([], [], k, Passes-refl k, nothing, e)
  scan_escape-Spelled quote again output (c ∷ cs) k l e here good =
      let m = over c cs l in
      let start : Passes k (b'\\' ∷ c ∷ []) m = Passes-over b'\\' (c ∷ cs) k e (
        subst (λ x. Passes x (c ∷ []) m) here
          (Passes-over c cs l (ap (λ x. x.rest) here) (Passes-refl m))) in
      elim (Option-cases (escape_rune c)) [
        | inr (r, found) ↦
            rw (found, scan_escape)
              (Spelled-after quote k m output (b'\\' ∷ c ∷ []) r (again (output ++ r ∷ []) m) start
                (λ rest b v h body. letter c r (escape_rune-Letter c r found) body)
                (good (output ++ r ∷ []) m (omega arith)))
        | inl missing ↦ elim (Bool-cases (u.is_digit c)) [
          | inr odd ↦
              rw (missing, odd, scan_escape)
                (
                  [],
                  [],
                  k,
                  Passes-refl k,
                  nothing,
                  (cs, e, (λ r h. escape_rune-none c r missing h), odd),
                )
          | inl digit ↦
              let (p, all, most, longest) = more_digits-longest 2 cs m refl in
              let three = Passes-over b'\\' (c ∷ cs) k e (
                subst (λ x. Passes x (c ∷ (more_digits u 2 cs m).0) (more_digits u 2 cs m).1) here
                  (Passes-over c cs l (ap (λ x. x.rest) here) p)) in
              rw (missing, digit, scan_escape)
                (decimal-Spelled quote again output c (more_digits u 2 cs m).0 k
                  (more_digits u 2 cs m).1
                  (decimal_escape (c ∷ (more_digits u 2 cs m).0)
                    (parse_int (2 ^ 31) (c ∷ (more_digits u 2 cs m).0)))
                  three
                  (record {
                    no_letter = λ r h. escape_rune-none c r missing h;
                    first_digit = digit;
                    more_digit = all;
                    at_most = most;
                    longest = longest;
                  })
                  (decimal_escape-cases (c ∷ (more_digits u 2 cs m).0) _ refl)
                  (λ o. good o (more_digits u 2 cs m).1 (omega (arith, length-Passes p))))
        ]
      ]

  scan_round-Spelled :
      (quote : ℕ) (again : Text → Lexer → StringScan) (output cs : Text) (l : Lexer)
      → l.rest ≡ cs
      → Continues quote again (length cs)
      → Spelled quote l output (scan_round u quote again output cs l)
  unfolding scan_round
  scan_round-Spelled quote again output [] l e good = ([], [], l, Passes-refl l, nothing, e)
  scan_round-Spelled quote again output (c ∷ cs) l e good =
      let m = over c cs l in
      let p = Passes-over c cs l e (Passes-refl m) in
      elim (Bool-cases (c == quote)) [
        | inl closing ↦
            let same = (==_iff c quote).0 closing in
            rw closing
              ([], [], subst (λ q. Passes l (q ∷ []) m) same p, nothing, sym (append-nil output))
        | inr inside ↦ elim (Bool-cases (c == b'\\')) [
          | inl escape ↦
              let slash = (==_iff c b'\\').0 escape in
              rw (inside, escape)
                (scan_escape-Spelled quote again output cs l m (e ∙ ap (λ x. x ∷ cs) slash)
                  (ap (λ x. over x cs l) slash) (λ o n h. good o n (omega (arith, h))))
          | inr other ↦
              rw (inside, other)
                (Spelled-after quote l m output (c ∷ []) c (again (output ++ c ∷ []) m) p
                  (λ rest b v h body.
                    plain c (λ q. cc (inside, (==_iff c quote).1 q))
                      (λ q. cc (other, (==_iff c b'\\').1 q)) body)
                  (good (output ++ c ∷ []) m (omega arith)))
        ]
      ]

  scan_rounds-Spelled :
      (fuel quote : ℕ) (output : Text) (l : Lexer)
      → length l.rest < fuel
      → Spelled quote l output (scan_rounds u fuel quote output l)
  unfolding scan_rounds
  scan_rounds-Spelled zero quote output l h = elim h [ ]
  scan_rounds-Spelled (suc fuel) quote output l h =
      scan_round-Spelled quote (scan_rounds u fuel quote) output l.rest l refl
        (λ o m k. scan_rounds-Spelled fuel quote o m (omega arith))

  -- When scanString returns a string, it has passed a text and the closing quote, and the text
  -- spells the string: each rune is itself, the escape of a letter, or an escape of one to three
  -- digits, as many as there are, with its value of at most 255. When it fails, it has passed such
  -- a text, and the error names what is next: the end of the input, a backslash at its end, a
  -- backslash and a rune that is neither the letter of an escape nor a digit, or digits with no
  -- such value. It has enough fuel.
  pub scan_string-Spelled : (quote : ℕ) (l : Lexer) → Spelled quote l [] (scan_string u quote l)
  unfolding scan_string
  scan_string-Spelled quote l = scan_rounds-Spelled (suc (length l.rest)) quote [] l (omega arith)
