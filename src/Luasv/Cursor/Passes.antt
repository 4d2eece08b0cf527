-- ===== src/Luasv/Cursor/Passes.antt =====
-- A lexer passes a text: what it leaves, and the line and column that it reaches.
use wow_markets.Base.{
  ℕ, zero, suc, ◌+◌, ◌≤◌, ◌<◌, ◌≡◌, ◌≢◌, ==_iff, refl, sym, ap, subst, ◌∙◌, Bool, true, false, [],
  ◌∷◌, ◌++◌, append_assoc, ◌==◌, if◌then◌else◌, length, length-append, ◌&&◌, arith, Bool-cases, inl,
  inr,
}
use wow_markets.Base.Strings.{Text, is_space}
use wow_markets.Luasv.Cursor.{
  Lexer, over, take_while, is_dash, off_newline, skip_round, skip_rounds, skip_ignored,
}

-- The number of line feeds.
abbrev pub newlines : Text → ℕ
newlines [] = 0
newlines (c ∷ cs) = (if c == b'\n' then 1 else 0) + newlines cs

-- The column behind a text that starts at a column.
abbrev pub column_after : ℕ → Text → ℕ
column_after n [] = n
column_after n (c ∷ cs) = column_after (if c == b'\n' then 1 else n + 1) cs

pub record Passes (l : Lexer) (text : Text) (l' : Lexer) : Type 0 where
  pub rest : l.rest ≡ text ++ l'.rest
  pub line : l'.line ≡ l.line + newlines text
  pub column : l'.column ≡ column_after l.column text

pub Passes-refl : (l : Lexer) → Passes l [] l
Passes-refl l = record { rest = refl; line = omega arith; column = refl }

pub Passes-over :
    (c : ℕ) (cs : Text) (l : Lexer) {text : Text} {l' : Lexer}
    → l.rest ≡ c ∷ cs
    → Passes (over c cs l) text l'
    → Passes l (c ∷ text) l'
Passes-over c cs l e p = record {
  rest = e ∙ ap (◌∷◌ c) p.rest;
  line = ground (arith, p.line);
  column = p.column;
}

newlines-append : (xs ys : Text) → newlines (xs ++ ys) ≡ newlines xs + newlines ys
newlines-append [] ys = omega arith
newlines-append (x ∷ xs) ys = omega (arith, newlines-append xs ys)

column_after-append :
    (n : ℕ) (xs ys : Text) → column_after n (xs ++ ys) ≡ column_after (column_after n xs) ys
column_after-append n [] ys = refl
column_after-append n (x ∷ xs) ys = column_after-append (if x == b'\n' then 1 else n + 1) xs ys

pub Passes-trans : {l m n : Lexer} (s t : Text) → Passes l s m → Passes m t n → Passes l (s ++ t) n
Passes-trans {l} {m} {n} s t p q = record {
  rest = p.rest ∙ ap (λ (r : Text). s ++ r) q.rest ∙ sym (append_assoc s t n.rest);
  line = omega (arith, p.line, q.line, newlines-append s t);
  column =
      q.column ∙ ap (λ (k : ℕ). column_after k t) p.column ∙ sym (column_after-append l.column s t);
}

-- What is left is shorter by the length of the text.
pub length-Passes :
    {l l' : Lexer} {text : Text} → Passes l text l' → length l.rest ≡ length text + length l'.rest
length-Passes {l} {l'} {text} p = ap length p.rest ∙ length-append text l'.rest

pub take_while-Passes :
    (test : ℕ → Bool) (cs : Text) (l : Lexer)
    → l.rest ≡ cs
    → Passes l (take_while test cs l).0 (take_while test cs l).1
unfolding take_while
take_while-Passes test [] l e = Passes-refl l
take_while-Passes test (c ∷ cs) l e = elim (Bool-cases (test c)) [
  | inl h ↦ rw h (Passes-over c cs l e (take_while-Passes test cs (over c cs l) refl))
  | inr h ↦ rw h (Passes-refl l)
]

-- Neither a space nor a comment is next.
abbrev pub Settled : Text → Type 0
Settled [] = Unit
Settled (c ∷ cs) = (is_space c ≡ false) × ((c ≡ b'-') → is_dash cs ≡ false)

abbrev pub OffLine : Text → Type 0
OffLine [] = Unit
OffLine (c ∷ cs) = (c ≢ b'\n') × OffLine cs

abbrev pub EndsLine : Text → Type 0
EndsLine [] = Unit
EndsLine (c ∷ cs) = c ≡ b'\n'

-- A text of spaces and comments, where a rest follows it. A comment is two dashes and what follows
-- on its line, up to the line's end or the input's.
pub data Ignored (rest : Text) : Text → Type 0 where
  nothing : Ignored rest []
  space : (c : ℕ) {t : Text} → is_space c ≡ true → Ignored rest t → Ignored rest (c ∷ t)
  comment :
      (body : Text) {t text : Text}
      → text ≡ b'-' ∷ b'-' ∷ (body ++ t)
      → OffLine body
      → EndsLine (t ++ rest)
      → Ignored rest t
      → Ignored rest text

-- A lexer reached from `l` over spaces and comments, with something to read or at the end.
abbrev pub Skips : Lexer → Lexer → Type 0
Skips l m = ((text : Text) × Passes l text m × Ignored m.rest text) × Settled m.rest

Skips-after :
    {l m n : Lexer} (s : Text)
    → Passes l s m
    → ((rest t : Text) → m.rest ≡ t ++ rest → Ignored rest t → Ignored rest (s ++ t))
    → Skips m n
    → Skips l n
Skips-after {l} {m} {n} s p grow ((t, q, ignored), settled) =
    ((s ++ t, Passes-trans s t p q, grow n.rest t q.rest ignored), settled)

-- Every rune passes the test, and the next does not.
abbrev pub Run : (ℕ → Bool) → Text → Type 0
Run test [] = Unit
Run test (c ∷ cs) = (test c ≡ true) × Run test cs

abbrev pub Halts : (ℕ → Bool) → Text → Type 0
Halts test [] = Unit
Halts test (c ∷ cs) = test c ≡ false

pub take_while-Run :
    (test : ℕ → Bool) (cs : Text) (l : Lexer)
    → l.rest ≡ cs
    → Run test (take_while test cs l).0 × Halts test (take_while test cs l).1.rest
unfolding take_while
take_while-Run test [] l e = (tt, rw e tt)
take_while-Run test (c ∷ cs) l e = elim (Bool-cases (test c)) [
  | inl h ↦ let (run, halts) = take_while-Run test cs (over c cs l) refl in rw h ((h, run), halts)
  | inr h ↦ rw h (tt, rw e h)
]

Run-OffLine : (cs : Text) → Run off_newline cs → OffLine cs
Run-OffLine [] r = tt
Run-OffLine (c ∷ cs) (h, r) = (λ e. ground (arith, h), Run-OffLine cs r)

Halts-EndsLine : (cs : Text) → Halts off_newline cs → EndsLine cs
Halts-EndsLine [] h = tt
Halts-EndsLine (c ∷ cs) h = ground (arith, h)

-- What is passed at a comment is ignored.
abbrev Comments : Text → Lexer → Type 0
Comments s l =
    (rest t : Text)
    → (take_while off_newline s l).1.rest ≡ t ++ rest
    → Ignored rest t
    → Ignored rest ((take_while off_newline s l).0 ++ t)

dashes-Comments : (cs : Text) (l : Lexer) → Comments (b'-' ∷ b'-' ∷ cs) l
unfolding take_while
dashes-Comments cs l rest t h ignored =
    let m = over b'-' cs (over b'-' (b'-' ∷ cs) l) in
    let (run, halts) = take_while-Run off_newline cs m refl in
    comment (take_while off_newline cs m).0 refl (Run-OffLine _ run)
      (subst EndsLine h (Halts-EndsLine _ halts)) ignored

dash-Comments :
    (c : ℕ) (cs : Text) (l : Lexer) → (c == b'-') ≡ true → is_dash cs ≡ true → Comments (c ∷ cs) l
dash-Comments c [] l first second = cc
dash-Comments c (d ∷ cs) l first second =
    subst (λ x. Comments (x ∷ d ∷ cs) l) (sym ((==_iff c b'-').0 first))
      (subst (λ x. Comments (b'-' ∷ x ∷ cs) l) (sym ((==_iff d b'-').0 second))
        (dashes-Comments cs l))

take_while_le :
    (test : ℕ → Bool) (cs : Text) (l : Lexer)
    → l.rest ≡ cs
    → length (take_while test cs l).1.rest ≤ length cs
take_while_le test cs l e =
    omega (arith, length-Passes (take_while-Passes test cs l e), ap length e)

-- A comment's first dash is passed, so the comment is not empty.
comment_lt :
    (c : ℕ) (cs : Text) (l : Lexer)
    → (c == b'-') ≡ true
    → length (take_while off_newline (c ∷ cs) l).1.rest < suc (length cs)
unfolding take_while
comment_lt c cs l h = ground (arith, take_while_le off_newline cs (over c cs l) refl)

skip_round-Skips :
    (again : Lexer → Lexer) (cs : Text) (l : Lexer)
    → l.rest ≡ cs
    → ((m : Lexer) → length m.rest < length cs → Skips m (again m))
    → Skips l (skip_round again cs l)
unfolding skip_round
skip_round-Skips again [] l e good = (([], Passes-refl l, nothing), rw e tt)
skip_round-Skips again (c ∷ cs) l e good = elim (Bool-cases (is_space c)) [
  | inl blank ↦ rw blank (
      Skips-after (c ∷ []) (Passes-over c cs l e (Passes-refl (over c cs l)))
        (λ rest t h ignored. Ignored.space c blank ignored) (good (over c cs l) (omega arith)))
  | inr other ↦ elim (Bool-cases (c == b'-' && is_dash cs)) [
    | inl dashes ↦
        rw (other, dashes)
          (Skips-after _ (take_while-Passes off_newline (c ∷ cs) l e)
            (dash-Comments c cs l (ground arith) (ground arith))
            (good _ (comment_lt c cs l (ground arith))))
    | inr text ↦ rw (other, text) (([], Passes-refl l, nothing), rw e (other, λ d. ground arith))
  ]
]

skip_rounds-Skips : (fuel : ℕ) (l : Lexer) → length l.rest < fuel → Skips l (skip_rounds fuel l)
unfolding skip_rounds
skip_rounds-Skips zero l h = elim h [ ]
skip_rounds-Skips (suc fuel) l h =
    skip_round-Skips (skip_rounds fuel) l.rest l refl
      (λ m k. skip_rounds-Skips fuel m (omega arith))

pub skip_ignored-Skips : (l : Lexer) → Skips l (skip_ignored l)
unfolding skip_ignored
skip_ignored-Skips l = skip_rounds-Skips (suc (length l.rest)) l (omega arith)
