-- ===== src/Luasv/Parser/Total.antt =====
-- `ParseVariable` ends: the fuel that the model gives it is enough.
use wow_markets.Base.{
  ℕ, zero, suc, ◌+◌, ◌-◌, ◌≤◌, ◌<◌, ◌≡◌, refl, length, arith, Bool-cases, inl, inr, Option-cases,
  Result, ok, err, ◌>>=◌, or_error, codes, str_eq,
}
use wow_markets.Base.Strings.{Text}
use wow_markets.Luasv.Token.{Kind, Token, Unicode, Error, not_a_table}
use wow_markets.Luasv.Cursor.{Lexer, new_lexer, skip_ignored}
use wow_markets.Luasv.Cursor.Passes.{Passes}
use wow_markets.Luasv.Lexer.{next}
use wow_markets.Luasv.Lexer.Passes.{Takes, next-Takes}
use wow_markets.Luasv.Value.{Value, new_table, as_table}
use wow_markets.Luasv.Monad.{Parser, Parse, is_kind}
use wow_markets.Luasv.Parser.{
  advance, consume, table_entries, parse_table, parse_value, optional_semicolon, assignment,
  parse_document, new_parser, parse_variable, document_fuel,
}
use wow_markets.Luasv.Parser.Within.{
  live, size, Within, Starts, Genuine, Within-bind, Within-le, is_identifier, not_eof, Takes-live,
  consume-Within, optional_semicolon-Within,
}
use wow_markets.Luasv.Parser.Entries.{Values, advance_past, value_with-Within, table_entries-Within}

module _ (u : Unicode) where
  parse_table-Within :
      (value : Parse Value) (bound : ℕ)
      → Values u bound value
      → (p : Parser) (n : ℕ) → size p ≤ suc n
      → n ≤ bound
      → Within n (parse_table u (suc bound) value p)
  unfolding parse_table
  parse_table-Within value bound good p n h b =
      Within-bind n n (consume u Kind.left_brace (codes "{") p) _
        (consume-Within u Kind.left_brace (codes "{") p n refl h)
        λ _ q hq.
          Within-bind n n (table_entries u (suc bound) value new_table q) _
            (table_entries-Within u value bound good (suc bound) new_table q n hq b (omega arith))
            λ t r hr.
              Within-bind n n (consume u Kind.right_brace (codes "}") r) _
                (consume-Within u Kind.right_brace (codes "}") r n refl (omega arith))
                λ _ r' hr'. hr'

  parse_value-Within : (fuel : ℕ) → Values u fuel (parse_value u fuel)
  unfolding parse_value
  parse_value-Within zero p n h b = elim b [ ]
  parse_value-Within (suc fuel) p n h b =
      value_with-Within u (parse_table u (suc fuel) (parse_value u fuel)) (suc fuel)
        (λ q k hq hk.
          parse_table-Within (parse_value u fuel) fuel (parse_value-Within fuel) q k hq
            (omega arith))
        p n p.current.kind h b refl

  assignment-Within :
      (fuel : ℕ) (p : Parser) (n : ℕ)
      → p.current.kind ≡ Kind.identifier
      → size p ≤ suc n
      → n < fuel
      → Within n (assignment u fuel p)
  unfolding assignment
  assignment-Within fuel p n e h b =
      Within-bind n n (advance u p) _ (advance_past u p n Kind.identifier h e refl) λ _ q hq.
        Within-bind n n (consume u Kind.equal (codes "=") q) _
          (consume-Within u Kind.equal (codes "=") q n refl (omega arith))
          λ _ r hr.
            Within-bind n n (parse_value u fuel r) _ (parse_value-Within fuel r n (omega arith) b)
              λ v r' hr'. hr'

  parse_document-Within :
      (fuel : ℕ) (name : Text) (p : Parser) (n : ℕ)
      → size p ≤ n
      → n < fuel
      → Within n (parse_document u fuel name p)
  unfolding parse_document
  parse_document-Within zero name p n h b = elim b [ ]
  parse_document-Within (suc fuel) name p n h b =
      elim (Bool-cases (is_kind p.current.kind Kind.eof)) [
        | inl end ↦ rw (end, parse_document) tt
        | inr more ↦ elim (Bool-cases (is_kind p.current.kind Kind.identifier)) [
          | inr other ↦ rw (more, other, parse_document) tt
          | inl named ↦
              rw (more, named, parse_document)
                (let m = n - 1 in
                  let positive : 0 < n = omega (arith, not_eof p.current.kind more) in
                  Within-le m n _ (omega arith) (
                    Within-bind m m (assignment u fuel p) _
                      (assignment-Within fuel p m (is_identifier p.current.kind named) (omega arith)
                        (omega arith))
                      λ a q hq. elim (Bool-cases (str_eq a.0 name)) [
                        | inl wanted ↦ rw wanted hq
                        | inr other ↦ rw other (
                            Within-bind m m (optional_semicolon u q) _
                              (optional_semicolon-Within u q m hq)
                              λ _ r hr. parse_document-Within fuel name r m hr (omega arith))
                      ]))
        ]
      ]

  -- Both of the first two tokens are taken from the input.
  second_token :
      (n : ℕ) (l : Lexer) (t : Token) (r : Result Error (Token × Lexer))
      → length l.rest + live t.kind ≤ n
      → ((s : Text) × Passes l s (skip_ignored l)) × Takes (skip_ignored l) r
      → Starts n (r >>= (λ peek. ok (record { lexer = peek.1; current = t; peek = peek.0 })))
  second_token n l t (ok (t', l')) h ((s, q), takes) =
      omega (arith, Takes-live l (skip_ignored l) l' t' s q takes)
  second_token n l t (err e) h (q, g) = g

  first_token :
      (l : Lexer) (r : Result Error (Token × Lexer))
      → ((s : Text) × Passes l s (skip_ignored l)) × Takes (skip_ignored l) r
      → Starts (length l.rest) (
          r >>= (λ current.
            next u current.1
            >>= (λ peek. ok (record { lexer = peek.1; current = current.0; peek = peek.0 }))))
  first_token l (ok (t, l')) ((s, q), takes) =
      second_token (length l.rest) l' t (next u l') (Takes-live l (skip_ignored l) l' t s q takes)
        (next-Takes u l')
  first_token l (err e) (q, g) = g

  new_parser-Starts : (input : Text) → Starts (length input) (new_parser u input)
  unfolding new_parser
  new_parser-Starts input =
      first_token (new_lexer input) (next u (new_lexer input)) (next-Takes u (new_lexer input))

  as_table-IsGenuine :
      (n : ℕ) (name : Text) (r : Result Error (Value × Parser))
      → Within n r
      → Genuine (r >>= (λ parsed. or_error (as_table parsed.0) (not_a_table name)))
  as_table-IsGenuine n name (ok (v, p)) h = elim (Option-cases (as_table v)) [
    | inl e ↦ rw (e, Genuine) tt
    | inr (t, e) ↦ rw (e, Genuine) tt
  ]
  as_table-IsGenuine n name (err e) h = h

  -- Whatever the file holds, `ParseVariable` ends: it returns a table or one of its own errors,
  -- and never stops for want of the fuel that the model gives its loops and its nesting.
  pub parse_variable-IsGenuine : (content name : Text) → Genuine (parse_variable u content name)
  unfolding parse_variable
  parse_variable-IsGenuine content name = start (new_parser u content) (new_parser-Starts content)
    where
      start :
          (r : Result Error Parser)
          → Starts (length content) r
          → Genuine (
              r >>= (λ p.
                parse_document u (document_fuel content) name p
                >>= (λ parsed. or_error (as_table parsed.0) (not_a_table name))))
      start (ok p) h =
          as_table-IsGenuine (length content) name _
            (parse_document-Within (document_fuel content) name p (length content) h (omega arith))
      start (err e) h = h
