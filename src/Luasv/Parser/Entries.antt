-- ===== src/Luasv/Parser/Entries.antt =====
-- The values and the entries of a table take tokens, and `parseTable`'s loop ends.
use wow_markets.Base.{
  ℕ, zero, suc, ◌-◌, ◌≤◌, ◌<◌, ◌≡◌, refl, ap, ◌&&◌, arith, Bool-cases, inl, inr, codes,
}
use native.Mathlib.Nat.{le_refl}
use wow_markets.Luasv.Token.{Kind, Token, Unicode}
use wow_markets.Luasv.Value.{Value, Table}
use wow_markets.Luasv.Monad.{Parser, Parse, ◌>>◌, is_kind}
use wow_markets.Luasv.Parser.{
  number_value, advance, consume, parse_bracket_key, value_with, bracket_entry, named_entry,
  array_entry, table_entry, separator, table_entries,
}
use wow_markets.Luasv.Parser.Within.{
  live, size, Within, Within-bind, Within-le, is_identifier, not_eof, advance-Within,
  consume-Within, separator-Within, parse_bracket_key-Within,
}

module _ (u : Unicode) where
  -- A value takes a token at least, from any parser with less than `bound` ahead.
  abbrev pub Values : ℕ → Parse Value → Type 0
  Values bound value = (p : Parser) (n : ℕ) → size p ≤ suc n → n < bound → Within n (value p)

  abbrev pub Tables : ℕ → Parse Table → Type 0
  Tables bound read = (p : Parser) (n : ℕ) → size p ≤ suc n → n < bound → Within n (read p)

  pub number_value-Within : (t : Token) (p : Parser) → Within (size p) (number_value t p)
  unfolding number_value
  number_value-Within t p = ground arith

  pub advance_past :
      (p : Parser) (n : ℕ) (k : Kind)
      → size p ≤ suc n
      → p.current.kind ≡ k
      → live k ≡ 1
      → Within n (advance u p)
  advance_past p n k h e l = advance-Within u p n (omega (arith, ap live e))

  pub scalar-Within {ℓ} :
      {A : Type ℓ} (p : Parser) (n : ℕ) (k : Kind) (f : Parse A)
      → size p ≤ suc n
      → p.current.kind ≡ k
      → live k ≡ 1
      → ((q : Parser) → Within (size q) (f q))
      → Within n ((advance u >> f) p)
  scalar-Within p n k f h e l good =
      Within-bind n n (advance u p) (λ _. f) (advance_past p n k h e l)
        (λ _ q hq. Within-le (size q) n (f q) hq (good q))

  pub value_with-Within :
      (read : Parse Table) (bound : ℕ)
      → Tables bound read
      → (p : Parser) (n : ℕ) (k : Kind) → size p ≤ suc n
      → n < bound
      → p.current.kind ≡ k
      → Within n (value_with u read p.current k p)
  unfolding value_with
  value_with-Within read bound good p n Kind.string h b e =
      scalar-Within p n Kind.string _ h e refl (λ q. le_refl (size q))
  value_with-Within read bound good p n Kind.number h b e =
      scalar-Within p n Kind.number (number_value p.current) h e refl
        (number_value-Within p.current)
  value_with-Within read bound good p n Kind.true_word h b e =
      scalar-Within p n Kind.true_word _ h e refl (λ q. le_refl (size q))
  value_with-Within read bound good p n Kind.false_word h b e =
      scalar-Within p n Kind.false_word _ h e refl (λ q. le_refl (size q))
  value_with-Within read bound good p n Kind.nil_word h b e =
      scalar-Within p n Kind.nil_word _ h e refl (λ q. le_refl (size q))
  value_with-Within read bound good p n Kind.left_brace h b e =
      Within-bind n n (read p) _ (good p n h b) (λ t q hq. hq)
  value_with-Within read bound good p n _ h b e = tt

  module _ (value : Parse Value) (bound : ℕ) (good : Values bound value) (t : Table) where
    pub bracket_entry-Within :
        (p : Parser) (n : ℕ) → size p ≤ suc n → n < bound → Within n (bracket_entry u value t p)
    unfolding bracket_entry
    bracket_entry-Within p n h b =
        Within-bind n n (parse_bracket_key u p) _ (parse_bracket_key-Within u p n h) λ key q hq.
          Within-bind n n (consume u Kind.equal (codes "=") q) _
            (consume-Within u Kind.equal (codes "=") q n refl (omega arith))
            λ _ r hr. Within-bind n n (value r) _ (good r n (omega arith) b) λ v r' hr'. hr'

    pub named_entry-Within :
        (p : Parser) (n : ℕ)
        → p.current.kind ≡ Kind.identifier
        → size p ≤ suc n
        → n < bound
        → Within n (named_entry u value t p)
    unfolding named_entry
    named_entry-Within p n e h b =
        Within-bind n n (advance u p) _ (advance_past p n Kind.identifier h e refl) λ _ q hq.
          Within-bind n n (consume u Kind.equal (codes "=") q) _
            (consume-Within u Kind.equal (codes "=") q n refl (omega arith))
            λ _ r hr. Within-bind n n (value r) _ (good r n (omega arith) b) λ v r' hr'. hr'

    pub array_entry-Within :
        (p : Parser) (n : ℕ) → size p ≤ suc n → n < bound → Within n (array_entry u value t p)
    unfolding array_entry
    array_entry-Within p n h b = Within-bind n n (value p) _ (good p n h b) λ v q hq. hq

    pub table_entry-Within :
        (p : Parser) (n : ℕ) → size p ≤ suc n → n < bound → Within n (table_entry u value t p)
    unfolding table_entry
    table_entry-Within p n h b = elim (Bool-cases (is_kind p.current.kind Kind.left_bracket)) [
      | inl bracket ↦ rw (bracket, table_entry) (bracket_entry-Within p n h b)
      | inr other ↦
          elim (Bool-cases
            (is_kind p.current.kind Kind.identifier && is_kind p.peek.kind Kind.equal)) [
              | inl named ↦
                  rw (other, named, table_entry)
                    (named_entry-Within p n (is_identifier p.current.kind (ground arith)) h b)
              | inr plain ↦ rw (other, plain, table_entry) (array_entry-Within p n h b)
            ]
    ]

  -- A parser that is not at the end has something ahead.
  pub table_entries-Within :
      (value : Parse Value) (bound : ℕ)
      → Values bound value
      → (fuel : ℕ) (t : Table) (p : Parser) (n : ℕ) → size p ≤ n
      → n ≤ bound
      → n < fuel
      → Within n (table_entries u fuel value t p)
  unfolding table_entries
  table_entries-Within value bound good zero t p n h b f = elim f [ ]
  table_entries-Within value bound good (suc fuel) t p n h b f =
      elim (Bool-cases (is_kind p.current.kind Kind.right_brace)) [
        | inl closing ↦ rw (closing, table_entries) h
        | inr open_ ↦ elim (Bool-cases (is_kind p.current.kind Kind.eof)) [
          | inl end ↦ rw (open_, end, table_entries) tt
          | inr more ↦
              rw (open_, more, table_entries)
                (let positive : 0 < n = omega (arith, not_eof p.current.kind more) in
                  let e : n ≡ suc (n - 1) = omega arith in
                  Within-le (n - 1) n _ (omega arith) (
                    Within-bind (n - 1) (n - 1) (table_entry u value t p) _
                      (table_entry-Within value bound good t p (n - 1) (omega arith) (omega arith))
                      λ t' q hq.
                        Within-bind (n - 1) (n - 1) (separator u q) _
                          (separator-Within u q (n - 1) hq)
                          λ _ r hr.
                            table_entries-Within value bound good fuel t' r (n - 1) hr (omega arith)
                              (omega arith)))
        ]
      ]
