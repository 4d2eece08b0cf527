-- ===== src/Luasv/Parser.antt =====
-- The parser of `parser.go`.
pub mod Within
mod Entries
pub mod Total
use wow_markets.Base.{
  ℕ, zero, suc, ◌+◌, Bool, true, false, not, ◌&&◌, ◌||◌, [], ◌∷◌, ◌++◌, Option, none, some, ◌==◌,
  ltb, if◌then◌else◌, length, Result, ok, err, or_error, codes, str_eq,
}
use wow_markets.Base.{◌>>=◌ as bind}
use wow_markets.Base.Int.{ℤ, pos, negsuc}
use wow_markets.Base.Maps.{insert, text_key, nat_key}
use wow_markets.Base.Numbers.{parse_int64, is_float}
use wow_markets.Base.Strings.{Text}
use wow_markets.Luasv.Token.{
  Kind, Token, Unicode, Error, invalid_number, invalid_integer, invalid_index, not_found,
  not_a_table, out_of_fuel,
}
use wow_markets.Luasv.Cursor.{Lexer, new_lexer}
use wow_markets.Luasv.Lexer.{next}
use wow_markets.Luasv.Value.{
  Value, Table, new_table, to_value, as_table, nil, boolean, integer, float, string,
}
use wow_markets.Luasv.Monad.{
  Parser, Parse, ◌>>=◌, ◌>>◌, pure, fail, current_token, fail_unexpected, is_kind,
}

-- A key in brackets: `any`, holding a string or an int.
pub data TableKey : Type 0 where
  name_key : Text → TableKey
  index_key : ℕ → TableKey

unfoldable pub assign : Table → TableKey → Value → Table
unfolding insert
assign t (name_key k) v = record t { fields = insert k v t.fields }
assign t (index_key k) v = record t { indexed = insert k v t.indexed }

-- Every round of a loop and every level of nesting passes a token, and a token is a rune or more.
abbrev pub document_fuel : Text → ℕ
document_fuel content = length content + 3

-- `strings.ContainsAny(text, ".eE")`
unfoldable pub has_point : Text → Bool
has_point [] = false
has_point (c ∷ cs) = (c == b'.' || c == b'e' || c == b'E') || has_point cs

-- The switch of `parseBracketKey`.
unfoldable pub bracket_key : Token → Kind → Parse TableKey
bracket_key t Kind.string = pure (name_key t.text)
bracket_key t Kind.number = elim (parse_int64 t.text) [
  | some (pos (suc n)) ↦ pure (index_key (suc n))
  | _ ↦ fail (invalid_index t.line t.column t.text)
]
bracket_key t _ = fail_unexpected (codes "string or positive integer table key")

-- A number token behind the `advance` of `parseValue`.
unfoldable pub number_value : Token → Parse Value
unfolding has_point
number_value t =
    if not (has_point t.text)
    then elim (parse_int64 t.text) [
      | some n ↦ pure (integer n)
      | none ↦ fail (invalid_integer t.line t.column t.text)
    ]
    else if is_float t.text
    then pure (float t.text)
    else fail (invalid_number t.line t.column t.text)

module _ (u : Unicode) where
  abbrev pub advanced : Parser → Result Error (Token × Lexer) → Result Error (Unit {0} × Parser)
  advanced p (ok (t, l)) = ok (tt, record { lexer = l; current = p.peek; peek = t })
  advanced p (err e) = err e

  unfoldable pub advance : Parse (Unit {0})
  advance p = advanced p (next u p.lexer)

  unfoldable pub consume : Kind → Text → Parse (Unit {0})
  consume kind description p =
      if is_kind p.current.kind kind then advance p else fail_unexpected description p

  unfoldable pub parse_bracket_key : Parse TableKey
  parse_bracket_key = do
    consume Kind.left_bracket (codes "[")
    t ← current_token
    key ← bracket_key t t.kind
    advance
    consume Kind.right_bracket (codes "]")
    pure key

  -- `parseValue`, given `parseTable`.
  unfoldable pub value_with : Parse Table → Token → Kind → Parse Value
  value_with parse_table t Kind.string = do advance; pure (string t.text)
  value_with parse_table t Kind.number = do advance; number_value t
  value_with parse_table t Kind.true_word = do advance; pure (boolean true)
  value_with parse_table t Kind.false_word = do advance; pure (boolean false)
  value_with parse_table t Kind.nil_word = do advance; pure nil
  value_with parse_table t Kind.left_brace = do t' ← parse_table; pure (to_value t')
  value_with parse_table t _ = fail_unexpected (codes "value")

  unfoldable pub bracket_entry : Parse Value → Table → Parse Table
  bracket_entry parse_value t = do
    key ← parse_bracket_key
    consume Kind.equal (codes "=")
    value ← parse_value
    pure (assign t key value)

  unfoldable pub named_entry : Parse Value → Table → Parse Table
  named_entry parse_value t = do
    name ← current_token
    advance
    consume Kind.equal (codes "=")
    value ← parse_value
    pure (assign t (name_key name.text) value)

  unfoldable pub array_entry : Parse Value → Table → Parse Table
  array_entry parse_value t = do
    value ← parse_value
    pure (record t { array = t.array ++ value ∷ [] })

  -- The switch in `parseTable`'s loop.
  unfoldable pub table_entry : Parse Value → Table → Parse Table
  table_entry parse_value t p =
      if is_kind p.current.kind Kind.left_bracket
      then bracket_entry parse_value t p
      else if is_kind p.current.kind Kind.identifier && is_kind p.peek.kind Kind.equal
      then named_entry parse_value t p
      else array_entry parse_value t p

  unfoldable pub separator : Parse (Unit {0})
  separator p =
      if is_kind p.current.kind Kind.comma || is_kind p.current.kind Kind.semicolon
      then advance p
      else ok (tt, p)

  -- `parseTable`'s loop, up to the closing brace.
  unfoldable pub table_entries : ℕ → Parse Value → Table → Parse Table
  table_entries zero parse_value t p = err out_of_fuel
  table_entries (suc fuel) parse_value t p =
      let entry = table_entry parse_value t in
      let more = entry >>= (λ t'. separator >> table_entries fuel parse_value t') in
      if is_kind p.current.kind Kind.right_brace
      then ok (t, p)
      else if is_kind p.current.kind Kind.eof
      then fail_unexpected (codes "}") p
      else more p

  unfoldable pub parse_table : ℕ → Parse Value → Parse Table
  parse_table fuel parse_value = do
    consume Kind.left_brace (codes "{")
    t ← table_entries fuel parse_value new_table
    consume Kind.right_brace (codes "}")
    pure t

  -- `parseValue`; the fuel bounds the depth of nesting and the entries of a table.
  unfoldable pub parse_value : ℕ → Parse Value
  parse_value zero p = err out_of_fuel
  parse_value (suc fuel) p =
      value_with (parse_table (suc fuel) (parse_value fuel)) p.current p.current.kind p

  unfoldable pub optional_semicolon : Parse (Unit {0})
  optional_semicolon p = if is_kind p.current.kind Kind.semicolon then advance p else ok (tt, p)

  -- One assignment of the document: its name and value.
  unfoldable pub assignment : ℕ → Parse (Text × Value)
  assignment fuel = do
    name ← current_token
    advance
    consume Kind.equal (codes "=")
    value ← parse_value fuel
    pure (name.text, value)

  -- `parseDocument`
  unfoldable pub parse_document : ℕ → Text → Parse Value
  parse_document zero variable_name p = err out_of_fuel
  parse_document (suc fuel) variable_name p =
      let rest = optional_semicolon >> parse_document fuel variable_name in
      let body =
        assignment fuel
        >>= (λ named. if str_eq named.0 variable_name then pure named.1 else rest) in
      if is_kind p.current.kind Kind.eof
      then err (not_found variable_name)
      else if is_kind p.current.kind Kind.identifier
      then body p
      else fail_unexpected (codes "top-level variable name") p

  unfoldable pub new_parser : Text → Result Error Parser
  new_parser input = bind (next u (new_lexer input)) (λ current.
      bind (next u current.1)
        (λ peek. ok (record { lexer = peek.1; current = current.0; peek = peek.0 })))

  -- `ParseVariable` on the content of the file.
  unfoldable pub parse_variable : Text → Text → Result Error Table
  parse_variable content variable_name = bind (new_parser content) (λ p.
      bind (parse_document (document_fuel content) variable_name p)
        (λ parsed. or_error (as_table parsed.0) (not_a_table variable_name)))
