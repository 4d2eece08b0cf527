-- ===== src/Exportfmt/Fields.antt =====
-- The readers of a table's fields at the end of `export.go`, and `validateFields`.
pub mod Reads
use wow_markets.Base.{
  ℕ, suc, ◌+◌, Bool, true, false, List, [], ◌∷◌, Option, none, some, ◌==◌, if◌then◌else◌, length,
  Result, ok, err, ◌>>=◌, ◌>>◌, require, reject, wrap, or_error, str_eq, is_empty,
}
use wow_markets.Base.Int.{ℤ, eq_ℤ, wrap64}
use wow_markets.Base.Strings.{Text}
use wow_markets.Luasv.Value.{Value, Table, as_table, as_string, as_integer, as_boolean, table_field}
use wow_markets.Luasv.Sequence.{sequence}
use wow_markets.Exportfmt.Scan.{Error, a_table, a_string, an_integer, a_boolean}

abbrev field : Table → Text → Result Error Value
field t name = or_error (table_field t name) (Error.missing name)

unfoldable pub value_string : Value → Text → Result Error Text
unfolding as_string
value_string value name = or_error (as_string value) (Error.wrong_type name a_string)

unfoldable pub value_int64 : Value → Text → Result Error ℤ
unfolding as_integer
value_int64 value name = or_error (as_integer value) (Error.wrong_type name an_integer)

unfoldable pub value_int : Value → Text → Result Error ℤ
unfolding value_int64
value_int value name = do
  result ← value_int64 value name
  let converted = wrap64 result
  require (eq_ℤ converted result) (Error.outside_int_range name)
  ok converted

unfoldable pub field_table : Table → Text → Result Error Table
unfolding as_table table_field
field_table t name = do
  value ← field t name
  or_error (as_table value) (Error.wrong_type name a_table)

unfoldable pub string_field : Table → Text → Result Error Text
unfolding value_string table_field
string_field t name = do value ← field t name; value_string value name

unfoldable pub non_empty_string_field : Table → Text → Result Error Text
unfolding string_field
non_empty_string_field t name = do
  value ← string_field t name
  reject (is_empty value) (Error.must_not_be_empty name)
  ok value

unfoldable pub int_field : Table → Text → Result Error ℤ
unfolding value_int table_field
int_field t name = do value ← field t name; value_int value name

unfoldable pub int64_field : Table → Text → Result Error ℤ
unfolding value_int64 table_field
int64_field t name = do value ← field t name; value_int64 value name

unfoldable pub bool_field : Table → Text → Result Error Bool
unfolding as_boolean table_field
bool_field t name = do
  value ← field t name
  or_error (as_boolean value) (Error.wrong_type name a_boolean)

-- `actual, ok := value.(string); ok && actual == expected`
unfoldable pub is_string : Value → Text → Bool
unfolding as_string
is_string value expected = elim (as_string value) [ some s ↦ str_eq s expected | none ↦ false ]

-- The loop of `validateFields`, over lists of one length.
unfoldable pub compare_fields : Text → ℕ → List Value → List Text → Result Error (Unit {0})
unfolding is_string
compare_fields name index (value ∷ values) (expected ∷ more) = do
  require (is_string value expected) (Error.field_differs name (index + 1) expected)
  compare_fields name (index + 1) values more
compare_fields name index _ _ = ok tt

unfoldable pub validate_fields : Table → Text → List Text → Result Error (Unit {0})
unfolding field_table compare_fields
validate_fields t name expected_fields = do
  raw_fields ← field_table t name
  values ← wrap (Error.bad_sequence name) (sequence raw_fields)
  require (length values == length expected_fields)
      (Error.field_count (length values) (length expected_fields))
  compare_fields name 0 values expected_fields
