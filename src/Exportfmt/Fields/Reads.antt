-- ===== src/Exportfmt/Fields/Reads.antt =====
-- What the readers of a value accept.
use wow_markets.Base.{◌≡◌, ok, arith}
use wow_markets.Base.Int.{ℤ, InInt64, eq_ℤ_iff, wrap64, wrap64_in_range}
use wow_markets.Base.Strings.{Text}
use wow_markets.Luasv.Value.{Value, integer, string, as_string, as_integer}
use wow_markets.Exportfmt.Fields.{value_string, value_int64, value_int}

pub value_int64-eq-ok :
    (v : Value) (name : Text) (n : ℤ) → value_int64 v name ≡ ok n → v ≡ integer n
unfolding value_int64 as_integer
value_int64-eq-ok (integer m) name n h = cc
value_int64-eq-ok _ name n h = cc

pub value_int-eq-ok : (v : Value) (name : Text) (n : ℤ) → value_int v name ≡ ok n → v ≡ integer n
unfolding value_int value_int64 as_integer
value_int-eq-ok (integer m) name n h = ground (arith, eq_ℤ_iff (wrap64 m) m)
value_int-eq-ok _ name n h = cc

pub value_string-eq-ok : (v : Value) (name s : Text) → value_string v name ≡ ok s → v ≡ string s
unfolding value_string as_string
value_string-eq-ok (string t) name s h = cc
value_string-eq-ok _ name s h = cc

-- An int64 is an int on a 64-bit target, so no integer is refused.
pub value_int_integer : (n : ℤ) (name : Text) → InInt64 n → value_int (integer n) name ≡ ok n
unfolding value_int value_int64 as_integer
value_int_integer n name h = ground (arith, eq_ℤ_iff (wrap64 n) n, wrap64_in_range n h)
