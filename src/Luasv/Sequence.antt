-- ===== src/Luasv/Sequence.antt =====
-- `Table.Sequence` of `parser.go`: the values at 1, 2, …, n of a table, or an error.
pub mod Correct
use wow_markets.Base.{
  ℕ, suc, ◌+◌, Bool, List, [], ◌∷◌, ◌++◌, Option, none, some, ◌==◌, ltb, if◌then◌else◌, Result, ok,
  err, ◌>>=◌,
}
use wow_markets.Base.Maps.{lookup, nat_key}
use wow_markets.Luasv.Token.{Error, duplicate_index, missing_index}
use wow_markets.Luasv.Value.{Value, Table, nil}

-- `for index, value := range t.Array { valuesByIndex[index+1] = value }`
unfoldable pub numbered : ℕ → List Value → List (ℕ × Value)
numbered i [] = []
numbered i (v ∷ vs) = (i + 1, v) ∷ numbered (i + 1) vs

-- The loop over `t.Indexed`.
unfoldable pub add_indexed : List (ℕ × Value) → List (ℕ × Value) → Result Error (List (ℕ × Value))
add_indexed by_index [] = ok by_index
add_indexed by_index ((i, v) ∷ more) = elim (lookup i by_index) [
  | some _ ↦ err (duplicate_index i)
  | none ↦ add_indexed (by_index ++ (i, v) ∷ []) more
]

unfoldable pub keys : List (ℕ × Value) → List ℕ
keys [] = []
keys ((i, _) ∷ m) = i ∷ keys m

unfoldable pub insert_sorted : ℕ → List ℕ → List ℕ
insert_sorted i [] = i ∷ []
insert_sorted i (j ∷ js) = let rest = insert_sorted i js in if ltb j i then j ∷ rest else i ∷ j ∷ js

-- `sort.Ints`
unfoldable pub sort : List ℕ → List ℕ
sort [] = []
sort (i ∷ is) = insert_sorted i (sort is)

-- `valuesByIndex[index]`, nil at a missing key.
abbrev pub value_at : ℕ → List (ℕ × Value) → Value
value_at i m = elim (lookup i m) [ some v ↦ v | none ↦ nil ]

-- The last loop, which stops at the first gap.
unfoldable pub collect : List (ℕ × Value) → ℕ → List ℕ → Result Error (List Value)
collect m expected [] = ok []
collect m expected (i ∷ is) =
    let rest = collect m (expected + 1) is in
    if i == expected + 1
    then rest >>= (λ vs. ok (value_at i m ∷ vs))
    else err (missing_index (expected + 1))

abbrev pub gather : List (ℕ × Value) → Result Error (List Value)
gather m = collect m 0 (sort (keys m))

abbrev pub sequence_of : List (ℕ × Value) → List Value → Result Error (List Value)
sequence_of [] array = ok array
sequence_of (entry ∷ more) array = add_indexed (numbered 0 array) (entry ∷ more) >>= gather

unfoldable pub sequence : Table → Result Error (List Value)
sequence t = sequence_of t.indexed t.array
