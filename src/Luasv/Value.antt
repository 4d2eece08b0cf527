-- ===== src/Luasv/Value.antt =====
-- `Value` and `Table` of `parser.go`. A float64 is kept as the text that `ParseFloat` reads: no
-- code of the program computes with one. The keys of `Indexed` are at least 1.
use wow_markets.Base.{ℕ, Bool, List, [], ◌∷◌, ◌≡◌, refl, ap, Option}
use wow_markets.Base.Int.{ℤ}
use wow_markets.Base.Maps.{lookup, text_key}
use wow_markets.Base.Strings.{Text}

mutual
  pub data Value : Type 0 where
    nil : Value
    boolean : Bool → Value
    integer : ℤ → Value
    float : Text → Value
    string : Text → Value
    table : Fields → Indexes → Items → Value

  pub data Fields : Type 0 where
    no_fields : Fields
    field : Text → Value → Fields → Fields

  pub data Indexes : Type 0 where
    no_indexes : Indexes
    index : ℕ → Value → Indexes → Indexes

  pub data Items : Type 0 where
    no_items : Items
    item : Value → Items → Items

-- A nil map and an empty one are not told apart: reading either finds nothing.
pub record Table : Type 0 where
  pub fields : List (Text × Value)
  pub indexed : List (ℕ × Value)
  pub array : List Value

abbrev pub new_table : Table
new_table = record { fields = []; indexed = []; array = [] }

abbrev pub to_fields : List (Text × Value) → Fields
to_fields [] = no_fields
to_fields ((k, v) ∷ m) = field k v (to_fields m)

abbrev pub to_indexes : List (ℕ × Value) → Indexes
to_indexes [] = no_indexes
to_indexes ((k, v) ∷ m) = index k v (to_indexes m)

abbrev pub to_items : List Value → Items
to_items [] = no_items
to_items (v ∷ vs) = item v (to_items vs)

abbrev pub of_fields : Fields → List (Text × Value)
of_fields no_fields = []
of_fields (field k v m) = (k, v) ∷ of_fields m

abbrev pub of_indexes : Indexes → List (ℕ × Value)
of_indexes no_indexes = []
of_indexes (index k v m) = (k, v) ∷ of_indexes m

abbrev pub of_items : Items → List Value
of_items no_items = []
of_items (item v vs) = v ∷ of_items vs

-- A `*Table` stored as a value.
abbrev pub to_value : Table → Value
to_value t = table (to_fields t.fields) (to_indexes t.indexed) (to_items t.array)

-- `value.(*Table)`
unfoldable pub as_table : Value → Option Table
as_table (table fs is vs) =
    Option.some (record { fields = of_fields fs; indexed = of_indexes is; array = of_items vs })
as_table _ = Option.none

-- `value.(string)`
unfoldable pub as_string : Value → Option Text
as_string (string s) = Option.some s
as_string _ = Option.none

-- `value.(int64)`
unfoldable pub as_integer : Value → Option ℤ
as_integer (integer n) = Option.some n
as_integer _ = Option.none

-- `value.(bool)`
unfoldable pub as_boolean : Value → Option Bool
as_boolean (boolean b) = Option.some b
as_boolean _ = Option.none

-- `Table.Field`
unfoldable pub table_field : Table → Text → Option Value
unfolding lookup
table_field t name = lookup name t.fields

of_fields-to_fields : (m : List (Text × Value)) → of_fields (to_fields m) ≡ m
of_fields-to_fields [] = refl
of_fields-to_fields ((k, v) ∷ m) = ap (◌∷◌ (k, v)) (of_fields-to_fields m)

of_indexes-to_indexes : (m : List (ℕ × Value)) → of_indexes (to_indexes m) ≡ m
of_indexes-to_indexes [] = refl
of_indexes-to_indexes ((k, v) ∷ m) = ap (◌∷◌ (k, v)) (of_indexes-to_indexes m)

of_items-to_items : (vs : List Value) → of_items (to_items vs) ≡ vs
of_items-to_items [] = refl
of_items-to_items (v ∷ vs) = ap (◌∷◌ v) (of_items-to_items vs)

-- A table that is stored and read again is the same table.
pub as_table-to_value : (t : Table) → as_table (to_value t) ≡ Option.some t
unfolding as_table
as_table-to_value t =
    cc (of_fields-to_fields t.fields, of_indexes-to_indexes t.indexed, of_items-to_items t.array)
