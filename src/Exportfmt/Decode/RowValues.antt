-- ===== src/Exportfmt/Decode/RowValues.antt =====
-- `decodeRow` against the list of values that writes a row.
use wow_markets.Base.{
  ℕ, zero, suc, ◌≡◌, refl, ap, sym, ◌∙◌, subst, Bool, true, false, List, [], ◌∷◌, some, get_elem?,
  ok, arith, >>=-eq-ok, if◌then◌else◌, wrap, wrap-eq-ok, codes,
}
use wow_markets.Base.Int.{ℤ, pos, InInt64}
use wow_markets.Base.Strings.{Text}
use wow_markets.Luasv.Value.{Value, Table, integer, as_integer}
use wow_markets.Luasv.Sequence.{sequence}
use wow_markets.Exportfmt.Scan.{Row, ItemIdentity, Error}
use wow_markets.Exportfmt.Validate.{validate_row}
use wow_markets.Exportfmt.Fields.{value_int, value_int64}
use wow_markets.Exportfmt.Fields.Reads.{value_int-eq-ok, value_int64-eq-ok, value_int_integer}
use wow_markets.Exportfmt.Decode.{item_at, read_row, row_of_values, decode_row}

-- The item that a row was given.
abbrev pub identity : Row → ItemIdentity
identity r = record {
  item_id = r.item_id;
  item_string = r.item_string;
  name = r.name;
  quality = r.quality;
  required_level = r.required_level;
}

-- The nine values of a row that refers to the item at `i`, counted from 0.
abbrev pub row_values : ℕ → Row → List Value
row_values i r =
    integer r.source_row
    ∷ integer (pos (suc i))
    ∷ integer r.stack_count
    ∷ integer r.min_bid
    ∷ integer r.min_increment
    ∷ integer r.buyout
    ∷ integer r.bid_amount
    ∷ integer r.sale_status
    ∷ integer (pos (if r.has_all_info then 1 else 0))
    ∷ []

abbrev values_from : Value → Value → Row → List Value
values_from a b r =
    a
    ∷ b
    ∷ integer r.stack_count
    ∷ integer r.min_bid
    ∷ integer r.min_increment
    ∷ integer r.buyout
    ∷ integer r.bid_amount
    ∷ integer r.sale_status
    ∷ integer (pos (if r.has_all_info then 1 else 0))
    ∷ []

read_row-eq-ok :
    (a b c d e f g h k : Value) (item : ItemIdentity) (n : ℤ) (r : Row)
    → read_row (a ∷ b ∷ c ∷ d ∷ e ∷ f ∷ g ∷ h ∷ k ∷ []) item n ≡ ok r
    → ((a ∷ b ∷ c ∷ d ∷ e ∷ f ∷ g ∷ h ∷ k ∷ []) ≡ values_from a b r)
      × (r.source_row ≡ n)
      × (identity r ≡ item)
unfolding read_row
read_row-eq-ok a b c d e f g h k item n r eq = ground (
  arith,
  value_int-eq-ok c (codes "stackCount") r.stack_count,
  value_int64-eq-ok d (codes "minBid") r.min_bid,
  value_int64-eq-ok e (codes "minIncrement") r.min_increment,
  value_int64-eq-ok f (codes "buyout") r.buyout,
  value_int64-eq-ok g (codes "bidAmount") r.bid_amount,
  value_int-eq-ok h (codes "saleStatus") r.sale_status,
  value_int-eq-ok k (codes "hasAllInfo") (pos (if r.has_all_info then 1 else 0)),
)

item_at-eq-ok :
    (items : List ItemIdentity) (ref : ℤ) (item : ItemIdentity)
    → item_at items ref ≡ ok item
    → (i : ℕ) × (ref ≡ pos (suc i)) × (get_elem? items i ≡ some item)
unfolding item_at
item_at-eq-ok items (pos zero) item h = cc
item_at-eq-ok items (pos (suc i)) item h = (i, refl, ground arith)
item_at-eq-ok items (ℤ.negsuc n) item h = cc

validate_row-same : (r q : Row) → validate_row r ≡ ok q → r ≡ q
unfolding validate_row
validate_row-same r q h = ground arith

-- What decoding a row says of the table, its item and the row.
pub record RowDecoded (items : List ItemIdentity) (values : List Value) (r : Row) : Type 0 where
  pub item : ℕ
  pub spelled : values ≡ row_values item r
  pub found : get_elem? items item ≡ some (identity r)
  pub valid : validate_row r ≡ ok r

row_of_values-RowDecoded :
    (items : List ItemIdentity) (values : List Value) (r : Row)
    → row_of_values items values ≡ ok r
    → RowDecoded items values r
unfolding row_of_values
row_of_values-RowDecoded items (a ∷ b ∷ c ∷ d ∷ e ∷ f ∷ g ∷ h ∷ k ∷ []) r eq =
    let (n, source_row, eq₁) = >>=-eq-ok (value_int a (codes "sourceRow")) _ eq in
    let (ref, item_ref, eq₂) = >>=-eq-ok (value_int b (codes "itemRef")) _ eq₁ in
    let (item, at, eq₃) = >>=-eq-ok (item_at items ref) _ eq₂ in
    let (row, read, valid) = >>=-eq-ok (read_row _ item n) _ eq₃ in
    let (i, is_ref, found) = item_at-eq-ok items ref item at in
    let (spelled, is_source, is_item) = read_row-eq-ok a b c d e f g h k item n row read in
    let same = validate_row-same row r valid in
    let first = value_int-eq-ok a (codes "sourceRow") n source_row in
    let second = value_int-eq-ok b (codes "itemRef") ref item_ref in
    subst (RowDecoded items (a ∷ b ∷ c ∷ d ∷ e ∷ f ∷ g ∷ h ∷ k ∷ [])) same (record {
      item = i;
      spelled = cc (spelled, first, second, is_source, is_ref);
      found = found ∙ ap some (sym is_item);
      valid = valid ∙ ap ok (sym same);
    })
row_of_values-RowDecoded items _ r eq = ground arith

-- A row that `decodeRow` returns is spelled by the nine values of its table, in their order,
-- carries the identity of the item that the second value refers to, counted from 1, and passes
-- validateRow.
pub decode_row-RowDecoded :
    (items : List ItemIdentity) (t : Table) (r : Row)
    → decode_row items t ≡ ok r
    → (values : List Value) × (sequence t ≡ ok values) × RowDecoded items values r
unfolding decode_row
decode_row-RowDecoded items t r h =
    let (values, read, rest) = >>=-eq-ok (wrap Error.bad_sequence_entry (sequence t)) _ h in
    (
      values,
      wrap-eq-ok Error.bad_sequence_entry (sequence t) read,
      row_of_values-RowDecoded items values r rest,
    )

-- The numbers of a row are int64 values.
pub record RowFits (i : ℕ) (r : Row) : Type 0 where
  pub source_row : InInt64 r.source_row
  pub item : InInt64 (pos (suc i))
  pub stack_count : InInt64 r.stack_count
  pub sale_status : InInt64 r.sale_status

has_all_info_int :
    (b : Bool) (name : Text)
    → value_int (integer (pos (if b then 1 else 0))) name ≡ ok (pos (if b then 1 else 0))
has_all_info_int true name = value_int_integer (pos 1) name (omega arith)
has_all_info_int false name = value_int_integer (pos 0) name (omega arith)

read_row-row_values :
    (i : ℕ) (r : Row) → RowFits i r → read_row (row_values i r) (identity r) r.source_row ≡ ok r
unfolding read_row value_int64 as_integer
read_row-row_values i r f = ground (
  arith,
  value_int_integer r.stack_count (codes "stackCount") f.stack_count,
  value_int_integer r.sale_status (codes "saleStatus") f.sale_status,
  has_all_info_int r.has_all_info (codes "hasAllInfo"),
)

-- A table that spells a valid row whose numbers are int64 values, with the row's item at its
-- reference, is decoded to that row.
pub decode_row-row_values :
    (items : List ItemIdentity) (t : Table) (i : ℕ) (r : Row)
    → sequence t ≡ ok (row_values i r)
    → get_elem? items i ≡ some (identity r)
    → validate_row r ≡ ok r
    → RowFits i r
    → decode_row items t ≡ ok r
unfolding decode_row row_of_values item_at
decode_row-row_values items t i r s found valid f =
    rw
      (
        s,
        value_int_integer r.source_row (codes "sourceRow") f.source_row,
        value_int_integer (pos (suc i)) (codes "itemRef") f.item,
        found,
        read_row-row_values i r f,
      )
      valid
