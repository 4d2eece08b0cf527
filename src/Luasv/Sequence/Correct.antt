-- ===== src/Luasv/Sequence/Correct.antt =====
-- `Sequence` returns the entries of the table at 1, 2, …, and nothing else.
use wow_markets.Base.{
  ℕ, zero, suc, ◌+◌, ◌≡◌, refl, sym, ap, ◌∙◌, subst, Bool, true, false, ◌||◌, List, [], ◌∷◌, ◌++◌,
  append-nil, append_assoc, ◌==◌, if◌then◌else◌, length, length-append, get_elem?, arith,
  Bool-cases, inl, inr, Option, none, some, Option-cases, ok, >>=-eq-ok, ok_inj,
}
use wow_markets.Base.Maps.{lookup, nat_key}
use wow_markets.Base.Strings.{Text}
use wow_markets.Luasv.Value.{Value, Table}
use wow_markets.Luasv.Sequence.{
  numbered, add_indexed, keys, insert_sorted, sort, value_at, collect, gather, sequence_of,
  sequence,
}

-- The entries of a table with a number for their key: the array's first, from 1, then the others.
abbrev pub entries : Table → List (ℕ × Value)
entries t = numbered 0 t.array ++ t.indexed

-- Every entry that is added has a key that is not there before it.
add_indexed-append : (m more r : List (ℕ × Value)) → add_indexed m more ≡ ok r → r ≡ m ++ more
unfolding add_indexed
add_indexed-append m [] r h = ground (arith, append-nil m)
add_indexed-append m ((i, v) ∷ more) r h = elim (Option-cases (lookup i m)) [
  | inl fresh ↦
      add_indexed-append (m ++ (i, v) ∷ []) more r (rw (fresh, add_indexed) at h)
      ∙ append_assoc m ((i, v) ∷ []) more
  | inr (w, there) ↦ cc (rw (there, add_indexed) at h)
]

abbrev is_some : Option Value → Bool
is_some none = false
is_some (some _) = true

-- `k` is among the keys.
has : ℕ → List ℕ → Bool
has k [] = false
has k (i ∷ is) = i == k || has k is

has-keys : (k : ℕ) (m : List (ℕ × Value)) → has k (keys m) ≡ is_some (lookup k m)
unfolding has keys lookup
has-keys k [] = refl
has-keys k ((i, v) ∷ m) = ground (arith, has-keys k m)

has-insert_sorted : (k i : ℕ) (js : List ℕ) → has k (insert_sorted i js) ≡ (i == k || has k js)
unfolding has insert_sorted
has-insert_sorted k i [] = refl
has-insert_sorted k i (j ∷ js) = ground (arith, has-insert_sorted k i js)

has-sort : (k : ℕ) (is : List ℕ) → has k (sort is) ≡ has k is
unfolding has sort
has-sort k [] = refl
has-sort k (i ∷ is) = ground (arith, has-insert_sorted k i (sort is), has-sort k is)

collect-cons :
    (m : List (ℕ × Value)) (start j : ℕ) (is : List ℕ) (vs : List Value)
    → collect m start (j ∷ is) ≡ ok vs
    → (j ≡ start + 1)
      × ((rest : List Value) × (collect m (start + 1) is ≡ ok rest) × (vs ≡ value_at j m ∷ rest))
unfolding collect
collect-cons m start j is vs h = elim (Bool-cases (j == start + 1)) [
  | inl same ↦
      let (rest, later, done) =
        >>=-eq-ok (collect m (start + 1) is) (λ vs'. ok (value_at j m ∷ vs'))
          (rw (same, collect) at h) in
      (ground arith, (rest, later, sym (ok_inj done)))
  | inr other ↦ cc (rw (other, collect) at h)
]

-- What `collect` gives at `i`, from the indexes and the values.
abbrev collected : List (ℕ × Value) → List ℕ → ℕ → Option Value
collected m is k = if has k is then some (value_at k m) else none

-- A list of indexes that `collect` accepts counts up from its start.
collect-get_elem? :
    (m : List (ℕ × Value)) (start : ℕ) (is : List ℕ) (vs : List Value)
    → collect m start is ≡ ok vs
    → (i k : ℕ) → k ≡ start + 1 + i
    → get_elem? vs i ≡ collected m is k
unfolding collect has
collect-get_elem? m start [] vs h i k e =
    subst (λ (r : List Value). get_elem? r i ≡ none) (ok_inj h) refl
collect-get_elem? m start (j ∷ is) vs h zero k e =
    let (first, (rest, later, done)) = collect-cons m start j is vs h in rw done (ground arith)
collect-get_elem? m start (j ∷ is) vs h (suc i) k e =
    let (first, (rest, later, done)) = collect-cons m start j is vs h in
    rw done (ground (arith, collect-get_elem? m (start + 1) is rest later i k))

length-collect :
    (m : List (ℕ × Value)) (start : ℕ) (is : List ℕ) (vs : List Value)
    → collect m start is ≡ ok vs
    → length vs ≡ length is
unfolding collect
length-collect m start [] vs h = subst (λ (r : List Value). length r ≡ 0) (ok_inj h) refl
length-collect m start (j ∷ is) vs h =
    let (_, (rest, later, done)) = collect-cons m start j is vs h in
    ap length done ∙ ap suc (length-collect m (start + 1) is rest later)

length-insert_sorted : (i : ℕ) (js : List ℕ) → length (insert_sorted i js) ≡ suc (length js)
unfolding insert_sorted
length-insert_sorted i [] = refl
length-insert_sorted i (j ∷ js) = ground (arith, length-insert_sorted i js)

length-sort : (is : List ℕ) → length (sort is) ≡ length is
unfolding sort
length-sort [] = refl
length-sort (i ∷ is) = length-insert_sorted i (sort is) ∙ ap suc (length-sort is)

length-keys : (m : List (ℕ × Value)) → length (keys m) ≡ length m
unfolding keys
length-keys [] = refl
length-keys ((i, v) ∷ m) = ap suc (length-keys m)

gather-get_elem? :
    (m : List (ℕ × Value)) (vs : List Value)
    → gather m ≡ ok vs
    → (i : ℕ) → get_elem? vs i ≡ lookup (i + 1) m
gather-get_elem? m vs h i =
    let counted = collect-get_elem? m 0 (sort (keys m)) vs h i (i + 1) (omega arith) in
    ground (arith, counted, has-sort (i + 1) (keys m), has-keys (i + 1) m)

length-numbered : (i : ℕ) (vs : List Value) → length (numbered i vs) ≡ length vs
unfolding numbered
length-numbered i [] = refl
length-numbered i (v ∷ vs) = ap suc (length-numbered (i + 1) vs)

lookup-numbered :
    (start : ℕ) (vs : List Value) (i k : ℕ)
    → k ≡ start + 1 + i
    → lookup k (numbered start vs) ≡ get_elem? vs i
unfolding lookup numbered
lookup-numbered start [] i k e = refl
lookup-numbered start (v ∷ vs) zero k e = ground arith
lookup-numbered start (v ∷ vs) (suc i) k e = ground (arith, lookup-numbered (start + 1) vs i k)

-- The values are the table's entries at 1, 2, …: at each index what the table has there, and nothing
-- behind the last. There are as many as there are entries, so no entry is left out or overwritten.
pub record SequenceOf (t : Table) (vs : List Value) : Type 0 where
  pub at_index : (i : ℕ) → get_elem? vs i ≡ lookup (i + 1) (entries t)
  pub count : length vs ≡ length t.array + length t.indexed

sequence_of-SequenceOf :
    (fs : List (Text × Value)) (is : List (ℕ × Value)) (array vs : List Value)
    → sequence_of is array ≡ ok vs
    → SequenceOf (record { fields = fs; indexed = is; array = array }) vs
sequence_of-SequenceOf fs [] array vs h = record {
  at_index = λ i. rw append-nil (
      ap (λ (r : List Value). get_elem? r i) (sym (ok_inj h))
      ∙ sym (lookup-numbered 0 array i (i + 1) (omega arith)));
  count = omega (arith, ap length (ok_inj h));
}
sequence_of-SequenceOf fs (entry ∷ more) array vs h =
    let (m, added, gathered) = >>=-eq-ok (add_indexed (numbered 0 array) (entry ∷ more)) gather h in
    let whole = add_indexed-append (numbered 0 array) (entry ∷ more) m added in
    record {
      at_index = λ i.
          gather-get_elem? m vs gathered i ∙ ap (λ (r : List (ℕ × Value)). lookup (i + 1) r) whole;
      count = omega (
        arith,
        length-collect m 0 (sort (keys m)) vs gathered,
        length-sort (keys m),
        length-keys m,
        ap length whole,
        length-append (numbered 0 array) (entry ∷ more),
        length-numbered 0 array,
      );
    }

-- A sequence that `Sequence` returns is the sequence of the table's entries.
pub sequence-SequenceOf : (t : Table) (vs : List Value) → sequence t ≡ ok vs → SequenceOf t vs
unfolding sequence
sequence-SequenceOf t vs h = sequence_of-SequenceOf t.fields t.indexed t.array vs h
