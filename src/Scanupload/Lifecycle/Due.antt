-- ===== src/Scanupload/Lifecycle/Due.antt =====
-- The checksums of a call are due, and none comes twice.
use wow_markets.Base.{
  ℕ, zero, suc, ◌≡◌, refl, ap, true, false, List, [], ◌∷◌, none, some, inl, inr, All, take, str_eq,
  str_eq_iff, Bool-cases, arith, ltb, ◌&&◌, length,
}
use wow_markets.Base.Int.{ℤ, pos, negsuc}
use wow_markets.Base.Maps.{lookup, text_key, IsMap}
use wow_markets.Base.Strings.{Text, str_lt}
use wow_markets.Scanupload.Record.{Record, Uploads}
use wow_markets.Scanupload.Outside.{Time, Rfc3339}
use wow_markets.Scanupload.Due.{is_due, due_keys, due_checksums, insert_text, sort_texts}
use wow_markets.Scanupload.Process.{limited}
use wow_markets.Scanupload.Process.Recovered.{
  NotAmong, due_keys-absent, insert_text-NotAmong, sort_texts-NotAmong, take-NotAmong,
}

abbrev pub Distinct : List Text → Type 0
Distinct [] = Unit
Distinct (k ∷ ks) = NotAmong k ks × Distinct ks

-- The record at the checksum is due.
abbrev pub DueAt : Rfc3339 → Time → Uploads → Text → Type 0
DueAt time now m k = (r : Record) × (lookup k m ≡ some r) × (is_due time r now ≡ true)

pub other_way : (k j : Text) → str_eq k j ≡ false → str_eq j k ≡ false
other_way k j n = ground (arith, str_eq_iff k j, str_eq_iff j k)

insert_text-Distinct :
    (k : Text) (ts : List Text) → NotAmong k ts → Distinct ts → Distinct (insert_text k ts)
unfolding insert_text
insert_text-Distinct k [] n d = (tt, tt)
insert_text-Distinct k (t ∷ ts) n d =
    let apart = other_way t k n.0 in
    ground (arith, insert_text-NotAmong t k ts apart d.0, insert_text-Distinct k ts n.1 d.1)

sort_texts-Distinct : (ts : List Text) → Distinct ts → Distinct (sort_texts ts)
unfolding sort_texts
sort_texts-Distinct [] d = tt
sort_texts-Distinct (t ∷ ts) d =
    insert_text-Distinct t (sort_texts ts) (sort_texts-NotAmong t ts d.0)
      (sort_texts-Distinct ts d.1)

due_keys-Distinct :
    (time : Rfc3339) (now : Time) (m : Uploads) → IsMap m → Distinct (due_keys time m now)
unfolding due_keys
due_keys-Distinct time now [] h = tt
due_keys-Distinct time now ((k, r) ∷ m) h =
    ground (arith, due_keys-absent time now k m h.0, due_keys-Distinct time now m h.1)

take-Distinct : (n : ℕ) (ts : List Text) → Distinct ts → Distinct (take n ts)
take-Distinct zero ts d = tt
take-Distinct (suc n) [] d = tt
take-Distinct (suc n) (t ∷ ts) d = (take-NotAmong t n ts d.0, take-Distinct n ts d.1)

module _ (P : Text → Type 0) where
  All-insert_text : (k : Text) (ts : List Text) → P k → All P ts → All P (insert_text k ts)
  unfolding insert_text
  All-insert_text k [] p h = (p, tt)
  All-insert_text k (t ∷ ts) p h = elim (Bool-cases (str_lt t k)) [
    | inl y ↦ rw (y, insert_text) (h.0, All-insert_text k ts p h.1)
    | inr n ↦ rw (n, insert_text) (p, h)
  ]

  All-sort_texts : (ts : List Text) → All P ts → All P (sort_texts ts)
  unfolding sort_texts
  All-sort_texts [] h = tt
  All-sort_texts (t ∷ ts) h = All-insert_text t (sort_texts ts) h.0 (All-sort_texts ts h.1)

  All-take : (n : ℕ) (ts : List Text) → All P ts → All P (take n ts)
  All-take zero ts h = tt
  All-take (suc n) [] h = tt
  All-take (suc n) (t ∷ ts) h = (h.0, All-take n ts h.1)

lookup-head : (k : Text) (r : Record) (m : Uploads) → lookup k ((k, r) ∷ m) ≡ some r
unfolding lookup
lookup-head k r m = rw ((str_eq_iff k k).1 refl, lookup) refl

lookup-tail :
    (k j : Text) (r s : Record) (m : Uploads)
    → lookup k m ≡ none
    → lookup j m ≡ some s
    → lookup j ((k, r) ∷ m) ≡ some s
unfolding lookup
lookup-tail k j r s m absent found = elim (Bool-cases (str_eq k j)) [
  | inr n ↦ rw (n, lookup) found
  | inl y ↦ cc (absent, found, ap (λ q. lookup q m) ((str_eq_iff k j).0 y))
]

-- The keys that are due in a part of the uploads are due in the whole.
All-due_keys :
    (time : Rfc3339) (now : Time) (m n : Uploads)
    → ((k : Text) (r : Record) → lookup k n ≡ some r → lookup k m ≡ some r)
    → IsMap n
    → All (DueAt time now m) (due_keys time n now)
unfolding due_keys
All-due_keys time now m [] f h = tt
All-due_keys time now m ((k, r) ∷ n) f h =
    let rest =
      All-due_keys time now m n (λ j s found. f j s (lookup-tail k j r s n h.0 found)) h.1 in
    elim (Bool-cases (is_due time r now)) [
      | inl y ↦ rw (y, due_keys) ((r, f k r (lookup-head k r n), y), rest)
      | inr off ↦ rw (off, due_keys) rest
    ]

limited-Distinct : (limit : ℤ) (ks : List Text) → Distinct ks → Distinct (limited limit ks)
limited-Distinct (pos n) ks d = ground (arith, take-Distinct n ks d)
limited-Distinct (negsuc n) ks d = d

All-limited : (P : Text → Type 0) (limit : ℤ) (ks : List Text) → All P ks → All P (limited limit ks)
All-limited P (pos n) ks h = elim (Bool-cases (ltb 0 n && ltb n (length ks))) [
  | inl y ↦ rw y (All-take P n ks h)
  | inr off ↦ rw off h
]
All-limited P (negsuc n) ks h = h

pub limited-due_checksums :
    (time : Rfc3339) (limit : ℤ) (now : Time) (m : Uploads)
    → IsMap m
    → Distinct (limited limit (due_checksums time m now))
      × All (DueAt time now m) (limited limit (due_checksums time m now))
unfolding due_checksums
limited-due_checksums time limit now m h = (
  limited-Distinct limit _ (sort_texts-Distinct _ (due_keys-Distinct time now m h)),
  All-limited (DueAt time now m) limit _
      (All-sort_texts (DueAt time now m) _ (All-due_keys time now m m (λ k r found. found) h)),
)
