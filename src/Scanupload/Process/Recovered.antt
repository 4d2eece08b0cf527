-- ===== src/Scanupload/Process/Recovered.antt =====
-- What recovery and the list of due checksums do.
use wow_markets.Base.{
  ℕ, zero, suc, false, List, [], ◌∷◌, Option, none, some, if◌then◌else◌, take, ◌≡◌, inl, inr, refl,
  sym, ap, ◌∙◌, All, str_eq, str_eq_iff, Bool-cases, arith,
}
use wow_markets.Base.Int.{ℤ, pos, negsuc}
use wow_markets.Base.Maps.{lookup, text_key, IsMap}
use wow_markets.Base.Strings.{Text}
use wow_markets.Scanupload.Record.{Record, Uploads}
use wow_markets.Scanupload.Outside.{Time, Rfc3339}
use wow_markets.Scanupload.Due.{is_due, due_keys, due_checksums, insert_text, sort_texts}
use wow_markets.Scanupload.Process.{interrupted, is_uploading, recover, limited}

abbrev pub NotAmong : Text → List Text → Type 0
NotAmong k ks = All (λ j. str_eq j k ≡ false) ks

abbrev pub recovered_record : Rfc3339 → Time → Record → Record
recovered_record time now r = if is_uploading r.status then interrupted time now r else r

abbrev pub recovered_at : Rfc3339 → Time → Option Record → Option Record
recovered_at time now none = none
recovered_at time now (some r) = some (recovered_record time now r)

pub lookup-recover :
    (time : Rfc3339) (now : Time) (k : Text) (m : Uploads)
    → lookup k (recover time now m).0 ≡ recovered_at time now (lookup k m)
unfolding recover lookup
lookup-recover time now k [] = refl
lookup-recover time now k ((j, r) ∷ m) = ground (arith, lookup-recover time now k m)

pub recover-IsMap :
    (time : Rfc3339) (now : Time) (m : Uploads) → IsMap m → IsMap (recover time now m).0
unfolding recover
recover-IsMap time now [] h = tt
recover-IsMap time now ((j, r) ∷ m) h =
    ground (arith, recover-IsMap time now m h.1, lookup-recover time now j m)

pub some_inj : (r t : Record) → ◌≡◌ {A = Option Record} (some r) (some t) → r ≡ t
some_inj r t h = ap (λ o. elim o [ some q ↦ q | none ↦ r ]) h

pub due_keys-absent :
    (time : Rfc3339) (now : Time) (k : Text) (m : Uploads)
    → lookup k m ≡ none
    → NotAmong k (due_keys time m now)
unfolding due_keys lookup
due_keys-absent time now k [] h = tt
due_keys-absent time now k ((j, r) ∷ m) h = ground (arith, due_keys-absent time now k m)

-- A record that is not due is not among the due ones.
due_keys-NotAmong :
    (time : Rfc3339) (now : Time) (k : Text) (r : Record) (m : Uploads)
    → IsMap m
    → lookup k m ≡ some r
    → is_due time r now ≡ false
    → NotAmong k (due_keys time m now)
unfolding due_keys lookup
due_keys-NotAmong time now k r [] u h d = cc
due_keys-NotAmong time now k r ((j, s) ∷ m) u h d = elim (Bool-cases (str_eq j k)) [
  | inl y ↦
      let absent = ap (λ q. lookup q m) (sym ((str_eq_iff j k).0 y)) ∙ u.0 in
      let same = some_inj s r (rw y at h) in
      let off = ap (λ q. is_due time q now) same ∙ d in rw off (due_keys-absent time now k m absent)
  | inr n ↦ ground (arith, due_keys-NotAmong time now k r m u.1 (rw n at h) d)
]

pub insert_text-NotAmong :
    (k s : Text) (ts : List Text)
    → str_eq s k ≡ false
    → NotAmong k ts
    → NotAmong k (insert_text s ts)
unfolding insert_text
insert_text-NotAmong k s [] n h = (n, tt)
insert_text-NotAmong k s (t ∷ ts) n h = ground (arith, insert_text-NotAmong k s ts n h.1)

pub sort_texts-NotAmong : (k : Text) (ts : List Text) → NotAmong k ts → NotAmong k (sort_texts ts)
unfolding sort_texts
sort_texts-NotAmong k [] h = tt
sort_texts-NotAmong k (t ∷ ts) h =
    insert_text-NotAmong k t (sort_texts ts) h.0 (sort_texts-NotAmong k ts h.1)

pub take-NotAmong : (k : Text) (n : ℕ) (ts : List Text) → NotAmong k ts → NotAmong k (take n ts)
take-NotAmong k zero ts h = tt
take-NotAmong k (suc n) [] h = tt
take-NotAmong k (suc n) (t ∷ ts) h = (h.0, take-NotAmong k n ts h.1)

limited_lem :
    (limit : ℤ) (k : Text) (ks : List Text) → NotAmong k ks → NotAmong k (limited limit ks)
limited_lem (pos n) k ks h = ground (arith, take-NotAmong k n ks h)
limited_lem (negsuc n) k ks h = h

-- A record that is not due is not among the checksums of a call.
pub limited-NotAmong :
    (time : Rfc3339) (limit : ℤ) (now : Time) (k : Text) (r : Record) (m : Uploads)
    → IsMap m
    → lookup k m ≡ some r
    → is_due time r now ≡ false
    → NotAmong k (limited limit (due_checksums time m now))
unfolding due_checksums
limited-NotAmong time limit now k r m u h d =
    limited_lem limit k _ (sort_texts-NotAmong k _ (due_keys-NotAmong time now k r m u h d))
