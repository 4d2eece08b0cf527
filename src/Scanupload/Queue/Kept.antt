-- ===== src/Scanupload/Queue/Kept.antt =====
-- What `Queue` does to the state.
use wow_markets.Base.{
  false, [], Option, none, some, ◌≡◌, ◌≢◌, inl, inr, refl, sym, ap, ◌∙◌, subst, arith, str_eq,
  str_eq_iff, Bool-cases,
}
use wow_markets.Base.Maps.{lookup, insert, lookup-insert, text_key}
use wow_markets.Base.Strings.{Text}
use wow_markets.Scanarchive.Record.{ArchiveRecord}
use wow_markets.Scanupload.Record.{Status, Record, Uploads}

-- A record that differs in the archive's metadata only.
abbrev pub KeepsProgress : Record → Record → Type 0
KeepsProgress r s = s ≡ record r {
  captured_at = s.captured_at;
  imported_at = s.imported_at;
  region = s.region;
  realm = s.realm;
  market = s.market;
  faction = s.faction;
  auction_house = s.auction_house;
  scanner_name = s.scanner_name;
  scanner_realm = s.scanner_realm;
  archive_rows = s.archive_rows;
  archive_items = s.archive_items;
}

-- Every record is still there, with the same progress.
abbrev pub KeepsRecords : Uploads → Uploads → Type 0
KeepsRecords before after =
    (k : Text) (r : Record)
    → lookup k before ≡ some r
    → (s : Record) × (lookup k after ≡ some s) × KeepsProgress r s

pub keeps_refl : (u : Uploads) → KeepsRecords u u
keeps_refl u k r h = (r, h, refl)

pub keeps_trans : (u v w : Uploads) → KeepsRecords u v → KeepsRecords v w → KeepsRecords u w
keeps_trans u v w f g k r h = let (s, hs, ps) = f k r h in let (t, ht, pt) = g k s hs in (t, ht, cc)

pub some_inj : (r t : Record) → ◌≡◌ {A = Option Record} (some r) (some t) → r ≡ t
some_inj r t h = ap (λ o. elim o [ some q ↦ q | none ↦ r ]) h

same_value :
    (u : Uploads) (c k : Text) (r t : Record)
    → lookup c u ≡ some r
    → lookup k u ≡ some t
    → c ≡ k
    → r ≡ t
same_value u c k r t e h y = some_inj r t (sym e ∙ ap (λ q. lookup q u) y ∙ h)

pub keeps-insert :
    (u : Uploads) (c : Text) (r s : Record)
    → lookup c u ≡ some r
    → KeepsProgress r s
    → KeepsRecords u (insert c s u)
keeps-insert u c r s e p k t h = elim (Bool-cases (str_eq c k)) [
  | inl y ↦ (
    s,
    rw (lookup-insert c k s u, y) refl,
    subst (λ q. KeepsProgress q s) (same_value u c k r t e h ((str_eq_iff c k).0 y)) p,
  )
  | inr n ↦ (t, rw (lookup-insert c k s u, n) h, refl)
]

pub keeps-insert_new :
    (u : Uploads) (c : Text) (s : Record) → lookup c u ≡ none → KeepsRecords u (insert c s u)
keeps-insert_new u c s e k t h = elim (Bool-cases (str_eq c k)) [
  | inl y ↦ absurd (ground (arith, e, h, ap (λ q. lookup q u) ((str_eq_iff c k).0 y)))
  | inr n ↦ (t, rw (lookup-insert c k s u, n) h, refl)
]

-- An archive that the queue takes.
abbrev pub Queueable : ArchiveRecord → Type 0
Queueable a = (a.truncated ≡ false) × (a.checksum ≢ []) × (a.archive_path ≢ [])

abbrev pub HasRecord : Uploads → Text → Type 0
HasRecord u k = (s : Record) × (lookup k u ≡ some s)

-- The record of a queueable archive that had none.
abbrev pub IsNew : ArchiveRecord → Text → Record → Type 0
IsNew a k s = Queueable a × (a.checksum ≡ k) × (s.status ≡ Status.pending) × (s.attempts ≡ 0)
