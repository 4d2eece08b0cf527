-- ===== src/Scanupload/Process/Untouched.antt =====
-- A call leaves the records that are uploaded or failed for good as they are.
use wow_markets.Base.{
  false, List, [], ◌∷◌, ◌++◌, Option, some, ◌≡◌, ◌⊎◌, refl, ap, ◌∙◌, str_eq, arith,
}
use wow_markets.Base.Int.{ℤ}
use wow_markets.Base.Maps.{lookup, insert, text_key, IsMap, lookup-insert}
use wow_markets.Base.Strings.{Text}
use wow_markets.Scanupload.Record.{uploaded, failed, Record, Uploads}
use wow_markets.Scanupload.Outside.{Time, Rfc3339, Library}
use wow_markets.Scanupload.Due.{is_due, due_checksums}
use wow_markets.Scanupload.Process.{
  recover, Agent, World, limited, process, process_due, begun, attempted, record_at,
}
use wow_markets.Scanupload.Process.Recovered.{
  NotAmong, recovered_at, lookup-recover, recover-IsMap, limited-NotAmong,
}

-- Uploaded, or failed and not to be tried again.
abbrev pub Settled : Record → Type 0
Settled r = (r.status ≡ uploaded) ⊎ ((r.status ≡ failed) × (r.retryable ≡ false))

Settled-not_due : (time : Rfc3339) (now : Time) (r : Record) → Settled r → is_due time r now ≡ false
unfolding is_due
Settled-not_due time now r h = ground arith

pub lookup-insert_other :
    (k j : Text) (r : Record) (m : Uploads)
    → str_eq k j ≡ false
    → lookup j (insert k r m) ≡ lookup j m
lookup-insert_other k j r m n = rw (lookup-insert k j r m, n) refl

module _ (lib : Library) (agent : Agent) (worlds : Text → World) where
  -- A run touches the records of its checksums only.
  pub lookup-process :
      (k : Text) (results : List Record) (stored : Uploads) (ks : List Text)
      → NotAmong k ks
      → lookup k (process lib agent worlds results stored ks).stored ≡ lookup k stored
  unfolding process
  lookup-process k results stored [] n = refl
  lookup-process k results stored (j ∷ ks) n =
      let r = record_at j stored in
      let sending = insert j (begun lib agent (worlds j) r) stored in
      let sent = attempted lib agent (worlds j) r in
      ground (
        arith,
        lookup-insert_other j k (begun lib agent (worlds j) r) stored n.0,
        lookup-insert_other j k sent sending n.0,
        lookup-process k (results ++ sent ∷ []) (insert j sent sending) ks n.1,
      )

  Settled-kept :
      (limit : ℤ) (now : Time) (m : Uploads) (k : Text) (r : Record)
      → IsMap m
      → lookup k m ≡ some r
      → Settled r
      → lookup k
          (process lib agent worlds [] m (limited limit (due_checksums lib.time m now))).stored
        ≡ some r
  Settled-kept limit now m k r u h s =
      lookup-process k [] m _
        (limited-NotAmong lib.time limit now k r m u h (Settled-not_due lib.time now r s))
      ∙ h

  recover_keeps :
      (now : Time) (m : Uploads) (k : Text) (r : Record)
      → lookup k m ≡ some r
      → Settled r
      → lookup k (recover lib.time now m).0 ≡ some r
  recover_keeps now m k r h s =
      lookup-recover lib.time now k m ∙ ap (recovered_at lib.time now) h ∙ ground arith

  -- However a call of `ProcessDueLimit` ends, with an error of any write or none, a record that
  -- was uploaded, or failed and not to be tried again, is in the file as it was, when the file
  -- holds no checksum twice.
  pub process_due-Settled :
      (limit : ℤ) (now : Time) (recover_write : Option Text) (stored : Uploads) (k : Text)
      (r : Record)
      → IsMap stored
      → lookup k stored ≡ some r
      → Settled r
      → lookup k (process_due lib agent limit now recover_write worlds stored).stored ≡ some r
  unfolding process_due
  process_due-Settled limit now recover_write stored k r u h s =
      let kept = recover_keeps now stored k r h s in
      let same =
        Settled-kept limit now (recover lib.time now stored).0 k r
          (recover-IsMap lib.time now stored u) kept s in
      ground arith
