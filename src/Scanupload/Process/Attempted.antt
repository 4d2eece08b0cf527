-- ===== src/Scanupload/Process/Attempted.antt =====
-- A call without a limit attempts every record that is due.
use wow_markets.Base.{
  true, false, List, [], ◌∷◌, ◌++◌, Option, none, some, if◌then◌else◌, ◌≡◌, ◌⊎◌, inl, inr, refl,
  sym, ap, ◌∙◌, str_eq, str_eq_iff, Bool-cases, Option-cases, arith,
}
use wow_markets.Base.Int.{pos}
use wow_markets.Base.Maps.{lookup, insert, text_key, IsMap, lookup-insert}
use wow_markets.Base.Strings.{Text}
use wow_markets.Scanupload.Record.{Record, Uploads}
use wow_markets.Scanupload.Outside.{Time, Rfc3339, Library}
use wow_markets.Scanupload.Due.{is_due, due_keys, due_checksums, insert_text, sort_texts}
use wow_markets.Scanupload.Process.{
  recover, Agent, World, process, process_due, begun, attempted, record_at,
}
use wow_markets.Scanupload.Process.Recovered.{
  NotAmong, recovered_record, recovered_at, lookup-recover, recover-IsMap, some_inj,
  due_keys-absent, insert_text-NotAmong, sort_texts-NotAmong,
}
use wow_markets.Scanupload.Process.Untouched.{lookup-process}

-- A text stands in a list, once.
abbrev Once : Text → List Text → Type 0
Once k [] = ⊥
Once k (j ∷ js) = ((str_eq j k ≡ true) × NotAmong k js) ⊎ ((str_eq j k ≡ false) × Once k js)

due_keys-Once :
    (time : Rfc3339) (now : Time) (k : Text) (r : Record) (m : Uploads)
    → IsMap m
    → lookup k m ≡ some r
    → is_due time r now ≡ true
    → Once k (due_keys time m now)
unfolding due_keys lookup
due_keys-Once time now k r [] u h d = cc
due_keys-Once time now k r ((j, s) ∷ m) u h d = elim (Bool-cases (str_eq j k)) [
  | inl y ↦
      let absent = ap (λ q. lookup q m) (sym ((str_eq_iff j k).0 y)) ∙ u.0 in
      let on = ap (λ q. is_due time q now) (some_inj s r (rw y at h)) ∙ d in
      rw on (inl (y, due_keys-absent time now k m absent))
  | inr n ↦ ground (arith, due_keys-Once time now k r m u.1 (rw n at h) d)
]

insert_text-Once :
    (k s : Text) (ts : List Text) → str_eq s k ≡ false → Once k ts → Once k (insert_text s ts)
unfolding insert_text
insert_text-Once k s [] n h = elim h [ ]
insert_text-Once k s (t ∷ ts) n (inl (y, na)) =
    let kept = insert_text-NotAmong k s ts n na in ground arith
insert_text-Once k s (t ∷ ts) n (inr (m, o)) = ground (arith, insert_text-Once k s ts n o)

insert_text-Once_itself :
    (k s : Text) (ts : List Text) → str_eq s k ≡ true → NotAmong k ts → Once k (insert_text s ts)
unfolding insert_text
insert_text-Once_itself k s [] y h = inl (y, tt)
insert_text-Once_itself k s (t ∷ ts) y h = ground (arith, insert_text-Once_itself k s ts y h.1)

sort_texts-Once : (k : Text) (ts : List Text) → Once k ts → Once k (sort_texts ts)
unfolding sort_texts
sort_texts-Once k [] h = elim h [ ]
sort_texts-Once k (t ∷ ts) (inl (y, h)) =
    insert_text-Once_itself k t (sort_texts ts) y (sort_texts-NotAmong k ts h)
sort_texts-Once k (t ∷ ts) (inr (n, h)) =
    insert_text-Once k t (sort_texts ts) n (sort_texts-Once k ts h)

record_at-some : (k : Text) (r : Record) (m : Uploads) → lookup k m ≡ some r → record_at k m ≡ r
record_at-some k r m h = rw (h, record_at) refl

module _ (lib : Library) (agent : Agent) (worlds : Text → World) where
  -- What a round leaves at its checksum, and at another.
  round_at :
      (j k : Text) (r : Record) (stored : Uploads)
      → lookup k stored ≡ some r
      → (let before = record_at j stored in
          let sending = insert j (begun lib agent (worlds j) before) stored in
          lookup k (insert j (attempted lib agent (worlds j) before) sending))
        ≡ (if str_eq j k then some (attempted lib agent (worlds k) r) else some r)
  round_at j k r stored h = elim (Bool-cases (str_eq j k)) [
    | inl y ↦
        let same = (str_eq_iff j k).0 y in
        let found = ap (λ q. record_at q stored) same ∙ record_at-some k r stored h in
        rw (lookup-insert j k _ _, y)
          (ap (λ q. some (attempted lib agent (worlds q) (record_at j stored))) same
            ∙ ap (λ q. some (attempted lib agent (worlds k) q)) found)
    | inr n ↦ rw (lookup-insert j k _ _, n, lookup-insert j k _ _, n) h
  ]

  process-Once :
      (k : Text) (r : Record) (ks : List Text) (results : List Record) (stored : Uploads)
      → Once k ks
      → lookup k stored ≡ some r
      → (process lib agent worlds results stored ks).error ≡ none
      → lookup k (process lib agent worlds results stored ks).stored
        ≡ some (attempted lib agent (worlds k) r)
  unfolding process
  process-Once k r [] results stored o h e = elim o [ ]
  process-Once k r (j ∷ ks) results stored o h e = elim (Option-cases (worlds j).cancelled) [
    | inr (x, c) ↦ cc (rw (c, process) at e)
    | inl c ↦ elim (Option-cases (worlds j).first_write) [
      | inr (x, w) ↦ cc (rw (c, w, process) at e)
      | inl w ↦ elim (Option-cases (worlds j).second_write) [
        | inr (x, v) ↦ cc (rw (c, w, v, process) at e)
        | inl v ↦
            let before = record_at j stored in
            let sending = insert j (begun lib agent (worlds j) before) stored in
            let sent = attempted lib agent (worlds j) before in
            let left = round_at j k r stored h in
            elim o [
              | inl (y, na) ↦
                  rw (c, w, v, process)
                    (lookup-process lib agent worlds k (results ++ sent ∷ [])
                        (insert j sent sending) ks na
                      ∙ rw y at left)
              | inr (n, more) ↦
                  rw (c, w, v, process)
                    (process-Once k r ks (results ++ sent ∷ []) (insert j sent sending) more
                      (rw n at left) (rw (c, w, v, process) at e))
            ]
      ]
    ]
  ]

  -- A call without a limit that ends without an error has attempted every record that is due
  -- behind the recovery, in the round of its checksum, and the file holds what came of it, when
  -- the file held no checksum twice.
  pub process_due-attempted :
      (now : Time) (recover_write : Option Text) (stored : Uploads) (k : Text) (r : Record)
      → IsMap stored
      → lookup k stored ≡ some r
      → is_due lib.time (recovered_record lib.time now r) now ≡ true
      → (process_due lib agent (pos 0) now recover_write worlds stored).error ≡ none
      → lookup k (process_due lib agent (pos 0) now recover_write worlds stored).stored
        ≡ some (attempted lib agent (worlds k) (recovered_record lib.time now r))
  unfolding process_due due_checksums
  process_due-attempted now recover_write stored k r u h d e =
      let uploads = (recover lib.time now stored).0 in
      let found = lookup-recover lib.time now k stored ∙ ap (recovered_at lib.time now) h in
      let once = sort_texts-Once k _ (
        due_keys-Once lib.time now k (recovered_record lib.time now r) uploads
          (recover-IsMap lib.time now stored u) found d) in
      let done =
        process-Once k (recovered_record lib.time now r) (due_checksums lib.time uploads now) []
          uploads once found in
      elim (Bool-cases (recover lib.time now stored).1) [
        | inr f ↦ rw (f, process_due) (done (rw (f, process_due) at e))
        | inl t ↦ elim (Option-cases recover_write) [
          | inr (x, w) ↦ cc (rw (t, w, process_due) at e)
          | inl w ↦ rw (t, w, process_due) (done (rw (t, w, process_due) at e))
        ]
      ]
