-- ===== src/Scanfile/Loaded.antt =====
-- What a database that `Load` returns is.
use wow_markets.Base.{
  ◌≡◌, ok, All, Result, inl, inr, Bool-cases, Result-cases, wrap, wrap-eq-ok, >>=-eq-ok, is_empty,
  ok_inj, subst,
}
use wow_markets.Base.Strings.{Text}
use wow_markets.Luasv.Token.{Unicode}
use wow_markets.Luasv.Parser.{parse_variable}
use wow_markets.Exportfmt.Scan.{Database}
use wow_markets.Exportfmt.Decode.{decode}
use wow_markets.Exportfmt.Decode.Sound.{decode-ScanValid}
use wow_markets.Exportfmt.Validate.Spec.{ScanValid}
use wow_markets.Scanfile.{
  open_failed, parse_failed, decode_failed, default_variable_name, legacy_variable_name,
  load_variable, load,
}

module _ (u : Unicode) where
  load_variable-ScanValid :
      (file : Result Text Text) (variable_name : Text) (db : Database)
      → load_variable u file variable_name ≡ ok db
      → All ScanValid db.scans
  unfolding load_variable
  load_variable-ScanValid file variable_name db h =
      let (content, _, h₁) = >>=-eq-ok (wrap open_failed file) _ h in
      let (root, _, last) =
        >>=-eq-ok (wrap parse_failed (parse_variable u content variable_name)) _ h₁ in
      (decode-ScanValid root db (wrap-eq-ok decode_failed (decode root) last)).1

  -- Every scan is valid, whichever variable the file has.
  pub load-ScanValid :
      (first second : Result Text Text) (variable_name : Text) (db : Database)
      → load u first second variable_name ≡ ok db
      → All ScanValid db.scans
  unfolding load
  load-ScanValid first second variable_name db h = elim (Bool-cases (is_empty variable_name)) [
    | inr named ↦ load_variable-ScanValid first variable_name db (rw (named, load) at h)
    | inl unnamed ↦ elim (Result-cases (load_variable u first default_variable_name)) [
      | inl (found, primary) ↦
          subst (λ d. All ScanValid d.scans) (ok_inj (rw (unnamed, primary, load) at h))
            (load_variable-ScanValid first default_variable_name found primary)
      | inr (e, primary) ↦ elim (Result-cases (load_variable u second legacy_variable_name)) [
        | inl (found, legacy) ↦
            subst (λ d. All ScanValid d.scans) (ok_inj (rw (unnamed, primary, legacy, load) at h))
              (load_variable-ScanValid second legacy_variable_name found legacy)
        | inr (e₂, legacy) ↦ cc (rw (unnamed, primary, legacy, load) at h)
      ]
    ]
  ]
