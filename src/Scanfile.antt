-- ===== src/Scanfile.antt =====
-- companion/internal/scanfile/load.go: `Load` and `loadVariable`. Each reading of the file is
-- given by how it ends, its text or an error.
pub mod Loaded
use wow_markets.Base.{
  List, Option, some, none, if◌then◌else◌, Result, ok, err, ◌>>=◌, wrap, codes, is_empty,
}
use wow_markets.Base.Strings.{Text}
use wow_markets.Luasv.Token as Lua
use wow_markets.Luasv.Token.{Unicode}
use wow_markets.Luasv.Parser.{parse_variable}
use wow_markets.Exportfmt.Scan as Export
use wow_markets.Exportfmt.Scan.{Database}
use wow_markets.Exportfmt.Decode.{decode}

abbrev pub default_variable_name : Text
default_variable_name = codes "WOW_MARKETS_DB"

abbrev pub legacy_variable_name : Text
legacy_variable_name = codes "WOW_MARKET_SCAN_DB"

pub data LoadError : Type 0 where
  open_failed : Text → LoadError
  parse_failed : Lua.Error → LoadError
  decode_failed : Export.Error → LoadError
  -- The errors under the default and the legacy name.
  neither : LoadError → LoadError → LoadError

module _ (u : Unicode) where
  unfoldable pub load_variable : Result Text Text → Text → Result LoadError Database
  load_variable file variable_name = do
    content ← wrap open_failed file
    root ← wrap parse_failed (parse_variable u content variable_name)
    wrap decode_failed (decode root)

  -- Where the first reading fails, the second is for the legacy name.
  unfoldable pub load : Result Text Text → Result Text Text → Text → Result LoadError Database
  load first second variable_name =
      if is_empty variable_name
      then elim (load_variable first default_variable_name) [
        | ok database ↦ ok database
        | err primary ↦ elim (load_variable second legacy_variable_name) [
          | ok database ↦ ok database
          | err legacy ↦ err (neither primary legacy)
        ]
      ]
      else load_variable first variable_name
