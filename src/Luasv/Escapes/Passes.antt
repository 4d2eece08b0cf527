-- ===== src/Luasv/Escapes/Passes.antt =====
-- `scanString` passes what it reads, and always has enough fuel.
use wow_markets.Base.{ℕ, [], ◌∷◌, ◌++◌, ok, err}
use wow_markets.Base.Strings.{Text}
use wow_markets.Luasv.Token.{Unicode, string_fuel}
use wow_markets.Luasv.Cursor.{Lexer}
use wow_markets.Luasv.Cursor.Passes.{Passes}
use wow_markets.Luasv.Escapes.{StringScan, scan_string}
use wow_markets.Luasv.Escapes.Spelled.{Spelled, scan_string-Spelled}

-- The scan has not run out of fuel, and a value comes with a lexer that passed a text.
abbrev pub Scans : Lexer → StringScan → Type 0
Scans l (ok (_, l')) = (text : Text) × Passes l text l'
Scans l (err string_fuel) = ⊥
Scans l (err _) = Unit

Spelled-Scans :
    (u : Unicode) (quote : ℕ) (l : Lexer) (r : StringScan) → Spelled u quote l [] r → Scans l r
Spelled-Scans u quote l (ok (s, l')) (b, v, p, body, e) = (b ++ quote ∷ [], p)
Spelled-Scans u quote l (err string_fuel) (b, v, m, p, body, stops) = stops
Spelled-Scans u quote l (err _) h = tt

-- A string's scan ends without a shortage of fuel, and the lexer behind a string that it returns
-- has passed a text of the input.
pub scan_string-Scans : (u : Unicode) (quote : ℕ) (l : Lexer) → Scans l (scan_string u quote l)
scan_string-Scans u quote l = Spelled-Scans u quote l _ (scan_string-Spelled u quote l)
