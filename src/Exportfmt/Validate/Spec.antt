-- ===== src/Exportfmt/Validate/Spec.antt =====
-- What a valid scan is, apart from the order of the tests and the way they are written.
use wow_markets.Base.{◌≡◌, ◌≢◌, ◌⊎◌, true, List, [], ◌∷◌, ◌↔◌, codes, length, All}
use wow_markets.Base.Int.{ℤ, pos, ◌≤ℤ◌, ◌<ℤ◌}
use wow_markets.Base.Strings.{Text}
use wow_markets.Exportfmt.Scan.{Scan, Row, format_version}
use wow_markets.Exportfmt.Validate.{regions, neutral_zones, neutral_subzones}

abbrev pub In : Text → List Text → Type 0
In s [] = ⊥
In s (t ∷ ts) = (s ≡ t) ⊎ In s ts

pub record ExportValid (s : Scan) : Type 0 where
  pub version : s.format_version ≡ format_version
  pub ready : s.status ≡ codes "ready"
  pub captured : pos 0 <ℤ s.captured_at
  pub started : pos 0 <ℤ s.export_started_at
  pub finished : pos 0 <ℤ s.export_finished_at
  pub in_order : s.export_started_at ≤ℤ s.export_finished_at
  pub duration : pos 0 ≤ℤ s.export_duration_ms
  pub batch : pos 0 <ℤ s.export_batch_size

-- The place is neutral by its map, its zone or its subzone.
abbrev pub IsNeutral : Text → Text → ℤ → Type 0
IsNeutral zone subzone id =
    ((id ≡ pos 1434) ⊎ (id ≡ pos 1446) ⊎ (id ≡ pos 1452))
    ⊎ In zone neutral_zones
    ⊎ In subzone neutral_subzones

pub record PlaceValid (s : Scan) : Type 0 where
  pub known_region : In s.region regions
  pub realm : s.realm ≢ []
  pub scanner_realm : s.scanner_realm ≢ []
  pub faction : (s.faction ≡ codes "Alliance") ⊎ (s.faction ≡ codes "Horde")
  pub zone : s.capture_zone ≢ []
  pub map : pos 0 ≤ℤ s.capture_ui_map_id
  -- The declared auction house is the one of the place.
  pub located :
      ((s.auction_house ≡ codes "neutral")
        × IsNeutral s.capture_zone s.capture_subzone s.capture_ui_map_id)
      ⊎ ((s.auction_house ≡ codes "faction")
          × ¬ IsNeutral s.capture_zone s.capture_subzone s.capture_ui_map_id)

pub record ScannerValid (s : Scan) : Type 0 where
  pub name : s.scanner_name ≢ []
  pub guid : s.scanner_guid ≢ []
  pub same_region : s.scanner_region ≡ s.region
  pub known_region : In s.scanner_region regions
  pub source : s.source ≢ []
  pub source_event : s.source_event ≢ []
  pub source_version : s.source_version ≢ []
  pub addon_version : s.addon_version ≢ []

pub record CountsValid (s : Scan) : Type 0 where
  pub exported : s.exported_row_count ≡ pos (length s.rows)
  pub enough_rows : s.exported_row_count ≤ℤ s.source_row_count
  pub items : pos 0 ≤ℤ s.item_count
  pub truncated : (s.truncated ≡ true) ↔ (s.source_row_count ≢ s.exported_row_count)
  pub has_items : s.rows ≢ [] → pos 0 <ℤ s.item_count

-- A row of a scan that counts `n` source rows.
pub record RowValid (n : ℤ) (r : Row) : Type 0 where
  pub source_row : pos 1 ≤ℤ r.source_row
  pub source_row_counted : r.source_row ≤ℤ n
  pub item_id : pos 1 ≤ℤ r.item_id
  pub stack_count : pos 1 ≤ℤ r.stack_count
  pub min_bid : pos 0 ≤ℤ r.min_bid
  pub min_increment : pos 0 ≤ℤ r.min_increment
  pub buyout : pos 0 ≤ℤ r.buyout
  pub bid_amount : pos 0 ≤ℤ r.bid_amount

-- No two rows name the same source row.
abbrev pub Distinct : List Row → Type 0
Distinct [] = Unit
Distinct (r ∷ rs) = All (λ q. q.source_row ≢ r.source_row) rs × Distinct rs

pub record ScanValid (s : Scan) : Type 0 where
  pub export : ExportValid s
  pub place : PlaceValid s
  pub scanner : ScannerValid s
  pub counts : CountsValid s
  pub each_row : All (RowValid s.source_row_count) s.rows
  pub distinct : Distinct s.rows
