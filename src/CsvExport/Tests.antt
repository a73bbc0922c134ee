-- ===== src/CsvExport/Tests.antt =====
-- Runs of the export, and its theorems at concrete inputs.
use dawos_agent.Prelude.{
  ◌≤◌, Text, codes, text_eq, ◌≡◌, refl, false, map, length, take, select, none, some, [], ◌∷◌,
}
use dawos_agent.Prelude.Dict.{Dict, get}
use dawos_agent.SessionHistory.{HistoryRow, HistoryQuery, ordered, where_clause}
use dawos_agent.CsvExport.{cell, rows_to_csv, history_records}
use dawos_agent.CsvExport.Reader.{read_csv}
use dawos_agent.CsvExport.RoundTrip.{is_formula, read_csv-rows_to_csv_lem}
use dawos_agent.CsvExport.Limits.{history_records_lem}

abbrev row : Dict Text Text
row = (codes "ip", codes "10.0.0.1") ∷ (codes "username", codes "=a\"b,c") ∷ []

abbrev stored : HistoryRow
stored = record {
  id = 1;
  snapshot_at = codes "2026-01-01";
  username = codes "ann";
  ip = codes "10.0.0.1";
  cells = row;
}

abbrev everything : HistoryQuery
everything = record { username = none; ip = none; start = none; end = none }

neutralised : cell row (codes "username") ≡ codes "'=a\"b,c"
unfolding cell get
neutralised = refl

read_csv-rows_to_csv_lem_example :
    (read_csv (rows_to_csv (codes "ip" ∷ codes "username" ∷ []) (row ∷ []))
      ≡ (codes "ip" ∷ codes "username" ∷ [])
        ∷ map (λ r. map (cell r) (codes "ip" ∷ codes "username" ∷ [])) (row ∷ []))
    × ((r : Dict Text Text) (name : Text) → is_formula (cell r name) ≡ false)
    × ((r : Dict Text Text) (name value : Text)
        → get name r ≡ some value
        → is_formula value ≡ false
        → cell r name ≡ value)
read_csv-rows_to_csv_lem_example =
    read_csv-rows_to_csv_lem (codes "ip") (codes "username" ∷ []) (row ∷ [])

history_records_lem_example :
    (history_records everything 50_000 (stored ∷ [])
      ≡ take 1000 (ordered (select (λ r. where_clause everything r) (stored ∷ []))))
    × (length (history_records everything 50_000 (stored ∷ [])) ≤ 1000)
history_records_lem_example = history_records_lem everything 50_000 (stored ∷ [])
