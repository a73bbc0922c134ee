-- ===== src/CsvExport.antt =====
-- dawos_agent/services/csv_export.py. `csv.writer` with QUOTE_ALL is part of the standard library and is
-- written out here: each field in quotes, quotes doubled, commas between, and `\r\n` after each row.
pub mod Reader
pub mod RoundTrip
pub mod Limits
mod Tests
use Prim.Native.Nat.{min, max}
use dawos_agent.Prelude.{
  ℕ, String, Text, codes, text_eq, nat_eq, Bool, true, false, ◌==◌, ◌||◌, Option, none, some, List,
  [], ◌∷◌, ◌++◌, map, if◌then◌else◌,
}
use dawos_agent.Prelude.Dict.{Dict, get}
use dawos_agent.SessionHistory.{HistoryRow, HistoryQuery, HistoryPage, query_history}

abbrev pub session_fields : List Text
session_fields =
    codes "ifname"
    ∷ codes "username"
    ∷ codes "ip"
    ∷ codes "calling-sid"
    ∷ codes "rate-limit"
    ∷ codes "type"
    ∷ codes "state"
    ∷ codes "uptime"
    ∷ codes "rx-bytes"
    ∷ codes "tx-bytes"
    ∷ []

abbrev pub history_fields : List Text
history_fields =
    codes "id"
    ∷ codes "snapshot_at"
    ∷ codes "username"
    ∷ codes "ip"
    ∷ codes "sid"
    ∷ codes "ifname"
    ∷ codes "calling_sid"
    ∷ codes "state"
    ∷ codes "uptime"
    ∷ codes "rx_bytes"
    ∷ codes "tx_bytes"
    ∷ []

-- `=`, `+`, `-`, `@`, tab and carriage return
abbrev pub is_trigger : ℕ → Bool
is_trigger c = (c == b'=') || (c == b'+') || (c == b'-') || (c == b'@') || (c == 9) || (c == 13)

unfoldable pub sanitize : Text → Text
sanitize [] = []
sanitize (c ∷ cs) = if is_trigger c then b'\'' ∷ c ∷ cs else c ∷ cs

unfoldable pub doubled : Text → Text
doubled [] = []
doubled (c ∷ cs) = if c == b'"' then b'"' ∷ b'"' ∷ doubled cs else c ∷ doubled cs

unfoldable pub quoted : Text → Text
unfolding doubled
quoted field = b'"' ∷ (doubled field ++ (b'"' ∷ []))

unfoldable pub write_row : List Text → Text
unfolding quoted
write_row [] = 13 ∷ 10 ∷ []
write_row (field ∷ []) = quoted field ++ (13 ∷ 10 ∷ [])
write_row (field ∷ next ∷ fields) = quoted field ++ (b',' ∷ write_row (next ∷ fields))

unfoldable pub cell_value : Option Text → Text
unfolding sanitize
cell_value none = []
cell_value (some value) = sanitize value

-- `str(row.get(f, ""))`, sanitised
unfoldable pub cell : Dict Text Text → Text → Text
unfolding cell_value
cell row field = cell_value (get field row)

unfoldable pub write_rows : List Text → List (Dict Text Text) → Text
unfolding write_row cell
write_rows fields [] = []
write_rows fields (row ∷ rows) = write_row (map (cell row) fields) ++ write_rows fields rows

unfoldable pub rows_to_csv : List Text → List (Dict Text Text) → Text
unfolding write_rows
rows_to_csv fields rows = write_row fields ++ write_rows fields rows

unfoldable pub export_sessions_csv : List (Dict Text Text) → Text
unfolding rows_to_csv
export_sessions_csv sessions = rows_to_csv session_fields sessions

-- The records that `export_history_csv` asks for.
unfoldable pub history_records : HistoryQuery → ℕ → List HistoryRow → List HistoryRow
unfolding query_history
history_records q limit rows = (query_history q (max 1 (min limit 50_000)) 0 rows).records

unfoldable pub export_history_csv : HistoryQuery → ℕ → List HistoryRow → Text
unfolding rows_to_csv history_records
export_history_csv q limit rows =
    rows_to_csv history_fields (map (λ r. r.cells) (history_records q limit rows))
