-- ===== src/CsvExport/Limits.antt =====
-- How many records an export of the history holds.
use Prim.Native.Nat.{min, max}
use dawos_agent.Prelude.{ℕ, ◌≤◌, length, length-take, take, select, List, ◌≡◌, ap, arith}
use dawos_agent.SessionHistory.{
  HistoryRow, HistoryQuery, query_history, query_rows, ordered, where_clause,
}
use dawos_agent.CsvExport.{history_records}

-- Whatever limit is asked for, up to 50000 as the export allows it, at most 1000 records are exported,
-- the first of those that match in the order of the query.
pub history_records_lem :
    (q : HistoryQuery) (limit : ℕ) (rows : List HistoryRow)
    → (history_records q limit rows
        ≡ take (max 1 (min limit 1000)) (ordered (select (λ r. where_clause q r) rows)))
      × (length (history_records q limit rows) ≤ 1000)
unfolding history_records query_history query_rows
history_records_lem q limit rows =
    let matching = ordered (select (λ r. where_clause q r) rows) in
    (
      ap (λ n. take n matching) {x = max 1 (min (max 1 (min limit 50_000)) 1000)}
          {y = max 1 (min limit 1000)} (omega arith),
      omega (arith, length-take (max 1 (min (max 1 (min limit 50_000)) 1000)) matching),
    )
