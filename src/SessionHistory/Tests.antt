-- ===== src/SessionHistory/Tests.antt =====
-- A page of the history, and the theorem on queries at a concrete table.
use Prim.Native.Nat.{min, max}
use dawos_agent.Prelude.{
  text_eq, codes, Bool, take, drop, select, count_if, none, some, [], ◌∷◌, ◌≡◌, refl, map,
}
use dawos_agent.SessionHistory.{HistoryRow, HistoryQuery, query_history, where_clause}
use dawos_agent.SessionHistory.Ordered.{IsSorted, matching, query_history_lem}

abbrev first : HistoryRow
first = record {
  id = 1;
  snapshot_at = codes "2026-01-01";
  username = codes "ann";
  ip = codes "10.0.0.1";
  cells = [];
}

abbrev second : HistoryRow
second = record first { id = 2 }

abbrev other : HistoryRow
other = record first { id = 3; username = codes "bob" }

abbrev of_ann : HistoryQuery
of_ann = record { username = some (codes "ann"); ip = none; start = none; end = none }

second_page :
    map (λ r. r.id) (query_history of_ann 1 1 (first ∷ second ∷ other ∷ [])).records ≡ 1 ∷ []
unfolding query_history
second_page = refl

query_history_lem_example :
    IsSorted (matching of_ann (first ∷ second ∷ other ∷ []))
    × ((p : HistoryRow → Bool)
        → count_if p (matching of_ann (first ∷ second ∷ other ∷ []))
          ≡ count_if p (select (λ r. where_clause of_ann r) (first ∷ second ∷ other ∷ [])))
    × ((query_history of_ann 1 1 (first ∷ second ∷ other ∷ [])).records
        ≡ take (max 1 (min 1 1000)) (drop 1 (matching of_ann (first ∷ second ∷ other ∷ []))))
    × ((query_history of_ann 1 1 (first ∷ second ∷ other ∷ [])).total
        ≡ count_if (λ r. where_clause of_ann r) (first ∷ second ∷ other ∷ []))
query_history_lem_example = query_history_lem of_ann 1 1 (first ∷ second ∷ other ∷ [])
